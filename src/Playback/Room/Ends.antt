-- ===== src/Playback/Room/Ends.antt =====
-- pkg/playback/playback.go: the loops of ClearQueue and Cleanup come to an end without a panic.
use streaming_server.Base.{
  ℕ, zero, suc, ◌+◌, ◌≤◌, List, [], ◌∷◌, ◌≡◌, inl, inr, refl, ◌∙◌, arith, none, ok, err, panic,
  diverges, leb, length, drop, get_elem?-Some, get_elem?-All, length-append, length-drop, All,
  All-append, All-drop, Bool-cases,
}
use streaming_server.Base.Text.{Str}
use streaming_server.Base.Dict.{values}
use streaming_server.Queue.Item.{QueueItem, single, aggregate, Result}
use streaming_server.Queue.RoundRobin.{delete_from_queue}
use streaming_server.Playback.Timer
use streaming_server.Playback.Room.{
  Room, shared_array, unreferenced, clear_queue_item, clear_each_item, clear_items,
  clear_each_queue, clear_queue, cleanup, released,
}
use streaming_server.Queue.RoundRobin.Singles.{
  IsSingle, HoldsStreams, Returns, delete_from_queue-Keeps,
}

-- The room keeps its name and holds streams only, and the call returns.
abbrev Keeps : Str → Room × Result (Unit {0}) → Type 0
Keeps name (r, o) = (r.playback.name ≡ name) × HoldsStreams r.playback.queue.heap × Returns o

clear_queue_item-Keeps :
    (r : Room) (a : ℕ) (x : QueueItem)
    → HoldsStreams r.playback.queue.heap
    → IsSingle x
    → Keeps r.playback.name (clear_queue_item r (aggregate a) x)
unfolding clear_queue_item unreferenced
clear_queue_item-Keeps r a (aggregate b) hs s = absurd s
clear_queue_item-Keeps r a (single k p) hs s =
    returned ((delete_from_queue r.playback.queue (aggregate a) (single k p)).1) refl
      (delete_from_queue-Keeps r.playback.queue a (single k p) hs).1
  where
    returned :
        (o : Result (Unit {0}))
        → (delete_from_queue r.playback.queue (aggregate a) (single k p)).1 ≡ o
        → Returns o
        → Keeps r.playback.name (clear_queue_item r (aggregate a) (single k p))
    returned (ok _) e _ =
        rw (e, clear_queue_item)
          (refl, (delete_from_queue-Keeps r.playback.queue a (single k p) hs).0, tt)
    returned (err _) e _ =
        rw (e, clear_queue_item)
          (refl, (delete_from_queue-Keeps r.playback.queue a (single k p) hs).0, tt)
    returned panic e n = absurd n
    returned diverges e n = absurd n

length-shared_array_le :
    (items array : List QueueItem) (n : ℕ)
    → n ≤ length array
    → n ≤ length (shared_array items array)
length-shared_array_le items array n le = elim (Bool-cases (leb (length items) (length array))) [
  | inl short ↦ omega (
    arith,
    le,
    length-append {0} items (drop (length items) array),
    length-drop {0} (length items) array (ground (arith, short)),
  )
  | inr long ↦ ground (arith, le, long, length-append {0} items (drop (length items) array))
]

-- A loop goes on behind an error.
continued :
    (name : Str) (o : Result (Unit {0})) (r' : Room) (rest : Room × Result (Unit {0}))
    → Returns o
    → Keeps name rest
    → Keeps name
        (elim o [ ok _ ↦ rest | err _ ↦ rest | panic ↦ (r', panic) | diverges ↦ (r', diverges) ])
continued name (ok _) r' rest returns k = k
continued name (err _) r' rest returns k = k
continued name panic r' rest returns k = absurd returns
continued name diverges r' rest returns k = absurd returns

clear_each_item-Keeps :
    (n i : ℕ) (array : List QueueItem) (r : Room) (a : ℕ)
    → HoldsStreams r.playback.queue.heap
    → All IsSingle array
    → i + n ≤ length array
    → Keeps r.playback.name (clear_each_item n i array r a)
unfolding clear_each_item
clear_each_item-Keeps zero i array r a hs ss le = (refl, hs, tt)
clear_each_item-Keeps (suc n) i array r a hs ss le =
    let (x, at_i) = get_elem?-Some array i (omega (arith, le)) in
    let t = clear_queue_item r (aggregate a) x in
    let items = (t.0.playback.queue.heap a).items in
    let (name, kept, returns) =
      clear_queue_item-Keeps r a x hs (get_elem?-All IsSingle array i x ss at_i) in
    let (name', kept', returns') =
      clear_each_item-Keeps n (suc i) (shared_array items array) t.0 a kept
        (All-append IsSingle items (drop (length items) array) (kept a)
          (All-drop IsSingle (length items) array ss))
        (length-shared_array_le items array (suc i + n) (omega (arith, le))) in
    rw (at_i, clear_each_item)
      (continued r.playback.name t.1 t.0
        (clear_each_item n (suc i) (shared_array items array) t.0 a) returns
        (name' ∙ name, kept', returns'))

clear_items-Keeps :
    (r : Room) (a : ℕ)
    → HoldsStreams r.playback.queue.heap
    → Keeps r.playback.name (clear_items r a)
unfolding clear_items
clear_items-Keeps r a hs =
    let items = (r.playback.queue.heap a).items in
    clear_each_item-Keeps (length items) 0 items r a hs (hs a) (omega arith)

clear_each_queue-Keeps :
    (queues : List ℕ) (r : Room)
    → HoldsStreams r.playback.queue.heap
    → Keeps r.playback.name (clear_each_queue queues r)
unfolding clear_each_queue
clear_each_queue-Keeps [] r hs = (refl, hs, tt)
clear_each_queue-Keeps (a ∷ queues) r hs =
    let (name, kept, returns) = clear_items-Keeps r a hs in
    let t = clear_items r a in
    let (name', kept', returns') = clear_each_queue-Keeps queues t.0 kept in
    continued r.playback.name t.1 t.0 (clear_each_queue queues t.0) returns
      (name' ∙ name, kept', returns')

clear_queue_lem :
    (r : Room)
    → HoldsStreams r.playback.queue.heap
    → ((clear_queue r).1 ≡ ok tt) × ((clear_queue r).0.playback.name ≡ r.playback.name)
unfolding clear_queue
clear_queue_lem r hs = ends (clear_each_queue (values r.playback.queue.items_by_id) r).1 refl kept.2
  where
    kept : Keeps r.playback.name (clear_each_queue (values r.playback.queue.items_by_id) r)
    kept = clear_each_queue-Keeps (values r.playback.queue.items_by_id) r hs

    ends :
        (o : Result (Unit {0}))
        → (clear_each_queue (values r.playback.queue.items_by_id) r).1 ≡ o
        → Returns o
        → ((clear_queue r).1 ≡ ok tt) × ((clear_queue r).0.playback.name ≡ r.playback.name)
    ends (ok _) e _ = rw (e, clear_queue) (refl, kept.0)
    ends (err _) e _ = rw (e, clear_queue) (refl, kept.0)
    ends panic e n = absurd n
    ends diverges e n = absurd n

-- Cleanup of a room whose users' queues hold streams only returns; the playback keeps its name and has
-- no stream.
pub cleanup_lem :
    (r : Room)
    → HoldsStreams r.playback.queue.heap
    → ((cleanup r).1 ≡ ok tt)
      × ((cleanup r).0.playback.name ≡ r.playback.name)
      × ((cleanup r).0.playback.stream ≡ none)
unfolding cleanup
cleanup_lem r hs =
    let freed : Room = record {
      playback = record r.playback {
        timer = record (Timer.stop r.playback.timer) { callbacks = [] };
      };
      streams = released r.streams r.playback.name r.playback.stream;
    } in
    let (ends, name) = clear_queue_lem freed hs in rw (ends, cleanup) (refl, name, refl)
