-- ===== src/Playback/Room/Cleared.antt =====
-- pkg/playback/playback.go: what ClearUserQueue does to the references of a room.
use streaming_server.Base.{
  ℕ, zero, suc, ◌+◌, ◌≤◌, List, [], ◌∷◌, ◌++◌, ◌≡◌, inl, inr, refl, sym, ap, ◌∙◌, arith, some, ok,
  err, length, drop, get_elem?, get_elem?-Some, get_elem?-All, length-append, length-drop, subst,
  All, All-append, All-append_inv, All-drop,
}
use streaming_server.Base.Text.{Str}
use streaming_server.Base.Dict.{lookup}
use streaming_server.Queue.Item.{
  QueueItem, single, aggregate, uuid, set_items, QueueError, item_not_found, uuid-set_items,
  items-set_items, id-set_items, Result,
}
use streaming_server.Queue.Schema
use streaming_server.Queue.Schema.Search.{
  Distinct, search_cases, delete_item-front, delete_item-none,
}
use streaming_server.Queue.RoundRobin.{delete_from_queue}
use streaming_server.Queue.RoundRobin.Singles.{IsSingle}
use streaming_server.Queue.RoundRobin.Emptied.{delete_from_queue-heap}
use streaming_server.Streams.{Streams, remove_parent_ref}
use streaming_server.Playback.Room.{
  Room, with_object, with_queue, shared_array, clear_queue_item, clear_each_item, clear_items,
  clear_user_queue,
}
use streaming_server.Playback.Room.Shifted.{cleared, clears, clears_items}

-- The room with the name no longer refers to the streams.
abbrev pub unreference : Str → QueueItem → Streams → Streams
unreference name (single _ p) h = with_object h p (remove_parent_ref (h.objects p) name).0
unreference name (aggregate _) h = h

abbrev pub unreference_each : Str → List QueueItem → Streams → Streams
unreference_each name [] h = h
unreference_each name (x ∷ xs) h = unreference_each name xs (unreference name x h)

-- The room's queue holds the user's queue, unless it is empty.
abbrev IsLinked : Room → ℕ → List QueueItem → Type 0
IsLinked r a [] = Unit
IsLinked r a (x ∷ xs) = lookup (r.playback.queue.heap a).id r.playback.queue.items_by_id ≡ some a

-- ClearQueueItem of an item that is in the user's queue, and of one that is not.
clear_queue_item-found :
    (r : Room) (a : ℕ) (k : Str) (p : ℕ) (left : List QueueItem)
    → lookup (r.playback.queue.heap a).id r.playback.queue.items_by_id ≡ some a
    → Schema.delete_item
        (uuid r.playback.queue.heap)
        (uuid r.playback.queue.heap (single k p))
        (r.playback.queue.heap a).items
      ≡ ok left
    → ((clear_queue_item r (aggregate a) (single k p)).1 ≡ ok tt)
      × ((clear_queue_item r (aggregate a) (single k p)).0.streams
          ≡ unreference r.playback.name (single k p) r.streams)
      × ((clear_queue_item r (aggregate a) (single k p)).0.playback.name ≡ r.playback.name)
      × ((clear_queue_item r (aggregate a) (single k p)).0.playback.queue
          ≡ (delete_from_queue r.playback.queue (aggregate a) (single k p)).0)
unfolding clear_queue_item
clear_queue_item-found r a k p left linked e =
    let (fine, _, _) = delete_from_queue-heap r.playback.queue a (single k p) left linked e in
    rw (fine, clear_queue_item) (refl, refl, refl, refl)

clear_queue_item-missing :
    (r : Room) (a : ℕ) (x : QueueItem) (e : _)
    → Schema.delete_item
        (uuid r.playback.queue.heap)
        (uuid r.playback.queue.heap x)
        (r.playback.queue.heap a).items
      ≡ err e
    → clear_queue_item r (aggregate a) x ≡ (r, err e)
unfolding clear_queue_item delete_from_queue
clear_queue_item-missing r a x e missing =
    let same : delete_from_queue r.playback.queue (aggregate a) x ≡ (r.playback.queue, err e) =
      rw (missing, delete_from_queue) refl in
    rw (same, clear_queue_item) (ap (λ q. (with_queue r q.0, err e)) same)

length-shared_array :
    (items array : List QueueItem)
    → length items ≤ length array
    → length (shared_array items array) ≡ length array
length-shared_array items array le = omega (
  arith,
  length-append {0} items (drop (length items) array),
  length-drop {0} (length items) array le,
)

IsSingle-shared_array :
    (items array : List QueueItem)
    → All IsSingle items
    → All IsSingle array
    → All IsSingle (shared_array items array)
IsSingle-shared_array items array hi ha =
    All-append IsSingle items (drop (length items) array) hi
      (All-drop IsSingle (length items) array ha)

-- The state that a loop meets: the queue has the items, all of them streams, within the array.
record Meets (id : QueueItem → Str) (r : Room) (a : ℕ) (array items : List QueueItem) : Type 0 where
  ids : uuid r.playback.queue.heap ≡ id
  has : (r.playback.queue.heap a).items ≡ items
  linked : IsLinked r a items
  array_streams : All IsSingle array
  streams : All IsSingle items
  fits : length items ≤ length array

IsLinked-at :
    (r : Room) (a : ℕ) (front : List QueueItem) (x : QueueItem) (back : List QueueItem)
    → IsLinked r a (front ++ x ∷ back)
    → lookup (r.playback.queue.heap a).id r.playback.queue.items_by_id ≡ some a
IsLinked-at r a [] x back h = h
IsLinked-at r a (y ∷ front) x back h = h

IsLinked-any :
    (r : Room) (a : ℕ) (items : List QueueItem)
    → lookup (r.playback.queue.heap a).id r.playback.queue.items_by_id ≡ some a
    → IsLinked r a items
IsLinked-any r a [] h = tt
IsLinked-any r a (x ∷ xs) h = h

Meets-found :
    (id : QueueItem → Str) (r : Room) (a : ℕ) (array front : List QueueItem) (y : QueueItem)
    (back : List QueueItem) (k : Str) (p : ℕ)
    → Meets id r a array (front ++ y ∷ back)
    → Schema.delete_item id (id (single k p)) (front ++ y ∷ back) ≡ ok (front ++ back)
    → ((clear_queue_item r (aggregate a) (single k p)).1 ≡ ok tt)
      × ((clear_queue_item r (aggregate a) (single k p)).0.streams
          ≡ unreference r.playback.name (single k p) r.streams)
      × ((clear_queue_item r (aggregate a) (single k p)).0.playback.name ≡ r.playback.name)
      × Meets id
          (clear_queue_item r (aggregate a) (single k p)).0
          a
          (shared_array (front ++ back) array)
          (front ++ back)
Meets-found id r a array front y back k p m e =
    let q = r.playback.queue in
    let left = front ++ back in
    let linked = IsLinked-at r a front y back m.linked in
    let e' : Schema.delete_item (uuid q.heap) (uuid q.heap (single k p)) (q.heap a).items
        ≡ ok left =
      rw (← m.ids, ← m.has) at e in
    let (fine, streams, name, queue) = clear_queue_item-found r a k p left linked e' in
    let (_, heap, by_id) = delete_from_queue-heap q a (single k p) left linked e' in
    let r' = (clear_queue_item r (aggregate a) (single k p)).0 in
    let heap' : r'.playback.queue.heap ≡ set_items q.heap a left = ap (λ x. x.heap) queue ∙ heap in
    let (streams_front, streams_back) = All-append_inv IsSingle front (y ∷ back) m.streams in
    let shorter : length left ≤ length array =
      omega (arith, m.fits, length-append {0} front back, length-append {0} front (y ∷ back)) in
    let singles = All-append IsSingle front back streams_front streams_back.1 in
    (
      fine,
      streams,
      name,
      record {
        ids = rw heap' (uuid-set_items q.heap a left) ∙ m.ids;
        has = rw heap' (items-set_items q.heap a left);
        linked = elim by_id [
          | inl empty ↦ subst (IsLinked r' a) (sym empty) tt
          | inr same ↦
              IsLinked-any r' a left
                (rw (heap', queue) (rw (same, id-set_items q.heap a left a) linked))
        ];
        array_streams = IsSingle-shared_array left array singles m.array_streams;
        streams = singles;
        fits = rw (length-shared_array left array shorter) shorter;
      },
    )

-- The loop does to the room what `clears` says: it ends well, the room no longer refers to what is
-- deleted, and the queue has what is left.
Clears :
    (QueueItem → Str)
    → Room
    → ℕ
    → List QueueItem × List QueueItem
    → Room × Result (Unit {0})
    → Type 0
Clears id r a (gone, left) (r', o) =
    (o ≡ ok tt)
    × (r'.streams ≡ unreference_each r.playback.name gone r.streams)
    × ((r'.playback.queue.heap a).items ≡ left)

clear_each_item_next :
    (n i : ℕ) (array : List QueueItem) (r : Room) (a : ℕ) (x : QueueItem)
    → get_elem? array i ≡ some x
    → (clear_queue_item r (aggregate a) x).1 ≡ ok tt
    → clear_each_item (suc n) i array r a
      ≡ clear_each_item n
          (suc i)
          (shared_array ((clear_queue_item r (aggregate a) x).0.playback.queue.heap a).items array)
          (clear_queue_item r (aggregate a) x).0
          a
unfolding clear_each_item
clear_each_item_next n i array r a x at_i fine = rw (at_i, clear_each_item) (rw fine refl)

clear_each_item_skip :
    (n i : ℕ) (array : List QueueItem) (r : Room) (a : ℕ) (x : QueueItem) (e : QueueError)
    → get_elem? array i ≡ some x
    → clear_queue_item r (aggregate a) x ≡ (r, err e)
    → clear_each_item (suc n) i array r a
      ≡ clear_each_item n (suc i) (shared_array (r.playback.queue.heap a).items array) r a
unfolding clear_each_item
clear_each_item_skip n i array r a x e at_i failed =
    rw (at_i, clear_each_item)
      (rw (ap (λ t. t.1) failed) (
        ap
          (λ t.
            clear_each_item n (suc i) (shared_array (t.0.playback.queue.heap a).items array) t.0 a)
          failed))

clears_next :
    (id : QueueItem → Str) (n i : ℕ) (array items left : List QueueItem) (x : QueueItem)
    → get_elem? array i ≡ some x
    → Schema.delete_item id (id x) items ≡ ok left
    → clears id (suc n) i array items ≡ (
      x ∷ (clears id n (suc i) (shared_array left array) left).0,
      (clears id n (suc i) (shared_array left array) left).1,
    )
unfolding clears
clears_next id n i array items left x at_i e = rw (at_i, clears) (rw e refl)

clears_skip :
    (id : QueueItem → Str) (n i : ℕ) (array items : List QueueItem) (x : QueueItem) (e : QueueError)
    → get_elem? array i ≡ some x
    → Schema.delete_item id (id x) items ≡ err e
    → clears id (suc n) i array items ≡ clears id n (suc i) (shared_array items array) items
unfolding clears
clears_skip id n i array items x e at_i missing = rw (at_i, clears) (rw missing refl)

clear_each_item-Clears :
    (n i : ℕ) (id : QueueItem → Str) (r : Room) (a : ℕ) (array items : List QueueItem)
    → Meets id r a array items
    → i + n ≤ length array
    → Clears id r a (clears id n i array items) (clear_each_item n i array r a)
unfolding clear_each_item clears Clears
clear_each_item-Clears zero i id r a array items m le = (refl, refl, m.has)
clear_each_item-Clears (suc n) i id r a array items m le =
    let (x, at_i) = get_elem?-Some array i (omega (arith, le)) in
    at_item (λ r' array' items'. clear_each_item-Clears n (suc i) id r' a array' items') x
      (get_elem?-All IsSingle array i x m.array_streams at_i) at_i
  where
    at_item :
        ((r' : Room) (array' items' : List QueueItem)
          → Meets id r' a array' items'
          → suc i + n ≤ length array'
          → Clears id r' a
              (clears id n (suc i) array' items')
              (clear_each_item n (suc i) array' r' a))
        → (x : QueueItem) → IsSingle x
        → get_elem? array i ≡ some x
        → Clears id r a (clears id (suc n) i array items) (clear_each_item (suc n) i array r a)
    at_item ih (aggregate b) s at_i = absurd s
    at_item ih (single k p) s at_i = elim (search_cases id (id (single k p)) items) [
      | inl absent ↦
          let missing = delete_item-none id (id (single k p)) items absent in
          let missing' : Schema.delete_item (uuid r.playback.queue.heap)
                (uuid r.playback.queue.heap (single k p)) (r.playback.queue.heap a).items
              ≡ err (item_not_found (uuid r.playback.queue.heap (single k p))) =
            rw (← m.ids, ← m.has) at missing in
          let failed =
            clear_queue_item-missing r a (single k p)
              (item_not_found (uuid r.playback.queue.heap (single k p))) missing' in
          let size = length-shared_array items array m.fits in
          let m' : Meets id r a (shared_array items array) items = record {
            ids = m.ids;
            has = m.has;
            linked = m.linked;
            array_streams = IsSingle-shared_array items array m.streams m.array_streams;
            streams = m.streams;
            fits = rw size m.fits;
          } in
          let skipped : clear_each_item (suc n) i array r a
              ≡ clear_each_item n (suc i) (shared_array items array) r a =
            subst
              (λ xs.
                clear_each_item (suc n) i array r a
                ≡ clear_each_item n (suc i) (shared_array xs array) r a)
              m.has (clear_each_item_skip n i array r a (single k p) _ at_i failed) in
          rw (clears_skip id n i array items (single k p) _ at_i missing, skipped)
            (ih r (shared_array items array) items m' (rw size (omega (arith, le))))
      | inr (front, y, back, e, same, differs) ↦
          let left = front ++ back in
          let found = delete_item-front id (id (single k p)) front y back differs same in
          let (fine, streams, name, m') =
            Meets-found id r a array front y back k p (subst (Meets id r a array) e m) found in
          let shorter : length left ≤ length array = omega (
            arith,
            m.fits,
            ap length e,
            length-append {0} front back,
            length-append {0} front (y ∷ back),
          ) in
          let size = length-shared_array left array shorter in
          let r' = (clear_queue_item r (aggregate a) (single k p)).0 in
          let found' : Schema.delete_item id (id (single k p)) items ≡ ok left = rw e found in
          let stepped : clear_each_item (suc n) i array r a
              ≡ clear_each_item n (suc i) (shared_array left array) r' a =
            subst
              (λ xs.
                clear_each_item (suc n) i array r a
                ≡ clear_each_item n (suc i) (shared_array xs array) r' a)
              m'.has (clear_each_item_next n i array r a (single k p) at_i fine) in
          let (ends, streams', items') =
            ih r' (shared_array left array) left m' (rw size (omega (arith, le))) in
          rw (clears_next id n i array items left (single k p) at_i found', stepped)
            (ends, streams' ∙ rw (name, streams) refl, items')
    ]

-- ClearUserQueue empties the queue, but the room drops its references only to every second stream of
-- it and to the last one: the deletions shift the items under the loop.
pub clear_user_queue_lem :
    (r : Room) (a : ℕ)
    → lookup (r.playback.queue.heap a).id r.playback.queue.items_by_id ≡ some a
    → All IsSingle (r.playback.queue.heap a).items
    → Distinct (uuid r.playback.queue.heap) (r.playback.queue.heap a).items
    → ((clear_user_queue r a).1 ≡ ok tt)
      × ((clear_user_queue r a).0.streams
          ≡ unreference_each r.playback.name (cleared (r.playback.queue.heap a).items) r.streams)
      × (((clear_user_queue r a).0.playback.queue.heap a).items ≡ [])
unfolding clear_user_queue clear_items Clears
clear_user_queue_lem r a linked streams distinct =
    let items = (r.playback.queue.heap a).items in
    let id = uuid r.playback.queue.heap in
    let m : Meets id r a items items = record {
      ids = refl;
      has = refl;
      linked = IsLinked-any r a items linked;
      array_streams = streams;
      streams = streams;
      fits = omega arith;
    } in
    let (ends, released, _) =
      subst (λ c. Clears id r a c (clear_each_item (length items) 0 items r a))
        (clears_items id items distinct)
        (clear_each_item-Clears (length items) 0 id r a items items m (omega arith)) in
    let r' = (clear_each_item (length items) 0 items r a).0 in
    rw (ends, clear_user_queue) (refl, released, items-set_items r'.playback.queue.heap a [])
