-- ===== src/Commands/Queue/Next.antt =====
-- pkg/socket/cmd/queue.go: what `/queue order next` does to the order of turns.
use mathlib.Core.List.{Perm}
use mathlib.Core.List.Perm
use streaming_server.Base.{
  ℕ, zero, suc, ◌-◌, ◌<◌, List, [], ◌∷◌, map, ◌≡◌, inl, inr, refl, sym, ap, arith, Option, none,
  some, ok, ◌==◌, length, get_elem?, All, Bool-cases, subst,
}
use streaming_server.Base.Text.{Str}
use streaming_server.Base.Int.{pos}
use streaming_server.Queue.Item.{QueueItem, single, aggregate, Heap, uuid}
use streaming_server.Queue.Reorder.{reorder}
use streaming_server.Queue.Reorder.Permutes.{reorder-perm}
use streaming_server.Queue.RoundRobin.{
  RoundRobinQueue, peek_items, next, next_loop, reorder_round_robin,
}
use streaming_server.Queue.RoundRobin.Rotation.{IsWellFormed}
use streaming_server.Queue.RoundRobin.Serialized.{IsFilled}
use streaming_server.Queue.RoundRobin.Reordered.{reorder_round_robin-IsWellFormed}
use streaming_server.Playback.Room.{Room, with_queue}
use streaming_server.Commands.Queue.Order.{queue_item_index, calculate_queue_order}
use streaming_server.Commands.Queue.Moved.{
  FindsItem, queue_item_index-FindsItem, moved_to, calculate_queue_order_same,
}
use streaming_server.Commands.Queue.Sync.{emit-room, queue_sync, reordering}
use streaming_server.Commands.Queue.Clear.{order_room}

-- Where no queue is empty, the first items stand where their queues do.
peek_items-at :
    (h : Heap) (qs : List QueueItem) (k : ℕ) (x : QueueItem)
    → All (IsFilled h) qs
    → get_elem? (peek_items h qs) k ≡ some x
    → (a : ℕ) × (get_elem? qs k ≡ some (aggregate a))
      × ((xs : List QueueItem) × ((h a).items ≡ x ∷ xs))
unfolding peek_items
peek_items-at h [] k x f e = absurd (ground (arith, e))
peek_items-at h (single _ _ ∷ qs) k x f e = absurd f.0
peek_items-at h (aggregate a ∷ qs) zero x ((y, ys, has), f) e =
    let e' = rw (has, peek_items) at e in
    let same : y ≡ x = ground (arith, e') in (a, refl, (ys, rw (← same) has))
peek_items-at h (aggregate a ∷ qs) (suc k) x ((y, ys, has), f) e =
    peek_items-at h qs k x f (rw (has, peek_items) at e)

get_elem?-lt :
    (qs : List QueueItem) (k : ℕ) (q : QueueItem) → get_elem? qs k ≡ some q → k < length qs
get_elem?-lt [] k q e = absurd (ground (arith, e))
get_elem?-lt (x ∷ qs) zero q e = omega arith
get_elem?-lt (x ∷ qs) (suc k) q e = omega (arith, get_elem?-lt qs k q e)

-- Next returns the first item of the queue whose turn it is.
next-turn :
    (q : RoundRobinQueue) (a : ℕ) (x : QueueItem) (xs : List QueueItem)
    → get_elem? q.items q.rr_count ≡ some (aggregate a)
    → (q.heap a).items ≡ x ∷ xs
    → (next q).1 ≡ ok x
unfolding next next_loop
next-turn q a x xs turn has =
    let size : length q.items ≡ suc (length q.items - 1) =
      omega (arith, get_elem?-lt q.items q.rr_count (aggregate a) turn) in
    rw (size, next_loop) (rw (turn, has) refl)

-- The queue is well formed and has the same users' queues, and Next returns an item with the id.
abbrev pub HasNext : RoundRobinQueue → Str → RoundRobinQueue → Type 0
HasNext q id q' =
    IsWellFormed q'
    × Perm q'.items q.items
    × ((y : QueueItem) × ((next q').1 ≡ ok y) × (uuid q.heap y ≡ id))

order_room-queue :
    (r : Room) (id : Str) (dest source : ℕ) (order : List ℕ) (xs : List QueueItem)
    → queue_item_index
        (uuid r.playback.queue.heap)
        id
        (peek_items r.playback.queue.heap r.playback.queue.items)
        0
      ≡ some source
    → calculate_queue_order source (pos dest) (length r.playback.queue.items) ≡ ok order
    → reorder r.playback.queue.items (map pos order) ≡ ok xs
    → ((order_room r id (pos dest)).0.playback.queue ≡ record r.playback.queue { items = xs })
      × ((reorder_round_robin r.playback.queue (map pos order)).0
          ≡ record r.playback.queue { items = xs })
unfolding order_room reorder_round_robin
order_room-queue r id dest source order xs there computed done =
    let q' : RoundRobinQueue = record r.playback.queue { items = xs } in
    let r' = with_queue r q' in
    (
      rw (there, order_room)
          (rw computed (
            rw done
              (ap (λ t. t.playback.queue) (emit-room r' [] (queue_sync r' ∷ []) reordering)))),
      rw done refl,
    )

order_room-same :
    (r : Room) (id : Str) (dest source : ℕ)
    → queue_item_index
        (uuid r.playback.queue.heap)
        id
        (peek_items r.playback.queue.heap r.playback.queue.items)
        0
      ≡ some source
    → source ≡ dest
    → (order_room r id (pos dest)).0.playback.queue ≡ r.playback.queue
unfolding order_room
order_room-same r id dest source there same =
    rw (there, order_room)
      (rw (calculate_queue_order_same source dest (length r.playback.queue.items) same) refl)

-- If no queue of the room is empty and the id is the one of some queue's first item, then after
-- `/queue order next` with the id Next returns that item; the users' queues are the same.
pub order_next_lem :
    (r : Room) (id : Str) (k : ℕ) (x : QueueItem)
    → IsWellFormed r.playback.queue
    → All (IsFilled r.playback.queue.heap) r.playback.queue.items
    → get_elem? (peek_items r.playback.queue.heap r.playback.queue.items) k ≡ some x
    → uuid r.playback.queue.heap x ≡ id
    → HasNext r.playback.queue id (order_room r id (pos r.playback.queue.rr_count)).0.playback.queue
order_next_lem r id k x w filled at_k same =
    moves_to (queue_item_index (uuid q.heap) id firsts 0) refl
      (queue_item_index-FindsItem (uuid q.heap) id firsts 0)
  where
    q : RoundRobinQueue
    q = r.playback.queue

    firsts : List QueueItem
    firsts = peek_items q.heap q.items

    fits : q.rr_count < length q.items
    fits =
        let (a, there, _) = peek_items-at q.heap q.items k x filled at_k in
        let some_queue = get_elem?-lt q.items k (aggregate a) there in
        elim w.in_range [ inl lt ↦ lt | inr zero_count ↦ omega (arith, some_queue, zero_count) ]

    moves_to :
        (o : Option ℕ)
        → queue_item_index (uuid q.heap) id firsts 0 ≡ o
        → FindsItem (uuid q.heap) id firsts 0 o
        → HasNext q id (order_room r id (pos q.rr_count)).0.playback.queue
    moves_to none e absent = absurd (absent k x at_k same)
    moves_to (some source) e (j, at_j, lt, (y, found, hit)) =
        let (a, queue_at_j, (ys, has)) = peek_items-at q.heap q.items j y filled found in
        let queue_at : get_elem? q.items source ≡ some (aggregate a) =
          subst (λ i. get_elem? q.items i ≡ some (aggregate a)) (omega (arith, at_j)) queue_at_j in
        elim (Bool-cases (source == q.rr_count)) [
          | inl already ↦
              let here : source ≡ q.rr_count = ground (arith, already) in
              let turn = subst (λ i. get_elem? q.items i ≡ some (aggregate a)) here queue_at in
              subst (HasNext q id) (sym (order_room-same r id q.rr_count source e here))
                (w, Perm.refl q.items, (y, next-turn q a y ys turn has, hit))
          | inr elsewhere ↦
              let (order, xs, computed, done, turn) =
                moved_to q.items source q.rr_count (aggregate a)
                  (get_elem?-lt q.items source (aggregate a) queue_at) fits
                  (λ s. ground (arith, elsewhere, s)) queue_at in
              let (result, reordered) =
                order_room-queue r id q.rr_count source order xs e computed done in
              let q' : RoundRobinQueue = record q { items = xs } in
              subst (HasNext q id) (sym result) (
                subst IsWellFormed reordered (reorder_round_robin-IsWellFormed q (map pos order) w),
                reorder-perm q.items xs (map pos order) done,
                (y, next-turn q' a y ys turn has, hit),
              )
        ]
