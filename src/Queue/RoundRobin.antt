-- ===== src/Queue/RoundRobin.antt =====
-- pkg/playback/queue/queue.go: RoundRobinQueueSchema, and the operations of QueueHandlerSpec on it.
-- The state holds the aggregated queues too, since its operations change them through pointers.
pub mod Indexed
pub mod Rotation
pub mod Delete
pub mod Turn
pub mod Next
pub mod Merge
pub mod Push
pub mod Reordered
pub mod Serialized
pub mod Allocated
pub mod Emptied
pub mod Singles
pub mod Steps
mod Tests
use streaming_server.Base.{
  ℕ, zero, suc, ◌-◌, List, [], ◌∷◌, ◌++◌, map, Option, none, some, ltb, leb, ◌==◌, if◌then◌else◌,
  ok, err, panic, diverges, length, take, drop, get_elem?,
}
use streaming_server.Base.Text.{Str}
use streaming_server.Base.Dict.{Dict, lookup, insert, delete, values}
use streaming_server.Base.Int.{ℤ}
use streaming_server.Queue.Item.{
  QueueItem, single, aggregate, Heap, Result, uuid, set_items, no_items, not_aggregatable,
  no_such_queue,
}
use streaming_server.Queue.Schema
use streaming_server.Queue.Reorder

pub record RoundRobinQueue : Type 0 where
  pub heap : Heap
  pub items : List QueueItem
  pub items_by_id : Dict ℕ
  pub rr_count : ℕ

abbrev pub M : Type 0 → Type 0
M A = RoundRobinQueue × Result A

unfoldable pub new_round_robin_queue : Heap → RoundRobinQueue
new_round_robin_queue h = record { heap = h; items = []; items_by_id = []; rr_count = 0 }

clear_each : List ℕ → Heap → Heap
clear_each [] h = h
clear_each (a ∷ ps) h = clear_each ps (set_items h a [])

unfoldable pub clear : RoundRobinQueue → RoundRobinQueue
unfolding clear_each
clear q = record {
  heap = clear_each (values q.items_by_id) q.heap;
  items = [];
  items_by_id = [];
  rr_count = 0;
}

-- The items that Visit passes to its visitor.
unfoldable pub visited : RoundRobinQueue → List QueueItem
visited q = map aggregate (values q.items_by_id)

set_if_ok : Heap → ℕ → Result (List QueueItem) → Heap
set_if_ok h b (ok ys) = set_items h b ys
set_if_ok h b _ = h

-- The loop of Push over the items of the new queue; what the bounded Push refuses is dropped.
unfoldable pub push_each : Heap → ℕ → List QueueItem → Heap
unfolding set_if_ok
push_each h b [] = h
push_each h b (x ∷ xs) = push_each (set_if_ok h b (Schema.push_bounded (h b).items x)) b xs

-- The loop of Push that copies the items and puts the new one before index `rr`.
unfoldable pub insert_behind : ℕ → ℕ → QueueItem → List QueueItem → List QueueItem
insert_behind idx rr item [] = []
insert_behind idx rr item (x ∷ xs) =
    let rest = x ∷ insert_behind (suc idx) rr item xs in if idx == rr then item ∷ rest else rest

unfoldable pub link : RoundRobinQueue → ℕ → RoundRobinQueue
link q a =
    let by_id = insert (q.heap a).id a q.items_by_id in
    if ltb 0 q.rr_count
    then record q {
      items_by_id = by_id;
      rr_count = suc q.rr_count;
      items = insert_behind 0 q.rr_count (aggregate a) q.items;
    }
    else record q { items_by_id = by_id; items = Schema.push q.items (aggregate a) }

unfoldable pub push : RoundRobinQueue → QueueItem → M (Unit {0})
unfolding link push_each
push q (single _ _) = (q, err not_aggregatable)
push q (aggregate a) = elim (lookup (q.heap a).id q.items_by_id) [
  | some b ↦ (record q { heap = push_each q.heap b (q.heap a).items }, ok tt)
  | none ↦ (link q a, ok tt)
]

-- ReorderableQueue.DeleteItem, its error dropped.
unfoldable pub deleted : RoundRobinQueue → Str → List QueueItem
deleted q k = elim (Schema.delete_item (uuid q.heap) k q.items) [ ok xs ↦ xs | _ ↦ q.items ]

-- `rrCount` cannot fall below 0: it is lowered only where an index lies below it.
unfoldable pub adjust : ℕ → ℕ → ℕ → ℕ
adjust idx rr size =
    let lowered = if ltb idx rr then rr - 1 else rr in if leb size lowered then 0 else lowered

unlink : RoundRobinQueue → Option ℕ → Str → RoundRobinQueue
unlink q none k = q
unlink q (some idx) k = record q {
  items = deleted q k;
  rr_count = adjust idx q.rr_count (length (deleted q k));
}

unfoldable pub delete_item : RoundRobinQueue → QueueItem → M (Unit {0})
unfolding unlink
delete_item q queue = elim (lookup (uuid q.heap queue) q.items_by_id) [
  | none ↦ (q, err (no_such_queue (uuid q.heap queue)))
  | some a ↦
      let idx = Schema.index_of (uuid q.heap) (q.heap a).id q.items in
      let q' = unlink q idx (uuid q.heap queue) in
      (record q' { items_by_id = delete (q.heap a).id q.items_by_id }, ok tt)
]

delete_if_empty : RoundRobinQueue → ℕ → List QueueItem → M (Unit {0})
delete_if_empty q a [] = delete_item q (aggregate a)
delete_if_empty q a (x ∷ xs) = (q, ok tt)

-- Also QueueHandlerSpec.PopFromQueue.
unfoldable pub delete_from_queue : RoundRobinQueue → QueueItem → QueueItem → M (Unit {0})
unfolding delete_if_empty
delete_from_queue q (single _ _) item = (q, ok tt)
delete_from_queue q (aggregate a) item =
    elim (Schema.delete_item (uuid q.heap) (uuid q.heap item) (q.heap a).items) [
      | ok xs ↦ delete_if_empty (record q { heap = set_items q.heap a xs }) a xs
      | err e ↦ (q, err e)
      | panic ↦ (q, panic)
      | diverges ↦ (q, diverges)
    ]

advance : RoundRobinQueue → ℕ → RoundRobinQueue
advance q n = record q { rr_count = if leb (length q.items) n then 0 else n }

-- The end of Next, after a pop that left the given items: an emptied queue is taken out with
-- `rrCount--`, which the `rrCount++` below it undoes.
served : RoundRobinQueue → ℕ → List QueueItem → RoundRobinQueue
unfolding advance
served q a [] =
    let popped = record q { heap = set_items q.heap a [] } in
    let id = (q.heap a).id in
    let by_id = delete id q.items_by_id in
    advance (record popped { items = deleted popped id; items_by_id = by_id }) q.rr_count
served q a (y ∷ ys) = advance (record q { heap = set_items q.heap a (y ∷ ys) }) (suc q.rr_count)

-- Next calls itself after it has deleted an empty queue.
unfoldable pub next_loop : ℕ → RoundRobinQueue → M QueueItem
unfolding served
next_loop zero q = (q, diverges)
next_loop (suc fuel) q = elim (length q.items) [
  | zero ↦ (q, err no_items)
  | suc _ ↦ elim (get_elem? q.items q.rr_count) [
    | none ↦ (q, panic)
    | some item ↦ elim item [
      | single _ _ ↦ (q, err not_aggregatable)
      | aggregate a ↦ elim ((q.heap a).items) [
        | x ∷ xs ↦ (served q a xs, ok x)
        | [] ↦ elim ((delete_item q (aggregate a)).1) [
          | ok _ ↦ next_loop fuel (delete_item q (aggregate a)).0
          | err e ↦ ((delete_item q (aggregate a)).0, err e)
          | panic ↦ ((delete_item q (aggregate a)).0, panic)
          | diverges ↦ ((delete_item q (aggregate a)).0, diverges)
        ]
      ]
    ]
  ]
]

-- Each round but the last deletes a queue, so their number bounds the rounds.
unfoldable pub next : RoundRobinQueue → M QueueItem
next q = next_loop (suc (length q.items)) q

unfoldable pub peek_items : Heap → List QueueItem → List QueueItem
peek_items h [] = []
peek_items h (single _ _ ∷ qs) = peek_items h qs
peek_items h (aggregate a ∷ qs) =
    let rest = peek_items h qs in elim ((h a).items) [ [] ↦ rest | x ∷ _ ↦ x ∷ rest ]

-- items[i:] and items[0:i]: a panic where `i` exceeds the length.
unfoldable pub rotated : List QueueItem → ℕ → Result (List QueueItem)
rotated items i = if ltb (length items) i then panic else ok (drop i items ++ take i items)

-- The items that Serialize hands to the JSON encoder.
unfoldable pub serialize : RoundRobinQueue → Result (List QueueItem)
unfolding rotated
serialize q = rotated (peek_items q.heap q.items) q.rr_count

set_ok : RoundRobinQueue → Result (List QueueItem) → M (Unit {0})
set_ok q (ok xs) = (record q { items = xs }, ok tt)
set_ok q (err e) = (q, err e)
set_ok q panic = (q, panic)
set_ok q diverges = (q, diverges)

-- Reorder, with the Set at its end.
unfoldable pub reorder_round_robin : RoundRobinQueue → List ℤ → M (Unit {0})
unfolding set_ok
reorder_round_robin q order = set_ok q (Reorder.reorder q.items order)
