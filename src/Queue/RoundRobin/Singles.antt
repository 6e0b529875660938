-- ===== src/Queue/RoundRobin/Singles.antt =====
-- pkg/playback/queue/queue.go: DeleteFromQueue where the users' queues hold streams only.
use streaming_server.Base.{
  ℕ, suc, ◌==◌, List, [], ◌∷◌, ◌++◌, inl, inr, Option, none, some, ok, err, panic, diverges, take,
  drop, All, All-append, All-drop, All-take, Option-cases, Bool-cases,
}
use streaming_server.Base.Dict.{lookup}
use streaming_server.Queue.Item.{QueueItem, single, aggregate, Heap, uuid, set_items, Result}
use streaming_server.Queue.Schema
use streaming_server.Queue.RoundRobin.{
  RoundRobinQueue, M, unlink, delete_item, delete_if_empty, delete_from_queue,
}

abbrev pub IsSingle : QueueItem → Type 0
IsSingle (single _ _) = Unit
IsSingle (aggregate _) = ⊥

-- Every queue of a user holds streams only.
abbrev pub HoldsStreams : Heap → Type 0
HoldsStreams h = (a : ℕ) → All IsSingle (h a).items

-- The call returns, with a value or an error.
abbrev pub Returns : Result (Unit {0}) → Type 0
Returns (ok _) = Unit
Returns (err _) = Unit
Returns panic = ⊥
Returns diverges = ⊥

HoldsStreams-set_items :
    (h : Heap) (a : ℕ) (xs : List QueueItem)
    → HoldsStreams h
    → All IsSingle xs
    → HoldsStreams (set_items h a xs)
unfolding set_items
HoldsStreams-set_items h a xs hs s b = elim (Bool-cases (b == a)) [
  | inl hit ↦ rw (hit, set_items) s
  | inr miss ↦ rw (miss, set_items) (hs b)
]

-- What a call does to the queue of a room that holds streams only.
abbrev pub KeepsQueue : M (Unit {0}) → Type 0
KeepsQueue (q, o) = HoldsStreams q.heap × Returns o

pub delete_item-Keeps :
    (q : RoundRobinQueue) (x : QueueItem) → HoldsStreams q.heap → KeepsQueue (delete_item q x)
unfolding delete_item unlink
delete_item-Keeps q x hs = elim (Option-cases (lookup (uuid q.heap x) q.items_by_id)) [
  | inl missing ↦ rw (missing, delete_item) (hs, tt)
  | inr (a, found) ↦
      rw (found, delete_item) (heap_of (Schema.index_of (uuid q.heap) (q.heap a).id q.items), tt)
]
  where
    heap_of : (o : Option ℕ) → HoldsStreams (unlink q o (uuid q.heap x)).heap
    heap_of none = hs
    heap_of (some idx) = hs

delete_if_empty-Keeps :
    (q : RoundRobinQueue) (a : ℕ) (xs : List QueueItem)
    → HoldsStreams q.heap
    → KeepsQueue (delete_if_empty q a xs)
unfolding delete_if_empty
delete_if_empty-Keeps q a [] hs = delete_item-Keeps q (aggregate a) hs
delete_if_empty-Keeps q a (x ∷ xs) hs = (hs, tt)

pub delete_from_queue-Keeps :
    (q : RoundRobinQueue) (a : ℕ) (x : QueueItem)
    → HoldsStreams q.heap
    → KeepsQueue (delete_from_queue q (aggregate a) x)
unfolding delete_from_queue Schema.delete_item
delete_from_queue-Keeps q a x hs =
    let items = (q.heap a).items in
    elim (Option-cases (Schema.index_of (uuid q.heap) (uuid q.heap x) items)) [
      | inl missing ↦ rw (missing, delete_from_queue) (hs, tt)
      | inr (idx, found) ↦
          let left = take idx items ++ drop (suc idx) items in
          let singles =
            All-append IsSingle (take idx items) (drop (suc idx) items)
              (All-take IsSingle idx items (hs a)) (All-drop IsSingle (suc idx) items (hs a)) in
          rw (found, delete_from_queue)
            (delete_if_empty-Keeps (record q { heap = set_items q.heap a left }) a left
              (HoldsStreams-set_items q.heap a left hs singles))
    ]
