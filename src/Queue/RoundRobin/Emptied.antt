-- ===== src/Queue/RoundRobin/Emptied.antt =====
-- pkg/playback/queue/queue.go: DeleteFromQueue on a user's queue that the room's queue holds.
use streaming_server.Base.{
  ℕ, List, [], ◌∷◌, ◌≡◌, ◌⊎◌, inl, inr, refl, ◌∙◌, some, none, Option, ok, ap,
}
use streaming_server.Base.Dict.{lookup}
use streaming_server.Queue.Item.{QueueItem, aggregate, uuid, set_items, id-set_items}
use streaming_server.Queue.Schema
use streaming_server.Queue.RoundRobin.{
  RoundRobinQueue, unlink, delete_item, delete_from_queue, delete_if_empty,
}

delete_item-heap :
    (q : RoundRobinQueue) (a : ℕ)
    → lookup (q.heap a).id q.items_by_id ≡ some a
    → ((delete_item q (aggregate a)).1 ≡ ok tt) × ((delete_item q (aggregate a)).0.heap ≡ q.heap)
unfolding delete_item uuid unlink
delete_item-heap q a e =
    rw (e, delete_item) (refl, heap_of (Schema.index_of (uuid q.heap) (q.heap a).id q.items))
  where
    heap_of : (o : Option ℕ) → (unlink q o (q.heap a).id).heap ≡ q.heap
    heap_of none = refl
    heap_of (some idx) = refl

-- It takes the item out of the user's queue, and an emptied queue out of the room's.
pub delete_from_queue-heap :
    (q : RoundRobinQueue) (a : ℕ) (item : QueueItem) (left : List QueueItem)
    → lookup (q.heap a).id q.items_by_id ≡ some a
    → Schema.delete_item (uuid q.heap) (uuid q.heap item) (q.heap a).items ≡ ok left
    → ((delete_from_queue q (aggregate a) item).1 ≡ ok tt)
      × ((delete_from_queue q (aggregate a) item).0.heap ≡ set_items q.heap a left)
      × ((left ≡ []) ⊎ ((delete_from_queue q (aggregate a) item).0.items_by_id ≡ q.items_by_id))
unfolding delete_from_queue delete_if_empty
delete_from_queue-heap q a item [] linked e =
    let q' : RoundRobinQueue = record q { heap = set_items q.heap a [] } in
    let (fine, heap) =
      delete_item-heap q' a
        (ap (λ k. lookup k q.items_by_id) (id-set_items q.heap a [] a) ∙ linked) in
    rw (e, delete_from_queue) (fine, heap, inl refl)
delete_from_queue-heap q a item (x ∷ xs) linked e = rw (e, delete_from_queue) (refl, refl, inr refl)
