-- ===== src/Commands/Queue.antt =====
-- pkg/socket/cmd/queue.go: what `/queue migrate` does to the room's queue.
-- The events that it sends afterwards are left out.
pub mod Migrate
pub mod Order
pub mod Fresh
pub mod Moved
pub mod Sync
pub mod Add
pub mod Clear
pub mod Next
pub mod Execute
mod Tests
use streaming_server.Base.{
  ℕ, Bool, true, false, List, [], ◌∷◌, Option, none, some, if◌then◌else◌, Outcome, ok, err, panic,
  diverges,
}
use streaming_server.Base.Text.{Str, str_eq}
use streaming_server.Queue.Item.{
  QueueItem, single, aggregate, Heap, uuid, allocate, Result, not_aggregatable, no_such_queue,
}
use streaming_server.Playback.Util.{get_queue_for_id}
use streaming_server.Queue.RoundRobin.{RoundRobinQueue, M, push, push_each, delete_item}

-- The heap after a new queue of the user has got the items; what its Push refuses is dropped.
unfoldable pub copied : Heap → ℕ → Str → List QueueItem → Heap
copied h a user items = push_each (allocate h a user) a items

-- The error of DeleteItem is dropped.
after_push : M (Unit {0}) → ℕ → M (Unit {0})
after_push (q, ok _) b = ((delete_item q (aggregate b)).0, ok tt)
after_push (q, err e) b = (q, err e)
after_push (q, panic) b = (q, panic)
after_push (q, diverges) b = (q, diverges)

migrated : RoundRobinQueue → ℕ → Str → Str → Result (Option ℕ) → M (Unit {0})
unfolding after_push
migrated q a user from (ok (some b)) =
    after_push (push (record q { heap = copied q.heap a user (q.heap b).items }) (aggregate a)) b
migrated q a user from (ok none) = (q, err (no_such_queue from))
migrated q a user from (err e) = (q, err e)
migrated q a user from panic = (q, panic)
migrated q a user from diverges = (q, diverges)

-- The user with the given id takes over the queue of `from`; the new queue stands at the pointer `a`.
unfoldable pub migrate : RoundRobinQueue → ℕ → Str → Str → M (Unit {0})
unfolding migrated
migrate q a user from = migrated q a user from (get_queue_for_id q.heap from q.items)
