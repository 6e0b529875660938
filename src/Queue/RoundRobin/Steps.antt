-- ===== src/Queue/RoundRobin/Steps.antt =====
-- pkg/playback/queue/queue.go: the calls that change a room's queue, in any order, and what holds
-- of every state that they reach. A user's own queue is written through its pointer as well.
use streaming_server.Base.{
  ℕ, ◌≡◌, ◌≢◌, refl, List, [], ◌∷◌, none, some, Option, ok, err, panic, diverges, inr, All,
}
use streaming_server.Base.Text.{Str}
use streaming_server.Base.Dict.{lookup}
use streaming_server.Base.Int.{ℤ}
use streaming_server.Queue.Item.{
  QueueItem, single, aggregate, Heap, uuid, set_items, uuid-set_items, allocate, Result,
}
use streaming_server.Queue.Schema
use streaming_server.Queue.RoundRobin.{
  RoundRobinQueue, new_round_robin_queue, clear, push, delete_item, delete_from_queue, next,
  reorder_round_robin,
}
use streaming_server.Queue.RoundRobin.Indexed.{find_queue}
use streaming_server.Queue.RoundRobin.Rotation.{View, rotation, IsWellFormed}
use streaming_server.Queue.RoundRobin.Delete.{delete_item-Deletes}
use streaming_server.Queue.RoundRobin.Turn.{serve, ServesTo}
use streaming_server.Queue.RoundRobin.Next.{next-Serves}
use streaming_server.Queue.RoundRobin.Push.{push-Pushes}
use streaming_server.Queue.RoundRobin.Allocated.{allocate-IsWellFormed}
use streaming_server.Queue.RoundRobin.Reordered.{reorder_round_robin-IsWellFormed}

-- The calls on the room's queue, a write to the items of one user's queue (its Push, Clear and
-- Reorder), and a new user's queue at a pointer that the room's queue does not hold.
pub data Step (q : RoundRobinQueue) : RoundRobinQueue → Type 0 where
  pushes : (item : QueueItem) → Step q (push q item).0
  nexts : Step q (next q).0
  deletes : (item : QueueItem) → Step q (delete_item q item).0
  deletes_from : (queue item : QueueItem) → Step q (delete_from_queue q queue item).0
  reorders : (order : List ℤ) → Step q (reorder_round_robin q order).0
  clears : Step q (clear q)
  writes : (a : ℕ) (xs : List QueueItem) → Step q (record q { heap = set_items q.heap a xs })
  allocates :
      (a : ℕ) (k : Str)
      → All (λ x. x ≢ aggregate a) q.items
      → Step q (record q { heap = allocate q.heap a k })

pub data Reach (h : Heap) : RoundRobinQueue → Type 0 where
  start : Reach h (new_round_robin_queue h)
  later : {q r : RoundRobinQueue} → Reach h q → Step q r → Reach h r

new_round_robin_queue-IsWellFormed : (h : Heap) → IsWellFormed (new_round_robin_queue h)
unfolding new_round_robin_queue lookup find_queue
new_round_robin_queue-IsWellFormed h = record {
  links = record { aggregates = tt; distinct = tt; indexed = λ k. refl };
  in_range = inr refl;
}

clear-IsWellFormed : (q : RoundRobinQueue) → IsWellFormed (clear q)
unfolding clear lookup find_queue
clear-IsWellFormed q = record {
  links = record { aggregates = tt; distinct = tt; indexed = λ k. refl };
  in_range = inr refl;
}

pub set_items-IsWellFormed :
    (q : RoundRobinQueue) (a : ℕ) (xs : List QueueItem)
    → IsWellFormed q
    → IsWellFormed (record q { heap = set_items q.heap a xs })
set_items-IsWellFormed q a xs w = record {
  links = rw (uuid-set_items q.heap a xs) w.links;
  in_range = w.in_range;
}

next-IsWellFormed : (q : RoundRobinQueue) → IsWellFormed q → IsWellFormed (next q).0
next-IsWellFormed q w = go (serve (rotation q)) (next-Serves q w)
  where
    go : (o : Option (QueueItem × List View)) → ServesTo o (next q) → IsWellFormed (next q).0
    go none s = s.0
    go (some _) s = s.0

push-IsWellFormed :
    (q : RoundRobinQueue) (item : QueueItem) → IsWellFormed q → IsWellFormed (push q item).0
push-IsWellFormed q (single s p) w = unfold push in w
push-IsWellFormed q (aggregate a) w = (push-Pushes q a w).0

pub delete_from_queue-IsWellFormed :
    (q : RoundRobinQueue) (queue item : QueueItem)
    → IsWellFormed q
    → IsWellFormed (delete_from_queue q queue item).0
unfolding delete_from_queue
delete_from_queue-IsWellFormed q (single s p) item w = w
delete_from_queue-IsWellFormed q (aggregate a) item w =
    go (Schema.delete_item (uuid q.heap) (uuid q.heap item) (q.heap a).items) refl
  where
    go :
        (r : Result (List QueueItem))
        → Schema.delete_item (uuid q.heap) (uuid q.heap item) (q.heap a).items ≡ r
        → IsWellFormed (delete_from_queue q (aggregate a) item).0
    go (ok []) e =
        rw (e, delete_from_queue)
          ((delete_item-Deletes (record q { heap = set_items q.heap a [] }) (aggregate a)
            (set_items-IsWellFormed q a [] w)).0)
    go (ok (x ∷ xs)) e = rw (e, delete_from_queue) (set_items-IsWellFormed q a (x ∷ xs) w)
    go (err _) e = rw (e, delete_from_queue) w
    go panic e = rw (e, delete_from_queue) w
    go diverges e = rw (e, delete_from_queue) w

-- Whatever the call, the queue that it leaves is well formed if the one before was.
Step-IsWellFormed : (q r : RoundRobinQueue) → Step q r → IsWellFormed q → IsWellFormed r
Step-IsWellFormed q _ (pushes item) w = push-IsWellFormed q item w
Step-IsWellFormed q _ nexts w = next-IsWellFormed q w
Step-IsWellFormed q _ (deletes item) w = (delete_item-Deletes q item w).0
Step-IsWellFormed q _ (deletes_from queue item) w = delete_from_queue-IsWellFormed q queue item w
Step-IsWellFormed q _ (reorders order) w = reorder_round_robin-IsWellFormed q order w
Step-IsWellFormed q _ clears w = clear-IsWellFormed q
Step-IsWellFormed q _ (writes a xs) w = set_items-IsWellFormed q a xs w
Step-IsWellFormed q _ (allocates a k d) w = allocate-IsWellFormed q a k d w

-- Every state that calls reach from a new queue is well formed: the slice and the map hold the same
-- queues, no two of which share an id, and the index of the next turn is in range.
pub Reach-IsWellFormed : (h : Heap) (q : RoundRobinQueue) → Reach h q → IsWellFormed q
Reach-IsWellFormed h _ start = new_round_robin_queue-IsWellFormed h
Reach-IsWellFormed h _ (later {q} {r} reach step) =
    Step-IsWellFormed q r step (Reach-IsWellFormed h q reach)
