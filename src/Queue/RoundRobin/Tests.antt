-- ===== src/Queue/RoundRobin/Tests.antt =====
-- pkg/playback/queue/queue.go: a room with two users' queues, and the theorems at it.
use streaming_server.Base.{ℕ, ◌==◌, ◌≡◌, ◌≤◌, refl, [], ◌∷◌, ok, if◌then◌else◌}
use streaming_server.Base.Text.{str_eq}
use streaming_server.Base.Dict.{lookup, insert}
use streaming_server.Base.Int.{pos}
use streaming_server.Queue.Item.{single, aggregate, Heap, uuid}
use streaming_server.Queue.Schema
use streaming_server.Queue.Reorder.{reorder}
use streaming_server.Queue.RoundRobin.{
  RoundRobinQueue, new_round_robin_queue, link, push, next, delete_item, reorder_round_robin,
}
use streaming_server.Queue.RoundRobin.Rotation.{IsWellFormed, view, rotation}
use streaming_server.Queue.RoundRobin.Delete.{Deletes, delete_item-Deletes}
use streaming_server.Queue.RoundRobin.Turn.{Serves}
use streaming_server.Queue.RoundRobin.Next.{after_next, next-Serves, next_no_starvation}
use streaming_server.Queue.RoundRobin.Push.{Pushes, push-Pushes}
use streaming_server.Queue.RoundRobin.Reordered.{Reorders, reorder_round_robin-Reorders}
use streaming_server.Base.{All}
use streaming_server.Queue.RoundRobin.Serialized.{IsFilled}
use streaming_server.Queue.RoundRobin.Steps.{Reach, start, later, pushes, Reach-IsWellFormed}

abbrev two_users : Heap
two_users a =
    if a == 0
    then record { id = 1 ∷ []; items = single (11 ∷ []) 0 ∷ single (12 ∷ []) 1 ∷ [] }
    else record { id = 2 ∷ []; items = single (21 ∷ []) 2 ∷ [] }

abbrev room : RoundRobinQueue
room = (push (push (new_round_robin_queue two_users) (aggregate 0)).0 (aggregate 1)).0

abbrev reached : Reach two_users room
reached = later (later start (pushes (aggregate 0))) (pushes (aggregate 1))

room-rotation :
    rotation room
    ≡ (1 ∷ [], single (11 ∷ []) 0 ∷ single (12 ∷ []) 1 ∷ [])
      ∷ (2 ∷ [], single (21 ∷ []) 2 ∷ [])
      ∷ []
unfolding rotation push link new_round_robin_queue lookup insert str_eq view Schema.push
room-rotation = refl

Reach-IsWellFormed_example : IsWellFormed room
Reach-IsWellFormed_example = Reach-IsWellFormed two_users room reached

room-IsWellFormed : IsWellFormed room
room-IsWellFormed = Reach-IsWellFormed two_users room reached

next-Serves_example : Serves room (next room)
next-Serves_example = next-Serves room room-IsWellFormed

next_no_starvation_example :
    (n : ℕ) × (n ≤ 1) × ((next (after_next n room)).1 ≡ ok (single (21 ∷ []) 2))
next_no_starvation_example =
    next_no_starvation room ((1 ∷ [], single (11 ∷ []) 0 ∷ single (12 ∷ []) 1 ∷ []) ∷ []) []
      (2 ∷ []) (single (21 ∷ []) 2) [] room-IsWellFormed room-rotation

push-Pushes_example :
    Pushes room (uuid room.heap (aggregate 1)) (room.heap 1).items (push room (aggregate 1))
push-Pushes_example = push-Pushes room 1 room-IsWellFormed

delete_item-Deletes_example :
    Deletes room (uuid room.heap (aggregate 0)) (delete_item room (aggregate 0))
delete_item-Deletes_example = delete_item-Deletes room (aggregate 0) room-IsWellFormed

reorder_round_robin-Reorders_example :
    Reorders room (reorder room.items (pos 1 ∷ [])) (reorder_round_robin room (pos 1 ∷ []))
reorder_round_robin-Reorders_example =
    reorder_round_robin-Reorders room (pos 1 ∷ []) room-IsWellFormed

room-IsFilled : All (IsFilled room.heap) room.items
unfolding push link new_round_robin_queue lookup insert str_eq Schema.push
room-IsFilled =
    ((single (11 ∷ []) 0, single (12 ∷ []) 1 ∷ [], refl), ((single (21 ∷ []) 2, [], refl), tt))
