-- ===== src/Commands/Queue/Tests.antt =====
-- pkg/socket/cmd/queue.go: a room with one queue, and the theorems at it.
use mathlib.Core.List.{Perm}
use streaming_server.Base.{
  ℕ, List, ◌⊎◌, err, get_elem?, some, ◌≡◌, ◌≢◌, inl, refl, [], ◌∷◌, ok, arith,
}
use streaming_server.Base.Text.{str_eq}
use streaming_server.Queue.RoundRobin.{peek_items}
use streaming_server.Playback.Room.Sample.{den, den-IsWellFormed}
use streaming_server.Commands.Queue.Clear.{order_room}
use streaming_server.Commands.Queue.Next.{HasNext, order_next_lem}
use streaming_server.Base.Dict.{lookup}
use streaming_server.Queue.Item.{QueueItem, single, aggregate, uuid}
use streaming_server.Queue.RoundRobin.{RoundRobinQueue}
use streaming_server.Queue.RoundRobin.Indexed.{find_queue}
use streaming_server.Queue.RoundRobin.Rotation.{rotation, IsWellFormed}
use streaming_server.Queue.RoundRobin.Delete.{without_queue}
use streaming_server.Queue.RoundRobin.Merge.{merge, with_room}
use streaming_server.Playback.Util.{get_queue_for_id}
use streaming_server.Commands.Queue.{migrate}
use streaming_server.Base.Int.{pos}
use streaming_server.Commands.Queue.Order.{same_index, not_found, order_mine}
use streaming_server.Commands.Queue.Moved.{order_mine_lem}
use streaming_server.Commands.Queue.Migrate.{Fresh, migrate-rotation}

abbrev room : RoundRobinQueue
room = record {
  heap = λ a. record { id = 1 ∷ []; items = single (11 ∷ []) 0 ∷ [] };
  items = aggregate 0 ∷ [];
  items_by_id = (1 ∷ [], 0) ∷ [];
  rr_count = 0;
}

room-IsWellFormed : IsWellFormed room
unfolding lookup find_queue uuid
room-IsWellFormed = record {
  links = record { aggregates = (tt, tt); distinct = (tt, tt); indexed = λ k. refl };
  in_range = inl (omega arith);
}

zero_ne_one : aggregate 0 ≢ aggregate 1
zero_ne_one e = ground (arith, e)

room-Fresh : Fresh 1 room.items
room-Fresh = (zero_ne_one, tt)

migrate-rotation_example :
    IsWellFormed (migrate room 1 (2 ∷ []) (1 ∷ [])).0
    × ((migrate room 1 (2 ∷ []) (1 ∷ [])).1 ≡ ok tt)
    × (rotation (migrate room 1 (2 ∷ []) (1 ∷ [])).0
        ≡ without_queue
            (1 ∷ [])
            (merge (2 ∷ []) (with_room [] (single (11 ∷ []) 0 ∷ [])) (rotation room)))
unfolding get_queue_for_id str_eq uuid
migrate-rotation_example =
    migrate-rotation room 1 (2 ∷ []) (1 ∷ []) 0 room-IsWellFormed room-Fresh refl

abbrev three_items : List QueueItem
three_items = single (11 ∷ []) 0 ∷ single (12 ∷ []) 1 ∷ single (13 ∷ []) 2 ∷ []

order_mine_lem_example :
    (((k : ℕ) (x : QueueItem) → get_elem? three_items k ≡ some x → uuid room.heap x ≢ 13 ∷ [])
      × (order_mine (uuid room.heap) three_items (13 ∷ []) (pos 1) ≡ err (not_found (13 ∷ []))))
    ⊎ (((x : QueueItem) × (get_elem? three_items 1 ≡ some x)
          × (uuid room.heap x ≡ 13 ∷ [])
          × (order_mine (uuid room.heap) three_items (13 ∷ []) (pos 1) ≡ err (same_index 1)))
        ⊎ ((xs : List QueueItem) × (order_mine (uuid room.heap) three_items (13 ∷ []) (pos 1)
              ≡ ok xs)
            × Perm xs three_items
            × ((x : QueueItem) × (get_elem? xs 1 ≡ some x) × (uuid room.heap x ≡ 13 ∷ []))))
order_mine_lem_example = order_mine_lem (uuid room.heap) three_items (13 ∷ []) 1 (omega arith)

order_next_lem_example :
    HasNext den.playback.queue
      (11 ∷ [])
      (order_room den (11 ∷ []) (pos den.playback.queue.rr_count)).0.playback.queue
unfolding peek_items uuid
order_next_lem_example =
    order_next_lem den (11 ∷ []) 0 (single (11 ∷ []) 0) den-IsWellFormed
      ((single (11 ∷ []) 0, single (12 ∷ []) 1 ∷ single (13 ∷ []) 2 ∷ [], refl), tt) refl refl
