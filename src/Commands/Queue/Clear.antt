-- ===== src/Commands/Queue/Clear.antt =====
-- pkg/socket/cmd/queue.go: `/queue list`, `/queue clear` and `/queue order`.
use streaming_server.Base.{
  ℕ, List, [], ◌∷◌, none, some, if◌then◌else◌, map, length, get_elem?, Outcome, ok, err, panic,
  diverges,
}
use streaming_server.Base.Text.{Str, codes, str_eq, is_in}
use streaming_server.Base.Int.{ℤ, pos}
use streaming_server.Base.Decimal.{atoi}
use streaming_server.Queue.Item.{QueueItem, single, aggregate, uuid, set_items, Result}
use streaming_server.Queue.RoundRobin.{M, peek_items, serialize, reorder_round_robin}
use streaming_server.Streams.{get_stream}
use streaming_server.Playback.Util.{get_queue_for_id}
use streaming_server.Playback.Room.{
  Room, with_queue, clear_queue_item, clear_queue, clear_user_queue,
}
use streaming_server.Commands.Queue.Order.{
  OrderError, not_found, not_reordered, queue_item_index, calculate_queue_order, order_mine,
}
use streaming_server.Commands.Queue.Sync.{
  QueueRun, QueueCommandError, queue_failed, wrong_usage, unimplemented, no_queue, not_a_queue,
  bad_destination, no_such_item, not_ordered, QueueReply, usage, clearing, clearing_mine,
  reordering, listed, deleting, queue_sync, user_sync, user_items, emit, emit_both,
}

-- The end of a command that changed the room, or failed.
cleared_with : QueueReply → Str → Room × Result (Unit {0}) → QueueRun
cleared_with reply user (r, ok _) = emit_both r user reply
cleared_with reply user (r, err e) = (r, [], err (queue_failed e))
cleared_with reply user (r, panic) = (r, [], panic)
cleared_with reply user (r, diverges) = (r, [], diverges)

-- The item is found among the first items of the queues, and its position is then one in List().
unfoldable pub clear_from_room : Room → Str → Str → QueueRun
unfolding cleared_with
clear_from_room r user url =
    let q = r.playback.queue in
    let firsts = peek_items q.heap q.items in
    elim (queue_item_index (uuid q.heap) url firsts 0) [
      | none ↦ (r, [], err (no_such_item url))
      | some idx ↦ elim (get_elem? q.items idx) [
        | none ↦ (r, [], panic)
        | some queue ↦ elim queue [
          | single _ _ ↦ (r, [], err not_a_queue)
          | aggregate a ↦ elim (get_elem? firsts idx) [
            | none ↦ (r, [], panic)
            | some item ↦ cleared_with (deleting url) user (clear_queue_item r (aggregate a) item)
          ]
        ]
      ]
    ]

-- The error of ClearQueue, which always returns one, is dropped.
unfoldable pub clear_room : Room → Str → List Str → QueueRun
unfolding cleared_with
clear_room r user [] = cleared_with clearing user (clear_queue r)
clear_room r user (url ∷ more) = clear_from_room r user url

clear_own : Room → Str → List Str → ℕ → QueueRun
unfolding cleared_with
clear_own r user [] a = cleared_with clearing_mine user (clear_user_queue r a)
clear_own r user (url ∷ more) a = elim (get_stream r.streams url) [
  | none ↦ (r, [], err (no_such_item url))
  | some p ↦
      let item = single (r.streams.objects p).url p in
      cleared_with (deleting (r.streams.objects p).url) user (clear_queue_item r (aggregate a) item)
]

-- What a command does to the user's queue, if there is one.
with_own : Room → Str → (ℕ → QueueRun) → QueueRun
with_own r user run = elim (get_queue_for_id r.playback.queue.heap user r.playback.queue.items) [
  | ok found ↦ elim found [ none ↦ (r, [], err no_queue) | some a ↦ run a ]
  | err e ↦ (r, [], err (queue_failed e))
  | panic ↦ (r, [], panic)
  | diverges ↦ (r, [], diverges)
]

-- The arguments behind "clear".
unfoldable pub clear_command : Room → Str → List Str → QueueRun
unfolding clear_own with_own
clear_command r user [] = (r, [], err wrong_usage)
clear_command r user (whose ∷ more) =
    if is_in whose (codes "room" ∷ codes "all" ∷ [])
    then clear_room r user more
    else if is_in whose (codes "mine" ∷ codes "me" ∷ [])
    then with_own r user (clear_own r user more)
    else (r, [], ok usage)

listing : Room → Outcome QueueCommandError (List QueueItem) → QueueRun
listing r (ok xs) = (r, [], ok (listed xs))
listing r (err e) = (r, [], err e)
listing r panic = (r, [], panic)
listing r diverges = (r, [], diverges)

room_items : Result (List QueueItem) → Outcome QueueCommandError (List QueueItem)
room_items (ok xs) = ok xs
room_items (err e) = err (queue_failed e)
room_items panic = panic
room_items diverges = diverges

-- The arguments behind "list"; another word than the four falls out of the switch.
unfoldable pub list_command : Room → Str → List Str → QueueRun
unfolding listing room_items
list_command r user [] = (r, [], err wrong_usage)
list_command r user (whose ∷ more) =
    if is_in whose (codes "mine" ∷ codes "me" ∷ [])
    then listing r (user_items r user)
    else if is_in whose (codes "room" ∷ codes "all" ∷ [])
    then listing r (room_items (serialize r.playback.queue))
    else (r, [], ok usage)

reordered_room : Room → M (Unit {0}) → QueueRun
reordered_room r (q, ok _) = let r' = with_queue r q in emit r' [] (queue_sync r' ∷ []) reordering
reordered_room r (q, err e) = (with_queue r q, [], err (not_ordered (not_reordered e)))
reordered_room r (q, panic) = (with_queue r q, [], panic)
reordered_room r (q, diverges) = (with_queue r q, [], diverges)

ordered : Room → Outcome OrderError (List ℕ) → QueueRun
unfolding reordered_room
ordered r (ok order) = reordered_room r (reorder_round_robin r.playback.queue (map pos order))
ordered r (err e) = (r, [], err (not_ordered e))
ordered r panic = (r, [], panic)
ordered r diverges = (r, [], diverges)

-- The item with the id moves to the destination among all the queues: its place among the first
-- items is taken as the place of its queue.
unfoldable pub order_room : Room → Str → ℤ → QueueRun
unfolding ordered
order_room r id dest =
    let q = r.playback.queue in
    elim (queue_item_index (uuid q.heap) id (peek_items q.heap q.items) 0) [
      | none ↦ (r, [], err (not_ordered (not_found id)))
      | some source ↦ ordered r (calculate_queue_order source dest (length q.items))
    ]

ordered_own : Room → Str → ℕ → Outcome OrderError (List QueueItem) → QueueRun
ordered_own r user a (ok xs) =
    let q = r.playback.queue in
    let r' = with_queue r (record q { heap = set_items q.heap a xs }) in
    emit r' [] (user_sync r' user ∷ queue_sync r' ∷ []) reordering
ordered_own r user a (err e) = (r, [], err (not_ordered e))
ordered_own r user a panic = (r, [], panic)
ordered_own r user a diverges = (r, [], diverges)

-- An item that is not in the list is reported before a destination that is no number.
order_with : Room → Str → List QueueItem → Str → (ℤ → QueueRun) → QueueRun
order_with r id items dest run = elim (queue_item_index (uuid r.playback.queue.heap) id items 0) [
  | none ↦ (r, [], err (not_ordered (not_found id)))
  | some _ ↦ elim (atoi dest) [ none ↦ (r, [], err bad_destination) | some d ↦ run d ]
]

order_own : Room → Str → Str → Str → ℕ → QueueRun
unfolding order_with ordered_own
order_own r user id dest a =
    let q = r.playback.queue in
    let items = (q.heap a).items in
    order_with r id items dest (λ d. ordered_own r user a (order_mine (uuid q.heap) items id d))

-- The arguments behind "order".
unfoldable pub order_command : Room → Str → List Str → QueueRun
unfolding with_own order_own order_with
order_command r user [] = (r, [], err wrong_usage)
order_command r user (whose ∷ []) = (r, [], err wrong_usage)
order_command r user (whose ∷ id ∷ []) =
    if str_eq whose (codes "next")
    then order_room r id (pos r.playback.queue.rr_count)
    else if is_in whose (codes "room" ∷ codes "mine" ∷ [])
    then (r, [], err unimplemented)
    else (r, [], ok usage)
order_command r user (whose ∷ id ∷ dest ∷ more) =
    let q = r.playback.queue in
    if str_eq whose (codes "next")
    then order_room r id (pos q.rr_count)
    else if str_eq whose (codes "room")
    then order_with r id (peek_items q.heap q.items) dest (order_room r id)
    else if str_eq whose (codes "mine")
    then with_own r user (order_own r user id dest)
    else (r, [], ok usage)
