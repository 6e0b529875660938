-- ===== src/Commands/Queue/Sync.antt =====
-- pkg/socket/cmd/queue.go: what the queue command sends and answers. `sendQueueSyncEvent` sends the order
-- of turns to the room, `sendUserQueueSyncEvent` the user's own queue to the user.
use streaming_server.Base.{
  List, [], ◌∷◌, ◌++◌, none, some, Outcome, ok, err, panic, diverges, ◌≡◌, refl,
}
use streaming_server.Base.Text.{Str}
use streaming_server.Queue.Item.{QueueItem, QueueError, Result}
use streaming_server.Queue.RoundRobin.{serialize}
use streaming_server.Playback.Util.{get_queue_for_id}
use streaming_server.Playback.Room.{Room}
use streaming_server.Playback.Room.Requested.{RequestError}
use streaming_server.Commands.Stream.{StreamEvent}
use streaming_server.Commands.Queue.Order.{OrderError}

pub data QueueCommandError : Type 0 where
  queue_failed : QueueError → QueueCommandError
  no_url wrong_usage unimplemented no_queue not_a_queue bad_destination : QueueCommandError
  no_such_item : Str → QueueCommandError
  not_requested : RequestError → QueueCommandError
  not_ordered : OrderError → QueueCommandError

pub data QueueReply : Type 0 where
  usage queueing auto_playing next_not_a_stream clearing clearing_mine reordering migrating :
      QueueReply
  listed : List QueueItem → QueueReply
  deleting : Str → QueueReply

pub data QueueEvent : Type 0 where
  queuesync : List QueueItem → QueueEvent
  stacksync : Str → List QueueItem → QueueEvent
  stream_event : StreamEvent → QueueEvent

abbrev pub QueueRun : Type 0
QueueRun = Room × List QueueEvent × Outcome QueueCommandError QueueReply

queue_event : Result (List QueueItem) → Outcome QueueCommandError QueueEvent
queue_event (ok xs) = ok (queuesync xs)
queue_event (err e) = err (queue_failed e)
queue_event panic = panic
queue_event diverges = diverges

unfoldable pub queue_sync : Room → Outcome QueueCommandError QueueEvent
unfolding queue_event
queue_sync r = queue_event (serialize r.playback.queue)

-- The items of the user's queue, none if there is no queue.
unfoldable pub user_items : Room → Str → Outcome QueueCommandError (List QueueItem)
user_items r user = elim (get_queue_for_id r.playback.queue.heap user r.playback.queue.items) [
  | ok found ↦ elim found [ none ↦ ok [] | some a ↦ ok (r.playback.queue.heap a).items ]
  | err e ↦ err (queue_failed e)
  | panic ↦ panic
  | diverges ↦ diverges
]

unfoldable pub user_sync : Room → Str → Outcome QueueCommandError QueueEvent
user_sync r user = elim (user_items r user) [
  | ok xs ↦ ok (stacksync user xs)
  | err e ↦ err e
  | panic ↦ panic
  | diverges ↦ diverges
]

-- The events are sent one by one; the first that fails ends the command.
unfoldable pub emit :
    Room → List QueueEvent → List (Outcome QueueCommandError QueueEvent) → QueueReply → QueueRun
emit r sent [] reply = (r, sent, ok reply)
emit r sent (ok e ∷ more) reply = emit r (sent ++ e ∷ []) more reply
emit r sent (err e ∷ more) reply = (r, sent, err e)
emit r sent (panic ∷ more) reply = (r, sent, panic)
emit r sent (diverges ∷ more) reply = (r, sent, diverges)

unfoldable pub emit_both : Room → Str → QueueReply → QueueRun
emit_both r user reply = emit r [] (queue_sync r ∷ user_sync r user ∷ []) reply

pub emit-room :
    (r : Room) (sent : List QueueEvent) (events : List (Outcome QueueCommandError QueueEvent))
    (reply : QueueReply)
    → (emit r sent events reply).0 ≡ r
unfolding emit
emit-room r sent [] reply = refl
emit-room r sent (ok e ∷ more) reply = emit-room r (sent ++ e ∷ []) more reply
emit-room r sent (err e ∷ more) reply = refl
emit-room r sent (panic ∷ more) reply = refl
emit-room r sent (diverges ∷ more) reply = refl
