-- ===== src/Commands/Queue/Execute.antt =====
-- pkg/socket/cmd/queue.go: QueueCmd.Execute on the playback of the user's room. Which clients are
-- connected is an argument, as are the names and what a new stream needs.
use streaming_server.Base.{
  ℕ, Bool, List, [], ◌∷◌, ◌++◌, Option, if◌then◌else◌, ok, err, panic, diverges,
}
use streaming_server.Base.Text.{Str, codes, str_eq}
use streaming_server.Queue.RoundRobin.{M}
use streaming_server.Streams.{Url}
use streaming_server.Playback.Room.{Room, with_queue}
use streaming_server.Commands.Stream.{second}
use streaming_server.Commands.Queue.{migrate}
use streaming_server.Commands.Queue.Sync.{
  QueueRun, queue_failed, usage, migrating, queue_sync, user_sync, emit,
}
use streaming_server.Commands.Queue.Add.{add}
use streaming_server.Commands.Queue.Clear.{clear_command, list_command, order_command}

-- What the former owner of the queue is sent, if the client is still there; an error is only logged.
told_owner : Bool → Str → QueueRun → QueueRun
told_owner is_there from (r, sent, ok reply) =
    if is_there
    then elim (user_sync r from) [
      | ok e ↦ (r, sent ++ e ∷ [], ok reply)
      | err _ ↦ (r, sent, ok reply)
      | panic ↦ (r, sent, panic)
      | diverges ↦ (r, sent, diverges)
    ]
    else (r, sent, ok reply)
told_owner is_there from (r, sent, err e) = (r, sent, err e)
told_owner is_there from (r, sent, panic) = (r, sent, panic)
told_owner is_there from (r, sent, diverges) = (r, sent, diverges)

migrated_room : (Str → Bool) → Room → Str → Str → M (Unit {0}) → QueueRun
unfolding told_owner
migrated_room is_client r user from (q, ok _) =
    let r' = with_queue r q in
    told_owner (is_client from) from (emit r' [] (user_sync r' user ∷ queue_sync r' ∷ []) migrating)
migrated_room is_client r user from (q, err e) = (with_queue r q, [], err (queue_failed e))
migrated_room is_client r user from (q, panic) = (with_queue r q, [], panic)
migrated_room is_client r user from (q, diverges) = (with_queue r q, [], diverges)

migrate_command : (Str → Bool) → Room → Str → ℕ → List Str → QueueRun
unfolding migrated_room
migrate_command is_client r user a [] = (r, [], ok usage)
migrate_command is_client r user a (from ∷ more) =
    migrated_room is_client r user from (migrate r.playback.queue a user from)

module _ (is_client : Str → Bool) (names : Str → Str) (sources : Option Str → Str) where
  module _ (parse : Str → Option Url) (mime_type : Str → Str) (is_file : Str → Bool) where
    -- `a` is the pointer of a new queue.
    unfoldable pub execute_queue : Room → Str → List Str → ℕ → ℕ → QueueRun
    unfolding migrate_command
    execute_queue r user [] a now = (r, [], ok usage)
    execute_queue r user (command ∷ more) a now =
        if str_eq command (codes "add")
        then add names sources parse mime_type is_file r user (second (command ∷ more)) a now
        else if str_eq command (codes "list")
        then list_command r user more
        else if str_eq command (codes "clear")
        then clear_command r user more
        else if str_eq command (codes "order")
        then order_command r user more
        else if str_eq command (codes "migrate")
        then migrate_command is_client r user a more
        else (r, [], ok usage)
