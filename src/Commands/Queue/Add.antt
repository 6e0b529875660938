-- ===== src/Commands/Queue/Add.antt =====
-- pkg/socket/cmd/queue.go: `/queue add`, which queues a stream and plays it if nothing plays.
pub mod Queued
use streaming_server.Base.{
  ℕ, Bool, true, false, List, [], ◌∷◌, ◌++◌, Option, none, some, if◌then◌else◌, leb, length,
  Outcome, ok, err, panic, diverges,
}
use streaming_server.Base.Text.{Str}
use streaming_server.Queue.Item.{QueueItem, single, aggregate, allocate, Result, max_size_exceeded}
use streaming_server.Queue.Schema.{max_aggregatable_queue_items}
use streaming_server.Queue.RoundRobin.{RoundRobinQueue, M, push, next}
use streaming_server.Streams.{Url}
use streaming_server.Playback.Util.{get_queue_for_id}
use streaming_server.Playback.Room.{
  Room, Playback, PlaybackState, started, not_started, ended, push_to_queue, set_stream, reset,
  play, get_status, with_queue,
}
use streaming_server.Playback.Room.Requested.{RequestError, get_or_create_stream_from_url}
use streaming_server.Commands.Stream.{streamload, streamsync, with_playback}
use streaming_server.Commands.Queue.Sync.{
  QueueRun, QueueEvent, stream_event, QueueCommandError, queue_failed, no_url, not_requested,
  QueueReply, queueing, auto_playing, next_not_a_stream, queue_sync, user_sync, emit_both,
}

-- The new queue of the user at the pointer `a`, after its push.
pushed_queue : ℕ → M (Unit {0}) → M ℕ
pushed_queue a (q, ok _) = (q, ok a)
pushed_queue a (q, err e) = (q, err e)
pushed_queue a (q, panic) = (q, panic)
pushed_queue a (q, diverges) = (q, diverges)

-- The user's queue, which is made if there is none.
unfoldable pub user_queue : RoundRobinQueue → Str → ℕ → M ℕ
unfolding pushed_queue
user_queue q user a = elim (get_queue_for_id q.heap user q.items) [
  | ok found ↦ elim found [
    | some b ↦ (q, ok b)
    | none ↦ pushed_queue a (push (record q { heap = allocate q.heap a user }) (aggregate a))
  ]
  | err e ↦ (q, err e)
  | panic ↦ (q, panic)
  | diverges ↦ (q, diverges)
]

abbrev pub has_started : PlaybackState → Bool
has_started started = true
has_started not_started = false
has_started ended = false

module _ (names : Str → Str) (sources : Option Str → Str) where
  unfoldable pub auto_play : Room → List QueueEvent → ℕ → ℕ → QueueRun
  auto_play r sent p now =
      let loaded = set_stream names r p now in
      let at_start = with_playback loaded (reset loaded.playback now) in
      let status = get_status sources at_start in
      (
        with_playback at_start (play at_start.playback now),
        sent ++ stream_event (streamload status) ∷ stream_event (streamsync status) ∷ [],
        ok auto_playing,
      )

  play_item : Room → List QueueEvent → QueueReply → ℕ → M QueueItem → QueueRun
  play_item r sent reply now (q, ok (single _ p)) = auto_play (with_queue r q) sent p now
  play_item r sent reply now (q, ok (aggregate _)) = (with_queue r q, sent, ok next_not_a_stream)
  play_item r sent reply now (q, err _) = (with_queue r q, sent, ok reply)
  play_item r sent reply now (q, panic) = (with_queue r q, sent, panic)
  play_item r sent reply now (q, diverges) = (with_queue r q, sent, diverges)

  -- The last part, behind the events.
  play_if_idle : QueueRun → ℕ → QueueRun
  unfolding play_item
  play_if_idle (r, sent, ok reply) now =
      if has_started r.playback.state
      then (r, sent, ok reply)
      else play_item r sent reply now (next r.playback.queue)
  play_if_idle (r, sent, err e) now = (r, sent, err e)
  play_if_idle (r, sent, panic) now = (r, sent, panic)
  play_if_idle (r, sent, diverges) now = (r, sent, diverges)

  add_requested : ℕ → Str → ℕ → Room × Outcome RequestError ℕ → QueueRun
  unfolding play_if_idle
  add_requested b user now (r, ok p) =
      play_if_idle (emit_both (push_to_queue r b p) user queueing) now
  add_requested b user now (r, err e) = (r, [], err (not_requested e))
  add_requested b user now (r, panic) = (r, [], panic)
  add_requested b user now (r, diverges) = (r, [], diverges)

  module _ (parse : Str → Option Url) (mime_type : Str → Str) (is_file : Str → Bool) where
    add_to : Room → Str → Str → ℕ → M ℕ → QueueRun
    unfolding add_requested
    add_to r user url now (q, ok b) =
        if leb max_aggregatable_queue_items (length (q.heap b).items)
        then (with_queue r q, [], err (queue_failed max_size_exceeded))
        else add_requested b user now
            (get_or_create_stream_from_url parse mime_type is_file (with_queue r q) url user now)
    add_to r user url now (q, err e) = (with_queue r q, [], err (queue_failed e))
    add_to r user url now (q, panic) = (with_queue r q, [], panic)
    add_to r user url now (q, diverges) = (with_queue r q, [], diverges)

    -- `a` is the pointer of a new queue.
    unfoldable pub add : Room → Str → Option Str → ℕ → ℕ → QueueRun
    unfolding add_to
    add r user none a now = (r, [], err no_url)
    add r user (some url) a now = add_to r user url now (user_queue r.playback.queue user a)
