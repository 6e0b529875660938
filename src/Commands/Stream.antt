-- ===== src/Commands/Stream.antt =====
-- pkg/socket/cmd/stream.go: the stream command on the playback of the user's room. The parsing of urls,
-- the table of mime types, the file system, the names of clients and the time are arguments.
pub mod Skip
pub mod Seek
mod Tests
use streaming_server.Base.{
  ℕ, Bool, true, false, List, [], ◌∷◌, ◌||◌, Option, none, some, if◌then◌else◌, ◌==◌, length,
  Outcome, ok, err, panic, diverges,
}
use streaming_server.Base.Text.{Str, codes, str_eq, is_in}
use streaming_server.Base.Int.{ℤ, pos}
use streaming_server.Base.Decimal.{atoi, add_int, sub_int}
use streaming_server.Queue.Item.{QueueItem, single, aggregate, QueueError}
use streaming_server.Queue.RoundRobin.{M, next}
use streaming_server.Streams.{Url}
use streaming_server.Playback.Room.{
  Room, Playback, PlaybackStatus, get_status, set_stream, reset, play, pause, stop, set_time,
  with_queue,
}
use streaming_server.Playback.Room.Requested.{RequestError, get_or_create_stream_from_url}
use streaming_server.Commands.Time.{human_time_to_seconds}

pub data StreamCommandError : Type 0 where
  no_next : QueueError → StreamCommandError
  next_not_a_stream no_url no_stream no_time : StreamCommandError
  not_loaded : RequestError → StreamCommandError
  bad_time : Str → StreamCommandError

pub data StreamReply : Type 0 where
  usage info playing pausing stopping : StreamReply
  loading_next : ℕ → StreamReply
  loading : Str → StreamReply
  setting advancing rewinding : ℤ → StreamReply

-- What BroadcastAll sends to the room.
pub data StreamEvent : Type 0 where
  streamload streamsync : PlaybackStatus → StreamEvent

abbrev pub Run : Type 0
Run = Room × List StreamEvent × Outcome StreamCommandError StreamReply

abbrev pub with_playback : Room → Playback → Room
with_playback r p = record r { playback = p }

-- The second argument, or nothing if it is missing or empty.
abbrev pub second : List Str → Option Str
second [] = none
second (a ∷ []) = none
second (a ∷ [] ∷ more) = none
second (a ∷ (c ∷ s) ∷ more) = some (c ∷ s)

-- A leading sign that is taken off, and the rest.
pub data Modifier : Type 0 where
  plus minus absolute : Modifier

unfoldable pub modifier : Str → Modifier × Str
modifier [] = (absolute, [])
modifier (c ∷ s) = if c == 43 then (plus, s) else if c == 45 then (minus, s) else (absolute, c ∷ s)

unfoldable pub parse_time : Str → Option ℤ
parse_time t = elim (atoi t) [
  | some n ↦ some n
  | none ↦ elim (human_time_to_seconds t) [
    | ok n ↦ some n
    | err _ ↦ none
    | panic ↦ none
    | diverges ↦ none
  ]
]

-- The new time: GetTime() + newTime, GetTime() - newTime or newTime.
unfoldable pub moved_time : Modifier → ℕ → ℤ → ℤ
moved_time plus time n = add_int (pos time) n
moved_time minus time n = sub_int (pos time) n
moved_time absolute time n = n

unfoldable pub reply_to : Modifier → ℤ → StreamReply
reply_to plus n = advancing n
reply_to minus n = rewinding n
reply_to absolute n = setting n

module _ (names : Str → Str) (sources : Option Str → Str) where
  -- The end of "skip": SetStream, Reset and, if no stream was loaded, Play.
  unfoldable pub load_next : Bool → Room → ℕ → ℕ → Run
  load_next should_play r p now =
      let loaded = set_stream names r p now in
      let at_start = reset loaded.playback now in
      let r' = with_playback loaded (if should_play then play at_start now else at_start) in
      (r', streamload (get_status sources r') ∷ [], ok (loading_next p))

  load_item : Bool → Room → ℕ → M QueueItem → Run
  load_item should_play r now (q, ok (single _ p)) = load_next should_play (with_queue r q) p now
  load_item should_play r now (q, ok (aggregate _)) = (with_queue r q, [], err next_not_a_stream)
  load_item should_play r now (q, err e) = (with_queue r q, [], err (no_next e))
  load_item should_play r now (q, panic) = (with_queue r q, [], panic)
  load_item should_play r now (q, diverges) = (with_queue r q, [], diverges)

  unfoldable pub skip : Bool → Room → ℕ → Run
  unfolding load_item
  skip should_play r now = load_item should_play r now (next r.playback.queue)

  -- Where a stream is loaded, the event after the change of the playback.
  synced : Room → Playback → StreamReply → Run
  synced r p reply =
      let r' = with_playback r p in (r', streamsync (get_status sources r') ∷ [], ok reply)

  unfoldable pub play_or_skip : Room → ℕ → Run
  unfolding synced
  play_or_skip r now = elim r.playback.stream [
    | some _ ↦ synced r (play r.playback now) playing
    | none ↦ skip true r now
  ]

  seek_by : Room → Str → Modifier × Str → ℕ → Run
  unfolding synced
  seek_by r t (sign, rest) now = elim (parse_time rest) [
    | none ↦ (r, [], err (bad_time t))
    | some n ↦
        synced r (set_time r.playback (moved_time sign r.playback.timer.time n) now)
          (reply_to sign n)
  ]

  unfoldable pub seek : Room → Option Str → ℕ → Run
  unfolding seek_by
  seek r none now = (r, [], err no_time)
  seek r (some t) now = seek_by r t (modifier t) now

  -- The second switch, behind the test that a stream is loaded.
  unfoldable pub on_stream : Room → Str → List Str → ℕ → Run
  unfolding synced
  on_stream r command args now = elim r.playback.stream [
    | none ↦ (r, [], err no_stream)
    | some _ ↦
        if str_eq command (codes "pause")
        then synced r (pause r.playback now) pausing
        else if str_eq command (codes "stop")
        then synced r (stop r.playback now) stopping
        else if str_eq command (codes "seek")
        then seek r (second args) now
        else (r, [], ok usage)
  ]

  module _ (parse : Str → Option Url) (mime_type : Str → Str) (is_file : Str → Bool) where
    loaded_url : Str → ℕ → Room × Outcome RequestError ℕ → Run
    loaded_url url now (r, ok p) =
        let loaded = set_stream names r p now in
        let r' = with_playback loaded (reset loaded.playback now) in
        (r', streamload (get_status sources r') ∷ [], ok (loading url))
    loaded_url url now (r, err e) = (r, [], err (not_loaded e))
    loaded_url url now (r, panic) = (r, [], panic)
    loaded_url url now (r, diverges) = (r, [], diverges)

    unfoldable pub load : Room → Str → Option Str → ℕ → Run
    unfolding loaded_url
    load r user none now = (r, [], err no_url)
    load r user (some url) now =
        loaded_url url now (get_or_create_stream_from_url parse mime_type is_file r url user now)

    unfoldable pub execute_stream : Room → Str → List Str → ℕ → Run
    execute_stream r user [] now = (r, [], ok usage)
    execute_stream r user (command ∷ more) now =
        if str_eq command (codes "info")
        then (r, [], ok info)
        else if str_eq command (codes "play")
        then play_or_skip r now
        else if str_eq command (codes "skip")
        then skip false r now
        else if is_in command (codes "load" ∷ codes "set" ∷ [])
        then load r user (second (command ∷ more)) now
        else on_stream r command (command ∷ more) now
