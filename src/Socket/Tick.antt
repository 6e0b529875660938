-- ===== src/Socket/Tick.antt =====
-- pkg/socket/handler.go: the callback of a room's timer, which goes on to the next stream at the end
-- of one. `has_ended` compares the time with the duration of the stream, which web services tell.
pub mod Advance
mod Tests
use streaming_server.Base.{
  ℕ, ◌%◌, Bool, true, false, ◌&&◌, List, [], ◌∷◌, ◌++◌, Option, none, some, if◌then◌else◌, ◌==◌,
  Outcome, ok, err, panic, diverges,
}
use streaming_server.Base.Text.{Str}
use streaming_server.Base.Dict.{lookup}
use streaming_server.Queue.Item.{QueueItem, single, aggregate}
use streaming_server.Queue.RoundRobin.{M, next}
use streaming_server.Connections.{namespace}
use streaming_server.Playback.Room.{Room, Playback, get_status, set_stream, reset, stop, with_queue}
use streaming_server.Socket.{
  Server, room_of, with_room, Handled, Sent, all, Message, SocketError, streamload, streamsync,
}

-- ROOM_DEFAULT_STREAMSYNC_RATE.
abbrev pub streamsync_rate : ℕ
streamsync_rate = 10

abbrev pub with_playback : Room → Playback → Room
with_playback r p = record r { playback = p }

-- A room, what is sent to all of it, and whether the callback goes on: it returns where the next item
-- is no stream.
abbrev pub Advanced : Type 0
Advanced = Room × List Message × Outcome SocketError Bool

module _ (names : Str → Str) (sources : Option Str → Str) where
  -- What follows the end of a stream: the next item of the queue, or the end.
  advanced : Room → ℕ → M QueueItem → Advanced
  advanced r now (q, ok (single _ p)) =
      let loaded = set_stream names (with_queue r q) p now in
      let at_start = with_playback loaded (reset loaded.playback now) in
      let status = get_status sources at_start in
      (at_start, streamload status ∷ streamsync status ∷ [], ok true)
  advanced r now (q, ok (aggregate _)) = (with_queue r q, [], ok false)
  advanced r now (q, err _) =
      let popped = with_queue r q in
      let stopped = with_playback popped (stop popped.playback now) in
      (stopped, streamsync (get_status sources stopped) ∷ [], ok true)
  advanced r now (q, panic) = (with_queue r q, [], panic)
  advanced r now (q, diverges) = (with_queue r q, [], diverges)

  unfoldable pub advance : Room → ℕ → Advanced
  unfolding advanced
  advance r now = advanced r now (next r.playback.queue)

  module _ (has_ended : ℕ → ℕ → Bool) where
    -- At even seconds.
    at_even : Room → ℕ → ℕ → Advanced
    at_even r current_time now = elim r.playback.stream [
      | none ↦ (r, [], ok true)
      | some p ↦
          let next_stream = advance r now in
          if (current_time % 2 == 0) && has_ended p r.playback.timer.time
          then next_stream
          else (r, [], ok true)
    ]

    -- Every ten seconds the room is told where its stream stands.
    regular : ℕ → Advanced → Room × List Message × Outcome SocketError (Unit {0})
    regular current_time (r, sent, ok false) = (r, sent, ok tt)
    regular current_time (r, sent, ok true) =
        if current_time % streamsync_rate == 0
        then (r, sent ++ streamsync (get_status sources r) ∷ [], ok tt)
        else (r, sent, ok tt)
    regular current_time (r, sent, err e) = (r, sent, err e)
    regular current_time (r, sent, panic) = (r, sent, panic)
    regular current_time (r, sent, diverges) = (r, sent, diverges)

    unfoldable pub tick_room : Room → ℕ → ℕ → Room × List Message × Outcome SocketError (Unit {0})
    unfolding at_even regular
    tick_room r current_time now = regular current_time (at_even r current_time now)

    to_all : Str → List Message → List Sent
    to_all conn [] = []
    to_all conn (m ∷ ms) = all conn m ∷ to_all conn ms

    -- BroadcastAll panics where the client that has opened the room has no namespace; the room has
    -- changed before the first broadcast.
    ticked : Server → Str → Str → Room × List Message × Outcome SocketError (Unit {0}) → Handled
    ticked s name conn (r, [], o) = (with_room s name r, [], o)
    ticked s name conn (r, m ∷ ms, o) = elim (namespace s.connections conn) [
      | none ↦ (with_room s name r, [], panic)
      | some _ ↦ (with_room s name r, to_all conn (m ∷ ms), o)
    ]

    -- The callback for the room of the name, which the client `conn` has opened.
    unfoldable pub tick : Server → Str → Str → ℕ → ℕ → Handled
    unfolding ticked to_all
    tick s name conn current_time now = elim (lookup name s.playbacks) [
      | none ↦ (s, [], ok tt)
      | some p ↦ ticked s name conn (tick_room (room_of s p) current_time now)
    ]
