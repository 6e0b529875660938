-- ===== src/Socket/Tick/Advance.antt =====
-- pkg/socket/handler.go: the end of a stream plays what the round-robin queue serves next.
use streaming_server.Base.{ℕ, true, false, List, [], ◌≡◌, refl, Option, none, some, ok}
use streaming_server.Base.Text.{Str}
use streaming_server.Queue.Item.{QueueItem, single, aggregate, Result}
use streaming_server.Queue.RoundRobin.{RoundRobinQueue, next}
use streaming_server.Queue.RoundRobin.Rotation.{View, rotation, IsWellFormed}
use streaming_server.Queue.RoundRobin.Turn.{serve, ServesTo}
use streaming_server.Queue.RoundRobin.Next.{next-Serves}
use streaming_server.Playback.Timer
use streaming_server.Playback.Room.{Room, ended, set_stream, reset, set_time, stop}
use streaming_server.Socket.Tick.{Advanced, advance, advanced}

-- What the end of a stream comes to, from what the turn order serves.
abbrev pub Advances : Room → Option (QueueItem × List View) → Advanced → Type 0
Advances r none (r', sent, o) =
    (o ≡ ok true)
    × (r'.playback.state ≡ ended)
    × (r'.playback.stream ≡ r.playback.stream)
    × (rotation r'.playback.queue ≡ [])
    × IsWellFormed r'.playback.queue
Advances r (some (single _ p, turns)) (r', sent, o) =
    (o ≡ ok true)
    × (r'.playback.stream ≡ some p)
    × (r'.playback.timer.time ≡ 0)
    × (r'.playback.timer.state ≡ r.playback.timer.state)
    × (rotation r'.playback.queue ≡ turns)
    × IsWellFormed r'.playback.queue
Advances r (some (aggregate _, turns)) (r', sent, o) =
    (o ≡ ok false)
    × (sent ≡ [])
    × (r'.playback.stream ≡ r.playback.stream)
    × (rotation r'.playback.queue ≡ turns)
    × IsWellFormed r'.playback.queue

module _ (names : Str → Str) (sources : Option Str → Str) where
  advanced-Advances :
      (r : Room) (now : ℕ) (o : Option (QueueItem × List View)) (q : RoundRobinQueue)
      (x : Result QueueItem)
      → ServesTo o (q, x)
      → Advances r o (advanced names sources r now (q, x))
  unfolding advanced set_stream reset set_time stop Timer.set
  advanced-Advances r now none q x (w, e, turns) = rw (e, advanced) (refl, refl, refl, turns, w)
  advanced-Advances r now (some (single k p, vs)) q x (w, e, turns) =
      rw (e, advanced) (refl, refl, refl, refl, turns, w)
  advanced-Advances r now (some (aggregate a, vs)) q x (w, e, turns) =
      rw (e, advanced) (refl, refl, refl, turns, w)

  -- At the end of a stream the room goes on with the stream that the order of turns serves next, from
  -- its start, and the order is then the one that is left; if no queue has an item, the room has
  -- ended. The room's queue stays well formed.
  pub advance-Advances :
      (r : Room) (now : ℕ)
      → IsWellFormed r.playback.queue
      → Advances r (serve (rotation r.playback.queue)) (advance names sources r now)
  unfolding advance
  advance-Advances r now w =
      let (q, x) = next r.playback.queue in
      advanced-Advances r now (serve (rotation r.playback.queue)) q x
        (next-Serves r.playback.queue w)
