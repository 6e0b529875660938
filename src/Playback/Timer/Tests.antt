-- ===== src/Playback/Timer/Tests.antt =====
-- pkg/playback/timer.go: a timer that has played and is stopped within the first second, and the
-- theorems at it.
use streaming_server.Base.{◌≡◌}
use streaming_server.Playback.Timer.{Timer, new_timer, play, stop}
use streaming_server.Playback.Timer.Signals.{
  Reach, start, later, plays, stops, Balanced, Reach-Balanced,
}
use streaming_server.Playback.Timer.Settle.{Internals, Settled, Reach-settle}

abbrev stopped_timer : Timer
stopped_timer = stop (play new_timer)

abbrev stopped : Reach stopped_timer
stopped = later (later start plays) stops

Reach-Balanced_example : Balanced stopped_timer
Reach-Balanced_example = Reach-Balanced stopped_timer stopped

Reach-settle_example :
    (u : Timer) × Internals stopped_timer u × Settled u × (u.state ≡ stopped_timer.state)
Reach-settle_example = Reach-settle stopped_timer stopped
