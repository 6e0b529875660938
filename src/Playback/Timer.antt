-- ===== src/Playback/Timer.antt =====
-- pkg/playback/timer.go: the timer of a room, its channel, and the goroutines that count for it.
pub mod Signals
pub mod Settle
mod Tests
use streaming_server.Base.{
  ℕ, suc, ◌+◌, ◌-◌, ◌≤◌, Bool, true, false, List, [], ◌∷◌, ◌++◌, map, Outcome, ok, err, length,
}
use streaming_server.Base.Int.{ℤ, pos, negsuc}

-- TIMER_PLAY, TIMER_PAUSE, TIMER_STOP: states, of which the last two are sent as signals too.
pub data TimerState : Type 0 where
  timer_play timer_pause timer_stop : TimerState

pub data TimerError : Type 0 where
  negative_time : TimerError

-- `time_chan` is the buffer of the channel, `blocked` the signals of calls that have yet to send.
-- Each goroutine of Increment is asleep or about to read the channel. `calls` records the calls of
-- the callbacks. The channel is never nil, since NewTimer makes it.
pub record Timer : Type 0 where
  pub time : ℕ
  pub state : TimerState
  pub callbacks : List ℕ
  pub time_chan : List TimerState
  pub blocked : List TimerState
  pub asleep : ℕ
  pub awake : ℕ
  pub calls : List (ℕ × ℕ)

abbrev pub max_timer_chan_buffer : ℕ
max_timer_chan_buffer = 1

abbrev pub new_timer : Timer
new_timer = record {
  time = 0;
  state = timer_stop;
  callbacks = [];
  time_chan = [];
  blocked = [];
  asleep = 0;
  awake = 0;
  calls = [];
}

abbrev pub is_playing : TimerState → Bool
is_playing timer_play = true
is_playing _ = false

abbrev pub is_paused : TimerState → Bool
is_paused timer_pause = true
is_paused _ = false

abbrev pub is_stopped : TimerState → Bool
is_stopped timer_stop = true
is_stopped _ = false

unfoldable pub play : Timer → Timer
play t = elim (is_playing t.state) [
  | true ↦ t
  | false ↦ record t { state = timer_play; asleep = suc t.asleep }
]

-- What Stop and Pause do to a timer that plays: the send may block.
signalled : Timer → TimerState → Timer
signalled t s = elim (is_playing t.state) [
  | true ↦ record t { state = s; blocked = t.blocked ++ s ∷ [] }
  | false ↦ t
]

unfoldable pub stop : Timer → Timer
unfolding signalled
stop t = signalled (record t { time = 0 }) timer_stop

unfoldable pub pause : Timer → Timer
unfolding signalled
pause t = signalled t timer_pause

unfoldable pub set : Timer → ℤ → Timer × Outcome TimerError (Unit {0})
set t (negsuc _) = (t, err negative_time)
set t (pos n) = (record t { time = n }, ok tt)

unfoldable pub on_tick : Timer → ℕ → Timer
on_tick t callback = record t { callbacks = t.callbacks ++ callback ∷ [] }

pub record TimerStatus : Type 0 where
  pub playing : Bool
  pub paused : Bool
  pub stopped : Bool
  pub at_time : ℕ

unfoldable pub status : Timer → TimerStatus
status t = record {
  playing = is_playing t.state;
  paused = is_paused t.state;
  stopped = is_stopped t.state;
  at_time = t.time;
}

-- A sleep of Increment ends: the time goes up, and the callbacks are called with it.
unfoldable pub wake : Timer → Timer
wake t = record t {
  time = suc t.time;
  asleep = t.asleep - 1;
  awake = suc t.awake;
  calls = t.calls ++ map (λ c. (c, suc t.time)) t.callbacks;
}

-- The select of Increment. Only `timer_pause` and `timer_stop` are ever sent; another signal would
-- leave the goroutine running.
unfoldable pub select : Timer → Timer
select t = elim t.time_chan [
  | [] ↦ record t { asleep = suc t.asleep; awake = t.awake - 1 }
  | s ∷ signals ↦ elim (is_playing s) [
    | true ↦ record t { time_chan = signals; asleep = suc t.asleep; awake = t.awake - 1 }
    | false ↦ record t { time_chan = signals; awake = t.awake - 1 }
  ]
]

-- A blocked call finds room in the buffer.
unfoldable pub send : Timer → Timer
send t = elim t.blocked [
  | [] ↦ t
  | s ∷ signals ↦ record t { time_chan = t.time_chan ++ s ∷ []; blocked = signals }
]
