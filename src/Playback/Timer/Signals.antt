-- ===== src/Playback/Timer/Signals.antt =====
-- pkg/playback/timer.go: calls and goroutines in any interleaving, and the signals between them. A
-- call tests and sets the state in one step, and a callback's calls are steps like others.
use streaming_server.Base.{
  ℕ, ◌+◌, ◌≤◌, ◌<◌, Bool, true, false, List, [], ◌∷◌, ◌≡◌, refl, arith, length, length-append, All,
  All-append, if◌then◌else◌,
}
use streaming_server.Base.Int.{ℤ, pos, negsuc}
use streaming_server.Playback.Timer.{
  TimerState, timer_pause, timer_stop, Timer, new_timer, is_playing, play, stop, pause, set,
  on_tick, wake, select, send, max_timer_chan_buffer, signalled,
}

-- What the goroutines and the calls under way do by themselves.
pub data Internal (t : Timer) : Timer → Type 0 where
  wakes : 0 < t.asleep → Internal t (wake t)
  selects : 0 < t.awake → Internal t (select t)
  sends : length t.time_chan < max_timer_chan_buffer → Internal t (send t)

pub data Step (t : Timer) : Timer → Type 0 where
  plays : Step t (play t)
  stops : Step t (stop t)
  pauses : Step t (pause t)
  sets : (n : ℤ) → Step t (set t n).0
  listens : (callback : ℕ) → Step t (on_tick t callback)
  internal : {u : Timer} → Internal t u → Step t u

pub data Reach : Timer → Type 0 where
  start : Reach new_timer
  later : {t u : Timer} → Reach t → Step t u → Reach u

abbrev pub playing_count : TimerState → ℕ
playing_count s = if is_playing s then 1 else 0

abbrev IsSignal : TimerState → Type 0
IsSignal s = is_playing s ≡ false

-- Each goroutine is the one that plays, or a signal is on its way that will end it.
pub record Balanced (t : Timer) : Type 0 where
  pub balance : t.asleep + t.awake ≡ length t.time_chan + length t.blocked + playing_count t.state
  pub buffered : length t.time_chan ≤ max_timer_chan_buffer
  pub signals : All IsSignal t.time_chan
  pub blocked_signals : All IsSignal t.blocked

play-Balanced : (t : Timer) → Balanced t → Balanced (play t)
unfolding play
play-Balanced t w = go (is_playing t.state) refl
  where
    go : (b : Bool) → is_playing t.state ≡ b → Balanced (play t)
    go true e = rw (e, play) w
    go false e =
        rw (e, play)
          (record {
            balance = ground (arith, w.balance, e);
            buffered = w.buffered;
            signals = w.signals;
            blocked_signals = w.blocked_signals;
          })

signalled-Balanced :
    (t : Timer) (s : TimerState) → IsSignal s → Balanced t → Balanced (signalled t s)
unfolding signalled
signalled-Balanced t s i w = go (is_playing t.state) refl
  where
    go : (b : Bool) → is_playing t.state ≡ b → Balanced (signalled t s)
    go false e = rw (e, signalled) w
    go true e =
        rw (e, signalled)
          (record {
            balance = rw i (ground (arith, w.balance, e, length-append {0} t.blocked (s ∷ [])));
            buffered = w.buffered;
            signals = w.signals;
            blocked_signals = All-append IsSignal t.blocked (s ∷ []) w.blocked_signals (i, tt);
          })

stop-Balanced : (t : Timer) → Balanced t → Balanced (stop t)
unfolding stop
stop-Balanced t w =
    signalled-Balanced (record t { time = 0 }) timer_stop refl
      (record {
        balance = w.balance;
        buffered = w.buffered;
        signals = w.signals;
        blocked_signals = w.blocked_signals;
      })

pause-Balanced : (t : Timer) → Balanced t → Balanced (pause t)
unfolding pause
pause-Balanced t w = signalled-Balanced t timer_pause refl w

set-Balanced : (t : Timer) (n : ℤ) → Balanced t → Balanced (set t n).0
unfolding set
set-Balanced t (negsuc _) w = w
set-Balanced t (pos n) w = record {
  balance = w.balance;
  buffered = w.buffered;
  signals = w.signals;
  blocked_signals = w.blocked_signals;
}

on_tick-Balanced : (t : Timer) (callback : ℕ) → Balanced t → Balanced (on_tick t callback)
unfolding on_tick
on_tick-Balanced t callback w = record {
  balance = w.balance;
  buffered = w.buffered;
  signals = w.signals;
  blocked_signals = w.blocked_signals;
}

wake-Balanced : (t : Timer) → 0 < t.asleep → Balanced t → Balanced (wake t)
unfolding wake
wake-Balanced t h w = record {
  balance = omega (arith, w.balance);
  buffered = w.buffered;
  signals = w.signals;
  blocked_signals = w.blocked_signals;
}

-- The states by their channel.
abbrev channel : Timer → List TimerState → Timer
channel t c = record t { time_chan = c }

select-Balanced-channel :
    (t : Timer) (c : List TimerState)
    → 0 < t.awake
    → Balanced (channel t c)
    → Balanced (select (channel t c))
unfolding select
select-Balanced-channel t [] h w = record {
  balance = omega (arith, w.balance);
  buffered = w.buffered;
  signals = w.signals;
  blocked_signals = w.blocked_signals;
}
select-Balanced-channel t (s ∷ c) h w =
    rw (w.signals.0, select)
      (record {
        balance = omega (arith, w.balance);
        buffered = omega (arith, w.buffered);
        signals = w.signals.1;
        blocked_signals = w.blocked_signals;
      })

select-Balanced : (t : Timer) → 0 < t.awake → Balanced t → Balanced (select t)
select-Balanced t h w = select-Balanced-channel t t.time_chan h w

abbrev waiting : Timer → List TimerState → Timer
waiting t b = record t { blocked = b }

send-Balanced-waiting :
    (t : Timer) (b : List TimerState)
    → length t.time_chan < max_timer_chan_buffer
    → Balanced (waiting t b)
    → Balanced (send (waiting t b))
unfolding send
send-Balanced-waiting t [] h w = w
send-Balanced-waiting t (s ∷ b) h w =
    let l = length-append {0} t.time_chan (s ∷ []) in
    record {
      balance = omega (arith, w.balance, l);
      buffered = omega (arith, h, l);
      signals = All-append IsSignal t.time_chan (s ∷ []) w.signals (w.blocked_signals.0, tt);
      blocked_signals = w.blocked_signals.1;
    }

send-Balanced :
    (t : Timer) → length t.time_chan < max_timer_chan_buffer → Balanced t → Balanced (send t)
send-Balanced t h w = send-Balanced-waiting t t.blocked h w

pub Internal-Balanced : (t u : Timer) → Internal t u → Balanced t → Balanced u
Internal-Balanced t _ (wakes h) w = wake-Balanced t h w
Internal-Balanced t _ (selects h) w = select-Balanced t h w
Internal-Balanced t _ (sends h) w = send-Balanced t h w

Step-Balanced : (t u : Timer) → Step t u → Balanced t → Balanced u
Step-Balanced t _ plays w = play-Balanced t w
Step-Balanced t _ stops w = stop-Balanced t w
Step-Balanced t _ pauses w = pause-Balanced t w
Step-Balanced t _ (sets n) w = set-Balanced t n w
Step-Balanced t _ (listens c) w = on_tick-Balanced t c w
Step-Balanced t u (internal i) w = Internal-Balanced t u i w

-- In every state that calls and goroutines reach in any interleaving, the goroutines are as many as
-- the signals sent or about to be sent, and one more while the timer plays; the buffer holds at most
-- one signal.
pub Reach-Balanced : (t : Timer) → Reach t → Balanced t
Reach-Balanced _ start = record {
  balance = refl;
  buffered = omega arith;
  signals = tt;
  blocked_signals = tt;
}
Reach-Balanced _ (later {t} {u} reach step) = Step-Balanced t u step (Reach-Balanced t reach)
