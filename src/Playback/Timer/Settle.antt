-- ===== src/Playback/Timer/Settle.antt =====
-- pkg/playback/timer.go: when no more calls come, the signals are delivered and the goroutines that
-- they are for end.
use streaming_server.Base.{
  ℕ, zero, suc, ◌+◌, ◌<◌, List, [], ◌∷◌, ◌≡◌, refl, ◌∙◌, ◌⊎◌, inl, inr, arith, length,
}
use streaming_server.Playback.Timer.{Timer, TimerState, wake, select, send}
use streaming_server.Playback.Timer.Signals.{
  Internal, wakes, selects, sends, Balanced, Reach, Reach-Balanced, Internal-Balanced,
  playing_count,
}

-- The goroutines and the calls under way on their own.
pub data Internals : Timer → Timer → Type 0 where
  done : {t : Timer} → Internals t t
  also : {t u v : Timer} → Internal t u → Internals u v → Internals t v

abbrev signal_count : Timer → ℕ
signal_count t = length t.time_chan + length t.blocked

-- A shorter way to the end.
Fewer : Timer → Type 0
Fewer t =
    (u : Timer) × Internals t u
    × Balanced u
    × (u.state ≡ t.state)
    × (suc (signal_count u) ≡ signal_count t)

before :
    (t u : Timer)
    → Internal t u
    → u.state ≡ t.state
    → signal_count u ≡ signal_count t
    → Fewer u
    → Fewer t
unfolding Fewer
before t u i s c (v, is, w, s', c') = (v, also i is, w, s' ∙ s, c' ∙ c)

select-Fewer :
    (t : Timer) (s : TimerState) (c : List TimerState)
    → Balanced (record t { time_chan = s ∷ c })
    → 0 < t.awake
    → Fewer (record t { time_chan = s ∷ c })
unfolding Fewer select
select-Fewer t s c w h = (
  select (record t { time_chan = s ∷ c }),
  also (selects h) done,
  Internal-Balanced (record t { time_chan = s ∷ c }) _ (selects h) w,
  rw (w.signals.0, select) refl,
  rw (w.signals.0, select) (omega arith),
)

filled-Fewer :
    (t : Timer) (s : TimerState) (c : List TimerState)
    → Balanced (record t { time_chan = s ∷ c })
    → (0 < t.awake) ⊎ (t.awake ≡ 0)
    → Fewer (record t { time_chan = s ∷ c })
unfolding wake
filled-Fewer t s c w (inl h) = select-Fewer t s c w h
filled-Fewer t s c w (inr z) =
    let h : 0 < t.asleep = omega (arith, w.balance, z) in
    let i : Internal (record t { time_chan = s ∷ c }) _ = wakes h in
    before (record t { time_chan = s ∷ c }) _ i refl refl
      (select-Fewer (wake t) s c (Internal-Balanced (record t { time_chan = s ∷ c }) _ i w)
        (omega arith))

at_channel :
    (t : Timer) (c : List TimerState)
    → Balanced (record t { time_chan = c })
    → 0 < length c
    → Fewer (record t { time_chan = c })
at_channel t [] w h = absurd (omega (arith, h))
at_channel t (s ∷ c) w h = filled-Fewer t s c w (ground arith)

empty_channel :
    (t : Timer) (b : List TimerState)
    → Balanced (record t { time_chan = []; blocked = b })
    → 0 < length b
    → Fewer (record t { time_chan = []; blocked = b })
unfolding send
empty_channel t [] w h = absurd (omega (arith, h))
empty_channel t (s ∷ b) w h =
    let i : Internal (record t { time_chan = []; blocked = s ∷ b }) _ = sends (omega arith) in
    before (record t { time_chan = []; blocked = s ∷ b }) _ i refl (omega arith)
      (filled-Fewer (record t { blocked = b }) s []
        (Internal-Balanced (record t { time_chan = []; blocked = s ∷ b }) _ i w) (ground arith))

at_state :
    (t : Timer) (c : List TimerState)
    → Balanced (record t { time_chan = c })
    → 0 < length c + length t.blocked
    → Fewer (record t { time_chan = c })
at_state t [] w h = empty_channel t t.blocked w (omega (arith, h))
at_state t (s ∷ c) w h = at_channel t (s ∷ c) w (omega arith)

-- No signal is left, and a goroutine runs just where the timer plays.
pub record Settled (t : Timer) : Type 0 where
  pub no_signals : signal_count t ≡ 0
  pub goroutines : t.asleep + t.awake ≡ playing_count t.state

append-Internals : {t u v : Timer} → Internals t u → Internals u v → Internals t v
append-Internals done js = js
append-Internals (also i is) js = also i (append-Internals is js)

settle :
    (n : ℕ) (t : Timer)
    → Balanced t
    → signal_count t ≡ n
    → (u : Timer) × Internals t u × Settled u × (u.state ≡ t.state)
unfolding Fewer
settle zero t w e =
    (t, done, record { no_signals = e; goroutines = omega (arith, w.balance, e) }, refl)
settle (suc n) t w e =
    let (u, is, w', s, c) = at_state t t.time_chan w (omega (arith, e)) in
    let (v, js, settled, s') = settle n u w' (omega (arith, c, e)) in
    (v, append-Internals is js, settled, s' ∙ s)

-- From every state that is reached, the goroutines and the calls under way can go on by themselves,
-- with no deadlock and no further call, until every signal is delivered; then one goroutine counts
-- if the timer plays, and none otherwise.
pub Reach-settle :
    (t : Timer) → Reach t → (u : Timer) × Internals t u × Settled u × (u.state ≡ t.state)
Reach-settle t reach = settle (signal_count t) t (Reach-Balanced t reach) refl
