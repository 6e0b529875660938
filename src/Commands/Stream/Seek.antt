-- ===== src/Commands/Stream/Seek.antt =====
-- pkg/socket/cmd/stream.go: `/stream seek` and the time that it sets.
use streaming_server.Base.{
  ℕ, ◌+◌, ◌-◌, ◌%◌, ◌≤◌, ◌<◌, ◌≡◌, refl, arith, Option, some, ok, if◌then◌else◌, leb, Bool-cases,
  inl, inr,
}
use streaming_server.Base.Text.{Str}
use streaming_server.Base.Int.{ℤ, pos, negsuc}
use streaming_server.Base.Decimal.{int_limit, word, bits, signed, add_int, sub_int}
use streaming_server.Playback.Timer
use streaming_server.Playback.Timer.{Timer}
use streaming_server.Playback.Room.{Room, set_time}
use streaming_server.Commands.Stream.{
  seek, modifier, parse_time, moved_time, reply_to, Modifier, plus, minus, absolute, seek_by,
}

-- The time after a command with the number `n` at the time `time`.
abbrev pub sought : Modifier → ℕ → ℕ → ℕ
sought absolute time n = n
sought plus time n = time + n
sought minus time n = if leb n time then time - n else time

add_int-small : (a b : ℕ) → a + b < int_limit → add_int (pos a) (pos b) ≡ pos (a + b)
unfolding add_int signed
add_int-small a b lt =
    let sum : (bits (pos a) + bits (pos b)) % word ≡ a + b = omega (arith, lt) in
    rw sum (ground (arith, lt))

sub_int-small : (a b : ℕ) → a < int_limit → b ≤ a → sub_int (pos a) (pos b) ≡ pos (a - b)
unfolding sub_int signed
sub_int-small a b lt le =
    let difference : (bits (pos a) + (word - bits (pos b))) % word ≡ a - b =
      omega (arith, lt, le) in
    rw difference (ground (arith, lt))

sub_int-below :
    (a b : ℕ)
    → a < int_limit
    → b < int_limit
    → a < b
    → (n : ℕ) × (sub_int (pos a) (pos b) ≡ negsuc n)
unfolding sub_int signed
sub_int-below a b lt lt' below =
    let difference : (bits (pos a) + (word - bits (pos b))) % word ≡ word - (b - a) =
      omega (arith, lt, lt', below) in
    (b - a - 1, rw difference (ground (arith, lt', below)))

set_time-sought :
    (sign : Modifier) (r : Room) (n now : ℕ)
    → r.playback.timer.time + n < int_limit
    → (set_time r.playback (moved_time sign r.playback.timer.time (pos n)) now).timer.time
      ≡ sought sign r.playback.timer.time n
unfolding moved_time set_time Timer.set
set_time-sought absolute r n now lt = refl
set_time-sought plus r n now lt = rw (add_int-small r.playback.timer.time n lt) refl
set_time-sought minus r n now lt = elim (Bool-cases (leb n r.playback.timer.time)) [
  | inl within ↦
      rw
        (within, sub_int-small r.playback.timer.time n (omega (arith, lt)) (ground (arith, within)))
        refl
  | inr before ↦
      let (k, negative) =
        sub_int-below r.playback.timer.time n (omega (arith, lt)) (omega (arith, lt))
          (ground (arith, before)) in
      rw (before, negative) refl
]

state_kept : (t : Timer) (m : ℤ) → (Timer.set t m).0.state ≡ t.state
unfolding Timer.set
state_kept t (pos k) = refl
state_kept t (negsuc k) = refl

-- A seek to, forward or back by a number of seconds succeeds, and the time of the timer is then the
-- number, the sum or the difference; a seek back before the start succeeds too, but the time stays.
pub seek_lem :
    (names : Str → Str) (sources : Option Str → Str) (r : Room) (text rest : Str) (sign : Modifier)
    (n now : ℕ)
    → modifier text ≡ (sign, rest)
    → parse_time rest ≡ some (pos n)
    → r.playback.timer.time + n < int_limit
    → ((seek names sources r (some text) now).2 ≡ ok (reply_to sign (pos n)))
      × ((seek names sources r (some text) now).0.playback.timer.time
          ≡ sought sign r.playback.timer.time n)
      × ((seek names sources r (some text) now).0.playback.timer.state ≡ r.playback.timer.state)
unfolding seek set_time
seek_lem names sources r text rest sign n now split parsed lt =
    rw (split, seek)
      (rw (parsed, seek_by)
        (
          refl,
          set_time-sought sign r n now lt,
          state_kept r.playback.timer (moved_time sign r.playback.timer.time (pos n)),
        ))
