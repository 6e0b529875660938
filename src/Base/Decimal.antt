-- ===== src/Base/Decimal.antt =====
-- strconv.Atoi on a machine with 64-bit integers, and the wrap-around of their sums and products.
use Prim.Native.Nat.{ℕ, zero, suc, ◌+◌, ◌-◌, ◌*◌, ◌%◌, ◌<◌}
use mathlib.Core.Path.{◌≡◌, refl}
use mathlib.Core.Logic.{◌≢◌}
use mathlib.Core.Bool.{Bool, true, ◌&&◌}
use mathlib.Core.List.{[], ◌∷◌}
use mathlib.Core.Option.{Option, none, some}
use native.Mathlib.Omega.{arith}
use streaming_server.Base.Tests.{ltb, leb, if◌then◌else◌, ◌==◌}
use streaming_server.Base.Text.{Str}
use streaming_server.Base.Int.{ℤ, pos, negsuc}

abbrev pub int_limit : ℕ
int_limit = 9223372036854775808

abbrev pub word : ℕ
word = 18446744073709551616

-- The integer that 64 bits stand for.
unfoldable pub signed : ℕ → ℤ
signed m = if ltb m int_limit then pos m else negsuc (word - 1 - m)

-- The bits of an integer.
abbrev pub bits : ℤ → ℕ
bits (pos n) = n % word
bits (negsuc n) = word - 1 - n % word

-- Sums and differences of 64-bit integers wrap around.
unfoldable pub add_int : ℤ → ℤ → ℤ
unfolding signed
add_int a b = signed ((bits a + bits b) % word)

unfoldable pub sub_int : ℤ → ℤ → ℤ
unfolding signed
sub_int a b = signed ((bits a + (word - bits b)) % word)

abbrev pub is_digit : ℕ → Bool
is_digit c = leb 48 c && leb c 57

abbrev pub all_digits : Str → Bool
all_digits [] = true
all_digits (c ∷ s) = is_digit c && all_digits s

-- The value of decimal digits behind those that have the value `acc`.
unfoldable pub value : ℕ → Str → ℕ
value acc [] = acc
value acc (c ∷ s) = value (acc * 10 + (c - 48)) s

unfoldable pub magnitude : Str → Option ℕ
magnitude [] = none
magnitude (c ∷ s) = if all_digits (c ∷ s) then some (value 0 (c ∷ s)) else none

abbrev negated : ℕ → ℤ
negated zero = pos 0
negated (suc n) = negsuc n

positive : Option ℕ → Option ℤ
positive none = none
positive (some n) = if ltb n int_limit then some (pos n) else none

negative : Option ℕ → Option ℤ
negative none = none
negative (some n) = if leb n int_limit then some (negated n) else none

unfoldable pub atoi : Str → Option ℤ
unfolding positive negative
atoi [] = none
atoi (c ∷ s) =
    if c == 43
    then positive (magnitude s)
    else if c == 45
    then negative (magnitude s)
    else positive (magnitude (c ∷ s))

abbrev pub IsDigits : Str → Type 0
IsDigits s = (s ≢ []) × (all_digits s ≡ true)

pub atoi-IsDigits : (s : Str) → IsDigits s → value 0 s < int_limit → atoi s ≡ some (pos (value 0 s))
unfolding atoi magnitude
atoi-IsDigits [] d lt = absurd (d.0 refl)
atoi-IsDigits (c ∷ s) d lt = ground (arith, d.1, lt)
