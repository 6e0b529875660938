-- ===== src/Commands/Time/Sum.antt =====
-- pkg/socket/cmd/util/util.go: HumanTimeToSeconds on times such as 1h30m or 90s.
use streaming_server.Base.{
  ℕ, ◌+◌, ◌*◌, ◌%◌, ◌<◌, true, List, [], ◌∷◌, ◌++◌, map, ◌≡◌, ◌≢◌, refl, ap, ◌∙◌, arith,
  if◌then◌else◌, ok, All, All-append, append_assoc, append-nil,
}
use streaming_server.Base.Text.{Str}
use streaming_server.Base.Split.{split, split-append, split-Absent, Absent}
use streaming_server.Base.Int.{pos}
use streaming_server.Base.Decimal.{
  word, int_limit, signed, is_digit, all_digits, value, IsDigits, atoi-IsDigits,
}
use streaming_server.Clients.{to_lower}
use streaming_server.Commands.Time.{
  time_matches, match_seconds, sum_matches, human_time_to_seconds, scaled,
}

pub data TimeUnit : Type 0 where
  hours minutes seconds : TimeUnit

abbrev pub letter : TimeUnit → ℕ
letter hours = 104
letter minutes = 109
letter seconds = 115

abbrev pub seconds_in : TimeUnit → ℕ
seconds_in hours = 3600
seconds_in minutes = 60
seconds_in seconds = 1

-- A time is a list of numbers with units.
abbrev pub Part : Type 0
Part = Str × TimeUnit

abbrev part_text : Part → Str
part_text (s, u) = s ++ letter u ∷ []

abbrev pub time_text : List Part → Str
time_text [] = []
time_text ((s, u) ∷ parts) = s ++ letter u ∷ time_text parts

abbrev pub part_seconds : Part → ℕ
part_seconds (s, u) = value 0 s * seconds_in u

abbrev pub total : List Part → ℕ
total [] = 0
total (p ∷ parts) = part_seconds p + total parts

abbrev pub IsPart : Part → Type 0
IsPart (s, u) = IsDigits s

to_lower-digits : (s t : Str) → all_digits s ≡ true → to_lower (s ++ t) ≡ s ++ to_lower t
to_lower-digits [] t d = refl
to_lower-digits (c ∷ s) t d =
    let ih = to_lower-digits s t (ground (arith, d)) in ground (arith, d, ih)

to_lower-time_text :
    (parts : List Part) → All IsPart parts → to_lower (time_text parts) ≡ time_text parts
to_lower-time_text [] h = refl
to_lower-time_text ((s, u) ∷ parts) (d, h) =
    to_lower-digits s (letter u ∷ time_text parts) d.1
    ∙ ap (◌++◌ s) (at_unit u (to_lower-time_text parts h))
  where
    at_unit :
        (v : TimeUnit)
        → to_lower (time_text parts) ≡ time_text parts
        → to_lower (letter v ∷ time_text parts) ≡ letter v ∷ time_text parts
    at_unit hours ih = ap (◌∷◌ 104) ih
    at_unit minutes ih = ap (◌∷◌ 109) ih
    at_unit seconds ih = ap (◌∷◌ 115) ih

-- A run of digits is read to its end.
time_matches-digits :
    (run s t : Str) → all_digits s ≡ true → time_matches run (s ++ t) ≡ time_matches (run ++ s) t
unfolding time_matches
time_matches-digits run [] t d = rw (append-nil run) refl
time_matches-digits run (c ∷ s) t d =
    let here : is_digit c ≡ true = ground (arith, d) in
    let rest : all_digits s ≡ true = ground (arith, d) in
    rw (here, if◌then◌else◌)
      (time_matches-digits (run ++ c ∷ []) s t rest ∙ rw (append_assoc run (c ∷ []) s) refl)

time_matches-letter :
    (run t : Str) (u : TimeUnit)
    → run ≢ []
    → time_matches run (letter u ∷ t) ≡ (run ++ letter u ∷ []) ∷ time_matches [] t
unfolding time_matches
time_matches-letter [] t u ne = absurd (ne refl)
time_matches-letter (c ∷ run) t hours ne = ground arith
time_matches-letter (c ∷ run) t minutes ne = ground arith
time_matches-letter (c ∷ run) t seconds ne = ground arith

time_matches-time_text :
    (parts : List Part) → All IsPart parts → time_matches [] (time_text parts) ≡ map part_text parts
unfolding time_matches
time_matches-time_text [] h = refl
time_matches-time_text ((s, u) ∷ parts) (d, h) =
    time_matches-digits [] s (letter u ∷ time_text parts) d.1
    ∙ time_matches-letter s (time_text parts) u d.0
    ∙ ap (◌∷◌ (s ++ letter u ∷ [])) (time_matches-time_text parts h)

digits-Absent : (c : ℕ) (s : Str) → 57 < c → all_digits s ≡ true → Absent c s
digits-Absent c [] lt d = tt
digits-Absent c (b ∷ s) lt d =
    ((λ e. ground (arith, d, e, lt)), digits-Absent c s lt (ground (arith, d)))

split-other :
    (c b : ℕ) (s : Str)
    → 57 < c
    → b ≢ c
    → all_digits s ≡ true
    → split c (s ++ b ∷ []) ≡ (s ++ b ∷ []) ∷ []
split-other c b s lt ne d =
    split-Absent c (s ++ b ∷ [])
      (All-append (λ x. x ≢ c) s (b ∷ []) (digits-Absent c s lt d) (ne, tt))

split-own : (c : ℕ) (s : Str) → 57 < c → all_digits s ≡ true → split c (s ++ c ∷ []) ≡ s ∷ [] ∷ []
unfolding split
split-own c s lt d = split-append c s [] (digits-Absent c s lt d)

small_word : (n : ℕ) → n < int_limit → n % word ≡ n
small_word n lt = omega (arith, lt)

scaled-IsDigits :
    (s : Str) (n : ℕ)
    → IsDigits s
    → value 0 s < int_limit
    → value 0 s * n < int_limit
    → scaled s n ≡ ok (value 0 s * n)
unfolding scaled
scaled-IsDigits s n d lt product =
    rw (atoi-IsDigits s d lt, scaled)
      (ap ok (rw (small_word (value 0 s) lt) (small_word (value 0 s * n) product)))

match_seconds-part :
    (s : Str) (u : TimeUnit)
    → IsDigits s
    → part_seconds (s, u) < int_limit
    → match_seconds (part_text (s, u)) ≡ ok (part_seconds (s, u))
unfolding match_seconds
match_seconds-part s seconds d lt =
    rw (split-own 115 s (omega arith) d.1) (scaled-IsDigits s 1 d (omega (arith, lt)) lt)
match_seconds-part s minutes d lt =
    rw
      (
        split-other 115 109 s (omega arith) (λ e. omega (arith, e)) d.1,
        split-own 109 s (omega arith) d.1,
      )
      (scaled-IsDigits s 60 d (omega (arith, lt)) lt)
match_seconds-part s hours d lt =
    rw
      (
        split-other 115 104 s (omega arith) (λ e. omega (arith, e)) d.1,
        split-other 109 104 s (omega arith) (λ e. omega (arith, e)) d.1,
        split-own 104 s (omega arith) d.1,
      )
      (scaled-IsDigits s 3600 d (omega (arith, lt)) lt)

sum_matches-total :
    (sum : ℕ) (parts : List Part)
    → All IsPart parts
    → sum + total parts < int_limit
    → sum_matches sum (map part_text parts) ≡ ok (sum + total parts)
unfolding sum_matches
sum_matches-total sum [] h lt = ap ok (omega arith)
sum_matches-total sum ((s, u) ∷ parts) (d, h) lt =
    rw (match_seconds-part s u d (omega (arith, lt))) (
      rw small (
        sum_matches-total (sum + part_seconds (s, u)) parts h (omega (arith, lt))
        ∙ ap ok (omega arith)))
  where
    small : (sum + part_seconds (s, u)) % word ≡ sum + part_seconds (s, u)
    small = omega (arith, lt)

-- A time of at least one part is read as the sum of its parts in seconds, if that is an int.
pub human_time_to_seconds_lem :
    (part : Part) (parts : List Part)
    → All IsPart (part ∷ parts)
    → total (part ∷ parts) < int_limit
    → human_time_to_seconds (time_text (part ∷ parts)) ≡ ok (pos (total (part ∷ parts)))
unfolding human_time_to_seconds signed
human_time_to_seconds_lem part parts h lt =
    rw (to_lower-time_text (part ∷ parts) h, time_matches-time_text (part ∷ parts) h)
      (rw (sum_matches-total 0 (part ∷ parts) h (omega (arith, lt))) (ground (arith, lt)))
