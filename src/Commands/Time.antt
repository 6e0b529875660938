-- ===== src/Commands/Time.antt =====
-- pkg/socket/cmd/util/util.go: HumanTimeToSeconds. Its numbers have 64 bits and wrap around.
pub mod Sum
mod Tests
use streaming_server.Base.{
  ℕ, zero, suc, ◌+◌, ◌-◌, ◌*◌, ◌%◌, ◌≤◌, ◌<◌, Bool, true, false, ◌&&◌, ◌||◌, List, [], ◌∷◌, ◌++◌,
  map, ◌≡◌, ◌≢◌, refl, sym, ap, ◌∙◌, arith, Option, none, some, if◌then◌else◌, ltb, leb, ◌==◌,
  length, Outcome, ok, err, panic, diverges, ◌>>=◌, All, append_assoc, append-nil, Bool-cases,
}
use streaming_server.Base.Text.{Str}
use streaming_server.Base.Split.{split}
use streaming_server.Base.Int.{ℤ, pos, negsuc}
use streaming_server.Base.Decimal.{
  word, int_limit, signed, bits, is_digit, all_digits, value, atoi, IsDigits, atoi-IsDigits,
}
use streaming_server.Clients.{to_lower}

pub data TimeError : Type 0 where
  invalid_format : TimeError
  bad_number : Str → TimeError

-- The letters h, m and s.
abbrev pub is_unit : ℕ → Bool
is_unit c = c == 104 || c == 109 || c == 115

-- The matches of `\d+(h|m|s)`, from the left; `run` are the digits that have just been read.
unfoldable pub time_matches : Str → Str → List Str
time_matches run [] = []
time_matches run (c ∷ t) =
    let longer = time_matches (run ++ c ∷ []) t in
    let rest = time_matches [] t in
    if is_digit c
    then longer
    else if is_unit c && ltb 0 (length run)
    then (run ++ c ∷ []) ∷ rest
    else rest

abbrev first_part : List Str → Str
first_part [] = []
first_part (s ∷ ss) = s

-- The number before the letter, times the seconds of the unit.
scaled : Str → ℕ → Outcome TimeError ℕ
scaled s seconds = elim (atoi s) [
  | none ↦ err (bad_number s)
  | some n ↦ ok ((bits n * seconds) % word)
]

-- One round of the loop: the seconds of a match.
unfoldable pub match_seconds : Str → Outcome TimeError ℕ
unfolding scaled
match_seconds m =
    if ltb 1 (length (split 115 m))
    then scaled (first_part (split 115 m)) 1
    else if ltb 1 (length (split 109 m))
    then scaled (first_part (split 109 m)) 60
    else if ltb 1 (length (split 104 m))
    then scaled (first_part (split 104 m)) 3600
    else ok 0

unfoldable pub sum_matches : ℕ → List Str → Outcome TimeError ℕ
sum_matches total [] = ok total
sum_matches total (m ∷ more) = do
  seconds ← match_seconds m
  sum_matches ((total + seconds) % word) more

unfoldable pub human_time_to_seconds : Str → Outcome TimeError ℤ
human_time_to_seconds t =
    let matches = time_matches [] (to_lower t) in
    if length matches == 0
    then err invalid_format
    else do total ← sum_matches 0 matches; ok (signed total)
