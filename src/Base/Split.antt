-- ===== src/Base/Split.antt =====
-- strings.Split at one byte, and strings.Join: the one undoes the other where no part has the byte.
use Prim.Native.Nat.{ℕ, zero, suc, ◌-◌}
use mathlib.Core.Path.{◌≡◌, refl}
use mathlib.Core.Logic.{◌≢◌, inl, inr}
use mathlib.Core.Bool.{Bool, true, false, ◌&&◌}
use mathlib.Core.List.{List, [], ◌∷◌, ◌++◌}
use native.Mathlib.Omega.{arith}
use streaming_server.Base.Tests.{◌==◌, if◌then◌else◌, Bool-cases}
use streaming_server.Base.Lists.{length, All, All-append}
use streaming_server.Base.Text.{Str}

abbrev pub cons_head : ℕ → List Str → List Str
cons_head b [] = (b ∷ []) ∷ []
cons_head b (s ∷ ss) = (b ∷ s) ∷ ss

-- There is always a part: the parts of the empty string are the empty string.
unfoldable pub split : ℕ → Str → List Str
split c [] = [] ∷ []
split c (b ∷ s) = let rest = split c s in if b == c then [] ∷ rest else cons_head b rest

unfoldable pub join : ℕ → List Str → Str
join c [] = []
join c (s ∷ []) = s
join c (s ∷ t ∷ ts) = s ++ c ∷ join c (t ∷ ts)

abbrev pub Absent : ℕ → Str → Type 0
Absent c s = All (λ b. b ≢ c) s

-- strings.HasPrefix, and strings.Split at a text that is not empty: `skip` bytes of it are left.
unfoldable pub has_prefix : Str → Str → Bool
has_prefix s [] = true
has_prefix [] (c ∷ p) = false
has_prefix (b ∷ s) (c ∷ p) = b == c && has_prefix s p

unfoldable pub split_from : Str → ℕ → Str → List Str
split_from sep skip [] = [] ∷ []
split_from sep (suc skip) (b ∷ s) = split_from sep skip s
split_from sep zero (b ∷ s) =
    let found = split_from sep (length sep - 1) s in
    let rest = split_from sep zero s in
    if has_prefix (b ∷ s) sep then [] ∷ found else cons_head b rest

abbrev pub split_text : Str → Str → List Str
split_text sep s = split_from sep zero s

module _ (c : ℕ) where
  pub split-Absent : (s : Str) → Absent c s → split c s ≡ s ∷ []
  unfolding split
  split-Absent [] h = refl
  split-Absent (b ∷ s) h = let ne = h.0 in ground (arith, ne, split-Absent s h.1)

  pub split-append : (s t : Str) → Absent c s → split c (s ++ c ∷ t) ≡ s ∷ split c t
  unfolding split
  split-append [] t h = ground arith
  split-append (b ∷ s) t h = let ne = h.0 in ground (arith, ne, split-append s t h.1)

  pub split-join :
      (s : Str) (ss : List Str) → All (Absent c) (s ∷ ss) → split c (join c (s ∷ ss)) ≡ s ∷ ss
  unfolding join
  split-join s [] h = split-Absent s h.0
  split-join s (t ∷ ts) h = rw (split-append s (join c (t ∷ ts)) h.0, split-join t ts h.1)

  -- What joins parts without a byte at another byte is without the byte.
  pub Absent-join : (d : ℕ) (ss : List Str) → d ≢ c → All (Absent c) ss → Absent c (join d ss)
  unfolding join
  Absent-join d [] ne h = tt
  Absent-join d (s ∷ []) ne h = h.0
  Absent-join d (s ∷ t ∷ ts) ne h =
      All-append (λ b. b ≢ c) s (d ∷ join d (t ∷ ts)) h.0 (ne, Absent-join d (t ∷ ts) ne h.1)

-- The test of a fixed text.
abbrev pub is_absent : ℕ → Str → Bool
is_absent c [] = true
is_absent c (b ∷ s) = if b == c then false else is_absent c s

pub is_absent-Absent : (c : ℕ) (s : Str) → is_absent c s ≡ true → Absent c s
is_absent-Absent c [] e = tt
is_absent-Absent c (b ∷ s) e = elim (Bool-cases (b == c)) [
  | inl hit ↦ absurd (ground (arith, hit, e))
  | inr miss ↦ ((λ eq. ground (arith, miss, eq)), is_absent-Absent c s (rw miss at e))
]
