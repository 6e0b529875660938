-- ===== src/Rbac/Action.antt =====
-- pkg/socket/cmd/rbac/handler.go: verifyAction and RuleByAction, which find the rule of an action.
use streaming_server.Base.{
  ℕ, Bool, true, false, List, [], ◌∷◌, ◌≡◌, ◌≢◌, ◌≤◌, ◌↔◌, refl, arith, ltb, ◌==◌, if◌then◌else◌,
  length, Option, none, some, Bool-cases, inl, inr, Any, ◌⊎◌, All, if-⊎_iff, ◌∙◌,
}
use streaming_server.Base.Text.{Str, codes, str_eq, str_eq_iff, str_eq_refl}
use streaming_server.Base.Split.{split}
use streaming_server.Rbac.Role.{Rule}
use streaming_server.Rbac.Binding.{RoleBinding}

abbrev pub slash : ℕ
slash = 47

abbrev star : Str
star = codes "*"

-- The loop over the segments of the existing action.
unfoldable pub match_segments : List Str → List Str → Bool
match_segments [] rs = true
match_segments (p ∷ ps) [] = str_eq p star
match_segments (p ∷ ps) (r ∷ rs) =
    if str_eq p star then true else if str_eq p r then match_segments ps rs else false

unfoldable pub verify_action : Str → Str → Bool
verify_action existing requested =
    if length existing == 0
    then false
    else if ltb (length requested) (length existing)
    then false
    else match_segments (split slash existing) (split slash requested)

unfoldable pub first_covering : List Str → Str → Bool
first_covering [] action = false
first_covering (a ∷ more) action =
    if verify_action a action then true else first_covering more action

-- The loops over the rules of a role and over the bindings.
unfoldable pub rule_of : List Rule → Str → Option Rule → Option Rule
rule_of [] action otherwise = otherwise
rule_of (r ∷ rs) action otherwise =
    if first_covering r.actions action then some r else rule_of rs action otherwise

unfoldable pub rule_by_action : List RoleBinding → Str → Option Rule
rule_by_action [] action = none
rule_by_action (b ∷ bs) action = rule_of b.role.rules action (rule_by_action bs action)

-- Which requests a pattern covers: a `*` covers whatever is left, also nothing, and any other
-- segment covers itself; a pattern that has ended covers every longer request.
pub data Covers : List Str → List Str → Type 0 where
  ended : {rs : List Str} → Covers [] rs
  wild : {ps rs : List Str} → Covers (star ∷ ps) rs
  same : {p : Str} {ps rs : List Str} → Covers ps rs → Covers (p ∷ ps) (p ∷ rs)

match_segments-Covers : (ps rs : List Str) → match_segments ps rs ≡ true → Covers ps rs
unfolding match_segments
match_segments-Covers [] rs e = ended
match_segments-Covers (p ∷ ps) [] e = rw ((str_eq_iff p star).0 e) wild
match_segments-Covers (p ∷ ps) (r ∷ rs) e = elim (Bool-cases (str_eq p star)) [
  | inl hit ↦ rw ((str_eq_iff p star).0 hit) wild
  | inr miss ↦ elim (Bool-cases (str_eq p r)) [
    | inl eq ↦
        rw ((str_eq_iff p r).0 eq) (same (match_segments-Covers ps rs (rw eq at (rw miss at e))))
    | inr ne ↦ absurd (ground (arith, e, miss, ne))
  ]
]

Covers-match_segments : (ps rs : List Str) → Covers ps rs → match_segments ps rs ≡ true
unfolding match_segments
Covers-match_segments _ rs ended = refl
Covers-match_segments _ [] wild = str_eq_refl star
Covers-match_segments _ (r ∷ rs) wild = rw (str_eq_refl star)
Covers-match_segments (p ∷ ps) (_ ∷ rs) (same c) =
    ground (arith, str_eq_refl p, Covers-match_segments ps rs c)

-- An action of a rule covers a requested one just where it is not empty, is no longer than the
-- requested one, and its segments between slashes cover those of the requested one.
pub verify_action_iff :
    (existing requested : Str)
    → (verify_action existing requested ≡ true) ↔ (
        (existing ≢ [])
        × (length existing ≤ length requested)
        × Covers (split slash existing) (split slash requested))
unfolding verify_action
verify_action_iff [] requested = ((λ e. absurd (ground (arith, e))), (λ c. absurd (c.0 refl)))
verify_action_iff (x ∷ xs) requested = (to, from)
  where
    to :
        verify_action (x ∷ xs) requested ≡ true
        → ◌≢◌ {A = Str} (x ∷ xs) []
          × (length (x ∷ xs) ≤ length requested)
          × Covers (split slash (x ∷ xs)) (split slash requested)
    to e = (
      (λ eq. cc eq),
      ground (arith, e),
      match_segments-Covers (split slash (x ∷ xs)) (split slash requested) (ground (arith, e)),
    )

    from :
        ◌≢◌ {A = Str} (x ∷ xs) []
          × (length (x ∷ xs) ≤ length requested)
          × Covers (split slash (x ∷ xs)) (split slash requested)
        → verify_action (x ∷ xs) requested ≡ true
    from (_, le, c) =
        let m = Covers-match_segments (split slash (x ∷ xs)) (split slash requested) c in
        ground (arith, le, m)

first_covering_iff :
    (acts : List Str) (action : Str)
    → (first_covering acts action ≡ true) ↔ Any (λ a. verify_action a action ≡ true) acts
unfolding first_covering
first_covering_iff [] action = ((λ e. ground (arith, e)), λ c. absurd c)
first_covering_iff (a ∷ acts) action =
    if-⊎_iff (verify_action a action) (first_covering acts action) ((λ e. e), (λ e. e))
      (first_covering_iff acts action)

-- A rule allows an action.
abbrev pub Allows : Str → Rule → Type 0
Allows action r = Any (λ a. verify_action a action ≡ true) r.actions

-- What the loops over the rules find: one that allows the action, or what the loops behind find.
FoundIn : List Rule → Str → Option Rule → Option Rule → Type 0
FoundIn rs action otherwise o =
    ((r : Rule) × (o ≡ some r) × Any (λ x. x ≡ r) rs × Allows action r)
    ⊎ (All (λ r. Allows action r → ⊥) rs × (o ≡ otherwise))

rule_of-FoundIn :
    (rs : List Rule) (action : Str) (otherwise : Option Rule)
    → FoundIn rs action otherwise (rule_of rs action otherwise)
unfolding FoundIn rule_of
rule_of-FoundIn [] action otherwise = inr (tt, refl)
rule_of-FoundIn (r ∷ rs) action otherwise = elim (Bool-cases (first_covering r.actions action)) [
  | inl hit ↦ rw hit (inl (r, refl, inl refl, (first_covering_iff r.actions action).0 hit))
  | inr miss ↦ rw miss (behind miss (rule_of-FoundIn rs action otherwise))
]
  where
    behind :
        first_covering r.actions action ≡ false
        → FoundIn rs action otherwise (rule_of rs action otherwise)
        → FoundIn (r ∷ rs) action otherwise (rule_of rs action otherwise)
    behind miss (inl (x, e, m, c)) = inl (x, e, inr m, c)
    behind miss (inr (absent, e)) =
        inr (((λ c. ground (arith, (first_covering_iff r.actions action).1 c, miss)), absent), e)

-- RuleByAction finds a rule of a bound role that allows the action, or there is none in any binding.
pub rule_by_action_lem :
    (bs : List RoleBinding) (action : Str)
    → ((r : Rule) × (rule_by_action bs action ≡ some r)
        × Any (λ b. Any (λ x. x ≡ r) b.role.rules) bs
        × Allows action r)
      ⊎ ((rule_by_action bs action ≡ none)
          × All (λ b. All (λ r. Allows action r → ⊥) b.role.rules) bs)
unfolding FoundIn rule_by_action
rule_by_action_lem [] action = inr (refl, tt)
rule_by_action_lem (b ∷ bs) action =
    step (rule_of-FoundIn b.role.rules action (rule_by_action bs action))
      (rule_by_action_lem bs action)
  where
    step :
        FoundIn b.role.rules action (rule_by_action bs action) (rule_by_action (b ∷ bs) action)
        → ((r : Rule) × (rule_by_action bs action ≡ some r)
            × Any (λ b. Any (λ x. x ≡ r) b.role.rules) bs
            × Allows action r)
          ⊎ ((rule_by_action bs action ≡ none)
              × All (λ b. All (λ r. Allows action r → ⊥) b.role.rules) bs)
        → ((r : Rule) × (rule_by_action (b ∷ bs) action ≡ some r)
            × Any (λ b. Any (λ x. x ≡ r) b.role.rules) (b ∷ bs)
            × Allows action r)
          ⊎ ((rule_by_action (b ∷ bs) action ≡ none)
              × All (λ b. All (λ r. Allows action r → ⊥) b.role.rules) (b ∷ bs))
    step (inl (r, e, m, c)) next = inl (r, e, inl m, c)
    step (inr (absent, e)) (inl (r, e', m, c)) = inl (r, e ∙ e', inr m, c)
    step (inr (absent, e)) (inr (e', absents)) = inr (e ∙ e', (absent, absents))
