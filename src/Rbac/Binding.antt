-- ===== src/Rbac/Binding.antt =====
-- pkg/socket/cmd/rbac/binding.go: the subjects bound to a role. A subject is its id.
use streaming_server.Base.{
  ◌||◌, ℕ, suc, Bool, true, false, not, ◌&&◌, List, [], ◌∷◌, ◌++◌, ◌≡◌, inl, inr, refl, arith,
  Option, none, some, take, drop, if◌then◌else◌, Bool-cases, sym, ap, ◌∙◌,
}
use streaming_server.Base.Text.{Str, str_eq, str_eq_iff}
use streaming_server.Rbac.Role.{Role}

pub record RoleBinding : Type 0 where
  pub role : Role
  pub subjects : List Str

-- The loops of AddSubject and Verify.
unfoldable pub is_bound : Str → List Str → Bool
is_bound s [] = false
is_bound s (t ∷ ts) = if str_eq t s then true else is_bound s ts

unfoldable pub add_subject : RoleBinding → Str → RoleBinding × Bool
add_subject b s =
    if is_bound s b.subjects
    then (b, false)
    else (record b { subjects = b.subjects ++ s ∷ [] }, true)

-- The loop that finds `idxToRemove`.
unfoldable pub subject_index : Str → List Str → Option ℕ
subject_index s [] = none
subject_index s (t ∷ ts) =
    let rest = subject_index s ts in
    if str_eq t s then some 0 else elim rest [ none ↦ none | some i ↦ some (suc i) ]

unfoldable pub remove_subject : RoleBinding → Str → RoleBinding × Bool
remove_subject b s = elim (subject_index s b.subjects) [
  | none ↦ (b, false)
  | some idx ↦ (record b { subjects = take idx b.subjects ++ drop (suc idx) b.subjects }, true)
]

-- No subject is in the list twice.
abbrev pub Unique : List Str → Type 0
Unique [] = Unit {0}
Unique (t ∷ ts) = (is_bound t ts ≡ false) × Unique ts

pub is_bound-append :
    (s : Str) (xs ys : List Str) → is_bound s (xs ++ ys) ≡ (is_bound s xs || is_bound s ys)
unfolding is_bound
is_bound-append s [] ys = refl
is_bound-append s (x ∷ xs) ys = ground (arith, is_bound-append s xs ys)

Unique-append :
    (s : Str) (ts : List Str) → is_bound s ts ≡ false → Unique ts → Unique (ts ++ s ∷ [])
unfolding is_bound
Unique-append s [] e u = (refl, tt)
Unique-append s (t ∷ ts) e u = (
  ground (arith, is_bound-append t ts (s ∷ []), str_eq_iff s t, str_eq_iff t s, e, u.0),
  Unique-append s ts (ground (arith, e)) u.1,
)

-- RemoveSubject in one pass.
abbrev removed : Str → List Str → List Str
removed s [] = []
removed s (t ∷ ts) = let rest = removed s ts in if str_eq t s then ts else t ∷ rest

abbrev cut : Option ℕ → List Str → List Str
cut none ts = ts
cut (some idx) ts = take idx ts ++ drop (suc idx) ts

abbrev later : Option ℕ → Option ℕ
later o = elim o [ none ↦ none | some i ↦ some (suc i) ]

cut-cons :
    (hit : Bool) (o : Option ℕ) (t : Str) (ts : List Str)
    → cut (if hit then some 0 else later o) (t ∷ ts) ≡ (if hit then ts else t ∷ cut o ts)
cut-cons true o t ts = refl
cut-cons false none t ts = refl
cut-cons false (some i) t ts = refl

cut-removed : (s : Str) (ts : List Str) → cut (subject_index s ts) ts ≡ removed s ts
unfolding subject_index
cut-removed s [] = refl
cut-removed s (t ∷ ts) =
    cut-cons (str_eq t s) (subject_index s ts) t ts
    ∙ ap (λ rest. if str_eq t s then ts else t ∷ rest) (cut-removed s ts)

is_bound-removed :
    (s t : Str) (ts : List Str)
    → Unique ts
    → is_bound t (removed s ts) ≡ (if str_eq s t then false else is_bound t ts)
unfolding is_bound
is_bound-removed s t [] u = ground arith
is_bound-removed s t (x ∷ xs) u =
    ground (arith, is_bound-removed s t xs u.1, str_eq_iff s t, str_eq_iff x t, str_eq_iff x s, u.0)

Unique-removed : (s : Str) (ts : List Str) → Unique ts → Unique (removed s ts)
Unique-removed s [] u = tt
Unique-removed s (x ∷ xs) u = elim (Bool-cases (str_eq x s)) [
  | inl hit ↦ rw hit u.1
  | inr miss ↦ rw miss (ground (arith, is_bound-removed s x xs u.1, u.0), Unique-removed s xs u.1)
]

subject_index-is_bound :
    (s : Str) (ts : List Str)
    → is_bound s ts ≡ elim (subject_index s ts) [ none ↦ false | some _ ↦ true ]
unfolding is_bound subject_index
subject_index-is_bound s [] = refl
subject_index-is_bound s (t ∷ ts) =
    hit (str_eq t s) (subject_index s ts) (subject_index-is_bound s ts)
  where
    hit :
        (b : Bool) (o : Option ℕ)
        → is_bound s ts ≡ elim o [ none ↦ false | some _ ↦ true ]
        → (if b then true else is_bound s ts)
          ≡ elim (if b then some 0 else later o) [ none ↦ false | some _ ↦ true ]
    hit true o e = refl
    hit false none e = e
    hit false (some i) e = e

added :
    (s : Str) (ts : List Str) (t : Str) → is_bound t (ts ++ s ∷ []) ≡ (str_eq s t || is_bound t ts)
unfolding is_bound
added s ts t = ground (arith, is_bound-append t ts (s ∷ []))

removed-cut :
    (s : Str) (ts : List Str) (o : Option ℕ)
    → subject_index s ts ≡ o
    → Unique ts
    → Unique (cut o ts)
      × ((t : Str) → is_bound t (cut o ts) ≡ (not (str_eq s t) && is_bound t ts))
      × (is_bound s ts ≡ elim o [ none ↦ false | some _ ↦ true ])
removed-cut s ts o e u =
    let same : cut o ts ≡ removed s ts = ap (λ x. cut x ts) (sym e) ∙ cut-removed s ts in
    (
      rw same (Unique-removed s ts u),
      (λ t. rw same (ground (arith, is_bound-removed s t ts u))),
      rw (← e) (subject_index-is_bound s ts),
    )

-- AddSubject binds the subject and no other, keeps the list without duplicates, and returns false
-- just where the subject was bound before.
pub add_subject_lem :
    (b : RoleBinding) (s : Str)
    → Unique b.subjects
    → Unique (add_subject b s).0.subjects
      × ((t : Str)
          → is_bound t (add_subject b s).0.subjects ≡ (str_eq s t || is_bound t b.subjects))
      × ((add_subject b s).1 ≡ not (is_bound s b.subjects))
      × ((add_subject b s).0.role ≡ b.role)
unfolding add_subject
add_subject_lem b s u = elim (Bool-cases (is_bound s b.subjects)) [
  | inl hit ↦ rw hit (u, (λ t. ground (arith, str_eq_iff s t, hit)), refl, refl)
  | inr miss ↦ rw miss (Unique-append s b.subjects miss u, added s b.subjects, refl, refl)
]

-- RemoveSubject unbinds the subject and no other, where no subject is bound twice, and returns true
-- just where the subject was bound before.
pub remove_subject_lem :
    (b : RoleBinding) (s : Str)
    → Unique b.subjects
    → Unique (remove_subject b s).0.subjects
      × ((t : Str)
          → is_bound t (remove_subject b s).0.subjects
            ≡ (not (str_eq s t) && is_bound t b.subjects))
      × ((remove_subject b s).1 ≡ is_bound s b.subjects)
      × ((remove_subject b s).0.role ≡ b.role)
unfolding remove_subject
remove_subject_lem b s u = go (subject_index s b.subjects) refl
  where
    go :
        (o : Option ℕ)
        → subject_index s b.subjects ≡ o
        → Unique (remove_subject b s).0.subjects
          × ((t : Str)
              → is_bound t (remove_subject b s).0.subjects
                ≡ (not (str_eq s t) && is_bound t b.subjects))
          × ((remove_subject b s).1 ≡ is_bound s b.subjects)
          × ((remove_subject b s).0.role ≡ b.role)
    go none e =
        let (v, f, r) = removed-cut s b.subjects none e u in
        rw (e, remove_subject) (v, f, sym r, refl)
    go (some i) e =
        let (v, f, r) = removed-cut s b.subjects (some i) e u in
        rw (e, remove_subject) (v, f, sym r, refl)
