-- ===== src/Rbac/Authorizer.antt =====
-- pkg/socket/cmd/rbac/handler.go: the authorizer. A role is its value: no code adds a rule to a role
-- after it has been bound.
use streaming_server.Base.{
  Bool, true, false, ◌&&◌, ◌||◌, List, [], ◌∷◌, ◌≡◌, ◌↔◌, inl, inr, refl, ◌∙◌, arith, if◌then◌else◌,
  Option, none, some, Bool-cases, Any, if-⊎_iff,
}
use streaming_server.Base.Text.{Str, str_eq, str_eq_iff, str_eq_refl}
use streaming_server.Base.Dict.{Dict, lookup, insert, values, lookup-insert}
use streaming_server.Rbac.Role.{Rule, Role, has_rule}
use streaming_server.Rbac.Binding.{RoleBinding, is_bound, add_subject, Unique, add_subject_lem}

pub record Authorizer : Type 0 where
  pub roles_by_name : Dict Role
  pub bindings_by_role_name : Dict RoleBinding

abbrev pub new_authorizer : Authorizer
new_authorizer = record { roles_by_name = []; bindings_by_role_name = [] }

unfoldable pub add_role : Authorizer → Role → Authorizer × Bool
add_role a r = elim (lookup r.name a.roles_by_name) [
  | some _ ↦ (a, false)
  | none ↦ (record a { roles_by_name = insert r.name r a.roles_by_name }, true)
]

-- The loop of Bind.
unfoldable pub add_subjects : RoleBinding → List Str → RoleBinding
add_subjects b [] = b
add_subjects b (s ∷ ss) = add_subjects (add_subject b s).0 ss

unfoldable pub bound : Option RoleBinding → Role → List Str → RoleBinding
bound none r ss = add_subjects (record { role = r; subjects = ss }) ss
bound (some b) r ss = add_subjects b ss

unfoldable pub bind : Authorizer → Role → List Str → Authorizer × Bool
unfolding bound
bind a r ss =
    let b = bound (lookup r.name a.bindings_by_role_name) r ss in
    (record a { bindings_by_role_name = insert r.name b a.bindings_by_role_name }, true)

unfoldable pub bindings : Authorizer → List RoleBinding
bindings a = values a.bindings_by_role_name

unfoldable pub role : Authorizer → Str → Option Role
role a name = lookup name a.roles_by_name

-- The first loop of Verify.
unfoldable pub subject_roles : Str → List RoleBinding → List Role
subject_roles s [] = []
subject_roles s (b ∷ bs) =
    let rest = subject_roles s bs in if is_bound s b.subjects then b.role ∷ rest else rest

unfoldable pub has_role_rule : Str → List Role → Bool
has_role_rule name [] = false
has_role_rule name (r ∷ rs) = if has_rule name r.rules then true else has_role_rule name rs

unfoldable pub verify : Authorizer → Str → Rule → Bool
verify a s r = has_role_rule r.name (subject_roles s (bindings a))

-- The subject is bound to the role of the binding, and the role has a rule of that name.
abbrev pub Grants : Str → Str → RoleBinding → Type 0
Grants s name b = Any (λ t. t ≡ s) b.subjects × Any (λ (r : Rule). name ≡ r.name) b.role.rules

pub is_bound_iff : (s : Str) (ts : List Str) → (is_bound s ts ≡ true) ↔ Any (λ t. t ≡ s) ts
unfolding is_bound
is_bound_iff s [] = ((λ e. ground (arith, e)), (λ b. absurd b))
is_bound_iff s (t ∷ ts) = if-⊎_iff (str_eq t s) (is_bound s ts) (str_eq_iff t s) (is_bound_iff s ts)

pub has_rule_iff :
    (name : Str) (rs : List Rule) → (has_rule name rs ≡ true) ↔ Any (λ (r : Rule). name ≡ r.name) rs
unfolding has_rule
has_rule_iff name [] = ((λ e. ground (arith, e)), (λ b. absurd b))
has_rule_iff name (r ∷ rs) =
    if-⊎_iff (str_eq name r.name) (has_rule name rs) (str_eq_iff name r.name) (has_rule_iff name rs)

granted_iff :
    (s name : Str) (b : RoleBinding)
    → ((is_bound s b.subjects && has_rule name b.role.rules) ≡ true) ↔ Grants s name b
granted_iff s name b = (
  (λ e. (
    (is_bound_iff s b.subjects).0 (ground (arith, e)),
    (has_rule_iff name b.role.rules).0 (ground (arith, e)),
  )),
  (λ g.
      let x = (is_bound_iff s b.subjects).1 g.0 in
      let y = (has_rule_iff name b.role.rules).1 g.1 in ground (arith, x, y)),
)

verify-cons :
    (s name : Str) (b : RoleBinding) (bs : List RoleBinding)
    → has_role_rule name (subject_roles s (b ∷ bs)) ≡ (
        if is_bound s b.subjects && has_rule name b.role.rules
        then true
        else has_role_rule name (subject_roles s bs))
unfolding has_role_rule subject_roles
verify-cons s name b bs = elim (Bool-cases (is_bound s b.subjects)) [
  | inl hit ↦ rw (hit, has_role_rule) refl
  | inr miss ↦ rw miss refl
]

no_roles : (s name : Str) → has_role_rule name (subject_roles s []) ≡ false
unfolding has_role_rule subject_roles
no_roles s name = refl

has_role_rule_iff :
    (s name : Str) (bs : List RoleBinding)
    → (has_role_rule name (subject_roles s bs) ≡ true) ↔ Any (Grants s name) bs
has_role_rule_iff s name [] = ((λ e. ground (arith, e, no_roles s name)), (λ b. absurd b))
has_role_rule_iff s name (b ∷ bs) = rw (verify-cons s name b bs) (
    if-⊎_iff (is_bound s b.subjects && has_rule name b.role.rules)
      (has_role_rule name (subject_roles s bs)) (granted_iff s name b)
      (has_role_rule_iff s name bs))

-- Verify admits a subject to a rule just where some binding has the subject among its subjects and
-- a rule of that name in its role.
pub verify_iff :
    (a : Authorizer) (s : Str) (r : Rule)
    → (verify a s r ≡ true) ↔ Any (Grants s r.name) (bindings a)
unfolding verify
verify_iff a s r = has_role_rule_iff s r.name (bindings a)

add_subjects_lem :
    (b : RoleBinding) (ss : List Str)
    → Unique b.subjects
    → Unique (add_subjects b ss).subjects
      × ((t : Str)
          → is_bound t (add_subjects b ss).subjects ≡ (is_bound t b.subjects || is_bound t ss))
      × ((add_subjects b ss).role ≡ b.role)
unfolding add_subjects is_bound
add_subjects_lem b [] u = (u, (λ t. ground arith), refl)
add_subjects_lem b (s ∷ ss) u =
    let (v, f, _, r) = add_subject_lem b s u in
    let (w, g, r') = add_subjects_lem (add_subject b s).0 ss v in
    (w, (λ t. ground (arith, g t, f t)), r' ∙ r)

-- The subjects and the role that a name had, if any.
abbrev pub bound_before : Option RoleBinding → Str → Bool
bound_before none t = false
bound_before (some b) t = is_bound t b.subjects

abbrev pub role_before : Option RoleBinding → Role → Role
role_before none r = r
role_before (some b) r = b.role

abbrev pub IsUnique : Option RoleBinding → Type 0
IsUnique none = Unit
IsUnique (some b) = Unique b.subjects

pub bound_lem :
    (o : Option RoleBinding) (r : Role) (ss : List Str)
    → IsUnique o
    → Unique ss
    → Unique (bound o r ss).subjects
      × ((t : Str) → is_bound t (bound o r ss).subjects ≡ (bound_before o t || is_bound t ss))
      × ((bound o r ss).role ≡ role_before o r)
unfolding bound
bound_lem none r ss u v =
    let (w, f, e) = add_subjects_lem (record { role = r; subjects = ss }) ss v in
    (w, (λ t. ground (arith, f t)), e)
bound_lem (some b) r ss u v = add_subjects_lem b ss u

-- Bind gives the name of the role a binding of its earlier subjects and the new ones, none twice, to
-- the role that the name was bound to first, and leaves the bindings of the other names alone.
pub bind_lem :
    (a : Authorizer) (r : Role) (ss : List Str)
    → IsUnique (lookup r.name a.bindings_by_role_name)
    → Unique ss
    → (b : RoleBinding) × (lookup r.name (bind a r ss).0.bindings_by_role_name ≡ some b)
      × Unique b.subjects
      × ((t : Str)
          → is_bound t b.subjects
            ≡ (bound_before (lookup r.name a.bindings_by_role_name) t || is_bound t ss))
      × (b.role ≡ role_before (lookup r.name a.bindings_by_role_name) r)
      × ((k : Str)
          → str_eq r.name k ≡ false
          → lookup k (bind a r ss).0.bindings_by_role_name ≡ lookup k a.bindings_by_role_name)
unfolding bind
bind_lem a r ss u v =
    let b = bound (lookup r.name a.bindings_by_role_name) r ss in
    let (w, f, e) = bound_lem (lookup r.name a.bindings_by_role_name) r ss u v in
    (
      b,
      (lookup-insert r.name r.name b a.bindings_by_role_name ∙ rw (str_eq_refl r.name)),
      w,
      f,
      e,
      (λ k ne. lookup-insert r.name k b a.bindings_by_role_name ∙ rw ne),
    )
