-- ===== src/Commands/Role.antt =====
-- pkg/socket/cmd/role.go: the changes that `/role add`, `/role set` and `/role remove` make to the
-- bindings. The messages to the clients are left out.
use streaming_server.Base.{
  Bool, true, not, List, [], ◌∷◌, ◌≡◌, refl, arith, Option, none, some, if◌then◌else◌, All,
  Bool-cases, inl, inr,
}
use streaming_server.Base.Text.{Str, codes, str_eq, str_eq_iff, str_eq_refl}
use streaming_server.Base.Dict.{Dict, values}
use streaming_server.Rbac.Role.{Role}
use streaming_server.Rbac.Binding.{
  RoleBinding, is_bound, add_subject, remove_subject, Unique, add_subject_lem, remove_subject_lem,
}
use streaming_server.Rbac.Authorizer.{Authorizer, bindings, bind}
use streaming_server.Rbac.Unique.{AllUnique, bind-AllUnique}

-- A connection of the namespace: its id, and its client's user name if it has a client and a name.
pub record Candidate : Type 0 where
  pub id : Str
  pub username : Option (Option Str)

-- The loop that collects the subjects; the first client of the given name ends it.
unfoldable pub subjects_named : Str → List Candidate → List Str
subjects_named name [] = []
subjects_named name (c ∷ cs) =
    let rest = subjects_named name cs in
    elim c.username [
      | none ↦ rest
      | some username ↦
          if str_eq name (codes "*")
          then c.id ∷ rest
          else elim username [ none ↦ rest | some n ↦ if str_eq n name then c.id ∷ [] else rest ]
    ]

-- The bindings are changed through their pointers, in the map.
abbrev pub at_binding :
    (RoleBinding → RoleBinding) → (RoleBinding → Bool) → Dict RoleBinding → Dict RoleBinding
at_binding f p [] = []
at_binding f p ((k, b) ∷ m) =
    let rest = at_binding f p m in if p b then (k, f b) ∷ rest else (k, b) ∷ rest

-- The loop of addRole: the first binding to the role.
unfoldable pub add_to_first : Str → Str → Dict RoleBinding → Option (Dict RoleBinding × Bool)
add_to_first role_name s [] = none
add_to_first role_name s ((k, b) ∷ m) =
    let rest = add_to_first role_name s m in
    if str_eq b.role.name role_name
    then some ((k, (add_subject b s).0) ∷ m, not (is_bound s b.subjects))
    else elim rest [ none ↦ none | some r ↦ some ((k, b) ∷ r.0, r.1) ]

-- addRole: false where it returns an error, since the subject is bound to the role.
unfoldable pub add_role_to : Authorizer → Role → Str → Authorizer × Bool
add_role_to a r s = elim (add_to_first r.name s a.bindings_by_role_name) [
  | none ↦ ((bind a r (s ∷ [])).0, true)
  | some m ↦ (record a { bindings_by_role_name = m.0 }, m.1)
]

-- "set" for one subject: after an error the other roles are left as they are.
unfoldable pub set_role : Authorizer → Role → Str → Authorizer
set_role a r s =
    let added = add_role_to a r s in
    if added.1
    then record a {
      bindings_by_role_name =
          at_binding (λ b. (remove_subject b s).0) (λ b. not (str_eq b.role.name r.name))
            added.0.bindings_by_role_name;
    }
    else added.0

-- "remove" for one subject: a role has one binding, so the loop ends with the first of that name.
unfoldable pub remove_role : Str → Str → Dict RoleBinding → Dict RoleBinding
remove_role role_name s [] = []
remove_role role_name s ((k, b) ∷ m) =
    let rest = remove_role role_name s m in
    if str_eq b.role.name role_name then (k, (remove_subject b s).0) ∷ m else (k, b) ∷ rest

-- What addRole leaves, or what there is to do if it finds no binding.
AddedUnique : Option (Dict RoleBinding × Bool) → Type 0
AddedUnique none = Unit
AddedUnique (some r) = AllUnique r.0

add_to_first-AddedUnique :
    (name s : Str) (m : Dict RoleBinding) → AllUnique m → AddedUnique (add_to_first name s m)
unfolding add_to_first AddedUnique
add_to_first-AddedUnique name s [] h = tt
add_to_first-AddedUnique name s ((k, b) ∷ m) h = elim (Bool-cases (str_eq b.role.name name)) [
  | inl hit ↦ rw hit ((add_subject_lem b s h.0).0, h.1)
  | inr miss ↦ rw miss (behind (add_to_first name s m) (add_to_first-AddedUnique name s m h.1))
]
  where
    behind :
        (o : Option (Dict RoleBinding × Bool))
        → AddedUnique o
        → AddedUnique (elim o [ none ↦ none | some r ↦ some ((k, b) ∷ r.0, r.1) ])
    behind none u = tt
    behind (some r) u = (h.0, u)

single : (s : Str) → Unique (s ∷ [])
unfolding is_bound
single s = (refl, tt)

add_role_to-AllUnique :
    (a : Authorizer) (r : Role) (s : Str)
    → AllUnique a.bindings_by_role_name
    → AllUnique (add_role_to a r s).0.bindings_by_role_name
unfolding add_role_to AddedUnique
add_role_to-AllUnique a r s h =
    go (add_to_first r.name s a.bindings_by_role_name) refl
      (add_to_first-AddedUnique r.name s a.bindings_by_role_name h)
  where
    go :
        (o : Option (Dict RoleBinding × Bool))
        → add_to_first r.name s a.bindings_by_role_name ≡ o
        → AddedUnique o
        → AllUnique (add_role_to a r s).0.bindings_by_role_name
    go none e u = rw (e, add_role_to) (bind-AllUnique a r (s ∷ []) h (single s))
    go (some m) e u = rw (e, add_role_to) u

module _ (s name : Str) where
  abbrev Unbound : RoleBinding → Type 0
  Unbound b = is_bound s b.subjects ≡ true → b.role.name ≡ name

  at_binding-Unbound :
      (m : Dict RoleBinding)
      → AllUnique m
      → All Unbound
          (values (at_binding (λ b. (remove_subject b s).0) (λ b. not (str_eq b.role.name name)) m))
  at_binding-Unbound [] h = tt
  at_binding-Unbound ((k, b) ∷ m) h = elim (Bool-cases (str_eq b.role.name name)) [
    | inl hit ↦ rw hit ((λ _. (str_eq_iff b.role.name name).0 hit), at_binding-Unbound m h.1)
    | inr miss ↦ rw miss ((λ e. absurd (gone e)), at_binding-Unbound m h.1)
  ]
    where
      gone : is_bound s (remove_subject b s).0.subjects ≡ true → ⊥
      gone e = let f = (remove_subject_lem b s h.0).1 s in ground (arith, e, f, str_eq_refl s)

-- Where `/role set` does not find the subject bound to the role already, it leaves the subject bound
-- to no role of another name.
pub set_role-Unbound :
    (a : Authorizer) (r : Role) (s : Str)
    → AllUnique a.bindings_by_role_name
    → (add_role_to a r s).1 ≡ true
    → All
        (λ (b : RoleBinding). is_bound s b.subjects ≡ true → b.role.name ≡ r.name)
        (bindings (set_role a r s))
unfolding set_role bindings
set_role-Unbound a r s h e =
    rw (e, set_role)
      (at_binding-Unbound s r.name (add_role_to a r s).0.bindings_by_role_name
        (add_role_to-AllUnique a r s h))
