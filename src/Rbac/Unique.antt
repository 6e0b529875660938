-- ===== src/Rbac/Unique.antt =====
-- pkg/socket/cmd/rbac/handler.go: Bind keeps the bindings free of subjects that are bound twice.
use streaming_server.Base.{List, inl, inr, [], ◌∷◌, All, Bool-cases}
use streaming_server.Base.Text.{Str, str_eq}
use streaming_server.Base.Dict.{Dict, lookup, insert, values}
use streaming_server.Rbac.Role.{Role}
use streaming_server.Rbac.Binding.{RoleBinding, Unique}
use streaming_server.Rbac.Authorizer.{Authorizer, bind, bound, IsUnique, bound_lem}

abbrev pub AllUnique : Dict RoleBinding → Type 0
AllUnique m = All (λ (b : RoleBinding). Unique b.subjects) (values m)

All-insert :
    (P : RoleBinding → Type 0) (k : Str) (b : RoleBinding) (m : Dict RoleBinding)
    → P b
    → All P (values m)
    → All P (values (insert k b m))
unfolding insert
All-insert P k b [] p h = (p, tt)
All-insert P k b ((j, c) ∷ m) p h = elim (Bool-cases (str_eq j k)) [
  | inl hit ↦ rw hit (p, h.1)
  | inr miss ↦ rw miss (h.0, All-insert P k b m p h.1)
]

pub lookup-IsUnique : (k : Str) (m : Dict RoleBinding) → AllUnique m → IsUnique (lookup k m)
unfolding lookup
lookup-IsUnique k [] h = tt
lookup-IsUnique k ((j, b) ∷ m) h = elim (Bool-cases (str_eq j k)) [
  | inl hit ↦ rw hit h.0
  | inr miss ↦ rw miss (lookup-IsUnique k m h.1)
]

pub bind-AllUnique :
    (a : Authorizer) (r : Role) (ss : List Str)
    → AllUnique a.bindings_by_role_name
    → Unique ss
    → AllUnique (bind a r ss).0.bindings_by_role_name
unfolding bind
bind-AllUnique a r ss h u =
    All-insert (λ (b : RoleBinding). Unique b.subjects) r.name
      (bound (lookup r.name a.bindings_by_role_name) r ss) a.bindings_by_role_name
      (bound_lem (lookup r.name a.bindings_by_role_name) r ss
        (lookup-IsUnique r.name a.bindings_by_role_name h) u).0
      h
