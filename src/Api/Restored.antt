-- ===== src/Api/Restored.antt =====
-- pkg/api/endpoint/auth.go: the roles that a connection saves come back to a later one.
use streaming_server.Base.{
  true, false, List, [], ◌∷◌, ◌≡◌, ◌≢◌, inl, inr, refl, ◌∙◌, arith, Option, none, some, ok, All,
  Bool-cases,
}
use streaming_server.Base.Text.{Str, str_eq, str_eq_refl}
use streaming_server.Base.Dict.{lookup, values, lookup-insert}
use streaming_server.Rbac.Role.{Role}
use streaming_server.Rbac.Binding.{RoleBinding, is_bound, add_subject, is_bound-append}
use streaming_server.Rbac.Authorizer.{
  Authorizer, role, bind, bound, add_subjects, bindings, subject_roles,
}
use streaming_server.Rbac.Cookie.{IsEncodable}
use streaming_server.Connections.{Connections, Namespace, namespace}
use streaming_server.Sessions.{default_roles, is_alone, user_role, roles_from_cookie}
use streaming_server.Sessions.Cookies.{
  role_names, entry, AllNamed, IsReadable, updated_auth_cookie-read, default_roles-cookie,
  roles_from_cookie-updated_auth_cookie,
}
use streaming_server.Api.{
  bind_roles, set_and_bind, init_roles, handle_init_req, save_roles, handle_cookie_req, initialized,
  saved,
}

-- The subject is in the binding under the name.
abbrev pub IsBoundTo : Authorizer → Str → Str → Type 0
IsBoundTo a s name =
    (b : RoleBinding) × (lookup name a.bindings_by_role_name ≡ some b)
    × (is_bound s b.subjects ≡ true)

add_subject-keeps :
    (b : RoleBinding) (s t : Str)
    → is_bound t b.subjects ≡ true
    → is_bound t (add_subject b s).0.subjects ≡ true
unfolding add_subject
add_subject-keeps b s t h = elim (Bool-cases (is_bound s b.subjects)) [
  | inl hit ↦ rw hit h
  | inr miss ↦ rw miss (ground (arith, is_bound-append t b.subjects (s ∷ []), h))
]

add_subject-binds : (b : RoleBinding) (s : Str) → is_bound s (add_subject b s).0.subjects ≡ true
unfolding add_subject is_bound
add_subject-binds b s = elim (Bool-cases (is_bound s b.subjects)) [
  | inl hit ↦ rw hit hit
  | inr miss ↦ rw miss (ground (arith, is_bound-append s b.subjects (s ∷ []), str_eq_refl s, miss))
]

bound-binds :
    (o : Option RoleBinding) (r : Role) (s : Str) → is_bound s (bound o r (s ∷ [])).subjects ≡ true
unfolding bound add_subjects
bound-binds none r s = add_subject-binds (record { role = r; subjects = s ∷ [] }) s
bound-binds (some b) r s = add_subject-binds b s

bind-binds : (a : Authorizer) (r : Role) (s : Str) → IsBoundTo (bind a r (s ∷ [])).0 s r.name
unfolding bind
bind-binds a r s = (
  bound (lookup r.name a.bindings_by_role_name) r (s ∷ []),
  lookup-insert r.name r.name (bound (lookup r.name a.bindings_by_role_name) r (s ∷ []))
        a.bindings_by_role_name
      ∙ rw (str_eq_refl r.name),
  bound-binds (lookup r.name a.bindings_by_role_name) r s,
)

bind-keeps :
    (a : Authorizer) (r : Role) (s name : Str)
    → IsBoundTo a s name
    → IsBoundTo (bind a r (s ∷ [])).0 s name
unfolding bind
bind-keeps a r s name (b, found, h) = elim (Bool-cases (str_eq r.name name)) [
  | inl hit ↦ (
    bound (lookup r.name a.bindings_by_role_name) r (s ∷ []),
    lookup-insert r.name name (bound (lookup r.name a.bindings_by_role_name) r (s ∷ []))
          a.bindings_by_role_name
        ∙ rw hit,
    bound-binds (lookup r.name a.bindings_by_role_name) r s,
  )
  | inr miss ↦ (
    b,
    lookup-insert r.name name (bound (lookup r.name a.bindings_by_role_name) r (s ∷ []))
          a.bindings_by_role_name
        ∙ rw miss found,
    h,
  )
]

bind_roles-keeps :
    (a : Authorizer) (roles : List Role) (s name : Str)
    → IsBoundTo a s name
    → IsBoundTo (bind_roles a roles s) s name
unfolding bind_roles
bind_roles-keeps a [] s name h = h
bind_roles-keeps a (r ∷ rs) s name h =
    bind_roles-keeps (bind a r (s ∷ [])).0 rs s name (bind-keeps a r s name h)

bind_roles-binds :
    (a : Authorizer) (roles : List Role) (s : Str)
    → All (λ r. IsBoundTo (bind_roles a roles s) s r.name) roles
unfolding bind_roles
bind_roles-binds a [] s = tt
bind_roles-binds a (r ∷ rs) s = (
  bind_roles-keeps (bind a r (s ∷ [])).0 rs s r.name (bind-binds a r s),
  bind_roles-binds (bind a r (s ∷ [])).0 rs s,
)

-- The roles of a connection, which is bound to some, are saved by `/auth/cookie` from any earlier
-- cookie that can be read, where no name in the new entry has a separator. If they are registered
-- when a later connection, that is not alone in a room of the same name, sends this cookie to
-- `/auth/init`, then that connection is bound to each of them. Both requests succeed, and the first
-- one leaves the authorizer as it is.
pub init-Restores :
    (cs cs' : Connections) (a a' : Authorizer) (old new : Str) (cookie : Option Str)
    (n n' : Namespace) (user : Role)
    → namespace cs old ≡ some n
    → namespace cs' new ≡ some n'
    → n'.name ≡ n.name
    → is_alone new (values n'.connections) ≡ false
    → role a' user_role ≡ some user
    → user.name ≡ user_role
    → IsReadable cookie
    → subject_roles old (bindings a) ≢ []
    → AllNamed a' (subject_roles old (bindings a))
    → IsEncodable (entry n.id n.name (subject_roles old (bindings a)))
    → (v : Str) × (w : Str) × (b : Authorizer) × (handle_cookie_req cs a old cookie
        ≡ (a, some v, ok (saved (role_names (subject_roles old (bindings a))) old)))
      × (handle_init_req cs' a' new (some v) ≡ (b, some w, ok (initialized new)))
      × All (λ r. IsBoundTo b new r.name) (subject_roles old (bindings a))
unfolding handle_cookie_req handle_init_req init_roles set_and_bind save_roles
init-Restores cs cs' a a' old new cookie n n' user e e' same others known named readable ne all
      enc =
    let roles = subject_roles old (bindings a) in
    let (v, written, read) =
      roles_from_cookie-updated_auth_cookie cookie a' n.id n.name roles readable ne all enc in
    let read' : roles_from_cookie (some v) a' n'.name ≡ ok roles = rw same read in
    let (w, again) = updated_auth_cookie-read v a' n'.id n'.name roles roles read' in
    let given : default_roles (some v) (some a') new n'.name (values n'.connections) ≡ ok roles =
      default_roles-cookie v a' new n'.name (values n'.connections) user roles others known named ne
        read' in
    (
      v,
      w,
      bind_roles a' roles new,
      rw (e, handle_cookie_req) (rw written refl),
      rw (e', handle_init_req) (rw given (rw again refl)),
      bind_roles-binds a' roles new,
    )
