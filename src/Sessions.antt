-- ===== src/Sessions.antt =====
-- pkg/socket/util/util.go: the roles that a new connection gets, and the cookie that keeps them.
pub mod Cookies
mod Tests
use streaming_server.Base.{
  Bool, true, false, List, [], ◌∷◌, ◌++◌, map, ◌≡◌, ◌≢◌, inl, inr, refl, sym, ◌∙◌, arith, Option,
  none, some, if◌then◌else◌, Outcome, ok, err, panic, diverges, Bool-cases, ◌>>=◌,
}
use streaming_server.Base.Text.{Str, codes, str_eq, str_eq_iff}
use streaming_server.Rbac.Role.{Role}
use streaming_server.Rbac.Authorizer.{Authorizer, role}
use streaming_server.Rbac.Cookie.{AuthCookieDataNs, CookieError, decode}

pub data SessionError : Type 0 where
  no_authorizer no_cookie no_roles : SessionError
  no_such_role : Str → SessionError
  bad_cookie : CookieError → SessionError

abbrev pub admin_role : Str
admin_role = codes "admin"

abbrev pub user_role : Str
user_role = codes "user"

-- The registered roles of the given names.
unfoldable pub named_roles : Authorizer → List Str → List Role
named_roles a [] = []
named_roles a (r ∷ rs) =
    let rest = named_roles a rs in elim (role a r) [ none ↦ rest | some x ↦ x ∷ rest ]

-- The loops of rolesFromCookie.
unfoldable pub matching_roles : Authorizer → Str → List AuthCookieDataNs → List Role
matching_roles a name [] = []
matching_roles a name (ns ∷ nss) =
    let rest = matching_roles a name nss in
    if str_eq ns.name name then named_roles a ns.roles ++ rest else rest

some_roles : List Role → Outcome SessionError (List Role)
some_roles [] = err no_roles
some_roles (r ∷ rs) = ok (r ∷ rs)

decoded_roles :
    Authorizer
    → Str
    → Outcome CookieError (List AuthCookieDataNs)
    → Outcome SessionError (List Role)
decoded_roles a name (ok nss) = some_roles (matching_roles a name nss)
decoded_roles a name (err e) = err (bad_cookie e)
decoded_roles a name panic = panic
decoded_roles a name diverges = diverges

-- The value of the auth cookie of the request, if it has one.
unfoldable pub roles_from_cookie : Option Str → Authorizer → Str → Outcome SessionError (List Role)
unfolding decoded_roles some_roles
roles_from_cookie none a name = err no_cookie
roles_from_cookie (some v) a name = decoded_roles a name (decode v)

-- The loop over the connections of the namespace.
unfoldable pub computed_role : Str → List Str → Str → Str
computed_role conn [] role_name = role_name
computed_role conn (c ∷ cs) role_name =
    if str_eq c conn then computed_role conn cs role_name else computed_role conn cs user_role

or_default : Role → Outcome SessionError (List Role) → List Role
or_default r (ok (x ∷ xs)) = x ∷ xs
or_default r _ = r ∷ []

default_for : Option Str → Authorizer → Str → Role → List Role
default_for cookie a name r =
    if str_eq r.name admin_role then r ∷ [] else or_default r (roles_from_cookie cookie a name)

unfoldable pub default_roles :
    Option Str → Option Authorizer → Str → Str → List Str → Outcome SessionError (List Role)
unfolding default_for or_default
default_roles cookie none conn name connections = err no_authorizer
default_roles cookie (some a) conn name connections =
    let role_name = computed_role conn connections admin_role in
    elim (role a role_name) [
      | none ↦ err (no_such_role role_name)
      | some r ↦ ok (default_for cookie a name r)
    ]

-- Whether the connection is alone.
unfoldable pub is_alone : Str → List Str → Bool
is_alone conn [] = true
is_alone conn (c ∷ cs) = if str_eq c conn then is_alone conn cs else false

computed-user : (conn : Str) (cs : List Str) → computed_role conn cs user_role ≡ user_role
unfolding computed_role
computed-user conn [] = refl
computed-user conn (c ∷ cs) = ground (arith, computed-user conn cs)

computed_role-is_alone :
    (conn : Str) (cs : List Str)
    → computed_role conn cs admin_role ≡ (if is_alone conn cs then admin_role else user_role)
unfolding computed_role is_alone
computed_role-is_alone conn [] = refl
computed_role-is_alone conn (c ∷ cs) = elim (Bool-cases (str_eq c conn)) [
  | inl hit ↦ rw hit (computed_role-is_alone conn cs)
  | inr miss ↦ rw miss (computed-user conn cs)
]

-- A role is registered under some name.
abbrev pub IsRegistered : Authorizer → Role → Type 0
IsRegistered a r = (name : Str) × (role a name ≡ some r)
