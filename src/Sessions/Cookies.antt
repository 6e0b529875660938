-- ===== src/Sessions/Cookies.antt =====
-- pkg/socket/util/util.go: UpdatedAuthCookie, and what rolesFromCookie reads back.
use streaming_server.Base.{
  false, List, [], ◌∷◌, ◌++◌, append-nil, ◌≡◌, ◌≢◌, inl, inr, refl, ap, ◌∙◌, Option, none, some,
  if◌then◌else◌, Outcome, ok, err, panic, diverges, All, All-append, Bool-cases,
}
use streaming_server.Base.Text.{Str, str_eq, str_eq_refl}
use streaming_server.Rbac.Role.{Role}
use streaming_server.Rbac.Authorizer.{Authorizer, role}
use streaming_server.Rbac.Cookie.{
  AuthCookieDataNs, CookieError, IsEncodable, decode, serialize, decode-serialize,
}
use streaming_server.Sessions.{
  named_roles, matching_roles, roles_from_cookie, decoded_roles, some_roles, default_roles,
  default_for, or_default, computed_role-is_alone, is_alone, user_role, admin_role,
}

-- The entries of the other namespaces.
unfoldable pub other_namespaces : Str → List AuthCookieDataNs → List AuthCookieDataNs
other_namespaces name [] = []
other_namespaces name (ns ∷ nss) =
    let rest = other_namespaces name nss in if str_eq ns.name name then rest else ns ∷ rest

abbrev pub role_names : List Role → List Str
role_names [] = []
role_names (r ∷ rs) = r.name ∷ role_names rs

abbrev pub entry : Str → Str → List Role → AuthCookieDataNs
entry id name roles = record { id = id; name = name; roles = role_names roles }

rewritten :
    Str → Str → List Role → Outcome CookieError (List AuthCookieDataNs) → Outcome CookieError Str
rewritten id name roles (ok nss) =
    ok (serialize (other_namespaces name nss ++ entry id name roles ∷ []))
rewritten id name roles (err e) = err e
rewritten id name roles panic = panic
rewritten id name roles diverges = diverges

-- UpdatedAuthCookie: the new value, for the namespace with the given id and name.
unfoldable pub updated_auth_cookie : Option Str → Str → Str → List Role → Outcome CookieError Str
unfolding rewritten
updated_auth_cookie none id name roles = ok (serialize (entry id name roles ∷ []))
updated_auth_cookie (some v) id name roles = rewritten id name roles (decode v)

module _ (name : Str) where
  other_namespaces-IsEncodable :
      (nss : List AuthCookieDataNs)
      → All IsEncodable nss
      → All IsEncodable (other_namespaces name nss)
  unfolding other_namespaces
  other_namespaces-IsEncodable [] h = tt
  other_namespaces-IsEncodable (ns ∷ nss) h = elim (Bool-cases (str_eq ns.name name)) [
    | inl hit ↦ rw hit (other_namespaces-IsEncodable nss h.1)
    | inr miss ↦ rw miss (h.0, other_namespaces-IsEncodable nss h.1)
  ]

  -- Only the new entry is for the namespace.
  matching-entry :
      (a : Authorizer) (id : Str) (roles : List Role) (nss : List AuthCookieDataNs)
      → matching_roles a name (other_namespaces name nss ++ entry id name roles ∷ [])
        ≡ named_roles a (role_names roles)
  unfolding other_namespaces matching_roles
  matching-entry a id roles [] =
      rw (str_eq_refl name) (append-nil (named_roles a (role_names roles)))
  matching-entry a id roles (ns ∷ nss) = elim (Bool-cases (str_eq ns.name name)) [
    | inl hit ↦ rw hit (matching-entry a id roles nss)
    | inr miss ↦ rw miss (rw miss (matching-entry a id roles nss))
  ]

-- Each role is registered under its name.
abbrev pub AllNamed : Authorizer → List Role → Type 0
AllNamed a roles = All (λ r. role a r.name ≡ some r) roles

named_roles-names :
    (a : Authorizer) (roles : List Role)
    → AllNamed a roles
    → named_roles a (role_names roles) ≡ roles
unfolding named_roles
named_roles-names a [] h = refl
named_roles-names a (r ∷ rs) h = rw (h.0, named_roles) (ap (◌∷◌ r) (named_roles-names a rs h.1))

-- The entries that a cookie holds.
abbrev pub entries : Outcome CookieError (List AuthCookieDataNs) → List AuthCookieDataNs
entries (ok nss) = nss
entries _ = []

last_nonempty : (nss : List AuthCookieDataNs) (e : AuthCookieDataNs) → (nss ++ e ∷ []) ≢ []
last_nonempty [] e eq = cc eq
last_nonempty (n ∷ nss) e eq = cc eq

read_back :
    (a : Authorizer) (id name : Str) (roles : List Role) (nss : List AuthCookieDataNs)
    → roles ≢ []
    → AllNamed a roles
    → IsEncodable (entry id name roles)
    → All IsEncodable nss
    → roles_from_cookie
        (some (serialize (other_namespaces name nss ++ entry id name roles ∷ [])))
        a
        name
      ≡ ok roles
unfolding roles_from_cookie decoded_roles
read_back a id name roles nss ne named enc all =
    rw
      (
        decode-serialize (other_namespaces name nss ++ entry id name roles ∷ [])
            (last_nonempty (other_namespaces name nss) (entry id name roles))
            (All-append IsEncodable (other_namespaces name nss) (entry id name roles ∷ [])
              (other_namespaces-IsEncodable name nss all) (enc, tt)),
        decoded_roles,
      )
      (rw (matching-entry name a id roles nss)
        (rw (named_roles-names a roles named) (given roles ne)))
  where
    given : (rs : List Role) → rs ≢ [] → some_roles rs ≡ ok rs
    given [] n = absurd (n refl)
    given (r ∷ rs) n = refl

-- A cookie that the request does not have, or that holds encodable entries.
abbrev pub IsReadable : Option Str → Type 0
IsReadable none = Unit
IsReadable (some v) = (nss : List AuthCookieDataNs) × (decode v ≡ ok nss) × All IsEncodable nss

-- The cookie that UpdatedAuthCookie makes for some registered roles, from any earlier cookie that can
-- be read, gives back exactly these roles for the namespace, where no name in it has a separator.
pub roles_from_cookie-updated_auth_cookie :
    (cookie : Option Str) (a : Authorizer) (id name : Str) (roles : List Role)
    → IsReadable cookie
    → roles ≢ []
    → AllNamed a roles
    → IsEncodable (entry id name roles)
    → (v : Str) × (updated_auth_cookie cookie id name roles ≡ ok v)
      × (roles_from_cookie (some v) a name ≡ ok roles)
unfolding updated_auth_cookie rewritten other_namespaces
roles_from_cookie-updated_auth_cookie none a id name roles readable ne named enc =
    (serialize (entry id name roles ∷ []), refl, read_back a id name roles [] ne named enc tt)
roles_from_cookie-updated_auth_cookie (some v) a id name roles (nss, e, all) ne named enc = (
  serialize (other_namespaces name nss ++ entry id name roles ∷ []),
  rw (e, rewritten) refl,
  read_back a id name roles nss ne named enc all,
)

-- Where the request's cookie can be read and names registered roles, it can be written again.
pub updated_auth_cookie-read :
    (v : Str) (a : Authorizer) (id name : Str) (roles found : List Role)
    → roles_from_cookie (some v) a name ≡ ok found
    → (w : Str) × (updated_auth_cookie (some v) id name roles ≡ ok w)
unfolding updated_auth_cookie rewritten roles_from_cookie decoded_roles
updated_auth_cookie-read v a id name roles found e = of (decode v) e
  where
    of :
        (d : Outcome CookieError (List AuthCookieDataNs))
        → decoded_roles a name d ≡ ok found
        → (w : Str) × (rewritten id name roles d ≡ ok w)
    of (ok nss) h = (serialize (other_namespaces name nss ++ entry id name roles ∷ []), refl)
    of (err x) h = cc h
    of panic h = cc h
    of diverges h = cc h

-- A connection that is not alone gets the roles of its cookie.
pub default_roles-cookie :
    (v : Str) (a : Authorizer) (conn name : Str) (connections : List Str) (user : Role)
    (roles : List Role)
    → is_alone conn connections ≡ false
    → role a user_role ≡ some user
    → user.name ≡ user_role
    → roles ≢ []
    → roles_from_cookie (some v) a name ≡ ok roles
    → default_roles (some v) (some a) conn name connections ≡ ok roles
unfolding default_roles default_for str_eq
default_roles-cookie v a conn name connections user roles others known named ne read =
    rw (computed_role-is_alone conn connections, default_roles)
      (rw others (
        rw known (
          ap
            (λ n. ok (
              if str_eq n admin_role
              then user ∷ []
              else or_default user (roles_from_cookie (some v) a name)))
            named
          ∙ rw read (ap ok (given roles ne)))))
  where
    given : (rs : List Role) → rs ≢ [] → or_default user (ok rs) ≡ rs
    given [] n = absurd (n refl)
    given (r ∷ rs) n = refl
