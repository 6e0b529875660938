-- ===== src/Sessions/Tests.antt =====
-- pkg/socket/util/util.go: an authorizer with two roles, and the theorems at it.
use streaming_server.Base.{[], ◌∷◌, ◌≡◌, refl, none, some, ok}
use streaming_server.Base.Text.{Str, codes, str_eq}
use streaming_server.Base.Dict.{lookup}
use streaming_server.Base.Split.{is_absent-Absent}
use streaming_server.Rbac.Role.{Role}
use streaming_server.Rbac.Authorizer.{Authorizer, role}
use streaming_server.Rbac.Cookie.{plain, comma, IsEncodable}
use streaming_server.Sessions.{admin_role, user_role, roles_from_cookie}
use streaming_server.Sessions.Cookies.{
  AllNamed, entry, updated_auth_cookie, roles_from_cookie-updated_auth_cookie,
}

abbrev admin : Role
admin = record { name = admin_role; rules = [] }

abbrev user : Role
user = record { name = user_role; rules = [] }

abbrev room : Authorizer
room = record {
  roles_by_name = (user_role, user) ∷ (admin_role, admin) ∷ [];
  bindings_by_role_name = [];
}

entry-IsEncodable : IsEncodable (entry (codes "1") (codes "den") (user ∷ []))
entry-IsEncodable = record {
  plain_id = plain (codes "1") refl;
  plain_name = plain (codes "den") refl;
  has_role = (λ e. cc e);
  plain_roles = ((is_absent-Absent comma user_role refl, plain user_role refl), tt);
}

user-AllNamed : AllNamed room (user ∷ [])
unfolding role lookup str_eq
user-AllNamed = (refl, tt)

roles_from_cookie-updated_auth_cookie_example :
    (v : Str) × (updated_auth_cookie none (codes "1") (codes "den") (user ∷ []) ≡ ok v)
    × (roles_from_cookie (some v) room (codes "den") ≡ ok (user ∷ []))
roles_from_cookie-updated_auth_cookie_example =
    roles_from_cookie-updated_auth_cookie none room (codes "1") (codes "den") (user ∷ []) tt
      (λ e. cc e) user-AllNamed entry-IsEncodable
