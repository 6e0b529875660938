-- ===== src/Rbac/Tests.antt =====
-- pkg/socket/cmd/rbac: two roles and their subjects, an auth cookie, and the theorems at them.
use streaming_server.Base.{true, [], ◌∷◌, ◌≡◌, ◌↔◌, refl, Any, ok}
use streaming_server.Base.Text.{Str, codes, str_eq}
use streaming_server.Base.Split.{is_absent-Absent}
use streaming_server.Rbac.Role.{Rule, Role}
use streaming_server.Rbac.Binding.{RoleBinding, is_bound, Unique}
use streaming_server.Rbac.Authorizer.{
  Authorizer, new_authorizer, bind, bindings, verify, Grants, verify_iff,
}
use streaming_server.Rbac.Cookie.{
  plain, comma, AuthCookieDataNs, IsEncodable, serialize, decode, decode-serialize,
}

abbrev clear_rule : Rule
clear_rule = record { name = codes "clear"; actions = codes "queue/clear" ∷ [] }

abbrev admin : Role
admin = record { name = codes "admin"; rules = clear_rule ∷ [] }

abbrev ann : Str
ann = codes "ann"

abbrev bob : Str
bob = codes "bob"

abbrev admins : RoleBinding
admins = record { role = admin; subjects = ann ∷ bob ∷ [] }

admins-Unique : Unique admins.subjects
unfolding is_bound str_eq
admins-Unique = (refl, (refl, tt))

abbrev room : Authorizer
room = (bind new_authorizer admin (ann ∷ [])).0

verify_iff_example :
    (verify room ann clear_rule ≡ true) ↔ Any (Grants ann (codes "clear")) (bindings room)
verify_iff_example = verify_iff room ann clear_rule

abbrev den : AuthCookieDataNs
den = record { id = codes "7"; name = codes "den"; roles = codes "user" ∷ codes "admin" ∷ [] }

den-IsEncodable : IsEncodable den
den-IsEncodable = record {
  plain_id = plain (codes "7") refl;
  plain_name = plain (codes "den") refl;
  has_role = (λ e. cc e);
  plain_roles = (
    (is_absent-Absent comma (codes "user") refl, plain (codes "user") refl),
    ((is_absent-Absent comma (codes "admin") refl, plain (codes "admin") refl), tt),
  );
}

decode-serialize_example : decode (serialize (den ∷ [])) ≡ ok (den ∷ [])
decode-serialize_example = decode-serialize (den ∷ []) (λ e. cc e) (den-IsEncodable, tt)
