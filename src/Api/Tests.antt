-- ===== src/Api/Tests.antt =====
-- pkg/api/endpoint/auth.go: requests of two connections in a room.
use streaming_server.Base.{List, [], ◌∷◌, ◌≡◌, refl, none, some, err, ok, All}
use streaming_server.Base.Text.{Str, codes, str_eq}
use streaming_server.Base.Dict.{lookup}
use streaming_server.Base.Split.{is_absent-Absent}
use streaming_server.Rbac.Role.{Role}
use streaming_server.Rbac.Binding.{is_bound}
use streaming_server.Rbac.Authorizer.{Authorizer, role, bindings, subject_roles}
use streaming_server.Rbac.Cookie.{plain, comma, IsEncodable}
use streaming_server.Connections.{Connections, Namespace, namespace}
use streaming_server.Sessions.{user_role, is_alone}
use streaming_server.Sessions.Cookies.{entry}
use streaming_server.Api.{
  AuthRequest, handle, handle_cookie_req, handle_init_req, unimplemented, no_authorizer,
  no_connection, saved, initialized, checked,
}
use streaming_server.Api.Restored.{IsBoundTo, init-Restores}

abbrev user : Role
user = record { name = user_role; rules = [] }

abbrev den : Namespace
den = record {
  name = codes "den";
  id = codes "1";
  connections = (codes "7", codes "7") ∷ (codes "8", codes "8") ∷ [];
}

abbrev server : Connections
server = record {
  ns_by_name = (codes "den", den) ∷ [];
  conns_by_id = (codes "7", codes "7") ∷ (codes "8", codes "8") ∷ [];
  joined = (codes "7", codes "den") ∷ (codes "8", codes "den") ∷ [];
  fresh = 2;
}

abbrev authorizer : Authorizer
authorizer = record {
  roles_by_name = (user_role, user) ∷ [];
  bindings_by_role_name = (user_role, record { role = user; subjects = codes "7" ∷ [] }) ∷ [];
}

abbrev asked : List Str → Str → Str → AuthRequest
asked segments id referrer = record {
  segments = segments;
  cookie = none;
  id = id;
  referrer = referrer;
}

handle_short :
    handle server none (asked (codes "auth" ∷ []) [] []) ≡ (none, none, err unimplemented)
unfolding handle
handle_short = refl

handle_disabled :
    handle server none (asked (codes "auth" ∷ codes "init" ∷ []) [] [])
    ≡ (none, none, err no_authorizer)
unfolding handle
handle_disabled = refl

handle_unknown :
    handle server
      (some authorizer)
      (asked (codes "auth" ∷ codes "init" ∷ []) (codes "9") (codes "r"))
    ≡ (some authorizer, none, err (no_connection (codes "9")))
unfolding handle checked lookup str_eq
handle_unknown = refl

saved_entry : IsEncodable (entry (codes "1") (codes "den") (user ∷ []))
saved_entry = record {
  plain_id = plain (codes "1") refl;
  plain_name = plain (codes "den") refl;
  has_role = (λ e. cc e);
  plain_roles = ((is_absent-Absent comma user_role refl, plain user_role refl), tt);
}

init-Restores_example :
    (v : Str) × (w : Str) × (b : Authorizer) × (handle_cookie_req server authorizer (codes "7") none
      ≡ (authorizer, some v, ok (saved (user_role ∷ []) (codes "7"))))
    × (handle_init_req server authorizer (codes "8") (some v)
        ≡ (b, some w, ok (initialized (codes "8"))))
    × All (λ (r : Role). IsBoundTo b (codes "8") r.name) (user ∷ [])
unfolding subject_roles bindings is_bound namespace is_alone role lookup str_eq
init-Restores_example =
    init-Restores server server authorizer authorizer (codes "7") (codes "8") none den den user refl
      refl refl refl refl refl tt (λ e. cc e) (refl, tt) saved_entry
