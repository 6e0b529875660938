-- ===== src/Api.antt =====
-- pkg/api/endpoint/auth.go: the endpoint that saves the roles of a connection in a cookie and that
-- binds them again. What http.Request and http.ResponseWriter carry are arguments and results.
pub mod Restored
mod Tests
use streaming_server.Base.{
  List, [], ◌∷◌, Option, none, some, Outcome, ok, err, panic, diverges, if◌then◌else◌, ◌||◌,
}
use streaming_server.Base.Text.{Str, codes, str_eq}
use streaming_server.Base.Dict.{lookup, values}
use streaming_server.Rbac.Role.{Role}
use streaming_server.Rbac.Authorizer.{Authorizer, bind, bindings, subject_roles}
use streaming_server.Rbac.Cookie.{CookieError}
use streaming_server.Connections.{Connections, Namespace, namespace}
use streaming_server.Sessions.{SessionError, default_roles}
use streaming_server.Sessions.Cookies.{updated_auth_cookie, role_names}

-- The auth cookie of the request, the parameter `id`, the referrer and the segments of the path.
pub record AuthRequest : Type 0 where
  pub segments : List Str
  pub cookie : Option Str
  pub id : Str
  pub referrer : Str

pub data AuthError : Type 0 where
  unimplemented no_authorizer missing_id no_referrer no_namespace : AuthError
  no_connection : Str → AuthError
  no_roles : SessionError → AuthError
  no_cookie : CookieError → AuthError

pub data AuthReply : Type 0 where
  initialized : Str → AuthReply
  saved : List Str → Str → AuthReply

-- The authorizer after the request, the cookie that the response sets, and the answer.
abbrev pub Response : Type 0
Response = Authorizer × Option Str × Outcome AuthError AuthReply

-- The loop of handleInitReq.
unfoldable pub bind_roles : Authorizer → List Role → Str → Authorizer
bind_roles a [] conn = a
bind_roles a (r ∷ rs) conn = bind_roles (bind a r (conn ∷ [])).0 rs conn

set_and_bind : Authorizer → Str → List Role → Outcome CookieError Str → Response
set_and_bind a conn roles (ok v) = (bind_roles a roles conn, some v, ok (initialized conn))
set_and_bind a conn roles (err e) = (a, none, err (no_cookie e))
set_and_bind a conn roles panic = (a, none, panic)
set_and_bind a conn roles diverges = (a, none, diverges)

init_roles : Authorizer → Str → Option Str → Namespace → Outcome SessionError (List Role) → Response
unfolding set_and_bind
init_roles a conn cookie n (ok roles) =
    set_and_bind a conn roles (updated_auth_cookie cookie n.id n.name roles)
init_roles a conn cookie n (err e) = (a, none, err (no_roles e))
init_roles a conn cookie n panic = (a, none, panic)
init_roles a conn cookie n diverges = (a, none, diverges)

unfoldable pub handle_init_req : Connections → Authorizer → Str → Option Str → Response
unfolding init_roles
handle_init_req cs a conn cookie = elim (namespace cs conn) [
  | none ↦ (a, none, err no_namespace)
  | some n ↦
      init_roles a conn cookie n (default_roles cookie (some a) conn n.name (values n.connections))
]

save_roles : Authorizer → Str → List Role → Outcome CookieError Str → Response
save_roles a conn roles (ok v) = (a, some v, ok (saved (role_names roles) conn))
save_roles a conn roles (err e) = (a, none, err (no_cookie e))
save_roles a conn roles panic = (a, none, panic)
save_roles a conn roles diverges = (a, none, diverges)

unfoldable pub handle_cookie_req : Connections → Authorizer → Str → Option Str → Response
unfolding save_roles
handle_cookie_req cs a conn cookie = elim (namespace cs conn) [
  | none ↦ (a, none, err no_namespace)
  | some n ↦
      let roles = subject_roles conn (bindings a) in
      save_roles a conn roles (updated_auth_cookie cookie n.id n.name roles)
]

-- The switch on the second segment.
unfoldable pub respond : Connections → Authorizer → Str → Str → Option Str → Response
respond cs a action conn cookie =
    if str_eq action (codes "save") || str_eq action (codes "cookie")
    then handle_cookie_req cs a conn cookie
    else if str_eq action (codes "set") || str_eq action (codes "init")
    then handle_init_req cs a conn cookie
    else (a, none, err unimplemented)

-- The checks on the parameter `id`, the referrer and the connection.
unfoldable pub checked : Connections → Authorizer → Str → AuthRequest → Response
checked cs a action req = elim req.id [
  | [] ↦ (a, none, err missing_id)
  | _ ∷ _ ↦ elim req.referrer [
    | [] ↦ (a, none, err no_referrer)
    | _ ∷ _ ↦ elim (lookup req.id cs.conns_by_id) [
      | none ↦ (a, none, err (no_connection req.id))
      | some conn ↦ respond cs a action conn req.cookie
    ]
  ]
]

-- Handle of AuthEndpoint, where the handler of connections has an authorizer or none.
unfoldable pub handle :
    Connections
    → Option Authorizer
    → AuthRequest
    → Option Authorizer × Option Str × Outcome AuthError AuthReply
handle cs authorizer req = elim req.segments [
  | [] ↦ (authorizer, none, err unimplemented)
  | _ ∷ rest ↦ elim rest [
    | [] ↦ (authorizer, none, err unimplemented)
    | action ∷ _ ↦ elim authorizer [
      | none ↦ (none, none, err no_authorizer)
      | some a ↦ let (a', cookie, answer) = checked cs a action req in (some a', cookie, answer)
    ]
  ]
]
