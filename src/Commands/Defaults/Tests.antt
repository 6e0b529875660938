-- ===== src/Commands/Defaults/Tests.antt =====
-- pkg/socket/cmd/handler.go: the default roles, one client that is an admin, and the theorems at them.
use streaming_server.Base.{List, [], ◌∷◌, ◌≡◌, ◌⊎◌, inl, inr, refl, Outcome, ok, err}
use streaming_server.Base.Text.{Str, codes, str_eq}
use streaming_server.Base.Dict.{lookup}
use streaming_server.Rbac.Authorizer.{Authorizer, bindings, role}
use streaming_server.Commands.Handler.{SocketCommand, Handler, CommandError}
use streaming_server.Commands.Authorized.{execute_authorized}
use streaming_server.Commands.Defaults.{viewer, admin}
use streaming_server.Commands.Defaults.Escalation.{IsAdmin, execute_authorized-IsAdmin}

abbrev start : Authorizer
start = record {
  roles_by_name = (viewer.name, viewer) ∷ (admin.name, admin) ∷ [];
  bindings_by_role_name = (admin.name, record { role = admin; subjects = codes "7" ∷ [] }) ∷ [];
}

abbrev edit : SocketCommand
edit = record { name = codes "role"; aliases = [] }

abbrev table : Handler
table = record { commands = (codes "role", edit) ∷ []; aliases = [] }

abbrev say : SocketCommand → List Str → List Str → List Str × Outcome CommandError Str
say c args s = (c.name ∷ s, ok c.name)

execute_authorized-IsAdmin_example :
    (IsAdmin start (codes "7")
      × (execute_authorized say table start
            (codes "7")
            (codes "role")
            (codes "set" ∷ codes "user" ∷ codes "*" ∷ [])
            []
          ≡ say edit (codes "set" ∷ codes "user" ∷ codes "*" ∷ []) []))
    ⊎ ((e : CommandError) × (execute_authorized say table start
            (codes "7")
            (codes "role")
            (codes "set" ∷ codes "user" ∷ codes "*" ∷ [])
            []
          ≡ ([], err e)))
unfolding lookup bindings str_eq
execute_authorized-IsAdmin_example =
    execute_authorized-IsAdmin say table start (codes "7") (codes "role")
      (codes "set" ∷ codes "user" ∷ codes "*" ∷ []) [] edit (inr (inr (inl refl)), tt) refl
      (inl refl)
