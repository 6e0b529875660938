-- ===== src/Commands/Tests.antt =====
-- pkg/socket/cmd: a table with one command, a room with two roles, and the theorems at them.
use streaming_server.Base.{
  true, List, [], ◌∷◌, ◌≡◌, ◌⊎◌, refl, some, if◌then◌else◌, All, Outcome, ok, err,
}
use streaming_server.Base.Text.{Str, codes, str_eq, is_in}
use streaming_server.Base.Dict.{lookup}
use streaming_server.Rbac.Role.{Role}
use streaming_server.Rbac.Binding.{RoleBinding, is_bound}
use streaming_server.Rbac.Authorizer.{Authorizer, new_authorizer, bindings}
use streaming_server.Commands.Handler.{
  SocketCommand, Handler, CommandError, add_command, resolve_command_alias, command_action,
  add_command-Added,
}
use streaming_server.Commands.Authorized.{
  execute_authorized, Permitted, execute_authorized-Permitted,
}
use streaming_server.Commands.Role.{add_role_to, add_to_first, set_role, set_role-Unbound}

abbrev subtitles : SocketCommand
subtitles = record { name = codes "subtitles"; aliases = codes "subs" ∷ [] }

abbrev no_commands : Handler
no_commands = record { commands = []; aliases = [] }

add_command-Added_example :
    (h : Handler) × (add_command no_commands subtitles ≡ ok h)
    × ((k : Str)
        → resolve_command_alias k h ≡ (
            if is_in k (codes "subtitles" ∷ codes "subs" ∷ [])
            then some subtitles
            else resolve_command_alias k no_commands))
unfolding lookup str_eq
add_command-Added_example = add_command-Added no_commands subtitles (refl, refl, (refl, refl, tt))

abbrev say : SocketCommand → List Str → List Str → List Str × Outcome CommandError Str
say c args s = (c.name ∷ s, ok c.name)

abbrev table : Handler
table = record {
  commands = (codes "subtitles", subtitles) ∷ [];
  aliases = (codes "subs", subtitles) ∷ [];
}

execute_authorized-Permitted_example :
    ((c : SocketCommand) × (resolve_command_alias (codes "subs") table ≡ some c)
      × Permitted new_authorizer (codes "7") (command_action c.name [])
      × (execute_authorized say table new_authorizer (codes "7") (codes "subs") [] []
          ≡ say c [] []))
    ⊎ ((e : CommandError) × (execute_authorized say table new_authorizer
            (codes "7")
            (codes "subs")
            []
            []
          ≡ ([], err e)))
execute_authorized-Permitted_example =
    execute_authorized-Permitted say table new_authorizer (codes "7") (codes "subs") [] []

abbrev user : Role
user = record { name = codes "user"; rules = [] }

abbrev admin : Role
admin = record { name = codes "admin"; rules = [] }

abbrev room : Authorizer
room = record {
  roles_by_name = (codes "user", user) ∷ (codes "admin", admin) ∷ [];
  bindings_by_role_name = (codes "user", record { role = user; subjects = codes "7" ∷ [] }) ∷ [];
}

set_role-Unbound_example :
    All
      (λ (b : RoleBinding). is_bound (codes "7") b.subjects ≡ true → b.role.name ≡ codes "admin")
      (bindings (set_role room admin (codes "7")))
unfolding add_role_to add_to_first is_bound str_eq
set_role-Unbound_example = set_role-Unbound room admin (codes "7") ((refl, tt), tt) refl
