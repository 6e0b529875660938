-- ===== src/Commands/Defaults/Bound.antt =====
-- pkg/socket/cmd/handler.go: which roles are bound when the server starts with the default roles.
use streaming_server.Base.{◌≡◌, Any, All}
use streaming_server.Rbac.Role.{Role}
use streaming_server.Rbac.Binding.{RoleBinding}
use streaming_server.Base.Dict.{Dict, values}
use streaming_server.Rbac.Authorizer.{Authorizer, role}
use streaming_server.Commands.Defaults.{starting_roles}

-- The role of the binding is one of the default roles.
abbrev pub HasDefaultRole : RoleBinding → Type 0
HasDefaultRole b = Any (λ r. r ≡ b.role) starting_roles

-- Every role of the authorizer is a default role.
abbrev pub HasDefaultRoles : Authorizer → Type 0
HasDefaultRoles a = All (λ x. Any (λ r. r ≡ x) starting_roles) (values a.roles_by_name)
