-- ===== src/Rbac/Role.antt =====
-- pkg/socket/cmd/rbac/role.go, rule.go: a rule allows actions; a role holds rules of distinct names.
use streaming_server.Base.{Bool, true, false, List, [], ◌∷◌, ◌++◌, if◌then◌else◌}
use streaming_server.Base.Text.{Str, str_eq}

pub record Rule : Type 0 where
  pub name : Str
  pub actions : List Str

pub record Role : Type 0 where
  pub name : Str
  pub rules : List Rule

-- The loop that AddRule and Verify share: a rule of the given name is in the list.
unfoldable pub has_rule : Str → List Rule → Bool
has_rule name [] = false
has_rule name (r ∷ rs) = if str_eq name r.name then true else has_rule name rs

unfoldable pub add_rule : Role → Rule → Role × Bool
add_rule s r =
    if has_rule r.name s.rules then (s, false) else (record s { rules = s.rules ++ r ∷ [] }, true)
