-- ===== src/Playback/Admin.antt =====
-- pkg/playback/admin.go: the choice of a new admin for a room, one round of the loop at a time.
mod Tests
use streaming_server.Base.{
  ℕ, ◌-◌, ◌≤◌, Bool, true, false, ◌&&◌, List, [], ◌∷◌, ◌≡◌, ◌≢◌, ◌⊎◌, ap, ◌∙◌, Option, none, some,
  if◌then◌else◌, ltb, All, Any, ◌||◌,
}
use streaming_server.Base.Text.{Str, codes, str_eq}
use streaming_server.Base.Dict.{lookup}
use streaming_server.Rbac.Role.{Role}
use streaming_server.Rbac.Binding.{RoleBinding, is_bound, Unique}
use streaming_server.Rbac.Authorizer.{Authorizer, bindings, role, add_role, bind, IsUnique}
use streaming_server.Sessions.{admin_role}

-- A connection of the room and its creation timestamp.
pub record Member : Type 0 where
  pub id : Str
  pub created : ℕ

-- The loop of Pick.
unfoldable pub oldest : Member → List Member → Member
oldest p [] = p
oldest p (c ∷ cs) = if ltb c.created p.created then oldest c cs else oldest p cs

unfoldable pub pick : List Member → Option Member
pick [] = none
pick (c ∷ cs) = some (oldest c (c ∷ cs))

unfoldable pub find_admin : List Member → Str → Bool
find_admin [] subject = false
find_admin (c ∷ cs) subject = if str_eq c.id subject then true else find_admin cs subject

any_admin : List Member → List Str → Bool
any_admin cs [] = false
any_admin cs (s ∷ ss) = if find_admin cs s then true else any_admin cs ss

-- The loops over the bindings to the admin role and their subjects.
unfoldable pub has_admin : List Member → List RoleBinding → Bool
unfolding any_admin
has_admin cs [] = false
has_admin cs (b ∷ bs) =
    let rest = has_admin cs bs in
    if str_eq b.role.name admin_role && any_admin cs b.subjects then true else rest

-- SelectionTimePeriod, three minutes in nanoseconds.
abbrev pub selection_time_period : ℕ
selection_time_period = 180000000000

-- The last admin has left only lately.
abbrev pub is_recent : ℕ → Option ℕ → Bool
is_recent now none = false
is_recent now (some departed) = ltb (now - departed) selection_time_period

abbrev new_admin : Role
new_admin = record { name = admin_role; rules = [] }

elected : Authorizer → Member → Option Role → Authorizer
elected a p none = (bind (add_role a new_admin).0 new_admin (p.id ∷ [])).0
elected a p (some r) = (bind a r (p.id ∷ [])).0

-- A round: the authorizer that it leaves, and the connection that it elects.
unfoldable pub elect : ℕ → Option ℕ → Authorizer → List Member → Authorizer × Option Member
unfolding elected
elect now departed a cs = if is_recent now departed then (a, none) else elim (pick cs) [
  | none ↦ (a, none)
  | some p ↦
      if has_admin cs (bindings a) then (a, none) else (elected a p (role a admin_role), some p)
]

abbrev pub IsOldest : Member → List Member → Type 0
IsOldest p cs = All (λ (c : Member). p.created ≤ c.created) cs × Any (λ c. c ≡ p) cs

-- What the loop of Pick finds, from the pick so far.
abbrev Least : Member → List Member → Member → Type 0
Least p cs o =
    (o.created ≤ p.created)
    × All (λ (c : Member). o.created ≤ c.created) cs
    × ((o ≡ p) ⊎ Any (λ c. c ≡ o) cs)

-- The connection is bound to some role of the authorizer.
abbrev pub IsBound : Authorizer → Str → Type 0
IsBound a s =
    (name : Str) × (b : RoleBinding) × (lookup name a.bindings_by_role_name ≡ some b)
    × (is_bound s b.subjects ≡ true)
