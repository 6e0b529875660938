-- ===== src/Playback/Room/Departure.antt =====
-- pkg/playback/playback.go: HandleDisconnection.
use streaming_server.Base.{
  ℕ, Bool, false, List, [], ◌∷◌, ◌≡◌, ◌≢◌, Option, none, some, if◌then◌else◌, All,
}
use streaming_server.Base.Text.{Str, str_eq}
use streaming_server.Queue.Item.{QueueItem, uuid}
use streaming_server.Queue.RoundRobin.{delete_item}
use streaming_server.Queue.RoundRobin.Rotation.{IsWellFormed, rotation}
use streaming_server.Queue.RoundRobin.Delete.{without_queue}
use streaming_server.Rbac.Authorizer.{Authorizer, bindings}
use streaming_server.Rbac.Binding.{RoleBinding, is_bound}
use streaming_server.Sessions.{admin_role}
use streaming_server.Playback.Room.{Playback}

-- The first queue with the id of the connection.
unfoldable pub find_item : (QueueItem → Str) → Str → List QueueItem → Option QueueItem
find_item id k [] = none
find_item id k (x ∷ xs) = let rest = find_item id k xs in if str_eq (id x) k then some x else rest

unfoldable pub binding_of : Str → List RoleBinding → Option RoleBinding
binding_of name [] = none
binding_of name (b ∷ bs) =
    let rest = binding_of name bs in if str_eq b.role.name name then some b else rest

unfoldable pub is_admin : Option Authorizer → Str → Bool
is_admin none conn = false
is_admin (some a) conn = elim (binding_of admin_role (bindings a)) [
  | none ↦ false
  | some b ↦ is_bound conn b.subjects
]

unfoldable pub without_user : Playback → Str → Playback
without_user p conn = elim (find_item (uuid p.queue.heap) conn p.queue.items) [
  | none ↦ p
  | some x ↦ record p { queue = (delete_item p.queue x).0 }
]

unfoldable pub handle_disconnection : Playback → Str → Option Authorizer → ℕ → Playback
handle_disconnection p conn authorizer now =
    let p' = without_user p conn in
    if is_admin authorizer conn then record p' { last_admin_departure = some now } else p'

-- What the search comes to.
abbrev pub Finds : (QueueItem → Str) → Str → List QueueItem → Option QueueItem → Type 0
Finds id k xs none = All (λ x. id x ≢ k) xs
Finds id k xs (some x) = id x ≡ k

abbrev pub Leaves : Playback → Str → Playback → Type 0
Leaves p conn p' =
    IsWellFormed p'.queue × (rotation p'.queue ≡ without_queue conn (rotation p.queue))
