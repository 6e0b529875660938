-- ===== src/Socket/Connect/Left.antt =====
-- pkg/socket/handler.go: what the end of a connection does in a state that the server reaches.
use streaming_server.Base.{
  ℕ, true, false, not, ◌&&◌, [], ◌∷◌, ◌≡◌, ◌≢◌, ◌⊎◌, inl, inr, refl, sym, ap, ◌∙◌, Option, none,
  some, Bool-cases, Option-cases, ok, panic, subst, All,
}
use streaming_server.Base.Text.{Str, str_eq, str_eq_iff, str_eq_refl}
use streaming_server.Base.Dict.{Dict, lookup, values, lookup-insert, lookup-delete}
use streaming_server.Queue.Item.{Heap}
use streaming_server.Queue.RoundRobin.Singles.{HoldsStreams}
use streaming_server.Rbac.Binding.{RoleBinding, is_bound, remove_subject, remove_subject_lem}
use streaming_server.Rbac.Authorizer.{Authorizer, bindings}
use streaming_server.Rbac.Unique.{AllUnique}
use streaming_server.Commands.Role.{at_binding}
use streaming_server.Connections.{Namespace, ns, namespace, delete_connection}
use streaming_server.Connections.Members.{
  is_some, is_member, in_namespace, is_member-remove_from_namespace,
}
use streaming_server.Clients.{Client}
use streaming_server.Playback.Room.{Playback}
use streaming_server.Playback.Room.Departure.{handle_disconnection}
use streaming_server.Socket.{Server, Handled}
use streaming_server.Socket.Connect.{close, closed, disconnect, left_room, without_subject}
use streaming_server.Socket.Connect.Sound.{IsSound}
use streaming_server.Socket.Connect.Closed.{close-after_close}
use streaming_server.Socket.Connect.Steps.{Reach, Reach-IsSound}

abbrev pub HasUnique : Option Authorizer → Type 0
HasUnique none = Unit
HasUnique (some a) = AllUnique a.bindings_by_role_name

-- No role is bound to the connection.
abbrev pub IsUnbound : Str → Option Authorizer → Type 0
IsUnbound conn none = Unit
IsUnbound conn (some a) = All (λ (b : RoleBinding). is_bound conn b.subjects ≡ false) (bindings a)

removed_each :
    (conn : Str) (m : Dict RoleBinding)
    → AllUnique m
    → All
        (λ (b : RoleBinding). is_bound conn b.subjects ≡ false)
        (values (at_binding (λ b. (remove_subject b conn).0) (λ b. true) m))
removed_each conn [] u = tt
removed_each conn ((k, b) ∷ m) (u, us) =
    let (_, bound, _, _) = remove_subject_lem b conn u in
    (bound conn ∙ rw (str_eq_refl conn) refl, removed_each conn m us)

without_subject-IsUnbound :
    (a : Option Authorizer) (conn : Str) → HasUnique a → IsUnbound conn (without_subject a conn)
unfolding bindings
without_subject-IsUnbound none conn u = tt
without_subject-IsUnbound (some a) conn u = removed_each conn a.bindings_by_role_name u

-- The connection has left the room of the name, and the server goes on.
abbrev pub Leaves : Server → Str → ℕ → Str → Handled → Type 0
Leaves s conn now name (t, _, o) =
    (o ≡ ok tt)
    × (lookup conn t.clients_by_id ≡ none)
    × ((room d : Str)
        → is_member t.connections room d
          ≡ (not (str_eq name room && str_eq conn d) && is_member s.connections room d))
    × IsUnbound conn t.authorizer
    × ((p : Playback) × (lookup name s.playbacks ≡ some p)
        × (lookup name t.playbacks
            ≡ some (handle_disconnection (record p { last_updated = now }) conn s.authorizer now)))

-- The server stops, as it was.
abbrev pub Panics : Server → Handled → Type 0
Panics s (t, _, o) = (o ≡ panic) × (t ≡ s)

left_room-Leaves :
    (s : Server) (conn : Str) (now : ℕ) (c : Client) (n : Namespace) (p : Playback)
    → HasUnique s.authorizer
    → lookup conn s.clients_by_id ≡ some c
    → namespace s.connections conn ≡ some n
    → lookup n.name s.playbacks ≡ some p
    → Leaves s conn now n.name (close s conn now)
unfolding delete_connection
left_room-Leaves s conn now c n p u known inside playing =
    let (same, ends) = close-after_close s conn c n p now known inside playing in
    let p' = handle_disconnection (record p { last_updated = now }) conn s.authorizer now in
    subst (λ (t : Server). Leaves s conn now n.name (t, (close s conn now).1, (close s conn now).2))
      (sym same)
      (
        ends,
        lookup-delete conn conn s.clients_by_id ∙ rw (str_eq_refl conn) refl,
        (λ room d. is_member-remove_from_namespace s.connections n.name conn room d),
        without_subject-IsUnbound s.authorizer conn u,
        (p, playing, lookup-insert n.name n.name p' s.playbacks ∙ rw (str_eq_refl n.name) refl),
      )

close-Panics :
    (s : Server) (conn : Str) (now : ℕ) (c : Client)
    → IsSound s
    → lookup conn s.clients_by_id ≡ some c
    → ns s.connections conn ≡ []
    → Panics s (close s conn now)
unfolding close closed disconnect left_room namespace
close-Panics s conn now c w known lobby = elim (Option-cases (namespace s.connections conn)) [
  | inl outside ↦ rw (known, disconnect) (rw outside (refl, refl))
  | inr (n, inside) ↦
      let silent : lookup n.name s.playbacks ≡ none =
        ap (λ k. lookup k s.playbacks) (w.rooms (ns s.connections conn) n inside ∙ lobby)
        ∙ w.nameless in
      rw (known, disconnect) (rw inside (rw (silent, left_room) (refl, refl)))
]

-- The room of a client, and its playback.
room_there :
    (s : Server) (conn : Str) (c : Client)
    → IsSound s
    → lookup conn s.clients_by_id ≡ some c
    → ns s.connections conn ≢ []
    → (n : Namespace) × (namespace s.connections conn ≡ some n)
      × (n.name ≡ ns s.connections conn)
      × ((p : Playback) × (lookup (ns s.connections conn) s.playbacks ≡ some p))
unfolding namespace
room_there s conn c w known filled =
    let k = ns s.connections conn in
    let (member, there) = w.present conn (ap is_some known) filled in
    elim (Option-cases (lookup k s.connections.ns_by_name)) [
      | inl missing ↦ absurd (cc (member, ap (in_namespace conn) missing))
      | inr (n, inside) ↦ elim (Option-cases (lookup k s.playbacks)) [
        | inl silent ↦ absurd (cc (there, silent))
        | inr (p, playing) ↦ (n, inside, w.rooms k n inside, (p, playing))
      ]
    ]

-- In a state that the server reaches, where no subject is bound twice, the end of the connection of a
-- client that has joined a room with a name succeeds: the client is gone, it has left the room, in
-- which and in all others everybody else stays, it is bound to no role, and the room's playback has
-- handled the disconnection. If the room's name is empty, it is a panic.
pub close-Leaves :
    (generate_uuid : ℕ → Str) (heap : Heap) (sources : Option Str → Str) (empty : HoldsStreams heap)
    (s : Server) (conn : Str) (now : ℕ) (c : Client)
    → Reach generate_uuid heap sources s
    → HasUnique s.authorizer
    → lookup conn s.clients_by_id ≡ some c
    → ((ns s.connections conn ≢ []) × Leaves s conn now (ns s.connections conn) (close s conn now))
      ⊎ ((ns s.connections conn ≡ []) × Panics s (close s conn now))
close-Leaves generate_uuid heap sources empty s conn now c reach u known =
    let w = Reach-IsSound generate_uuid heap sources empty s reach in
    elim (Bool-cases (str_eq (ns s.connections conn) [])) [
      | inl hit ↦
          let lobby = (str_eq_iff (ns s.connections conn) []).0 hit in
          inr (lobby, close-Panics s conn now c w known lobby)
      | inr miss ↦
          let filled : ns s.connections conn ≢ [] =
            (λ e. cc (miss, (str_eq_iff (ns s.connections conn) []).1 e)) in
          let (n, inside, name, (p, playing)) = room_there s conn c w known filled in
          inl (
            filled,
            subst (λ k. Leaves s conn now k (close s conn now)) name
                (left_room-Leaves s conn now c n p u known inside
                  (ap (λ k. lookup k s.playbacks) name ∙ playing)),
          )
    ]
