-- ===== src/Socket/Connect/Admitted.antt =====
-- pkg/socket/server/server.go, RegisterClient of pkg/socket/handler.go: the admission of a connection.
use streaming_server.Base.{
  ℕ, true, ◌&&◌, ◌||◌, [], ◌∷◌, ◌≡◌, ◌≢◌, inl, inr, refl, sym, ap, ◌∙◌, arith, Option, none, some,
  if◌then◌else◌, Bool-cases, Option-cases, ok, subst,
}
use streaming_server.Base.Text.{Str, str_eq, str_eq_iff, str_eq_refl}
use streaming_server.Base.Dict.{Dict, lookup, insert, lookup-insert}
use streaming_server.Queue.Item.{Heap}
use streaming_server.Queue.RoundRobin.{new_round_robin_queue}
use streaming_server.Queue.RoundRobin.Singles.{HoldsStreams}
use streaming_server.Connections
use streaming_server.Connections.{
  Connections, Namespace, ns, namespace, ensure, new_connection, join, add_to_namespace,
}
use streaming_server.Connections.Members.{is_some, is_member, is_member-ensure, is_member-join}
use streaming_server.Clients.{create_client}
use streaming_server.Playback.Timer
use streaming_server.Playback.Room.{Playback, new_playback}
use streaming_server.Playback.Handler.{create_playback}
use streaming_server.Playback.Handler.Reaper.{Named}
use streaming_server.Socket.{Server, clients_of, with_clients, Handled}
use streaming_server.Socket.Connect.{in_room, register_client, admit, tick_callback}
use streaming_server.Socket.Connect.Sound.{
  AllNamed, IsSound, insert-Named, ensure-AllNamed, add_to_namespace-AllNamed,
}

-- The call succeeds, the playbacks are those before, perhaps changed, and the room has one.
abbrev pub Opens : Server → Str → Handled → Type 0
Opens s name (r, _, o) =
    (o ≡ ok tt)
    × (r.connections ≡ s.connections)
    × (r.clients_by_id ≡ s.clients_by_id)
    × Named r.playbacks
    × (lookup [] r.playbacks ≡ none)
    × (name ≢ [] → is_some (lookup name r.playbacks) ≡ true)
    × ((k : Str) → is_some (lookup k s.playbacks) ≡ true → is_some (lookup k r.playbacks) ≡ true)

-- A playback that is put under a name that is not empty.
module _ (name : Str) (p : Playback) (m : Dict Playback) where
  pub nameless-insert : lookup [] m ≡ none → name ≢ [] → lookup [] (insert name p m) ≡ none
  nameless-insert e ne = elim (Bool-cases (str_eq name [])) [
    | inl hit ↦ absurd (ne ((str_eq_iff name []).0 hit))
    | inr miss ↦ lookup-insert name [] p m ∙ rw miss e
  ]

  pub there-insert : is_some (lookup name (insert name p m)) ≡ true
  there-insert = rw (lookup-insert name name p m) (rw (str_eq_refl name) refl)

  pub kept-insert :
      (k : Str) → is_some (lookup k m) ≡ true → is_some (lookup k (insert name p m)) ≡ true
  kept-insert k there = elim (Bool-cases (str_eq name k)) [
    | inl hit ↦ rw (lookup-insert name k p m) (rw hit refl)
    | inr miss ↦ rw (lookup-insert name k p m) (rw miss there)
  ]

pub Named-at :
    (m : Dict Playback) (k : Str) (p : Playback)
    → Named m
    → lookup k m ≡ some p
    → (p.name ≡ k) × HoldsStreams p.queue.heap
unfolding lookup
Named-at [] k p n e = absurd (ground (arith, e))
Named-at ((j, q) ∷ m) k p (name, once, hs, n) e = elim (Bool-cases (str_eq j k)) [
  | inl hit ↦
      let same : q ≡ p = ground (arith, e, hit) in
      (
        sym (ap (λ (x : Playback). x.name) same) ∙ name ∙ (str_eq_iff j k).0 hit,
        subst (λ (x : Playback). HoldsStreams x.queue.heap) same hs,
      )
  | inr miss ↦ Named-at m k p n (rw miss at e)
]

module _ (heap : Heap) (sources : Option Str → Str) (empty : HoldsStreams heap) where
  in_room-Opens :
      (s : Server) (conn name : Str) (now : ℕ)
      → Named s.playbacks
      → lookup [] s.playbacks ≡ none
      → Opens s name (in_room heap sources s conn name now)
  unfolding in_room create_playback new_playback new_round_robin_queue
  in_room-Opens s conn [] now n e =
      (refl, refl, refl, n, e, (λ ne. absurd (ne refl)), (λ k there. there))
  in_room-Opens s conn (c ∷ cs) now n e = elim (Option-cases (lookup (c ∷ cs) s.playbacks)) [
    | inr (p, found) ↦
        let (name, hs) = Named-at s.playbacks (c ∷ cs) p n found in
        let p' : Playback = record p { last_updated = now } in
        rw (found, in_room)
          (
            refl,
            refl,
            refl,
            insert-Named (c ∷ cs) p' s.playbacks name hs n,
            nameless-insert (c ∷ cs) p' s.playbacks e (λ eq. cc eq),
            (λ ne. there-insert (c ∷ cs) p' s.playbacks),
            kept-insert (c ∷ cs) p' s.playbacks,
          )
    | inl missing ↦
        let p = new_playback heap (c ∷ cs) now in
        let p' : Playback = record p { timer = Timer.on_tick p.timer tick_callback } in
        let m = insert (c ∷ cs) p s.playbacks in
        rw (missing, in_room)
          (
            refl,
            refl,
            refl,
            insert-Named (c ∷ cs) p' m refl empty
                (insert-Named (c ∷ cs) p s.playbacks refl empty n),
            nameless-insert (c ∷ cs) p' m (nameless-insert (c ∷ cs) p s.playbacks e (λ eq. cc eq))
                (λ eq. cc eq),
            (λ ne. there-insert (c ∷ cs) p' m),
            (λ k there. kept-insert (c ∷ cs) p' m k (kept-insert (c ∷ cs) p s.playbacks k there)),
          )
  ]

  register_client-Opens :
      (s : Server) (conn : Str) (now : ℕ) (n : Namespace)
      → namespace s.connections conn ≡ some n
      → Named s.playbacks
      → lookup [] s.playbacks ≡ none
      → Opens
          (with_clients s (create_client (clients_of s) conn))
          n.name
          (register_client heap sources s conn now)
  unfolding register_client create_client
  register_client-Opens s conn now n found named e =
      rw (found, register_client)
        (in_room-Opens (with_clients s (create_client (clients_of s) conn)) conn n.name now named e)

abbrev pub room_name : Option Str → Str
room_name o = elim o [ none ↦ [] | some room ↦ room ]

module _ (generate_uuid : ℕ → Str) where
  ensure-there :
      (s : Connections) (name : Str)
      → is_some (lookup name (ensure generate_uuid s name).0.ns_by_name) ≡ true
  unfolding ensure
  ensure-there s name = elim (Option-cases (lookup name s.ns_by_name)) [
    | inl missing ↦
        rw (missing, ensure)
          (rw
            (lookup-insert name name
              (record { name = name; id = generate_uuid s.fresh; connections = [] }) s.ns_by_name)
            (rw (str_eq_refl name) refl))
    | inr (n, found) ↦ rw (found, ensure) (rw found refl)
  ]

  add-there :
      (s : Connections) (room conn : Str)
      → is_some (lookup room s.ns_by_name) ≡ true
      → is_some (lookup room (add_to_namespace generate_uuid s room conn).ns_by_name) ≡ true
  unfolding add_to_namespace
  add-there s [] conn there = there
  add-there s (x ∷ xs) conn there =
      let found = ensure generate_uuid s (x ∷ xs) in
      rw (lookup-insert (x ∷ xs) (x ∷ xs) (Connections.add found.1 conn).0 found.0.ns_by_name)
        (rw (str_eq_refl (x ∷ xs)) refl)

  -- The connection handlers after ServeHTTP has admitted a connection to the room.
  abbrev pub joined : Connections → Str → Str → Connections
  joined s room conn =
      join generate_uuid (new_connection (ensure generate_uuid s room).0 conn) conn room

  pub joined-AllNamed :
      (s : Connections) (room conn : Str)
      → AllNamed s.ns_by_name
      → AllNamed (joined s room conn).ns_by_name
  unfolding join new_connection
  joined-AllNamed s room conn h =
      let (named, name, same) = ensure-AllNamed generate_uuid s room h in
      let cs = new_connection (ensure generate_uuid s room).0 conn in
      (add_to_namespace-AllNamed generate_uuid (record cs { joined = insert conn room cs.joined })
        room conn named).0

  pub ns-joined :
      (s : Connections) (room conn c : Str)
      → AllNamed s.ns_by_name
      → ns (joined s room conn) c ≡ (if str_eq conn c then room else ns s c)
  unfolding join new_connection
  ns-joined s room conn c h =
      let (named, name, same) = ensure-AllNamed generate_uuid s room h in
      let cs = new_connection (ensure generate_uuid s room).0 conn in
      let cs' : Connections = record cs { joined = insert conn room cs.joined } in
      let all = (add_to_namespace-AllNamed generate_uuid cs' room conn named).1 in
      elim (Bool-cases (str_eq conn c)) [
        | inl hit ↦
            let at : lookup c (joined s room conn).joined ≡ some room =
              ap (lookup c) all ∙ lookup-insert conn c room cs.joined ∙ rw hit refl in
            ap room_name at ∙ rw hit refl
        | inr miss ↦
            let at : lookup c (joined s room conn).joined ≡ lookup c s.joined =
              ap (lookup c) all
              ∙ lookup-insert conn c room cs.joined
              ∙ rw miss (
                  lookup-insert conn c [] (ensure generate_uuid s room).0.joined
                  ∙ rw miss (ap (lookup c) same)) in
            ap room_name at ∙ rw miss refl
      ]

  namespace-joined :
      (s : Connections) (room conn : Str)
      → AllNamed s.ns_by_name
      → is_some (namespace (joined s room conn) conn) ≡ true
  unfolding namespace join new_connection
  namespace-joined s room conn h =
      let cs = new_connection (ensure generate_uuid s room).0 conn in
      let there =
        add-there (record cs { joined = insert conn room cs.joined }) room conn
          (ensure-there s room) in
      let at : ns (joined s room conn) conn ≡ room =
        ns-joined s room conn conn h ∙ rw (str_eq_refl conn) refl in
      subst (λ k. is_some (lookup k (joined s room conn).ns_by_name) ≡ true) (sym at) there

  pub is_member-joined :
      (s : Connections) (room conn r c : Str)
      → room ≢ []
      → is_member (joined s room conn) r c ≡ ((str_eq room r && str_eq conn c) || is_member s r c)
  unfolding new_connection
  is_member-joined s room conn r c ne =
      is_member-join generate_uuid (new_connection (ensure generate_uuid s room).0 conn) conn room r
        c ne
      ∙ ap (λ b. (str_eq room r && str_eq conn c) || b) (is_member-ensure generate_uuid s room r c)

  pub is_member-lobby :
      (s : Connections) (conn r c : Str) → is_member (joined s [] conn) r c ≡ is_member s r c
  unfolding join new_connection add_to_namespace
  is_member-lobby s conn r c = is_member-ensure generate_uuid s [] r c

-- A connection is admitted to a room.
module _ (generate_uuid : ℕ → Str) (heap : Heap) (sources : Option Str → Str)
    (empty : HoldsStreams heap) (s : Server) (room conn : Str) (now : ℕ) (w : IsSound s) where
  abbrev before : Server
  before = record s { connections = joined generate_uuid s.connections room conn }

  admit-register :
      admit generate_uuid heap sources s room conn now
      ≡ register_client heap sources before conn now
  unfolding admit
  admit-register =
      ap
        (λ k.
          register_client heap sources
            (record s {
              connections =
                  join generate_uuid
                    (new_connection (ensure generate_uuid s.connections room).0 conn) conn k;
            })
            conn now)
        (ensure-AllNamed generate_uuid s.connections room w.rooms).1

  room_found : (n : Namespace) × (namespace before.connections conn ≡ some n) × (n.name ≡ room)
  unfolding namespace
  room_found = elim (Option-cases (namespace before.connections conn)) [
    | inl missing ↦
        absurd (cc (namespace-joined generate_uuid s.connections room conn w.rooms, missing))
    | inr (n, found) ↦ (
      n,
      found,
      joined-AllNamed generate_uuid s.connections room conn w.rooms (ns before.connections conn) n
            found
          ∙ ns-joined generate_uuid s.connections room conn conn w.rooms
          ∙ rw (str_eq_refl conn) refl,
    )
  ]

  pub admit-Opens :
      Opens
        (with_clients before (create_client (clients_of before) conn))
        room
        (admit generate_uuid heap sources s room conn now)
  admit-Opens =
      let (n, found, name) = room_found in
      subst (Opens (with_clients before (create_client (clients_of before) conn)) room)
        (sym admit-register)
        (subst
          (λ k.
            Opens (with_clients before (create_client (clients_of before) conn)) k
              (register_client heap sources before conn now))
          name
          (register_client-Opens heap sources empty before conn now n found w.playbacks w.nameless))
