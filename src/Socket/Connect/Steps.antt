-- ===== src/Socket/Connect/Steps.antt =====
-- pkg/socket/handler.go, pkg/playback/reaper.go: connections that come and go, the reaper and what
-- changes the playback of a room, in any order.
use streaming_server.Base.{
  ℕ, true, [], ◌≡◌, ◌≢◌, ◌⊎◌, inl, inr, refl, sym, ap, ◌∙◌, arith, Option, some, Bool-cases,
  Option-cases, ok, subst,
}
use streaming_server.Base.Text.{Str, str_eq, str_eq_iff, str_eq_refl}
use streaming_server.Base.Dict.{lookup, insert, lookup-insert}
use streaming_server.Queue.Item.{Heap}
use streaming_server.Queue.RoundRobin.Singles.{HoldsStreams}
use streaming_server.Rbac.Authorizer.{Authorizer}
use streaming_server.Connections.{ns, namespace, delete_connection}
use streaming_server.Connections.Steps.{no_connections}
use streaming_server.Streams.{Streams}
use streaming_server.Connections.Members.{is_some}
use streaming_server.Clients.{Client, create_client, destroy_client}
use streaming_server.Playback.Room.{Playback}
use streaming_server.Playback.Handler.Reaper.{reap}
use streaming_server.Socket.{Server, playbacks_of, with_playbacks}
use streaming_server.Socket.Connect.{
  admit, serve, namespace_from_request, close, closed, disconnect, left_room,
}
use streaming_server.Socket.Connect.Sound.{IsPresent, IsSound, insert-Named}
use streaming_server.Socket.Connect.Arrived.{admit-IsSound}
use streaming_server.Socket.Connect.Closed.{close-after_close, after_close-IsSound}
use streaming_server.Socket.Connect.Swept.{swept-IsSound}
use streaming_server.Socket.Connect.Admitted.{
  ns-joined, admit-Opens, Named-at, nameless-insert, kept-insert,
}

close-IsSound : (s : Server) (conn : Str) (now : ℕ) → IsSound s → IsSound (close s conn now).0
unfolding close closed disconnect left_room destroy_client delete_connection
close-IsSound s conn now w = elim (Option-cases (lookup conn s.clients_by_id)) [
  | inl unknown ↦
      rw (unknown, disconnect)
        (rw (unknown, destroy_client)
          (record {
            rooms = w.rooms;
            playbacks = w.playbacks;
            nameless = w.nameless;
            present = w.present;
          }))
  | inr (c, known) ↦ elim (Option-cases (namespace s.connections conn)) [
    | inl outside ↦ rw (known, disconnect) (rw outside w)
    | inr (n, inside) ↦ elim (Option-cases (lookup n.name s.playbacks)) [
      | inl silent ↦ rw (known, disconnect) (rw inside (rw (silent, left_room) w))
      | inr (p, playing) ↦
          subst IsSound (sym (close-after_close s conn c n p now known inside playing).0)
            (after_close-IsSound s conn c n p now known inside playing w)
    ]
  ]
]

-- The playback of a room, and the name of a client, change.
changed-IsSound :
    (s : Server) (name : Str) (p p' : Playback) (h : Streams)
    → lookup name s.playbacks ≡ some p
    → p'.name ≡ p.name
    → HoldsStreams p'.queue.heap
    → IsSound s
    → IsSound (record s { playbacks = insert name p' s.playbacks; streams = h })
changed-IsSound s name p p' h found same hs w =
    let (at, _) = Named-at s.playbacks name p w.playbacks found in
    let filled : name ≢ [] = (λ e. cc (found, ap (λ k. lookup k s.playbacks) e, w.nameless)) in
    record {
      rooms = w.rooms;
      playbacks = insert-Named name p' s.playbacks (same ∙ at) hs w.playbacks;
      nameless = nameless-insert name p' s.playbacks w.nameless filled;
      present = λ c known ne.
          let (member, there) = w.present c known ne in
          (member, kept-insert name p' s.playbacks (ns s.connections c) there);
    }

renamed-IsSound :
    (s : Server) (conn : Str) (c c' : Client)
    → lookup conn s.clients_by_id ≡ some c
    → IsSound s
    → IsSound (record s { clients_by_id = insert conn c' s.clients_by_id })
renamed-IsSound s conn c c' found w = record {
  rooms = w.rooms;
  playbacks = w.playbacks;
  nameless = w.nameless;
  present = λ d known ne. w.present d (was_known d known) ne;
}
  where
    was_known :
        (d : Str)
        → is_some (lookup d (insert conn c' s.clients_by_id)) ≡ true
        → is_some (lookup d s.clients_by_id) ≡ true
    was_known d known = elim (Bool-cases (str_eq conn d)) [
      | inl hit ↦
          ap (λ k. is_some (lookup k s.clients_by_id)) (sym ((str_eq_iff conn d).0 hit))
          ∙ ap is_some found
      | inr miss ↦
          let same : lookup d (insert conn c' s.clients_by_id) ≡ lookup d s.clients_by_id =
            lookup-insert conn d c' s.clients_by_id ∙ rw miss refl in
          ap is_some (sym same) ∙ known
    ]

-- The steps of the server. What commands, events and ticks do to a room keeps its name, and the users'
-- queues hold streams; roles are bound in any way.
pub data Step (generate_uuid : ℕ → Str) (heap : Heap) (sources : Option Str → Str) (s : Server)
    : Server → Type 0 where
  admits :
      (room conn : Str) (now : ℕ)
      → Step generate_uuid heap sources s (admit generate_uuid heap sources s room conn now).0
  closes : (conn : Str) (now : ℕ) → Step generate_uuid heap sources s (close s conn now).0
  sweeps :
      (now : ℕ) → Step generate_uuid heap sources s (with_playbacks s (reap now (playbacks_of s)).0)
  changes :
      (name : Str) (p p' : Playback) (h : Streams)
      → lookup name s.playbacks ≡ some p
      → p'.name ≡ p.name
      → HoldsStreams p'.queue.heap
      → Step generate_uuid heap sources s
          (record s { playbacks = insert name p' s.playbacks; streams = h })
  renames :
      (conn : Str) (c c' : Client)
      → lookup conn s.clients_by_id ≡ some c
      → Step generate_uuid heap sources s
          (record s { clients_by_id = insert conn c' s.clients_by_id })
  binds : (a : Option Authorizer) → Step generate_uuid heap sources s (record s { authorizer = a })

abbrev pub empty_server : Streams → Option Authorizer → Server
empty_server h a = record {
  clients_by_id = [];
  connections = no_connections;
  authorizer = a;
  playbacks = [];
  streams = h;
}

pub data Reach (generate_uuid : ℕ → Str) (heap : Heap) (sources : Option Str → Str)
    : Server → Type 0 where
  start :
      (h : Streams) (a : Option Authorizer) → Reach generate_uuid heap sources (empty_server h a)
  later :
      {s t : Server}
      → Reach generate_uuid heap sources s
      → Step generate_uuid heap sources s t
      → Reach generate_uuid heap sources t

module _ (generate_uuid : ℕ → Str) (heap : Heap) (sources : Option Str → Str)
    (empty : HoldsStreams heap) where
  Step-IsSound : (s t : Server) → Step generate_uuid heap sources s t → IsSound s → IsSound t
  Step-IsSound s _ (admits room conn now) w =
      (admit-IsSound generate_uuid heap sources empty s room conn now w).0
  Step-IsSound s _ (closes conn now) w = close-IsSound s conn now w
  Step-IsSound s _ (sweeps now) w = swept-IsSound now s w
  Step-IsSound s _ (changes name p p' h found same hs) w =
      changed-IsSound s name p p' h found same hs w
  Step-IsSound s _ (renames conn c c' found) w = renamed-IsSound s conn c c' found w
  Step-IsSound s _ (binds a) w = record {
    rooms = w.rooms;
    playbacks = w.playbacks;
    nameless = w.nameless;
    present = w.present;
  }

  -- In every state that the server reaches, each namespace and each playback stands under its own
  -- name, no playback is without a name, and a client that has joined a room with a name is a member
  -- of it, and the room has a playback.
  pub Reach-IsSound : (s : Server) → Reach generate_uuid heap sources s → IsSound s
  unfolding lookup
  Reach-IsSound _ (start h a) = record {
    rooms = λ k n e. absurd (ground (arith, e));
    playbacks = tt;
    nameless = refl;
    present = λ c known ne. absurd (ne refl);
  }
  Reach-IsSound _ (later {s} {t} reach step) = Step-IsSound s t step (Reach-IsSound s reach)

  -- In every state that the server reaches, the admission of a connection succeeds: the client is
  -- known and has no name, it has joined the room of the url, and, if the room has a name, it is a
  -- member of the room, which has a playback.
  pub serve-IsPresent :
      (s : Server) (url conn : Str) (now : ℕ)
      → Reach generate_uuid heap sources s
      → ((serve generate_uuid heap sources s url conn now).2 ≡ ok tt)
        × (lookup conn (serve generate_uuid heap sources s url conn now).0.clients_by_id
            ≡ some (record { id = conn; usernames = [] }))
        × (ns (serve generate_uuid heap sources s url conn now).0.connections conn
            ≡ namespace_from_request url)
        × ((namespace_from_request url ≡ [])
            ⊎ IsPresent
                (serve generate_uuid heap sources s url conn now).0.connections
                (serve generate_uuid heap sources s url conn now).0.playbacks
                conn)
  unfolding serve create_client
  serve-IsPresent s url conn now reach =
      let room = namespace_from_request url in
      let w = Reach-IsSound s reach in
      let (w', _) = admit-IsSound generate_uuid heap sources empty s room conn now w in
      let (ends, cs, clients, _, _, _, _) =
        admit-Opens generate_uuid heap sources empty s room conn now w in
      let t = (admit generate_uuid heap sources s room conn now).0 in
      let known : lookup conn t.clients_by_id ≡ some (record { id = conn; usernames = [] }) =
        ap (lookup conn) clients
        ∙ lookup-insert conn conn (record { id = conn; usernames = [] }) s.clients_by_id
        ∙ rw (str_eq_refl conn) refl in
      let at : ns t.connections conn ≡ room =
        ap (λ x. ns x conn) cs
        ∙ ns-joined generate_uuid s.connections room conn conn w.rooms
        ∙ rw (str_eq_refl conn) refl in
      (
        ends,
        known,
        at,
        elim (Bool-cases (str_eq room [])) [
          | inl hit ↦ inl ((str_eq_iff room []).0 hit)
          | inr miss ↦ inr (
              w'.present conn (ap is_some known)
                (λ e. cc (miss, (str_eq_iff room []).1 (sym at ∙ e))))
        ],
      )
