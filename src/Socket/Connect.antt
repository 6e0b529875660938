-- ===== src/Socket/Connect.antt =====
-- pkg/socket/server/server.go, pkg/socket/handler.go: how a connection comes and goes.
pub mod Sound
pub mod Admitted
pub mod Arrived
pub mod Closed
pub mod Swept
pub mod Steps
pub mod Left
mod Tests
use streaming_server.Base.{
  ℕ, Bool, List, [], ◌∷◌, Option, none, some, if◌then◌else◌, length, ltb, Outcome, ok, err, panic,
  diverges,
}
use streaming_server.Base.Text.{Str, codes}
use streaming_server.Base.Split.{split_text}
use streaming_server.Base.Dict.{Dict, lookup, insert}
use streaming_server.Queue.Item.{Heap}
use streaming_server.Rbac.Binding.{RoleBinding, remove_subject}
use streaming_server.Rbac.Authorizer.{Authorizer}
use streaming_server.Commands.Role.{at_binding}
use streaming_server.Connections.{
  Connections, namespace, new_connection, ensure, join, delete_connection,
}
use streaming_server.Clients.{Client, create_client, destroy_client, get_username_or_id}
use streaming_server.Playback.Timer
use streaming_server.Playback.Room.{Playback, get_status}
use streaming_server.Playback.Room.Departure.{handle_disconnection}
use streaming_server.Playback.Handler.{create_playback}
use streaming_server.Socket.{
  Server, clients_of, with_clients, playbacks_of, with_playbacks, room_of, Sent, to, from, all,
  info_clientjoined, info_clientleft, streamload, Handled,
}

-- The callback that RegisterClient gives to OnTick.
abbrev pub tick_callback : ℕ
tick_callback = 0

abbrev pub with_playback : Server → Str → Playback → Server
with_playback s name p = record s { playbacks = insert name p s.playbacks }

-- What the new client is sent of the stream that plays.
load_messages : (Option Str → Str) → Server → Playback → Str → List Sent
load_messages sources s p conn = elim p.stream [
  | none ↦ []
  | some _ ↦ to conn (streamload (get_status sources (room_of s p))) ∷ []
]

module _ (heap : Heap) (sources : Option Str → Str) where
  -- The end of RegisterClient, for the name of the client's room.
  in_room : Server → Str → Str → ℕ → Handled
  unfolding load_messages
  in_room s conn [] now = (s, from conn (info_clientjoined conn) ∷ [], ok tt)
  in_room s conn (c ∷ cs) now = elim (lookup (c ∷ cs) s.playbacks) [
    | some p ↦
        let p' : Playback = record p { last_updated = now } in
        (
          with_playback s (c ∷ cs) p',
          from conn (info_clientjoined conn) ∷ load_messages sources s p' conn,
          ok tt,
        )
    | none ↦
        let (ps, o) = create_playback heap (playbacks_of s) (c ∷ cs) now in
        elim o [
          | ok p ↦ (
            with_playback (with_playbacks s ps) (c ∷ cs)
                (record p { timer = Timer.on_tick p.timer tick_callback }),
            from conn (info_clientjoined conn) ∷ [],
            ok tt,
          )
          | err e ↦ absurd e
          | panic ↦ (s, from conn (info_clientjoined conn) ∷ [], panic)
          | diverges ↦ (s, from conn (info_clientjoined conn) ∷ [], diverges)
        ]
  ]

  -- BroadcastFrom panics where the client has no namespace.
  unfoldable pub register_client : Server → Str → ℕ → Handled
  unfolding in_room
  register_client s conn now =
      let s' = with_clients s (create_client (clients_of s) conn) in
      elim (namespace s'.connections conn) [
        | none ↦ (s', [], panic)
        | some n ↦ in_room s' conn n.name now
      ]

-- NamespaceFromRequest, and the lobby where it fails.
abbrev default_namespace : Str
default_namespace = codes "lobby"

second_part : List Str → Str
second_part [] = default_namespace
second_part (a ∷ []) = default_namespace
second_part (a ∷ b ∷ more) = b

unfoldable pub namespace_from_request : Str → Str
unfolding second_part
namespace_from_request url = second_part (split_text (codes "/v/") url)

module _ (generate_uuid : ℕ → Str) (heap : Heap) (sources : Option Str → Str) where
  -- ServeHTTP admits a connection, whose id is `conn`, to the room of the given name.
  unfoldable pub admit : Server → Str → Str → ℕ → Handled
  admit s room conn now =
      let (cs, n) = ensure generate_uuid s.connections room in
      let joined = join generate_uuid (new_connection cs conn) conn n.name in
      register_client heap sources (record s { connections = joined }) conn now

  unfoldable pub serve : Server → Str → Str → ℕ → Handled
  serve s url conn now = admit s (namespace_from_request url) conn now

-- RemoveSubject on every binding.
abbrev pub without_subject : Option Authorizer → Str → Option Authorizer
without_subject none conn = none
without_subject (some a) conn = some (record a {
  bindings_by_role_name =
      at_binding (λ b. (remove_subject b conn).0) (λ b. Bool.true) a.bindings_by_role_name;
})

-- DeregisterClient; its error is logged.
abbrev pub deregister_client : Server → Str → Server
deregister_client s conn = with_clients s (destroy_client (clients_of s) conn).0

-- The callback of "disconnection". HandleDisconnection is called also where there is no playback, and
-- panics there.
left_room : Server → Str → Str → Str → ℕ → Handled
left_room s conn user name now = elim (lookup name s.playbacks) [
  | none ↦ (s, from conn (info_clientleft conn user) ∷ [], panic)
  | some p ↦
      let p' = handle_disconnection (record p { last_updated = now }) conn s.authorizer now in
      let s' =
        with_playback (record s { authorizer = without_subject s.authorizer conn }) name p' in
      (deregister_client s' conn, from conn (info_clientleft conn user) ∷ [], ok tt)
]

unfoldable pub disconnect : Server → Str → ℕ → Handled
unfolding left_room
disconnect s conn now = elim (lookup conn s.clients_by_id) [
  | none ↦ (deregister_client s conn, [], ok tt)
  | some c ↦ elim (namespace s.connections conn) [
    | none ↦ (s, [], panic)
    | some n ↦ left_room s conn (get_username_or_id c) n.name now
  ]
]

closed : Str → Handled → Handled
closed conn (s, sent, ok _) =
    (record s { connections = delete_connection s.connections conn }, sent, ok tt)
closed conn (s, sent, err e) = (s, sent, err e)
closed conn (s, sent, panic) = (s, sent, panic)
closed conn (s, sent, diverges) = (s, sent, diverges)

-- HandleConnection at the end of a connection.
unfoldable pub close : Server → Str → ℕ → Handled
unfolding closed
close s conn now = closed conn (disconnect s conn now)
