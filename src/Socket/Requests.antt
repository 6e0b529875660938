-- ===== src/Socket/Requests.antt =====
-- pkg/socket/handler.go: the events by which a client asks for the state of its room, for the users in
-- it, for its authorization and for another name. `streamdata`, which passes JSON data on to the
-- stream, is left out.
use streaming_server.Base.{
  List, [], ◌∷◌, ◌++◌, Option, none, some, if◌then◌else◌, Outcome, ok, err, panic, diverges,
}
use streaming_server.Base.Text.{Str, codes, str_eq}
use streaming_server.Base.Dict.{lookup}
use streaming_server.Queue.Item.{QueueItem, Result}
use streaming_server.Queue.RoundRobin.{serialize}
use streaming_server.Rbac.Binding.{RoleBinding}
use streaming_server.Rbac.Authorizer.{Authorizer, bindings}
use streaming_server.Connections.{namespace, connections}
use streaming_server.Clients.{ClientError, Clients, get_username, update_client_username}
use streaming_server.Playback.Room.{Playback, get_status}
use streaming_server.Playback.Util.{get_queue_for_id}
use streaming_server.Socket.{
  Server, clients_of, with_clients, room_of, get_playback_from_client, Handled, Sent, to,
  SocketError, no_room, client_error, SerializableClient, info_clienterror, streamsync, queuesync,
  stacksync, userlist, authorization,
}

-- What a message has under a key: nothing, a text, or another value.
pub data Field : Type 0 where
  missing other : Field
  text : Str → Field

-- What is done for the client of the connection with its playback; nothing if there is no client.
abbrev pub answered :
    Server
    → Str
    → Outcome SocketError Playback
    → (Playback → Outcome SocketError (List Sent))
    → Outcome SocketError (List Sent)
answered s conn (ok p) answer = answer p
answered s conn (err e) answer = ok (to conn (info_clienterror e) ∷ [])
answered s conn panic answer = panic
answered s conn diverges answer = diverges

unfoldable pub with_playback :
    Server → Str → (Playback → Outcome SocketError (List Sent)) → Outcome SocketError (List Sent)
with_playback s conn answer = elim (lookup conn s.clients_by_id) [
  | none ↦ ok []
  | some _ ↦ answered s conn (get_playback_from_client s conn) answer
]

-- An error of Serialize ends the call.
queue_message : Str → Result (List QueueItem) → Outcome SocketError (List Sent)
queue_message conn (ok xs) = ok (to conn (queuesync xs) ∷ [])
queue_message conn (err _) = ok []
queue_message conn panic = panic
queue_message conn diverges = diverges

unfoldable pub request_queuesync : Server → Str → Outcome SocketError (List Sent)
unfolding queue_message
request_queuesync s conn = with_playback s conn (λ p. queue_message conn (serialize p.queue))

stack_message : Playback → Str → Outcome SocketError (List Sent)
stack_message p conn = elim (get_queue_for_id p.queue.heap conn p.queue.items) [
  | ok found ↦ elim found [
    | none ↦ ok (to conn (stacksync []) ∷ [])
    | some a ↦ ok (to conn (stacksync (p.queue.heap a).items) ∷ [])
  ]
  | err _ ↦ ok []
  | panic ↦ panic
  | diverges ↦ diverges
]

unfoldable pub request_stacksync : Server → Str → Outcome SocketError (List Sent)
unfolding stack_message
request_stacksync s conn = with_playback s conn (λ p. stack_message p conn)

unfoldable pub request_streamsync :
    (Option Str → Str) → Server → Str → Outcome SocketError (List Sent)
request_streamsync sources s conn =
    with_playback s conn (λ p. ok (to conn (streamsync (get_status sources (room_of s p))) ∷ []))

-- BroadcastAuthRequestTo: the event of a client that the handler knows.
unfoldable pub request_authorization : Server → Str → List Sent
request_authorization s conn = elim (lookup conn s.clients_by_id) [
  | none ↦ []
  | some _ ↦ to conn (authorization (codes "init")) ∷ []
]

-- The loops over the bindings and their subjects.
role_times : Str → Str → List Str → List Str
role_times role conn [] = []
role_times role conn (u ∷ us) =
    let rest = role_times role conn us in if str_eq u conn then role ∷ rest else rest

unfoldable pub roles_of : Str → List RoleBinding → List Str
unfolding role_times
roles_of conn [] = []
roles_of conn (b ∷ bs) = role_times b.role.name conn b.subjects ++ roles_of conn bs

abbrev pub all_bindings : Option Authorizer → List RoleBinding
all_bindings none = []
all_bindings (some a) = bindings a

name_or_nothing : Option Str → Str
name_or_nothing none = []
name_or_nothing (some name) = name

-- The loop over the connections of the room; those without a client are passed over.
unfoldable pub user_list : Server → Str → List Str → List SerializableClient
unfolding name_or_nothing
user_list s room [] = []
user_list s room (conn ∷ more) =
    let rest = user_list s room more in
    elim (lookup conn s.clients_by_id) [
      | none ↦ rest
      | some c ↦
          record {
            username = name_or_nothing (get_username c);
            id = c.id;
            room = room;
            roles = roles_of conn (all_bindings s.authorizer);
          }
          ∷ rest
    ]

unfoldable pub request_userlist : Server → Str → List Sent
request_userlist s conn = elim (lookup conn s.clients_by_id) [
  | none ↦ []
  | some _ ↦ elim (namespace s.connections conn) [
    | none ↦ to conn (info_clienterror no_room) ∷ []
    | some n ↦ to conn (userlist (user_list s n.name (connections s.connections conn))) ∷ []
  ]
]

renamed : Server → Str → Clients × Outcome ClientError (Unit {0}) → Handled
renamed s conn (c, ok _) = (with_clients s c, [], ok tt)
renamed s conn (c, err e) =
    (with_clients s c, to conn (info_clienterror (client_error e)) ∷ [], ok tt)
renamed s conn (c, panic) = (with_clients s c, [], panic)
renamed s conn (c, diverges) = (with_clients s c, [], diverges)

-- Without a client, the error is sent to a nil client, which is a panic. The messages of
-- UpdateClientUsername itself are left out.
unfoldable pub request_updateusername : Server → Str → Field → Handled
unfolding renamed
request_updateusername s conn missing = (s, [], ok tt)
request_updateusername s conn other = (s, [], ok tt)
request_updateusername s conn (text name) = elim (lookup conn s.clients_by_id) [
  | none ↦ (s, [], panic)
  | some _ ↦ renamed s conn (update_client_username (clients_of s) conn name)
]
