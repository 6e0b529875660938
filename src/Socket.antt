-- ===== src/Socket.antt =====
-- pkg/socket/handler.go and pkg/socket/server/server.go: the state of the server, and what it sends to
-- its clients. The JSON encoding and the log messages are left out.
pub mod Connect
pub mod Requests
pub mod Chat
pub mod Tick
use streaming_server.Base.{
  ℕ, Bool, List, [], ◌∷◌, Option, none, some, Outcome, ok, err, panic, diverges,
}
use streaming_server.Base.Text.{Str}
use streaming_server.Base.Dict.{Dict, lookup, insert}
use streaming_server.Queue.Item.{QueueItem}
use streaming_server.Rbac.Authorizer.{Authorizer}
use streaming_server.Connections.{Connections, namespace}
use streaming_server.Clients.{Client, Clients, ClientError}
use streaming_server.Streams.{Streams}
use streaming_server.Commands.Handler.{CommandError}
use streaming_server.Playback.Room.{Room, Playback, PlaybackStatus}
use streaming_server.Playback.Handler.{Playbacks}

-- What the handlers of the clients, the rooms, the playbacks and the streams hold.
pub record Server : Type 0 where
  pub clients_by_id : Dict Client
  pub connections : Connections
  pub authorizer : Option Authorizer
  pub playbacks : Dict Playback
  pub streams : Streams

abbrev pub clients_of : Server → Clients
clients_of s = record { clients_by_id = s.clients_by_id; connections = s.connections }

abbrev pub with_clients : Server → Clients → Server
with_clients s c = record s { clients_by_id = c.clients_by_id; connections = c.connections }

abbrev pub playbacks_of : Server → Playbacks
playbacks_of s = record {
  playbacks = s.playbacks;
  streams = s.streams;
  connections = s.connections;
}

abbrev pub with_playbacks : Server → Playbacks → Server
with_playbacks s p = record s {
  playbacks = p.playbacks;
  streams = p.streams;
  connections = p.connections;
}

-- The playback of a room, and what the server is after a change of it.
abbrev pub room_of : Server → Playback → Room
room_of s p = record { playback = p; streams = s.streams }

abbrev pub with_room : Server → Str → Room → Server
with_room s name r = record s {
  playbacks = insert name r.playback s.playbacks;
  streams = r.streams;
}

pub data SocketError : Type 0 where
  no_room no_playback : SocketError
  no_message not_text : SocketError
  client_error : ClientError → SocketError

pub record SerializableClient : Type 0 where
  pub username : Str
  pub id : Str
  pub room : Str
  pub roles : List Str

pub data Message : Type 0 where
  info_clientjoined : Str → Message
  info_clientleft : Str → Str → Message
  info_clienterror : SocketError → Message
  streamload streamsync : PlaybackStatus → Message
  queuesync stacksync : List QueueItem → Message
  userlist : List SerializableClient → Message
  authorization : Str → Message
  system_message : Str → Message
  chat_error : SocketError → Message
  command_error : CommandError → Message
  chatmessage : Str → List Str → Message

-- Whom a client sends to: itself, the rest of its room, or the whole room.
pub data Sent : Type 0 where
  to from all : Str → Message → Sent

abbrev pub Handled : Type 0
Handled = Server × List Sent × Outcome SocketError (Unit {0})

-- getPlaybackFromClient.
unfoldable pub get_playback_from_client : Server → Str → Outcome SocketError Playback
get_playback_from_client s conn = elim (namespace s.connections conn) [
  | none ↦ err no_room
  | some n ↦ elim (lookup n.name s.playbacks) [ none ↦ err no_playback | some p ↦ ok p ]
]
