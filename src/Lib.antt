-- ===== src/Lib.antt =====
-- streaming-server lets the users of a room watch streams together. A browser connects to a room (a
-- namespace) over a websocket and sends chat commands; roles decide who may run which. Each user has
-- a queue of streams, the room's queue serves the users in turn, and a timer counts the seconds of
-- the stream that plays. A registry holds the streams until nothing refers to them.
--
-- Where each part stands, and what its state and operations are in the code:
--   Queue         pkg/playback/queue/queue.go. `Queue.Item` has the items and the users' queues, which
--                 the code shares through pointers: a heap leads from a pointer to a queue.
--                 `Queue.Schema` has QueueSchema and the bounded Push, `Queue.Reorder` has Reorder, and
--                 `Queue.RoundRobin` has RoundRobinQueueSchema. `Queue.RoundRobin.Rotation` has the
--                 abstract view: the list of the users' queues from the one whose turn is next.
--   Rbac          pkg/socket/cmd/rbac. Rules, roles, bindings, the authorizer, RuleByAction, and the
--                 format of the auth cookie. A subject is its id.
--   Commands      pkg/socket/cmd/handler.go, command.go, util and the files of the commands. The table of
--                 commands, the handlers with and without access control, the default roles, and the
--                 role, queue, stream and chat commands, queue and stream on the playback of the user's
--                 room. `Commands.Chat` has the user, whoami, volume, clear, debug and help commands. For
--                 the handlers, what a command does is a parameter.
--   Sessions      pkg/socket/util/util.go. The roles of a new connection, and the cookie of a request.
--   Api           pkg/api/endpoint/auth.go. The requests that save the roles of a connection in the
--                 cookie and bind them again.
--   Connections   pkg/socket/connection. The rooms and their members. The generator of ids is a
--                 parameter.
--   Clients       pkg/socket/client, pkg/validation, and UpdateClientUsername of pkg/socket/util.
--   Streams       pkg/stream/stream.go, handler.go, reaper.go. References, NewStream and the reaper.
--                 The parsing of urls, the table of mime types and the file system are parameters.
--   Playback      pkg/playback. The timer, its channel and its goroutines; the choice of a new admin, one
--                 round of the loop at a time; `Playback.Room`, the stream of a room, its queue and the
--                 references to streams; `Playback.Handler`, the rooms' playbacks and their reaper.
--   Socket        pkg/socket/handler.go, pkg/socket/server/server.go. The server as a whole: the admission
--                 and the end of connections, the requests of clients, chat messages, and the callback
--                 of a room's timer. `Socket.Connect.Steps` lets all this happen in any order.
--   Base          The names that the modules share: tests on numbers, lists, outcomes, strings, maps.
--
-- How the model reads the code. A call of a method is a function from the state to the state and an
-- outcome: a value, an error value, a panic, or no end within the fuel. A loop over a list is
-- structural recursion. Next of the round-robin queue calls itself, on fuel: it is given one round
-- more than there are queues, and each round but the last deletes a queue. Integers that count items,
-- seconds or nanoseconds are unbounded natural numbers, and an index that a user gives is an integer.
-- A string is the list of its bytes. A map with string keys is an association list, whose order
-- stands for one order of iteration. Goroutines are steps of a relation, in any order.
--
-- Not modelled: the JSON encoding, the websocket and HTTP libraries and the calls of other web
-- services (what FetchMetadata finds, and its callbacks), log messages, and the texts of messages to
-- users. The endpoints of the web API other than `/auth`, the paths of the HTTP server and the
-- subtitles command are not part of the development yet.
pub mod Base
pub mod Queue
pub mod Rbac
pub mod Playback
pub mod Commands
pub mod Connections
pub mod Clients
pub mod Streams
pub mod Sessions
pub mod Socket
pub mod Api
