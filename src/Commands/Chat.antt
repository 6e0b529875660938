-- ===== src/Commands/Chat.antt =====
-- pkg/socket/cmd/user.go, whoami.go, volume.go, clear.go, debug.go, help.go: the commands on the chat
-- and on a client's own settings. The texts of replies are data.
mod Tests
use streaming_server.Base.{
  List, [], ◌∷◌, ◌||◌, map, Option, none, some, if◌then◌else◌, ◌==◌, Outcome, ok, err, panic,
  diverges,
}
use streaming_server.Base.Text.{Str, codes, str_eq}
use streaming_server.Base.Dict.{lookup}
use streaming_server.Base.Int.{ℤ}
use streaming_server.Base.Decimal.{atoi}
use streaming_server.Connections.{namespace, connections, receivers_from}
use streaming_server.Clients.{
  Client, Clients, ClientError, get_username, has_name, update_client_username,
}
use streaming_server.Commands.Handler.{SocketCommand}

pub data ChatError : Type 0 where
  client_error : ClientError → ChatError
  no_room no_name not_an_integer : ChatError

-- An entry of the list of users: with no name, the user's own name, or another name.
pub data UserLine : Type 0 where
  not_in_chat own_name other_name : Str → UserLine

pub data ChatReply : Type 0 where
  usage modifying_volume clearing reloading : ChatReply
  updating name_is : Str → ChatReply
  all_users : List UserLine → ChatReply
  setting_volume : ℤ → ChatReply
  commands_help : List Str → ChatReply

-- The methods that "chatmethodaction" names, and the clients that it is sent to.
pub data ChatAction : Type 0 where
  increase_volume decrease_volume set_volume : ℤ → ChatAction
  clear_view reload_client : ChatAction

abbrev pub Answer : Type 0
Answer = Outcome ChatError ChatReply

user_line : Option Str → Client → UserLine
user_line me c = elim (get_username c) [
  | none ↦ not_in_chat c.id
  | some name ↦ if has_name me name then own_name name else other_name name
]

-- The loop over the connections of the room; one without a client is passed over.
unfoldable pub user_lines : Clients → Option Str → List Str → List UserLine
unfolding user_line
user_lines s me [] = []
user_lines s me (conn ∷ conns) =
    let rest = user_lines s me conns in
    elim (lookup conn s.clients_by_id) [ none ↦ rest | some c ↦ user_line me c ∷ rest ]

name_answer : Str → Clients × Outcome ClientError (Unit {0}) → Clients × Answer
name_answer name (s, ok _) = (s, ok (updating name))
name_answer name (s, err e) = (s, err (client_error e))
name_answer name (s, panic) = (s, panic)
name_answer name (s, diverges) = (s, diverges)

-- The argument of "name".
user_name : Clients → Client → List Str → Clients × Answer
unfolding name_answer
user_name s c [] = (s, ok usage)
user_name s c (name ∷ _) = name_answer name (update_client_username s c.id name)

unfoldable pub execute_user : Clients → Client → List Str → Clients × Answer
unfolding user_name
execute_user s c [] = (s, ok usage)
execute_user s c (a ∷ more) =
    if str_eq a (codes "name") then user_name s c more else elim (namespace s.connections c.id) [
      | none ↦ (s, err no_room)
      | some _ ↦
          if str_eq a (codes "list")
          then (s, ok (all_users (user_lines s (get_username c) (connections s.connections c.id))))
          else (s, ok usage)
    ]

unfoldable pub execute_whoami : Client → Answer
execute_whoami c = elim (get_username c) [ none ↦ err no_name | some name ↦ ok (name_is name) ]

change_volume : (ℤ → ChatAction) → ChatReply → Option ℤ → List ChatAction × Answer
change_volume action reply none = ([], err not_an_integer)
change_volume action reply (some n) = (action n ∷ [], ok reply)

to_volume : Option ℤ → List ChatAction × Answer
to_volume none = ([], err not_an_integer)
to_volume (some n) = (set_volume n ∷ [], ok (setting_volume n))

-- What is sent to the client. The first byte of an empty argument is an index out of range.
unfoldable pub execute_volume : List Str → List ChatAction × Answer
unfolding change_volume to_volume
execute_volume [] = ([], ok usage)
execute_volume ([] ∷ more) = ([], panic)
execute_volume ((b ∷ raw) ∷ more) =
    if b == 43
    then change_volume increase_volume modifying_volume (atoi raw)
    else if b == 45
    then change_volume decrease_volume modifying_volume (atoi raw)
    else to_volume (atoi (b ∷ raw))

unfoldable pub execute_clear : List ChatAction × Answer
execute_clear = (clear_view ∷ [], ok clearing)

-- Who reloads: the client itself first, then the others in its room. Without a room, the second
-- broadcast panics.
unfoldable pub reload_all : Clients → Client → List Str × Answer
reload_all s c = elim (namespace s.connections c.id) [
  | none ↦ (c.id ∷ [], panic)
  | some n ↦ (c.id ∷ receivers_from s.connections n.name c.id, ok reloading)
]

unfoldable pub execute_debug : Clients → Client → List Str → List Str × Answer
execute_debug s c [] = ([], ok usage)
execute_debug s c (a ∷ more) =
    if str_eq a (codes "refresh") || str_eq a (codes "reload")
    then reload_all s c
    else ([], ok usage)

-- The commands are named, each with its description.
unfoldable pub execute_help : List SocketCommand → Answer
execute_help commands = ok (commands_help (map (λ (c : SocketCommand). c.name) commands))
