-- ===== src/Commands/Chat/Tests.antt =====
-- pkg/socket/cmd/user.go, volume.go: commands of a client in a room of two.
use streaming_server.Base.{[], ◌∷◌, ◌≡◌, refl, ok, panic}
use streaming_server.Base.Text.{codes, str_eq}
use streaming_server.Base.Dict.{lookup}
use streaming_server.Base.Int.{pos}
use streaming_server.Base.Decimal.{atoi, magnitude, value}
use streaming_server.Connections.{namespace, connections}
use streaming_server.Clients.{Client, Clients, last_name}
use streaming_server.Commands.Chat.{
  execute_user, user_lines, execute_volume, all_users, own_name, not_in_chat, set_volume,
  increase_volume, setting_volume, modifying_volume,
}

abbrev client : Client
client = record { id = codes "7"; usernames = codes "ann" ∷ [] }

abbrev clients : Clients
clients = record {
  clients_by_id = (codes "7", client) ∷ (codes "8", record { id = codes "8"; usernames = [] }) ∷ [];
  connections = record {
    ns_by_name =
        (
          codes "den",
          record {
            name = codes "den";
            id = codes "1";
            connections = (codes "7", codes "7") ∷ (codes "8", codes "8") ∷ [];
          },
        )
        ∷ [];
    conns_by_id = [];
    joined = (codes "7", codes "den") ∷ (codes "8", codes "den") ∷ [];
    fresh = 2;
  };
}

user_list :
    execute_user clients client (codes "list" ∷ [])
    ≡ (clients, ok (all_users (own_name (codes "ann") ∷ not_in_chat (codes "8") ∷ [])))
unfolding execute_user user_lines namespace connections last_name lookup str_eq
user_list = refl

volume_set :
    execute_volume (codes "5" ∷ []) ≡ (set_volume (pos 5) ∷ [], ok (setting_volume (pos 5)))
unfolding execute_volume atoi magnitude value
volume_set = refl

volume_up : execute_volume (codes "+5" ∷ []) ≡ (increase_volume (pos 5) ∷ [], ok modifying_volume)
unfolding execute_volume atoi magnitude value
volume_up = refl

-- `/volume  5` with two spaces.
volume_empty : execute_volume ([] ∷ codes "5" ∷ []) ≡ ([], panic)
unfolding execute_volume
volume_empty = refl
