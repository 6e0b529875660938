-- ===== src/Clients/Tests.antt =====
-- pkg/socket/client: two clients, one of which has a name, and the theorems at them.
use streaming_server.Base.{[], ◌∷◌}
use streaming_server.Base.Text.{codes}
use streaming_server.Connections.{Connections}
use streaming_server.Clients.{Client, Clients, create_client, update_client_username}
use streaming_server.Clients.Unique.{HasNames}
use streaming_server.Clients.Steps.{start, later, creates, renames, Reach-HasNames}

abbrev ann : Client
ann = record { id = codes "7"; usernames = codes "ann" ∷ [] }

abbrev offline : Connections
offline = record { ns_by_name = []; conns_by_id = []; joined = []; fresh = 0 }

abbrev two_clients : Clients
two_clients =
    (update_client_username
      (create_client
        (create_client (record { clients_by_id = []; connections = offline }) (codes "7"))
        (codes "8"))
      (codes "7") (codes "ann")).0

Reach-HasNames_example : HasNames two_clients.clients_by_id
Reach-HasNames_example = Reach-HasNames offline two_clients (
    later (later (later start (creates (codes "7"))) (creates (codes "8")))
      (renames (codes "7") (codes "ann")))
