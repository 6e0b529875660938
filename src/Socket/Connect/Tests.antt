-- ===== src/Socket/Connect/Tests.antt =====
-- pkg/socket/handler.go: a server with one client in one room, and the theorems at it.
use streaming_server.Base.{ℕ, [], ◌∷◌, ◌≡◌, ◌≢◌, ◌⊎◌, refl, some, none, ok}
use streaming_server.Base.Text.{Str, codes, str_eq}
use streaming_server.Base.Dict.{lookup, insert}
use streaming_server.Queue.Item.{Heap}
use streaming_server.Queue.RoundRobin.Singles.{HoldsStreams}
use streaming_server.Connections.{
  ns, namespace, ensure, join, new_connection, add, add_to_namespace,
}
use streaming_server.Clients.{create_client}
use streaming_server.Playback.Room.Sample.{den, source_name}
use streaming_server.Playback.Handler.{create_playback}
use streaming_server.Socket.{Server}
use streaming_server.Socket.Connect.{
  admit, serve, close, register_client, in_room, namespace_from_request,
}
use streaming_server.Socket.Connect.Sound.{IsPresent, IsSound}
use streaming_server.Socket.Connect.Steps.{
  Reach, start, later, admits, empty_server, Reach-IsSound, serve-IsPresent,
}
use streaming_server.Socket.Connect.Left.{HasUnique, Leaves, Panics, close-Leaves}

abbrev heap : Heap
heap a = record { id = []; items = [] }

heap-HoldsStreams : HoldsStreams heap
heap-HoldsStreams a = tt

abbrev number : ℕ → Str
number n = n ∷ []

abbrev nobody : Server
nobody = empty_server den.streams none

abbrev one_client : Server
one_client = (admit number heap source_name nobody (codes "den") (codes "7") 5).0

one_client-Reach : Reach number heap source_name one_client
one_client-Reach = later (start den.streams none) (admits (codes "den") (codes "7") 5)

serve-IsPresent_example :
    ((serve number heap source_name nobody (codes "/v/den") (codes "7") 5).2 ≡ ok tt)
    × (lookup
          (codes "7")
          (serve number heap source_name nobody (codes "/v/den") (codes "7") 5).0.clients_by_id
        ≡ some (record { id = codes "7"; usernames = [] }))
    × (ns
          (serve number heap source_name nobody (codes "/v/den") (codes "7") 5).0.connections
          (codes "7")
        ≡ namespace_from_request (codes "/v/den"))
    × ((namespace_from_request (codes "/v/den") ≡ [])
        ⊎ IsPresent
            (serve number heap source_name nobody (codes "/v/den") (codes "7") 5).0.connections
            (serve number heap source_name nobody (codes "/v/den") (codes "7") 5).0.playbacks
            (codes "7"))
serve-IsPresent_example =
    serve-IsPresent number heap source_name heap-HoldsStreams nobody (codes "/v/den") (codes "7") 5
      (start den.streams none)

Reach-IsSound_example : IsSound one_client
Reach-IsSound_example =
    Reach-IsSound number heap source_name heap-HoldsStreams one_client one_client-Reach

one_client-known :
    lookup (codes "7") one_client.clients_by_id ≡ some (record { id = codes "7"; usernames = [] })
unfolding admit ensure join new_connection add_to_namespace add register_client in_room
    create_client create_playback namespace lookup insert str_eq
one_client-known = refl

one_client-HasUnique : HasUnique one_client.authorizer
unfolding admit ensure join new_connection add_to_namespace add register_client in_room
    create_client create_playback namespace lookup insert str_eq
one_client-HasUnique = tt

close-Leaves_example :
    ((ns one_client.connections (codes "7") ≢ [])
      × Leaves one_client
          (codes "7")
          9
          (ns one_client.connections (codes "7"))
          (close one_client (codes "7") 9))
    ⊎ ((ns one_client.connections (codes "7") ≡ [])
        × Panics one_client (close one_client (codes "7") 9))
close-Leaves_example =
    close-Leaves number heap source_name heap-HoldsStreams one_client (codes "7") 9
      (record { id = codes "7"; usernames = [] }) one_client-Reach one_client-HasUnique
      one_client-known
