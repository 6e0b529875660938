-- ===== src/Playback/Handler/Tests.antt =====
-- pkg/playback/reaper.go: a room that nobody is in, and the theorem at it.
use streaming_server.Base.{[], ◌∷◌, ◌≡◌, refl, none, ok, if◌then◌else◌}
use streaming_server.Base.Text.{Str, codes}
use streaming_server.Base.Dict.{lookup}
use streaming_server.Connections.Steps.{no_connections}
use streaming_server.Playback.Room.Sample.{den}
use streaming_server.Playback.Handler.{Playbacks}
use streaming_server.Playback.Handler.Reaper.{reap}
use streaming_server.Playback.Handler.Reaped.{is_reaped, lookup-reap}

abbrev deserted : Playbacks
deserted = record {
  playbacks = (codes "den", den.playback) ∷ [];
  streams = den.streams;
  connections = no_connections;
}

lookup-reap_example :
    ((reap 400000000000 deserted).1 ≡ ok tt)
    × ((k : Str)
        → lookup k (reap 400000000000 deserted).0.playbacks
          ≡ (if is_reaped 400000000000 deserted k then none else lookup k deserted.playbacks))
    × ((k : Str)
        → lookup k (reap 400000000000 deserted).0.connections.ns_by_name ≡ (
            if is_reaped 400000000000 deserted k
            then none
            else lookup k deserted.connections.ns_by_name))
unfolding lookup
lookup-reap_example =
    lookup-reap 400000000000 deserted (refl, refl, (λ a. (tt, (tt, (tt, tt)))), tt)
