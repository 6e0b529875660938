-- ===== src/Playback/Room/Tests.antt =====
-- pkg/playback/playback.go: a room in which one stream plays, and the theorems at it.
use streaming_server.Base.{ℕ, false, [], ◌≡◌, ◌≢◌, refl, arith, ok}
use streaming_server.Base.Text.{str_eq}
use streaming_server.Base.Dict.{lookup}
use streaming_server.Queue.Item.{uuid}
use streaming_server.Rbac.Authorizer.{Authorizer}
use streaming_server.Playback.Room.Sample.{den, same_name}
use streaming_server.Playback.Room.{set_stream, unknown, clear_user_queue}
use streaming_server.Playback.Room.References.{set_stream_same, refers}
use streaming_server.Playback.Room.Shifted.{cleared}
use streaming_server.Playback.Room.Cleared.{unreference_each, clear_user_queue_lem}

zero_ne_two : ◌≢◌ {A = ℕ} 0 2
zero_ne_two e = omega arith

set_stream_same_example :
    (refers den.playback.name ((set_stream same_name den 0 7).streams.objects 0) ≡ false)
    × ((set_stream same_name den 0 7).playback.started_by ≡ unknown)
set_stream_same_example = set_stream_same same_name den 0 7 refl

clear_user_queue_lem_example :
    ((clear_user_queue den 0).1 ≡ ok tt)
    × ((clear_user_queue den 0).0.streams
        ≡ unreference_each den.playback.name
            (cleared (den.playback.queue.heap 0).items)
            den.streams)
    × (((clear_user_queue den 0).0.playback.queue.heap 0).items ≡ [])
unfolding lookup str_eq uuid
clear_user_queue_lem_example =
    clear_user_queue_lem den 0 refl (tt, (tt, (tt, tt)))
      (
        ((λ e. ground (arith, e)), ((λ e. ground (arith, e)), tt)),
        (((λ e. ground (arith, e)), tt), (tt, tt)),
      )

abbrev authorizer : Authorizer
authorizer = record { roles_by_name = []; bindings_by_role_name = [] }
