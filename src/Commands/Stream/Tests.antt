-- ===== src/Commands/Stream/Tests.antt =====
-- pkg/socket/cmd/stream.go: the theorems at the sample room.
use streaming_server.Base.{◌≡◌, refl, some, ok, arith, false}
use streaming_server.Base.Text.{codes}
use streaming_server.Base.Int.{pos}
use streaming_server.Base.Decimal.{atoi, magnitude, value}
use streaming_server.Queue.RoundRobin.Rotation.{rotation}
use streaming_server.Queue.RoundRobin.Turn.{serve}
use streaming_server.Playback.Room.Sample.{den, den-IsWellFormed, same_name, source_name}
use streaming_server.Commands.Stream.{skip, seek, minus, modifier, parse_time, reply_to}
use streaming_server.Commands.Stream.Skip.{Skips, skip-Skips}
use streaming_server.Commands.Stream.Seek.{sought, seek_lem}

skip-Skips_example :
    Skips false den (serve (rotation den.playback.queue)) (skip same_name source_name false den 4)
skip-Skips_example = skip-Skips same_name source_name false den 4 den-IsWellFormed

seek_lem_example :
    ((seek same_name source_name den (some (codes "-30")) 4).2 ≡ ok (reply_to minus (pos 30)))
    × ((seek same_name source_name den (some (codes "-30")) 4).0.playback.timer.time
        ≡ sought minus den.playback.timer.time 30)
    × ((seek same_name source_name den (some (codes "-30")) 4).0.playback.timer.state
        ≡ den.playback.timer.state)
unfolding modifier parse_time atoi magnitude value
seek_lem_example =
    seek_lem same_name source_name den (codes "-30") (codes "30") minus 30 4 refl refl (omega arith)
