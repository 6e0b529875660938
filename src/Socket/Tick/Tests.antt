-- ===== src/Socket/Tick/Tests.antt =====
-- pkg/socket/handler.go: the end of the stream of a room, and the theorem at it.
use streaming_server.Playback.Room.Sample.{den, den-IsWellFormed, same_name, source_name}
use streaming_server.Queue.RoundRobin.Rotation.{rotation}
use streaming_server.Queue.RoundRobin.Turn.{serve}
use streaming_server.Socket.Tick.{advance}
use streaming_server.Socket.Tick.Advance.{Advances, advance-Advances}

advance-Advances_example :
    Advances den (serve (rotation den.playback.queue)) (advance same_name source_name den 60)
advance-Advances_example = advance-Advances same_name source_name den 60 den-IsWellFormed
