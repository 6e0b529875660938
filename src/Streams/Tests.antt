-- ===== src/Streams/Tests.antt =====
-- pkg/stream: no streams, then one local file, and the theorems at them.
use streaming_server.Base.{Bool, true, [], ◌∷◌, Option, some}
use streaming_server.Base.Text.{Str, codes}
use streaming_server.Streams.{Streams, Url, movie}
use streaming_server.Streams.Registry.{created}

abbrev parse : Str → Option Url
parse url = some (record { scheme = []; host = []; path = url; clip = [] })

abbrev mime_type : Str → Str
mime_type extension = codes "video/mp4"

abbrev is_file : Str → Bool
is_file name = true

abbrev no_streams : Streams
no_streams = record { objects = λ a. created (movie, []) 0; by_url = []; allocated = 0 }

abbrev one_stream : Streams
one_stream = record {
  objects = λ a. created (movie, codes "a.mp4") 9;
  by_url = (codes "a.mp4", 0) ∷ [];
  allocated = 1;
}
