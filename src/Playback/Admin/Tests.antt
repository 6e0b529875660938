-- ===== src/Playback/Admin/Tests.antt =====
-- pkg/playback/admin.go: a room with two connections and no admin, and the theorem at it.
use streaming_server.Base.{List, [], ◌∷◌}
use streaming_server.Base.Text.{codes}
use streaming_server.Playback.Admin.{Member}

abbrev two : List Member
two = record { id = codes "7"; created = 5 } ∷ record { id = codes "8"; created = 3 } ∷ []
