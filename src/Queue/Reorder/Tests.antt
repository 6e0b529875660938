-- ===== src/Queue/Reorder/Tests.antt =====
-- pkg/playback/queue/queue.go: Reorder of three items, and the theorem at it.
use streaming_server.Base.{◌≡◌, refl, [], ◌∷◌, ok}
use streaming_server.Base.Int.{pos}
use streaming_server.Queue.Item.{QueueItem, single}
use streaming_server.Queue.Reorder.{contains, pick, remaining, reorder}

abbrev a : QueueItem
a = single (1 ∷ []) 0

abbrev b : QueueItem
b = single (2 ∷ []) 1

abbrev c : QueueItem
c = single (3 ∷ []) 2

last_first : reorder (a ∷ b ∷ c ∷ []) (pos 2 ∷ []) ≡ ok (c ∷ a ∷ b ∷ [])
unfolding reorder pick remaining contains
last_first = refl
