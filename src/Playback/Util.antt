-- ===== src/Playback/Util.antt =====
-- pkg/playback/util/util.go: the queue of a user among the queues of a room.
use streaming_server.Base.{ℕ, List, [], ◌∷◌, Option, none, some, if◌then◌else◌, ok, err}
use streaming_server.Base.Text.{Str, str_eq}
use streaming_server.Queue.Item.{QueueItem, single, aggregate, Heap, uuid, Result, not_aggregatable}

-- GetQueueForId: the first queue with the id.
unfoldable pub get_queue_for_id : Heap → Str → List QueueItem → Result (Option ℕ)
get_queue_for_id h id [] = ok none
get_queue_for_id h id (single s p ∷ qs) =
    let rest = get_queue_for_id h id qs in if str_eq s id then err not_aggregatable else rest
get_queue_for_id h id (aggregate a ∷ qs) =
    let rest = get_queue_for_id h id qs in
    if str_eq (uuid h (aggregate a)) id then ok (some a) else rest
