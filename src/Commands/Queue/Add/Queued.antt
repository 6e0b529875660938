-- ===== src/Commands/Queue/Add/Queued.antt =====
-- pkg/socket/cmd/queue.go: `/queue add` by a user who has a queue, in a room where something plays.
use streaming_server.Base.{ℕ, true, [], ◌∷◌, ◌++◌, ◌≡◌, ◌⊎◌, some, leb, length, err}
use streaming_server.Base.Text.{Str}
use streaming_server.Queue.Item.{single, max_size_exceeded}
use streaming_server.Queue.Schema
use streaming_server.Queue.Schema.{max_aggregatable_queue_items}
use streaming_server.Streams.{get_stream, get_labelled_ref}
use streaming_server.Playback.Room.{Room}
use streaming_server.Playback.Room.References.{refers}
use streaming_server.Playback.Room.Requested.{RequestError}
use streaming_server.Commands.Queue.Sync.{QueueRun, queue_failed, not_requested}

-- The stream of the url is the last item of the user's queue, the room refers to it, and it has the
-- user as its label; what plays is the same.
abbrev pub Queued : Room → Str → Str → ℕ → Room → Type 0
Queued r user url b r' =
    (p : ℕ) × (get_stream r'.streams url ≡ some p)
    × ((r'.playback.queue.heap b).items
        ≡ (r.playback.queue.heap b).items ++ single (r'.streams.objects p).url p ∷ [])
    × (refers r.playback.name (r'.streams.objects p) ≡ true)
    × (get_labelled_ref (r'.streams.objects p) r.playback.name ≡ some user)
    × (r'.playback.stream ≡ r.playback.stream)

-- The queue is full, or the request fails, and nothing changes; or the stream is queued.
abbrev pub Adds : Room → Str → Str → ℕ → QueueRun → Type 0
Adds r user url b (r', _, o) =
    ((r' ≡ r)
      × (o ≡ err (queue_failed max_size_exceeded))
      × (leb max_aggregatable_queue_items (length (r.playback.queue.heap b).items) ≡ true))
    ⊎ (((r' ≡ r) × ((e : RequestError) × (o ≡ err (not_requested e)))) ⊎ Queued r user url b r')
