-- ===== src/Playback/Room/Requested.antt =====
-- pkg/playback/playback.go: GetOrCreateStreamFromUrl.
use streaming_server.Base.{
  ℕ, Bool, false, ◌||◌, List, [], ◌∷◌, Option, none, some, if◌then◌else◌, Outcome, ok, err, panic,
  diverges, ◌≡◌, ◌≢◌, ◌⊎◌, refl, ◌<◌,
}
use streaming_server.Base.Text.{Str, str_eq}
use streaming_server.Queue.Item.{QueueItem, uuid}
use streaming_server.Streams.{
  Streams, StreamError, Url, get_stream, get_labelled_ref, set_labelled_ref,
}
use streaming_server.Streams.Registry.{new_stream}
use streaming_server.Playback.Util.{get_queue_for_id}
use streaming_server.Playback.Room.{Room, with_object}

pub data RequestError : Type 0 where
  in_your_queue in_queue_of_another : RequestError
  not_created : StreamError → RequestError

-- Whether the loop over a user's queue meets the id.
abbrev pub holds : (QueueItem → Str) → Str → List QueueItem → Bool
holds id k [] = false
holds id k (x ∷ xs) = str_eq (id x) k || holds id k xs

-- The room's label of the stream names a user who has the stream in the queue. An error of
-- GetUserQueue counts as no queue.
unfoldable pub is_queued_by : Room → Str → Str → Bool
is_queued_by r url user =
    elim (get_queue_for_id r.playback.queue.heap user r.playback.queue.items) [
      | ok found ↦ elim found [
        | none ↦ false
        | some a ↦ holds (uuid r.playback.queue.heap) url (r.playback.queue.heap a).items
      ]
      | err _ ↦ false
      | panic ↦ false
      | diverges ↦ false
    ]

-- SetLabelledRef with the room's id.
unfoldable pub label : Room → ℕ → Str → Room
label r p user = record r {
  streams = with_object r.streams p (set_labelled_ref (r.streams.objects p) r.playback.name user).0;
}

unfoldable pub get_existing : Room → ℕ → Str → Room × Outcome RequestError ℕ
get_existing r p user = elim (get_labelled_ref (r.streams.objects p) r.playback.name) [
  | none ↦ (label r p user, ok p)
  | some holder ↦
      if is_queued_by r (r.streams.objects p).url holder
      then (r, err (if str_eq holder user then in_your_queue else in_queue_of_another))
      else (label r p user, ok p)
]

-- SetCreationSource and SetLabelledRef of the user on a new stream.
unfoldable pub attributed : Room → Streams → ℕ → Str → Room
attributed r h p user =
    label
      (record r {
        streams = with_object h p (record (h.objects p) { creation_source = some user });
      })
      p user

module _ (parse : Str → Option Url) (mime_type : Str → Str) (is_file : Str → Bool) where
  created_by_user : Room → Str → Streams × Outcome StreamError ℕ → Room × Outcome RequestError ℕ
  created_by_user r user (h, ok p) = (attributed r h p user, ok p)
  created_by_user r user (h, err e) = (r, err (not_created e))
  created_by_user r user (h, panic) = (r, panic)
  created_by_user r user (h, diverges) = (r, diverges)

  -- The stream of the url for the user with the given id; what FetchMetadata finds comes later.
  unfoldable pub get_or_create_stream_from_url :
      Room → Str → Str → ℕ → Room × Outcome RequestError ℕ
  unfolding created_by_user
  get_or_create_stream_from_url r url user now = elim (get_stream r.streams url) [
    | some p ↦ get_existing r p user
    | none ↦ created_by_user r user (new_stream parse mime_type is_file r.streams url now)
  ]

-- What a request comes to: an error with nothing changed, or a stream that is registered under the
-- url and has the user as its label; the playback and the other streams are left alone.
abbrev pub Requests : Room → Str → Str → Room × Outcome RequestError ℕ → Type 0
Requests r url user (r', o) =
    ((e : RequestError) × (o ≡ err e) × (r' ≡ r))
    ⊎ ((p : ℕ) × (o ≡ ok p)
        × (get_stream r'.streams url ≡ some p)
        × (get_labelled_ref (r'.streams.objects p) r.playback.name ≡ some user)
        × (r'.playback ≡ r.playback)
        × ((q : ℕ) → q ≢ p → q < r.streams.allocated → r'.streams.objects q ≡ r.streams.objects q))

label-registered :
    (r : Room) (p : ℕ) (user url : Str)
    → get_stream (label r p user).streams url ≡ get_stream r.streams url
unfolding label
label-registered r p user url = refl
