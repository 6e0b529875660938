-- ===== src/Playback/Room.antt =====
-- pkg/playback/playback.go: what plays in a room, the users' queues, and the references that keep a
-- stream from being reaped. Clients are ids; their names are an argument, and so is the time.
pub mod References
pub mod Shifted
pub mod Cleared
pub mod Departure
pub mod Requested
pub mod Ends
pub mod Sample
mod Tests
use streaming_server.Base.{
  ℕ, zero, suc, Bool, true, false, List, [], ◌∷◌, ◌++◌, ◌&&◌, Option, none, some, if◌then◌else◌,
  ltb, length, drop, get_elem?, Outcome, ok, err, panic, diverges,
}
use streaming_server.Base.Text.{Str, codes, str_eq}
use streaming_server.Base.Dict.{values}
use streaming_server.Base.Int.{ℤ}
use streaming_server.Queue.Item.{QueueItem, single, aggregate, Heap, uuid, set_items, Result}
use streaming_server.Queue.Schema.{push_bounded}
use streaming_server.Queue.RoundRobin.{
  RoundRobinQueue, new_round_robin_queue, delete_from_queue, delete_item, clear,
}
use streaming_server.Clients.{Client, get_username, get_previous_username}
use streaming_server.Playback.Timer
use streaming_server.Playback.Timer.{Timer, TimerStatus, new_timer}
use streaming_server.Streams.{
  Stream, Streams, set_object, add_parent_ref, remove_parent_ref, remove_labelled_ref,
  get_labelled_ref, is_there,
}

pub data PlaybackState : Type 0 where
  not_started started ended : PlaybackState

pub record Playback : Type 0 where
  pub name : Str
  pub queue : RoundRobinQueue
  pub stream : Option ℕ
  pub started_by : Str
  pub timer : Timer
  pub last_updated : ℕ
  pub last_admin_departure : Option ℕ
  pub state : PlaybackState

-- A playback, with the streams that all rooms share.
pub record Room : Type 0 where
  pub playback : Playback
  pub streams : Streams

-- NewPlayback with a name; `heap` is what the pointers to queues lead to.
unfoldable pub new_playback : Heap → Str → ℕ → Playback
new_playback heap name now = record {
  name = name;
  queue = new_round_robin_queue heap;
  stream = none;
  started_by = [];
  timer = new_timer;
  last_updated = now;
  last_admin_departure = none;
  state = not_started;
}

abbrev pub with_object : Streams → ℕ → Stream → Streams
with_object h p s = record h { objects = set_object h.objects p s }

pushed : Room → ℕ → ℕ → Result (List QueueItem) → Room
pushed r a p (ok xs) = record {
  playback = record r.playback {
    queue = record r.playback.queue { heap = set_items r.playback.queue.heap a xs };
  };
  streams = with_object r.streams p (add_parent_ref (r.streams.objects p) r.playback.name).0;
}
pushed r a p _ = r

-- PushToQueue: the error of the queue is dropped. A stream in a queue is an item with the stream's url
-- and object.
unfoldable pub push_to_queue : Room → ℕ → ℕ → Room
unfolding pushed
push_to_queue r a p =
    pushed r a p (push_bounded (r.playback.queue.heap a).items (single (r.streams.objects p).url p))

-- The item of another type has no stream to log.
unreferenced : Room → QueueItem → Room × Result (Unit {0})
unreferenced r (single _ p) = (
  record r {
    streams = with_object r.streams p (remove_parent_ref (r.streams.objects p) r.playback.name).0;
  },
  ok tt,
)
unreferenced r (aggregate _) = (r, panic)

abbrev pub with_queue : Room → RoundRobinQueue → Room
with_queue r q = record r { playback = record r.playback { queue = q } }

-- ClearQueueItem.
unfoldable pub clear_queue_item : Room → QueueItem → QueueItem → Room × Result (Unit {0})
unfolding unreferenced
clear_queue_item r queue item =
    let (q, o) = delete_from_queue r.playback.queue queue item in
    elim o [
      | ok _ ↦ unreferenced (with_queue r q) item
      | err e ↦ (with_queue r q, err e)
      | panic ↦ (with_queue r q, panic)
      | diverges ↦ (with_queue r q, diverges)
    ]

-- A slice that a loop ranges over shares its array with the queue: after a deletion it holds the
-- items that are left, and behind them what stood there before.
abbrev pub shared_array : List QueueItem → List QueueItem → List QueueItem
shared_array items array = items ++ drop (length items) array

-- The loops of ClearUserQueue and ClearQueue over List() of a user's queue, from the index `i` with
-- `n` items left. An error of ClearQueueItem does not end them.
unfoldable pub clear_each_item : ℕ → ℕ → List QueueItem → Room → ℕ → Room × Result (Unit {0})
clear_each_item zero i array r a = (r, ok tt)
clear_each_item (suc n) i array r a = elim (get_elem? array i) [
  | none ↦ (r, panic)
  | some item ↦
      let (r', o) = clear_queue_item r (aggregate a) item in
      let rest =
        clear_each_item n (suc i) (shared_array (r'.playback.queue.heap a).items array) r' a in
      elim o [ ok _ ↦ rest | err _ ↦ rest | panic ↦ (r', panic) | diverges ↦ (r', diverges) ]
]

unfoldable pub clear_items : Room → ℕ → Room × Result (Unit {0})
clear_items r a =
    let items = (r.playback.queue.heap a).items in clear_each_item (length items) 0 items r a

-- ClearUserQueue.
unfoldable pub clear_user_queue : Room → ℕ → Room × Result (Unit {0})
clear_user_queue r a =
    let (r', o) = clear_items r a in
    let q = r'.playback.queue in
    let emptied = with_queue r' (record q { heap = set_items q.heap a [] }) in
    elim o [
      | panic ↦ (r', panic)
      | diverges ↦ (r', diverges)
      | ok _ ↦ (emptied, ok tt)
      | err _ ↦ (emptied, ok tt)
    ]

clear_each_queue : List ℕ → Room → Room × Result (Unit {0})
clear_each_queue [] r = (r, ok tt)
clear_each_queue (a ∷ queues) r =
    let (r', o) = clear_items r a in
    let rest = clear_each_queue queues r' in
    elim o [ panic ↦ (r', panic) | diverges ↦ (r', diverges) | ok _ ↦ rest | err _ ↦ rest ]

-- ClearQueue. Visit ranges over the map of queues, from which only the visited one is deleted. The
-- errors are only put into a text.
unfoldable pub clear_queue : Room → Room × Result (Unit {0})
unfolding clear_each_queue
clear_queue r =
    let (r', o) = clear_each_queue (values r.playback.queue.items_by_id) r in
    elim o [
      | panic ↦ (r', panic)
      | diverges ↦ (r', diverges)
      | ok _ ↦ (with_queue r' (clear r'.playback.queue), ok tt)
      | err e ↦ (with_queue r' (clear r'.playback.queue), ok tt)
    ]

-- The references of the stream that has played are removed.
unfoldable pub released : Streams → Str → Option ℕ → Streams
released h name none = h
released h name (some p) =
    with_object h p (remove_labelled_ref (remove_parent_ref (h.objects p) name).0 name).0

abbrev pub unknown : Str
unknown = codes "<unknown>"

-- SetStream; `names` gives the user name of a client, or its id.
unfoldable pub set_stream : (Str → Str) → Room → ℕ → ℕ → Room
set_stream names r p now =
    let h = released r.streams r.playback.name r.playback.stream in
    record {
      playback = record r.playback {
        stream = some p;
        started_by = elim (get_labelled_ref (h.objects p) r.playback.name) [
          | none ↦ unknown
          | some client ↦ names client
        ];
        last_updated = now;
      };
      streams = with_object h p (record (h.objects p) { last_updated = now });
    }

-- Cleanup, but for the stop of the admin picker; afterwards the playback has no timer.
unfoldable pub cleanup : Room → Room × Result (Unit {0})
cleanup r =
    let freed : Room = record {
      playback = record r.playback {
        timer = record (Timer.stop r.playback.timer) { callbacks = [] };
      };
      streams = released r.streams r.playback.name r.playback.stream;
    } in
    let (r', o) = clear_queue freed in
    elim o [
      | panic ↦ (r', panic)
      | diverges ↦ (r', diverges)
      | ok _ ↦ (record r' { playback = record r'.playback { stream = none } }, ok tt)
      | err _ ↦ (record r' { playback = record r'.playback { stream = none } }, ok tt)
    ]

-- Pause, Play, Stop, Reset and SetTime. SetTime drops the error of a negative time.
unfoldable pub pause : Playback → ℕ → Playback
pause p now = record p { last_updated = now; timer = Timer.pause p.timer }

unfoldable pub play : Playback → ℕ → Playback
play p now = record p { state = started; last_updated = now; timer = Timer.play p.timer }

unfoldable pub stop : Playback → ℕ → Playback
stop p now = record p { state = ended; last_updated = now; timer = Timer.stop p.timer }

unfoldable pub set_time : Playback → ℤ → ℕ → Playback
set_time p time now = record p { last_updated = now; timer = (Timer.set p.timer time).0 }

unfoldable pub reset : Playback → ℕ → Playback
reset p now = set_time p (ℤ.pos 0) now

-- RefreshInfoFromClient.
unfoldable pub refresh_info_from_client : Playback → Client → Outcome ⊥ (Playback × Bool)
refresh_info_from_client p c = elim (get_previous_username c) [
  | none ↦ ok (p, false)
  | some old ↦
      let renamed : Outcome ⊥ (Playback × Bool) = elim (get_username c) [
        | none ↦ panic
        | some new ↦ ok (record p { started_by = new }, true)
      ] in
      if ltb 0 (length p.started_by) && str_eq p.started_by old then renamed else ok (p, false)
]

-- What GetStatus reports; `sources` gives the name of a source of creation, which may be unknown.
pub record PlaybackStatus : Type 0 where
  pub queue_length : ℕ
  pub started_by : Str
  pub created_by : Str
  pub stream : Option ℕ
  pub timer_status : TimerStatus

unfoldable pub get_status : (Option Str → Str) → Room → PlaybackStatus
get_status sources r = record {
  queue_length = length r.playback.queue.items;
  started_by = r.playback.started_by;
  created_by = elim r.playback.stream [
    | none ↦ []
    | some p ↦ sources (r.streams.objects p).creation_source
  ];
  stream = r.playback.stream;
  timer_status = Timer.status r.playback.timer;
}
