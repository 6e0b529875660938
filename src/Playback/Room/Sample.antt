-- ===== src/Playback/Room/Sample.antt =====
-- pkg/playback/playback.go: a room in which one stream plays and one user has three in the queue.
use streaming_server.Base.{true, [], ◌∷◌, refl, some, none, arith, inl, Option, Bool}
use streaming_server.Base.Text.{Str, codes}
use streaming_server.Base.Dict.{lookup}
use streaming_server.Queue.Item.{single, aggregate, uuid}
use streaming_server.Queue.RoundRobin.Indexed.{find_queue}
use streaming_server.Queue.RoundRobin.Rotation.{IsWellFormed}
use streaming_server.Streams.{Url, movie}
use streaming_server.Playback.Timer.{new_timer}
use streaming_server.Playback.Room.{Room, started}

abbrev pub den : Room
den = record {
  playback = record {
    name = codes "den";
    queue = record {
      heap = λ a. record {
        id = 1 ∷ [];
        items = single (11 ∷ []) 0 ∷ single (12 ∷ []) 1 ∷ single (13 ∷ []) 2 ∷ [];
      };
      items = aggregate 0 ∷ [];
      items_by_id = (1 ∷ [], 0) ∷ [];
      rr_count = 0;
    };
    stream = some 0;
    started_by = [];
    timer = new_timer;
    last_updated = 0;
    last_admin_departure = none;
    state = started;
  };
  streams = record {
    objects = λ p. record {
      url = 11 ∷ [];
      kind = movie;
      last_updated = 0;
      creation_source = none;
      parent_refs = (codes "den", codes "den") ∷ [];
      labelled_refs = (codes "den", 1 ∷ []) ∷ [];
    };
    by_url = [];
    allocated = 3;
  };
}

pub den-IsWellFormed : IsWellFormed den.playback.queue
unfolding lookup find_queue uuid
den-IsWellFormed = record {
  links = record { aggregates = (tt, tt); distinct = (tt, tt); indexed = λ k. refl };
  in_range = inl (omega arith);
}

abbrev pub parse : Str → Option Url
parse url = some (record { scheme = []; host = []; path = url; clip = [] })

abbrev pub mime_type : Str → Str
mime_type extension = codes "video/mp4"

abbrev pub is_file : Str → Bool
is_file name = true

abbrev pub same_name : Str → Str
same_name client = client

abbrev pub source_name : Option Str → Str
source_name none = []
source_name (some client) = client
