-- ===== src/Streams.antt =====
-- pkg/stream/stream.go: the metadata of streams; pkg/stream/handler.go: the registered streams.
pub mod Registry
pub mod Reaper
mod Tests
use streaming_server.Base.{
  ℕ, suc, ◌+◌, ◌-◌, Bool, true, false, not, ◌&&◌, ◌||◌, List, [], ◌∷◌, ◌++◌, map, Option, none,
  some, if◌then◌else◌, ltb, ◌==◌, length, Outcome, ok, err,
}
use streaming_server.Base.Text.{Str, codes, str_eq, is_in}
use streaming_server.Base.Dict.{Dict, lookup, insert, delete, values}
use streaming_server.Base.Split.{split}
use streaming_server.Clients.{to_lower}

pub data StreamKind : Type 0 where
  youtube movie twitch twitch_clip soundcloud : StreamKind

pub data StreamError : Type 0 where
  already_registered invalid_url missing_clip unsupported_source unsupported_file no_such_file :
      Str → StreamError

-- StreamSchema with its StreamMetaSchema: references are the ids of what they refer to. The creation
-- source is the id of a client, or unknown.
pub record Stream : Type 0 where
  pub url : Str
  pub kind : StreamKind
  pub last_updated : ℕ
  pub creation_source : Option Str
  pub parent_refs : Dict Str
  pub labelled_refs : Dict Str

abbrev pub is_there : Option Str → Bool
is_there none = false
is_there (some _) = true

unfoldable pub add_parent_ref : Stream → Str → Stream × Bool
add_parent_ref s ref =
    if is_there (lookup ref s.parent_refs)
    then (s, false)
    else (record s { parent_refs = insert ref ref s.parent_refs }, true)

unfoldable pub remove_parent_ref : Stream → Str → Stream × Bool
remove_parent_ref s ref =
    if is_there (lookup ref s.parent_refs)
    then (record s { parent_refs = delete ref s.parent_refs }, true)
    else (s, false)

unfoldable pub set_labelled_ref : Stream → Str → Str → Stream × Bool
set_labelled_ref s key value = (
  record s { labelled_refs = insert key value s.labelled_refs },
  not (is_there (lookup key s.labelled_refs)),
)

abbrev pub get_labelled_ref : Stream → Str → Option Str
get_labelled_ref s key = lookup key s.labelled_refs

unfoldable pub remove_labelled_ref : Stream → Str → Stream × Bool
remove_labelled_ref s key =
    if is_there (lookup key s.labelled_refs)
    then (record s { labelled_refs = delete key s.labelled_refs }, true)
    else (s, false)

-- The handler's map leads to objects, which playbacks and queues share; `allocated` is the next one.
pub record Streams : Type 0 where
  pub objects : ℕ → Stream
  pub by_url : Dict ℕ
  pub allocated : ℕ

unfoldable pub set_object : (ℕ → Stream) → ℕ → Stream → ℕ → Stream
set_object objects a s b = if b == a then s else objects b

abbrev pub get_stream : Streams → Str → Option ℕ
get_stream h url = lookup url h.by_url

unfoldable pub reap_stream : Streams → Stream → Streams × Bool
reap_stream h s = elim (lookup s.url h.by_url) [
  | some _ ↦ (record h { by_url = delete s.url h.by_url }, true)
  | none ↦ (h, false)
]

-- What net/url finds in a url: the scheme, the host, the path and the value of `clip`.
pub record Url : Type 0 where
  pub scheme : Str
  pub host : Str
  pub path : Str
  pub clip : Str

abbrev strip_prefix : Str → Str → Option Str
strip_prefix [] t = some t
strip_prefix (a ∷ s) [] = none
strip_prefix (a ∷ s) (b ∷ t) = let rest = strip_prefix s t in if a == b then rest else none

-- The text behind the first separator, and before it.
abbrev text_after : Str → Str → Option Str
text_after sep [] = strip_prefix sep []
text_after sep (b ∷ t) = elim (strip_prefix sep (b ∷ t)) [
  | some rest ↦ some rest
  | none ↦ text_after sep t
]

abbrev text_before : Str → Str → Str
text_before sep [] = []
text_before sep (b ∷ t) =
    let rest = text_before sep t in
    elim (strip_prefix sep (b ∷ t)) [ some _ ↦ [] | none ↦ b ∷ rest ]

abbrev pub bare_host : Str → Str
bare_host host = elim (text_after (codes "www.") host) [
  | none ↦ host
  | some rest ↦ text_before (codes "www.") rest
]

abbrev pub last_segment : List Str → Str
last_segment [] = []
last_segment (s ∷ []) = s
last_segment (s ∷ t ∷ ts) = last_segment (t ∷ ts)

abbrev dot : ℕ
dot = 46

abbrev pub ampersand : ℕ
ampersand = 38

abbrev pub file_extension : Str → Str
file_extension path = dot ∷ last_segment (split dot path)

abbrev first_segment : List Str → Str
first_segment [] = []
first_segment (s ∷ ss) = s

-- The url that NewYouTubeStream keeps.
abbrev pub youtube_url : Str → Str
youtube_url url = first_segment (split ampersand url)

abbrev pub is_supported_format : Str → Bool
is_supported_format format =
    is_in (to_lower format) (codes ".mp4" ∷ codes ".webm" ∷ codes ".mkv" ∷ [])

-- The kind of a stream and the url that its object keeps.
abbrev pub Source : Type 0
Source = StreamKind × Str

-- The cases of the switch on the host.
abbrev pub is_youtube : Url → Bool
is_youtube u =
    is_in (bare_host u.host) (codes "youtube.com" ∷ codes "youtu.be" ∷ codes "m.youtube.com" ∷ [])

abbrev pub is_soundcloud : Url → Bool
is_soundcloud u =
    is_in (bare_host u.host) (codes "api.soundcloud.com" ∷ codes "soundcloud.com" ∷ [])

abbrev pub is_twitch : Url → Bool
is_twitch u = str_eq (bare_host u.host) (codes "twitch.tv")

abbrev pub is_twitch_clip : Url → Bool
is_twitch_clip u = str_eq (bare_host u.host) (codes "clips-media-assets.twitch.tv")

unfoldable pub remote_source : Str → Url → Outcome StreamError Source
remote_source url u =
    if is_youtube u
    then ok (youtube, youtube_url url)
    else if is_soundcloud u
    then ok (soundcloud, url)
    else if is_twitch u
    then ok (twitch, url)
    else if is_twitch_clip u
    then (if length u.clip == 0 then err (missing_clip url) else ok (twitch_clip, url))
    else if is_supported_format (file_extension u.path)
    then ok (movie, url)
    else err (unsupported_source url)

abbrev pub is_http : Url → Bool
is_http u = is_in u.scheme (codes "http" ∷ codes "https" ∷ [])

abbrev pub is_video : Str → Bool
is_video mime = is_there (strip_prefix (codes "video") mime)

-- `parse` is net/url, `mime_type` is mime.TypeByExtension, and `is_file` asks the file system for a
-- file of the stream data.
module _ (parse : Str → Option Url) (mime_type : Str → Str) (is_file : Str → Bool) where
  unfoldable pub local_source : Str → Outcome StreamError Source
  local_source name =
      if is_video (mime_type (file_extension name))
      then (if is_file name then ok (movie, name) else err (no_such_file name))
      else err (unsupported_file name)

  unfoldable pub source : Str → Outcome StreamError Source
  source url = elim (parse url) [
    | none ↦ err (invalid_url url)
    | some u ↦ if is_http u then remote_source url u else local_source url
  ]
