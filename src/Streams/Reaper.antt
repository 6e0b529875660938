-- ===== src/Streams/Reaper.antt =====
-- pkg/stream/reaper.go: one pass of the reaper over the registered streams.
use streaming_server.Base.{
  ℕ, ◌-◌, Bool, true, false, ◌&&◌, List, [], ◌∷◌, ◌≡◌, Option, none, some, if◌then◌else◌, ltb,
  length, ◌==◌,
}
use streaming_server.Base.Text.{Str, str_eq}
use streaming_server.Base.Dict.{Dict, lookup, values}
use streaming_server.Streams.{Stream, Streams, reap_stream}

-- MaxStaleStreamDuration, five minutes in nanoseconds.
abbrev pub max_stale_stream_duration : ℕ
max_stale_stream_duration = 300000000000

unfoldable pub is_reapable : ℕ → Stream → Bool
is_reapable now s =
    length s.parent_refs == 0 && ltb max_stale_stream_duration (now - s.last_updated)

-- The loop over GetStreams, which copies the map's values first.
unfoldable pub reap_each : ℕ → List ℕ → Streams → Streams
reap_each now [] h = h
reap_each now (a ∷ more) h =
    if is_reapable now (h.objects a)
    then reap_each now more (reap_stream h (h.objects a)).0
    else reap_each now more h

unfoldable pub reap : ℕ → Streams → Streams
reap now h = reap_each now (values h.by_url) h

-- Every stream is registered under its own url, and each url once.
abbrev pub Registered : (ℕ → Stream) → Dict ℕ → Type 0
Registered objects [] = Unit
Registered objects ((k, a) ∷ m) = ((objects a).url ≡ k) × (lookup k m ≡ none) × Registered objects m

-- A reapable stream of the list has the url.
abbrev reaps : ℕ → (ℕ → Stream) → List ℕ → Str → Bool
reaps now objects [] k = false
reaps now objects (a ∷ more) k =
    if is_reapable now (objects a) && str_eq (objects a).url k
    then true
    else reaps now objects more k

-- What a pass leaves under a url.
abbrev pub left : ℕ → (ℕ → Stream) → Option ℕ → Option ℕ
left now objects none = none
left now objects (some a) = if is_reapable now (objects a) then none else some a
