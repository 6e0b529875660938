-- ===== src/Streams/Registry.antt =====
-- pkg/stream/handler.go: NewStream registers a stream under the url that it is given.
use streaming_server.Base.{
  ℕ, suc, ◌<◌, Bool, [], ◌≡◌, ◌⊎◌, Option, none, some, if◌then◌else◌, Outcome, ok, err, panic,
  diverges,
}
use streaming_server.Base.Text.{Str, str_eq}
use streaming_server.Base.Dict.{lookup, insert}
use streaming_server.Streams.{
  Stream, Streams, StreamError, already_registered, Url, Source, source, set_object,
}

-- NewStreamMeta, at the time `now`.
abbrev pub created : Source → ℕ → Stream
created src now = record {
  url = src.1;
  kind = src.0;
  last_updated = now;
  creation_source = none;
  parent_refs = [];
  labelled_refs = [];
}

registered : Streams → Str → ℕ → Outcome StreamError Source → Streams × Outcome StreamError ℕ
registered h url now (ok src) = (
  record {
    objects = set_object h.objects h.allocated (created src now);
    by_url = insert url h.allocated h.by_url;
    allocated = suc h.allocated;
  },
  ok h.allocated,
)
registered h url now (err e) = (h, err e)
registered h url now panic = (h, panic)
registered h url now diverges = (h, diverges)

-- A source or an error.
data Returning : Outcome StreamError Source → Type 0 where
  gives : {src : Source} → Returning (ok src)
  fails : {e : StreamError} → Returning (err e)

module _ (parse : Str → Option Url) (mime_type : Str → Str) (is_file : Str → Bool) where
  unfoldable pub new_stream : Streams → Str → ℕ → Streams × Outcome StreamError ℕ
  unfolding registered
  new_stream h url now = elim (lookup url h.by_url) [
    | some _ ↦ (h, err (already_registered url))
    | none ↦ registered h url now (source parse mime_type is_file url)
  ]

  -- What NewStream promises: a registered url and a url without a source are refused.
  abbrev pub Registers : Streams → Str → ℕ → Streams × Outcome StreamError ℕ → Type 0
  Registers h url now (h', r) =
      ((e : StreamError) × (r ≡ err e) × (h' ≡ h))
      ⊎ ((src : Source) × (lookup url h.by_url ≡ none)
          × (source parse mime_type is_file url ≡ ok src)
          × (r ≡ ok h.allocated)
          × (h'.objects h.allocated ≡ created src now)
          × ((k : Str)
              → lookup k h'.by_url ≡ (if str_eq url k then some h.allocated else lookup k h.by_url))
          × ((a : ℕ) → a < h.allocated → h'.objects a ≡ h.objects a))
