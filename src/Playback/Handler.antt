-- ===== src/Playback/Handler.antt =====
-- pkg/playback/handler.go: the playbacks of the rooms, with the streams and the namespaces that they
-- share with other parts. The goroutine of the admin picker, which NewPlayback starts, is left out.
pub mod Reaper
pub mod Reaped
pub mod Kept
mod Tests
use streaming_server.Base.{
  ℕ, Bool, true, false, List, [], ◌∷◌, Option, none, some, length, Outcome, ok, err, panic,
  diverges, ◌==◌,
}
use streaming_server.Base.Text.{Str}
use streaming_server.Base.Dict.{Dict, lookup, insert, delete, values}
use streaming_server.Queue.Item.{Heap, Result}
use streaming_server.Streams.{Streams}
use streaming_server.Connections.{Connections, Namespace, delete_namespace_by_name}
use streaming_server.Playback.Room.{Room, Playback, new_playback, cleanup}

-- `playbacks` stands for `streamplaybacks`.
pub record Playbacks : Type 0 where
  pub playbacks : Dict Playback
  pub streams : Streams
  pub connections : Connections

-- NewPlayback of the handler for a namespace of the name; without a name it panics.
unfoldable pub create_playback : Heap → Playbacks → Str → ℕ → Playbacks × Outcome ⊥ Playback
create_playback heap s [] now = (s, panic)
create_playback heap s (c ∷ cs) now =
    let p = new_playback heap (c ∷ cs) now in
    (record s { playbacks = insert (c ∷ cs) p s.playbacks }, ok p)

unfoldable pub playback_by_namespace : Playbacks → Str → Option Playback
playback_by_namespace s name = lookup name s.playbacks

cleaned : Playbacks → Room × Result (Unit {0}) → Playbacks × Result Bool
cleaned s (r, ok _) = (
  record {
    playbacks = delete r.playback.name s.playbacks;
    streams = r.streams;
    connections = (delete_namespace_by_name s.connections r.playback.name).0;
  },
  ok true,
)
cleaned s (r, err e) = (record s { streams = r.streams }, err e)
cleaned s (r, panic) = (record s { streams = r.streams }, panic)
cleaned s (r, diverges) = (record s { streams = r.streams }, diverges)

-- ReapPlayback; the error of DeleteNamespaceByName is dropped.
unfoldable pub reap_playback : Playbacks → Playback → Playbacks × Result Bool
unfolding cleaned
reap_playback s p = elim (lookup p.name s.playbacks) [
  | none ↦ (s, ok false)
  | some sp ↦ cleaned s (cleanup (record { playback = sp; streams = s.streams }))
]

-- IsReapable: the room has no namespace, or nobody is in it.
abbrev pub is_deserted : Option Namespace → Bool
is_deserted none = true
is_deserted (some n) = length (values n.connections) == 0

unfoldable pub is_reapable : Playbacks → Playback → Bool
is_reapable s p = is_deserted (lookup p.name s.connections.ns_by_name)
