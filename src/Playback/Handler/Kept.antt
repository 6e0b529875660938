-- ===== src/Playback/Handler/Kept.antt =====
-- pkg/playback/reaper.go: what a pass of the reaper leaves as it is.
use streaming_server.Base.{
  ℕ, Bool, List, [], ◌∷◌, ◌≡◌, inl, inr, refl, ◌∙◌, arith, none, Bool-cases, Option-cases, ok, err,
  panic, diverges,
}
use streaming_server.Base.Text.{Str, str_eq}
use streaming_server.Base.Dict.{Dict, lookup, delete, lookup-delete}
use streaming_server.Queue.Item.{Result}
use streaming_server.Connections.{Connections, delete_namespace_by_name}
use streaming_server.Playback.Room.{Room, Playback, cleanup}
use streaming_server.Playback.Handler.{Playbacks, reap_playback, cleaned}
use streaming_server.Playback.Handler.Reaper.{Named, reap_each, is_stale}

delete-Named : (k : Str) (m : Dict Playback) → Named m → Named (delete k m)
unfolding delete lookup
delete-Named k [] n = tt
delete-Named k ((j, q) ∷ m) (name, once, hs, n) = elim (Bool-cases (str_eq j k)) [
  | inl hit ↦ rw (hit, delete) (delete-Named k m n)
  | inr miss ↦
      let gone : lookup j (delete k m) ≡ none = lookup-delete k j m ∙ rw once (ground arith) in
      rw (miss, delete) (name, gone, hs, delete-Named k m n)
]

-- The playbacks stay under their names, and the connections keep the rooms that they joined.
abbrev pub Keeps : Playbacks → Playbacks → Type 0
Keeps s t = Named t.playbacks × (t.connections.joined ≡ s.connections.joined)

delete_namespace-joined :
    (s : Connections) (name : Str) → (delete_namespace_by_name s name).0.joined ≡ s.joined
unfolding delete_namespace_by_name
delete_namespace-joined s name = elim (Option-cases (lookup name s.ns_by_name)) [
  | inl missing ↦ rw (missing, delete_namespace_by_name) refl
  | inr (_, found) ↦ rw (found, delete_namespace_by_name) refl
]

cleaned-Keeps :
    (s : Playbacks) (t : Room × Result (Unit {0})) → Named s.playbacks → Keeps s (cleaned s t).0
unfolding cleaned
cleaned-Keeps s (r, ok _) n = (
  delete-Named r.playback.name s.playbacks n,
  delete_namespace-joined s.connections r.playback.name,
)
cleaned-Keeps s (r, err e) n = (n, refl)
cleaned-Keeps s (r, panic) n = (n, refl)
cleaned-Keeps s (r, diverges) n = (n, refl)

reap_playback-Keeps :
    (s : Playbacks) (p : Playback) → Named s.playbacks → Keeps s (reap_playback s p).0
unfolding reap_playback
reap_playback-Keeps s p n = elim (Option-cases (lookup p.name s.playbacks)) [
  | inl missing ↦ rw (missing, reap_playback) (n, refl)
  | inr (sp, found) ↦
      rw (found, reap_playback)
        (cleaned-Keeps s (cleanup (record { playback = sp; streams = s.streams })) n)
]

pub reap_each-Keeps :
    (now : ℕ) (ps : List Playback) (s : Playbacks)
    → Named s.playbacks
    → Keeps s (reap_each now ps s).0
unfolding reap_each
reap_each-Keeps now [] s n = (n, refl)
reap_each-Keeps now (p ∷ ps) s n = elim (Bool-cases (is_stale now s p)) [
  | inr fresh ↦ rw (fresh, reap_each) (reap_each-Keeps now ps s n)
  | inl stale ↦
      let (n', same) = reap_playback-Keeps s p n in
      let (n'', same') = reap_each-Keeps now ps (reap_playback s p).0 n' in
      rw (stale, reap_each) (at_outcome (reap_playback s p).1 (n', same) (n'', same' ∙ same))
]
  where
    at_outcome :
        (o : Result Bool)
        → Keeps s (reap_playback s p).0
        → Keeps s (reap_each now ps (reap_playback s p).0).0
        → Keeps s
            (elim o as (λ _. Playbacks × Result (Unit {0})) [
              | ok _ ↦ reap_each now ps (reap_playback s p).0
              | err e ↦ ((reap_playback s p).0, err e)
              | panic ↦ ((reap_playback s p).0, panic)
              | diverges ↦ ((reap_playback s p).0, diverges)
            ]).0
    at_outcome (ok _) here later = later
    at_outcome (err e) here later = here
    at_outcome panic here later = here
    at_outcome diverges here later = here
