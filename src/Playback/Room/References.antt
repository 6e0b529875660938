-- ===== src/Playback/Room/References.antt =====
-- pkg/playback/playback.go: which streams a room refers to.
use streaming_server.Base.{
  ℕ, Bool, true, false, ◌≡◌, ◌≢◌, inl, inr, refl, ◌∙◌, arith, none, some, Bool-cases, Option-cases,
  ==_refl,
}
use streaming_server.Base.Text.{Str, str_eq_refl}
use streaming_server.Base.Dict.{lookup, lookup-insert, lookup-delete}
use streaming_server.Queue.Schema
use streaming_server.Streams.{
  Stream, set_object, add_parent_ref, remove_parent_ref, remove_labelled_ref, get_labelled_ref,
  is_there,
}
use streaming_server.Playback.Room.{Room, set_stream, released, unknown}

-- The room refers to the stream.
abbrev pub refers : Str → Stream → Bool
refers name s = is_there (lookup name s.parent_refs)

pub refers-add : (s : Stream) (name : Str) → refers name (add_parent_ref s name).0 ≡ true
unfolding add_parent_ref
refers-add s name = elim (Bool-cases (is_there (lookup name s.parent_refs))) [
  | inl there ↦ rw (there, add_parent_ref) there
  | inr missing ↦
      rw (missing, add_parent_ref)
        (rw (lookup-insert name name name s.parent_refs) (rw (str_eq_refl name) refl))
]

refers-remove : (s : Stream) (name : Str) → refers name (remove_parent_ref s name).0 ≡ false
unfolding remove_parent_ref
refers-remove s name = elim (Bool-cases (is_there (lookup name s.parent_refs))) [
  | inl there ↦
      rw (there, remove_parent_ref)
        (rw (lookup-delete name name s.parent_refs) (rw (str_eq_refl name) refl))
  | inr missing ↦ rw (missing, remove_parent_ref) missing
]

parents-remove_labelled :
    (s : Stream) (name : Str) → (remove_labelled_ref s name).0.parent_refs ≡ s.parent_refs
unfolding remove_labelled_ref
parents-remove_labelled s name = elim (Bool-cases (is_there (lookup name s.labelled_refs))) [
  | inl there ↦ rw (there, remove_labelled_ref) refl
  | inr missing ↦ rw (missing, remove_labelled_ref) refl
]

pub set_object_self : (objects : ℕ → Stream) (p : ℕ) (s : Stream) → set_object objects p s p ≡ s
unfolding set_object
set_object_self objects p s = rw (==_refl p) refl

set_object_other :
    (objects : ℕ → Stream) (p q : ℕ) (s : Stream) → q ≢ p → set_object objects p s q ≡ objects q
unfolding set_object
set_object_other objects p q s ne = ground (arith, ne)

-- SetStream makes the stream the one that plays; the room no longer refers to the one before, if it
-- is another; no other stream changes.
pub set_stream_lem :
    (names : Str → Str) (r : Room) (old p now : ℕ)
    → r.playback.stream ≡ some old
    → old ≢ p
    → ((set_stream names r p now).playback.stream ≡ some p)
      × (((set_stream names r p now).streams.objects p).last_updated ≡ now)
      × (refers r.playback.name ((set_stream names r p now).streams.objects old) ≡ false)
      × ((q : ℕ)
          → q ≢ p
          → q ≢ old
          → (set_stream names r p now).streams.objects q ≡ r.streams.objects q)
unfolding set_stream released
set_stream_lem names r old p now playing ne =
    let objects = (released r.streams r.playback.name (some old)).objects in
    let gone =
      remove_labelled_ref (remove_parent_ref (r.streams.objects old) r.playback.name).0
        r.playback.name in
    let shut : refers r.playback.name gone.0 ≡ false =
      rw
        (parents-remove_labelled (remove_parent_ref (r.streams.objects old) r.playback.name).0
          r.playback.name)
        (refers-remove (r.streams.objects old) r.playback.name) in
    rw playing (
      refl,
      rw (set_object_self objects p (record (objects p) { last_updated = now })) refl,
      rw (set_object_other objects p old (record (objects p) { last_updated = now }) ne)
          (rw (set_object_self r.streams.objects old gone.0) shut),
      (λ q np no.
          set_object_other objects p q (record (objects p) { last_updated = now }) np
          ∙ set_object_other r.streams.objects old q gone.0 no),
    )

label-remove :
    (s : Stream) (name : Str) → get_labelled_ref (remove_labelled_ref s name).0 name ≡ none
unfolding remove_labelled_ref
label-remove s name = elim (Option-cases (lookup name s.labelled_refs)) [
  | inl missing ↦ rw (missing, remove_labelled_ref) missing
  | inr (client, there) ↦
      rw (there, remove_labelled_ref)
        (rw (lookup-delete name name s.labelled_refs) (rw (str_eq_refl name) refl))
]

-- If SetStream is given the stream that plays already, the room no longer refers to it, and no user
-- is known to have started it.
pub set_stream_same :
    (names : Str → Str) (r : Room) (p now : ℕ)
    → r.playback.stream ≡ some p
    → (refers r.playback.name ((set_stream names r p now).streams.objects p) ≡ false)
      × ((set_stream names r p now).playback.started_by ≡ unknown)
unfolding set_stream released
set_stream_same names r p now playing =
    let objects = (released r.streams r.playback.name (some p)).objects in
    let gone =
      remove_labelled_ref (remove_parent_ref (r.streams.objects p) r.playback.name).0
        r.playback.name in
    let shut : refers r.playback.name gone.0 ≡ false =
      rw
        (parents-remove_labelled (remove_parent_ref (r.streams.objects p) r.playback.name).0
          r.playback.name)
        (refers-remove (r.streams.objects p) r.playback.name) in
    rw playing (
      rw (set_object_self objects p (record (objects p) { last_updated = now }))
          (rw (set_object_self r.streams.objects p gone.0) shut),
      rw (set_object_self r.streams.objects p gone.0, set_stream)
          (rw
            (label-remove (remove_parent_ref (r.streams.objects p) r.playback.name).0
              r.playback.name)
            refl),
    )
