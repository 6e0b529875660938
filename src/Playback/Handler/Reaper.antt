-- ===== src/Playback/Handler/Reaper.antt =====
-- pkg/playback/reaper.go: one pass of the reaper over the playbacks.
use streaming_server.Base.{
  ℕ, ◌-◌, Bool, true, false, ◌&&◌, List, [], ◌∷◌, ◌≡◌, inl, inr, refl, sym, ap, ◌∙◌, Option, none,
  some, if◌then◌else◌, Bool-cases, Option-cases, ltb, ok, err, panic, diverges, All,
}
use streaming_server.Base.Text.{Str, str_eq, str_eq_iff}
use streaming_server.Base.Dict.{Dict, lookup, delete, values, lookup-delete}
use streaming_server.Queue.Item.{Result}
use streaming_server.Queue.RoundRobin.Singles.{HoldsStreams}
use streaming_server.Connections.{Connections, delete_namespace_by_name}
use streaming_server.Playback.Room.{Room, Playback}
use streaming_server.Playback.Room.Ends.{cleanup_lem}
use streaming_server.Playback.Handler.{Playbacks, is_deserted, is_reapable, reap_playback, cleaned}

-- MaxStaleSPlaybackObjectDuration, five minutes in nanoseconds.
abbrev pub max_stale_playback_duration : ℕ
max_stale_playback_duration = 300000000000

-- The test of the loop.
unfoldable pub is_stale : ℕ → Playbacks → Playback → Bool
is_stale now s p = is_reapable s p && ltb max_stale_playback_duration (now - p.last_updated)

-- The loop over Playbacks, which copies the map's values first.
unfoldable pub reap_each : ℕ → List Playback → Playbacks → Playbacks × Result (Unit {0})
reap_each now [] s = (s, ok tt)
reap_each now (p ∷ more) s =
    let (s', o) = reap_playback s p in
    let rest = reap_each now more s' in
    let others = reap_each now more s in
    if is_stale now s p
    then elim o [
      | ok _ ↦ rest
      | err e ↦ (s', err e)
      | panic ↦ (s', panic)
      | diverges ↦ (s', diverges)
    ]
    else others

unfoldable pub reap : ℕ → Playbacks → Playbacks × Result (Unit {0})
reap now s = reap_each now (values s.playbacks) s

-- Each playback stands under its own name, once, and its users' queues hold streams only.
abbrev pub Named : Dict Playback → Type 0
Named [] = Unit
Named ((k, p) ∷ m) = (p.name ≡ k) × (lookup k m ≡ none) × HoldsStreams p.queue.heap × Named m

-- What a playback that is reaped leaves: the maps without its name.
reap_playback_lem :
    (s : Playbacks) (p : Playback)
    → lookup p.name s.playbacks ≡ some p
    → HoldsStreams p.queue.heap
    → ((reap_playback s p).1 ≡ ok true)
      × ((reap_playback s p).0.playbacks ≡ delete p.name s.playbacks)
      × ((reap_playback s p).0.connections ≡ (delete_namespace_by_name s.connections p.name).0)
unfolding reap_playback cleaned
reap_playback_lem s p there hs =
    let r : Room = record { playback = p; streams = s.streams } in
    let (ends, name, _) = cleanup_lem r hs in
    rw (there, reap_playback)
      (rw (ends, cleaned)
        (
          refl,
          ap (λ k. delete k s.playbacks) name,
          ap (λ k. (delete_namespace_by_name s.connections k).0) name,
        ))

lookup-delete_namespace :
    (s : Connections) (name k : Str)
    → lookup k (delete_namespace_by_name s name).0.ns_by_name
      ≡ (if str_eq name k then none else lookup k s.ns_by_name)
unfolding delete_namespace_by_name
lookup-delete_namespace s name k = elim (Option-cases (lookup name s.ns_by_name)) [
  | inl missing ↦
      rw (missing, delete_namespace_by_name)
        (elim (Bool-cases (str_eq name k)) [
          | inl hit ↦
              rw hit (ap (λ j. lookup j s.ns_by_name) (sym ((str_eq_iff name k).0 hit)) ∙ missing)
          | inr miss ↦ rw miss refl
        ])
  | inr (n, found) ↦ rw (found, delete_namespace_by_name) (lookup-delete name k s.ns_by_name)
]

-- Some stale playback of the list has the name.
abbrev pub reaps : ℕ → Playbacks → List Playback → Str → Bool
reaps now s [] k = false
reaps now s (p ∷ more) k = if is_stale now s p && str_eq p.name k then true else reaps now s more k

-- The playbacks that the loop has not seen yet: each stands under its name, which is no other's.
abbrev pub Pending : Playbacks → List Playback → Type 0
Pending s [] = Unit
Pending s (p ∷ more) =
    (lookup p.name s.playbacks ≡ some p)
    × HoldsStreams p.queue.heap
    × All (λ (q : Playback). str_eq p.name q.name ≡ false) more
    × Pending s more

is_stale_same :
    (now : ℕ) (s t : Playbacks) (p : Playback)
    → lookup p.name t.connections.ns_by_name ≡ lookup p.name s.connections.ns_by_name
    → is_stale now t p ≡ is_stale now s p
unfolding is_stale is_reapable
is_stale_same now s t p e =
    ap (λ o. is_deserted o && ltb max_stale_playback_duration (now - p.last_updated)) e

-- The loop goes on with the others as before when one of another name is reaped.
Pending-later :
    (now : ℕ) (s t : Playbacks) (name : Str) (more : List Playback)
    → All (λ (q : Playback). str_eq name q.name ≡ false) more
    → ((k : Str) → str_eq name k ≡ false → lookup k t.playbacks ≡ lookup k s.playbacks)
    → ((k : Str)
        → str_eq name k ≡ false
        → lookup k t.connections.ns_by_name ≡ lookup k s.connections.ns_by_name)
    → Pending s more
    → Pending t more × ((k : Str) → reaps now t more k ≡ reaps now s more k)
Pending-later now s t name [] ne same same_ns p = (tt, (λ k. refl))
Pending-later now s t name (q ∷ more) (ne, nes) same same_ns (there, hs, ds, p) =
    let (p', rs) = Pending-later now s t name more nes same same_ns p in
    (
      (same q.name ne ∙ there, hs, ds, p'),
      λ k. rw (is_stale_same now s t q (same_ns q.name ne), rs k) refl,
    )

-- What a loop over the list does to the maps.
abbrev pub Reaps : ℕ → Playbacks → List Playback → Playbacks × Result (Unit {0}) → Type 0
Reaps now s ps (s', o) =
    (o ≡ ok tt)
    × ((k : Str)
        → lookup k s'.playbacks ≡ (if reaps now s ps k then none else lookup k s.playbacks))
    × ((k : Str)
        → lookup k s'.connections.ns_by_name
          ≡ (if reaps now s ps k then none else lookup k s.connections.ns_by_name))

both :
    {V : Type 0} (b c : Bool) (x : Option V)
    → (if c then none else (if b then none else x)) ≡ (if (if b then true else c) then none else x)
both true true x = refl
both true false x = refl
both false c x = refl

pub reap_each-Reaps :
    (now : ℕ) (ps : List Playback) (s : Playbacks)
    → Pending s ps
    → Reaps now s ps (reap_each now ps s)
unfolding reap_each
reap_each-Reaps now [] s p = (refl, (λ k. refl), (λ k. refl))
reap_each-Reaps now (p ∷ more) s (there, hs, ds, pending) = elim (Bool-cases (is_stale now s p)) [
  | inr fresh ↦ rw (fresh, reap_each) (reap_each-Reaps now more s pending)
  | inl stale ↦
      let (ends, map, cs) = reap_playback_lem s p there hs in
      let t = (reap_playback s p).0 in
      let at : (k : Str)
          → lookup k t.playbacks ≡ (if str_eq p.name k then none else lookup k s.playbacks) =
        (λ k. ap (lookup k) map ∙ lookup-delete p.name k s.playbacks) in
      let at_ns : (k : Str)
          → lookup k t.connections.ns_by_name
            ≡ (if str_eq p.name k then none else lookup k s.connections.ns_by_name) =
        (λ k.
          ap (λ c. lookup k c.ns_by_name) cs ∙ lookup-delete_namespace s.connections p.name k) in
      let (pending', same) =
        Pending-later now s t p.name more ds (λ k ne. at k ∙ rw ne refl)
          (λ k ne. at_ns k ∙ rw ne refl) pending in
      let (ends', at', at_ns') = reap_each-Reaps now more t pending' in
      rw (stale, reap_each)
        (rw ends (
          ends',
          (λ k.
              at' k
              ∙ rw (same k, at k)
                  (both (str_eq p.name k) (reaps now s more k) (lookup k s.playbacks))),
          (λ k.
              at_ns' k
              ∙ rw (same k, at_ns k)
                  (both (str_eq p.name k) (reaps now s more k)
                    (lookup k s.connections.ns_by_name))),
        ))
]
