-- ===== src/Playback/Handler/Reaped.antt =====
-- pkg/playback/reaper.go: which playbacks a pass of the reaper removes.
use streaming_server.Base.{
  ℕ, ◌-◌, Bool, false, ◌&&◌, List, [], ◌∷◌, ◌≡◌, inl, inr, refl, sym, ap, ◌∙◌, arith, Option, none,
  some, if◌then◌else◌, Bool-cases, ltb, ok, All, subst,
}
use streaming_server.Base.Text.{Str, str_eq, str_eq_iff, str_eq_refl}
use streaming_server.Base.Dict.{Dict, lookup, values}
use streaming_server.Playback.Room.{Playback}
use streaming_server.Playback.Handler.{Playbacks, is_deserted, is_reapable}
use streaming_server.Playback.Handler.Reaper.{
  max_stale_playback_duration, is_stale, reap, Named, reaps, Pending, reap_each-Reaps,
}

-- Nobody is in the room of the name, and its playback has not been updated for longer than the limit.
abbrev pub is_reaped : ℕ → Playbacks → Str → Bool
is_reaped now s k = elim (lookup k s.playbacks) [
  | none ↦ false
  | some p ↦
      is_deserted (lookup k s.connections.ns_by_name)
      && ltb max_stale_playback_duration (now - p.last_updated)
]

other_names :
    (k : Str) (m : Dict Playback)
    → Named m
    → lookup k m ≡ none
    → All (λ (q : Playback). str_eq k q.name ≡ false) (values m)
unfolding lookup
other_names k [] n e = tt
other_names k ((j, q) ∷ m) (name, once, hs, n) e = elim (Bool-cases (str_eq j k)) [
  | inl hit ↦ absurd (ground (arith, e, hit))
  | inr miss ↦
      let differs : str_eq k q.name ≡ false =
        rw name (ground (arith, miss, str_eq_iff j k, str_eq_iff k j)) in
      (differs, other_names k m n (rw miss at e))
]

Named-Pending :
    (s : Playbacks) (m : Dict Playback)
    → Named m
    → ((k : Str) (p : Playback) → lookup k m ≡ some p → lookup k s.playbacks ≡ some p)
    → Pending s (values m)
unfolding lookup
Named-Pending s [] n within = tt
Named-Pending s ((k, p) ∷ m) (name, once, hs, n) within = (
  subst (λ j. lookup j s.playbacks ≡ some p) (sym name) (within k p (rw (str_eq_refl k) refl)),
  hs,
  rw name (other_names k m n once),
  Named-Pending s m n later,
)
  where
    later : (j : Str) (q : Playback) → lookup j m ≡ some q → lookup j s.playbacks ≡ some q
    later j q e = elim (Bool-cases (str_eq k j)) [
      | inl hit ↦
          let gone : lookup j m ≡ none =
            ap (λ x. lookup x m) (sym ((str_eq_iff k j).0 hit)) ∙ once in
          absurd (ground (arith, e, gone))
      | inr miss ↦ within j q (rw miss e)
    ]

reaps-other :
    (now : ℕ) (s : Playbacks) (ps : List Playback) (k : Str)
    → All (λ (q : Playback). str_eq k q.name ≡ false) ps
    → reaps now s ps k ≡ false
reaps-other now s [] k h = refl
reaps-other now s (q ∷ ps) k (ne, h) =
    let ih = reaps-other now s ps k h in
    ground (arith, ne, ih, str_eq_iff k q.name, str_eq_iff q.name k)

reaps-is_reaped :
    (now : ℕ) (s : Playbacks) (m : Dict Playback) (k : Str)
    → Named m
    → reaps now s (values m) k ≡ elim (lookup k m) [ none ↦ false | some p ↦ is_stale now s p ]
unfolding lookup
reaps-is_reaped now s [] k n = refl
reaps-is_reaped now s ((j, p) ∷ m) k (name, once, hs, n) = elim (Bool-cases (str_eq j k)) [
  | inl hit ↦
      let gone : lookup k m ≡ none = ap (λ x. lookup x m) (sym ((str_eq_iff j k).0 hit)) ∙ once in
      let none_left = reaps-other now s (values m) k (other_names k m n gone) in
      rw (name, hit) (ground (arith, hit, none_left))
  | inr miss ↦ rw (name, miss) (ground (arith, miss, reaps-is_reaped now s m k n))
]

Named-name :
    (m : Dict Playback) (k : Str) (p : Playback) → Named m → lookup k m ≡ some p → p.name ≡ k
unfolding lookup
Named-name [] k p n e = absurd (ground (arith, e))
Named-name ((j, q) ∷ m) k p (name, once, hs, n) e = elim (Bool-cases (str_eq j k)) [
  | inl hit ↦
      let same : q ≡ p = ground (arith, e, hit) in
      sym (ap (λ (x : Playback). x.name) same) ∙ name ∙ (str_eq_iff j k).0 hit
  | inr miss ↦ Named-name m k p n (rw miss at e)
]

reaps-playbacks :
    (now : ℕ) (s : Playbacks) (k : Str)
    → Named s.playbacks
    → reaps now s (values s.playbacks) k ≡ is_reaped now s k
unfolding is_stale is_reapable
reaps-playbacks now s k n =
    reaps-is_reaped now s s.playbacks k n ∙ at_name (lookup k s.playbacks) refl
  where
    at_name :
        (o : Option Playback)
        → lookup k s.playbacks ≡ o
        → elim o [ none ↦ false | some p ↦ is_stale now s p ] ≡ elim o [
          | none ↦ false
          | some p ↦
              is_deserted (lookup k s.connections.ns_by_name)
              && ltb max_stale_playback_duration (now - p.last_updated)
        ]
    at_name none e = refl
    at_name (some p) e =
        ap
          (λ j.
            is_deserted (lookup j s.connections.ns_by_name)
            && ltb max_stale_playback_duration (now - p.last_updated))
          (Named-name s.playbacks k p n e)

-- Where each playback stands under its own name and the users' queues hold streams only, a pass of the
-- reaper returns and removes exactly the playbacks, with their namespaces, that nobody is in and that
-- have not been updated for longer than the limit.
pub lookup-reap :
    (now : ℕ) (s : Playbacks)
    → Named s.playbacks
    → ((reap now s).1 ≡ ok tt)
      × ((k : Str)
          → lookup k (reap now s).0.playbacks
            ≡ (if is_reaped now s k then none else lookup k s.playbacks))
      × ((k : Str)
          → lookup k (reap now s).0.connections.ns_by_name
            ≡ (if is_reaped now s k then none else lookup k s.connections.ns_by_name))
unfolding reap
lookup-reap now s n =
    let (ends, at, at_ns) =
      reap_each-Reaps now (values s.playbacks) s (Named-Pending s s.playbacks n (λ k p e. e)) in
    (
      ends,
      (λ k. at k ∙ rw (reaps-playbacks now s k n) refl),
      (λ k. at_ns k ∙ rw (reaps-playbacks now s k n) refl),
    )
