-- ===== src/Socket/Connect/Sound.antt =====
-- pkg/socket/handler.go: what holds of the server between its steps.
use streaming_server.Base.{
  ℕ, true, false, [], ◌∷◌, ◌≡◌, ◌≢◌, inl, inr, refl, sym, ap, ◌∙◌, arith, none, some, Bool-cases,
  Option-cases, subst,
}
use streaming_server.Base.Text.{Str, str_eq, str_eq_iff}
use streaming_server.Base.Dict.{Dict, lookup, insert, lookup-insert}
use streaming_server.Queue.RoundRobin.Singles.{HoldsStreams}
use streaming_server.Connections.{
  Connections, Namespace, ns, ensure, new_namespace, add, add_to_namespace, remove,
  remove_from_namespace,
}
use streaming_server.Connections.Members.{is_some, is_member}
use streaming_server.Playback.Room.{Playback}
use streaming_server.Playback.Handler.Reaper.{Named}
use streaming_server.Socket.{Server}

-- Every namespace stands under its own name.
abbrev pub AllNamed : Dict Namespace → Type 0
AllNamed m = (k : Str) (n : Namespace) → lookup k m ≡ some n → n.name ≡ k

-- The client is in its room, and the room has a playback.
abbrev pub IsPresent : Connections → Dict Playback → Str → Type 0
IsPresent cs ps conn =
    (is_member cs (ns cs conn) conn ≡ true) × (is_some (lookup (ns cs conn) ps) ≡ true)

pub record IsSound (s : Server) : Type 0 where
  pub rooms : AllNamed s.connections.ns_by_name
  pub playbacks : Named s.playbacks
  pub nameless : lookup [] s.playbacks ≡ none
  pub present :
      (conn : Str)
      → is_some (lookup conn s.clients_by_id) ≡ true
      → ns s.connections conn ≢ []
      → IsPresent s.connections s.playbacks conn

AllNamed-insert :
    (m : Dict Namespace) (k : Str) (n : Namespace)
    → AllNamed m
    → n.name ≡ k
    → AllNamed (insert k n m)
AllNamed-insert m k n h e j n' found = elim (Bool-cases (str_eq k j)) [
  | inl hit ↦
      let same : n ≡ n' = ground (arith, found, lookup-insert k j n m, hit) in
      sym (ap (λ (x : Namespace). x.name) same) ∙ e ∙ (str_eq_iff k j).0 hit
  | inr miss ↦ h j n' (ground (arith, found, lookup-insert k j n m, miss))
]

add-name : (n : Namespace) (conn : Str) → (add n conn).0.name ≡ n.name
unfolding add
add-name n conn = elim (Option-cases (lookup conn n.connections)) [
  | inl missing ↦ rw (missing, add) refl
  | inr (_, found) ↦ rw (found, add) refl
]

remove-name : (n : Namespace) (conn : Str) → (remove n conn).0.name ≡ n.name
unfolding remove
remove-name n conn = elim (Option-cases (lookup conn n.connections)) [
  | inl missing ↦ rw (missing, remove) refl
  | inr (_, found) ↦ rw (found, remove) refl
]

module _ (generate_uuid : ℕ → Str) where
  pub ensure-AllNamed :
      (s : Connections) (name : Str)
      → AllNamed s.ns_by_name
      → AllNamed (ensure generate_uuid s name).0.ns_by_name
        × ((ensure generate_uuid s name).1.name ≡ name)
        × ((ensure generate_uuid s name).0.joined ≡ s.joined)
  unfolding ensure
  ensure-AllNamed s name h = elim (Option-cases (lookup name s.ns_by_name)) [
    | inl missing ↦
        rw (missing, ensure)
          (
            AllNamed-insert s.ns_by_name name (new_namespace generate_uuid s name) h refl,
            refl,
            refl,
          )
    | inr (n, found) ↦ rw (found, ensure) (h, h name n found, refl)
  ]

  pub add_to_namespace-AllNamed :
      (s : Connections) (room conn : Str)
      → AllNamed s.ns_by_name
      → AllNamed (add_to_namespace generate_uuid s room conn).ns_by_name
        × ((add_to_namespace generate_uuid s room conn).joined ≡ s.joined)
  unfolding add_to_namespace
  add_to_namespace-AllNamed s [] conn h = (h, refl)
  add_to_namespace-AllNamed s (x ∷ xs) conn h =
      let (named, name, joined) = ensure-AllNamed s (x ∷ xs) h in
      let found = ensure generate_uuid s (x ∷ xs) in
      (
        AllNamed-insert found.0.ns_by_name (x ∷ xs) (add found.1 conn).0 named
            (add-name found.1 conn ∙ name),
        joined,
      )

pub remove_from_namespace-AllNamed :
    (s : Connections) (room conn : Str)
    → AllNamed s.ns_by_name
    → AllNamed (remove_from_namespace s room conn).ns_by_name
      × ((remove_from_namespace s room conn).joined ≡ s.joined)
unfolding remove_from_namespace
remove_from_namespace-AllNamed s room conn h = elim (Option-cases (lookup room s.ns_by_name)) [
  | inl missing ↦ rw (missing, remove_from_namespace) (h, refl)
  | inr (n, found) ↦
      rw (found, remove_from_namespace)
        (
          AllNamed-insert s.ns_by_name room (remove n conn).0 h
              (remove-name n conn ∙ h room n found),
          refl,
        )
]

-- The playbacks stay under their own names.
Named-lookup-insert :
    (k : Str) (p : Playback) (j : Str) (m : Dict Playback)
    → lookup j m ≡ none
    → str_eq k j ≡ false
    → lookup j (insert k p m) ≡ none
Named-lookup-insert k p j m e ne = lookup-insert k j p m ∙ rw ne e

pub insert-Named :
    (k : Str) (p : Playback) (m : Dict Playback)
    → p.name ≡ k
    → HoldsStreams p.queue.heap
    → Named m
    → Named (insert k p m)
unfolding insert lookup
insert-Named k p [] name hs n = (name, refl, hs, tt)
insert-Named k p ((j, q) ∷ m) name hs (name', once, hs', n) = elim (Bool-cases (str_eq j k)) [
  | inl hit ↦
      rw (hit, insert) (name, subst (λ i. lookup i m ≡ none) ((str_eq_iff j k).0 hit) once, hs, n)
  | inr miss ↦
      let ne : str_eq k j ≡ false = ground (arith, miss, str_eq_iff j k, str_eq_iff k j) in
      rw (miss, insert)
        (name', Named-lookup-insert k p j m once ne, hs', insert-Named k p m name hs n)
]
