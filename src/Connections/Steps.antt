-- ===== src/Connections/Steps.antt =====
-- pkg/socket/connection: the operations in any order, and whom a broadcast reaches.
use streaming_server.Base.{
  not, ◌&&◌, List, [], ◌∷◌, ◌≡◌, inl, inr, refl, sym, ap, ◌∙◌, arith, some, Bool-cases,
  Option-cases, ℕ, All,
}
use streaming_server.Base.Text.{Str, str_eq, str_eq_iff, is_in}
use streaming_server.Base.Dict.{Dict, lookup, insert, delete, values}
use streaming_server.Connections.{
  Connections, Namespace, add, remove, ensure, new_namespace, add_to_namespace, join,
  remove_from_namespace, delete_namespace_by_name, new_connection, delete_connection, receivers,
  receivers_from, others,
}
use streaming_server.Connections.Members.{is_member, is_some}

abbrev pub no_connections : Connections
no_connections = record { ns_by_name = []; conns_by_id = []; joined = []; fresh = 0 }

pub data Step (generate_uuid : ℕ → Str) (s : Connections) : Connections → Type 0 where
  joins : (conn room : Str) → Step generate_uuid s (join generate_uuid s conn room)
  ensures : (name : Str) → Step generate_uuid s (ensure generate_uuid s name).0
  leaves : (room conn : Str) → Step generate_uuid s (remove_from_namespace s room conn)
  drops : (name : Str) → Step generate_uuid s (delete_namespace_by_name s name).0
  connects : (conn : Str) → Step generate_uuid s (new_connection s conn)
  disconnects : (conn : Str) → Step generate_uuid s (delete_connection s conn)

pub data Reach (generate_uuid : ℕ → Str) : Connections → Type 0 where
  start : Reach generate_uuid no_connections
  later :
      {s t : Connections} → Reach generate_uuid s → Step generate_uuid s t → Reach generate_uuid t

-- A predicate on the entries of a map, which its operations keep.
module _ {ℓ} {V : Type ℓ} (P : Str × V → Type 0) where
  All-insert : (k : Str) (v : V) (m : Dict V) → P (k, v) → All P m → All P (insert k v m)
  unfolding insert
  All-insert k v [] p h = (p, tt)
  All-insert k v ((j, w) ∷ m) p h = elim (Bool-cases (str_eq j k)) [
    | inl hit ↦ rw hit (p, h.1)
    | inr miss ↦ rw miss (h.0, All-insert k v m p h.1)
  ]

  All-delete : (k : Str) (m : Dict V) → All P m → All P (delete k m)
  unfolding delete
  All-delete k [] h = tt
  All-delete k ((j, w) ∷ m) h = elim (Bool-cases (str_eq j k)) [
    | inl hit ↦ rw hit (All-delete k m h.1)
    | inr miss ↦ rw miss (h.0, All-delete k m h.1)
  ]

  All-lookup :
      (k : Str) (v : V) (m : Dict V)
      → lookup k m ≡ some v
      → All P m
      → (j : Str) × (j ≡ k) × P (j, v)
  unfolding lookup
  All-lookup k v [] e h = absurd (ground (arith, e))
  All-lookup k v ((j, w) ∷ m) e h = elim (Bool-cases (str_eq j k)) [
    | inl hit ↦
        let same : w ≡ v = ground (arith, e, hit) in (j, (str_eq_iff j k).0 hit, rw (sym same) h.0)
    | inr miss ↦ All-lookup k v m (ground (arith, e, miss)) h.1
  ]

-- An entry of a namespace has the connection under its own id.
abbrev SelfKeyed : Str × Str → Type 0
SelfKeyed e = e.0 ≡ e.1

abbrev IsKeyed : Str × Namespace → Type 0
IsKeyed e = All SelfKeyed e.1.connections

abbrev AllKeyed : Connections → Type 0
AllKeyed s = All IsKeyed s.ns_by_name

add-IsKeyed : (k : Str) (n : Namespace) (conn : Str) → IsKeyed (k, n) → IsKeyed (k, (add n conn).0)
unfolding add
add-IsKeyed k n conn h = elim (Option-cases (lookup conn n.connections)) [
  | inl missing ↦ rw (missing, add) (All-insert SelfKeyed conn conn n.connections refl h)
  | inr (_, found) ↦ rw (found, add) h
]

remove-IsKeyed :
    (k : Str) (n : Namespace) (conn : Str) → IsKeyed (k, n) → IsKeyed (k, (remove n conn).0)
unfolding remove
remove-IsKeyed k n conn h = elim (Option-cases (lookup conn n.connections)) [
  | inl missing ↦ rw (missing, remove) h
  | inr (_, found) ↦ rw (found, remove) (All-delete SelfKeyed conn n.connections h)
]

module _ (generate_uuid : ℕ → Str) where
  ensure-AllKeyed :
      (s : Connections) (name : Str)
      → AllKeyed s
      → AllKeyed (ensure generate_uuid s name).0 × IsKeyed (name, (ensure generate_uuid s name).1)
  unfolding ensure
  ensure-AllKeyed s name h = elim (Option-cases (lookup name s.ns_by_name)) [
    | inl missing ↦
        rw (missing, ensure)
          (All-insert IsKeyed name (new_namespace generate_uuid s name) s.ns_by_name tt h, tt)
    | inr (n, found) ↦ rw (found, ensure) (h, (All-lookup IsKeyed name n s.ns_by_name found h).2)
  ]

  add_to_namespace-AllKeyed :
      (s : Connections) (room conn : Str)
      → AllKeyed s
      → AllKeyed (add_to_namespace generate_uuid s room conn)
  unfolding add_to_namespace
  add_to_namespace-AllKeyed s [] conn h = h
  add_to_namespace-AllKeyed s (x ∷ xs) conn h =
      let (m, n) = ensure-AllKeyed s (x ∷ xs) h in
      let found = ensure generate_uuid s (x ∷ xs) in
      All-insert IsKeyed (x ∷ xs) (add found.1 conn).0 found.0.ns_by_name
        (add-IsKeyed (x ∷ xs) found.1 conn n) m

  remove_from_namespace-AllKeyed :
      (s : Connections) (room conn : Str)
      → AllKeyed s
      → AllKeyed (remove_from_namespace s room conn)
  unfolding remove_from_namespace
  remove_from_namespace-AllKeyed s room conn h = elim (Option-cases (lookup room s.ns_by_name)) [
    | inl missing ↦ rw (missing, remove_from_namespace) h
    | inr (n, found) ↦
        rw (found, remove_from_namespace)
          (All-insert IsKeyed room (remove n conn).0 s.ns_by_name
            (remove-IsKeyed room n conn (All-lookup IsKeyed room n s.ns_by_name found h).2) h)
  ]

  delete_namespace-AllKeyed :
      (s : Connections) (name : Str) → AllKeyed s → AllKeyed (delete_namespace_by_name s name).0
  unfolding delete_namespace_by_name
  delete_namespace-AllKeyed s name h = elim (Option-cases (lookup name s.ns_by_name)) [
    | inl missing ↦ rw (missing, delete_namespace_by_name) h
    | inr (n, found) ↦ rw (found, delete_namespace_by_name) (All-delete IsKeyed name s.ns_by_name h)
  ]

  Step-AllKeyed : (s t : Connections) → Step generate_uuid s t → AllKeyed s → AllKeyed t
  unfolding join new_connection delete_connection
  Step-AllKeyed s _ (joins conn room) h =
      add_to_namespace-AllKeyed (record s { joined = insert conn room s.joined }) room conn h
  Step-AllKeyed s _ (ensures name) h = (ensure-AllKeyed s name h).0
  Step-AllKeyed s _ (leaves room conn) h = remove_from_namespace-AllKeyed s room conn h
  Step-AllKeyed s _ (drops name) h = delete_namespace-AllKeyed s name h
  Step-AllKeyed s _ (connects conn) h = h
  Step-AllKeyed s _ (disconnects conn) h = h

  Reach-AllKeyed : (s : Connections) → Reach generate_uuid s → AllKeyed s
  Reach-AllKeyed _ start = tt
  Reach-AllKeyed _ (later {s} {t} reach step) = Step-AllKeyed s t step (Reach-AllKeyed s reach)

is_in-values :
    (c : Str) (d : Dict Str) → All SelfKeyed d → is_in c (values d) ≡ is_some (lookup c d)
unfolding lookup
is_in-values c [] h = refl
is_in-values c ((k, v) ∷ d) h = elim (Bool-cases (str_eq k c)) [
  | inl hit ↦ rw (hit) (rw (← h.0) (rw hit refl))
  | inr miss ↦ rw miss (rw (← h.0) (rw miss (is_in-values c d h.1)))
]

is_in-others :
    (c conn : Str) (cs : List Str) → is_in c (others conn cs) ≡ (not (str_eq c conn) && is_in c cs)
unfolding others
is_in-others c conn [] = ground arith
is_in-others c conn (d ∷ cs) =
    ground (arith, is_in-others c conn cs, str_eq_iff d conn, str_eq_iff d c, str_eq_iff c conn)

is_in-receivers :
    (s : Connections) (name c : Str) → AllKeyed s → is_in c (receivers s name) ≡ is_member s name c
unfolding receivers
is_in-receivers s name c h = elim (Option-cases (lookup name s.ns_by_name)) [
  | inl missing ↦ rw (missing, receivers) refl
  | inr (n, found) ↦
      rw (found, receivers)
        (is_in-values c n.connections (All-lookup IsKeyed name n s.ns_by_name found h).2)
]

-- In every state that the operations reach, Broadcast writes to exactly the members of the room, and
-- BroadcastFrom to exactly those with another id than the sender's.
pub receivers_lem :
    (generate_uuid : ℕ → Str) (s : Connections) (name conn c : Str)
    → Reach generate_uuid s
    → (is_in c (receivers s name) ≡ is_member s name c)
      × (is_in c (receivers_from s name conn) ≡ (not (str_eq c conn) && is_member s name c))
unfolding receivers_from
receivers_lem generate_uuid s name conn c reach =
    let all = is_in-receivers s name c (Reach-AllKeyed generate_uuid s reach) in
    (all, is_in-others c conn (receivers s name) ∙ ap (λ b. not (str_eq c conn) && b) all)
