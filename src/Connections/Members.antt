-- ===== src/Connections/Members.antt =====
-- pkg/socket/connection/namespace.go: who is in which room, after each operation.
use streaming_server.Base.{
  Bool, true, false, not, ◌&&◌, ◌||◌, [], ◌∷◌, ◌≡◌, ◌≢◌, inl, inr, refl, sym, ap, ◌∙◌, arith,
  Option, none, some, if◌then◌else◌, Bool-cases, Option-cases, ℕ,
}
use streaming_server.Base.Text.{Str, str_eq, str_eq_iff}
use streaming_server.Base.Dict.{lookup, insert, lookup-insert, lookup-delete}
use streaming_server.Connections.{
  Connections, Namespace, add, remove, ensure, new_namespace, add_to_namespace, join,
  remove_from_namespace,
}

abbrev pub is_some {ℓ} : {V : Type ℓ} → Option V → Bool
is_some none = false
is_some (some _) = true

abbrev pub in_namespace : Str → Option Namespace → Bool
in_namespace c none = false
in_namespace c (some n) = is_some (lookup c n.connections)

-- The connection `c` is in the room `room`.
abbrev pub is_member : Connections → Str → Str → Bool
is_member s room c = in_namespace c (lookup room s.ns_by_name)

in_namespace-add :
    (n : Namespace) (conn c : Str)
    → in_namespace c (some (add n conn).0) ≡ (str_eq conn c || in_namespace c (some n))
unfolding add
in_namespace-add n conn c = elim (Option-cases (lookup conn n.connections)) [
  | inl missing ↦
      rw (missing, add) (rw (lookup-insert conn c conn n.connections) (either (str_eq conn c)))
  | inr (v, found) ↦ rw (found, add) (same v found)
]
  where
    either :
        (b : Bool)
        → is_some (if b then some conn else lookup c n.connections)
          ≡ (b || is_some (lookup c n.connections))
    either true = refl
    either false = refl

    same :
        (v : Str)
        → lookup conn n.connections ≡ some v
        → is_some (lookup c n.connections) ≡ (str_eq conn c || is_some (lookup c n.connections))
    same v found = elim (Bool-cases (str_eq conn c)) [
      | inl hit ↦
          let e : lookup c n.connections ≡ some v =
            ap (λ x. lookup x n.connections) (sym ((str_eq_iff conn c).0 hit)) ∙ found in
          rw (hit, e) refl
      | inr miss ↦ rw miss refl
    ]

in_namespace-remove :
    (n : Namespace) (conn c : Str)
    → in_namespace c (some (remove n conn).0) ≡ (not (str_eq conn c) && in_namespace c (some n))
unfolding remove
in_namespace-remove n conn c = elim (Option-cases (lookup conn n.connections)) [
  | inl missing ↦ rw (missing, remove) (same missing)
  | inr (v, found) ↦
      rw (found, remove) (rw (lookup-delete conn c n.connections) (either (str_eq conn c)))
]
  where
    either :
        (b : Bool)
        → is_some (if b then none else lookup c n.connections)
          ≡ (not b && is_some (lookup c n.connections))
    either true = refl
    either false = refl

    same :
        lookup conn n.connections ≡ none
        → is_some (lookup c n.connections)
          ≡ (not (str_eq conn c) && is_some (lookup c n.connections))
    same missing = elim (Bool-cases (str_eq conn c)) [
      | inl hit ↦
          let e : lookup c n.connections ≡ none =
            ap (λ x. lookup x n.connections) (sym ((str_eq_iff conn c).0 hit)) ∙ missing in
          rw (hit, e) refl
      | inr miss ↦ rw miss refl
    ]

module _ (generate_uuid : ℕ → Str) where
  in_namespace-new :
      (s : Connections) (room c : Str)
      → in_namespace c (some (new_namespace generate_uuid s room)) ≡ false
  unfolding lookup
  in_namespace-new s room c = refl

  in_namespace-ensure :
      (s : Connections) (room c : Str)
      → in_namespace c (some (ensure generate_uuid s room).1) ≡ is_member s room c
  unfolding ensure
  in_namespace-ensure s room c = elim (Option-cases (lookup room s.ns_by_name)) [
    | inl missing ↦ rw (missing, ensure) (in_namespace-new s room c)
    | inr (n, found) ↦ rw (found, ensure) refl
  ]

  pub is_member-ensure :
      (s : Connections) (room r c : Str)
      → is_member (ensure generate_uuid s room).0 r c ≡ is_member s r c
  unfolding ensure
  is_member-ensure s room r c = elim (Option-cases (lookup room s.ns_by_name)) [
    | inl missing ↦ rw (missing, ensure) (created missing)
    | inr (n, found) ↦ rw (found, ensure) refl
  ]
    where
      created :
          lookup room s.ns_by_name ≡ none
          → in_namespace c
              (lookup r (insert room (new_namespace generate_uuid s room) s.ns_by_name))
            ≡ is_member s r c
      created missing = elim (Bool-cases (str_eq room r)) [
        | inl hit ↦
            let e : lookup r s.ns_by_name ≡ none =
              ap (λ x. lookup x s.ns_by_name) (sym ((str_eq_iff room r).0 hit)) ∙ missing in
            rw (lookup-insert room r (new_namespace generate_uuid s room) s.ns_by_name)
              (rw (hit, e) (in_namespace-new s room c))
        | inr miss ↦
            rw (lookup-insert room r (new_namespace generate_uuid s room) s.ns_by_name)
              (rw miss refl)
      ]

  -- AddToNamespace puts the connection into the room and changes no other membership.
  is_member-add_to_namespace :
      (s : Connections) (room conn r c : Str)
      → room ≢ []
      → is_member (add_to_namespace generate_uuid s room conn) r c
        ≡ ((str_eq room r && str_eq conn c) || is_member s r c)
  unfolding add_to_namespace
  is_member-add_to_namespace s [] conn r c ne = absurd (ne refl)
  is_member-add_to_namespace s (x ∷ xs) conn r c ne =
      let found = ensure generate_uuid s (x ∷ xs) in
      elim (Bool-cases (str_eq (x ∷ xs) r)) [
        | inl hit ↦
            let e : is_member s (x ∷ xs) c ≡ is_member s r c =
              ap (λ k. is_member s k c) ((str_eq_iff (x ∷ xs) r).0 hit) in
            rw (lookup-insert (x ∷ xs) r (add found.1 conn).0 found.0.ns_by_name) (
              rw hit (
                in_namespace-add found.1 conn c
                ∙ ap (λ b. str_eq conn c || b) (in_namespace-ensure s (x ∷ xs) c ∙ e)))
        | inr miss ↦
            rw (lookup-insert (x ∷ xs) r (add found.1 conn).0 found.0.ns_by_name)
              (rw miss (is_member-ensure s (x ∷ xs) r c))
      ]

  -- Join puts the connection into the room, which is created where it does not exist, and changes no
  -- other membership: not even that of the room which the connection was in.
  pub is_member-join :
      (s : Connections) (conn room r c : Str)
      → room ≢ []
      → is_member (join generate_uuid s conn room) r c
        ≡ ((str_eq room r && str_eq conn c) || is_member s r c)
  unfolding join
  is_member-join s conn room r c ne =
      is_member-add_to_namespace (record s { joined = insert conn room s.joined }) room conn r c ne

-- Leave takes the connection out of the room and changes no other membership.
pub is_member-remove_from_namespace :
    (s : Connections) (room conn r c : Str)
    → is_member (remove_from_namespace s room conn) r c
      ≡ (not (str_eq room r && str_eq conn c) && is_member s r c)
unfolding remove_from_namespace
is_member-remove_from_namespace s room conn r c = elim (Option-cases (lookup room s.ns_by_name)) [
  | inl missing ↦
      rw (missing, remove_from_namespace)
        (elim (Bool-cases (str_eq room r)) [
          | inl hit ↦
              let e : lookup r s.ns_by_name ≡ none =
                ap (λ x. lookup x s.ns_by_name) (sym ((str_eq_iff room r).0 hit)) ∙ missing in
              rw (hit, e) (ground arith)
          | inr miss ↦ rw miss refl
        ])
  | inr (n, found) ↦
      rw (found, remove_from_namespace)
        (elim (Bool-cases (str_eq room r)) [
          | inl hit ↦
              let e : lookup r s.ns_by_name ≡ some n =
                ap (λ x. lookup x s.ns_by_name) (sym ((str_eq_iff room r).0 hit)) ∙ found in
              rw (lookup-insert room r (remove n conn).0 s.ns_by_name)
                (rw (hit, e) (in_namespace-remove n conn c))
          | inr miss ↦ rw (lookup-insert room r (remove n conn).0 s.ns_by_name) (rw miss refl)
        ])
]
