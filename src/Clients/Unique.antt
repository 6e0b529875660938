-- ===== src/Clients/Unique.antt =====
-- pkg/socket/client: the current user names of all clients, when an entry of the map of clients is
-- replaced or deleted.
use streaming_server.Base.{
  Bool, true, false, [], ◌∷◌, ◌≡◌, ◌≢◌, ◌⊎◌, inl, inr, refl, sym, ap, ◌∙◌, arith, Option, none,
  some, if◌then◌else◌, length, Bool-cases, Option-cases, ◌≤◌,
}
use streaming_server.Base.Text.{Str, str_eq, str_eq_iff}
use streaming_server.Base.Dict.{Dict, lookup, insert, delete, values, lookup-insert, lookup-delete}
use streaming_server.Clients.{
  Client, get_username, is_valid_name, is_reserved, is_taken, max_username_hist,
}

-- The current user name of the client with an id.
abbrev name_in : Option Client → Option Str
name_in none = none
name_in (some c) = get_username c

abbrev pub name_of : Dict Client → Str → Option Str
name_of m id = name_in (lookup id m)

-- No two clients have the same current name, each is valid and not reserved, and a client keeps two
-- names at most.
pub record HasNames (m : Dict Client) : Type 0 where
  pub unique : (i j name : Str) → name_of m i ≡ some name → name_of m j ≡ some name → i ≡ j
  pub valid :
      (i name : Str)
      → name_of m i ≡ some name
      → (is_valid_name name ≡ true) × (is_reserved name ≡ false)
  pub short : (i : Str) (c : Client) → lookup i m ≡ some c → length c.usernames ≤ max_username_hist

pub not_taken :
    (name i : Str) (m : Dict Client)
    → is_taken name (values m) ≡ false
    → name_in (lookup i m) ≢ some name
unfolding lookup is_taken
not_taken name i [] e h = absurd (ground (arith, h))
not_taken name i ((k, c) ∷ m) e h = elim (Option-cases (get_username c)) [
  | inl none_yet ↦ elim (Bool-cases (str_eq k i)) [
    | inl hit ↦ ground (arith, none_yet, rw hit at h)
    | inr miss ↦ not_taken name i m (rw (none_yet, is_taken) at e) (rw miss at h)
  ]
  | inr (n, named) ↦
      let e' : (if str_eq name n then true else is_taken name (values m)) ≡ false =
        rw (named, is_taken) at e in
      elim (Bool-cases (str_eq k i)) [
        | inl hit ↦
            let h' : get_username c ≡ some name = rw hit at h in
            ground (arith, named, h', e', str_eq_iff name n)
        | inr miss ↦ not_taken name i m (ground (arith, e')) (rw miss at h)
      ]
]

-- A client's entry is replaced.
module _ (m : Dict Client) (id : Str) (c : Client) (w : HasNames m)
    (few : length c.usernames ≤ max_username_hist) where
  name_of-insert :
      (i : Str) → name_of (insert id c m) i ≡ (if str_eq id i then get_username c else name_of m i)
  name_of-insert i = rw (lookup-insert id i c m) (name_in-if (str_eq id i))
    where
      name_in-if :
          (b : Bool)
          → name_in (if b then some c else lookup i m) ≡ (if b then get_username c else name_of m i)
      name_in-if true = refl
      name_in-if false = refl

  insert-short :
      (i : Str) (d : Client)
      → lookup i (insert id c m) ≡ some d
      → length d.usernames ≤ max_username_hist
  insert-short i d e =
      let e' : (if str_eq id i then some c else lookup i m) ≡ some d =
        sym (lookup-insert id i c m) ∙ e in
      elim (Bool-cases (str_eq id i)) [
        | inl hit ↦ same (rw hit at e')
        | inr miss ↦ w.short i d (rw miss at e')
      ]
    where
      same : some c ≡ some d → length d.usernames ≤ max_username_hist
      same eq = let f : c ≡ d = ground (arith, eq) in rw (sym f) few

  -- A new name that nobody has.
  pub named-HasNames :
      (name : Str)
      → get_username c ≡ some name
      → is_valid_name name ≡ true
      → is_reserved name ≡ false
      → ((i : Str) → name_of m i ≢ some name)
      → HasNames (insert id c m)
  named-HasNames name named v r new = record {
    unique = unique;
    valid = valid;
    short = insert-short;
  }
    where
      here_or_there :
          (i n : Str)
          → name_of (insert id c m) i ≡ some n
          → ((id ≡ i) × (name ≡ n)) ⊎ (name_of m i ≡ some n)
      here_or_there i n e =
          let e' : (if str_eq id i then get_username c else name_of m i) ≡ some n =
            sym (name_of-insert i) ∙ e in
          elim (Bool-cases (str_eq id i)) [
            | inl hit ↦ inl ((str_eq_iff id i).0 hit, ground (arith, named, e', hit))
            | inr miss ↦ inr (rw miss at e')
          ]

      unique_from :
          (i j n : Str)
          → ((id ≡ i) × (name ≡ n)) ⊎ (name_of m i ≡ some n)
          → ((id ≡ j) × (name ≡ n)) ⊎ (name_of m j ≡ some n)
          → i ≡ j
      unique_from i j n (inl (p, _)) (inl (q, _)) = sym p ∙ q
      unique_from i j n (inl (_, p)) (inr q) = absurd (new j (q ∙ ap some (sym p)))
      unique_from i j n (inr p) (inl (_, q)) = absurd (new i (p ∙ ap some (sym q)))
      unique_from i j n (inr p) (inr q) = w.unique i j n p q

      unique :
          (i j n : Str)
          → name_of (insert id c m) i ≡ some n
          → name_of (insert id c m) j ≡ some n
          → i ≡ j
      unique i j n p q = unique_from i j n (here_or_there i n p) (here_or_there j n q)

      valid_from :
          (i n : Str)
          → ((id ≡ i) × (name ≡ n)) ⊎ (name_of m i ≡ some n)
          → (is_valid_name n ≡ true) × (is_reserved n ≡ false)
      valid_from i n (inl (_, p)) = rw (sym p) (v, r)
      valid_from i n (inr p) = w.valid i n p

      valid :
          (i n : Str)
          → name_of (insert id c m) i ≡ some n
          → (is_valid_name n ≡ true) × (is_reserved n ≡ false)
      valid i n p = valid_from i n (here_or_there i n p)

  -- No name.
  pub nameless-HasNames : get_username c ≡ none → HasNames (insert id c m)
  nameless-HasNames none_yet = record {
    unique = λ i j n p q. w.unique i j n (there i n p) (there j n q);
    valid = λ i n p. w.valid i n (there i n p);
    short = insert-short;
  }
    where
      there : (i n : Str) → name_of (insert id c m) i ≡ some n → name_of m i ≡ some n
      there i n e =
          let e' : (if str_eq id i then get_username c else name_of m i) ≡ some n =
            sym (name_of-insert i) ∙ e in
          elim (Bool-cases (str_eq id i)) [
            | inl hit ↦ absurd (ground (arith, none_yet, e', hit))
            | inr miss ↦ rw miss at e'
          ]

pub delete-HasNames : (m : Dict Client) (id : Str) → HasNames m → HasNames (delete id m)
delete-HasNames m id w = record {
  unique = λ i j n p q. w.unique i j n (there i n p) (there j n q);
  valid = λ i n p. w.valid i n (there i n p);
  short = λ i c e. w.short i c (kept i c e);
}
  where
    kept : (i : Str) (c : Client) → lookup i (delete id m) ≡ some c → lookup i m ≡ some c
    kept i c e = ground (arith, lookup-delete id i m, e)

    there : (i n : Str) → name_of (delete id m) i ≡ some n → name_of m i ≡ some n
    there i n e = elim (Option-cases (lookup i (delete id m))) [
      | inl gone ↦ absurd (ground (arith, (rw gone at e)))
      | inr (c, found) ↦ rw (kept i c found) (rw found at e)
    ]
