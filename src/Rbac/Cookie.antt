-- ===== src/Rbac/Cookie.antt =====
-- pkg/socket/cmd/rbac/rbac.go: the value of the auth cookie.
use streaming_server.Base.{
  ◌&&◌, true, ◌≡◌, ◌≢◌, refl, ap, ◌∙◌, List, [], ◌∷◌, ◌++◌, map, ℕ, if◌then◌else◌, Outcome, ok, err,
  ◌>>=◌, All, All-append, arith,
}
use streaming_server.Base.Text.{Str, codes, str_eq}
use streaming_server.Base.Split.{
  split, join, Absent, split-Absent, split-append, split-join, Absent-join, is_absent,
  is_absent-Absent,
}

-- A comma, and the three separators of the format.
abbrev pub comma : ℕ
comma = 44

abbrev pub equals : ℕ
equals = 61

abbrev pub plus : ℕ
plus = 43

abbrev pub pipe : ℕ
pipe = 124

pub data CookieError : Type 0 where
  malformed : List Str → CookieError
  unsupported_key : Str → CookieError

pub record AuthCookieDataNs : Type 0 where
  pub id : Str
  pub name : Str
  pub roles : List Str

field : Str → Str → Str
field key value = key ++ equals ∷ value

-- The Sprintf of Serialize.
unfoldable pub serialize_ns : AuthCookieDataNs → Str
unfolding field
serialize_ns ns =
    field (codes "id") ns.id
    ++ plus ∷ (field (codes "name") ns.name ++ plus ∷ field (codes "roles") (join comma ns.roles))

unfoldable pub serialize : List AuthCookieDataNs → Str
serialize namespaces = join pipe (map serialize_ns namespaces)

-- The switch on the key. What follows a second `=` is ignored.
unfoldable pub decode_pair : AuthCookieDataNs → List Str → Outcome CookieError AuthCookieDataNs
decode_pair s [] = err (malformed [])
decode_pair s (k ∷ []) = err (malformed (k ∷ []))
decode_pair s (k ∷ v ∷ vs) =
    if str_eq k (codes "id")
    then ok (record s { id = v })
    else if str_eq k (codes "name")
    then ok (record s { name = v })
    else if str_eq k (codes "roles")
    then ok (record s { roles = split comma v })
    else err (unsupported_key k)

unfoldable pub decode_pairs : AuthCookieDataNs → List Str → Outcome CookieError AuthCookieDataNs
decode_pairs s [] = ok s
decode_pairs s (p ∷ ps) = decode_pair s (split equals p) >>= λ s'. decode_pairs s' ps

abbrev no_data : AuthCookieDataNs
no_data = record { id = []; name = []; roles = [] }

unfoldable pub decode_each : List Str → Outcome CookieError (List AuthCookieDataNs)
decode_each [] = ok []
decode_each (seg ∷ segs) = do
  s ← decode_pairs no_data (split plus seg)
  rest ← decode_each segs
  ok (s ∷ rest)

-- What Decode leaves in the namespaces; its callers do not read them after an error.
unfoldable pub decode : Str → Outcome CookieError (List AuthCookieDataNs)
unfolding decode_each
decode text = decode_each (split pipe text)

-- A text without a separator, and a namespace that has a role and only such texts.
abbrev pub Plain : Str → Type 0
Plain s = Absent equals s × Absent plus s × Absent pipe s

pub plain : (s : Str) → is_absent equals s && is_absent plus s && is_absent pipe s ≡ true → Plain s
plain s e = (
  is_absent-Absent equals s (ground (arith, e)),
  is_absent-Absent plus s (ground (arith, e)),
  is_absent-Absent pipe s (ground (arith, e)),
)

abbrev pub IsRole : Str → Type 0
IsRole s = Absent comma s × Plain s

pub record IsEncodable (ns : AuthCookieDataNs) : Type 0 where
  pub plain_id : Plain ns.id
  pub plain_name : Plain ns.name
  pub has_role : ns.roles ≢ []
  pub plain_roles : All IsRole ns.roles

field-plain :
    (c : ℕ) (key value : Str)
    → Absent c key
    → equals ≢ c
    → Absent c value
    → Absent c (field key value)
unfolding field
field-plain c key value k ne v = All-append (λ b. b ≢ c) key (equals ∷ value) k (ne, v)

split-field :
    (key value : Str)
    → Absent equals key
    → Absent equals value
    → split equals (field key value) ≡ key ∷ value ∷ []
unfolding field
split-field key value k v =
    split-append equals key value k ∙ ap (◌∷◌ key) (split-Absent equals value v)

keys_without :
    (c : ℕ)
    → is_absent c (codes "id") && is_absent c (codes "name") && is_absent c (codes "roles") ≡ true
    → Absent c (codes "id") × Absent c (codes "name") × Absent c (codes "roles")
keys_without c e = (
  is_absent-Absent c (codes "id") (ground (arith, e)),
  is_absent-Absent c (codes "name") (ground (arith, e)),
  is_absent-Absent c (codes "roles") (ground (arith, e)),
)

roles_without :
    (c : ℕ)
    → ((s : Str) → IsRole s → Absent c s)
    → (rs : List Str) → All IsRole rs
    → All (Absent c) rs
roles_without c get [] h = tt
roles_without c get (r ∷ rs) h = (get r h.0, roles_without c get rs h.1)

module _ (ns : AuthCookieDataNs) (w : IsEncodable ns) where
  -- The three fields hold no separator other than `=`.
  fields_without :
      (c : ℕ)
      → is_absent c (codes "id") && is_absent c (codes "name") && is_absent c (codes "roles") ≡ true
      → (equals ≢ c) × (comma ≢ c)
      → Absent c ns.id × Absent c ns.name × All (Absent c) ns.roles
      → Absent c (field (codes "id") ns.id)
        × Absent c (field (codes "name") ns.name)
        × Absent c (field (codes "roles") (join comma ns.roles))
  fields_without c k (e, m) (hi, hn, hr) =
      let (i, n, r) = keys_without c k in
      (
        field-plain c (codes "id") ns.id i e hi,
        field-plain c (codes "name") ns.name n e hn,
        field-plain c (codes "roles") (join comma ns.roles) r e (Absent-join c comma ns.roles m hr),
      )

  serialize_ns-pipe : Absent pipe (serialize_ns ns)
  unfolding serialize_ns
  serialize_ns-pipe =
      let (i, n, r) =
        fields_without pipe refl ((λ e. omega (arith, e)), (λ e. omega (arith, e)))
          (
            w.plain_id.2,
            w.plain_name.2,
            roles_without pipe (λ s h. h.1.2) ns.roles w.plain_roles,
          ) in
      All-append (λ b. b ≢ pipe) (field (codes "id") ns.id) _ i
        (
          (λ e. omega (arith, e)),
          All-append (λ b. b ≢ pipe) (field (codes "name") ns.name) _ n
              ((λ e. omega (arith, e)), r),
        )

  split-serialize_ns :
      split plus (serialize_ns ns)
      ≡ field (codes "id") ns.id
        ∷ field (codes "name") ns.name
        ∷ field (codes "roles") (join comma ns.roles)
        ∷ []
  unfolding serialize_ns
  split-serialize_ns =
      let (i, n, r) =
        fields_without plus refl ((λ e. omega (arith, e)), (λ e. omega (arith, e)))
          (
            w.plain_id.1,
            w.plain_name.1,
            roles_without plus (λ s h. h.1.1) ns.roles w.plain_roles,
          ) in
      rw (
        split-append plus (field (codes "id") ns.id) _ i,
        split-append plus (field (codes "name") ns.name) _ n,
        split-Absent plus (field (codes "roles") (join comma ns.roles)) r,
      )

  split-roles : (rs : List Str) → rs ≢ [] → All IsRole rs → split comma (join comma rs) ≡ rs
  split-roles [] ne h = absurd (ne refl)
  split-roles (r ∷ rs) ne h = split-join comma r rs (roles_without comma (λ s h. h.0) (r ∷ rs) h)

  decode_pairs-serialize_ns : decode_pairs no_data (split plus (serialize_ns ns)) ≡ ok ns
  unfolding decode_pairs decode_pair str_eq
  decode_pairs-serialize_ns =
      let (i, n, r) = keys_without equals refl in
      rw split-serialize_ns (
        rw (split-field (codes "id") ns.id i w.plain_id.0) (
          rw (split-field (codes "name") ns.name n w.plain_name.0) (
            rw
              (split-field (codes "roles") (join comma ns.roles) r (
                Absent-join equals comma ns.roles (λ e. omega (arith, e))
                  (roles_without equals (λ s h. h.1.0) ns.roles w.plain_roles)))
              (rw (split-roles ns.roles w.has_role w.plain_roles) refl))))

decode_each-serialize :
    (namespaces : List AuthCookieDataNs)
    → All IsEncodable namespaces
    → decode_each (map serialize_ns namespaces) ≡ ok namespaces
unfolding decode_each
decode_each-serialize [] h = refl
decode_each-serialize (ns ∷ nss) h =
    rw (decode_pairs-serialize_ns ns h.0, decode_each-serialize nss h.1)

serialize_each-pipe :
    (namespaces : List AuthCookieDataNs)
    → All IsEncodable namespaces
    → All (Absent pipe) (map serialize_ns namespaces)
serialize_each-pipe [] h = tt
serialize_each-pipe (ns ∷ nss) h = (serialize_ns-pipe ns h.0, serialize_each-pipe nss h.1)

-- Decode gives back the namespaces that Serialize wrote, where there is at least one, each has at
-- least one role, and no id, name or role holds a separator of the format.
pub decode-serialize :
    (namespaces : List AuthCookieDataNs)
    → namespaces ≢ []
    → All IsEncodable namespaces
    → decode (serialize namespaces) ≡ ok namespaces
unfolding decode serialize
decode-serialize [] ne h = absurd (ne refl)
decode-serialize (ns ∷ nss) ne h =
    rw (split-join pipe (serialize_ns ns) (map serialize_ns nss) (serialize_each-pipe (ns ∷ nss) h))
      (decode_each-serialize (ns ∷ nss) h)
