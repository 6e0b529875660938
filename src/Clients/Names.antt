-- ===== src/Clients/Names.antt =====
-- pkg/socket/client/client.go: the history of a client's user names.
use streaming_server.Base.{
  ◌≤◌, true, false, List, [], ◌∷◌, ◌≡◌, ◌⊎◌, inl, inr, refl, arith, some, length, Bool-cases, ok,
  err,
}
use streaming_server.Base.Text.{Str}
use streaming_server.Clients.{
  Client, reserved, pushed_name, update_username, previous_name, last_name, get_username,
  get_previous_username, is_reserved, max_username_hist,
}

-- A new name is the current one, the one before it is the previous one, and there are two at most.
IsLatest : List Str → Str → Type 0
IsLatest names name =
    (last_name (pushed_name names name) ≡ some name)
    × (previous_name (pushed_name names name) ≡ last_name names)
    × (length (pushed_name names name) ≤ max_username_hist)

pushed_name-IsLatest :
    (names : List Str) (name : Str) → length names ≤ max_username_hist → IsLatest names name
unfolding IsLatest pushed_name last_name previous_name
pushed_name-IsLatest [] name h = (refl, refl, omega arith)
pushed_name-IsLatest (n ∷ []) name h = (refl, refl, omega arith)
pushed_name-IsLatest (n ∷ m ∷ []) name h = (refl, refl, omega arith)
pushed_name-IsLatest (n ∷ m ∷ k ∷ names) name h = absurd (omega (arith, h))

-- UpdateUsername refuses a reserved name and changes nothing then; otherwise the new name is the
-- current one, the current one becomes the previous one, and no more than two are kept.
pub update_username_lem :
    (c : Client) (name : Str)
    → length c.usernames ≤ max_username_hist
    → ((is_reserved name ≡ true) × (update_username c name ≡ (c, err (reserved name))))
      ⊎ ((is_reserved name ≡ false)
          × ((update_username c name).1 ≡ ok tt)
          × (get_username (update_username c name).0 ≡ some name)
          × (get_previous_username (update_username c name).0 ≡ get_username c)
          × (length (update_username c name).0.usernames ≤ max_username_hist))
unfolding update_username IsLatest
update_username_lem c name h = elim (Bool-cases (is_reserved name)) [
  | inl hit ↦ inl (hit, rw (hit, update_username) refl)
  | inr miss ↦
      let (l, p, b) = pushed_name-IsLatest c.usernames name h in
      inr (
        miss,
        rw (miss, update_username) refl,
        rw (miss, update_username) l,
        rw (miss, update_username) p,
        rw (miss, update_username) b,
      )
]
