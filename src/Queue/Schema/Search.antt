-- ===== src/Queue/Schema/Search.antt =====
-- pkg/playback/queue/queue.go: what the search and the deletion by id of QueueSchema come to.
use streaming_server.Base.{
  suc, ◌≡◌, ◌≢◌, refl, sym, ap, ◌⊎◌, inl, inr, List, [], ◌∷◌, ◌++◌, none, some, false, Bool-cases,
  ok, err, length, drop, take-length, All, All-append_inv, All-append,
}
use streaming_server.Base.Text.{Str, str_eq, str_eq→eq, str_eq_iff, str_ne, str_eq_refl}
use streaming_server.Queue.Item.{QueueItem, item_not_found}
use streaming_server.Queue.Schema.{index_of, delete_item}

module _ (uuid : QueueItem → Str) where
  abbrev pub Differs : Str → QueueItem → Type 0
  Differs k x = uuid x ≢ k

  -- No two items have one id.
  abbrev pub Distinct : List QueueItem → Type 0
  Distinct [] = Unit {0}
  Distinct (x ∷ xs) = All (Differs (uuid x)) xs × Distinct xs

  pub search_cases :
      (k : Str) (xs : List QueueItem)
      → All (Differs k) xs
        ⊎ ((front : List QueueItem) × (x : QueueItem) × (back : List QueueItem) × (xs
              ≡ front ++ x ∷ back)
            × (uuid x ≡ k)
            × All (Differs k) front)
  search_cases k [] = inl tt
  search_cases k (x ∷ xs) = elim (Bool-cases (str_eq (uuid x) k)) [
    | inl hit ↦ inr ([], x, xs, refl, str_eq→eq (uuid x) k hit, tt)
    | inr miss ↦ elim (search_cases k xs) [
      | inl rest ↦ inl (ne miss, rest)
      | inr (front, y, back, e, hit, rest) ↦
          inr (x ∷ front, y, back, ap (◌∷◌ x) e, hit, (ne miss, rest))
    ]
  ]
    where
      ne : str_eq (uuid x) k ≡ false → uuid x ≢ k
      ne miss e = cc (miss, (str_eq_iff (uuid x) k).1 e)

  pub index_of-front :
      (k : Str) (front : List QueueItem) (x : QueueItem) (back : List QueueItem)
      → All (Differs k) front
      → uuid x ≡ k
      → index_of uuid k (front ++ x ∷ back) ≡ some (length front)
  unfolding index_of
  index_of-front k [] x back h e = rw (e, str_eq_refl k)
  index_of-front k (y ∷ front) x back h e =
      rw (str_ne (uuid y) k h.0, index_of-front k front x back h.1 e)

  pub index_of-none :
      (k : Str) (xs : List QueueItem) → All (Differs k) xs → index_of uuid k xs ≡ none
  unfolding index_of
  index_of-none k [] h = refl
  index_of-none k (x ∷ xs) h = rw (str_ne (uuid x) k h.0, index_of-none k xs h.1)

  drop-suc-length :
      (front : List QueueItem) (x : QueueItem) (back : List QueueItem)
      → drop (suc (length front)) (front ++ x ∷ back) ≡ back
  drop-suc-length [] x back = refl
  drop-suc-length (y ∷ front) x back = drop-suc-length front x back

  pub delete_item-front :
      (k : Str) (front : List QueueItem) (x : QueueItem) (back : List QueueItem)
      → All (Differs k) front
      → uuid x ≡ k
      → delete_item uuid k (front ++ x ∷ back) ≡ ok (front ++ back)
  unfolding delete_item
  delete_item-front k front x back h e =
      rw (index_of-front k front x back h e, delete_item)
        (rw (take-length front (x ∷ back), drop-suc-length front x back))

  pub delete_item-none :
      (k : Str) (xs : List QueueItem)
      → All (Differs k) xs
      → delete_item uuid k xs ≡ err (item_not_found k)
  unfolding delete_item
  delete_item-none k xs h = rw (index_of-none k xs h, delete_item)

  -- Around one of distinct items all others have another id, and they are distinct.
  pub Distinct-split :
      (front : List QueueItem) (x : QueueItem) (back : List QueueItem)
      → Distinct (front ++ x ∷ back)
      → All (Differs (uuid x)) front × All (Differs (uuid x)) back × Distinct (front ++ back)
  Distinct-split [] x back h = (tt, h.0, h.1)
  Distinct-split (y ∷ front) x back h =
      let (f, b, d) = Distinct-split front x back h.1 in
      let (hf, hb) = All-append_inv (Differs (uuid y)) front (x ∷ back) h.0 in
      ((λ e. hb.0 (sym e), f), b, (All-append (Differs (uuid y)) front back hf hb.1, d))

  pub Distinct-insert :
      (front : List QueueItem) (x : QueueItem) (back : List QueueItem)
      → All (Differs (uuid x)) front
      → All (Differs (uuid x)) back
      → Distinct (front ++ back)
      → Distinct (front ++ x ∷ back)
  Distinct-insert [] x back f b d = (b, d)
  Distinct-insert (y ∷ front) x back f b d =
      let (hf, hb) = All-append_inv (Differs (uuid y)) front back d.0 in
      (
        All-append (Differs (uuid y)) front (x ∷ back) hf (λ e. f.0 (sym e), hb),
        Distinct-insert front x back f.1 b d.1,
      )
