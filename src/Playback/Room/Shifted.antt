-- ===== src/Playback/Room/Shifted.antt =====
-- pkg/playback/playback.go: a loop that ranges over the items of a queue and deletes each of them. The
-- deletions shift the array under the loop.
use streaming_server.Base.{
  ℕ, zero, suc, ◌+◌, List, [], ◌∷◌, ◌++◌, ◌≡◌, refl, sym, ap, ◌∙◌, arith, none, some, ok, err,
  panic, diverges, length, drop, get_elem?, get_elem?-length, drop-length, length-append,
  append-nil, append_assoc, subst, All, ◌≢◌,
}
use streaming_server.Base.Text.{Str}
use streaming_server.Queue.Item.{QueueItem}
use streaming_server.Queue.Schema.{delete_item}
use streaming_server.Queue.Schema.Search.{
  Differs, Distinct, Distinct-split, delete_item-front, delete_item-none,
}
use streaming_server.Playback.Room.{shared_array}

-- What such a loop deletes: every second item, and the last one.
abbrev pub cleared : List QueueItem → List QueueItem
cleared [] = []
cleared (x ∷ []) = x ∷ []
cleared (x ∷ y ∷ []) = x ∷ y ∷ []
cleared (x ∷ y ∷ z ∷ xs) = x ∷ cleared (z ∷ xs)

abbrev pub kept : List QueueItem → List QueueItem
kept [] = []
kept (x ∷ []) = []
kept (x ∷ y ∷ []) = []
kept (x ∷ y ∷ z ∷ xs) = y ∷ kept (z ∷ xs)

abbrev pub last_of : QueueItem → List QueueItem → QueueItem
last_of x [] = x
last_of x (y ∷ ys) = last_of y ys

-- What stands behind the items are copies of the last one.
abbrev pub RepeatsLast : List QueueItem → List QueueItem → Type 0
RepeatsLast [] junk = Unit
RepeatsLast (x ∷ xs) junk = All (λ j. j ≡ last_of x xs) junk

drop_past :
    (front after ys : List QueueItem)
    → drop (length (front ++ after)) (front ++ ys) ≡ drop (length after) ys
drop_past [] after ys = refl
drop_past (x ∷ front) after ys = drop_past front after ys

drop_last :
    (x : QueueItem) (after junk : List QueueItem)
    → drop (length after) (x ∷ after ++ junk) ≡ last_of x after ∷ junk
drop_last x [] junk = refl
drop_last x (y ∷ after) junk = drop_last y after junk

module _ (id : QueueItem → Str) where
  -- The deleted items, and those that are left.
  unfoldable pub clears : ℕ → ℕ → List QueueItem → List QueueItem → List QueueItem × List QueueItem
  clears zero i array items = ([], items)
  clears (suc n) i array items = elim (get_elem? array i) [
    | none ↦ ([], items)
    | some x ↦ elim (delete_item id (id x) items) [
      | ok left ↦
          let (gone, rest) = clears n (suc i) (shared_array left array) left in (x ∷ gone, rest)
      | err _ ↦ clears n (suc i) (shared_array items array) items
      | panic ↦ ([], items)
      | diverges ↦ ([], items)
    ]
  ]

  -- Behind the items there is nothing left to delete.
  misses :
      (junk items seen array : List QueueItem)
      → array ≡ (items ++ seen) ++ junk
      → All (λ j. All (Differs id (id j)) items) junk
      → clears (length junk) (length (items ++ seen)) array items ≡ ([], items)
  unfolding clears
  misses [] items seen array e absent = refl
  misses (j ∷ junk) items seen array e absent =
      let at_j : get_elem? array (length (items ++ seen)) ≡ some j =
        rw e (get_elem?-length (items ++ seen) j junk) in
      let same : shared_array items array ≡ array = rw e (
        rw (append_assoc items seen (j ∷ junk)) (rw (drop-length items (seen ++ j ∷ junk)) refl)) in
      let next : suc (length (items ++ seen)) ≡ length (items ++ (seen ++ j ∷ [])) = omega (
        arith,
        length-append {0} items seen,
        length-append {0} items (seen ++ j ∷ []),
        length-append {0} seen (j ∷ []),
      ) in
      let split : array ≡ (items ++ (seen ++ j ∷ [])) ++ junk =
        e
        ∙ rw
            (
              append_assoc items seen (j ∷ junk),
              append_assoc items (seen ++ j ∷ []) junk,
              append_assoc seen (j ∷ []) junk,
            )
            refl in
      rw (at_j, clears)
        (rw (delete_item-none id (id j) items absent.0)
          (rw (same, next) (misses junk items (seen ++ j ∷ []) array split absent.1)))

  array_after :
      (front : List QueueItem) (x : QueueItem) (after junk : List QueueItem)
      → shared_array (front ++ after) (front ++ (x ∷ after ++ junk))
        ≡ (front ++ after) ++ last_of x after ∷ junk
  array_after front x after junk =
      ap (◌++◌ (front ++ after))
        (drop_past front after (x ∷ after ++ junk) ∙ drop_last x after junk)

  -- One round on an item of the queue.
  clears_hit :
      (n : ℕ) (front : List QueueItem) (x : QueueItem) (after junk : List QueueItem)
      → All (Differs id (id x)) front
      → clears (suc n) (length front) (front ++ (x ∷ after ++ junk)) (front ++ x ∷ after) ≡ (
        x
            ∷ (clears n
                (suc (length front))
                ((front ++ after) ++ last_of x after ∷ junk)
                (front ++ after)).0,
        (clears n
            (suc (length front))
            ((front ++ after) ++ last_of x after ∷ junk)
            (front ++ after)).1,
      )
  unfolding clears
  clears_hit n front x after junk absent =
      rw (get_elem?-length front x (after ++ junk), clears)
        (rw (delete_item-front id (id x) front x after absent refl)
          (rw (array_after front x after junk) refl))

  All-last :
      (front : List QueueItem) (x : QueueItem) (junk : List QueueItem)
      → All (λ j. j ≡ x) junk
      → All (Differs id (id x)) front
      → All (λ j. All (Differs id (id j)) front) junk
  All-last front x [] same absent = tt
  All-last front x (j ∷ junk) same absent = (
    subst (λ y. All (Differs id (id y)) front) (sym same.0) absent,
    All-last front x junk same.1 absent,
  )

  clears_one :
      (front : List QueueItem) (x : QueueItem) (junk : List QueueItem)
      → All (λ j. j ≡ x) junk
      → All (Differs id (id x)) front
      → clears (suc (length junk)) (length front) (front ++ (x ∷ junk)) (front ++ x ∷ [])
        ≡ (x ∷ [], front)
  clears_one front x junk same absent =
      let tail =
        misses junk front (x ∷ []) (front ++ x ∷ junk) (sym (append_assoc front (x ∷ []) junk))
          (All-last front x junk same absent) in
      let next : suc (length front) ≡ length (front ++ x ∷ []) =
        omega (arith, length-append {0} front (x ∷ [])) in
      clears_hit (length junk) front x [] junk absent
      ∙ rw (append-nil front) (rw next (rw tail refl))

  clears_again :
      (front : List QueueItem) (y : QueueItem) (junk : List QueueItem)
      → All (λ j. j ≡ y) junk
      → All (Differs id (id y)) front
      → clears
          (suc (length junk))
          (length (front ++ y ∷ []))
          ((front ++ y ∷ []) ++ y ∷ junk)
          (front ++ y ∷ [])
        ≡ (y ∷ [], front)
  unfolding clears
  clears_again front y junk same absent =
      let left : delete_item id (id y) (front ++ y ∷ []) ≡ ok front =
        delete_item-front id (id y) front y [] absent refl ∙ rw (append-nil front) refl in
      let array : shared_array front ((front ++ y ∷ []) ++ y ∷ junk) ≡ front ++ (y ∷ y ∷ junk) =
        rw (append_assoc front (y ∷ []) (y ∷ junk)) (rw (drop-length front (y ∷ y ∷ junk)) refl) in
      let next : suc (length (front ++ y ∷ [])) ≡ length (front ++ y ∷ y ∷ []) =
        omega (arith, length-append {0} front (y ∷ []), length-append {0} front (y ∷ y ∷ [])) in
      let tail =
        misses junk front (y ∷ y ∷ []) (front ++ (y ∷ y ∷ junk))
          (sym (append_assoc front (y ∷ y ∷ []) junk)) (All-last front y junk same absent) in
      rw (get_elem?-length (front ++ y ∷ []) y junk, clears)
        (rw left (rw (array, next) (rw tail refl)))

  clears_each :
      (n : ℕ) (rest front junk : List QueueItem)
      → n ≡ length rest + length junk
      → Distinct id (front ++ rest)
      → RepeatsLast rest junk
      → rest ≢ []
      → clears n (length front) (front ++ (rest ++ junk)) (front ++ rest)
        ≡ (cleared rest, front ++ kept rest)
  clears_each n [] front junk e d same some_left = absurd (some_left refl)
  clears_each zero (x ∷ xs) front junk e d same some_left = absurd (omega arith)
  clears_each (suc n) (x ∷ []) front junk e d same some_left =
      let size : n ≡ length junk = omega arith in
      rw size
        (rw (append-nil front) (clears_one front x junk same (Distinct-split id front x [] d).0))
  clears_each (suc n) (x ∷ y ∷ []) front junk e d same some_left =
      let (x_absent, _, d') = Distinct-split id front x (y ∷ []) d in
      let (y_absent, _, _) = Distinct-split id front y [] d' in
      let size : n ≡ suc (length junk) = omega arith in
      let next : suc (length front) ≡ length (front ++ y ∷ []) =
        omega (arith, length-append {0} front (y ∷ [])) in
      clears_hit n front x (y ∷ []) junk x_absent
      ∙ rw (size, next) (rw (clears_again front y junk same y_absent) (rw (append-nil front) refl))
  clears_each (suc n) (x ∷ y ∷ z ∷ xs) front junk e d same some_left =
      let (x_absent, _, d') = Distinct-split id front x (y ∷ z ∷ xs) d in
      let front' = front ++ y ∷ [] in
      let junk' = last_of y (z ∷ xs) ∷ junk in
      let regroup : front ++ y ∷ z ∷ xs ≡ front' ++ z ∷ xs =
        sym (append_assoc front (y ∷ []) (z ∷ xs)) in
      let next : suc (length front) ≡ length front' =
        omega (arith, length-append {0} front (y ∷ [])) in
      let ih =
        clears_each n (z ∷ xs) front' junk' (omega arith) (subst (Distinct id) regroup d')
          (refl, same) (λ none_left. cc (none_left)) in
      clears_hit n front x (y ∷ z ∷ xs) junk x_absent
      ∙ rw (regroup, next, append_assoc front' (z ∷ xs) junk')
          (rw ih (rw (append_assoc front (y ∷ []) (kept (z ∷ xs))) refl))

  pub clears_items :
      (items : List QueueItem)
      → Distinct id items
      → clears (length items) 0 items items ≡ (cleared items, kept items)
  unfolding clears
  clears_items [] d = refl
  clears_items (x ∷ xs) d =
      rw (append-nil (x ∷ xs)) at
        (clears_each (length (x ∷ xs)) (x ∷ xs) [] [] (omega arith) d tt (λ e. cc (e)))
