-- ===== src/Queue/Reorder/Positions.antt =====
-- pkg/playback/queue/queue.go: Reorder puts the items that the order names at its positions.
use streaming_server.Base.{
  ◌≤◌, ◌>>=◌, ℕ, zero, suc, ◌+◌, ◌<◌, ◌≡◌, refl, sym, ◌∙◌, inl, inr, List, [], ◌∷◌, ◌++◌,
  append-nil, append_assoc, some, arith, true, ok, err, panic, diverges, leb, ltb, if◌then◌else◌,
  length, get_elem?, Bool-cases, Option-cases,
}
use streaming_server.Base.Int.{ℤ, pos, negsuc}
use streaming_server.Queue.Item.{QueueItem, Result}
use streaming_server.Queue.Reorder.{contains, pick, remaining, reorder}

-- The items behind those that had been picked stand as the order says.
Placed : List QueueItem → List ℤ → ℕ → List QueueItem → List QueueItem → Type 0
Placed items ps idx picked all =
    (rest : List QueueItem) × (all ≡ picked ++ rest)
    × ((j n : ℕ)
        → get_elem? ps j ≡ some (pos n)
        → idx + j < length items
        → get_elem? rest j ≡ get_elem? items n)

Placed-cons :
    (items : List QueueItem) (n : ℕ) (ps : List ℤ) (idx : ℕ) (picked all : List QueueItem)
    (x : QueueItem)
    → get_elem? items n ≡ some x
    → Placed items ps (suc idx) (picked ++ x ∷ []) all
    → Placed items (pos n ∷ ps) idx picked all
unfolding Placed
Placed-cons items n ps idx picked all x found (rest, e, at_j) =
    (x ∷ rest, e ∙ append_assoc picked (x ∷ []) rest, place)
  where
    place :
        (j m : ℕ)
        → get_elem? (pos n ∷ ps) j ≡ some (pos m)
        → idx + j < length items
        → get_elem? (x ∷ rest) j ≡ get_elem? items m
    place zero m named lt = let same : n ≡ m = ground (arith, named) in rw (← same) (sym found)
    place (suc j) m named lt = at_j j m named (omega (arith, lt))

pick-Placed :
    (items : List QueueItem) (ps : List ℤ) (idx : ℕ) (seen : List ℕ) (picked : List QueueItem)
    (r : List ℕ × List QueueItem)
    → pick items ps idx seen picked ≡ ok r
    → Placed items ps idx picked r.1
unfolding Placed pick
pick-Placed items [] idx seen picked r e =
    let same : picked ≡ r.1 = ground (arith, e) in
    ([], sym same ∙ sym (append-nil picked), (λ j n named lt. absurd (ground (arith, named))))
pick-Placed items (negsuc k ∷ ps) idx seen picked r e = elim (Bool-cases (leb (length items) idx)) [
  | inl full ↦
      let same : picked ≡ r.1 = ground (arith, e, full) in
      (
        [],
        sym same ∙ sym (append-nil picked),
        (λ j n named lt. absurd (omega (arith, (beyond full), lt))),
      )
  | inr more ↦ absurd (ground (arith, e, more))
]
  where
    beyond : leb (length items) idx ≡ true → length items ≤ idx
    beyond f = ground (arith, f)
pick-Placed items (pos n ∷ ps) idx seen picked r e = elim (Bool-cases (leb (length items) idx)) [
  | inl full ↦
      let same : picked ≡ r.1 = ground (arith, e, full) in
      (
        [],
        sym same ∙ sym (append-nil picked),
        (λ j m named lt. absurd (omega (arith, (beyond full), lt))),
      )
  | inr more ↦ elim (Bool-cases (leb (length items) n)) [
    | inl outside ↦ absurd (ground (arith, e, more, outside))
    | inr inside ↦ elim (Bool-cases (contains n seen)) [
      | inl again ↦ absurd (ground (arith, e, more, inside, again))
      | inr new ↦ elim (Option-cases (get_elem? items n)) [
        | inl missing ↦ absurd (ground (arith, e, more, inside, new, missing))
        | inr (x, found) ↦ Placed-cons items n ps idx picked r.1 x found (
            pick-Placed items ps (suc idx) (n ∷ seen) (picked ++ x ∷ []) r
              (ground (arith, e, more, inside, new, found)))
      ]
    ]
  ]
]
  where
    beyond : leb (length items) idx ≡ true → length items ≤ idx
    beyond f = ground (arith, f)

get_elem?-append :
    (xs ys : List QueueItem) (j : ℕ) (x : QueueItem)
    → get_elem? xs j ≡ some x
    → get_elem? (xs ++ ys) j ≡ some x
get_elem?-append [] ys j x e = absurd (ground (arith, e))
get_elem?-append (y ∷ xs) ys zero x e = e
get_elem?-append (y ∷ xs) ys (suc j) x e = get_elem?-append xs ys j x e

-- The end of Reorder keeps what the first loop has placed.
finished :
    (items : List QueueItem) (ps : List ℤ) (l : ℕ) (r : Result (List ℕ × List QueueItem))
    (xs : List QueueItem) (j : ℕ) (x : QueueItem)
    → (do
      (seen, picked) ← r
      ok (if ltb l (length items) then picked ++ remaining seen 0 items else picked))
      ≡ ok xs
    → ((s : List ℕ × List QueueItem) → r ≡ ok s → get_elem? s.1 j ≡ some x)
    → get_elem? xs j ≡ some x
finished items ps l (ok (seen, picked)) xs j x e placed = elim (Bool-cases (ltb l (length items))) [
  | inl fewer ↦
      let same : picked ++ remaining seen 0 items ≡ xs = ground (arith, e, fewer) in
      rw (← same)
        (get_elem?-append picked (remaining seen 0 items) j x (placed (seen, picked) refl))
  | inr all ↦
      let same : picked ≡ xs = ground (arith, e, all) in rw (← same) (placed (seen, picked) refl)
]
finished items ps l (err y) xs j x e placed = absurd (ground (arith, e))
finished items ps l panic xs j x e placed = absurd (ground (arith, e))
finished items ps l diverges xs j x e placed = absurd (ground (arith, e))

-- Where Reorder succeeds, the item that the order names at a position stands at that position of the
-- new list, for each position within the list.
pub get_elem?-reorder :
    (items xs : List QueueItem) (order : List ℤ) (j n : ℕ) (x : QueueItem)
    → reorder items order ≡ ok xs
    → get_elem? order j ≡ some (pos n)
    → j < length items
    → get_elem? items n ≡ some x
    → get_elem? xs j ≡ some x
unfolding reorder Placed
get_elem?-reorder items xs [] j n x e named lt found = absurd (ground (arith, named))
get_elem?-reorder items xs (p ∷ ps) j n x e named lt found =
    finished items (p ∷ ps) (length (p ∷ ps)) (pick items (p ∷ ps) 0 [] []) xs j x e
      (λ s picked. placed s (pick-Placed items (p ∷ ps) 0 [] [] s picked))
  where
    placed :
        (s : List ℕ × List QueueItem) → Placed items (p ∷ ps) 0 [] s.1 → get_elem? s.1 j ≡ some x
    placed s (rest, same, at_j) = rw same (at_j j n named (omega (arith, lt)) ∙ found)
