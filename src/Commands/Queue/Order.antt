-- ===== src/Commands/Queue/Order.antt =====
-- pkg/socket/cmd/queue.go: calculateQueueOrder and `/queue order mine`, without the events that it
-- sends. A source index is found in a list, so that it is a natural number below its length; a
-- destination may be any integer that the user writes.
use streaming_server.Base.{
  ℕ, zero, suc, ◌+◌, ◌-◌, ◌≤◌, ◌<◌, Bool, false, List, [], ◌∷◌, ◌++◌, ◌≡◌, ◌≢◌, ◌⊎◌, inl, inr, refl,
  arith, some, if◌then◌else◌, ◌==◌, ltb, length, length-append, get_elem?, get_elem?-length,
  Outcome, ok, err, panic, diverges, Bool-cases, subst, Option, none, map, ◌>>=◌,
}
use streaming_server.Base.Int.{ℤ, pos, negsuc}
use streaming_server.Base.Text.{Str, str_eq}
use streaming_server.Queue.Item.{QueueItem, QueueError, Result}
use streaming_server.Queue.Reorder.{reorder}

pub data OrderError : Type 0 where
  same_index : ℕ → OrderError
  not_found : Str → OrderError
  not_reordered : QueueError → OrderError

-- queueItemIndex, from the index `idx` on.
unfoldable pub queue_item_index : (QueueItem → Str) → Str → List QueueItem → ℕ → Option ℕ
queue_item_index uuid id [] idx = none
queue_item_index uuid id (x ∷ xs) idx =
    let rest = queue_item_index uuid id xs (suc idx) in
    if str_eq (uuid x) id then some idx else rest

-- The first loop, from the index `i` with `n` indices left.
unfoldable pub up_to : ℕ → ℕ → ℕ → ℕ → List ℕ
up_to zero i source dest = []
up_to (suc n) i source dest =
    let rest = up_to n (suc i) source dest in
    if i == source then rest else if i == dest then i ∷ [] else i ∷ rest

abbrev is_at : ℕ → ℤ → Bool
is_at i (pos d) = i == d
is_at i (negsuc _) = false

-- The second loop.
unfoldable pub before_dest : ℕ → ℕ → ℕ → ℤ → List ℕ
before_dest zero i source dest = []
before_dest (suc n) i source dest =
    let rest = before_dest n (suc i) source dest in
    if is_at i dest then [] else if i == source then rest else i ∷ rest

unfoldable pub calculate_queue_order : ℕ → ℤ → ℕ → Outcome OrderError (List ℕ)
calculate_queue_order source (negsuc k) n = ok (before_dest n 0 source (negsuc k) ++ source ∷ [])
calculate_queue_order source (pos d) n =
    if source == d
    then err (same_index source)
    else if ltb source d
    then ok (up_to n 0 source d ++ source ∷ [])
    else ok (before_dest n 0 source (pos d) ++ source ∷ [])

-- The end of the subcommand: an error of Reorder is wrapped.
unfoldable pub moved : Result (List QueueItem) → Outcome OrderError (List QueueItem)
moved (ok xs) = ok xs
moved (err e) = err (not_reordered e)
moved panic = panic
moved diverges = diverges

-- `/queue order mine` on the items of the user's queue, with the id of an item and a destination.
unfoldable pub order_mine :
    (QueueItem → Str) → List QueueItem → Str → ℤ → Outcome OrderError (List QueueItem)
order_mine uuid items id dest = elim (queue_item_index uuid id items 0) [
  | none ↦ err (not_found id)
  | some source ↦ do
    order ← calculate_queue_order source dest (length items)
    moved (reorder items (map pos order))
]

length-up_to :
    (n i source dest : ℕ)
    → source < dest
    → i ≤ dest
    → dest < i + n
    → length (up_to n i source dest) ≡ dest - i + (if ltb source i then 1 else 0)
unfolding up_to
length-up_to zero i source dest lt le fits = absurd (omega (arith, le, fits))
length-up_to (suc n) i source dest lt le fits = elim (Bool-cases (i == dest)) [
  | inl last ↦ ground (arith, last, lt)
  | inr inside ↦
      let ih =
        length-up_to n (suc i) source dest lt (ground (arith, inside, le)) (omega (arith, fits)) in
      ground (arith, inside, lt, le, ih)
]

length-before_dest :
    (n i source dest : ℕ)
    → dest < source
    → i ≤ dest
    → dest < i + n
    → length (before_dest n i source (pos dest)) ≡ dest - i
unfolding before_dest
length-before_dest zero i source dest lt le fits = absurd (omega (arith, le, fits))
length-before_dest (suc n) i source dest lt le fits = elim (Bool-cases (i == dest)) [
  | inl last ↦ ground (arith, last)
  | inr inside ↦
      let ih =
        length-before_dest n (suc i) source dest lt (ground (arith, inside, le))
          (omega (arith, fits)) in
      ground (arith, inside, lt, le, ih)
]

at_end :
    (xs : List ℕ) (source dest : ℕ)
    → length xs ≡ dest
    → get_elem? (xs ++ source ∷ []) dest ≡ some source
at_end xs source dest e =
    subst (λ d. get_elem? (xs ++ source ∷ []) d ≡ some source) e (get_elem?-length xs source [])

-- For a destination in the list, the order has the source index at the destination; it is an error
-- if the two are equal.
pub calculate_queue_order_lem :
    (source dest n : ℕ)
    → dest < n
    → ((source ≡ dest) × (calculate_queue_order source (pos dest) n ≡ err (same_index source)))
      ⊎ ((source ≢ dest)
          × ((order : List ℕ) × (calculate_queue_order source (pos dest) n ≡ ok order)
              × (get_elem? order dest ≡ some source)
              × (length order ≡ suc dest)))
unfolding calculate_queue_order
calculate_queue_order_lem source dest n fits = elim (Bool-cases (source == dest)) [
  | inl same ↦ inl (ground (arith, same), rw same refl)
  | inr other ↦ elim (Bool-cases (ltb source dest)) [
    | inl lower ↦
        let l : length (up_to n 0 source dest) ≡ dest = ground (
          arith,
          length-up_to n 0 source dest (ground (arith, lower)) (omega arith) (omega (arith, fits)),
        ) in
        inr (
          (λ e. ground (arith, other, e)),
          (
            up_to n 0 source dest ++ source ∷ [],
            rw other (rw lower refl),
            at_end (up_to n 0 source dest) source dest l,
            omega (arith, l, length-append {0} (up_to n 0 source dest) (source ∷ [])),
          ),
        )
    | inr higher ↦
        let l : length (before_dest n 0 source (pos dest)) ≡ dest = ground (
          arith,
          length-before_dest n 0 source dest (ground (arith, other, higher)) (omega arith)
              (omega (arith, fits)),
        ) in
        inr (
          (λ e. ground (arith, other, e)),
          (
            before_dest n 0 source (pos dest) ++ source ∷ [],
            rw other (rw higher refl),
            at_end (before_dest n 0 source (pos dest)) source dest l,
            omega (arith, l, length-append {0} (before_dest n 0 source (pos dest)) (source ∷ [])),
          ),
        )
  ]
]
