-- ===== src/Commands/Queue/Fresh.antt =====
-- pkg/socket/cmd/queue.go: an order of calculateQueueOrder is one that Reorder accepts.
use streaming_server.Base.{
  ℕ, zero, suc, ◌+◌, ◌≤◌, ◌<◌, false, List, [], ◌∷◌, ◌++◌, ◌≡◌, inl, inr, refl, arith,
  if◌then◌else◌, ◌==◌, ltb, leb, length, map, get_elem?-Some, Outcome, ok, Bool-cases,
}
use streaming_server.Base.Int.{pos}
use streaming_server.Queue.Item.{QueueItem}
use streaming_server.Queue.Reorder.{contains, pick, remaining, reorder}
use streaming_server.Commands.Queue.Order.{up_to, before_dest, calculate_queue_order, OrderError}

-- The indices are below the length, and none is in `seen` or occurs twice.
pub IsFresh : ℕ → List ℕ → List ℕ → Type 0
IsFresh n seen [] = Unit
IsFresh n seen (m ∷ ms) = (m < n) × (contains m seen ≡ false) × IsFresh n (m ∷ seen) ms

up_to-IsFresh :
    (n i source dest len : ℕ) (seen : List ℕ)
    → source < len
    → i + n ≤ len
    → ((m : ℕ) → i ≤ m → contains m seen ≡ false)
    → contains source seen ≡ false
    → IsFresh len seen (up_to n i source dest ++ source ∷ [])
unfolding up_to contains IsFresh
up_to-IsFresh zero i source dest len seen lt le free out = (lt, out, tt)
up_to-IsFresh (suc n) i source dest len seen lt le free out = elim (Bool-cases (i == source)) [
  | inl same ↦
      rw (same, if◌then◌else◌)
        (up_to-IsFresh n (suc i) source dest len seen lt (omega (arith, le))
          (λ m above. free m (omega (arith, above))) out)
  | inr other ↦
      rw (other, if◌then◌else◌)
        (elim (Bool-cases (i == dest)) [
          | inl last ↦
              rw (last, if◌then◌else◌)
                (omega (arith, le), free i (omega arith), (lt, rw other out, tt))
          | inr inside ↦
              rw (inside, if◌then◌else◌)
                (
                  omega (arith, le),
                  free i (omega arith),
                  up_to-IsFresh n (suc i) source dest len (i ∷ seen) lt (omega (arith, le))
                      (λ m above. ground (arith, free m (omega (arith, above)), above))
                      (rw other out),
                )
        ])
]

before_dest-IsFresh :
    (n i source dest len : ℕ) (seen : List ℕ)
    → source < len
    → i + n ≤ len
    → ((m : ℕ) → i ≤ m → contains m seen ≡ false)
    → contains source seen ≡ false
    → IsFresh len seen (before_dest n i source (pos dest) ++ source ∷ [])
unfolding before_dest contains IsFresh
before_dest-IsFresh zero i source dest len seen lt le free out = (lt, out, tt)
before_dest-IsFresh (suc n) i source dest len seen lt le free out = elim (Bool-cases (i == dest)) [
  | inl last ↦ rw (last, if◌then◌else◌) (lt, out, tt)
  | inr inside ↦
      rw (inside, if◌then◌else◌)
        (elim (Bool-cases (i == source)) [
          | inl same ↦
              rw (same, if◌then◌else◌)
                (before_dest-IsFresh n (suc i) source dest len seen lt (omega (arith, le))
                  (λ m above. free m (omega (arith, above))) out)
          | inr other ↦
              rw (other, if◌then◌else◌)
                (
                  omega (arith, le),
                  free i (omega arith),
                  before_dest-IsFresh n (suc i) source dest len (i ∷ seen) lt (omega (arith, le))
                      (λ m above. ground (arith, free m (omega (arith, above)), above))
                      (rw other out),
                )
        ])
]

pick_fresh :
    (items : List QueueItem) (ns : List ℕ) (idx : ℕ) (seen : List ℕ) (picked : List QueueItem)
    → IsFresh (length items) seen ns
    → (s : List ℕ × List QueueItem) × (pick items (map pos ns) idx seen picked ≡ ok s)
unfolding pick IsFresh
pick_fresh items [] idx seen picked fresh = ((seen, picked), refl)
pick_fresh items (n ∷ ns) idx seen picked (lt, new, rest) =
    elim (Bool-cases (leb (length items) idx)) [
      | inl over ↦ ((seen, picked), rw (over, if◌then◌else◌) refl)
      | inr more ↦
          let inside : leb (length items) n ≡ false = ground (arith, lt) in
          let (x, found) = get_elem?-Some items n lt in
          let (s, done) = pick_fresh items ns (suc idx) (n ∷ seen) (picked ++ x ∷ []) rest in
          (s, rw (more, inside, new, if◌then◌else◌) (rw found done))
    ]

abbrev pub order_of : Outcome OrderError (List ℕ) → List ℕ
order_of (ok order) = order
order_of _ = []

pub calculate_queue_order-IsFresh :
    (source dest n : ℕ)
    → source < n
    → IsFresh n [] (order_of (calculate_queue_order source (pos dest) n))
unfolding calculate_queue_order IsFresh contains
calculate_queue_order-IsFresh source dest n lt = elim (Bool-cases (source == dest)) [
  | inl same ↦ rw (same, if◌then◌else◌) tt
  | inr other ↦ elim (Bool-cases (ltb source dest)) [
    | inl lower ↦
        rw (other, lower, if◌then◌else◌)
          (up_to-IsFresh n 0 source dest n [] lt (omega arith) (λ m above. refl) refl)
    | inr higher ↦
        rw (other, higher, if◌then◌else◌)
          (before_dest-IsFresh n 0 source dest n [] lt (omega arith) (λ m above. refl) refl)
  ]
]

pub reorder_fresh :
    (items : List QueueItem) (order : List ℕ)
    → IsFresh (length items) [] order
    → (xs : List QueueItem) × (reorder items (map pos order) ≡ ok xs)
unfolding reorder
reorder_fresh items [] fresh = (items, refl)
reorder_fresh items (n ∷ ns) fresh =
    let ((seen, picked), done) = pick_fresh items (n ∷ ns) 0 [] [] fresh in
    (
      (if ltb (length (map pos (n ∷ ns))) (length items)
          then picked ++ remaining seen 0 items
          else picked),
      rw done refl,
    )
