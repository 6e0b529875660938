-- ===== src/Queue/RoundRobin/Serialized.antt =====
-- pkg/playback/queue/queue.go: Serialize of RoundRobinQueueSchema lists the first item of each queue in
-- the order of turns, as long as no queue is empty.
use streaming_server.Base.{
  ℕ, zero, suc, ◌≡◌, refl, ap, ◌∙◌, List, [], ◌∷◌, ◌++◌, map, arith, false, ok, length, take, drop,
  ltb, All, All-append, All-take, All-drop,
}
use streaming_server.Queue.Item.{QueueItem, single, aggregate, Heap}
use streaming_server.Queue.RoundRobin.{RoundRobinQueue, peek_items, rotated, serialize}
use streaming_server.Queue.RoundRobin.Rotation.{View, view, rotate, rotation, IsWellFormed}
use streaming_server.Queue.RoundRobin.Delete.{in_range-le}

-- The first item of each queue that has one.
abbrev pub firsts : List View → List QueueItem
firsts [] = []
firsts ((k, []) ∷ vs) = firsts vs
firsts ((k, x ∷ xs) ∷ vs) = x ∷ firsts vs

module _ (h : Heap) where
  -- The item is a queue that is not empty.
  abbrev pub IsFilled : QueueItem → Type 0
  IsFilled (single _ _) = ⊥
  IsFilled (aggregate a) = (x : QueueItem) × (xs : List QueueItem) × ((h a).items ≡ x ∷ xs)

  -- PeekItems takes one item of each queue, so that it commutes with a cut.
  length-peek_items : (qs : List QueueItem) → All IsFilled qs → length (peek_items h qs) ≡ length qs
  unfolding peek_items
  length-peek_items [] f = refl
  length-peek_items (single _ _ ∷ qs) f = absurd f.0
  length-peek_items (aggregate a ∷ qs) ((x, xs, e), f) =
      rw (e, peek_items) (ap suc (length-peek_items qs f))

  take-peek_items :
      (n : ℕ) (qs : List QueueItem)
      → All IsFilled qs
      → take n (peek_items h qs) ≡ peek_items h (take n qs)
  unfolding peek_items
  take-peek_items zero qs f = refl
  take-peek_items (suc n) [] f = refl
  take-peek_items (suc n) (single _ _ ∷ qs) f = absurd f.0
  take-peek_items (suc n) (aggregate a ∷ qs) ((x, xs, e), f) =
      rw (e, peek_items) (ap (◌∷◌ x) (take-peek_items n qs f))

  drop-peek_items :
      (n : ℕ) (qs : List QueueItem)
      → All IsFilled qs
      → drop n (peek_items h qs) ≡ peek_items h (drop n qs)
  unfolding peek_items
  drop-peek_items zero qs f = refl
  drop-peek_items (suc n) [] f = refl
  drop-peek_items (suc n) (single _ _ ∷ qs) f = absurd f.0
  drop-peek_items (suc n) (aggregate a ∷ qs) ((x, xs, e), f) =
      rw (e, peek_items) (drop-peek_items n qs f)

  peek_items-append :
      (qs rs : List QueueItem)
      → All IsFilled qs
      → peek_items h qs ++ peek_items h rs ≡ peek_items h (qs ++ rs)
  unfolding peek_items
  peek_items-append [] rs f = refl
  peek_items-append (single _ _ ∷ qs) rs f = absurd f.0
  peek_items-append (aggregate a ∷ qs) rs ((x, xs, e), f) =
      rw (e, peek_items) (ap (◌∷◌ x) (peek_items-append qs rs f))

  peek_items-firsts :
      (qs : List QueueItem) → All IsFilled qs → peek_items h qs ≡ firsts (map (view h) qs)
  unfolding peek_items view
  peek_items-firsts [] f = refl
  peek_items-firsts (single _ _ ∷ qs) f = absurd f.0
  peek_items-firsts (aggregate a ∷ qs) ((x, xs, e), f) =
      rw (e, peek_items) (ap (◌∷◌ x) (peek_items-firsts qs f))

-- Where no user's queue is empty, Serialize does not panic, and lists the first item of each queue in
-- the order of turns.
pub serialize-firsts :
    (q : RoundRobinQueue)
    → IsWellFormed q
    → All (IsFilled q.heap) q.items
    → serialize q ≡ ok (firsts (rotation q))
unfolding serialize rotated rotation
serialize-firsts q w f =
    let n = q.rr_count in
    let qs = q.items in
    let fits : ltb (length (peek_items q.heap qs)) n ≡ false =
      ground (arith, length-peek_items q.heap qs f, in_range-le n (length qs) w.in_range) in
    rw fits (
      ap ok (
        rw (drop-peek_items q.heap n qs f, take-peek_items q.heap n qs f)
          (peek_items-append q.heap (drop n qs) (take n qs) (All-drop (IsFilled q.heap) n qs f)
            ∙ peek_items-firsts q.heap (rotate n qs) (
                All-append (IsFilled q.heap) (drop n qs) (take n qs)
                  (All-drop (IsFilled q.heap) n qs f) (All-take (IsFilled q.heap) n qs f)))))
