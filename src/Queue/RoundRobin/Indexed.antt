-- ===== src/Queue/RoundRobin/Indexed.antt =====
-- pkg/playback/queue/queue.go: the slice of queues and the map `itemsById` name the same queues.
use streaming_server.Base.{
  append-nil, ℕ, ◌≡◌, refl, ◌∙◌, List, [], ◌∷◌, ◌++◌, Option, none, some, arith, All,
  All-append_inv, All-append, if◌then◌else◌,
}
use streaming_server.Base.Text.{Str, str_eq, str_eq_iff, str_eq_refl, str_ne}
use streaming_server.Base.Dict.{Dict, lookup, insert, delete, lookup-insert, lookup-delete}
use streaming_server.Queue.Item.{QueueItem, single, aggregate}
use streaming_server.Queue.Schema.Search.{Differs, Distinct, Distinct-split, Distinct-insert}

abbrev pub IsAggregate : QueueItem → Type 0
IsAggregate (single _ _) = ⊥
IsAggregate (aggregate _) = Unit

module _ (uuid : QueueItem → Str) where
  -- The queue that the slice holds under an id.
  unfoldable pub find_queue : Str → List QueueItem → Option ℕ
  find_queue k [] = none
  find_queue k (single _ _ ∷ qs) = find_queue k qs
  find_queue k (aggregate a ∷ qs) =
      let rest = find_queue k qs in if str_eq (uuid (aggregate a)) k then some a else rest

  pub record IsIndexed (items : List QueueItem) (by_id : Dict ℕ) : Type 0 where
    pub aggregates : All IsAggregate items
    pub distinct : Distinct uuid items
    pub indexed : (k : Str) → lookup k by_id ≡ find_queue k items

  pub find_queue-none :
      (k : Str) (qs : List QueueItem) → All (Differs uuid k) qs → find_queue k qs ≡ none
  unfolding find_queue
  find_queue-none k [] h = refl
  find_queue-none k (single _ _ ∷ qs) h = find_queue-none k qs h.1
  find_queue-none k (aggregate a ∷ qs) h =
      rw (str_ne (uuid (aggregate a)) k h.0) (find_queue-none k qs h.1)

  -- Of an entry and the rest of the slice, one is found under `k`.
  find_queue-middle :
      (k : Str) (front : List QueueItem) (a : ℕ) (back : List QueueItem)
      → All (Differs uuid (uuid (aggregate a))) front
      → find_queue k (front ++ aggregate a ∷ back)
        ≡ (if str_eq (uuid (aggregate a)) k then some a else find_queue k (front ++ back))
  unfolding find_queue
  find_queue-middle k [] a back h = refl
  find_queue-middle k (single _ _ ∷ front) a back h = find_queue-middle k front a back h.1
  find_queue-middle k (aggregate b ∷ front) a back h = ground (
    arith,
    find_queue-middle k front a back h.1,
    str_eq_iff (uuid (aggregate b)) k,
    str_eq_iff (uuid (aggregate a)) k,
    h.0,
  )

  pub find_queue-found :
      (front : List QueueItem) (a : ℕ) (back : List QueueItem)
      → All (Differs uuid (uuid (aggregate a))) front
      → find_queue (uuid (aggregate a)) (front ++ aggregate a ∷ back) ≡ some a
  find_queue-found front a back h =
      find_queue-middle (uuid (aggregate a)) front a back h ∙ rw (str_eq_refl (uuid (aggregate a)))

  pub IsIndexed-remove :
      (front : List QueueItem) (a : ℕ) (back : List QueueItem) (by_id : Dict ℕ)
      → IsIndexed (front ++ aggregate a ∷ back) by_id
      → IsIndexed (front ++ back) (delete (uuid (aggregate a)) by_id)
  IsIndexed-remove front a back by_id w = record { aggregates = all; distinct = d; indexed = found }
    where
      f : All (Differs uuid (uuid (aggregate a))) front
      f = (Distinct-split uuid front (aggregate a) back w.distinct).0

      b : All (Differs uuid (uuid (aggregate a))) back
      b = (Distinct-split uuid front (aggregate a) back w.distinct).1

      d : Distinct uuid (front ++ back)
      d = (Distinct-split uuid front (aggregate a) back w.distinct).2

      all : All IsAggregate (front ++ back)
      all =
          let (p, q) = All-append_inv IsAggregate front (aggregate a ∷ back) w.aggregates in
          All-append IsAggregate front back p q.1

      found :
          (k : Str) → lookup k (delete (uuid (aggregate a)) by_id) ≡ find_queue k (front ++ back)
      found k = ground (
        arith,
        lookup-delete (uuid (aggregate a)) k by_id,
        w.indexed k,
        find_queue-middle k front a back f,
        str_eq_iff (uuid (aggregate a)) k,
        find_queue-none (uuid (aggregate a)) (front ++ back)
            (All-append (Differs uuid (uuid (aggregate a))) front back f b),
      )

  pub IsIndexed-insert :
      (front : List QueueItem) (a : ℕ) (back : List QueueItem) (by_id : Dict ℕ)
      → All (Differs uuid (uuid (aggregate a))) (front ++ back)
      → IsIndexed (front ++ back) by_id
      → IsIndexed (front ++ aggregate a ∷ back) (insert (uuid (aggregate a)) a by_id)
  IsIndexed-insert front a back by_id new w = record {
    aggregates = all;
    distinct = d;
    indexed = found;
  }
    where
      f : All (Differs uuid (uuid (aggregate a))) front
      f = (All-append_inv (Differs uuid (uuid (aggregate a))) front back new).0

      d : Distinct uuid (front ++ aggregate a ∷ back)
      d =
          Distinct-insert uuid front (aggregate a) back f
            (All-append_inv (Differs uuid (uuid (aggregate a))) front back new).1 w.distinct

      all : All IsAggregate (front ++ aggregate a ∷ back)
      all =
          let (p, q) = All-append_inv IsAggregate front back w.aggregates in
          All-append IsAggregate front (aggregate a ∷ back) p (tt, q)

      found :
          (k : Str)
          → lookup k (insert (uuid (aggregate a)) a by_id)
            ≡ find_queue k (front ++ aggregate a ∷ back)
      found k = ground (
        arith,
        lookup-insert (uuid (aggregate a)) k a by_id,
        w.indexed k,
        find_queue-middle k front a back f,
      )

  find_queue-swap :
      (k : Str) (xs ys : List QueueItem)
      → All IsAggregate xs
      → Distinct uuid (xs ++ ys)
      → find_queue k (xs ++ ys) ≡ find_queue k (ys ++ xs)
  unfolding find_queue
  find_queue-swap k [] ys g d = rw append-nil
  find_queue-swap k (single _ _ ∷ xs) ys g d = absurd g.0
  find_queue-swap k (aggregate a ∷ xs) ys g d =
      let (hx, hy) = All-append_inv (Differs uuid (uuid (aggregate a))) xs ys d.0 in
      rw (find_queue-middle k ys a xs hy) (ground (arith, find_queue-swap k xs ys g.1 d.1))

  Distinct-swap : (xs ys : List QueueItem) → Distinct uuid (xs ++ ys) → Distinct uuid (ys ++ xs)
  Distinct-swap [] ys d = rw (append-nil ys) d
  Distinct-swap (x ∷ xs) ys d =
      let (hx, hy) = All-append_inv (Differs uuid (uuid x)) xs ys d.0 in
      Distinct-insert uuid ys x xs hy hx (Distinct-swap xs ys d.1)

  -- The order of the slice does not matter.
  pub IsIndexed-swap :
      (xs ys : List QueueItem) (by_id : Dict ℕ)
      → IsIndexed (xs ++ ys) by_id
      → IsIndexed (ys ++ xs) by_id
  IsIndexed-swap xs ys by_id w =
      let (p, q) = All-append_inv IsAggregate xs ys w.aggregates in
      record {
        aggregates = All-append IsAggregate ys xs q p;
        distinct = Distinct-swap xs ys w.distinct;
        indexed = λ k. w.indexed k ∙ find_queue-swap k xs ys p w.distinct;
      }
