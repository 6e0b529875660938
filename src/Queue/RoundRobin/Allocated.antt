-- ===== src/Queue/RoundRobin/Allocated.antt =====
-- pkg/playback/queue/queue.go: NewAggregatableQueue at a pointer that the room's queue does not hold
-- leaves the queue well formed.
use streaming_server.Base.{ℕ, ◌≡◌, ◌≢◌, refl, sym, ◌∙◌, List, [], ◌∷◌, arith, All}
use streaming_server.Base.Text.{Str}
use streaming_server.Base.Dict.{Dict}
use streaming_server.Queue.Item.{QueueItem, single, aggregate, Heap, uuid, allocate}
use streaming_server.Queue.Schema.Search.{Differs, Distinct}
use streaming_server.Queue.RoundRobin.{RoundRobinQueue}
use streaming_server.Queue.RoundRobin.Indexed.{IsIndexed, find_queue}
use streaming_server.Queue.RoundRobin.Rotation.{IsWellFormed}

module _ (f g : QueueItem → Str) where
  abbrev Agree : QueueItem → Type 0
  Agree x = g x ≡ f x

  Differs-cong :
      (k j : Str) (xs : List QueueItem)
      → j ≡ k
      → All Agree xs
      → All (Differs f k) xs
      → All (Differs g j) xs
  Differs-cong k j [] e s d = tt
  Differs-cong k j (x ∷ xs) e s d = ((λ eq. d.0 (sym s.0 ∙ eq ∙ e)), Differs-cong k j xs e s.1 d.1)

  Distinct-cong : (xs : List QueueItem) → All Agree xs → Distinct f xs → Distinct g xs
  Distinct-cong [] s d = tt
  Distinct-cong (x ∷ xs) s d = (Differs-cong (f x) (g x) xs s.0 s.1 d.0, Distinct-cong xs s.1 d.1)

  find_queue-cong :
      (k : Str) (xs : List QueueItem) → All Agree xs → find_queue f k xs ≡ find_queue g k xs
  unfolding find_queue
  find_queue-cong k [] s = refl
  find_queue-cong k (single _ _ ∷ xs) s = find_queue-cong k xs s.1
  find_queue-cong k (aggregate a ∷ xs) s = rw (s.0, find_queue-cong k xs s.1)

  IsIndexed-cong :
      (xs : List QueueItem) (by_id : Dict ℕ)
      → All Agree xs
      → IsIndexed f xs by_id
      → IsIndexed g xs by_id
  IsIndexed-cong xs by_id s w = record {
    aggregates = w.aggregates;
    distinct = Distinct-cong xs s w.distinct;
    indexed = λ k. w.indexed k ∙ find_queue-cong k xs s;
  }

module _ (h : Heap) (a : ℕ) (k : Str) where
  uuid-allocate : (x : QueueItem) → x ≢ aggregate a → uuid (allocate h a k) x ≡ uuid h x
  unfolding uuid allocate
  uuid-allocate (single s p) ne = refl
  uuid-allocate (aggregate b) ne = ground (arith, ne)

  uuid-allocate_All :
      (xs : List QueueItem)
      → All (λ x. x ≢ aggregate a) xs
      → All (Agree (uuid h) (uuid (allocate h a k))) xs
  uuid-allocate_All [] d = tt
  uuid-allocate_All (x ∷ xs) d = (uuid-allocate x d.0, uuid-allocate_All xs d.1)

pub allocate-IsWellFormed :
    (q : RoundRobinQueue) (a : ℕ) (k : Str)
    → All (λ x. x ≢ aggregate a) q.items
    → IsWellFormed q
    → IsWellFormed (record q { heap = allocate q.heap a k })
allocate-IsWellFormed q a k d w = record {
  links =
      IsIndexed-cong (uuid q.heap) (uuid (allocate q.heap a k)) q.items q.items_by_id
        (uuid-allocate_All q.heap a k q.items d) w.links;
  in_range = w.in_range;
}
