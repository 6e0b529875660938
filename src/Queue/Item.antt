-- ===== src/Queue/Item.antt =====
-- pkg/playback/queue/queue.go: queue items, and the aggregatable queues that pointers lead to.
use streaming_server.Base.{
  ℕ, ◌≡◌, ◌≢◌, refl, fun_ext, List, [], arith, ◌==◌, if◌then◌else◌, Outcome,
}
use streaming_server.Base.Text.{Str}
use streaming_server.Base.Int.{ℤ}

pub data QueueError : Type 0 where
  no_items max_size_exceeded not_aggregatable : QueueError
  no_such_queue item_not_found : Str → QueueError
  out_of_range duplicate_index : ℤ → QueueError

abbrev pub Result {ℓ} : Type ℓ → Type ℓ
Result A = Outcome QueueError A

-- A value of the interface QueueItem: one that is no queue (its id, and which object it is), or a
-- pointer to an AggregatableQueueSchema.
pub data QueueItem : Type 0 where
  single : Str → ℕ → QueueItem
  aggregate : ℕ → QueueItem

pub record AggregatableQueue : Type 0 where
  pub id : Str
  pub items : List QueueItem

-- What each pointer leads to. The id of a queue never changes.
abbrev pub Heap : Type 0
Heap = ℕ → AggregatableQueue

unfoldable pub uuid : Heap → QueueItem → Str
uuid h (single s _) = s
uuid h (aggregate a) = (h a).id

unfoldable pub set_items : Heap → ℕ → List QueueItem → Heap
set_items h a xs b = if b == a then record { id = (h b).id; items = xs } else h b

pub id-set_items :
    (h : Heap) (a : ℕ) (xs : List QueueItem) (b : ℕ) → (set_items h a xs b).id ≡ (h b).id
unfolding set_items
id-set_items h a xs b = ground arith

uuid-set_items_at :
    (h : Heap) (a : ℕ) (xs : List QueueItem) (q : QueueItem) → uuid (set_items h a xs) q ≡ uuid h q
unfolding uuid
uuid-set_items_at h a xs (single s p) = refl
uuid-set_items_at h a xs (aggregate b) = id-set_items h a xs b

pub uuid-set_items : (h : Heap) (a : ℕ) (xs : List QueueItem) → uuid (set_items h a xs) ≡ uuid h
uuid-set_items h a xs = fun_ext (uuid-set_items_at h a xs)

pub items-set_items : (h : Heap) (a : ℕ) (xs : List QueueItem) → (set_items h a xs a).items ≡ xs
unfolding set_items
items-set_items h a xs = ground arith

-- A write to one queue leaves the others alone.
pub set_items_ne :
    (h : Heap) (a : ℕ) (xs : List QueueItem) (b : ℕ) → b ≢ a → set_items h a xs b ≡ h b
unfolding set_items
set_items_ne h a xs b ne = ground arith

-- NewAggregatableQueue(id) at the pointer `a`.
unfoldable pub allocate : Heap → ℕ → Str → Heap
allocate h a k b = if b == a then record { id = k; items = [] } else h b
