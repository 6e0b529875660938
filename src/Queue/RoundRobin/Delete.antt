-- ===== src/Queue/RoundRobin/Delete.antt =====
-- pkg/playback/queue/queue.go: DeleteItem of RoundRobinQueueSchema takes one queue out of the turn
-- order, and leaves the others' turns as they were.
use streaming_server.Base.{
  ℕ, suc, ◌≤◌, ◌<◌, ◌≡◌, ◌≢◌, refl, sym, ap, ◌∙◌, ◌⊎◌, inl, inr, List, [], ◌∷◌, ◌++◌, map, none,
  some, arith, ok, err, length, length-append, All, All-append_inv, All-append, All-take, All-drop,
  drop, take, subst,
}
use streaming_server.Base.Text.{Str}
use streaming_server.Base.Dict.{Dict, lookup, delete}
use streaming_server.Queue.Item.{QueueItem, single, aggregate, Heap, uuid, no_such_queue, Result}
use streaming_server.Queue.Schema.Search.{
  Differs, Distinct-split, search_cases, index_of-front, delete_item-front,
}
use streaming_server.Queue.RoundRobin.{RoundRobinQueue, adjust, deleted, delete_item}
use streaming_server.Queue.RoundRobin.Indexed.{
  IsAggregate, find_queue-found, find_queue-none, IsIndexed-remove,
}
use streaming_server.Queue.RoundRobin.Rotation.{
  rotate, without, without-differs, map-without, rotate-adjust, View, view, view-uuid, rotation,
  IsWellFormed,
}

abbrev pub without_queue : Str → List View → List View
without_queue = without (λ v. v.0)

pub in_range-le : (rr n : ℕ) → (rr < n) ⊎ (rr ≡ 0) → rr ≤ n
in_range-le rr n h = ground arith

adjust-in_range : (idx rr n : ℕ) → (adjust idx rr n < n) ⊎ (adjust idx rr n ≡ 0)
unfolding adjust
adjust-in_range idx rr n = ground arith

All-rotate {ℓ κ} :
    {A : Type ℓ} (P : A → Type κ) (n : ℕ) (xs : List A) → All P xs → All P (rotate n xs)
All-rotate P n xs h = All-append P (drop n xs) (take n xs) (All-drop P n xs h) (All-take P n xs h)

pub All-view :
    (h : Heap) (k : Str) (xs : List QueueItem)
    → All (Differs (uuid h) k) xs
    → All (λ v. v.0 ≢ k) (map (view h) xs)
All-view h k [] d = tt
All-view h k (x ∷ xs) d = ((λ e. d.0 (sym (view-uuid h x) ∙ e)), All-view h k xs d.1)

pub without-rotation :
    (q : RoundRobinQueue) (k : Str)
    → All (Differs (uuid q.heap) k) q.items
    → without_queue k (rotation q) ≡ rotation q
unfolding rotation
without-rotation q k d =
    without-differs (λ v. v.0) k (map (view q.heap) (rotate q.rr_count q.items))
      (All-view q.heap k (rotate q.rr_count q.items)
        (All-rotate (Differs (uuid q.heap) k) q.rr_count q.items d))

-- A state whose slice has the queue `a` between two parts.
module _ (h : Heap) (front : List QueueItem) (a : ℕ) (back : List QueueItem) (by_id : Dict ℕ)
    (rr : ℕ) where
  abbrev pub before_delete : RoundRobinQueue
  before_delete = record {
    heap = h;
    items = front ++ aggregate a ∷ back;
    items_by_id = by_id;
    rr_count = rr;
  }

  abbrev pub after_delete : RoundRobinQueue
  after_delete = record {
    heap = h;
    items = front ++ back;
    items_by_id = delete (uuid h (aggregate a)) by_id;
    rr_count = adjust (length front) rr (length (front ++ back));
  }

  module _ (w : IsWellFormed before_delete) where
    f : All (Differs (uuid h) (uuid h (aggregate a))) front
    f = (Distinct-split (uuid h) front (aggregate a) back w.links.distinct).0

    b : All (Differs (uuid h) (uuid h (aggregate a))) back
    b = (Distinct-split (uuid h) front (aggregate a) back w.links.distinct).1

    found : lookup (uuid h (aggregate a)) by_id ≡ some a
    found = w.links.indexed (uuid h (aggregate a)) ∙ find_queue-found (uuid h) front a back f

    pub delete_item-found :
        (queue : QueueItem)
        → uuid h queue ≡ uuid h (aggregate a)
        → delete_item before_delete queue ≡ (after_delete, ok tt)
    unfolding delete_item deleted uuid
    delete_item-found queue same =
        rw (same, found, delete_item)
          (rw (index_of-front (uuid h) (h a).id front (aggregate a) back f refl) (
            rw same
              (rw (delete_item-front (uuid h) (h a).id front (aggregate a) back f refl, deleted))))

    pub after_delete-IsWellFormed : IsWellFormed after_delete
    after_delete-IsWellFormed = record {
      links = IsIndexed-remove (uuid h) front a back by_id w.links;
      in_range = adjust-in_range (length front) rr (length (front ++ back));
    }

    pub rotation-after_delete :
        rotation after_delete ≡ without_queue (uuid h (aggregate a)) (rotation before_delete)
    unfolding rotation
    rotation-after_delete =
        ap (map (view h)) (
          rotate-adjust (uuid h) (aggregate a) front back rr
            (in_range-le rr (length (front ++ aggregate a ∷ back)) w.in_range) f b)
        ∙ map-without (uuid h) (λ v. v.0) (view h) (view-uuid h) (uuid h (aggregate a))
            (rotate rr (front ++ aggregate a ∷ back))

-- What DeleteItem promises of the id `k`.
abbrev pub Deletes : RoundRobinQueue → Str → RoundRobinQueue × Result (Unit {0}) → Type 0
Deletes q k (q', r) =
    IsWellFormed q'
    × (rotation q' ≡ without_queue k (rotation q))
    × (((r ≡ ok tt) × (suc (length q'.items) ≡ length q.items))
        ⊎ ((r ≡ err (no_such_queue k)) × (q' ≡ q)))

delete_item-missing :
    (q : RoundRobinQueue) (queue : QueueItem)
    → IsWellFormed q
    → All (Differs (uuid q.heap) (uuid q.heap queue)) q.items
    → Deletes q (uuid q.heap queue) (delete_item q queue)
unfolding delete_item
delete_item-missing q queue w none_has = rw (missing, delete_item) (w, sym same, inr (refl, refl))
  where
    missing : lookup (uuid q.heap queue) q.items_by_id ≡ none
    missing =
        w.links.indexed (uuid q.heap queue)
        ∙ find_queue-none (uuid q.heap) (uuid q.heap queue) q.items none_has

    same : without_queue (uuid q.heap queue) (rotation q) ≡ rotation q
    same = without-rotation q (uuid q.heap queue) none_has

at_entry :
    (q : RoundRobinQueue) (queue : QueueItem) (front : List QueueItem) (x : QueueItem)
    (back : List QueueItem)
    → IsWellFormed (record q { items = front ++ x ∷ back })
    → uuid q.heap x ≡ uuid q.heap queue
    → Deletes
        (record q { items = front ++ x ∷ back })
        (uuid q.heap queue)
        (delete_item (record q { items = front ++ x ∷ back }) queue)
at_entry q queue front (single s p) back w same =
    absurd (All-append_inv IsAggregate front (single s p ∷ back) w.links.aggregates).1.0
at_entry q queue front (aggregate a) back w same =
    rw (delete_item-found q.heap front a back q.items_by_id q.rr_count w queue (sym same)) (
      after_delete-IsWellFormed q.heap front a back q.items_by_id q.rr_count w,
      rw (← same) (rotation-after_delete q.heap front a back q.items_by_id q.rr_count w),
      inl (
        refl,
        omega (arith, length-append {0} front back, length-append {0} front (aggregate a ∷ back)),
      ),
    )

-- DeleteItem keeps the invariant, takes exactly the queue with the given id out of the turn order,
-- and fails, with nothing changed, if no queue has that id.
pub delete_item-Deletes :
    (q : RoundRobinQueue) (queue : QueueItem)
    → IsWellFormed q
    → Deletes q (uuid q.heap queue) (delete_item q queue)
delete_item-Deletes q queue w = elim (search_cases (uuid q.heap) (uuid q.heap queue) q.items) [
  | inl none_has ↦ delete_item-missing q queue w none_has
  | inr (front, x, back, e, same, _) ↦
      subst
        (λ (xs : List QueueItem).
          IsWellFormed (record q { items = xs })
          → Deletes (record q { items = xs }) (uuid q.heap queue)
              (delete_item (record q { items = xs }) queue))
        (sym e) (λ w'. at_entry q queue front x back w' same) w
]
