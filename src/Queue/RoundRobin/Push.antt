-- ===== src/Queue/RoundRobin/Push.antt =====
-- pkg/playback/queue/queue.go: Push of RoundRobinQueueSchema puts a new queue behind all others in
-- the order of turns, and adds the items of a known one to it.
use streaming_server.Base.{
  ℕ, suc, ◌+◌, ◌<◌, ◌≡◌, refl, sym, ap, ◌∙◌, subst, inl, inr, List, [], ◌∷◌, ◌++◌, map, map-append,
  append-nil, none, some, arith, true, ok, ltb, length, length-append, split_at, All, All-append,
  All-append_inv,
}
use streaming_server.Base.Text.{Str}
use streaming_server.Base.Dict.{Dict, lookup, insert}
use streaming_server.Queue.Item.{QueueItem, single, aggregate, Heap, uuid, uuid-set_items}
use streaming_server.Queue.Schema
use streaming_server.Queue.Schema.{max_aggregatable_queue_items, push_bounded}
use streaming_server.Queue.Schema.Search.{Differs, search_cases}
use streaming_server.Queue.RoundRobin.{RoundRobinQueue, M, push_each, insert_behind, link, push}
use streaming_server.Queue.RoundRobin.Indexed.{
  IsAggregate, IsIndexed, find_queue, find_queue-found, find_queue-none, IsIndexed-insert,
  IsIndexed-swap,
}
use streaming_server.Queue.RoundRobin.Rotation.{
  rotate, rotate-length, rotate-past, view, view-aggregate, rotation, IsWellFormed,
}
use streaming_server.Queue.RoundRobin.Delete.{All-view, in_range-le}
use streaming_server.Queue.RoundRobin.Merge.{
  with_room, push_each-set_items, merge, merge-new, map-merge,
}

-- What Push promises of a queue with the id `k` and the items `xs`.
abbrev pub Pushes : RoundRobinQueue → Str → List QueueItem → M (Unit {0}) → Type 0
Pushes q k xs (q', r) = IsWellFormed q' × (r ≡ ok tt) × (rotation q' ≡ merge k xs (rotation q))

module _ (h : Heap) (front back : List QueueItem) (by_id : Dict ℕ) (a : ℕ) where
  abbrev k : Str
  k = uuid h (aggregate a)

  abbrev known : RoundRobinQueue
  known = record { heap = h; items = front ++ back; items_by_id = by_id; rr_count = length front }

  rotation-at : rotation known ≡ map (view h) (back ++ front)
  unfolding rotation
  rotation-at = ap (map (view h)) (rotate-length front back)

  module _ (w : IsWellFormed known) where
    turns : IsIndexed (uuid h) (back ++ front) by_id
    turns = IsIndexed-swap (uuid h) front back by_id w.links

    push-known :
        ((vs : List QueueItem) × (x : QueueItem) × (ws : List QueueItem) × (back ++ front
            ≡ vs ++ x ∷ ws)
          × (uuid h x ≡ k)
          × All (Differs (uuid h) k) vs)
        → Pushes known k (h a).items (push known (aggregate a))
    unfolding push uuid rotation
    push-known (vs, single s p, ws, e, id, d) =
        absurd (All-append_inv IsAggregate vs (single s p ∷ ws) (rw e at turns.aggregates)).1.0
    push-known (vs, aggregate c, ws, e, id, d) =
        rw (look, push)
          (record { links = rw (same_ids) w.links; in_range = w.in_range }, refl, order)
      where
        look : lookup k by_id ≡ some c
        look =
            turns.indexed k
            ∙ ap (find_queue (uuid h) k) e
            ∙ rw (← id) (find_queue-found (uuid h) vs c ws (rw (← id) at d))

        same_ids : uuid (push_each h c (h a).items) ≡ uuid h
        same_ids =
            ap uuid (push_each-set_items h c (h a).items)
            ∙ uuid-set_items h c (with_room (h c).items (h a).items)

        order :
            map (view (push_each h c (h a).items)) (rotate (length front) (front ++ back))
            ≡ merge k (h a).items (map (view h) (rotate (length front) (front ++ back)))
        order =
            rw (rotate-length front back, e)
              (map-merge h vs c ws (h a).items (rw e at turns.distinct)
                ∙ ap (λ j. merge j (h a).items (map (view h) (vs ++ aggregate c ∷ ws))) id)

insert_behind-past :
    (idx rr : ℕ) (x : QueueItem) (xs : List QueueItem) → rr < idx → insert_behind idx rr x xs ≡ xs
unfolding insert_behind
insert_behind-past idx rr x [] lt = refl
insert_behind-past idx rr x (y ∷ ys) lt = ground (arith, insert_behind-past (suc idx) rr x ys)

insert_behind-front :
    (idx rr : ℕ) (x : QueueItem) (front : List QueueItem) (y : QueueItem) (back : List QueueItem)
    → rr ≡ idx + length front
    → insert_behind idx rr x (front ++ y ∷ back) ≡ front ++ x ∷ y ∷ back
unfolding insert_behind
insert_behind-front idx rr x [] y back e = ground (arith, insert_behind-past (suc idx) rr x back)
insert_behind-front idx rr x (z ∷ front) y back e =
    ground (arith, insert_behind-front (suc idx) rr x front y back)

ltb-zero_suc : (n : ℕ) → ltb 0 (suc n) ≡ true
ltb-zero_suc n = ground arith

module _ (h : Heap) (by_id : Dict ℕ) (a : ℕ) where
  abbrev linked : List QueueItem → List QueueItem → ℕ → RoundRobinQueue
  linked front back rr = record {
    heap = h;
    items = front ++ aggregate a ∷ back;
    items_by_id = insert (uuid h (aggregate a)) a by_id;
    rr_count = rr;
  }

  link-first : (back : List QueueItem) → link (known h [] back by_id a) a ≡ linked back [] 0
  unfolding link uuid Schema.push
  link-first back = refl

  link-later :
      (y : QueueItem) (front : List QueueItem) (z : QueueItem) (back : List QueueItem)
      → link (known h (y ∷ front) (z ∷ back) by_id a) a
        ≡ linked (y ∷ front) (z ∷ back) (suc (suc (length front)))
  unfolding link uuid
  link-later y front z back =
      rw (ltb-zero_suc (length front), link)
        (rw (
          insert_behind-front 0 (suc (length front)) (aggregate a) (y ∷ front) z back
            (omega arith)))

  abbrev IsNew : List QueueItem → Type 0
  IsNew = All (Differs (uuid h) (uuid h (aggregate a)))

  linked-links :
      (front back : List QueueItem)
      → IsIndexed (uuid h) (front ++ back) by_id
      → IsNew (back ++ front)
      → IsIndexed (uuid h) (front ++ aggregate a ∷ back) (insert (uuid h (aggregate a)) a by_id)
  linked-links front back w d =
      let (b, f) = All-append_inv (Differs (uuid h) (uuid h (aggregate a))) back front d in
      IsIndexed-insert (uuid h) front a back by_id
        (All-append (Differs (uuid h) (uuid h (aggregate a))) front back f b) w

  goes_last :
      (turns : List QueueItem)
      → IsNew turns
      → map (view h) (turns ++ aggregate a ∷ [])
        ≡ merge (uuid h (aggregate a)) (h a).items (map (view h) turns)
  goes_last turns d =
      map-append (view h) turns (aggregate a ∷ [])
      ∙ rw (view-aggregate h a) (
          sym (
            merge-new (uuid h (aggregate a)) (h a).items (map (view h) turns)
              (All-view h (uuid h (aggregate a)) turns d)))

  rotation-linked :
      (front back : List QueueItem)
      → IsNew (back ++ front)
      → rotation (linked front back (suc (length front)))
        ≡ merge (uuid h (aggregate a)) (h a).items (rotation (known h front back by_id a))
  unfolding rotation
  rotation-linked front back d =
      ap (map (view h)) (rotate-past front (aggregate a) back)
      ∙ goes_last (back ++ front) d
      ∙ ap (λ (xs : List QueueItem). merge (uuid h (aggregate a)) (h a).items (map (view h) xs))
          (sym (rotate-length front back))

  rotation-linked_first :
      (back : List QueueItem)
      → IsNew back
      → rotation (linked back [] 0)
        ≡ merge (uuid h (aggregate a)) (h a).items (rotation (known h [] back by_id a))
  unfolding rotation
  rotation-linked_first back d =
      rw (append-nil back, append-nil (back ++ aggregate a ∷ [])) (goes_last back d)

  push-link :
      (front back : List QueueItem)
      → lookup (uuid h (aggregate a)) by_id ≡ none
      → push (known h front back by_id a) (aggregate a)
        ≡ (link (known h front back by_id a) a, ok tt)
  unfolding push uuid
  push-link front back look = rw (look, push)

  push_unknown :
      (front back : List QueueItem)
      → IsWellFormed (known h front back by_id a)
      → lookup (uuid h (aggregate a)) by_id ≡ none
      → IsNew (back ++ front)
      → Pushes
          (known h front back by_id a)
          (uuid h (aggregate a))
          (h a).items
          (push (known h front back by_id a) (aggregate a))
  push_unknown [] back w look d =
      let d' : IsNew back = rw (append-nil back) at d in
      rw (push-link [] back look, link-first back)
        (
          record {
            links = linked-links back [] (rw (append-nil back) w.links) d';
            in_range = inr refl;
          },
          refl,
          rotation-linked_first back d',
        )
  push_unknown (y ∷ front) [] w look d = absurd (ground (arith, append-nil front, w.in_range))
  push_unknown (y ∷ front) (z ∷ back) w look d =
      rw (push-link (y ∷ front) (z ∷ back) look, link-later y front z back)
        (
          record {
            links = linked-links (y ∷ front) (z ∷ back) w.links d;
            in_range = inl (omega (arith, length-append {0} front (aggregate a ∷ z ∷ back)));
          },
          refl,
          rotation-linked (y ∷ front) (z ∷ back) d,
        )

  push-split :
      (front back : List QueueItem)
      → IsWellFormed (known h front back by_id a)
      → Pushes
          (known h front back by_id a)
          (uuid h (aggregate a))
          (h a).items
          (push (known h front back by_id a) (aggregate a))
  push-split front back w = elim (search_cases (uuid h) (uuid h (aggregate a)) (back ++ front)) [
    | inl d ↦
        push_unknown front back w
          ((turns h front back by_id a w).indexed (uuid h (aggregate a))
            ∙ find_queue-none (uuid h) (uuid h (aggregate a)) (back ++ front) d)
          d
    | inr found ↦ push-known h front back by_id a w found
  ]

push-at :
    (q : RoundRobinQueue) (a : ℕ)
    → IsWellFormed q
    → ((front : List QueueItem) × (back : List QueueItem) × (q.items ≡ front ++ back)
        × (length front ≡ q.rr_count))
    → Pushes q (uuid q.heap (aggregate a)) (q.heap a).items (push q (aggregate a))
push-at q a w (front, back, e, l) =
    subst
      (λ (r : (List QueueItem) × ℕ).
        IsWellFormed (record q { items = r.0; rr_count = r.1 })
        → Pushes (record q { items = r.0; rr_count = r.1 }) (uuid q.heap (aggregate a))
            (q.heap a).items (push (record q { items = r.0; rr_count = r.1 }) (aggregate a)))
      (λ i. (sym e i, l i)) (push-split q.heap q.items_by_id a front back) w

-- Push keeps the invariant and succeeds for every queue: one whose id is new becomes the last in
-- the order of turns, and the items of one whose id is known go to the end of the queue with that
-- id, up to the bound on a user's queue.
pub push-Pushes :
    (q : RoundRobinQueue) (a : ℕ)
    → IsWellFormed q
    → Pushes q (uuid q.heap (aggregate a)) (q.heap a).items (push q (aggregate a))
push-Pushes q a w =
    push-at q a w (split_at q.rr_count q.items (in_range-le q.rr_count (length q.items) w.in_range))
