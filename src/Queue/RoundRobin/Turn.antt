-- ===== src/Queue/RoundRobin/Turn.antt =====
-- pkg/playback/queue/queue.go: the specification of Next, and Next at the queue at the current index.
use streaming_server.Base.{
  ℕ, suc, ◌<◌, ◌≡◌, refl, ap, ◌∙◌, subst, List, [], ◌∷◌, ◌++◌, map, map-append, Option, none, some,
  arith, ok, err, length, length-append, get_elem?-length, All, All-append,
}
use streaming_server.Base.Dict.{Dict, delete}
use streaming_server.Queue.Item.{
  QueueItem, single, aggregate, AggregatableQueue, Heap, uuid, set_items, set_items_ne,
  uuid-set_items, items-set_items, id-set_items, no_items,
}
use streaming_server.Queue.Schema.Search.{Differs, Distinct-split, delete_item-front}
use streaming_server.Queue.RoundRobin.{RoundRobinQueue, M, deleted, served, next_loop}
use streaming_server.Queue.RoundRobin.Indexed.{IsIndexed-remove}
use streaming_server.Queue.RoundRobin.Rotation.{
  rotate-length, wrap, rotate-wrap, rotate-next, wrap-in_range, View, view, view-uuid, rotation,
  IsWellFormed, without-hit, without-differs,
}
use streaming_server.Queue.RoundRobin.Delete.{
  before_delete, after_delete, delete_item-found, after_delete-IsWellFormed, rotation-after_delete,
  All-view, without_queue,
}

-- The specification: queues that are empty leave the order; the first that is not gives its first
-- item, and goes to the end of the order unless it is empty then.
unfoldable pub serve : List View → Option (QueueItem × List View)
serve [] = none
serve ((k, []) ∷ vs) = serve vs
serve ((k, x ∷ []) ∷ vs) = some (x, vs)
serve ((k, x ∷ y ∷ ys) ∷ vs) = some (x, vs ++ (k, y ∷ ys) ∷ [])

abbrev pub ServesTo : Option (QueueItem × List View) → M QueueItem → Type 0
ServesTo none (q, r) = IsWellFormed q × (r ≡ err no_items) × (rotation q ≡ [])
ServesTo (some (x, vs)) (q, r) = IsWellFormed q × (r ≡ ok x) × (rotation q ≡ vs)

abbrev pub Serves : RoundRobinQueue → M QueueItem → Type 0
Serves q = ServesTo (serve (rotation q))

view-set_items :
    (h : Heap) (a : ℕ) (ys : List QueueItem) (x : QueueItem)
    → Differs (uuid h) (uuid h (aggregate a)) x
    → view (set_items h a ys) x ≡ view h x
unfolding view uuid
view-set_items h a ys (single s p) d = refl
view-set_items h a ys (aggregate b) d =
    let same = set_items_ne h a ys b (λ e. d (ap (λ c. (h c).id) e)) in
    ap (λ (c : AggregatableQueue). (c.id, c.items)) same

pub view-set_items_others :
    (h : Heap) (a : ℕ) (ys xs : List QueueItem)
    → All (Differs (uuid h) (uuid h (aggregate a))) xs
    → map (view (set_items h a ys)) xs ≡ map (view h) xs
view-set_items_others h a ys [] d = refl
view-set_items_others h a ys (x ∷ xs) d =
    cc (view-set_items h a ys x d.0, view-set_items_others h a ys xs d.1)

pub view-set_items_self :
    (h : Heap) (a : ℕ) (ys : List QueueItem)
    → view (set_items h a ys) (aggregate a) ≡ (uuid h (aggregate a), ys)
unfolding view uuid
view-set_items_self h a ys = cc (id-set_items h a ys a, items-set_items h a ys)

-- The queue at the current index.
module _ (h : Heap) (front : List QueueItem) (a : ℕ) (back : List QueueItem) (by_id : Dict ℕ) where
  abbrev turn : RoundRobinQueue
  turn = before_delete h front a back by_id (length front)

  module _ (w : IsWellFormed turn) where
    others : All (Differs (uuid h) (uuid h (aggregate a))) (back ++ front)
    others =
        let (f, b, _) = Distinct-split (uuid h) front (aggregate a) back w.links.distinct in
        All-append (Differs (uuid h) (uuid h (aggregate a))) back front b f

    pub rotation-turn : rotation turn ≡ view h (aggregate a) ∷ map (view h) (back ++ front)
    unfolding rotation
    rotation-turn = ap (map (view h)) (rotate-length front (aggregate a ∷ back))

    abbrev emptied : RoundRobinQueue
    emptied = record {
      heap = set_items h a [];
      items = front ++ back;
      items_by_id = delete (uuid h (aggregate a)) by_id;
      rr_count = wrap (length front) (front ++ back);
    }

    served-emptied : served turn a [] ≡ emptied
    unfolding served deleted uuid
    served-emptied =
        rw (uuid-set_items h a [], deleted)
          (rw (
            delete_item-front (uuid h) (h a).id front (aggregate a) back
              (Distinct-split (uuid h) front (aggregate a) back w.links.distinct).0 refl))

    emptied-IsWellFormed : IsWellFormed emptied
    emptied-IsWellFormed = record {
      links = rw (uuid-set_items h a []) (IsIndexed-remove (uuid h) front a back by_id w.links);
      in_range = wrap-in_range (length front) (front ++ back);
    }

    rotation-emptied : rotation emptied ≡ map (view h) (back ++ front)
    unfolding rotation
    rotation-emptied =
        rw (rotate-wrap front back) (view-set_items_others h a [] (back ++ front) others)

    abbrev moved : List QueueItem → RoundRobinQueue
    moved ys = record turn {
      heap = set_items h a ys;
      rr_count = wrap (suc (length front)) (front ++ aggregate a ∷ back);
    }

    moved-IsWellFormed : (ys : List QueueItem) → IsWellFormed (moved ys)
    moved-IsWellFormed ys = record {
      links = rw (uuid-set_items h a ys) w.links;
      in_range = wrap-in_range (suc (length front)) (front ++ aggregate a ∷ back);
    }

    served-moved : (y : QueueItem) (ys : List QueueItem) → served turn a (y ∷ ys) ≡ moved (y ∷ ys)
    unfolding served
    served-moved y ys = refl

    rotation-moved :
        (ys : List QueueItem)
        → rotation (moved ys) ≡ map (view h) (back ++ front) ++ (uuid h (aggregate a), ys) ∷ []
    unfolding rotation
    rotation-moved ys =
        ap (map (view (set_items h a ys))) (rotate-next front (aggregate a) back)
        ∙ map-append (view (set_items h a ys)) (back ++ front) (aggregate a ∷ [])
        ∙ rw (view-set_items_others h a ys (back ++ front) others, view-set_items_self h a ys)

    abbrev next_turn : RoundRobinQueue
    next_turn = after_delete h front a back by_id (length front)

    rotation-next_turn : rotation next_turn ≡ map (view h) (back ++ front)
    unfolding rotation
    rotation-next_turn =
        rotation-after_delete h front a back by_id (length front) w
        ∙ ap (without_queue (uuid h (aggregate a))) rotation-turn
        ∙ without-hit (λ v. v.0) (uuid h (aggregate a)) (view h (aggregate a))
            (map (view h) (back ++ front)) (view-uuid h (aggregate a))
        ∙ without-differs (λ v. v.0) (uuid h (aggregate a)) (map (view h) (back ++ front))
            (All-view h (uuid h (aggregate a)) (back ++ front) others)

    length-turn : length (front ++ aggregate a ∷ back) ≡ suc (length (front ++ back))
    length-turn =
        omega (arith, length-append {0} front back, length-append {0} front (aggregate a ∷ back))

    next_loop-empty :
        (fuel : ℕ) → (h a).items ≡ [] → next_loop (suc fuel) turn ≡ next_loop fuel next_turn
    unfolding next_loop
    next_loop-empty fuel e =
        rw (length-turn, next_loop)
          (rw (get_elem?-length front (aggregate a) back) (
            rw e (
              rw (delete_item-found h front a back by_id (length front) w (aggregate a) refl)
                (rw (delete_item-found h front a back by_id (length front) w (aggregate a) refl)))))

    next_loop-serves :
        (fuel : ℕ) (x : QueueItem) (xs : List QueueItem)
        → (h a).items ≡ x ∷ xs
        → next_loop (suc fuel) turn ≡ (served turn a xs, ok x)
    unfolding next_loop
    next_loop-serves fuel x xs e =
        rw (length-turn, next_loop) (rw (get_elem?-length front (aggregate a) back) (rw e))

    pub Serves-turn :
        (fuel : ℕ)
        → ((q : RoundRobinQueue)
            → IsWellFormed q
            → length q.items < fuel
            → Serves q (next_loop fuel q))
        → length turn.items < suc fuel
        → (ys : List QueueItem) → (h a).items ≡ ys
        → ServesTo
            (serve ((uuid h (aggregate a), ys) ∷ map (view h) (back ++ front)))
            (next_loop (suc fuel) turn)
    unfolding serve
    Serves-turn fuel ih small [] e = rw (next_loop-empty fuel e) (
        subst (λ vs. ServesTo (serve vs) (next_loop fuel next_turn)) rotation-next_turn
          (ih next_turn (after_delete-IsWellFormed h front a back by_id (length front) w)
            (omega (arith, length-turn))))
    Serves-turn fuel ih small (x ∷ []) e =
        rw (next_loop-serves fuel x [] e, served-emptied)
          (emptied-IsWellFormed, refl, rotation-emptied)
    Serves-turn fuel ih small (x ∷ y ∷ ys) e =
        rw (next_loop-serves fuel x (y ∷ ys) e, served-moved y ys)
          (moved-IsWellFormed (y ∷ ys), refl, rotation-moved (y ∷ ys))
