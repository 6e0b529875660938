-- ===== src/Queue/RoundRobin/Next.antt =====
-- pkg/playback/queue/queue.go: Next of RoundRobinQueueSchema serves the users' queues in turn.
use streaming_server.Base.{
  ℕ, zero, suc, ◌≤◌, ◌<◌, ◌≡◌, refl, ap, ◌∙◌, subst, List, [], ◌∷◌, ◌++◌, append_assoc, arith, ok,
  length, length-append, split_at, All-append_inv,
}
use streaming_server.Base.Text.{Str}
use streaming_server.Base.Dict.{Dict}
use streaming_server.Queue.Item.{QueueItem, single, aggregate, Heap}
use streaming_server.Queue.RoundRobin.{RoundRobinQueue, next_loop, next}
use streaming_server.Queue.RoundRobin.Indexed.{IsAggregate}
use streaming_server.Queue.RoundRobin.Rotation.{view-aggregate, View, rotation, IsWellFormed}
use streaming_server.Queue.RoundRobin.Turn.{serve, ServesTo, Serves, rotation-turn, Serves-turn}

module _ (h : Heap) (by_id : Dict ℕ) where
  abbrev state : List QueueItem → ℕ → RoundRobinQueue
  state xs rr = record { heap = h; items = xs; items_by_id = by_id; rr_count = rr }

  at_entry :
      (fuel : ℕ)
      → ((q : RoundRobinQueue)
          → IsWellFormed q
          → length q.items < fuel
          → Serves q (next_loop fuel q))
      → (front : List QueueItem) (x : QueueItem) (back : List QueueItem)
      → IsWellFormed (state (front ++ x ∷ back) (length front))
      → length (front ++ x ∷ back) < suc fuel
      → Serves
          (state (front ++ x ∷ back) (length front))
          (next_loop (suc fuel) (state (front ++ x ∷ back) (length front)))
  at_entry fuel ih front (single s p) back w small =
      absurd (All-append_inv IsAggregate front (single s p ∷ back) w.links.aggregates).1.0
  at_entry fuel ih front (aggregate a) back w small =
      rw (rotation-turn h front a back by_id w) (
        rw (view-aggregate h a) (Serves-turn h front a back by_id w fuel ih small (h a).items refl))

  at_index :
      (fuel : ℕ)
      → ((q : RoundRobinQueue)
          → IsWellFormed q
          → length q.items < fuel
          → Serves q (next_loop fuel q))
      → (xs : List QueueItem) (rr : ℕ) → IsWellFormed (state xs rr)
      → length xs < suc fuel
      → rr < length xs
      → ((front : List QueueItem) × (back : List QueueItem) × (xs ≡ front ++ back)
          × (length front ≡ rr))
      → Serves (state xs rr) (next_loop (suc fuel) (state xs rr))
  at_index fuel ih xs rr w small lt (front, [], e, l) =
      absurd (omega (arith, ap length e, length-append {0} front []))
  at_index fuel ih xs rr w small lt (front, x ∷ back, e, l) =
      rw (e, ← l) (at_entry fuel ih front x back (rw (e, ← l) at w) (rw e at small))

  at_state :
      (fuel : ℕ)
      → ((q : RoundRobinQueue)
          → IsWellFormed q
          → length q.items < fuel
          → Serves q (next_loop fuel q))
      → (xs : List QueueItem) (rr : ℕ) → IsWellFormed (state xs rr)
      → length xs < suc fuel
      → Serves (state xs rr) (next_loop (suc fuel) (state xs rr))
  unfolding next_loop rotation serve
  at_state fuel ih [] zero w small = (w, refl, refl)
  at_state fuel ih [] (suc rr) w small = (w, refl, refl)
  at_state fuel ih (x ∷ xs) rr w small =
      let lt : rr < length (x ∷ xs) = ground (arith, w.in_range) in
      at_index fuel ih (x ∷ xs) rr w small lt (split_at rr (x ∷ xs) (omega arith))

next_loop-Serves :
    (fuel : ℕ) (q : RoundRobinQueue)
    → IsWellFormed q
    → length q.items < fuel
    → Serves q (next_loop fuel q)
next_loop-Serves zero q w small = absurd (omega arith)
next_loop-Serves (suc fuel) q w small =
    at_state q.heap q.items_by_id fuel (next_loop-Serves fuel) q.items q.rr_count w small

-- Next implements `serve` on the order of turns, within its fuel and with no panic: it keeps the
-- invariant, returns the item that `serve` gives and leaves its order, and where all queues are
-- empty it fails with no queue left.
pub next-Serves : (q : RoundRobinQueue) → IsWellFormed q → Serves q (next q)
unfolding next
next-Serves q w = next_loop-Serves (suc (length q.items)) q w (omega arith)

-- `n` calls of Next.
abbrev pub after_next : ℕ → RoundRobinQueue → RoundRobinQueue
after_next zero q = q
after_next (suc n) q = after_next n (next q).0

serves_within :
    (ahead behind : List View) (k : Str) (x : QueueItem) (xs : List QueueItem) (q : RoundRobinQueue)
    → IsWellFormed q
    → serve (rotation q) ≡ serve (ahead ++ (k, x ∷ xs) ∷ behind)
    → (n : ℕ) × (n ≤ length ahead) × ((next (after_next n q)).1 ≡ ok x)
unfolding serve
serves_within [] behind k x [] q w e =
    (0, omega arith, (subst (λ o. ServesTo o (next q)) e (next-Serves q w)).1)
serves_within [] behind k x (y ∷ ys) q w e =
    (0, omega arith, (subst (λ o. ServesTo o (next q)) e (next-Serves q w)).1)
serves_within ((j, []) ∷ ahead) behind k x xs q w e =
    let (n, le, r) = serves_within ahead behind k x xs q w e in (n, omega arith, r)
serves_within ((j, y ∷ []) ∷ ahead) behind k x xs q w e =
    let (w', _, turn) = subst (λ o. ServesTo o (next q)) e (next-Serves q w) in
    let (n, le, r) = serves_within ahead behind k x xs (next q).0 w' (ap serve turn) in
    (suc n, omega arith, r)
serves_within ((j, y ∷ z ∷ zs) ∷ ahead) behind k x xs q w e =
    let (w', _, turn) = subst (λ o. ServesTo o (next q)) e (next-Serves q w) in
    let moved = append_assoc ahead ((k, x ∷ xs) ∷ behind) ((j, z ∷ zs) ∷ []) in
    let (n, le, r) =
      serves_within ahead (behind ++ (j, z ∷ zs) ∷ []) k x xs (next q).0 w'
        (ap serve (turn ∙ moved)) in
    (suc n, omega arith, r)

-- No user waits for more than one turn of each queue ahead: the first item of a queue is returned
-- by a call of Next that comes after at most as many calls as there are queues ahead in the order.
pub next_no_starvation :
    (q : RoundRobinQueue) (ahead behind : List View) (k : Str) (x : QueueItem) (xs : List QueueItem)
    → IsWellFormed q
    → rotation q ≡ ahead ++ (k, x ∷ xs) ∷ behind
    → (n : ℕ) × (n ≤ length ahead) × ((next (after_next n q)).1 ≡ ok x)
next_no_starvation q ahead behind k x xs w e = serves_within ahead behind k x xs q w (ap serve e)
