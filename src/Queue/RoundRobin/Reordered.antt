-- ===== src/Queue/RoundRobin/Reordered.antt =====
-- pkg/playback/queue/queue.go: Reorder on a round-robin queue keeps the queues and the index.
use mathlib.Core.List.{Perm, Permᴰ}
use mathlib.Core.List.Permᴰ
use streaming_server.Base.{
  ℕ, ◌≡◌, ◌≢◌, refl, sym, ap, ◌∙◌, subst, List, ◌∷◌, arith, ok, err, panic, diverges, All,
}
use streaming_server.Base.Text.{Str, str_eq_iff}
use streaming_server.Base.Dict.{Dict}
use streaming_server.Base.Int.{ℤ}
use streaming_server.Queue.Item.{QueueItem, single, aggregate, uuid, Result}
use streaming_server.Queue.Schema.Search.{Differs, Distinct}
use streaming_server.Queue.Reorder.{reorder}
use streaming_server.Queue.Reorder.Permutes.{Permutes, reorder-permᴰ, length-permᴰ}
use streaming_server.Queue.RoundRobin.{RoundRobinQueue, M, set_ok, reorder_round_robin}
use streaming_server.Queue.RoundRobin.Indexed.{IsAggregate, IsIndexed, find_queue}
use streaming_server.Queue.RoundRobin.Rotation.{IsWellFormed}

All-permᴰ {ℓ κ} : {A : Type ℓ} (P : A → Type κ) {xs ys : List A} → Permᴰ xs ys → All P xs → All P ys
All-permᴰ P Permᴰ.nil h = h
All-permᴰ P (Permᴰ.cons e p) h = (subst P e h.0, All-permᴰ P p h.1)
All-permᴰ P (Permᴰ.swap e f) h = (subst P f h.1.0, (subst P e h.0, h.1.1))
All-permᴰ P (Permᴰ.trans p q) h = All-permᴰ P q (All-permᴰ P p h)

module _ (uuid : QueueItem → Str) where
  Distinct-permᴰ : {xs ys : List QueueItem} → Permᴰ xs ys → Distinct uuid xs → Distinct uuid ys
  Distinct-permᴰ Permᴰ.nil d = d
  Distinct-permᴰ (Permᴰ.cons {a} {b} {l₁} {l₂} e p) d = (
    subst (λ c. All (Differs uuid (uuid c)) l₂) e (All-permᴰ (Differs uuid (uuid a)) p d.0),
    Distinct-permᴰ p d.1,
  )
  Distinct-permᴰ (Permᴰ.swap {a} {b} {a'} {b'} {l} e f) d = (
    (
      λ g. d.0.0 (ap uuid f ∙ sym g ∙ sym (ap uuid e)),
      subst (λ c. All (Differs uuid (uuid c)) l) f d.1.0,
    ),
    (subst (λ c. All (Differs uuid (uuid c)) l) e d.0.1, d.1.1),
  )
  Distinct-permᴰ (Permᴰ.trans p q) d = Distinct-permᴰ q (Distinct-permᴰ p d)

  find_queue-cons :
      (k : Str) (x : QueueItem) (xs ys : List QueueItem)
      → find_queue uuid k xs ≡ find_queue uuid k ys
      → find_queue uuid k (x ∷ xs) ≡ find_queue uuid k (x ∷ ys)
  unfolding find_queue
  find_queue-cons k (single _ _) xs ys e = e
  find_queue-cons k (aggregate a) xs ys e = rw e

  find_queue-swap :
      (k : Str) (x y : QueueItem) (xs : List QueueItem)
      → uuid y ≢ uuid x
      → find_queue uuid k (x ∷ y ∷ xs) ≡ find_queue uuid k (y ∷ x ∷ xs)
  unfolding find_queue
  find_queue-swap k (single _ _) (single _ _) xs ne = refl
  find_queue-swap k (single _ _) (aggregate b) xs ne = refl
  find_queue-swap k (aggregate a) (single _ _) xs ne = refl
  find_queue-swap k (aggregate a) (aggregate b) xs ne =
      ground (arith, str_eq_iff (uuid (aggregate a)) k, str_eq_iff (uuid (aggregate b)) k, ne)

  find_queue-permᴰ :
      (k : Str) {xs ys : List QueueItem}
      → Permᴰ xs ys
      → Distinct uuid xs
      → find_queue uuid k xs ≡ find_queue uuid k ys
  find_queue-permᴰ k Permᴰ.nil d = refl
  find_queue-permᴰ k (Permᴰ.cons {a} {b} {l₁} {l₂} e p) d =
      find_queue-cons k a l₁ l₂ (find_queue-permᴰ k p d.1) ∙ ap (λ c. find_queue uuid k (c ∷ l₂)) e
  find_queue-permᴰ k (Permᴰ.swap {a} {b} {a'} {b'} {l} e f) d =
      find_queue-swap k a b l d.0.0
      ∙ ap (λ c. find_queue uuid k (c ∷ a ∷ l)) f
      ∙ ap (λ c. find_queue uuid k (a' ∷ c ∷ l)) e
  find_queue-permᴰ k (Permᴰ.trans p q) d =
      find_queue-permᴰ k p d ∙ find_queue-permᴰ k q (Distinct-permᴰ p d)

  IsIndexed-permᴰ :
      {xs ys : List QueueItem} {by_id : Dict ℕ}
      → Permᴰ xs ys
      → IsIndexed uuid xs by_id
      → IsIndexed uuid ys by_id
  IsIndexed-permᴰ p w = record {
    aggregates = All-permᴰ IsAggregate p w.aggregates;
    distinct = Distinct-permᴰ p w.distinct;
    indexed = λ k. w.indexed k ∙ find_queue-permᴰ k p w.distinct;
  }

-- What a call of Reorder promises, given what it passes to Set.
abbrev pub Reorders : RoundRobinQueue → Result (List QueueItem) → M (Unit {0}) → Type 0
Reorders q (ok xs) (q', r) =
    (q' ≡ record q { items = xs }) × (r ≡ ok tt) × Perm xs q.items × IsWellFormed q'
Reorders q (err e) (q', r) = (q' ≡ q) × (r ≡ err e)
Reorders q panic (q', r) = (q' ≡ q) × (r ≡ panic)
Reorders q diverges (q', r) = ⊥

reordered :
    (q : RoundRobinQueue) (r : Result (List QueueItem))
    → IsWellFormed q
    → Permutes q.items r
    → Reorders q r (set_ok q r)
unfolding set_ok
reordered q (ok xs) w p = (
  refl,
  refl,
  ∣ p ∣₁,
  record {
    links = IsIndexed-permᴰ (uuid q.heap) (Permᴰ.symm p) w.links;
    in_range = rw (length-permᴰ p) w.in_range;
  },
)
reordered q (err e) w p = (refl, refl)
reordered q panic w p = (refl, refl)
reordered q diverges w p = p

-- A call of Reorder replaces the slice by one with the same queues and keeps the invariant, or
-- fails and changes nothing.
pub reorder_round_robin-Reorders :
    (q : RoundRobinQueue) (order : List ℤ)
    → IsWellFormed q
    → Reorders q (reorder q.items order) (reorder_round_robin q order)
unfolding reorder_round_robin
reorder_round_robin-Reorders q order w =
    reordered q (reorder q.items order) w (reorder-permᴰ q.items order)

pub reorder_round_robin-IsWellFormed :
    (q : RoundRobinQueue) (order : List ℤ)
    → IsWellFormed q
    → IsWellFormed (reorder_round_robin q order).0
reorder_round_robin-IsWellFormed q order w =
    keeps (reorder q.items order) (reorder_round_robin q order)
      (reorder_round_robin-Reorders q order w)
  where
    keeps : (r : Result (List QueueItem)) (m : M (Unit {0})) → Reorders q r m → IsWellFormed m.0
    keeps (ok xs) m p = p.3
    keeps (err e) m p = subst IsWellFormed (sym p.0) w
    keeps panic m p = subst IsWellFormed (sym p.0) w
    keeps diverges m p = absurd p
