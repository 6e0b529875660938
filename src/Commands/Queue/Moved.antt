-- ===== src/Commands/Queue/Moved.antt =====
-- pkg/socket/cmd/queue.go: what `/queue order mine` does to the user's items.
use mathlib.Core.List.{Perm}
use streaming_server.Base.{
  ℕ, zero, suc, ◌+◌, ◌<◌, false, List, [], ◌∷◌, ◌≡◌, ◌≢◌, ◌⊎◌, inl, inr, refl, ap, ◌∙◌, arith,
  ==_refl, Option, none, some, if◌then◌else◌, ◌==◌, length, map, get_elem?, ok, err, Bool-cases,
  Option-cases, subst,
}
use streaming_server.Base.Text.{Str, str_eq, str_eq→eq, str_eq_iff}
use streaming_server.Base.Int.{pos}
use streaming_server.Queue.Item.{QueueItem}
use streaming_server.Queue.Reorder.{reorder}
use streaming_server.Queue.Reorder.Positions.{get_elem?-reorder}
use streaming_server.Queue.Reorder.Permutes.{reorder-perm}
use streaming_server.Commands.Queue.Order.{
  calculate_queue_order, same_index, calculate_queue_order_lem, not_found, queue_item_index, moved,
  order_mine,
}
use streaming_server.Commands.Queue.Fresh.{
  IsFresh, order_of, calculate_queue_order-IsFresh, reorder_fresh,
}

get_elem?-map_pos :
    (ns : List ℕ) (j n : ℕ) → get_elem? ns j ≡ some n → get_elem? (map pos ns) j ≡ some (pos n)
get_elem?-map_pos [] j n e = absurd (ground (arith, e))
get_elem?-map_pos (m ∷ ns) zero n e = ground (arith, e)
get_elem?-map_pos (m ∷ ns) (suc j) n e = get_elem?-map_pos ns j n e

-- The index of an item stands for the item with the id, behind the index at which the loop began.
abbrev pub FindsItem : (QueueItem → Str) → Str → List QueueItem → ℕ → Option ℕ → Type 0
FindsItem uuid id items idx none =
    (k : ℕ) (x : QueueItem) → get_elem? items k ≡ some x → uuid x ≢ id
FindsItem uuid id items idx (some source) =
    (k : ℕ) × (source ≡ idx + k)
    × (k < length items)
    × ((x : QueueItem) × (get_elem? items k ≡ some x) × (uuid x ≡ id))

none_here :
    {uuid : QueueItem → Str} {id : Str} (xs : List QueueItem) (x : QueueItem)
    → str_eq (uuid x) id ≡ false
    → ((k : ℕ) (y : QueueItem) → get_elem? xs k ≡ some y → uuid y ≢ id)
    → (k : ℕ) (y : QueueItem) → get_elem? (x ∷ xs) k ≡ some y
    → uuid y ≢ id
none_here {uuid} {id} xs x miss w zero y e same =
    let hit = (str_eq_iff (uuid x) id).1 (ap uuid (option_eq e) ∙ same) in
    absurd (ground (arith, hit, miss))
  where
    option_eq : some x ≡ some y → x ≡ y
    option_eq e' = cc
none_here xs x miss w (suc k) y e same = w k y e same

pub queue_item_index-FindsItem :
    (uuid : QueueItem → Str) (id : Str) (items : List QueueItem) (idx : ℕ)
    → FindsItem uuid id items idx (queue_item_index uuid id items idx)
unfolding queue_item_index
queue_item_index-FindsItem uuid id [] idx = λ k x e. absurd (ground (arith, e))
queue_item_index-FindsItem uuid id (x ∷ xs) idx = elim (Bool-cases (str_eq (uuid x) id)) [
  | inl hit ↦
      rw (hit, if◌then◌else◌) (0, omega arith, omega arith, (x, refl, str_eq→eq (uuid x) id hit))
  | inr miss ↦
      rw (miss, if◌then◌else◌)
        (later miss (queue_item_index uuid id xs (suc idx))
          (queue_item_index-FindsItem uuid id xs (suc idx)))
]
  where
    later :
        str_eq (uuid x) id ≡ false
        → (found : Option ℕ) → FindsItem uuid id xs (suc idx) found
        → FindsItem uuid id (x ∷ xs) idx found
    later miss none w = none_here xs x miss w
    later miss (some source) (k, e, lt, rest) = (suc k, omega (arith, e), omega (arith, lt), rest)

-- The list that calculateQueueOrder and Reorder give.
pub moved_to :
    (items : List QueueItem) (source dest : ℕ) (x : QueueItem)
    → source < length items
    → dest < length items
    → source ≢ dest
    → get_elem? items source ≡ some x
    → (order : List ℕ) × (xs : List QueueItem) × (calculate_queue_order source
          (pos dest)
          (length items)
        ≡ ok order)
      × (reorder items (map pos order) ≡ ok xs)
      × (get_elem? xs dest ≡ some x)
moved_to items source dest x lt fits ne found =
    elim (calculate_queue_order_lem source dest (length items) fits) [
      | inl (same, _) ↦ absurd (ne same)
      | inr (_, (order, computed, at_dest, _)) ↦
          let fresh : IsFresh (length items) [] order =
            subst (λ o. IsFresh (length items) [] (order_of o)) computed
              (calculate_queue_order-IsFresh source dest (length items) lt) in
          let (xs, done) = reorder_fresh items order fresh in
          (
            order,
            xs,
            computed,
            done,
            get_elem?-reorder items xs (map pos order) dest source x done
                (get_elem?-map_pos order dest source at_dest) fits found,
          )
    ]

pub calculate_queue_order_same :
    (source dest n : ℕ)
    → source ≡ dest
    → calculate_queue_order source (pos dest) n ≡ err (same_index dest)
unfolding calculate_queue_order
calculate_queue_order_same source dest n e = rw e (rw (==_refl dest, if◌then◌else◌) refl)

-- `/queue order mine` to a position in the list: the item with the id then stands at that position, and
-- the list has the same items; it is an error if no item has the id, or if the item is there already.
pub order_mine_lem :
    (uuid : QueueItem → Str) (items : List QueueItem) (id : Str) (dest : ℕ)
    → dest < length items
    → (((k : ℕ) (x : QueueItem) → get_elem? items k ≡ some x → uuid x ≢ id)
        × (order_mine uuid items id (pos dest) ≡ err (not_found id)))
      ⊎ (((x : QueueItem) × (get_elem? items dest ≡ some x)
            × (uuid x ≡ id)
            × (order_mine uuid items id (pos dest) ≡ err (same_index dest)))
          ⊎ ((xs : List QueueItem) × (order_mine uuid items id (pos dest) ≡ ok xs)
              × Perm xs items
              × ((x : QueueItem) × (get_elem? xs dest ≡ some x) × (uuid x ≡ id))))
unfolding order_mine moved
order_mine_lem uuid items id dest fits = elim (Option-cases (queue_item_index uuid id items 0)) [
  | inl missing ↦ inl (
    subst (FindsItem uuid id items 0) missing (queue_item_index-FindsItem uuid id items 0),
    rw (missing, order_mine) refl,
  )
  | inr (source, there) ↦
      let (k, at_k, lt, (x, found, same)) =
        subst (FindsItem uuid id items 0) there (queue_item_index-FindsItem uuid id items 0) in
      let at_source : get_elem? items source ≡ some x =
        subst (λ d. get_elem? items d ≡ some x) (omega (arith, at_k)) found in
      elim (Bool-cases (source == dest)) [
        | inl here ↦ inr (
            inl (
              x,
              subst (λ d. get_elem? items d ≡ some x) (ground (arith, here)) at_source,
              same,
              rw (there, order_mine)
                  (rw (calculate_queue_order_same source dest (length items) (ground (arith, here)))
                    refl),
            ))
        | inr other ↦
            let (order, xs, computed, done, at_dest) =
              moved_to items source dest x (omega (arith, lt, at_k)) fits
                (λ e. ground (arith, other, e)) at_source in
            inr (
              inr (
                xs,
                rw (there, order_mine) (rw computed (rw done refl)),
                reorder-perm items xs (map pos order) done,
                (x, at_dest, same),
              ))
      ]
]
