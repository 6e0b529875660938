-- ===== src/Queue/RoundRobin/Merge.antt =====
-- pkg/playback/queue/queue.go: the abstract view of Push, and of the loop that adds items to a queue.
use streaming_server.Base.{
  ℕ, zero, suc, ◌-◌, ◌≡◌, ◌≢◌, refl, sym, ap, ◌∙◌, fun_ext, inl, inr, List, [], ◌∷◌, ◌++◌, map,
  map-append, append-nil, append_assoc, arith, true, false, Bool-cases, leb, ◌==◌, ==_iff,
  if◌then◌else◌, length, length-append, take, All,
}
use streaming_server.Base.Text.{Str, str_eq, str_ne, str_eq_refl}
use streaming_server.Queue.Item.{QueueItem, aggregate, Heap, uuid, set_items, items-set_items}
use streaming_server.Queue.Schema.{max_aggregatable_queue_items, push_bounded}
use streaming_server.Queue.Schema.Search.{Distinct, Distinct-split}
use streaming_server.Queue.RoundRobin.{push_each}
use streaming_server.Queue.RoundRobin.Rotation.{View, view, view-aggregate}
use streaming_server.Queue.RoundRobin.Delete.{All-view}
use streaming_server.Queue.RoundRobin.Turn.{view-set_items_others, view-set_items_self}

-- As many of the new items as there is room for.
abbrev pub with_room : List QueueItem → List QueueItem → List QueueItem
with_room ys xs = ys ++ take (max_aggregatable_queue_items - length ys) xs

set_items-twice :
    (h : Heap) (b : ℕ) (xs ys : List QueueItem)
    → set_items (set_items h b xs) b ys ≡ set_items h b ys
unfolding set_items
set_items-twice h b xs ys = fun_ext λ c. ground arith

set_items-same_at : (h : Heap) (b c : ℕ) → set_items h b (h b).items c ≡ h c
unfolding set_items
set_items-same_at h b c = elim (Bool-cases (c == b)) [
  | inl e ↦ rw e (ap (λ d. record { id = (h c).id; items = (h d).items }) (sym ((==_iff c b).0 e)))
  | inr e ↦ rw e
]

set_items-same : (h : Heap) (b : ℕ) → set_items h b (h b).items ≡ h
set_items-same h b = fun_ext (set_items-same_at h b)

with_room-nil : (ys : List QueueItem) → with_room ys [] ≡ ys
with_room-nil ys = go (max_aggregatable_queue_items - length ys)
  where
    go : (n : ℕ) → ys ++ take n [] ≡ ys
    go zero = append-nil ys
    go (suc n) = append-nil ys

with_room-full :
    (ys : List QueueItem) (x : QueueItem) (xs : List QueueItem)
    → leb max_aggregatable_queue_items (length ys) ≡ true
    → with_room ys (x ∷ xs) ≡ with_room ys xs
with_room-full ys x xs full =
    let z : max_aggregatable_queue_items - length ys ≡ 0 = ground arith in rw z

with_room-space :
    (ys : List QueueItem) (x : QueueItem) (xs : List QueueItem)
    → leb max_aggregatable_queue_items (length ys) ≡ false
    → with_room (ys ++ x ∷ []) xs ≡ with_room ys (x ∷ xs)
with_room-space ys x xs room =
    let z : max_aggregatable_queue_items - length ys
        ≡ suc (max_aggregatable_queue_items - length (ys ++ x ∷ [])) =
      ground (arith, length-append ys (x ∷ [])) in
    rw z (append_assoc ys (x ∷ []) (take (max_aggregatable_queue_items - length (ys ++ x ∷ [])) xs))

pub push_each-set_items :
    (h : Heap) (b : ℕ) (xs : List QueueItem)
    → push_each h b xs ≡ set_items h b (with_room (h b).items xs)
unfolding push_each push_bounded
push_each-set_items h b [] = rw (with_room-nil (h b).items, set_items-same h b)
push_each-set_items h b (x ∷ xs) =
    elim (Bool-cases (leb max_aggregatable_queue_items (length (h b).items))) [
      | inl full ↦ rw full (
          push_each-set_items h b xs
          ∙ ap (set_items h b) (sym (with_room-full (h b).items x xs full)))
      | inr room ↦ rw room (
          push_each-set_items (set_items h b ((h b).items ++ x ∷ [])) b xs
          ∙ rw (items-set_items h b ((h b).items ++ x ∷ [])) (
              set_items-twice h b ((h b).items ++ x ∷ []) (with_room ((h b).items ++ x ∷ []) xs)
              ∙ ap (set_items h b) (with_room-space (h b).items x xs room)))
    ]

-- The specification: a known queue gets the items that it has room for, and a new one goes last.
unfoldable pub merge : Str → List QueueItem → List View → List View
merge k xs [] = (k, xs) ∷ []
merge k xs ((j, ys) ∷ vs) =
    let rest = merge k xs vs in if str_eq j k then (j, with_room ys xs) ∷ vs else (j, ys) ∷ rest

pub merge-new :
    (k : Str) (xs : List QueueItem) (vs : List View)
    → All (λ v. v.0 ≢ k) vs
    → merge k xs vs ≡ vs ++ (k, xs) ∷ []
unfolding merge
merge-new k xs [] d = refl
merge-new k xs ((j, ys) ∷ vs) d = rw (str_ne j k d.0, merge-new k xs vs d.1)

pub merge-known :
    (k : Str) (xs : List QueueItem) (vs : List View) (ys : List QueueItem) (ws : List View)
    → All (λ v. v.0 ≢ k) vs
    → merge k xs (vs ++ (k, ys) ∷ ws) ≡ vs ++ (k, with_room ys xs) ∷ ws
unfolding merge
merge-known k xs [] ys ws d = rw (str_eq_refl k)
merge-known k xs ((j, zs) ∷ vs) ys ws d = rw (str_ne j k d.0, merge-known k xs vs ys ws d.1)

-- A known queue stands somewhere in the order of turns.
pub map-merge :
    (h : Heap) (front : List QueueItem) (b : ℕ) (back xs : List QueueItem)
    → Distinct (uuid h) (front ++ aggregate b ∷ back)
    → map (view (push_each h b xs)) (front ++ aggregate b ∷ back)
      ≡ merge (uuid h (aggregate b)) xs (map (view h) (front ++ aggregate b ∷ back))
map-merge h front b back xs d =
    let (f, g, _) = Distinct-split (uuid h) front (aggregate b) back d in
    let ys = with_room (h b).items xs in
    rw
      (
        push_each-set_items h b xs,
        map-append (view h) front (aggregate b ∷ back),
        view-aggregate h b,
      )
      (map-append (view (set_items h b ys)) front (aggregate b ∷ back)
        ∙ rw
            (
              view-set_items_others h b ys front f,
              view-set_items_others h b ys back g,
              view-set_items_self h b ys,
            )
            (sym (
              merge-known (uuid h (aggregate b)) xs (map (view h) front) (h b).items
                (map (view h) back) (All-view h (uuid h (aggregate b)) front f))))
