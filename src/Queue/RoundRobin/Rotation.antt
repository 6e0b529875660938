-- ===== src/Queue/RoundRobin/Rotation.antt =====
-- pkg/playback/queue/queue.go: the abstract view of a round-robin queue. It is the list of the
-- users' queues, each with its id and items, from the one whose turn is next.
use mathlib.Core.List.{append-nil, append_assoc}
use streaming_server.Base.{
  ℕ, suc, ◌+◌, ◌-◌, ◌≤◌, ◌<◌, ◌≡◌, ◌≢◌, refl, sym, ◌∙◌, ◌⊎◌, inl, inr, List, [], ◌∷◌, ◌++◌, map,
  arith, true, false, Bool-cases, leb, ltb, if◌then◌else◌, length, take, drop, take-length,
  drop-length, length-append, split_at, All, All-append_inv,
}
use streaming_server.Base.Text.{Str, str_eq, str_ne, str_eq_refl}
use streaming_server.Queue.Item.{QueueItem, single, aggregate, Heap, uuid}
use streaming_server.Queue.RoundRobin.{RoundRobinQueue, adjust}
use streaming_server.Queue.RoundRobin.Indexed.{IsIndexed}

module _ {ℓ} {A : Type ℓ} where
  abbrev pub rotate : ℕ → List A → List A
  rotate n xs = drop n xs ++ take n xs

  pub rotate-length : (front back : List A) → rotate (length front) (front ++ back) ≡ back ++ front
  rotate-length front back = rw (drop-length front back, take-length front back)

  abbrev pub wrap : ℕ → List A → ℕ
  wrap n xs = if leb (length xs) n then 0 else n

  -- To wrap to the front at the end of the list changes nothing.
  pub rotate-wrap :
      (front back : List A)
      → rotate (wrap (length front) (front ++ back)) (front ++ back) ≡ back ++ front
  rotate-wrap front [] =
      let e : leb (length (front ++ [])) (length front) ≡ true =
        ground (arith, length-append front []) in
      rw e (rw (append-nil (front ++ []), append-nil front))
  rotate-wrap front (x ∷ back) =
      let e : leb (length (front ++ x ∷ back)) (length front) ≡ false =
        ground (arith, length-append front (x ∷ back)) in
      rw e (rotate-length front (x ∷ back))

  pub wrap-in_range : (n : ℕ) (xs : List A) → (wrap n xs < length xs) ⊎ (wrap n xs ≡ 0)
  wrap-in_range n xs = ground arith

module _ {ℓ} {A : Type ℓ} where
  pub rotate-next :
      (front : List A) (x : A) (back : List A)
      → rotate (wrap (suc (length front)) (front ++ x ∷ back)) (front ++ x ∷ back)
        ≡ (back ++ front) ++ x ∷ []
  rotate-next front x back =
      let l : suc (length front) ≡ length (front ++ x ∷ []) =
        omega (arith, length-append front (x ∷ [])) in
      rw (l, ← append_assoc front (x ∷ []) back)
        (rotate-wrap (front ++ x ∷ []) back ∙ sym (append_assoc back front (x ∷ [])))

  pub rotate-past :
      (front : List A) (x : A) (back : List A)
      → rotate (suc (length front)) (front ++ x ∷ back) ≡ (back ++ front) ++ x ∷ []
  rotate-past front x back =
      let l : suc (length front) ≡ length (front ++ x ∷ []) =
        omega (arith, length-append front (x ∷ [])) in
      rw (l, ← append_assoc front (x ∷ []) back)
        (rotate-length (front ++ x ∷ []) back ∙ sym (append_assoc back front (x ∷ [])))

-- The entries with another id.
unfoldable pub without {ℓ} : {A : Type ℓ} → (A → Str) → Str → List A → List A
without key k [] = []
without key k (x ∷ xs) = let rest = without key k xs in if str_eq (key x) k then rest else x ∷ rest

module _ {ℓ} {A : Type ℓ} (key : A → Str) (k : Str) where
  pub without-append :
      (xs ys : List A) → without key k (xs ++ ys) ≡ without key k xs ++ without key k ys
  unfolding without
  without-append [] ys = refl
  without-append (x ∷ xs) ys = ground (arith, without-append xs ys)

  pub without-differs : (xs : List A) → All (λ x. key x ≢ k) xs → without key k xs ≡ xs
  unfolding without
  without-differs [] h = refl
  without-differs (x ∷ xs) h = rw (str_ne (key x) k h.0, without-differs xs h.1)

  pub without-hit : (x : A) (xs : List A) → key x ≡ k → without key k (x ∷ xs) ≡ without key k xs
  unfolding without
  without-hit x xs e = rw (e, str_eq_refl k)

pub map-without {ℓ κ} :
    {A : Type ℓ} {B : Type κ} (key : A → Str) (key' : B → Str) (f : A → B)
    → ((x : A) → key' (f x) ≡ key x)
    → (k : Str) (xs : List A) → map f (without key k xs) ≡ without key' k (map f xs)
unfolding without
map-without key key' f same k [] = refl
map-without key key' f same k (x ∷ xs) = ground (arith, same x, map-without key key' f same k xs)

module _ {ℓ} {A : Type ℓ} (key : A → Str) (x : A) where
  Others : List A → Type 0
  Others = All (λ y. key y ≢ key x)

  without-middle :
      (front back : List A)
      → Others front
      → Others back
      → without key (key x) (front ++ x ∷ back) ≡ front ++ back
  unfolding Others
  without-middle front back f b =
      without-append key (key x) front (x ∷ back)
      ∙ rw (
        without-hit key (key x) x back refl,
        without-differs key (key x) front f,
        without-differs key (key x) back b,
      )

  adjust-before :
      (f1 f2 back : List A)
      → Others (f1 ++ f2)
      → Others back
      → rotate
          (adjust (length (f1 ++ f2)) (length f1) (length ((f1 ++ f2) ++ back)))
          ((f1 ++ f2) ++ back)
        ≡ without key (key x) (rotate (length f1) ((f1 ++ f2) ++ x ∷ back))
  unfolding adjust Others
  adjust-before f1 f2 back f b =
      let e : ltb (length (f1 ++ f2)) (length f1) ≡ false = ground (arith, length-append f1 f2) in
      let (o1, o2) = All-append_inv (λ y. key y ≢ key x) f1 f2 f in
      rw e (
        rw (append_assoc f1 f2 back, append_assoc f1 f2 (x ∷ back))
          (rw (rotate-wrap f1 (f2 ++ back), rotate-length f1 (f2 ++ x ∷ back))
            (sym (
              without-append key (key x) (f2 ++ x ∷ back) f1
              ∙ rw (without-middle f2 back o2 b, without-differs key (key x) f1 o1)))))

  adjust-behind :
      (front b1 b2 : List A)
      → Others front
      → Others (b1 ++ b2)
      → rotate
          (adjust (length front) (length front + suc (length b1)) (length (front ++ (b1 ++ b2))))
          (front ++ (b1 ++ b2))
        ≡ without key (key x) (rotate (length front + suc (length b1)) (front ++ x ∷ (b1 ++ b2)))
  unfolding adjust Others
  adjust-behind front b1 b2 f b =
      let e : ltb (length front) (length front + suc (length b1)) ≡ true = ground arith in
      let l : length front + suc (length b1) - 1 ≡ length (front ++ b1) =
        omega (arith, length-append front b1) in
      let m : length front + suc (length b1) ≡ length (front ++ x ∷ b1) =
        omega (arith, length-append front (x ∷ b1)) in
      let (o1, o2) = All-append_inv (λ y. key y ≢ key x) b1 b2 b in
      rw e (
        rw l (
          rw m (
            rw (← append_assoc front b1 b2, ← append_assoc front (x ∷ b1) b2)
              (rw (rotate-wrap (front ++ b1) b2, rotate-length (front ++ x ∷ b1) b2)
                (sym (
                  without-append key (key x) b2 (front ++ x ∷ b1)
                  ∙ rw (without-middle front b1 f o1, without-differs key (key x) b2 o2)))))))

  -- The index that DeleteItem leaves points at the same queue, or the one behind a deleted one.
  pub rotate-adjust :
      (front back : List A) (rr : ℕ)
      → rr ≤ length (front ++ x ∷ back)
      → All (λ y. key y ≢ key x) front
      → All (λ y. key y ≢ key x) back
      → rotate (adjust (length front) rr (length (front ++ back))) (front ++ back)
        ≡ without key (key x) (rotate rr (front ++ x ∷ back))
  unfolding Others
  rotate-adjust front back rr h f b = elim (Bool-cases (leb rr (length front))) [
    | inl le ↦ before (split_at rr front (ground arith))
    | inr gt ↦
        behind (ground arith)
          (split_at (rr - length front - 1) back (ground (arith, length-append front (x ∷ back))))
  ]
    where
      before :
          ((f1 : List A) × (f2 : List A) × (front ≡ f1 ++ f2) × (length f1 ≡ rr))
          → rotate (adjust (length front) rr (length (front ++ back))) (front ++ back)
            ≡ without key (key x) (rotate rr (front ++ x ∷ back))
      before (f1, f2, e, l) = rw (e, ← l) (adjust-before f1 f2 back (rw e at f) b)

      behind :
          length front < rr
          → ((b1 : List A) × (b2 : List A) × (back ≡ b1 ++ b2)
              × (length b1 ≡ rr - length front - 1))
          → rotate (adjust (length front) rr (length (front ++ back))) (front ++ back)
            ≡ without key (key x) (rotate rr (front ++ x ∷ back))
      behind gt (b1, b2, e, l) =
          let m : rr ≡ length front + suc (length b1) = omega arith in
          rw (e, m) (adjust-behind front b1 b2 f (rw e at b))

abbrev pub View : Type 0
View = Str × List QueueItem

unfoldable pub view : Heap → QueueItem → View
view h (single s _) = (s, [])
view h (aggregate a) = ((h a).id, (h a).items)

pub view-uuid : (h : Heap) (x : QueueItem) → (view h x).0 ≡ uuid h x
unfolding view uuid
view-uuid h (single s _) = refl
view-uuid h (aggregate a) = refl

pub view-aggregate : (h : Heap) (a : ℕ) → view h (aggregate a) ≡ (uuid h (aggregate a), (h a).items)
unfolding view uuid
view-aggregate h a = refl

unfoldable pub rotation : RoundRobinQueue → List View
rotation q = map (view q.heap) (rotate q.rr_count q.items)

pub record IsWellFormed (q : RoundRobinQueue) : Type 0 where
  pub links : IsIndexed (uuid q.heap) q.items q.items_by_id
  pub in_range : (q.rr_count < length q.items) ⊎ (q.rr_count ≡ 0)
