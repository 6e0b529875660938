-- ===== src/Queue/Reorder/Permutes.antt =====
-- pkg/playback/queue/queue.go: Reorder loses no item and makes none up.
use mathlib.Core.List.{Perm, Permᴰ}
use mathlib.Core.List.Permᴰ
use native.Mathlib.Nat.{zero-add}
use streaming_server.Base.{
  ℕ, zero, suc, ◌+◌, ◌≤◌, ◌<◌, ◌≡◌, refl, ap, ◌∙◌, subst, inl, inr, List, [], ◌∷◌, ◌++◌, append-nil,
  append_assoc, none, some, arith, true, false, Bool-cases, Option-cases, ok, err, panic, diverges,
  ◌>>=◌, leb, ltb, ◌==◌, if◌then◌else◌, length, length-append, get_elem?,
}
use streaming_server.Base.Int.{ℤ, pos, negsuc}
use streaming_server.Queue.Item.{QueueItem, Result}
use streaming_server.Queue.Reorder.{contains, pick, remaining, reorder}

pub length-permᴰ {ℓ} : {A : Type ℓ} {xs ys : List A} → Permᴰ xs ys → length xs ≡ length ys
length-permᴰ Permᴰ.nil = refl
length-permᴰ (Permᴰ.cons e p) = ap suc (length-permᴰ p)
length-permᴰ (Permᴰ.swap e f) = refl
length-permᴰ (Permᴰ.trans p q) = length-permᴰ p ∙ length-permᴰ q

-- A picked index below all that are left changes nothing.
remaining-past :
    (n : ℕ) (seen : List ℕ) (i : ℕ) (xs : List QueueItem)
    → n < i
    → remaining (n ∷ seen) i xs ≡ remaining seen i xs
unfolding remaining contains
remaining-past n seen i [] lt = refl
remaining-past n seen i (x ∷ xs) lt = ground (arith, remaining-past n seen (suc i) xs)

-- To pick one more index takes its item out of the rest.
remaining-pick :
    (n : ℕ) (seen : List ℕ) (i : ℕ) (xs : List QueueItem) (x : QueueItem) (j : ℕ)
    → contains n seen ≡ false
    → n ≡ i + j
    → get_elem? xs j ≡ some x
    → Permᴰ (remaining seen i xs) (x ∷ remaining (n ∷ seen) i xs)
unfolding remaining contains
remaining-pick n seen i [] x j new e g = cc
remaining-pick n seen i (y ∷ ys) x zero new e g =
    let m : n ≡ i = omega arith in
    let hit : contains i seen ≡ false = subst (λ k. contains k seen ≡ false) m new in
    let same : (n == i) ≡ true = ground arith in
    rw (hit, same)
      (rw (remaining-past n seen (suc i) ys (omega arith))
        (Permᴰ.cons (ground arith) (Permᴰ.refl (remaining seen (suc i) ys))))
remaining-pick n seen i (y ∷ ys) x (suc j) new e g =
    let other : (n == i) ≡ false = ground arith in
    let ih = remaining-pick n seen (suc i) ys x j new (omega arith) g in
    elim (Bool-cases (contains i seen)) [
      | inl old ↦ rw (old, other) ih
      | inr kept ↦ rw (kept, other) (Permᴰ.trans (Permᴰ.cons refl ih) (Permᴰ.swap refl refl))
    ]

remaining-nil : (i : ℕ) (xs : List QueueItem) → remaining [] i xs ≡ xs
unfolding remaining contains
remaining-nil i [] = refl
remaining-nil i (x ∷ xs) = ap (◌∷◌ x) (remaining-nil (suc i) xs)

-- What holds of the picked indices and items.
record Picked (items : List QueueItem) (r : List ℕ × List QueueItem) : Type 0 where
  same_items : Permᴰ (r.1 ++ remaining r.0 0 items) items
  same_length : length r.0 ≡ length r.1

Picked-step :
    (items : List QueueItem) (seen : List ℕ) (picked : List QueueItem) (n : ℕ) (x : QueueItem)
    → contains n seen ≡ false
    → get_elem? items n ≡ some x
    → Picked items (seen, picked)
    → Picked items (n ∷ seen, picked ++ x ∷ [])
Picked-step items seen picked n x new g w = record {
  same_items = rw (append_assoc picked (x ∷ []) (remaining (n ∷ seen) 0 items)) (
      Permᴰ.trans
        (Permᴰ.append_left picked
          (Permᴰ.symm (remaining-pick n seen 0 items x n new (omega arith) g)))
        w.same_items);
  same_length = omega (arith, length-append {0} picked (x ∷ []), w.same_length);
}

suc_shift : (a b : ℕ) → suc a + b ≡ a + suc b
suc_shift a b = omega arith

-- A first loop that succeeds has picked as many items as it was given indices, or as there are.
abbrev PicksEnough : List QueueItem → ℕ → Result (List ℕ × List QueueItem) → Type 0
PicksEnough items n (ok r) = Picked items r × (length items ≤ n → length items ≤ length r.1)
PicksEnough items n diverges = ⊥
PicksEnough items n _ = Unit

pick-PicksEnough :
    (items : List QueueItem) (order : List ℤ) (idx : ℕ) (seen : List ℕ) (picked : List QueueItem)
    → Picked items (seen, picked)
    → length picked ≡ idx
    → PicksEnough items (idx + length order) (pick items order idx seen picked)
unfolding pick
pick-PicksEnough items [] idx seen picked w l = (w, λ h. omega arith)
pick-PicksEnough items (negsuc m ∷ ps) idx seen picked w l =
    elim (Bool-cases (leb (length items) idx)) [
      | inl over ↦ rw over (w, λ h. ground arith)
      | inr more ↦ rw more tt
    ]
pick-PicksEnough items (pos n ∷ ps) idx seen picked w l =
    elim (Bool-cases (leb (length items) idx)) [
      | inl over ↦ rw over (w, λ h. ground arith)
      | inr more ↦ elim (Bool-cases (leb (length items) n)) [
        | inl out ↦ rw (more, out) tt
        | inr inside ↦ elim (Bool-cases (contains n seen)) [
          | inl old ↦ rw (more, inside, old) tt
          | inr new ↦ elim (Option-cases (get_elem? items n)) [
            | inl missing ↦ rw (more, inside, new) (rw missing tt)
            | inr (x, g) ↦
                rw (more, inside, new)
                  (rw g (
                    subst
                      (λ m.
                        PicksEnough items m (pick items ps (suc idx) (n ∷ seen) (picked ++ x ∷ [])))
                      (suc_shift idx (length ps))
                      (pick-PicksEnough items ps (suc idx) (n ∷ seen) (picked ++ x ∷ [])
                        (Picked-step items seen picked n x new g w)
                        (omega (arith, length-append {0} picked (x ∷ []))))))
          ]
        ]
      ]
    ]

get_elem?-none {ℓ} : {A : Type ℓ} (xs : List A) (n : ℕ) → get_elem? xs n ≡ none → length xs ≤ n
get_elem?-none [] n e = omega arith
get_elem?-none (x ∷ xs) zero e = cc
get_elem?-none (x ∷ xs) (suc n) e = omega (arith, get_elem?-none xs n e)

length-zero {ℓ} : {A : Type ℓ} (xs : List A) → length xs ≡ 0 → xs ≡ []
length-zero [] e = refl
length-zero (x ∷ xs) e = absurd (omega arith)

abbrev pub Permutes : List QueueItem → Result (List QueueItem) → Type 0
Permutes items (ok xs) = Permᴰ xs items
Permutes items diverges = ⊥
Permutes items _ = Unit

all_picked :
    (items : List QueueItem) (r : List ℕ × List QueueItem)
    → Picked items r
    → length items ≤ length r.1
    → Permᴰ r.1 items
all_picked items r w enough = rw none_left at w.same_items
  where
    none_left : r.1 ++ remaining r.0 0 items ≡ r.1
    none_left =
        ap (◌++◌ r.1) (
          length-zero (remaining r.0 0 items) (
            omega
              (arith, length-permᴰ w.same_items, length-append {0} r.1 (remaining r.0 0 items))))
        ∙ append-nil r.1

copied :
    (items : List QueueItem) (n : ℕ) (r : Result (List ℕ × List QueueItem))
    → PicksEnough items n r
    → Permutes items (do
      (seen, picked) ← r
      ok (if ltb n (length items) then picked ++ remaining seen 0 items else picked))
copied items n (ok r) (w, enough) = elim (Bool-cases (ltb n (length items))) [
  | inl fewer ↦ rw fewer w.same_items
  | inr all ↦ rw all (all_picked items r w (enough (ground arith)))
]
copied items n (err e) w = tt
copied items n panic w = tt
copied items n diverges w = w

pub reorder-permᴰ : (items : List QueueItem) (order : List ℤ) → Permutes items (reorder items order)
unfolding reorder
reorder-permᴰ items [] = Permᴰ.refl items
reorder-permᴰ items (p ∷ ps) =
    copied items (length (p ∷ ps)) (pick items (p ∷ ps) 0 [] [])
      (rw zero-add at (pick-PicksEnough items (p ∷ ps) 0 [] [] start refl))
  where
    start : Picked items ([], [])
    start = record {
      same_items = rw (remaining-nil 0 items) (Permᴰ.refl items);
      same_length = refl;
    }

-- Where Reorder succeeds, the new list holds the items of the old one, each as often.
pub reorder-perm :
    (items xs : List QueueItem) (order : List ℤ) → reorder items order ≡ ok xs → Perm xs items
reorder-perm items xs order e = ∣ subst (Permutes items) e (reorder-permᴰ items order) ∣₁
