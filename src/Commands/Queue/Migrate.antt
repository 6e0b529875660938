-- ===== src/Commands/Queue/Migrate.antt =====
-- pkg/socket/cmd/queue.go: `/queue migrate` in terms of the order of turns.
use streaming_server.Base.{
  ℕ, ◌≡◌, ◌≢◌, refl, sym, ap, ◌∙◌, inl, inr, List, [], ◌∷◌, map, arith, some, Option-cases, ok, err,
  All, All-append, All-take, All-drop, take, drop, Bool-cases, ==_refl, panic, diverges, ltb,
}
use streaming_server.Base.Text.{Str, str_eq, str_eq_iff}
use streaming_server.Base.Dict.{lookup}
use streaming_server.Queue.Item.{
  QueueItem, single, aggregate, AggregatableQueue, Heap, uuid, set_items, set_items_ne,
  items-set_items, id-set_items, allocate,
}
use streaming_server.Queue.RoundRobin.{RoundRobinQueue, M, push, link, delete_item}
use streaming_server.Queue.RoundRobin.Rotation.{View, view, rotate, rotation, IsWellFormed, without}
use streaming_server.Queue.RoundRobin.Delete.{without_queue, delete_item-Deletes}
use streaming_server.Queue.RoundRobin.Merge.{merge, with_room, push_each-set_items}
use streaming_server.Queue.RoundRobin.Push.{push-Pushes}
use streaming_server.Queue.RoundRobin.Steps.{set_items-IsWellFormed}
use streaming_server.Queue.RoundRobin.Allocated.{allocate-IsWellFormed}
use streaming_server.Playback.Util.{get_queue_for_id}
use streaming_server.Commands.Queue.{copied, migrate, migrated, after_push}

abbrev pub Fresh : ℕ → List QueueItem → Type 0
Fresh a = All (λ x. x ≢ aggregate a)

module _ (h : Heap) (a : ℕ) (user : Str) (items : List QueueItem) where
  copied-set_items : copied h a user items ≡ set_items (allocate h a user) a (with_room [] items)
  unfolding copied allocate
  copied-set_items = push_each-set_items (allocate h a user) a items ∙ rw (==_refl a) refl

  copied_self : (copied h a user items a).id ≡ user
  unfolding allocate
  copied_self =
      rw copied-set_items
        (id-set_items (allocate h a user) a (with_room [] items) a ∙ rw (==_refl a) refl)

  copied_items : (copied h a user items a).items ≡ with_room [] items
  copied_items = rw copied-set_items (items-set_items (allocate h a user) a (with_room [] items))

  copied_ne : (b : ℕ) → b ≢ a → copied h a user items b ≡ h b
  unfolding allocate
  copied_ne b ne =
      rw copied-set_items
        (set_items_ne (allocate h a user) a (with_room [] items) b ne ∙ ground (arith, ne))

  view-copied : (x : QueueItem) → x ≢ aggregate a → view (copied h a user items) x ≡ view h x
  unfolding view
  view-copied (single s p) ne = refl
  view-copied (aggregate b) ne =
      ap (λ (c : AggregatableQueue). (c.id, c.items)) (copied_ne b (λ e. ne (ap aggregate e)))

  view-copied_All :
      (xs : List QueueItem) → Fresh a xs → map (view (copied h a user items)) xs ≡ map (view h) xs
  view-copied_All [] f = refl
  view-copied_All (x ∷ xs) f = cc (view-copied x f.0, view-copied_All xs f.1)

Fresh-rotate : (a n : ℕ) (xs : List QueueItem) → Fresh a xs → Fresh a (rotate n xs)
Fresh-rotate a n xs f =
    All-append (λ x. x ≢ aggregate a) (drop n xs) (take n xs)
      (All-drop (λ x. x ≢ aggregate a) n xs f) (All-take (λ x. x ≢ aggregate a) n xs f)

module _ (q : RoundRobinQueue) (a : ℕ) (user : Str) (items : List QueueItem) where
  abbrev prepared : RoundRobinQueue
  prepared = record q { heap = copied q.heap a user items }

  rotation-prepared : Fresh a q.items → rotation prepared ≡ rotation q
  unfolding rotation
  rotation-prepared f =
      view-copied_All q.heap a user items (rotate q.rr_count q.items)
        (Fresh-rotate a q.rr_count q.items f)

  prepared-IsWellFormed : Fresh a q.items → IsWellFormed q → IsWellFormed prepared
  prepared-IsWellFormed f w = rw (copied-set_items q.heap a user items) (
      set_items-IsWellFormed (record q { heap = allocate q.heap a user }) a (with_room [] items)
        (allocate-IsWellFormed q a user f w))

  -- The new queue has been pushed.
  pushed_lem :
      Fresh a q.items
      → IsWellFormed q
      → IsWellFormed (push prepared (aggregate a)).0
        × ((push prepared (aggregate a)).1 ≡ ok tt)
        × (rotation (push prepared (aggregate a)).0 ≡ merge user (with_room [] items) (rotation q))
  unfolding uuid
  pushed_lem f w =
      let (v, r, e) = push-Pushes prepared a (prepared-IsWellFormed f w) in
      (
        v,
        r,
        e
            ∙ rw
                (
                  copied_self q.heap a user items,
                  copied_items q.heap a user items,
                  rotation-prepared f,
                )
                refl,
      )

found_queue :
    (h : Heap) (id : Str) (qs : List QueueItem) (a b : ℕ)
    → get_queue_for_id h id qs ≡ ok (some b)
    → Fresh a qs
    → ((h b).id ≡ id) × (b ≢ a)
unfolding get_queue_for_id uuid
found_queue h id [] a b e f = absurd (ground (arith, e))
found_queue h id (single s p ∷ qs) a b e f = elim (Bool-cases (str_eq s id)) [
  | inl hit ↦ absurd (ground (arith, e, hit))
  | inr miss ↦ found_queue h id qs a b (ground (arith, e, miss)) f.1
]
found_queue h id (aggregate c ∷ qs) a b e f = elim (Bool-cases (str_eq (h c).id id)) [
  | inl hit ↦
      let same : c ≡ b = ground (arith, e, hit) in
      (
        ap (λ d. (h d).id) (sym same) ∙ (str_eq_iff (h c).id id).0 hit,
        (λ eq. f.0 (ap aggregate (same ∙ eq))),
      )
  | inr miss ↦ found_queue h id qs a b (ground (arith, e, miss)) f.1
]

heap-link : (q : RoundRobinQueue) (a : ℕ) → (link q a).heap ≡ q.heap
unfolding link
heap-link q a = elim (Bool-cases (ltb 0 q.rr_count)) [
  | inl some_turn ↦ rw some_turn refl
  | inr first ↦ rw first refl
]

push-id : (q : RoundRobinQueue) (a b : ℕ) → ((push q (aggregate a)).0.heap b).id ≡ (q.heap b).id
unfolding push
push-id q a b = elim (Option-cases (lookup (q.heap a).id q.items_by_id)) [
  | inl new ↦ rw (new, push) (ap (λ (h : Heap). (h b).id) (heap-link q a))
  | inr (c, known) ↦
      rw (known, push)
        (rw (push_each-set_items q.heap c (q.heap a).items)
          (id-set_items q.heap c (with_room (q.heap c).items (q.heap a).items) b))
]

after_push-ok :
    (m : M (Unit {0})) (b : ℕ)
    → m.1 ≡ ok tt
    → after_push m b ≡ ((delete_item m.0 (aggregate b)).0, ok tt)
unfolding after_push
after_push-ok (q, ok _) b e = refl
after_push-ok (q, err x) b e = absurd (ground (arith, e))
after_push-ok (q, panic) b e = absurd (ground (arith, e))
after_push-ok (q, diverges) b e = absurd (ground (arith, e))

-- `/queue migrate`, at a pointer that the room's queue does not hold, succeeds where the queue exists
-- and keeps the invariant: the user's queue gets as many of the items as there is room for, last in
-- the order of turns if it is new, and then the queue with the old id is taken out, which is the
-- user's own one if the two ids are equal.
pub migrate-rotation :
    (q : RoundRobinQueue) (a : ℕ) (user from : Str) (b : ℕ)
    → IsWellFormed q
    → Fresh a q.items
    → get_queue_for_id q.heap from q.items ≡ ok (some b)
    → IsWellFormed (migrate q a user from).0
      × ((migrate q a user from).1 ≡ ok tt)
      × (rotation (migrate q a user from).0
          ≡ without_queue from (merge user (with_room [] (q.heap b).items) (rotation q)))
unfolding migrate migrated uuid
migrate-rotation q a user from b w f found =
    let (id, ne) = found_queue q.heap from q.items a b found f in
    let items = (q.heap b).items in
    let (v, r, e) = pushed_lem q a user items f w in
    let pushed = push (prepared q a user items) (aggregate a) in
    let (v', e', _) = delete_item-Deletes pushed.0 (aggregate b) v in
    let same : (pushed.0.heap b).id ≡ from =
      push-id (prepared q a user items) a b
      ∙ ap (λ (c : AggregatableQueue). c.id) (copied_ne q.heap a user items b ne)
      ∙ id in
    rw (found, migrated)
      (rw (after_push-ok pushed b r) (v', refl, e' ∙ rw same (ap (without_queue from) e)))

without-merge :
    (k : Str) (xs : List QueueItem) (vs : List View)
    → without_queue k (merge k xs vs) ≡ without_queue k vs
unfolding without merge
without-merge k xs [] = ground (arith, str_eq_iff k k)
without-merge k xs ((j, ys) ∷ vs) = ground (arith, without-merge k xs vs)

-- A user who names the own queue loses it: all its items leave the order of turns.
pub migrate-own :
    (q : RoundRobinQueue) (a : ℕ) (user : Str) (b : ℕ)
    → IsWellFormed q
    → Fresh a q.items
    → get_queue_for_id q.heap user q.items ≡ ok (some b)
    → rotation (migrate q a user user).0 ≡ without_queue user (rotation q)
migrate-own q a user b w f found =
    (migrate-rotation q a user user b w f found).2
    ∙ without-merge user (with_room [] (q.heap b).items) (rotation q)
