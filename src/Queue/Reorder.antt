-- ===== src/Queue/Reorder.antt =====
-- pkg/playback/queue/queue.go: ReorderableQueueSchema.Reorder.
pub mod Permutes
pub mod Positions
mod Tests
use streaming_server.Base.{
  ℕ, suc, List, [], ◌∷◌, ◌++◌, Bool, false, ◌||◌, none, some, leb, ltb, ◌==◌, if◌then◌else◌, ok,
  err, panic, ◌>>=◌, length, get_elem?,
}
use streaming_server.Base.Int.{ℤ, pos, negsuc}
use streaming_server.Queue.Item.{QueueItem, Result, out_of_range, duplicate_index}

-- The map `seen`, as the list of its keys.
unfoldable pub contains : ℕ → List ℕ → Bool
contains n [] = false
contains n (m ∷ ms) = m == n || contains n ms

-- The first loop: it stops at the length of the queue, and reads an index only after both checks.
-- A negative index passes the checks, and the read panics.
unfoldable pub pick :
    List QueueItem → List ℤ → ℕ → List ℕ → List QueueItem → Result (List ℕ × List QueueItem)
pick items [] idx seen picked = ok (seen, picked)
pick items (p ∷ ps) idx seen picked = if leb (length items) idx then ok (seen, picked) else elim p [
  | negsuc _ ↦ panic
  | pos n ↦
      if leb (length items) n
      then err (out_of_range (pos n))
      else if contains n seen
      then err (duplicate_index (pos n))
      else elim (get_elem? items n) [
        | none ↦ panic
        | some x ↦ pick items ps (suc idx) (n ∷ seen) (picked ++ x ∷ [])
      ]
]

-- The second loop: the items whose index has not been copied, in their order.
unfoldable pub remaining : List ℕ → ℕ → List QueueItem → List QueueItem
remaining seen idx [] = []
remaining seen idx (x ∷ xs) =
    let rest = remaining seen (suc idx) xs in if contains idx seen then rest else x ∷ rest

-- The list that Reorder passes to Set.
unfoldable pub reorder : List QueueItem → List ℤ → Result (List QueueItem)
reorder items [] = ok items
reorder items (p ∷ ps) = do
  (seen, picked) ← pick items (p ∷ ps) 0 [] []
  ok (if ltb (length (p ∷ ps)) (length items) then picked ++ remaining seen 0 items else picked)
