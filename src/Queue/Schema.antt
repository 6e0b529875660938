-- ===== src/Queue/Schema.antt =====
-- pkg/playback/queue/queue.go: QueueSchema, and the bounded Push of AggregatableQueueSchema. The
-- state is the slice of items; `uuid` reads an item's id.
pub mod Search
use streaming_server.Base.{
  ℕ, suc, List, [], ◌∷◌, ◌++◌, Option, none, some, leb, if◌then◌else◌, ok, err, length, take, drop,
}
use streaming_server.Base.Text.{Str, str_eq}
use streaming_server.Queue.Item.{QueueItem, Result, item_not_found, max_size_exceeded, no_items}

abbrev pub max_aggregatable_queue_items : ℕ
max_aggregatable_queue_items = 20

-- The search loop of DeleteItem: the first index with the given id.
unfoldable pub index_of : (QueueItem → Str) → Str → List QueueItem → Option ℕ
index_of uuid k [] = none
index_of uuid k (x ∷ xs) =
    let rest = index_of uuid k xs in
    if str_eq (uuid x) k then some 0 else elim rest [ none ↦ none | some i ↦ some (suc i) ]

unfoldable pub delete_item : (QueueItem → Str) → Str → List QueueItem → Result (List QueueItem)
delete_item uuid k items = elim (index_of uuid k items) [
  | none ↦ err (item_not_found k)
  | some idx ↦ ok (take idx items ++ drop (suc idx) items)
]

unfoldable pub pop : List QueueItem → Result (QueueItem × List QueueItem)
pop [] = err no_items
pop (x ∷ xs) = ok (x, xs)

unfoldable pub push : List QueueItem → QueueItem → List QueueItem
push items x = items ++ x ∷ []

unfoldable pub push_bounded : List QueueItem → QueueItem → Result (List QueueItem)
unfolding push
push_bounded items x =
    if leb max_aggregatable_queue_items (length items)
    then err max_size_exceeded
    else ok (push items x)
