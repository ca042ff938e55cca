-- ===== src/Container/Ram.antt =====
-- map-api/src/legacy-chunk-data-ram-container.cc, over its member `data_`.
use map_api.Prelude.{
  ℕ, suc, Bool, true, false, not, Option, none, some, List, [], ◌∷◌, leb, ◌==◌, if◌then◌else◌,
}
use map_api.Prelude.Checked.{Checked, ok, fatal, ◌>>=◌, ◌>>◌, check}
use map_api.Prelude.Map.{Map, find, has, assign, emplace}
use map_api.Revision.{Revision, field_match_at}

-- `History`: the revisions of an item, the newest first.
abbrev pub History : Type 0
History = List Revision

abbrev pub HistoryMap : Type 0
HistoryMap = Map History

-- `History::latestAt`; `none` is `cend()`.
unfoldable pub latest_at : ℕ → History → Option Revision
latest_at time [] = none
latest_at time (item ∷ history) =
    if leb item.update_time time
    then if item.removed then none else some item
    else latest_at time history

-- The history that `data_[id]` gives: an empty one is made for a new id.
abbrev pub history_from : Option History → History
history_from none = []
history_from (some history) = history

unfoldable pub history_of : ℕ → HistoryMap → History
history_of id data_ = history_from (find id data_)

unfoldable pub insert_impl : Revision → HistoryMap → Bool × HistoryMap
unfolding history_of
insert_impl query data_ =
    if has query.id data_
    then (false, data_)
    else (true, assign query.id (query ∷ history_of query.id data_) data_)

unfoldable pub any_known : Map Revision → HistoryMap → Bool
any_known [] data_ = false
any_known ((id, r) ∷ query) data_ = if has id data_ then true else any_known query data_

unfoldable pub push_all : Map Revision → HistoryMap → HistoryMap
unfolding history_of
push_all [] data_ = data_
push_all ((id, r) ∷ query) data_ = push_all query (assign id (r ∷ history_of id data_) data_)

-- Nothing is inserted if one of the ids is known.
unfoldable pub bulk_insert_impl : Map Revision → HistoryMap → Bool × HistoryMap
unfolding any_known push_all
bulk_insert_impl query data_ =
    if any_known query data_ then (false, data_) else (true, push_all query data_)

-- The loop of `patchImpl`: the revision goes in front of the first one that is not newer.
unfoldable pub patch_history : Revision → History → Checked History
patch_history query [] = ok (query ∷ [])
patch_history query (item ∷ history) =
    if leb item.update_time query.update_time
    then check (not (query.update_time == item.update_time)) >> ok (query ∷ item ∷ history)
    else patch_history query history >>= λ rest. ok (item ∷ rest)

-- `patchImpl`, and `insertUpdatedImpl`, which calls it. Both return true where they return.
unfoldable pub patch_impl : Revision → HistoryMap → Checked HistoryMap
unfolding patch_history history_of
patch_impl query data_ = do
  history ← patch_history query (history_of query.id data_)
  ok (assign query.id history data_)

unfoldable pub latest_from : ℕ → Option History → Option Revision
unfolding latest_at
latest_from time none = none
latest_from time (some history) = latest_at time history

unfoldable pub get_by_id_impl : ℕ → ℕ → HistoryMap → Option Revision
unfolding latest_from
get_by_id_impl id time data_ = latest_from time (find id data_)

-- The test `key < 0 || value_holder.fieldMatch(item, key)`; a negative key is `none`.
unfoldable pub item_matches : Option ℕ → Revision → Revision → Checked Bool
item_matches none value_holder item = ok true
item_matches (some key) value_holder item = field_match_at value_holder item key

unfoldable pub keep_if : Bool → Revision → Option Revision
keep_if b item = if b then some item else none

-- One round of `forEachItemFoundAtTime`: the item on which the action is called.
unfoldable pub found_item : Option ℕ → Revision → Option Revision → Checked (Option Revision)
unfolding item_matches keep_if
found_item key value_holder none = ok none
found_item key value_holder (some item) = do
  matching ← item_matches key value_holder item
  ok (keep_if matching item)

-- `CHECK(dest->find(id) == dest->end())` and the emplacement.
unfoldable pub add_found : ℕ → Option Revision → Map Revision → Checked (Map Revision)
add_found id none dest = ok dest
add_found id (some item) dest = check (not (has id dest)) >> ok (emplace id item dest)

unfoldable pub find_loop :
    Option ℕ → Revision → ℕ → HistoryMap → Map Revision → Checked (Map Revision)
unfolding latest_at found_item add_found
find_loop key value_holder time [] dest = ok dest
find_loop key value_holder time ((id, history) ∷ data_) dest = do
  found ← found_item key value_holder (latest_at time history)
  dest' ← add_found id found dest
  find_loop key value_holder time data_ dest'

unfoldable pub find_by_revision_impl : Option ℕ → Revision → ℕ → HistoryMap → Checked (Map Revision)
unfolding find_loop
find_by_revision_impl key value_holder time data_ = find_loop key value_holder time data_ []

unfoldable pub add_count : Option Revision → ℕ → ℕ
add_count none count = count
add_count (some item) count = suc count

unfoldable pub count_by_revision_impl : Option ℕ → Revision → ℕ → HistoryMap → Checked ℕ
unfolding latest_at found_item add_count
count_by_revision_impl key value_holder time [] = ok 0
count_by_revision_impl key value_holder time ((id, history) ∷ data_) = do
  found ← found_item key value_holder (latest_at time history)
  rest ← count_by_revision_impl key value_holder time data_
  ok (add_count found rest)

unfoldable pub add_available : ℕ → Option Revision → List ℕ → List ℕ
add_available id none ids = ids
add_available id (some item) ids = id ∷ ids

unfoldable pub available_ids_impl : ℕ → HistoryMap → List ℕ
unfolding latest_at add_available
available_ids_impl time [] = []
available_ids_impl time ((id, history) ∷ data_) =
    add_available id (latest_at time history) (available_ids_impl time data_)

-- The lambda of `trimToTime` and of `itemHistoryImpl`: what is newer goes.
unfoldable pub trim_history : ℕ → History → History
trim_history time [] = []
trim_history time (item ∷ history) =
    let rest = trim_history time history in if leb item.update_time time then item ∷ rest else rest

unfoldable pub trim_to_time : ℕ → HistoryMap → HistoryMap
unfolding trim_history
trim_to_time time [] = []
trim_to_time time ((id, history) ∷ subject) =
    (id, trim_history time history) ∷ trim_to_time time subject

-- `**pair.second.begin()`: an empty history has no first element.
unfoldable pub front : History → Checked Revision
front [] = fatal
front (item ∷ history) = ok item

unfoldable pub select_history : Option ℕ → Revision → HistoryMap → Checked HistoryMap
unfolding item_matches front
select_history key value_holder [] = ok []
select_history key value_holder ((id, history) ∷ data_) = do
  newest ← front history
  matching ← item_matches key value_holder newest
  rest ← select_history key value_holder data_
  ok (if matching then (id, history) ∷ rest else rest)

unfoldable pub find_history_by_revision_impl :
    Option ℕ → Revision → ℕ → HistoryMap → Checked HistoryMap
unfolding select_history trim_to_time
find_history_by_revision_impl key value_holder time data_ = do
  dest ← select_history key value_holder data_
  ok (trim_to_time time dest)

unfoldable pub select_chunk : ℕ → HistoryMap → Checked HistoryMap
unfolding front
select_chunk chunk_id [] = ok []
select_chunk chunk_id ((id, history) ∷ data_) = do
  newest ← front history
  rest ← select_chunk chunk_id data_
  ok (if newest.chunk_id == chunk_id then (id, history) ∷ rest else rest)

unfoldable pub chunk_history : ℕ → ℕ → HistoryMap → Checked HistoryMap
unfolding select_chunk trim_to_time
chunk_history chunk_id time data_ = do
  dest ← select_chunk chunk_id data_
  ok (trim_to_time time dest)

-- `itemHistoryImpl` aborts on an unknown id.
unfoldable pub item_history_impl : ℕ → ℕ → HistoryMap → Checked History
unfolding trim_history
item_history_impl id time data_ = elim (find id data_) [
  | none ↦ fatal
  | some history ↦ ok (trim_history time history)
]
