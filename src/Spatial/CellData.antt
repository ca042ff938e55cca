-- ===== src/Spatial/CellData.antt =====
-- map-api/src/spatial-index-cell-data.cc, and `localUpdateCallback` of spatial-index.cc: the chunks
-- of a cell and the peers that listen to it. Ids and peers are numbers, in the order of the ids.
use map_api.Prelude.{ℕ, Bool, true, false, List, [], ◌∷◌, ltb, ◌==◌, if◌then◌else◌}
use map_api.Prelude.IdSet.{add}

pub record SpatialIndexCellData : Type 0 where
  pub chunk_ids : List ℕ
  pub listeners : List ℕ

-- The message as it is constructed.
abbrev pub empty_data : SpatialIndexCellData
empty_data = record { chunk_ids = []; listeners = [] }

-- The loop that looks for the element, which is added at the end of a list that does not have it.
unfoldable pub add_if_not_present : ℕ → List ℕ → List ℕ
add_if_not_present id [] = id ∷ []
add_if_not_present id (j ∷ ids) =
    let rest = add_if_not_present id ids in if id == j then j ∷ ids else j ∷ rest

unfoldable pub add_chunk_id_if_not_present : ℕ → SpatialIndexCellData → SpatialIndexCellData
unfolding add_if_not_present
add_chunk_id_if_not_present id data_ = record data_ {
  chunk_ids = add_if_not_present id data_.chunk_ids;
}

unfoldable pub add_listener_if_not_present : ℕ → SpatialIndexCellData → SpatialIndexCellData
unfolding add_if_not_present
add_listener_if_not_present peer data_ = record data_ {
  listeners = add_if_not_present peer data_.listeners;
}

-- `result->emplace`, for each of the elements.
unfoldable pub emplace_ids : List ℕ → List ℕ → List ℕ
emplace_ids [] result = result
emplace_ids (id ∷ ids) result = emplace_ids ids (add id result)

unfoldable pub add_chunk_ids : SpatialIndexCellData → List ℕ → List ℕ
unfolding emplace_ids
add_chunk_ids data_ result = emplace_ids data_.chunk_ids result

unfoldable pub get_chunk_ids : SpatialIndexCellData → List ℕ
get_chunk_ids data_ = data_.chunk_ids

unfoldable pub get_listeners : SpatialIndexCellData → List ℕ
unfolding emplace_ids
get_listeners data_ = emplace_ids data_.listeners []

-- std::sort
unfoldable pub insert_sorted : ℕ → List ℕ → List ℕ
insert_sorted id [] = id ∷ []
insert_sorted id (j ∷ ids) =
    let rest = insert_sorted id ids in if ltb j id then j ∷ rest else id ∷ j ∷ ids

unfoldable pub sort : List ℕ → List ℕ
unfolding insert_sorted
sort [] = []
sort (id ∷ ids) = insert_sorted id (sort ids)

-- std::set_difference, of sorted sequences.
unfoldable pub set_difference : List ℕ → List ℕ → List ℕ
set_difference [] subtrahend = []
set_difference (id ∷ minuend) [] = id ∷ minuend
set_difference (id ∷ minuend) (j ∷ subtrahend) = elim (ltb id j) [
  | true ↦ id ∷ set_difference minuend (j ∷ subtrahend)
  | false ↦ elim (ltb j id) [
    | true ↦ set_difference (id ∷ minuend) subtrahend
    | false ↦ set_difference minuend subtrahend
  ]
]

abbrev pub is_nonempty : List ℕ → Bool
is_nonempty [] = false
is_nonempty (id ∷ ids) = true

-- The result is empty before the call; whether it is after the call is the flag.
unfoldable pub chunk_id_set_diff : SpatialIndexCellData → SpatialIndexCellData → Bool × List ℕ
unfolding get_chunk_ids sort set_difference
chunk_id_set_diff data_ other =
    let result = set_difference (sort (get_chunk_ids data_)) (sort (get_chunk_ids other)) in
    (is_nonempty result, result)

-- A call of `sendTriggerNotification`.
pub record Trigger : Type 0 where
  pub peer : ℕ
  pub position : ℕ
  pub new_chunks : List ℕ

unfoldable pub notify_all : ℕ → List ℕ → List ℕ → List Trigger
notify_all position new_chunks [] = []
notify_all position new_chunks (peer ∷ listeners) =
    record { peer = peer; position = position; new_chunks = new_chunks }
    ∷ notify_all position new_chunks listeners

-- `localUpdateCallback`, with the cell data parsed, and the notifications that it sends.
unfoldable pub local_update_callback :
    ℕ → SpatialIndexCellData → SpatialIndexCellData → List Trigger
unfolding chunk_id_set_diff notify_all
local_update_callback position old_data new_data =
    let outcome = chunk_id_set_diff new_data old_data in
    if outcome.0 then notify_all position outcome.1 new_data.listeners else []
