-- ===== src/Trackees.antt =====
-- map-api/src/internal/trackee-multimap.cc: which chunks an item tracks, by table. A table stands
-- for the pointer `NetTable*` that `NetTableManager::getTable` gives for its name, so tables are
-- numbers, and the name of a table is the table.
pub mod Merge
pub mod Compare
use map_api.Prelude.{
  ℕ, Bool, true, false, Option, none, some, List, [], ◌∷◌, ◌==◌, ◌&&◌, ◌||◌, if◌then◌else◌, not,
}
use map_api.Prelude.Map.{Map, find, has, assign, emplace}
use map_api.Prelude.IdSet.{size, contains, add, same_set, is_subset}

abbrev pub Trackees : Type 0
Trackees = Map (List ℕ)

-- A repeated field of `TableChunkTracking` messages: table name and chunk ids.
abbrev pub ChunkTracking : Type 0
ChunkTracking = List (ℕ × List ℕ)

-- The set that operator[] gives: an empty one is made for a new table.
unfoldable pub trackees_of : ℕ → Trackees → List ℕ
trackees_of table m = elim (find table m) [ none ↦ [] | some ids ↦ ids ]

-- operator[](table).emplace(chunk_id), for each of the ids
deserialize_table : ℕ → List ℕ → Trackees → Trackees
unfolding trackees_of
deserialize_table table [] m = m
deserialize_table table (chunk_id ∷ ids) m =
    deserialize_table table ids (assign table (add chunk_id (trackees_of table m)) m)

-- The map is not cleared before.
unfoldable pub deserialize : ChunkTracking → Trackees → Trackees
unfolding deserialize_table
deserialize [] m = m
deserialize ((table, ids) ∷ proto) m = deserialize proto (deserialize_table table ids m)

unfoldable pub serialize : Trackees → ChunkTracking
serialize [] = []
serialize ((table, ids) ∷ m) = (table, ids) ∷ serialize m

-- The inner loop of `merge`, with its flag `has_change`.
emplace_all : List ℕ → List ℕ → List ℕ × Bool
emplace_all [] found = (found, false)
emplace_all (trackee ∷ trackees) found =
    let (merged, change) = emplace_all trackees (add trackee found) in
    (merged, if contains trackee found then change else true)

merge_found : ℕ → List ℕ → Option (List ℕ) → Trackees → Trackees × Bool
unfolding emplace_all
merge_found table trackees none m = (emplace table trackees m, true)
merge_found table trackees (some found) m =
    let (merged, change) = emplace_all trackees found in (assign table merged m, change)

merge_table : ℕ → List ℕ → Trackees → Trackees × Bool
unfolding merge_found
merge_table table trackees m = merge_found table trackees (find table m) m

unfoldable pub merge : Trackees → Trackees → Trackees × Bool
unfolding merge_table
merge m [] = (m, false)
merge m ((table, trackees) ∷ other) =
    let (m', change) = merge_table table trackees m in
    let (merged, later) = merge m' other in (merged, change || later)

overlap_table : List ℕ → Option (List ℕ) → Bool
overlap_table trackees none = false
overlap_table trackees (some found) = not (is_subset trackees found)

-- The code tests `found->second.find(trackee) == found->second.end()`.
unfoldable pub has_overlap : Trackees → Trackees → Bool
unfolding overlap_table
has_overlap [] other = false
has_overlap ((table, trackees) ∷ m) other =
    overlap_table trackees (find table other) || has_overlap m other

same_table : List ℕ → Option (List ℕ) → Bool
same_table trackees none = false
same_table trackees (some found) = same_set trackees found

same_tables : Trackees → Trackees → Bool
unfolding same_table
same_tables [] other = true
same_tables ((table, trackees) ∷ m) other =
    same_table trackees (find table other) && same_tables m other

unfoldable pub is_same_verbose : Trackees → Trackees → Bool
unfolding same_tables
is_same_verbose m other = (size m == size other) && same_tables m other

-- Does the map hold the chunk under the table?
unfoldable pub tracks : ℕ → ℕ → Trackees → Bool
unfolding trackees_of
tracks table chunk_id m = contains chunk_id (trackees_of table m)
