-- ===== src/Workspace.antt =====
-- map-api/src/workspace.cc: the part of the tables and chunks that a transaction sees. A table is a
-- number that stands for its pointer. The chunks that are active in a table are a parameter of the
-- loop over the chunks, and what the loop does with a chunk is to list its id.
pub mod Visits
use map_api.Prelude.{
  ℕ, Bool, true, false, not, Option, none, some, List, [], ◌∷◌, ◌&&◌, ◌||◌, if◌then◌else◌,
}
use map_api.Prelude.Map.{find, assign}
use map_api.Prelude.IdSet.{contains, add}
use map_api.Revision.{Revision}
use map_api.Trackees.{Trackees, trackees_of, deserialize, merge}

pub record Workspace : Type 0 where
  pub table_blacklist : List ℕ
  pub table_whitelist : List ℕ
  pub chunk_blacklist : Trackees
  pub chunk_whitelist : Trackees

abbrev pub is_empty {ℓ} : {A : Type ℓ} → List A → Bool
is_empty [] = true
is_empty (x ∷ xs) = false

-- `black_found && …`
unfoldable pub is_blacklisted : ℕ → Option (List ℕ) → Bool
is_blacklisted id none = false
is_blacklisted id (some black_submap) = contains id black_submap

-- `!white_found || …`
unfoldable pub is_allowed : ℕ → Option (List ℕ) → Bool
is_allowed id none = true
is_allowed id (some white_submap) = is_empty white_submap || contains id white_submap

-- `contains(table, id)`
unfoldable pub contains_chunk : Workspace → ℕ → ℕ → Bool
unfolding is_blacklisted is_allowed
contains_chunk w table id =
    if is_empty w.table_blacklist
      && is_empty w.table_whitelist
      && is_empty w.chunk_blacklist
      && is_empty w.chunk_whitelist
    then true
    else if contains table w.table_blacklist || is_blacklisted id (find table w.chunk_blacklist)
    then false
    else is_allowed id (find table w.chunk_whitelist)
      && (is_empty w.table_whitelist || contains table w.table_whitelist)

-- `contains(table)`
unfoldable pub contains_table : Workspace → ℕ → Bool
contains_table w table =
    if is_empty w.table_blacklist && is_empty w.table_whitelist
    then true
    else if contains table w.table_blacklist
    then false
    else is_empty w.table_whitelist || contains table w.table_whitelist

-- `merge(trackees)`, then `[tracker_table].emplace(chunk_id)`
unfoldable pub merge_trackees : Revision → ℕ → Trackees → Trackees
merge_trackees revision tracker_table m =
    let merged = (merge m (deserialize revision.chunk_tracking [])).0 in
    assign tracker_table (add revision.chunk_id (trackees_of tracker_table merged)) merged

unfoldable pub merge_revision_trackees_into_blacklist : Revision → ℕ → Workspace → Workspace
unfolding merge_trackees
merge_revision_trackees_into_blacklist revision tracker_table w = record w {
  chunk_blacklist = merge_trackees revision tracker_table w.chunk_blacklist;
}

unfoldable pub merge_revision_trackees_into_whitelist : Revision → ℕ → Workspace → Workspace
unfolding merge_trackees
merge_revision_trackees_into_whitelist revision tracker_table w = record w {
  chunk_whitelist = merge_trackees revision tracker_table w.chunk_whitelist;
}

-- The loop over the chunks, with the filter of the blacklist.
unfoldable pub visit : Option (List ℕ) → List ℕ → List ℕ
unfolding is_blacklisted
visit black [] = []
visit black (id ∷ ids) =
    let rest = visit black ids in if is_blacklisted id black then rest else id ∷ rest

-- The chunks that the loop is over.
unfoldable pub candidates : Option (List ℕ) → List ℕ → List ℕ
candidates none active = active
candidates (some white_submap) active = if is_empty white_submap then active else white_submap

-- `TableInterface::forEachChunk`
unfoldable pub for_each_chunk : Workspace → ℕ → List ℕ → List ℕ
unfolding contains_table visit candidates
for_each_chunk w table active =
    if contains_table w table
    then visit (find table w.chunk_blacklist) (candidates (find table w.chunk_whitelist) active)
    else []
