-- ===== src/Tests/Workspaces.antt =====
-- A workspace without chunk 6 of table 2.
use map_api.Prelude.{ℕ, ◌≡◌, refl, [], ◌∷◌}
use map_api.Prelude.IdSet.{contains}
use map_api.Workspace.{Workspace, contains_chunk, for_each_chunk}
use map_api.Workspace.Visits.{contains-for_each_chunk}

abbrev a_workspace : Workspace
a_workspace = record {
  table_blacklist = 1 ∷ [];
  table_whitelist = [];
  chunk_blacklist = (2, 6 ∷ []) ∷ [];
  chunk_whitelist = (2, 6 ∷ 7 ∷ []) ∷ [];
}

visited : for_each_chunk a_workspace 2 (5 ∷ 6 ∷ 7 ∷ []) ≡ 7 ∷ []
unfolding map_api.Workspace.contains_table map_api.Workspace.visit map_api.Workspace.candidates
    map_api.Workspace.is_blacklisted map_api.Workspace.for_each_chunk contains
    map_api.Prelude.Map.find
visited = refl

contains-for_each_chunk_example :
    contains 7 (for_each_chunk a_workspace 2 (5 ∷ 6 ∷ 7 ∷ [])) ≡ contains_chunk a_workspace 2 7
unfolding contains
contains-for_each_chunk_example = contains-for_each_chunk a_workspace 2 7 (5 ∷ 6 ∷ 7 ∷ []) refl
