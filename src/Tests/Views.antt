-- ===== src/Tests/Views.antt =====
-- Views of the example chunk.
use map_api.Prelude.{
  ℕ, ◌≡◌, refl, Bool, true, false, none, some, List, [], ◌∷◌, arith, ltb, is_some,
}
use map_api.Prelude.Checked.{ok}
use map_api.Prelude.Map.{Map, find, has}
use map_api.Prelude.IdSet.{contains}
use map_api.Revision.{Revision}
use map_api.Container.Ram.{get_by_id_impl}
use map_api.View.{chunk_view, commit_history_view, commit_future_view}
use map_api.View.Combined.{combined_view}
use map_api.View.Shows.{
  Shows, layered, committed, committed_removal, combined_view-Shows, chunk_view-Shows,
  commit_history_view-Overrides, commit_future_view-Shows,
}
use map_api.View.Dump.{Dumps, combined_dump_stale}
use map_api.View.Updates.{unseen, find-discard_known_updates}
use map_api.View.Ids.{combined_ids_incomplete}
use map_api.Delta.{Delta, delta_view}
use map_api.Delta.Invariant.{IsSeparate, updating, run-IsSeparate, empty-IsSeparate}
use map_api.Delta.Overlay.{delta_items, delta_removes, delta_view-Overrides, delta_view-Dumps}
use map_api.Delta
use map_api.Tests.{item, stored_data, a_container}

combined_view-Shows_example :
    Shows
      (combined_view (chunk_view a_container 5) (commit_history_view ((3, 4) ∷ []) a_container))
      (layered
        (committed ((3, 4) ∷ []) a_container)
        (committed_removal ((3, 4) ∷ []) a_container)
        (λ id. get_by_id_impl id 5 stored_data))
combined_view-Shows_example =
    combined_view-Shows (chunk_view a_container 5) (commit_history_view ((3, 4) ∷ []) a_container)
      (λ id. get_by_id_impl id 5 stored_data) (committed ((3, 4) ∷ []) a_container)
      (committed_removal ((3, 4) ∷ []) a_container) (chunk_view-Shows a_container 5)
      (commit_history_view-Overrides ((3, 4) ∷ []) a_container)

find-discard_known_updates_example :
    (left : Map ℕ) × ((combined_view
          (chunk_view a_container 4)
          (commit_history_view ((3, 4) ∷ []) a_container)).discard_known_updates
        ((1, 5) ∷ (3, 4) ∷ [])
      ≡ ok left)
    × ((id : ℕ) → find id left ≡ unseen 4 (find id ((3, 4) ∷ [])) (find id ((1, 5) ∷ (3, 4) ∷ [])))
unfolding map_api.Prelude.Map.has
find-discard_known_updates_example =
    find-discard_known_updates ((3, 4) ∷ []) ((1, 5) ∷ (3, 4) ∷ []) a_container 4 (refl, tt)
      (refl, (refl, tt))

-- An update of item 1 over a state with the items 1 and 2.
abbrev updated_delta : Delta
updated_delta = record { insertions_ = []; updates_ = (1, item 1 8) ∷ []; removes_ = [] }

updated_delta-IsSeparate : IsSeparate updated_delta
unfolding Delta.update map_api.Prelude.Map.has map_api.Prelude.Map.assign
updated_delta-IsSeparate =
    run-IsSeparate (updating (item 1 8) ∷ []) Delta.empty updated_delta empty-IsSeparate refl

abbrev state : Map Revision
state = (1, item 1 5) ∷ (2, item 2 5) ∷ []

state-Dumps : Dumps (commit_future_view state) (λ id. find id state) 9 9
unfolding commit_future_view map_api.Prelude.Map.insert_range map_api.Prelude.Map.emplace
    map_api.Prelude.Map.has
state-Dumps = (state, refl, λ id. refl, (refl, (refl, tt)))

state_valid : (id : ℕ) (r : Revision) → find id state ≡ some r → (ltb 0 id) ≡ true
unfolding find
state_valid id r e = ground arith

combined_dump_stale_example :
    ((combined_view (commit_future_view state) (delta_view updated_delta)).get 1
      ≡ ok (some (item 1 8)))
    × (result : Map Revision) × ((combined_view
            (commit_future_view state)
            (delta_view updated_delta)).dump
          9
        ≡ ok (result, 9))
    × (find 1 result ≡ some (item 1 5))
unfolding find has
combined_dump_stale_example =
    combined_dump_stale (commit_future_view state) (delta_view updated_delta) (λ id. find id state)
      (delta_items updated_delta) (delta_removes updated_delta)
      (delta_view-Overrides updated_delta updated_delta-IsSeparate) state_valid 9 9 9 1 (item 1 5)
      (item 1 8) (commit_future_view-Shows state)
      (delta_view-Dumps updated_delta 9 updated_delta-IsSeparate) state-Dumps refl refl refl

updated_ids : (delta_view updated_delta).get_available_ids ≡ ok (1 ∷ [])
unfolding delta_view map_api.Prelude.IdSet.add contains
updated_ids = refl

updated_ids-items : (j : ℕ) → contains j (1 ∷ []) ≡ is_some (delta_items updated_delta j)
unfolding contains find has
updated_ids-items j = ground arith

combined_ids_incomplete_example :
    ((combined_view (commit_future_view state) (delta_view updated_delta)).get 2
      ≡ ok (some (item 2 5)))
    × ((combined_view (commit_future_view state) (delta_view updated_delta)).get_available_ids
        ≡ ok (1 ∷ []))
    × (contains 2 (1 ∷ []) ≡ false)
unfolding commit_future_view find has
combined_ids_incomplete_example =
    combined_ids_incomplete (commit_future_view state) (delta_view updated_delta)
      (λ id. find id state) (delta_items updated_delta) (delta_removes updated_delta) (1 ∷ [])
      (1 ∷ 2 ∷ []) 2 (item 2 5) (commit_future_view-Shows state)
      (delta_view-Overrides updated_delta updated_delta-IsSeparate) updated_ids updated_ids-items
      refl (refl, (refl, tt)) refl refl refl refl
