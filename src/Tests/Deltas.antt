-- ===== src/Tests/Deltas.antt =====
-- Changes, conflicts and merges of the example transaction.
use map_api.Prelude.{◌&&◌, ℕ, ◌≡◌, ◌+◌, refl, true, false, none, some, List, [], ◌∷◌, arith}
use map_api.Prelude.Checked.{ok}
use map_api.Prelude.Map.{Map, find, has}
use map_api.Prelude.IdSet.{size}
use map_api.Revision.{Revision}
use map_api.Container.Ram.{get_by_id_impl}
use map_api.View.{chunk_view, commit_future_view}
use map_api.View.Shows.{layered, chunk_view-Shows}
use map_api.Delta.{Delta, empty, num_changes}
use map_api.Delta.Invariant.{IsSeparate, inserting, updating, run-IsSeparate, empty-IsSeparate}
use map_api.Delta.Overlay.{delta_items, delta_removes, after, apply-layered}
use map_api.Delta.Traverse.{Conflict, prepare_manual_merge, has_conflicts_after_trying_to_merge}
use map_api.Delta.Split.{AllConflicts, HasConflicts}
use map_api.Delta.Conflicts.{WithoutConflicts, IsChange, prepare_manual_merge_lem}
use map_api.Delta.AutoMerge.{AllMerged, passes_check}
use map_api.Tests.{
  item, some_changes, a_delta, a_delta-IsSeparate, run-some_changes, stored_data, a_container,
}

run-IsSeparate_example : IsSeparate a_delta
run-IsSeparate_example = run-IsSeparate some_changes empty a_delta empty-IsSeparate run-some_changes

abbrev inserted_delta : Delta
inserted_delta = record { insertions_ = (2, item 2 0) ∷ []; updates_ = []; removes_ = [] }

inserted_delta-IsSeparate : IsSeparate inserted_delta
unfolding map_api.Delta.insert has map_api.Prelude.Map.emplace
inserted_delta-IsSeparate =
    run-IsSeparate (inserting (item 2 0) ∷ []) empty inserted_delta empty-IsSeparate refl

abbrev updated_delta : Delta
updated_delta = record {
  insertions_ = (2, item 2 0) ∷ [];
  updates_ = (1, item 1 5) ∷ [];
  removes_ = [];
}

apply-layered_example :
    layered
      (delta_items updated_delta)
      (delta_removes updated_delta)
      (λ id. get_by_id_impl id 5 stored_data)
      1
    ≡ after (updating (item 1 5)) inserted_delta (λ id. get_by_id_impl id 5 stored_data) 1
unfolding map_api.Delta.update has map_api.Prelude.Map.assign
apply-layered_example =
    apply-layered (updating (item 1 5)) inserted_delta updated_delta
      (λ id. get_by_id_impl id 5 stored_data) 1 inserted_delta-IsSeparate refl

prepare_manual_merge_lem_example :
    (free : Delta) × (conflicts : List Conflict) × (prepare_manual_merge
        (chunk_view a_container 5)
        ((1, 5) ∷ [])
        a_delta
        empty
      ≡ ok (free, conflicts))
    × WithoutConflicts ((1, 5) ∷ []) a_delta free
    × AllConflicts
        ((1, 5) ∷ [])
        (λ id. get_by_id_impl id 5 stored_data)
        (IsChange a_delta)
        conflicts
    × HasConflicts
        ((1, 5) ∷ [])
        (λ id. get_by_id_impl id 5 stored_data)
        (IsChange a_delta)
        conflicts
    × (num_changes a_delta ≡ num_changes free + size conflicts)
prepare_manual_merge_lem_example =
    prepare_manual_merge_lem (chunk_view a_container 5) (λ id. get_by_id_impl id 5 stored_data)
      ((1, 5) ∷ []) a_delta (chunk_view-Shows a_container 5) a_delta-IsSeparate

-- The item as another peer and this transaction left it: neither changed a field.
abbrev original_state : Map Revision
original_state = (1, item 1 5) ∷ []

abbrev merged_update : Map Revision
merged_update = (1, item 1 5) ∷ []

-- Another peer updated item 1.
abbrev potential : Map ℕ
potential = (1, 5) ∷ []

passes_check_example :
    ((id : ℕ) → (has id updated_delta.insertions_ && has id potential) ≡ false)
    × ((id : ℕ) → (has id updated_delta.removes_ && has id potential) ≡ false)
    × AllMerged []
        (commit_future_view original_state)
        (commit_future_view original_state)
        potential
        updated_delta.updates_
        merged_update
    × (updated_delta.insertions_ ≡ updated_delta.insertions_)
    × (updated_delta.removes_ ≡ updated_delta.removes_)
unfolding has_conflicts_after_trying_to_merge has commit_future_view find
    map_api.Revision.try_auto_merge map_api.Revision.are_all_custom_fields_equal
    map_api.Trackees.merge map_api.Trackees.deserialize
passes_check_example =
    passes_check [] (commit_future_view original_state) (commit_future_view original_state)
      potential updated_delta updated_delta refl
