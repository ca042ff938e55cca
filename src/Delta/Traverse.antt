-- ===== src/Delta/Traverse.antt =====
-- `DeltaView::traverseConflicts` in its two modes, and `DeltaView::tryAutoMerge`. A conflict is a
-- change of an item whose id is among the potential conflicts.
use map_api.Prelude.{ℕ, Bool, true, false, Option, List, [], ◌∷◌, ◌++◌, ◌||◌, if◌then◌else◌}
use map_api.Prelude.Checked.{Checked, ok, ◌>>=◌, check_notnull}
use map_api.Prelude.Map.{Map, has, insert_range}
use map_api.Revision.{Revision, AutoMergePolicy, try_auto_merge}
use map_api.View.{ViewBase}
use map_api.Delta.{Delta}

pub record Conflict : Type 0 where
  pub theirs : Option Revision
  pub ours : Revision

-- The loops over the insertions and over the removes, which bail at the first conflict.
unfoldable pub any_potential : Map Revision → Map ℕ → Bool
any_potential [] potential_conflicts = false
any_potential ((id, r) ∷ items) potential_conflicts =
    if has id potential_conflicts then true else any_potential items potential_conflicts

-- The loop over the removes, after the one over the updates.
unfoldable pub finish_check : Map ℕ → Delta → Bool × Map Revision → Checked (Bool × Delta)
unfolding any_potential
finish_check potential_conflicts delta (conflict, updates') = ok (
  conflict || any_potential delta.removes_ potential_conflicts,
  record delta { updates_ = updates' },
)

module _ (policies : List AutoMergePolicy) (original_view conflict_view : ViewBase) where
  -- `DeltaView::tryAutoMerge` of one updated item, which it may change.
  unfoldable pub try_merge_item : ℕ → Revision → Checked (Bool × Revision)
  try_merge_item id ours = do
    conflicting_pointer ← conflict_view.get id
    original_pointer ← original_view.get id
    conflicting ← check_notnull conflicting_pointer
    original ← check_notnull original_pointer
    try_auto_merge policies conflicting original ours

  unfoldable pub keep_update :
      ℕ → Revision → Checked (Bool × Map Revision) → Checked (Bool × Map Revision)
  keep_update id ours rest = rest >>= λ (conflict, items'). ok (conflict, (id, ours) ∷ items')

  -- What the loop does after an attempt to merge an item: a failure ends it.
  unfoldable pub after_merge :
      ℕ
      → Map Revision
      → Checked (Bool × Map Revision)
      → Bool × Revision
      → Checked (Bool × Map Revision)
  unfolding keep_update
  after_merge id items rest (true, ours') = keep_update id ours' rest
  after_merge id items rest (false, ours') = ok (true, (id, ours') ∷ items)

  -- One round of the loop over the updates, given the rest of the loop.
  unfoldable pub merge_round :
      Bool
      → ℕ
      → Revision
      → Map Revision
      → Checked (Bool × Map Revision)
      → Checked (Bool × Map Revision)
  unfolding keep_update after_merge try_merge_item
  merge_round false id ours items rest = keep_update id ours rest
  merge_round true id ours items rest = try_merge_item id ours >>= after_merge id items rest

  unfoldable pub merge_updates : Map ℕ → Map Revision → Checked (Bool × Map Revision)
  unfolding merge_round try_merge_item
  merge_updates potential_conflicts [] = ok (false, [])
  merge_updates potential_conflicts ((id, ours) ∷ items) =
      merge_round (has id potential_conflicts) id ours items
        (merge_updates potential_conflicts items)

  -- The mode kTryMergeOrBail. The updates are changed by the merges.
  unfoldable pub has_conflicts_after_trying_to_merge : Map ℕ → Delta → Checked (Bool × Delta)
  unfolding merge_updates any_potential finish_check
  has_conflicts_after_trying_to_merge potential_conflicts delta =
      if any_potential delta.insertions_ potential_conflicts
      then ok (true, delta)
      else merge_updates potential_conflicts delta.updates_
        >>= finish_check potential_conflicts delta

module _ (conflict_view : ViewBase) where
  unfoldable pub split_round :
      Bool → ℕ → Revision → Map Revision × List Conflict → Checked (Map Revision × List Conflict)
  split_round false id ours (conflict_free, conflicts) = ok ((id, ours) ∷ conflict_free, conflicts)
  split_round true id ours (conflict_free, conflicts) = conflict_view.get id >>= λ theirs.
      ok (conflict_free, record { theirs = theirs; ours = ours } ∷ conflicts)

  -- One of the three loops of the mode kPrepareManualMerge: the changes without a conflict, and
  -- the conflicts.
  unfoldable pub split : Map ℕ → Map Revision → Checked (Map Revision × List Conflict)
  unfolding split_round
  split potential_conflicts [] = ok ([], [])
  split potential_conflicts ((id, ours) ∷ items) = split potential_conflicts items >>= λ parts.
      split_round (has id potential_conflicts) id ours parts

  -- `prepareManualMerge`: the changes without a conflict are put into the given delta.
  unfoldable pub prepare_manual_merge : Map ℕ → Delta → Delta → Checked (Delta × List Conflict)
  unfolding split
  prepare_manual_merge potential_conflicts delta conflict_free_part = do
    (insertions, c1) ← split potential_conflicts delta.insertions_
    (updates, c2) ← split potential_conflicts delta.updates_
    (removes, c3) ← split potential_conflicts delta.removes_
    ok (
      record {
        insertions_ = insert_range conflict_free_part.insertions_ insertions;
        updates_ = insert_range conflict_free_part.updates_ updates;
        removes_ = insert_range conflict_free_part.removes_ removes;
      },
      c1 ++ (c2 ++ c3),
    )
