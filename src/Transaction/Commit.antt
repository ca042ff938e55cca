-- ===== src/Transaction/Commit.antt =====
-- The check for conflicts, the commit and the merge of a transaction on one chunk.
use map_api.Prelude.{ℕ, Bool, true, false, not, Option, List, [], ◌∷◌, if◌then◌else◌}
use map_api.Prelude.Checked
use map_api.Prelude.Checked.{Checked, ok, check}
use map_api.Prelude.Map.{Map}
use map_api.LogicalTime.{Timed, ◌>>=◌, ◌>>◌, pure, lift, assert, sample}
use map_api.Revision.{Revision, AutoMergePolicy}
use map_api.Container.{find_by_revision}
use map_api.View.{chunk_view}
use map_api.View.Combined.{combined_view}
use map_api.Chunk.{Chunk, is_write_locked, get_update_times}
use map_api.Delta.{Delta, delta_view}
use map_api.Delta.Traverse.{Conflict, has_conflicts_after_trying_to_merge, prepare_manual_merge}
use map_api.Delta.Commit.{checked_commit_locked}
use map_api.Transaction.{Transaction, view_before_delta, no_conditions}

-- `dummy.empty()`
unfoldable pub is_empty : Map Revision → Bool
is_empty [] = true
is_empty (entry ∷ m) = false

-- The loop over the conflict conditions: none of them may find an item.
unfoldable pub conditions_hold : List (Option ℕ × Revision) → Chunk → Timed Bool
unfolding is_empty
conditions_hold [] chunk = pure true
conditions_hold ((key, value_holder) ∷ conditions) chunk =
    let rest = conditions_hold conditions chunk in
    sample >>= λ now. find_by_revision key value_holder now chunk.container >>= λ dummy.
    (if is_empty dummy then rest else pure false)

-- What remains of the check after the delta was traversed.
unfoldable pub check_conditions : Transaction → Chunk → Bool × Delta → Timed (Bool × Transaction)
unfolding conditions_hold
check_conditions t chunk (true, delta') = pure (false, record t { delta = delta' })
check_conditions t chunk (false, delta') = conditions_hold t.conflict_conditions chunk >>= λ holds.
    pure (holds, record t { delta = delta' })

-- The updates of the delta are changed by the merges.
unfoldable pub has_no_conflicts :
    List AutoMergePolicy → Transaction → Chunk → Timed (Bool × Transaction)
unfolding check_conditions
has_no_conflicts policies t chunk = do
  assert (not t.finalized)
  assert (is_write_locked chunk)
  times ← get_update_times chunk
  update_times ← lift ((view_before_delta t chunk).discard_known_updates times)
  now ← sample
  outcome ← lift (
      has_conflicts_after_trying_to_merge policies (view_before_delta t chunk)
        (chunk_view chunk.container now) update_times t.delta)
  check_conditions t chunk outcome

unfoldable pub checked_commit : ℕ → Transaction → Chunk → Checked (Transaction × Chunk)
checked_commit time t chunk =
    Checked.◌>>=◌ (checked_commit_locked time t.delta chunk t.commit_history)
      λ (delta', chunk', history').
        ok (record t { delta = delta'; commit_history = history' }, chunk')

-- The second half of `commit`.
unfoldable pub finish_commit : Chunk → Bool × Transaction → Timed (Bool × Transaction × Chunk)
unfolding checked_commit
finish_commit chunk (false, t) = pure (false, t, chunk)
finish_commit chunk (true, t) = sample >>= λ time.
    lift (checked_commit time t chunk) >>= λ (t', chunk'). pure (true, t', chunk')

-- `commit`, of the locked chunk.
unfoldable pub commit :
    List AutoMergePolicy → Transaction → Chunk → Timed (Bool × Transaction × Chunk)
unfolding has_no_conflicts finish_commit
commit policies t chunk = has_no_conflicts policies t chunk >>= finish_commit chunk

-- The changes without conflicts go to the other transaction.
unfoldable pub merge : Transaction → Transaction → Chunk → Timed (Transaction × List Conflict)
merge t merge_transaction chunk = do
  assert (no_conditions t.conflict_conditions)
  times ← get_update_times chunk
  update_times ← lift ((view_before_delta t chunk).discard_known_updates times)
  now ← sample
  outcome ← lift (
      prepare_manual_merge (chunk_view chunk.container now) update_times t.delta
        merge_transaction.delta)
  pure (record merge_transaction { delta = outcome.0 }, outcome.1)

-- The constructor of a commit future: what the chunk will show once the transaction is committed.
unfoldable pub commit_future : Transaction → Chunk → Timed (Map Revision)
commit_future t chunk = do
  assert t.finalized
  now ← sample
  (combined_view (chunk_view chunk.container now) (delta_view t.delta)).dump
