-- ===== src/WholeTransaction/Merge.antt =====
-- map-api/src/transaction.cc, `merge`: the changes without conflicts go to another transaction.
use map_api.Prelude.{ℕ, ◌+◌, List, [], ◌∷◌, ltb, ◌==◌, if◌then◌else◌}
use map_api.Prelude.Map.{Map, has, emplace}
use map_api.Prelude.IdSet.{size}
use map_api.LogicalTime.{Timed, ◌>>=◌, ◌>>◌, pure, lift, assert}
use map_api.Prelude.{not}
use map_api.Chunk.{Chunk}
use map_api.Delta.Traverse.{Conflict}
use map_api.TableTransaction
use map_api.TableTransaction.{Entry}
use map_api.TableTransaction.Items.{begin_table_transaction}
use map_api.TableTransaction.Merge
use map_api.WholeTransaction.{WholeTransaction}

-- `if (!sub_conflicts.empty())`, and the check that the table has no conflicts yet.
unfoldable pub keep_conflicts :
    ℕ → List Conflict → Map (List Conflict) → Timed (Map (List Conflict))
keep_conflicts table [] conflicts = pure conflicts
keep_conflicts table (c ∷ cs) conflicts =
    assert (not (has table conflicts)) >>= λ _. pure (emplace table (c ∷ cs) conflicts)

-- What follows the merge of one table transaction.
unfoldable pub merged_table :
    ℕ
    → List Entry
    → Map (List Entry) × Map (List Conflict)
    → List Entry × List Conflict
    → Timed (Map (List Entry) × Map (List Conflict))
unfolding keep_conflicts
merged_table table entries (merged, conflicts) (merge_entries, sub_conflicts) = do
  total ← lift (TableTransaction.num_changed_items entries)
  changed ← lift (TableTransaction.num_changed_items merge_entries)
  assert (total == changed + size sub_conflicts)
  conflicts' ← keep_conflicts table sub_conflicts conflicts
  pure (if ltb 0 changed then emplace table merge_entries merged else merged, conflicts')

-- One round of the loop. `chunks` gives the chunks of each table that the workspace contains.
unfoldable pub merge_table :
    (ℕ → List Chunk)
    → ℕ
    → ℕ
    → List Entry
    → Map (List Entry) × Map (List Conflict)
    → Timed (Map (List Entry) × Map (List Conflict))
unfolding merged_table
merge_table chunks begin_time table entries result =
    begin_table_transaction (chunks table) begin_time >>= λ t.
    Merge.merge t.begin_time t.chunk_transactions entries >>= merged_table table entries result

unfoldable pub merge_loop :
    (ℕ → List Chunk)
    → ℕ
    → Map (List Entry)
    → Map (List Entry) × Map (List Conflict)
    → Timed (Map (List Entry) × Map (List Conflict))
unfolding merge_table
merge_loop chunks begin_time [] result = pure result
merge_loop chunks begin_time ((table, entries) ∷ tables) result =
    merge_table chunks begin_time table entries result >>= merge_loop chunks begin_time tables

unfoldable pub merge :
    (ℕ → List Chunk)
    → WholeTransaction
    → WholeTransaction
    → Timed (WholeTransaction × Map (List Conflict))
unfolding merge_loop
merge chunks t merge_transaction =
    merge_loop chunks merge_transaction.begin_time t.tables (merge_transaction.tables, [])
    >>= λ (merged, conflicts). pure (record merge_transaction { tables = merged }, conflicts)
