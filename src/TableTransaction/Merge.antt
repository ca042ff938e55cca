-- ===== src/TableTransaction/Merge.antt =====
-- map-api/src/net-table-transaction.cc, `merge`: the changes of each chunk that are not in conflict
-- go to a new chunk transaction of the other table transaction.
use map_api.Prelude.{ℕ, ◌+◌, none, List, [], ◌∷◌, ◌++◌, ltb, ◌==◌, if◌then◌else◌}
use map_api.Prelude.IdSet.{size}
use map_api.LogicalTime.{Timed, ◌>>=◌, ◌>>◌, pure, lift, assert}
use map_api.Transaction
use map_api.Transaction.{Transaction, begin_transaction}
use map_api.Transaction.Commit
use map_api.Delta.Traverse.{Conflict}
use map_api.TableTransaction.{Entry}
use map_api.TableTransaction.Items.{insert_entry}

-- `if (merge_chunk_transaction->numChangedItems() > 0u)`
unfoldable pub keep_changed : ℕ → Entry → List Entry → List Entry
keep_changed changed e merged = if ltb 0 changed then insert_entry e merged else merged

-- What follows the merge of one chunk transaction.
unfoldable pub merged_entry :
    Entry
    → List Entry × List Conflict
    → Transaction × List Conflict
    → Timed (List Entry × List Conflict)
unfolding keep_changed
merged_entry e (merged, conflicts) (merge_chunk_transaction, sub_conflicts) = do
  total ← lift (Transaction.num_changed_items e.transaction)
  changed ← lift (Transaction.num_changed_items merge_chunk_transaction)
  assert (total == changed + size sub_conflicts)
  pure (
    keep_changed changed (record e { transaction = merge_chunk_transaction }) merged,
    conflicts ++ sub_conflicts,
  )

-- One round of the loop.
unfoldable pub merge_entry :
    ℕ → Entry → List Entry × List Conflict → Timed (List Entry × List Conflict)
unfolding merged_entry
merge_entry begin_time e result =
    begin_transaction begin_time none e.chunk >>= λ merge_chunk_transaction.
    Commit.merge e.transaction merge_chunk_transaction e.chunk >>= merged_entry e result

unfoldable pub merge_loop :
    ℕ → List Entry → List Entry × List Conflict → Timed (List Entry × List Conflict)
unfolding merge_entry
merge_loop begin_time [] result = pure result
merge_loop begin_time (e ∷ entries) result =
    merge_entry begin_time e result >>= merge_loop begin_time entries

-- The begin time and the chunk transactions are those of the transaction that is merged into.
unfoldable pub merge : ℕ → List Entry → List Entry → Timed (List Entry × List Conflict)
unfolding merge_loop
merge begin_time merged entries = merge_loop begin_time entries (merged, [])
