-- ===== src/Tests/WholeTransactions.antt =====
-- Transactions on the table 1, which has the one chunk of the examples.
use map_api.Prelude.{
  ℕ, ◌+◌, ◌≡◌, refl, Bool, true, false, Option, none, some, List, [], ◌∷◌, ◌==◌, ◌&&◌, arith,
  if◌then◌else◌,
}
use map_api.Prelude.Checked.{ok, fatal}
use map_api.Prelude.Map.{Map, find}
use map_api.Prelude.IdSet.{size, contains}
use map_api.Revision.{Revision}
use map_api.Chunk.{Chunk}
use map_api.Delta.{empty}
use map_api.Delta.Traverse.{Conflict}
use map_api.TableTransaction
use map_api.TableTransaction.{Entry}
use map_api.TableTransaction.Items.{
  NetTableTransaction, begin_table_transaction, insert, update, get_by_id,
  refresh_id_to_chunk_id_map,
}
use map_api.TableTransaction.Merge.{merge}
use map_api.TableTransaction.Order.{IsOrdered}
use map_api.TableTransaction.Counts.{merge-counted}
use map_api.TableTransaction.Reachable.{IsConsistent}
use map_api.TableTransaction.Steps.{begun, then_step, inserting_item, Reach-IsConsistent}
use map_api.TableTransaction.Own.{get_by_id-insert, refresh-forgotten}
use map_api.WholeTransaction.{WholeTransaction, cache}
use map_api.WholeTransaction.Commit.{CommitFutureTree, has_no_conflicts, commit_impl}
use map_api.WholeTransaction.Atomicity.{chunks_by_table, commit_impl-chunks_kept}
use map_api.Transaction.{Transaction}
use map_api.Tests.{item, a_chunk, stored_data-IsWellFormed, a_delta-IsSeparate}
use map_api.Tests.Transactions.{a_transaction}
use map_api.Tests.Tables.{done_entries, late_entries}

abbrev whole : List Entry → WholeTransaction
whole chunk_transactions = record {
  begin_time = 5;
  commit_time = 0;
  tables = (1, chunk_transactions) ∷ [];
  access_mode = (1, cache) ∷ [];
  cache_access_override = 4 ∷ [];
  finalized = false;
}

abbrev whole_committed : WholeTransaction
whole_committed = record (whole done_entries) { commit_time = 9 }

fails :
    commit_impl (λ table. []) false false (whole late_entries) 6
    ≡ ok ((false, whole late_entries, []), 9)
unfolding map_api.WholeTransaction.Commit.commit_impl map_api.TableTransaction.has_no_conflicts
    map_api.TableTransaction.checked_commit map_api.Transaction.Commit.has_no_conflicts
    map_api.Transaction.Commit.checked_commit map_api.Chunk.is_write_locked
    map_api.Chunk.get_update_times map_api.LogicalTime.sample map_api.Container.dump
    map_api.Container.Ram.find_by_revision_impl map_api.Tests.stored_data map_api.Prelude.Map.assign
    map_api.Container.History.placed map_api.Prelude.Map.find map_api.Prelude.Map.has
    map_api.Prelude.Map.emplace map_api.View.Combined.combined_view map_api.View.commit_history_view
    map_api.View.chunk_view map_api.Delta.Traverse.has_conflicts_after_trying_to_merge
    map_api.Delta.Commit.checked_commit_locked map_api.Chunk.bulk_insert_locked
    map_api.Container.bulk_insert map_api.Container.Ram.bulk_insert_impl map_api.Chunk.update_locked
    map_api.Chunk.remove_locked map_api.Container.update map_api.Container.remove
    map_api.Container.Bulk.write_all map_api.Container.Ram.patch_impl
    map_api.Delta.Commit.update_all map_api.Delta.Commit.remove_all
    map_api.Delta.Commit.log_commit_event map_api.Revision.structure_match
fails = refl

commit_impl-chunks_kept_example :
    chunks_by_table ((1, late_entries) ∷ []) ≡ chunks_by_table ((1, late_entries) ∷ [])
commit_impl-chunks_kept_example =
    commit_impl-chunks_kept (λ table. []) false false (whole late_entries) (whole late_entries) [] 6
      9 fails

abbrev first_state : NetTableTransaction
first_state = record {
  chunk_transactions = [];
  begin_time = 5;
  finalized = false;
  item_id_to_chunk_id_map = [];
}

abbrev own_transaction : Transaction
own_transaction = record {
  begin_time = 5;
  future = none;
  structure_reference = item 0 0;
  commit_history = [];
  delta = record empty { insertions_ = (2, item 2 0) ∷ [] };
  conflict_conditions = [];
  finalized = false;
}

abbrev second_state : NetTableTransaction
second_state = record first_state {
  chunk_transactions = record { transaction = own_transaction; chunk = a_chunk } ∷ [];
  item_id_to_chunk_id_map = (2, 7) ∷ [];
}

begins : begin_table_transaction [] 5 6 ≡ ok (first_state, 7)
unfolding begin_table_transaction map_api.LogicalTime.sample
begins = refl

inserts : insert a_chunk (item 2 0) first_state 7 ≡ ok (second_state, 8)
unfolding insert map_api.TableTransaction.Items.transaction_of
    map_api.TableTransaction.Items.find_entry map_api.Transaction.begin_transaction
    map_api.LogicalTime.sample map_api.Transaction.insert map_api.Revision.structure_match
    map_api.Delta.insert map_api.Prelude.Map.has map_api.TableTransaction.Items.insert_entry
    map_api.Prelude.Map.emplace
inserts = refl

first_state-IsConsistent : IsConsistent first_state
first_state-IsConsistent = (tt, tt)

Reach-IsConsistent_example : IsConsistent second_state
Reach-IsConsistent_example = Reach-IsConsistent second_state (
    then_step first_state second_state (begun [] 5 6 7 first_state begins)
      (inserting_item a_chunk (item 2 0) first_state second_state 7 8 inserts))

abbrev the_chunk : ℕ → Option Chunk
the_chunk id = if id == 7 then some a_chunk else none

get_by_id-insert_example :
    get_by_id the_chunk (λ id. true) 2 second_state 8 ≡ ok ((some (item 2 0), second_state), 8)
get_by_id-insert_example =
    get_by_id-insert the_chunk (λ id. true) a_chunk (item 2 0) first_state second_state 7 8 8
      first_state-IsConsistent inserts refl refl

-- The items 1 and 3 are those of the chunk.
abbrev refreshed_state : NetTableTransaction
refreshed_state = record second_state { item_id_to_chunk_id_map = (1, 7) ∷ (3, 7) ∷ [] }

refreshes : refresh_id_to_chunk_id_map (a_chunk ∷ []) second_state ≡ ok refreshed_state
unfolding refresh_id_to_chunk_id_map map_api.Container.Ram.available_ids_impl
    map_api.Tests.stored_data map_api.Prelude.Map.assign map_api.Container.History.placed find
    map_api.Prelude.Map.has map_api.Prelude.Map.emplace
refreshes = refl

refresh-forgotten_example :
    (get_by_id the_chunk (λ id. true) 2 refreshed_state 8 ≡ ok ((none, refreshed_state), 8))
    × (update the_chunk (item 2 0) refreshed_state 8 ≡ fatal)
unfolding contains map_api.Container.Ram.available_ids_impl map_api.Tests.stored_data
    map_api.Prelude.Map.assign map_api.Container.History.placed find
refresh-forgotten_example =
    refresh-forgotten the_chunk (λ id. true) (a_chunk ∷ []) (item 2 0) second_state refreshed_state
      8 (refl, tt) refreshes

-- The change of item 1 is in conflict.
abbrev early_entries : List Entry
early_entries =
    record { transaction = record a_transaction { begin_time = 4 }; chunk = a_chunk } ∷ []

merge-counted_example :
    (merged : List Entry) × (conflicts : List Conflict) × (n m : ℕ) × (merge 6 [] early_entries 7
      ≡ ok ((merged, conflicts), 11))
    × (TableTransaction.num_changed_items early_entries ≡ ok n)
    × (TableTransaction.num_changed_items merged ≡ ok m)
    × (n ≡ m + size conflicts)
    × IsOrdered merged
merge-counted_example =
    merge-counted 6 early_entries 7 (tt, tt)
      (
        record {
          unconditional = refl;
          detached = refl;
          separate = a_delta-IsSeparate;
          own = tt;
          unique = stored_data-IsWellFormed.unique;
        },
        tt,
      )
      (omega arith) (omega arith)
