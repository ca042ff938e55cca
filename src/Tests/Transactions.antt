-- ===== src/Tests/Transactions.antt =====
-- A transaction of the example changes that commits.
use map_api.Prelude.{ℕ, ◌+◌, ◌≡◌, refl, true, false, none, some, [], arith}
use map_api.Prelude.Checked.{ok}
use map_api.Prelude.Map.{find, Unique}
use map_api.Revision.{Revision}
use map_api.View.{chunk_view}
use map_api.Chunk.{Chunk}
use map_api.Chunk.Writes.{written}
use map_api.Delta.{empty}
use map_api.Delta.Committed.{committed_revisions, committed_patches, logged}
use map_api.Transaction.{Transaction}
use map_api.Transaction.Commit.{commit}
use map_api.Transaction.Isolation.{IsKnown, commit-IsKnown}
use map_api.Tests.{item, a_chunk, a_delta, stored_data-IsWellFormed}

abbrev pub a_transaction : Transaction
a_transaction = record {
  begin_time = 5;
  future = none;
  structure_reference = item 0 0;
  commit_history = [];
  delta = a_delta;
  conflict_conditions = [];
  finalized = false;
}

abbrev pub done_transaction : Transaction
done_transaction = record a_transaction { commit_history = logged 9 a_delta []; delta = empty }

abbrev pub committed_chunk : Chunk
committed_chunk = written (committed_revisions 7 9 a_delta) (committed_patches 7 9 a_delta) a_chunk

commits : commit [] a_transaction a_chunk 6 ≡ ok ((true, done_transaction, committed_chunk), 10)
unfolding commit map_api.Chunk.is_write_locked map_api.Chunk.get_update_times
    map_api.LogicalTime.sample map_api.Container.dump map_api.Container.Ram.find_by_revision_impl
    map_api.Tests.stored_data map_api.Prelude.Map.assign map_api.Container.History.placed find
    map_api.Prelude.Map.has map_api.Prelude.Map.emplace map_api.View.Combined.combined_view
    map_api.View.commit_history_view chunk_view
    map_api.Delta.Traverse.has_conflicts_after_trying_to_merge
    map_api.Delta.Commit.checked_commit_locked map_api.Chunk.bulk_insert_locked
    map_api.Container.bulk_insert map_api.Container.Ram.bulk_insert_impl map_api.Chunk.update_locked
    map_api.Chunk.remove_locked map_api.Container.update map_api.Container.remove
    map_api.Container.Bulk.write_all map_api.Container.Ram.patch_impl
    map_api.Delta.Commit.update_all map_api.Delta.Commit.remove_all
    map_api.Delta.Commit.log_commit_event map_api.Revision.structure_match
commits = refl

commit-IsKnown_example : IsKnown 5 none 4
unfolding map_api.Container.Ram.get_by_id_impl find map_api.Tests.stored_data
    map_api.Prelude.Map.assign map_api.Container.History.placed map_api.Prelude.Map.has
commit-IsKnown_example =
    commit-IsKnown [] a_transaction done_transaction a_chunk committed_chunk 6 10
      stored_data-IsWellFormed.unique tt (omega arith) refl commits 3 (item 3 4) refl refl
