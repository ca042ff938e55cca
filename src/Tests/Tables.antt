-- ===== src/Tests/Tables.antt =====
-- Commits of a table of one chunk: one that succeeds, and one that fails.
use map_api.Prelude.{ℕ, ◌≡◌, refl, true, false, List, [], ◌∷◌}
use map_api.Prelude.Checked.{ok}
use map_api.Chunk.{Chunk}
use map_api.Delta.{empty}
use map_api.TableTransaction.{Entry, commit, has_no_conflicts}
use map_api.Tests.{item, a_chunk, a_delta}
use map_api.Tests.Transactions.{a_transaction, done_transaction, committed_chunk}

abbrev pub entries : List Entry
entries = record { transaction = a_transaction; chunk = a_chunk } ∷ []

abbrev pub done_entries : List Entry
done_entries = record { transaction = done_transaction; chunk = committed_chunk } ∷ []

-- It began before item 1 was updated, and removes it.
abbrev pub late_entries : List Entry
late_entries =
    record {
      transaction = record a_transaction {
        begin_time = 4;
        delta = record empty { removes_ = (1, item 1 5) ∷ [] };
      };
      chunk = a_chunk;
    }
    ∷ []

table_commits : commit [] entries 6 ≡ ok ((true, done_entries), 10)
unfolding map_api.TableTransaction.commit map_api.Transaction.Commit.has_no_conflicts
    map_api.Transaction.Commit.checked_commit map_api.Chunk.is_write_locked
    map_api.Chunk.get_update_times map_api.LogicalTime.sample map_api.Container.dump
    map_api.Container.Ram.find_by_revision_impl map_api.Tests.stored_data map_api.Prelude.Map.assign
    map_api.Container.History.placed map_api.Prelude.Map.find map_api.Prelude.Map.has
    map_api.Prelude.Map.emplace map_api.View.Combined.combined_view map_api.View.commit_history_view
    map_api.View.chunk_view map_api.Delta.Traverse.has_conflicts_after_trying_to_merge
    map_api.Delta.Commit.checked_commit_locked map_api.Chunk.bulk_insert_locked
    map_api.Container.bulk_insert map_api.Container.Ram.bulk_insert_impl map_api.Chunk.update_locked
    map_api.Chunk.remove_locked map_api.Container.update map_api.Container.remove
    map_api.Container.Bulk.write_all map_api.Container.Ram.patch_impl
    map_api.Delta.Commit.update_all map_api.Delta.Commit.remove_all
    map_api.Delta.Commit.log_commit_event map_api.Revision.structure_match
table_commits = refl

late_entries_fail : commit [] late_entries 6 ≡ ok ((false, late_entries), 9)
unfolding map_api.TableTransaction.commit map_api.Transaction.Commit.has_no_conflicts
    map_api.Transaction.Commit.checked_commit map_api.Chunk.is_write_locked
    map_api.Chunk.get_update_times map_api.LogicalTime.sample map_api.Container.dump
    map_api.Container.Ram.find_by_revision_impl map_api.Tests.stored_data map_api.Prelude.Map.assign
    map_api.Container.History.placed map_api.Prelude.Map.find map_api.Prelude.Map.has
    map_api.Prelude.Map.emplace map_api.View.Combined.combined_view map_api.View.commit_history_view
    map_api.View.chunk_view map_api.Delta.Traverse.has_conflicts_after_trying_to_merge
    map_api.Delta.Commit.checked_commit_locked map_api.Chunk.bulk_insert_locked
    map_api.Container.bulk_insert map_api.Container.Ram.bulk_insert_impl map_api.Chunk.update_locked
    map_api.Chunk.remove_locked map_api.Container.update map_api.Container.remove
    map_api.Container.Bulk.write_all map_api.Container.Ram.patch_impl
    map_api.Delta.Commit.update_all map_api.Delta.Commit.remove_all
    map_api.Delta.Commit.log_commit_event map_api.Revision.structure_match
late_entries_fail = refl
