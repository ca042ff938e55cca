-- ===== src/Delta/Commit.antt =====
-- `DeltaView::checkedCommitLocked` and `RevisionEventMap::logCommitEvent`.
use map_api.Prelude.{ℕ, [], ◌∷◌}
use map_api.Prelude.Checked.{Checked, ok, ◌>>=◌, ◌>>◌, check}
use map_api.Prelude.Map.{Map, assign}
use map_api.Revision.{Revision}
use map_api.Chunk.{Chunk, is_write_locked, bulk_insert_locked, update_locked, remove_locked}
use map_api.Delta.{Delta, empty}

-- The ids of the map, with the commit time.
unfoldable pub log_commit_event : ℕ → Map Revision → Map ℕ → Map ℕ
log_commit_event commit_time [] commit_history = commit_history
log_commit_event commit_time ((id, r) ∷ items) commit_history =
    log_commit_event commit_time items (assign id commit_time commit_history)

unfoldable pub update_all : ℕ → Map Revision → Chunk → Checked Chunk
update_all commit_time [] chunk = ok chunk
update_all commit_time ((id, r) ∷ items) chunk =
    update_locked commit_time r chunk >>= update_all commit_time items

unfoldable pub remove_all : ℕ → Map Revision → Chunk → Checked Chunk
remove_all commit_time [] chunk = ok chunk
remove_all commit_time ((id, r) ∷ items) chunk =
    remove_locked commit_time r chunk >>= remove_all commit_time items

-- The insertions are logged twice. The maps are empty afterwards.
unfoldable pub checked_commit_locked : ℕ → Delta → Chunk → Map ℕ → Checked (Delta × Chunk × Map ℕ)
checked_commit_locked commit_time delta chunk commit_history = do
  check (is_write_locked chunk)
  let logged = log_commit_event commit_time delta.insertions_ commit_history
  inserted ← bulk_insert_locked delta.insertions_ commit_time chunk
  updated ← update_all commit_time delta.updates_ inserted
  removed ← remove_all commit_time delta.removes_ updated
  ok (
    empty,
    removed,
    log_commit_event commit_time delta.removes_ (
        log_commit_event commit_time delta.updates_
          (log_commit_event commit_time delta.insertions_ logged)),
  )
