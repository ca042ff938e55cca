-- ===== src/Chunk.antt =====
-- map-api/src/legacy-chunk.cc and chunk-base.cc: a peer's replica of a chunk. What is sent to the
-- other peers of the swarm is appended to `sent`; `peers_.undisputableBroadcast` aborts unless all
-- of them acknowledge it. The chunk is initialised. How the swarm agrees on a writer is in
-- ChunkLock: `lock_holder` is the peer whose write lock this peer knows of.
pub mod Writes
pub mod Insertions
pub mod Times
use map_api.Prelude.{
  ℕ, Bool, true, false, not, Option, none, some, List, [], ◌∷◌, ◌++◌, ltb, ◌==◌, ◌&&◌,
  if◌then◌else◌,
}
use map_api.Prelude.Checked
use map_api.Prelude.Checked.{Checked, ok, fatal, ◌>>=◌, ◌>>◌, check}
use map_api.Prelude.Map.{Map, emplace}
use map_api.Prelude.IdSet.{contains, add}
use map_api.LogicalTime
use map_api.LogicalTime.{Timed, pure, lift, sample}
use map_api.Revision.{Revision, set_chunk_id, get_modification_time}
use map_api.Container
use map_api.Container.{Container}

pub data Patch : Type 0 where
  insert_request : Revision → Patch
  update_request : Revision → Patch

pub record Chunk : Type 0 where
  pub id : ℕ
  pub self : ℕ
  pub container : Container
  pub latest_commit_time : ℕ
  pub lock_holder : Option ℕ
  pub held_by_this_thread : Bool
  pub relinquished : Bool
  pub trigger_insertions : List ℕ
  pub trigger_updates : List ℕ
  pub sent : List Patch

-- `isWriter`
unfoldable pub is_writer : ℕ → Chunk → Bool
is_writer peer chunk = elim chunk.lock_holder [ none ↦ false | some holder ↦ holder == peer ]

unfoldable pub is_write_locked : Chunk → Bool
unfolding is_writer
is_write_locked chunk = is_writer chunk.self chunk && chunk.held_by_this_thread

unfoldable pub sync_latest_commit_time : Revision → Chunk → Chunk
sync_latest_commit_time item chunk =
    let commit_time = get_modification_time item in
    if ltb chunk.latest_commit_time commit_time
    then record chunk { latest_commit_time = commit_time }
    else chunk

abbrev pub send : Patch → Chunk → Chunk
send request chunk = record chunk { sent = chunk.sent ++ request ∷ [] }

-- The messages of a bulk insertion, in the order of the items.
unfoldable pub insert_requests : Map Revision → List Patch
insert_requests [] = []
insert_requests ((id, item) ∷ items) = insert_request item ∷ insert_requests items

-- `item.second->setChunkId(id())`, for each of the items
unfoldable pub set_chunk_ids : ℕ → Map Revision → Map Revision
set_chunk_ids chunk_id [] = []
set_chunk_ids chunk_id ((id, item) ∷ items) =
    (id, set_chunk_id chunk_id item) ∷ set_chunk_ids chunk_id items

-- The result of `bulkInsert` is not looked at.
unfoldable pub bulk_insert_locked : Map Revision → ℕ → Chunk → Checked Chunk
unfolding set_chunk_ids insert_requests
bulk_insert_locked items time chunk = do
  (done, container', stamped) ←
      Container.bulk_insert time (set_chunk_ids chunk.id items) chunk.container
  ok (record chunk { container = container'; sent = chunk.sent ++ insert_requests stamped })

unfoldable pub update_locked : ℕ → Revision → Chunk → Checked Chunk
update_locked time item chunk = do
  check (chunk.id == item.chunk_id)
  (container', stamped) ← Container.update time item chunk.container
  ok (send (update_request stamped) (record chunk { container = container' }))

unfoldable pub remove_locked : ℕ → Revision → Chunk → Checked Chunk
remove_locked time item chunk = do
  check (item.chunk_id == chunk.id)
  (container', stamped) ← Container.remove time item chunk.container
  ok (send (update_request stamped) (record chunk { container = container' }))

-- `LegacyChunk::insert`, between its read lock and unlock.
unfoldable pub insert : ℕ → Revision → Chunk → Checked Chunk
unfolding sync_latest_commit_time
insert time item chunk = do
  (done, container', stamped) ← Container.insert time (set_chunk_id chunk.id item) chunk.container
  ok (
      sync_latest_commit_time stamped
        (send (insert_request stamped) (record chunk { container = container' })))

-- `LegacyChunk::update`, between its write lock and unlock, with the time that it samples.
unfoldable pub update : ℕ → Revision → Chunk → Checked Chunk
unfolding sync_latest_commit_time
update time item chunk = do
  check (chunk.id == item.chunk_id)
  (container', stamped) ← Container.update time item chunk.container
  ok (
      sync_latest_commit_time stamped
        (send (update_request stamped) (record chunk { container = container' })))

-- `ChunkBase::getUpdateTimes`
update_times_of : Map Revision → Map ℕ → Map ℕ
update_times_of [] result = result
update_times_of ((id, item) ∷ items) result =
    update_times_of items (emplace id item.update_time result)

unfoldable pub get_update_times : Chunk → Timed (Map ℕ)
unfolding update_times_of
get_update_times chunk = LogicalTime.◌>>=◌ sample λ now.
    LogicalTime.◌>>=◌ (Container.dump now chunk.container) λ items. pure (update_times_of items [])

-- `handleCommitInsert` and `handleCommitUpdate` abort on an id that is noted already.
note_once : ℕ → List ℕ → Checked (List ℕ)
note_once id noted = check (not (contains id noted)) >> ok (add id noted)

-- The answer to a request.
pub data Response : Type 0 where
  ack decline : Response

unfoldable pub handle_insert_request : Revision → Chunk → Checked (Response × Chunk)
unfolding is_writer sync_latest_commit_time note_once
handle_insert_request item chunk = if chunk.relinquished then ok (decline, chunk) else do
  check (not (is_writer chunk.self chunk))
  container' ← Container.patch item chunk.container
  noted ← note_once item.id chunk.trigger_insertions
  ok (
    ack,
    record (sync_latest_commit_time item (record chunk { container = container' })) {
      trigger_insertions = noted;
    },
  )

unfoldable pub handle_update_request : Revision → ℕ → Chunk → Checked (Response × Chunk)
unfolding is_writer sync_latest_commit_time note_once
handle_update_request item sender chunk = do
  check (is_writer sender chunk)
  container' ← Container.patch item chunk.container
  noted ← note_once item.id chunk.trigger_updates
  ok (
    ack,
    record (sync_latest_commit_time item (record chunk { container = container' })) {
      trigger_updates = noted;
    },
  )
