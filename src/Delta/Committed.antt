-- ===== src/Delta/Committed.antt =====
-- What a commit of a delta does to the chunk: the state that it leaves, and what every time reads.
use map_api.Prelude.{
  ℕ, ◌≤◌, ◌≡◌, ◌∙◌, refl, Bool, true, false, Option, none, some, List, [], ◌∷◌, ◌++◌, arith,
}
use map_api.Prelude.Checked.{ok}
use map_api.Prelude.Map.{Map, find, has}
use map_api.Revision.{Revision}
use map_api.Container.Writes.{IsWellFormed, shown}
use map_api.Container.Bulk.{at_id, Batch, Older, Older-IsWellFormed}
use map_api.Chunk.{
  bulk_insert_locked, Chunk, Patch, insert_request, update_request, is_write_locked,
}
use map_api.Chunk.Writes.{
  written, as_inserted, as_updated, as_removed, stamps, requests, AllReady, AllSane,
  written-written, update_all-written, remove_all-written,
}
use map_api.Chunk.Insertions.{AllUnknown, bulk_insert_locked-written}
use map_api.Delta.{Delta, empty}
use map_api.Delta.Invariant.{IsSeparate}
use map_api.Delta.Commit.{log_commit_event, checked_commit_locked, update_all, remove_all}
use map_api.Delta.Batches.{
  at_id-append, Batch-append, OwnKeys, Batch-stamps, at_id-stamps-none, at_id-stamps-some, Apart,
  Older-write_all,
}

-- The chunk is write-locked and its data falls in time below the commit, and the revisions of the
-- delta pass the checks of the writes. The container does not know the ids of the insertions.
pub record IsCommittable (bound T : ℕ) (d : Delta) (chunk : Chunk) : Type 0 where
  pub locked : is_write_locked chunk ≡ true
  pub separate : IsSeparate d
  pub well_formed : IsWellFormed bound chunk.container.data_
  pub later : bound ≤ T
  pub insertions : AllSane chunk d.insertions_
  pub unknown : AllUnknown d.insertions_ chunk.container.data_
  pub updates : AllReady chunk d.updates_
  pub removes : AllReady chunk d.removes_

-- The revisions that a commit stores, in its order.
abbrev pub committed_revisions : ℕ → ℕ → Delta → List Revision
committed_revisions chunk_id T d =
    stamps (as_inserted chunk_id T) d.insertions_
    ++ (stamps (as_updated T) d.updates_ ++ stamps (as_removed T) d.removes_)

-- The messages that it sends.
abbrev pub committed_patches : ℕ → ℕ → Delta → List Patch
committed_patches chunk_id T d =
    requests insert_request (stamps (as_inserted chunk_id T) d.insertions_)
    ++ (requests update_request (stamps (as_updated T) d.updates_)
        ++ requests update_request (stamps (as_removed T) d.removes_))

-- The history of the commits, with those of the delta.
abbrev pub logged : ℕ → Delta → Map ℕ → Map ℕ
logged T d commit_history = log_commit_event T d.removes_ (
    log_commit_event T d.updates_
      (log_commit_event T d.insertions_ (log_commit_event T d.insertions_ commit_history)))

-- What an item shows after the commit, from what it showed before.
abbrev pub from_removes : Bool → Option Revision → Option Revision
from_removes true before = none
from_removes false before = before

abbrev pub from_updates : ℕ → Option Revision → Option Revision → Option Revision
from_updates T (some r) before = shown (as_updated T r)
from_updates T none before = before

abbrev pub from_insertions : ℕ → ℕ → Option Revision → Option Revision → Option Revision
from_insertions chunk_id T (some r) before = shown (as_inserted chunk_id T r)
from_insertions chunk_id T none before = before

-- An inserted or an updated item shows the revision of the delta with the stamps of the commit, a
-- removed one nothing, and every other one what it did.
abbrev pub after_commit : ℕ → ℕ → Delta → ℕ → Option Revision → Option Revision
after_commit chunk_id T d id before =
    from_insertions chunk_id T (find id d.insertions_)
      (from_updates T (find id d.updates_) (from_removes (has id d.removes_) before))

AllSane-OwnKeys : (chunk : Chunk) (m : Map Revision) → AllSane chunk m → OwnKeys m
AllSane-OwnKeys chunk [] s = tt
AllSane-OwnKeys chunk ((id, r) ∷ m) s = (s.0, AllSane-OwnKeys chunk m s.2)

AllReady-OwnKeys : (chunk : Chunk) (m : Map Revision) → AllReady chunk m → OwnKeys m
AllReady-OwnKeys chunk [] s = tt
AllReady-OwnKeys chunk ((id, r) ∷ m) s = (s.0, AllReady-OwnKeys chunk m s.3)

AllReady-written :
    (xs : List Revision) (ps : List Patch) (chunk : Chunk) (m : Map Revision)
    → AllReady chunk m
    → AllReady (written xs ps chunk) m
AllReady-written xs ps chunk [] s = tt
AllReady-written xs ps chunk ((id, r) ∷ m) s = (s.0, s.1, s.2, AllReady-written xs ps chunk m s.3)

-- What the parts of a commit have in common.
module _ (bound T : ℕ) (d : Delta) (chunk : Chunk) (c : IsCommittable bound T d chunk) where
  abbrev inserted : List Revision
  inserted = stamps (as_inserted chunk.id T) d.insertions_

  abbrev updated : List Revision
  updated = stamps (as_updated T) d.updates_

  abbrev removed : List Revision
  removed = stamps (as_removed T) d.removes_

  pub ins_keys : OwnKeys d.insertions_
  ins_keys = AllSane-OwnKeys chunk d.insertions_ c.insertions

  pub upd_keys : OwnKeys d.updates_
  upd_keys = AllReady-OwnKeys chunk d.updates_ c.updates

  pub rem_keys : OwnKeys d.removes_
  rem_keys = AllReady-OwnKeys chunk d.removes_ c.removes

  inserted-Batch : Batch T inserted
  inserted-Batch =
      Batch-stamps T (as_inserted chunk.id T) (λ r. refl) (λ r. refl) d.insertions_ ins_keys
        c.separate.insertions.unique

  updated-Batch : Batch T updated
  updated-Batch =
      Batch-stamps T (as_updated T) (λ r. refl) (λ r. refl) d.updates_ upd_keys
        c.separate.updates.unique

  removed-Batch : Batch T removed
  removed-Batch =
      Batch-stamps T (as_removed T) (λ r. refl) (λ r. refl) d.removes_ rem_keys
        c.separate.removes.unique

  -- The ids of the parts differ.
  updated-Apart : Apart updated removed
  updated-Apart j r e =
      at_id-stamps-none T (as_removed T) (λ r. refl) (λ r. refl) j d.removes_ rem_keys
        (ground (
          arith,
          at_id-stamps-some T (as_updated T) (λ r. refl) (λ r. refl) j r d.updates_ upd_keys e,
          c.separate.updates_removes j,
        ))

  inserted_has : (j : ℕ) (r : Revision) → at_id j inserted ≡ some r → has j d.insertions_ ≡ true
  inserted_has j r e =
      at_id-stamps-some T (as_inserted chunk.id T) (λ r. refl) (λ r. refl) j r d.insertions_
        ins_keys e

  inserted-updated : Apart inserted updated
  inserted-updated j r e =
      at_id-stamps-none T (as_updated T) (λ r. refl) (λ r. refl) j d.updates_ upd_keys
        (ground (arith, inserted_has j r e, c.separate.insertions_updates j))

  inserted-removed : Apart inserted removed
  inserted-removed j r e =
      at_id-stamps-none T (as_removed T) (λ r. refl) (λ r. refl) j d.removes_ rem_keys
        (ground (arith, inserted_has j r e, c.separate.insertions_removes j))

  -- The revisions of a commit are those of different items, with its time.
  pub commit-Batch : Batch T (committed_revisions chunk.id T d)
  commit-Batch =
      Batch-append T inserted (updated ++ removed) inserted-Batch
        (Batch-append T updated removed updated-Batch removed-Batch updated-Apart)
        (λ j r e.
          at_id-append j updated removed ∙ rw (inserted-updated j r e) (inserted-removed j r e))

  -- They are newer than what the chunk has of these items.
  pub commit-Older : Older (committed_revisions chunk.id T d) chunk.container.data_
  commit-Older =
      Older-IsWellFormed T bound (committed_revisions chunk.id T d) chunk.container.data_
        commit-Batch c.well_formed c.later

  older : (rs : List Revision) → Batch T rs → Older rs chunk.container.data_
  older rs batch = Older-IsWellFormed T bound rs chunk.container.data_ batch c.well_formed c.later

  all_inserted : Chunk
  all_inserted = written inserted (requests insert_request inserted) chunk

  all_updated : Chunk
  all_updated = written updated (requests update_request updated) all_inserted

  inserting_lem : bulk_insert_locked d.insertions_ T chunk ≡ ok all_inserted
  unfolding all_inserted
  inserting_lem =
      bulk_insert_locked-written T d.insertions_ chunk c.insertions c.separate.insertions.unique
        c.unknown

  updating_lem : update_all T d.updates_ all_inserted ≡ ok all_updated
  unfolding all_updated all_inserted
  updating_lem =
      update_all-written T d.updates_ all_inserted
        (AllReady-written inserted (requests insert_request inserted) chunk d.updates_ c.updates)
        updated-Batch
        (Older-write_all inserted updated chunk.container.data_ inserted-updated
          (older updated updated-Batch))

  removing_lem :
      remove_all T d.removes_ all_updated
      ≡ ok (written removed (requests update_request removed) all_updated)
  unfolding all_updated all_inserted
  removing_lem =
      remove_all-written T d.removes_ all_updated
        (AllReady-written updated (requests update_request updated) all_inserted d.removes_
          (AllReady-written inserted (requests insert_request inserted) chunk d.removes_ c.removes))
        removed-Batch
        (Older-write_all updated removed all_inserted.container.data_ updated-Apart (
          Older-write_all inserted removed chunk.container.data_ inserted-removed
            (older removed removed-Batch)))

  joined :
      written removed (requests update_request removed) all_updated
      ≡ written (committed_revisions chunk.id T d) (committed_patches chunk.id T d) chunk
  unfolding all_updated all_inserted
  joined =
      written-written updated removed (requests update_request updated)
        (requests update_request removed) all_inserted
      ∙ written-written inserted (updated ++ removed) (requests insert_request inserted)
          (requests update_request updated ++ requests update_request removed) chunk

  -- A commit of a delta that can be committed (`IsCommittable`) does not abort. It empties the
  -- delta, stores its revisions in the chunk with the stamps of the commit, and sends just these
  -- to the other peers.
  pub checked_commit_locked-written :
      (commit_history : Map ℕ)
      → checked_commit_locked T d chunk commit_history
        ≡ ok (
          empty,
          written (committed_revisions chunk.id T d) (committed_patches chunk.id T d) chunk,
          logged T d commit_history,
        )
  unfolding checked_commit_locked
  checked_commit_locked-written commit_history =
      rw c.locked (rw inserting_lem (rw updating_lem (rw removing_lem (rw joined refl))))
