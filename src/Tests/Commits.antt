-- ===== src/Tests/Commits.antt =====
-- A commit of the example transaction.
use map_api.Prelude.{◌||◌, if◌then◌else◌, ℕ, ◌≡◌, refl, Option, none, some, [], ◌∷◌, suc, arith}
use map_api.Prelude.Checked.{ok}
use map_api.Container.Ram.{get_by_id_impl}
use map_api.Container.Writes.{IsWellFormed}
use map_api.Prelude.Map.{Map, find, has}
use map_api.Revision.{Revision}
use map_api.Chunk.{Chunk}
use map_api.Chunk.Writes.{written}
use map_api.Delta.{empty}
use map_api.Delta.Commit.{checked_commit_locked}
use map_api.Delta.Committed.{
  IsCommittable, committed_revisions, committed_patches, logged, after_commit,
  checked_commit_locked-written,
}
use map_api.Delta.Effect.{commit-get, commit-get_before, commit-IsWellFormed}
use map_api.Tests.{
  item, stored_data, a_chunk, a_delta, a_delta-IsSeparate, stored_data-IsWellFormed,
}

abbrev committed_chunk : Chunk
committed_chunk = written (committed_revisions 7 9 a_delta) (committed_patches 7 9 a_delta) a_chunk

a_delta-IsCommittable : IsCommittable 6 9 a_delta a_chunk
unfolding stored_data map_api.Chunk.is_write_locked map_api.Revision.structure_match
    map_api.Prelude.Map.has map_api.Prelude.Map.assign
a_delta-IsCommittable = record {
  locked = refl;
  separate = a_delta-IsSeparate;
  well_formed = stored_data-IsWellFormed;
  later = omega arith;
  insertions = (refl, (refl, refl), tt);
  unknown = (refl, tt);
  updates = (refl, (refl, refl), refl, tt);
  removes = (refl, (refl, refl), refl, tt);
}

checked_commit_locked-written_example :
    checked_commit_locked 9 a_delta a_chunk [] ≡ ok (empty, committed_chunk, logged 9 a_delta [])
checked_commit_locked-written_example =
    checked_commit_locked-written 6 9 a_delta a_chunk a_delta-IsCommittable []

a_commit :
    checked_commit_locked 9 a_delta a_chunk [] ≡ ok (empty, committed_chunk, logged 9 a_delta [])
a_commit = checked_commit_locked-written 6 9 a_delta a_chunk a_delta-IsCommittable []

commit-get_before_example :
    get_by_id_impl 3 8 committed_chunk.container.data_ ≡ get_by_id_impl 3 8 stored_data
commit-get_before_example =
    commit-get_before 6 9 a_delta a_chunk a_delta-IsCommittable [] empty committed_chunk
      (logged 9 a_delta []) a_commit 3 8 (omega arith)

commit-get_example :
    get_by_id_impl 3 9 committed_chunk.container.data_
    ≡ after_commit 7 9 a_delta 3 (get_by_id_impl 3 9 stored_data)
commit-get_example =
    commit-get 6 9 a_delta a_chunk a_delta-IsCommittable [] empty committed_chunk
      (logged 9 a_delta []) a_commit 3 9 (omega arith)

commit-IsWellFormed_example : IsWellFormed 10 committed_chunk.container.data_
commit-IsWellFormed_example =
    commit-IsWellFormed 6 9 a_delta a_chunk a_delta-IsCommittable [] empty committed_chunk
      (logged 9 a_delta []) a_commit

-- Item 1 is known, so item 2 is lost with it.
abbrev half_known : Map Revision
half_known = (1, item 1 0) ∷ (2, item 2 0) ∷ []
