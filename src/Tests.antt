-- ===== src/Tests.antt =====
-- A small chunk and a transaction on it, for the examples.
pub mod Clock
pub mod Rings
pub mod Locks
pub mod Swarm
pub mod Workspaces
pub mod Trackees
pub mod Revisions
pub mod Containers
pub mod Views
pub mod Deltas
pub mod Commits
pub mod Transactions
pub mod Tables
pub mod Spaces
pub mod Possessions
pub mod WholeTransactions
use map_api.Prelude.{ℕ, ◌<◌, ◌≡◌, refl, true, false, none, some, List, [], ◌∷◌, arith}
use map_api.Prelude.Checked.{ok}
use map_api.Prelude.Map.{Map, find}
use map_api.Revision.{Revision}
use map_api.Container.{Container}
use map_api.Container.Ram.{HistoryMap}
use map_api.Container.Writes.{IsWellFormed, with_revision, with_revision-IsWellFormed}
use map_api.Chunk.{Chunk}
use map_api.Delta.{Delta, empty}
use map_api.Delta.Invariant.{
  IsSeparate, Change, inserting, updating, removing, run, run-IsSeparate, empty-IsSeparate,
}

-- The item as it was inserted and last updated at a time.
abbrev pub item : ℕ → ℕ → Revision
item id time = record {
  id = id;
  insert_time = time;
  update_time = time;
  has_update_time = true;
  removed = false;
  chunk_id = 7;
  custom_field_values = [];
  chunk_tracking = [];
}

-- The items 1 and 3.
unfoldable pub stored_data : HistoryMap
unfolding with_revision
stored_data = with_revision (item 3 4) (with_revision (item 1 5) [])

no_data-IsWellFormed : IsWellFormed 0 []
unfolding find
no_data-IsWellFormed = record { unique = tt; history_at = λ id h e. cc }

pub stored_data-IsWellFormed : IsWellFormed 6 stored_data
unfolding stored_data map_api.Container.History.has_time find map_api.Prelude.Map.assign
stored_data-IsWellFormed =
    with_revision-IsWellFormed (item 3 4) 6 6 (with_revision (item 1 5) [])
      (with_revision-IsWellFormed (item 1 5) 0 6 [] no_data-IsWellFormed (omega arith) (omega arith)
        refl)
      (omega arith) (omega arith) refl

abbrev pub a_container : Container
a_container = record { template = item 0 0; data_ = stored_data }

-- Peer 1 holds the write lock.
abbrev pub a_chunk : Chunk
a_chunk = record {
  id = 7;
  self = 1;
  container = a_container;
  latest_commit_time = 5;
  lock_holder = some 1;
  held_by_this_thread = true;
  relinquished = false;
  trigger_insertions = [];
  trigger_updates = [];
  sent = [];
}

-- Insert item 2, update item 1, remove item 3.
abbrev pub some_changes : List Change
some_changes = inserting (item 2 0) ∷ updating (item 1 5) ∷ removing (item 3 4) ∷ []

abbrev pub a_delta : Delta
a_delta = record {
  insertions_ = (2, item 2 0) ∷ [];
  updates_ = (1, item 1 5) ∷ [];
  removes_ = (3, item 3 4) ∷ [];
}

pub run-some_changes : run some_changes empty ≡ ok a_delta
unfolding map_api.Delta.insert map_api.Prelude.Map.has map_api.Delta.update
    map_api.Prelude.Map.emplace map_api.Delta.remove map_api.Prelude.Map.erase
    map_api.Prelude.Map.assign
run-some_changes = refl

pub a_delta-IsSeparate : IsSeparate a_delta
a_delta-IsSeparate = run-IsSeparate some_changes empty a_delta empty-IsSeparate run-some_changes
