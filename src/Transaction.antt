-- ===== src/Transaction.antt =====
-- map-api/src/chunk-transaction.cc and chunk-transaction-inl.h: a transaction on one chunk. The
-- chunk that it points to is an argument of each operation. A commit and a merge are modelled
-- between the lock of the chunk and its unlock.
pub mod Commit
pub mod Isolation
pub mod Free
use map_api.Prelude.{ℕ, Bool, true, false, not, Option, none, some, List, [], ◌∷◌, ◌++◌, ltb}
use map_api.Prelude.Checked
use map_api.Prelude.Checked.{Checked, ok, check, check_notnull}
use map_api.Prelude.Map.{Map}
use map_api.LogicalTime.{Timed, ◌>>=◌, ◌>>◌, pure, lift, assert, sample}
use map_api.Revision.{Revision, AutoMergePolicy, structure_match}
use map_api.Container.{find_by_revision}
use map_api.View.{ViewBase, chunk_view, commit_history_view, commit_future_view}
use map_api.View.Combined.{combined_view}
use map_api.Chunk.{Chunk, is_write_locked, get_update_times}
use map_api.Delta
use map_api.Delta.{Delta, empty, delta_view, mutable_update_entry, num_changes}
use map_api.Delta.Traverse.{Conflict, has_conflicts_after_trying_to_merge, prepare_manual_merge}
use map_api.Delta.Commit.{checked_commit_locked}

-- `future` is the state of the commit future that the original view is made of, if it is.
pub record Transaction : Type 0 where
  pub begin_time : ℕ
  pub future : Option (Map Revision)
  pub structure_reference : Revision
  pub commit_history : Map ℕ
  pub delta : Delta
  pub conflict_conditions : List (Option ℕ × Revision)
  pub finalized : Bool

abbrev pub original_from : ℕ → Chunk → Option (Map Revision) → ViewBase
original_from begin_time chunk none = chunk_view chunk.container begin_time
original_from begin_time chunk (some state) = commit_future_view state

abbrev pub original_view : Transaction → Chunk → ViewBase
original_view t chunk = original_from t.begin_time chunk t.future

abbrev pub view_before_delta : Transaction → Chunk → ViewBase
view_before_delta t chunk =
    combined_view (original_view t chunk) (commit_history_view t.commit_history chunk.container)

abbrev pub combined : Transaction → Chunk → ViewBase
combined t chunk = combined_view (view_before_delta t chunk) (delta_view t.delta)

-- The constructor.
unfoldable pub begin_transaction : ℕ → Option (Map Revision) → Chunk → Timed Transaction
begin_transaction begin_time future chunk = do
  now ← sample
  assert (ltb begin_time now)
  pure (record {
    begin_time = begin_time;
    future = future;
    structure_reference = chunk.container.template;
    commit_history = [];
    delta = empty;
    conflict_conditions = [];
    finalized = false;
  })

unfoldable pub get_by_id : ℕ → Transaction → Chunk → Checked (Option Revision)
get_by_id id t chunk = (combined t chunk).get id

unfoldable pub dump_chunk : Transaction → Chunk → Timed (Map Revision)
dump_chunk t chunk = (combined t chunk).dump

unfoldable pub get_available_ids : Transaction → Chunk → Checked (List ℕ)
get_available_ids t chunk = (combined t chunk).get_available_ids

-- The checks of each change.
unfoldable pub changeable : Revision → Transaction → Checked (Unit {0})
changeable revision t =
    Checked.◌>>◌ (check (not t.finalized)) (check (structure_match revision t.structure_reference))

-- The checks, the change of the delta, and the transaction with the new delta.
unfoldable pub changing : Revision → (Delta → Checked Delta) → Transaction → Checked Transaction
unfolding changeable
changing revision change t =
    Checked.◌>>◌ (changeable revision t)
      (Checked.◌>>=◌ (change t.delta) λ delta'. ok (record t { delta = delta' }))

unfoldable pub insert : Revision → Transaction → Checked Transaction
unfolding changing
insert revision t = changing revision (Delta.insert revision) t

unfoldable pub update : Revision → Transaction → Checked Transaction
unfolding changing
update revision t = changing revision (Delta.update revision) t

unfoldable pub remove : Revision → Transaction → Checked Transaction
unfolding changing
remove revision t = changing revision (Delta.remove revision) t

-- The value holder is a template in which the value is set.
unfoldable pub add_conflict_condition : Option ℕ → Revision → Transaction → Checked Transaction
add_conflict_condition key value_holder t =
    Checked.◌>>◌ (check (not t.finalized))
      (ok (record t { conflict_conditions = t.conflict_conditions ++ (key, value_holder) ∷ [] }))

-- The branches of `getMutableUpdateEntry`: without an entry, the original becomes an update.
unfoldable pub entry_or_updated :
    ℕ → Transaction → Chunk → Option Revision → Checked (Revision × Transaction)
unfolding get_by_id update
entry_or_updated id t chunk (some entry) = ok (entry, t)
entry_or_updated id t chunk none = Checked.◌>>=◌ (get_by_id id t chunk) λ pointer.
    Checked.◌>>=◌ (check_notnull pointer) λ original.
      Checked.◌>>=◌ (update original t) λ t'.
        Checked.◌>>=◌ (check_notnull (mutable_update_entry id t'.delta)) λ entry. ok (entry, t')

-- The transaction with an entry for the item to which a pointer is handed out.
unfoldable pub get_mutable_update_entry : ℕ → Transaction → Chunk → Checked (Revision × Transaction)
unfolding entry_or_updated
get_mutable_update_entry id t chunk =
    Checked.◌>>◌ (check (not t.finalized))
      (entry_or_updated id t chunk (mutable_update_entry id t.delta))

-- conflict_conditions_.empty()
abbrev pub no_conditions : List (Option ℕ × Revision) → Bool
no_conditions [] = true
no_conditions (condition ∷ conditions) = false

unfoldable pub num_changed_items : Transaction → Checked ℕ
num_changed_items t =
    Checked.◌>>◌ (check (no_conditions t.conflict_conditions)) (ok (num_changes t.delta))

unfoldable pub finalize : Transaction → Transaction
finalize t = record t { finalized = true }

unfoldable pub detach_future : Transaction → Transaction
detach_future t = record t { future = none }
