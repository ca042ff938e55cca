-- ===== src/Delta.antt =====
-- map-api/src/internal/delta-view.cc: the uncommitted changes of a transaction in one chunk.
pub mod Keyed
pub mod Invariant
pub mod Overlay
pub mod Traverse
pub mod Split
pub mod Conflicts
pub mod AutoMerge
pub mod Commit
pub mod Batches
pub mod Committed
pub mod Effect
use map_api.Prelude.{
  ℕ, ◌+◌, Bool, true, false, not, Option, none, some, List, [], ◌∷◌, ◌++◌, ltb, ◌==◌, ◌&&◌, ◌||◌,
  if◌then◌else◌, is_some,
}
use map_api.Prelude.Checked.{Checked, ok, fatal, ◌>>=◌, ◌>>◌, check, check_notnull}
use map_api.Prelude.Map.{Map, find, has, assign, erase, emplace, insert_range}
use map_api.Prelude.IdSet.{size, add}
use map_api.LogicalTime.{lift}
use map_api.Revision.{Revision, is_valid_id, AutoMergePolicy, try_auto_merge}
use map_api.View.{ViewBase, OverridingView}
use map_api.Chunk.{Chunk, is_write_locked, bulk_insert_locked, update_locked, remove_locked}

pub record Delta : Type 0 where
  pub insertions_ : Map Revision
  pub updates_ : Map Revision
  pub removes_ : Map Revision

abbrev pub empty : Delta
empty = record { insertions_ = []; updates_ = []; removes_ = [] }

unfoldable pub delta_has : Delta → ℕ → Bool
delta_has delta id =
    (has id delta.updates_ || has id delta.insertions_) && not (has id delta.removes_)

unfoldable pub delta_get : Delta → ℕ → Checked (Option Revision)
delta_get delta id = check (not (has id delta.removes_)) >> elim (find id delta.updates_) [
  | some r ↦ ok (some r)
  | none ↦ check_notnull (find id delta.insertions_) >>= λ r. ok (some r)
]

add_ids : Map Revision → List ℕ → List ℕ
add_ids [] result = result
add_ids ((id, r) ∷ items) result = add_ids items (add id result)

unfoldable pub delta_view : Delta → OverridingView
unfolding delta_has delta_get add_ids
delta_view delta = record {
  view = record {
    has = λ id. ok (delta_has delta id);
    get = delta_get delta;
    dump = lift (ok (insert_range (insert_range [] delta.insertions_) delta.updates_));
    get_available_ids = ok (add_ids delta.updates_ (add_ids delta.insertions_ []));
    discard_known_updates = λ update_times. fatal;
  };
  suppresses = λ id. ok (has id delta.removes_);
}

unfoldable pub insert : Revision → Delta → Checked Delta
insert revision delta =
    check (is_valid_id revision.id)
    >> check (not (has revision.id delta.updates_))
    >> check (not (has revision.id delta.removes_))
    >> check (not (has revision.id delta.insertions_))
    >> ok (record delta { insertions_ = emplace revision.id revision delta.insertions_ })

-- An item that was inserted in this transaction stays an insertion.
unfoldable pub update : Revision → Delta → Checked Delta
update revision delta =
    check (is_valid_id revision.id)
    >> (if has revision.id delta.insertions_
        then ok (record delta { insertions_ = assign revision.id revision delta.insertions_ })
        else check (not (has revision.id delta.removes_))
          >> ok (record delta { updates_ = assign revision.id revision delta.updates_ }))

unfoldable pub remove : Revision → Delta → Checked Delta
remove revision delta =
    check (is_valid_id revision.id)
    >> (let kept = record delta { updates_ = erase revision.id delta.updates_ } in
        if has revision.id delta.insertions_
        then ok (record kept { insertions_ = erase revision.id delta.insertions_ })
        else check (not (has revision.id delta.removes_))
          >> ok (record kept { removes_ = emplace revision.id revision delta.removes_ }))

-- The entry to which `getMutableUpdateEntry` points.
unfoldable pub mutable_update_entry : ℕ → Delta → Option Revision
mutable_update_entry id delta = elim (find id delta.updates_) [
  | some r ↦ some r
  | none ↦ find id delta.insertions_
]

unfoldable pub num_changes : Delta → ℕ
num_changes delta = size delta.insertions_ + size delta.updates_ + size delta.removes_
