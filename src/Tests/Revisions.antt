-- ===== src/Tests/Revisions.antt =====
-- Merges of small revisions.
use map_api.Prelude.{ℕ, ◌≡◌, refl, Bool, [], ◌∷◌, arith}
use map_api.Prelude.Checked.{ok}
use map_api.Trackees.{ChunkTracking}
use map_api.Revision.{Revision, default_auto_merge_policy}
use map_api.Revision.Fields.{TableField, int32}
use map_api.Revision.AutoMerge.{IsOutcome, default_auto_merge_policy_lem}
use map_api.Tests.{item}

abbrev field : ℕ → TableField
field value = record {
  field_type = int32;
  blob_value = [];
  double_value = 0;
  int_value = value;
  long_value = 0;
  unsigned_long_value = 0;
  string_value = [];
  unsigned_int_value = 0;
}

abbrev with_value : ℕ → ChunkTracking → Revision
with_value value tracking = record (item 1 5) {
  custom_field_values = field value ∷ [];
  chunk_tracking = tracking;
}

default_auto_merge_policy_lem_example :
    (done : Bool) × (merged : Revision) × (default_auto_merge_policy
        (with_value 4 ((3, 8 ∷ []) ∷ []))
        (with_value 3 [])
        (with_value 3 ((2, 6 ∷ []) ∷ []))
      ≡ ok (done, merged))
    × IsOutcome
        (with_value 4 ((3, 8 ∷ []) ∷ []))
        (with_value 3 [])
        (with_value 3 ((2, 6 ∷ []) ∷ []))
        done
        merged
default_auto_merge_policy_lem_example =
    default_auto_merge_policy_lem (with_value 4 ((3, 8 ∷ []) ∷ [])) (with_value 3 [])
      (with_value 3 ((2, 6 ∷ []) ∷ []))
      (record {
        ids = refl;
        insert_times = refl;
        chunk_ids = refl;
        at_hand_alive = refl;
        conflicting_alive = refl;
      })
      (ground arith) (ground arith)
