-- ===== src/Revision.antt =====
-- map-api/src/revision.cc and map-api/include/map-api/revision.h: a version of an item, over the
-- messages of map-api/proto/core.proto. Ids are numbers, and the id 0 is the invalid id, which an
-- absent `id` or `chunk_id` reads as. Integers and doubles are kept as their bit patterns.
pub mod Fields
pub mod AutoMerge
use map_api.Prelude.{
  ℕ, zero, suc, Bool, true, false, not, ◌&&◌, ◌||◌, List, [], ◌∷◌, ltb, ◌==◌, if◌then◌else◌,
}
use map_api.Prelude.Checked.{Checked, ok, fatal, ◌>>=◌, ◌>>◌, check}
use map_api.Trackees.{Trackees, ChunkTracking, deserialize, serialize, merge}
use Fields.{TableField, same_type, field_match}

pub record Revision : Type 0 where
  pub id : ℕ
  pub insert_time : ℕ
  pub update_time : ℕ
  pub has_update_time : Bool
  pub removed : Bool
  pub chunk_id : ℕ
  pub custom_field_values : List TableField
  pub chunk_tracking : ChunkTracking

-- `Id::isValid`
abbrev pub is_valid_id : ℕ → Bool
is_valid_id id = ltb 0 id

abbrev pub get_modification_time : Revision → ℕ
get_modification_time r = if r.has_update_time then r.update_time else r.insert_time

abbrev pub has_been_updated : Revision → Bool
has_been_updated r = ltb r.insert_time r.update_time

abbrev pub set_insert_time : ℕ → Revision → Revision
set_insert_time time r = record r { insert_time = time }

abbrev pub set_update_time : ℕ → Revision → Revision
set_update_time time r = record r { update_time = time; has_update_time = true }

abbrev pub set_chunk_id : ℕ → Revision → Revision
set_chunk_id id r = record r { chunk_id = id }

abbrev pub set_removed : Revision → Revision
set_removed r = record r { removed = true }

match_types : List TableField → List TableField → Bool
match_types [] reference = true
match_types (a ∷ fields) [] = true
match_types (a ∷ fields) (b ∷ reference) = same_type a b && match_types fields reference

-- The fields that both have must have the same types.
unfoldable pub structure_match : Revision → Revision → Bool
unfolding match_types
structure_match r reference = match_types r.custom_field_values reference.custom_field_values

field_at : List TableField → ℕ → Checked TableField
field_at [] i = fatal
field_at (f ∷ fields) zero = ok f
field_at (f ∷ fields) (suc i) = field_at fields i

-- An index out of range is a fault of the protobuf library.
unfoldable pub field_match_at : Revision → Revision → ℕ → Checked Bool
unfolding field_at
field_match_at r other key = do
  a ← field_at r.custom_field_values key
  b ← field_at other.custom_field_values key
  ok (field_match a b)

fields_equal : List TableField → List TableField → Checked Bool
fields_equal [] other = ok true
fields_equal (a ∷ fields) [] = fatal
fields_equal (a ∷ fields) (b ∷ other) =
    let rest = fields_equal fields other in if field_match a b then rest else ok false

unfoldable pub are_all_custom_fields_equal : Revision → Revision → Checked Bool
unfolding fields_equal
are_all_custom_fields_equal r other = fields_equal r.custom_field_values other.custom_field_values

-- operator==
unfoldable pub equal : Revision → Revision → Checked Bool
equal r other =
    if not (structure_match r other)
    then ok false
    else if not (other.id == r.id)
    then ok false
    else if not (other.insert_time == r.insert_time)
    then ok false
    else if not (other.update_time == r.update_time)
    then ok false
    else if other.removed && not r.removed || not other.removed && r.removed
    then ok false
    else if not (other.chunk_id == r.chunk_id)
    then ok false
    else are_all_custom_fields_equal r other

-- The last part of `defaultAutoMergePolicy`.
unfoldable pub merged_tracking : ChunkTracking → ChunkTracking → ChunkTracking
merged_tracking tracking conflicting =
    let (tracked_chunks, change) = merge (deserialize tracking []) (deserialize conflicting []) in
    if change then serialize tracked_chunks else tracking

-- The checks of `defaultAutoMergePolicy` on the metadata, and the merge of the tracked chunks.
merge_metadata : Revision → Revision → Checked (Bool × Revision)
unfolding merged_tracking
merge_metadata conflicting at_hand = do
  check (at_hand.id == conflicting.id)
  check (at_hand.insert_time == conflicting.insert_time)
  check (not at_hand.removed)
  check (not conflicting.removed)
  check (at_hand.chunk_id == conflicting.chunk_id)
  ok (
    true,
    record at_hand {
      chunk_tracking = merged_tracking at_hand.chunk_tracking conflicting.chunk_tracking;
    },
  )

-- A merge policy takes the conflicting and the original revision and the one at hand, which it may
-- change, and says whether it succeeded.
abbrev pub AutoMergePolicy : Type 0
AutoMergePolicy = Revision → Revision → Revision → Checked (Bool × Revision)

-- The conflicting revision changed the fields. If the one at hand did too, the merge fails.
merge_innovation : AutoMergePolicy
unfolding merge_metadata
merge_innovation conflicting original at_hand = do
  this_same ← are_all_custom_fields_equal at_hand original
  let taken = record at_hand { custom_field_values = conflicting.custom_field_values }
  (if this_same then merge_metadata conflicting taken else ok (false, at_hand))

unfoldable pub default_auto_merge_policy : AutoMergePolicy
unfolding merge_metadata merge_innovation
default_auto_merge_policy conflicting original at_hand = do
  conflict_same ← are_all_custom_fields_equal conflicting original
  (if conflict_same
      then merge_metadata conflicting at_hand
      else merge_innovation conflicting original at_hand)

-- The custom policies are tried in order, then the default.
unfoldable pub try_auto_merge : List AutoMergePolicy → AutoMergePolicy
unfolding default_auto_merge_policy
try_auto_merge [] conflicting original at_hand =
    default_auto_merge_policy conflicting original at_hand
try_auto_merge (policy ∷ policies) conflicting original at_hand = do
  (done, changed) ← policy conflicting original at_hand
  let rest = try_auto_merge policies conflicting original changed
  (if done then ok (true, changed) else rest)
