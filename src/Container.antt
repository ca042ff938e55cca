-- ===== src/Container.antt =====
-- The data of a chunk: map-api/src/legacy-chunk-data-ram-container.cc (the methods named `Impl`,
-- in the child module `Ram`), and the checks around them of legacy-chunk-data-container-base.cc and
-- chunk-data-container-base.cc. A container here is one that `init` has returned, so that
-- `isInitialized()` holds; `access_mutex_` makes each call atomic.
pub mod Ram
pub mod History
pub mod Reads
pub mod Writes
pub mod Bulk
pub mod Patches
use map_api.Prelude.{
  ℕ, Bool, true, false, not, Option, none, some, List, [], ◌∷◌, ltb, ◌==◌, if◌then◌else◌,
}
use map_api.Prelude.Checked.{Checked, ok, fatal, ◌>>=◌, ◌>>◌, check}
use map_api.Prelude.Map.{Map}
use map_api.LogicalTime.{Timed, sample}
use map_api.Revision.{
  Revision, structure_match, is_valid_id, set_insert_time, set_update_time, set_removed,
}
use Ram.{
  HistoryMap, insert_impl, bulk_insert_impl, patch_impl, get_by_id_impl, find_by_revision_impl,
  count_by_revision_impl, find_history_by_revision_impl,
}

pub record Container : Type 0 where
  pub template : Revision
  pub data_ : HistoryMap

-- The checks of every write: structure and id.
unfoldable pub sane : Container → Revision → Checked (Unit {0})
sane c query = check (structure_match query c.template) >> check (is_valid_id query.id)

-- A write modifies the revision that it is given: it is returned, behind the container.
unfoldable pub insert : ℕ → Revision → Container → Checked (Bool × Container × Revision)
unfolding sane
insert time query c = do
  sane c query
  let stamped = set_update_time time (set_insert_time time query)
  let (done, data') = insert_impl stamped c.data_
  ok (done, record c { data_ = data' }, stamped)

-- The loop of `bulkInsert`: checks, and the times.
unfoldable pub stamp_all : ℕ → Container → Map Revision → Checked (Map Revision)
unfolding sane
stamp_all time c [] = ok []
stamp_all time c ((id, query) ∷ rest) = do
  sane c query
  check (query.id == id)
  stamped ← stamp_all time c rest
  ok ((id, set_update_time time (set_insert_time time query)) ∷ stamped)

unfoldable pub bulk_insert :
    ℕ → Map Revision → Container → Checked (Bool × Container × Map Revision)
unfolding stamp_all
bulk_insert time query c = do
  stamped ← stamp_all time c query
  let (done, data') = bulk_insert_impl stamped c.data_
  ok (done, record c { data_ = data' }, stamped)

-- `patch` does not modify the revision.
unfoldable pub patch : Revision → Container → Checked Container
unfolding sane
patch query c = do sane c query; data' ← patch_impl query c.data_; ok (record c { data_ = data' })

unfoldable pub update : ℕ → Revision → Container → Checked (Container × Revision)
unfolding sane
update time query c = do
  sane c query
  let stamped = set_update_time time query
  data' ← patch_impl stamped c.data_
  ok (record c { data_ = data' }, stamped)

unfoldable pub remove : ℕ → Revision → Container → Checked (Container × Revision)
unfolding sane
remove time query c = do
  sane c query
  let stamped = set_removed (set_update_time time query)
  data' ← patch_impl stamped c.data_
  ok (record c { data_ = data' }, stamped)

abbrev pub clear : Container → Container
clear c = record c { data_ = [] }

unfoldable pub get_by_id : ℕ → ℕ → Container → Checked (Option Revision)
get_by_id id time c = check (is_valid_id id) >> ok (get_by_id_impl id time c.data_)

-- CHECK(time < LogicalTime::sample()): the check draws a time.
past : ℕ → Timed (Unit {0})
past time clock = sample clock >>= λ (now, later). check (ltb time now) >> ok (tt, later)

-- `lift r` runs behind the check, and keeps the clock.
after_past : {A : Type 0} → ℕ → Checked A → Timed A
unfolding past
after_past time r clock = past time clock >>= λ (_, later). r >>= λ a. ok (a, later)

unfoldable pub find_by_revision : Option ℕ → Revision → ℕ → Container → Timed (Map Revision)
unfolding after_past
find_by_revision key value_holder time c =
    after_past time (find_by_revision_impl key value_holder time c.data_)

unfoldable pub count_by_revision : Option ℕ → Revision → ℕ → Container → Timed ℕ
unfolding after_past
count_by_revision key value_holder time c =
    after_past time (count_by_revision_impl key value_holder time c.data_)

unfoldable pub find_history_by_revision : Option ℕ → Revision → ℕ → Container → Timed HistoryMap
unfolding after_past
find_history_by_revision key value_holder time c =
    after_past time (find_history_by_revision_impl key value_holder time c.data_)

-- All items, by a negative key.
unfoldable pub dump : ℕ → Container → Timed (Map Revision)
unfolding find_by_revision
dump time c = find_by_revision none c.template time c

unfoldable pub num_available_ids : ℕ → Container → Timed ℕ
unfolding count_by_revision
num_available_ids time c = count_by_revision none c.template time c
