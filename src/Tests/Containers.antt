-- ===== src/Tests/Containers.antt =====
-- Reads and patches of the example container.
use map_api.Prelude.{ℕ, ◌≡◌, ◌<◌, ◌+◌, refl, [], ◌∷◌, suc, arith}
use map_api.Prelude.Checked.{ok, ◌>>=◌}
use map_api.Prelude.Map.{Map, find, Unique}
use map_api.Prelude.IdSet.{size}
use map_api.Revision.{Revision}
use map_api.Container.{dump, num_available_ids}
use map_api.Container.Ram.{get_by_id_impl, patch_history, patch_impl}
use map_api.Container.Writes.{with_revision}
use map_api.Container.Reads.{dump_lem}
use map_api.Container.Patches.{patch_history_comm}
use map_api.Tests.{item, stored_data, stored_data-IsWellFormed, a_container}

dump_lem_example :
    (dest : Map Revision) × (dump 5 a_container 9 ≡ ok (dest, 10))
    × ((j : ℕ) → find j dest ≡ get_by_id_impl j 5 stored_data)
    × Unique dest
    × (num_available_ids 5 a_container 9 ≡ ok (size dest, 10))
dump_lem_example =
    dump_lem a_container 5 9 stored_data-IsWellFormed.unique (omega arith) (omega arith)

patch_history_comm_example :
    (patch_history (item 1 7) (item 1 5 ∷ []) >>= λ h'. patch_history (item 1 3) h')
    ≡ (patch_history (item 1 3) (item 1 5 ∷ []) >>= λ h'. patch_history (item 1 7) h')
patch_history_comm_example =
    patch_history_comm (item 1 7) (item 1 3) (item 1 5 ∷ []) 6 (omega arith, tt) (λ e. omega arith)

patched : patch_impl (item 1 7) stored_data ≡ ok (with_revision (item 1 7) stored_data)
unfolding patch_impl find stored_data map_api.Prelude.Map.assign map_api.Container.History.placed
patched = refl
