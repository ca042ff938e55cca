-- ===== src/View/Combined.antt =====
-- map-api/src/internal/combined-view.cc: a view over another, some of whose items it replaces or
-- suppresses.
use map_api.Prelude.{ℕ, Bool, true, false, not, Option, none, List, [], ◌∷◌, if◌then◌else◌}
use map_api.Prelude.Checked.{Checked, ok, ◌>>=◌}
use map_api.Prelude.Map.{Map, insert_range}
use map_api.LogicalTime
use map_api.LogicalTime.{Timed, lift, pure}
use map_api.Revision.{Revision}
use map_api.View.{ViewBase, OverridingView}

-- `complete_view_->has(id) && !override_view_.suppresses(id)`
unfoldable pub has_unsuppressed : ViewBase → OverridingView → ℕ → Checked Bool
has_unsuppressed complete override id =
    complete.has id >>= λ b. if b then (override.suppresses id >>= λ s. ok (not s)) else ok false

unfoldable pub combined_has : ViewBase → OverridingView → ℕ → Checked Bool
unfolding has_unsuppressed
combined_has complete override id =
    override.has id >>= λ b. if b then ok true else has_unsuppressed complete override id

unfoldable pub get_unsuppressed : ViewBase → OverridingView → ℕ → Checked (Option Revision)
get_unsuppressed complete override id = complete.has id >>= λ b.
    if b then (override.suppresses id >>= λ s. if s then ok none else complete.get id) else ok none

unfoldable pub combined_get : ViewBase → OverridingView → ℕ → Checked (Option Revision)
unfolding get_unsuppressed
combined_get complete override id =
    override.has id >>= λ b. if b then override.get id else get_unsuppressed complete override id

-- The loop of `dump` that erases the suppressed items.
unfoldable pub erase_suppressed : OverridingView → Map Revision → Checked (Map Revision)
erase_suppressed override [] = ok []
erase_suppressed override ((id, r) ∷ result) = override.suppresses id >>= λ s.
    erase_suppressed override result >>= λ rest. ok (if s then rest else (id, r) ∷ rest)

-- `result->insert` leaves an item that `result` has already as it is.
unfoldable pub finish_dump : OverridingView → Map Revision → Map Revision → Checked (Map Revision)
unfolding erase_suppressed
finish_dump override override_dump result =
    erase_suppressed override result >>= λ kept. ok (insert_range kept override_dump)

unfoldable pub combined_dump : ViewBase → OverridingView → Timed (Map Revision)
unfolding finish_dump
combined_dump complete override = LogicalTime.◌>>=◌ override.dump λ override_dump.
    LogicalTime.◌>>=◌ complete.dump λ result. lift (finish_dump override override_dump result)

unfoldable pub drop_suppressed : OverridingView → List ℕ → Checked (List ℕ)
drop_suppressed override [] = ok []
drop_suppressed override (id ∷ ids) = override.suppresses id >>= λ s.
    drop_suppressed override ids >>= λ rest. ok (if s then rest else id ∷ rest)

-- The ids of the complete view are collected into a set of their own, which is not put into
-- `result`.
unfoldable pub combined_ids : ViewBase → OverridingView → Checked (List ℕ)
unfolding drop_suppressed
combined_ids complete override = override.get_available_ids >>= λ result.
    complete.get_available_ids >>= λ ids.
    drop_suppressed override ids >>= λ all_unsuppressed_ids. ok result

unfoldable pub combined_view : ViewBase → OverridingView → ViewBase
unfolding combined_has combined_get combined_dump combined_ids
combined_view complete override = record {
  has = combined_has complete override;
  get = combined_get complete override;
  dump = combined_dump complete override;
  get_available_ids = combined_ids complete override;
  discard_known_updates = λ update_times.
      override.discard_known_updates update_times >>= complete.discard_known_updates;
}
