-- ===== src/View/Ids.antt =====
-- `CombinedView::getAvailableIds` against `CombinedView::get`.
use map_api.Prelude.{
  Bool, ℕ, ◌≡◌, ◌∙◌, refl, ap, true, false, Option, none, some, List, [], ◌∷◌, if◌then◌else◌,
  is_some, arith,
}
use map_api.Prelude.Checked.{ok}
use map_api.Prelude.IdSet.{contains}
use map_api.Revision.{Revision, is_valid_id}
use map_api.View.{ViewBase, OverridingView}
use map_api.View.Combined.{combined_view, combined_ids, drop_suppressed}
use map_api.View.Shows.{Items, Shows, Overrides, layer, combined_view-Shows}

abbrev pub AllValid : List ℕ → Type 0
AllValid [] = Unit {0}
AllValid (id ∷ ids) = (is_valid_id id ≡ true) × AllValid ids

drop_suppressed_total :
    (override : OverridingView) (hidden : ℕ → Bool) (ids : List ℕ)
    → ((id : ℕ) → is_valid_id id ≡ true → override.suppresses id ≡ ok (hidden id))
    → AllValid ids
    → (left : List ℕ) × (drop_suppressed override ids ≡ ok left)
unfolding drop_suppressed
drop_suppressed_total override hidden [] s v = ([], refl)
drop_suppressed_total override hidden (id ∷ ids) s v =
    let (left, e) = drop_suppressed_total override hidden ids s v.1 in
    ((if hidden id then left else id ∷ left), ground (arith, s id v.0))

-- An item that only the complete view shows is found by `get`, and its id is not among the ids that
-- `getAvailableIds` returns.
pub combined_ids_incomplete :
    (complete : ViewBase) (override : OverridingView) (below items : Items) (hidden : ℕ → Bool)
    (ids all : List ℕ) (id : ℕ) (r : Revision)
    → Shows complete below
    → Overrides override items hidden
    → override.get_available_ids ≡ ok ids
    → ((j : ℕ) → contains j ids ≡ is_some (items j))
    → complete.get_available_ids ≡ ok all
    → AllValid all
    → is_valid_id id ≡ true
    → below id ≡ some r
    → items id ≡ none
    → hidden id ≡ false
    → ((combined_view complete override).get id ≡ ok (some r))
      × ((combined_view complete override).get_available_ids ≡ ok ids)
      × (contains id ids ≡ false)
unfolding combined_view combined_ids
combined_ids_incomplete complete override below items hidden ids all id r s o oi oc ca va v b i h =
    let shows = combined_view-Shows complete override below items hidden s o in
    let (left, e) = drop_suppressed_total override hidden all o.suppresses_eq va in
    (
      shows.get_eq id v ∙ ap ok (below_shows (items id) (hidden id) (below id) i h b),
      ground (arith, oi, ca, e),
      oc id ∙ ap is_some i,
    )
  where
    below_shows :
        (x : Option Revision) (y : Bool) (z : Option Revision)
        → x ≡ none
        → y ≡ false
        → z ≡ some r
        → layer x y z ≡ some r
    below_shows x y z ex ey ez = rw (ex, ey, ez)
