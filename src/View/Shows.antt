-- ===== src/View/Shows.antt =====
-- What a view shows, as a function from ids to revisions, and the views that keep to it.
use map_api.Prelude.{
  ℕ, ◌≡◌, ◌∙◌, refl, ap, Bool, true, false, not, Option, none, some, is_some, arith,
}
use map_api.Prelude.Checked.{ok, ◌>>=◌}
use map_api.Prelude.Map.{Map, find}
use map_api.Revision.{Revision, is_valid_id}
use map_api.Container.{Container, get_by_id}
use map_api.Container.Ram.{get_by_id_impl}
use map_api.View.{
  ViewBase, OverridingView, chunk_view, found, commit_history_view, history_get, get_committed,
  suppresses_committed, history_suppresses, commit_future_view,
}
use map_api.View.Combined.{
  combined_has, has_unsuppressed, combined_get, get_unsuppressed, combined_view,
}

abbrev pub Items : Type 0
Items = ℕ → Option Revision

-- `has` and `get` of the view do not abort at a valid id, and agree with the items.
pub record Shows (v : ViewBase) (items : Items) : Type 0 where
  pub has_eq : (id : ℕ) → is_valid_id id ≡ true → v.has id ≡ ok (is_some (items id))
  pub get_eq : (id : ℕ) → is_valid_id id ≡ true → v.get id ≡ ok (items id)

-- An overriding view: the items that it replaces and those that it suppresses. `get` is asked only
-- for the items that it has.
pub record Overrides (v : OverridingView) (items : Items) (hidden : ℕ → Bool) : Type 0 where
  pub has_eq : (id : ℕ) → is_valid_id id ≡ true → v.has id ≡ ok (is_some (items id))
  pub get_eq :
      (id : ℕ) (r : Revision) → is_valid_id id ≡ true → items id ≡ some r → v.get id ≡ ok (some r)
  pub suppresses_eq : (id : ℕ) → is_valid_id id ≡ true → v.suppresses id ≡ ok (hidden id)

-- The items of one view over those of another.
abbrev pub layer : Option Revision → Bool → Option Revision → Option Revision
layer (some r) hidden below = some r
layer none true below = none
layer none false below = below

abbrev pub layered : Items → (ℕ → Bool) → Items → Items
layered items hidden below id = layer (items id) (hidden id) (below id)

-- A chunk view shows what `getById` finds at its time.
pub chunk_view-Shows :
    (c : Container) (time : ℕ) → Shows (chunk_view c time) (λ id. get_by_id_impl id time c.data_)
unfolding chunk_view found get_by_id
chunk_view-Shows c time = record { has_eq = λ id valid. rw valid; get_eq = λ id valid. rw valid }

-- A combined view shows the items of the overriding view, and below them those of the complete view
-- that are not suppressed.
pub combined_view-Shows :
    (complete : ViewBase) (override : OverridingView) (below items : Items) (hidden : ℕ → Bool)
    → Shows complete below
    → Overrides override items hidden
    → Shows (combined_view complete override) (layered items hidden below)
unfolding combined_view combined_has has_unsuppressed combined_get get_unsuppressed
combined_view-Shows complete override below items hidden s o = record {
  has_eq =
      λ id valid. ground (arith, o.has_eq id valid, s.has_eq id valid, o.suppresses_eq id valid);
  get_eq = λ id valid. from id valid (items id) refl;
}
  where
    from :
        (id : ℕ)
        → is_valid_id id ≡ true
        → (x : Option Revision) → items id ≡ x
        → combined_get complete override id ≡ ok (layer (items id) (hidden id) (below id))
    from id valid (some r) e = ground (arith, o.has_eq id valid, o.get_eq id r valid e)
    from id valid none e =
        ground
          (arith, o.has_eq id valid, s.has_eq id valid, s.get_eq id valid, o.suppresses_eq id valid)

-- The items as a transaction has committed them, and those that it removed.
abbrev committed_from : Option ℕ → ℕ → Container → Option Revision
committed_from none id c = none
committed_from (some time) id c = get_by_id_impl id time c.data_

abbrev pub committed : Map ℕ → Container → Items
committed history c id = committed_from (find id history) id c

abbrev removed_from : Option ℕ → ℕ → Container → Bool
removed_from none id c = false
removed_from (some time) id c = not (is_some (get_by_id_impl id time c.data_))

abbrev pub committed_removal : Map ℕ → Container → ℕ → Bool
committed_removal history c id = removed_from (find id history) id c

-- A commit history view replaces the items that the transaction has committed, and suppresses those
-- that it removed.
pub commit_history_view-Overrides :
    (history : Map ℕ) (c : Container)
    → Overrides (commit_history_view history c) (committed history c) (committed_removal history c)
unfolding commit_history_view found history_get history_suppresses get_by_id
commit_history_view-Overrides history c = record {
  has_eq = λ id valid. has_from id valid (find id history);
  get_eq = λ id r valid e. get_from id valid (find id history) ∙ ap ok e;
  suppresses_eq = λ id valid. hidden_from id valid (find id history);
}
  where
    get_from :
        (id : ℕ)
        → is_valid_id id ≡ true
        → (o : Option ℕ) → get_committed o id c ≡ ok (committed_from o id c)
    get_from id valid none = refl
    get_from id valid (some time) = rw valid

    has_from :
        (id : ℕ)
        → is_valid_id id ≡ true
        → (o : Option ℕ)
        → (get_committed o id c >>= λ item. ok (is_some item))
          ≡ ok (is_some (committed_from o id c))
    has_from id valid o = rw (get_from id valid o)

    hidden_from :
        (id : ℕ)
        → is_valid_id id ≡ true
        → (o : Option ℕ) → suppresses_committed o id c ≡ ok (removed_from o id c)
    hidden_from id valid none = refl
    hidden_from id valid (some time) = rw valid

pub commit_future_view-Shows :
    (state : Map Revision) → Shows (commit_future_view state) (λ id. find id state)
unfolding commit_future_view
commit_future_view-Shows state = record { has_eq = λ id valid. refl; get_eq = λ id valid. refl }
