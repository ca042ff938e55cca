-- ===== src/View/Dump.antt =====
-- `CombinedView::dump` and `CombinedView::getAvailableIds` against `CombinedView::get`.
use map_api.Prelude.{
  ℕ, ◌≡◌, ◌∙◌, refl, ap, sym, inl, inr, Bool, true, false, not, Option, none, some, [], ◌∷◌, ◌&&◌,
  if◌then◌else◌, is_some, Bool-cases, arith,
}
use map_api.Prelude.Checked.{ok}
use map_api.Prelude.Map.{
  Map, Unique, find, has, has-find, insert_range, find-insert_range, find-none, Unique-insert_range,
}
use map_api.Revision.{Revision, is_valid_id}
use map_api.View.{ViewBase, OverridingView}
use map_api.View.Combined.{erase_suppressed, finish_dump, combined_dump, combined_view}
use map_api.View.Shows.{Items, Shows, Overrides, layer, layered, combined_view-Shows}

-- `dump`, called with the clock, returns a map with the items, and leaves the other clock.
abbrev pub Dumps : ViewBase → Items → ℕ → ℕ → Type 0
Dumps v items clock later =
    (result : Map Revision) × (v.dump clock ≡ ok (result, later))
    × ((id : ℕ) → find id result ≡ items id)
    × Unique result

-- Every item has a valid id.
abbrev pub ValidIds : Items → Type 0
ValidIds items = (id : ℕ) (r : Revision) → items id ≡ some r → is_valid_id id ≡ true

has_eq : (j k : ℕ) (m : Map Revision) → j ≡ k → has j m ≡ has k m
has_eq j k m e = ap (λ i. has i m) e

abbrev ValidKeys : Map Revision → Type 0
ValidKeys [] = Unit {0}
ValidKeys ((id, r) ∷ m) = (is_valid_id id ≡ true) × ValidKeys m

valid_keys : (m : Map Revision) → ((id : ℕ) → has id m ≡ true → is_valid_id id ≡ true) → ValidKeys m
unfolding has
valid_keys [] valid = tt
valid_keys ((id, r) ∷ m) valid =
    (valid id (ground arith), valid_keys m λ j h. valid j (ground arith))

valid_items :
    (items : Items) (m : Map Revision)
    → ValidIds items
    → ((id : ℕ) → find id m ≡ items id)
    → ValidKeys m
valid_items items m valid same =
    valid_keys m λ id h. let (r, e) = has-find id m h in valid id r (sym (same id) ∙ e)

erase_suppressed_lem :
    (override : OverridingView) (hidden : ℕ → Bool) (m : Map Revision)
    → ((id : ℕ) → is_valid_id id ≡ true → override.suppresses id ≡ ok (hidden id))
    → ValidKeys m
    → Unique m
    → (kept : Map Revision) × (erase_suppressed override m ≡ ok kept)
      × ((j : ℕ) → find j kept ≡ (if hidden j then none else find j m))
      × ((j : ℕ) → has j m ≡ false → has j kept ≡ false)
      × Unique kept
unfolding erase_suppressed find has
erase_suppressed_lem override hidden [] s valid u = ([], refl, λ j. ground arith, λ j h. refl, tt)
erase_suppressed_lem override hidden ((id, r) ∷ m) s valid u =
    let (kept, e, found, absent, unique) = erase_suppressed_lem override hidden m s valid.1 u.1 in
    elim (Bool-cases (hidden id)) [
      | inl drop ↦ (
        kept,
        ground (arith, s id valid.0),
        λ j. ground (arith, found j, find-none j m, has_eq id j m, hidden_eq id j),
        λ j h. ground (arith, absent j),
        unique,
      )
      | inr keep ↦ (
        (id, r) ∷ kept,
        ground (arith, s id valid.0),
        λ j. ground (arith, found j, hidden_eq id j),
        λ j h. ground (arith, absent j),
        (absent id u.0, unique),
      )
    ]
  where
    hidden_eq : (a b : ℕ) → a ≡ b → hidden a ≡ hidden b
    hidden_eq a b e = ap hidden e

-- What `dump` of a combined view returns for an item: an item of the complete view that is not
-- suppressed stays, also where the overriding view has another revision of it.
abbrev pub dumped : Items → (ℕ → Bool) → Items → Items
dumped items hidden below id = if is_some (below id) && not (hidden id) then below id else items id

module _ (complete : ViewBase) (override : OverridingView) (below items : Items) (hidden : ℕ → Bool)
    (o : Overrides override items hidden) (valid : ValidIds below) where
  pub combined_dump_lem :
      (clock middle later : ℕ)
      → Dumps override.view items clock middle
      → Dumps complete below middle later
      → Dumps (combined_view complete override) (dumped items hidden below) clock later
  unfolding combined_view combined_dump finish_dump
  combined_dump_lem clock middle later (om, oe, of, ou) (cm, ce, cf, cu) =
      let (kept, e, found, absent, unique) =
        erase_suppressed_lem override hidden cm o.suppresses_eq (valid_items below cm valid cf)
          cu in
      (
        insert_range kept om,
        ground (arith, oe, ce, e),
        λ id. ground (
          arith,
          find-insert_range kept om id,
          found id,
          cf id,
          of id,
          find-none id kept,
          has_of_find id kept,
          absent id,
        ),
        Unique-insert_range kept om unique,
      )
    where
      has_of_find : (id : ℕ) (m : Map Revision) → has id m ≡ is_some (find id m)
      has_of_find id m = elim (Bool-cases (has id m)) [
        | inl h ↦ let (r, e) = has-find id m h in rw (h, e)
        | inr h ↦ rw (h, find-none id m h)
      ]

  -- Where the overriding view has a revision of an item that the complete view shows too and that
  -- is not suppressed, `get` of the combined view returns the overriding revision, and `dump` the
  -- one of the complete view.
  pub combined_dump_stale :
      (clock middle later id : ℕ) (old new : Revision)
      → Shows complete below
      → Dumps override.view items clock middle
      → Dumps complete below middle later
      → below id ≡ some old
      → items id ≡ some new
      → hidden id ≡ false
      → ((combined_view complete override).get id ≡ ok (some new))
        × (result : Map Revision) × ((combined_view complete override).dump clock
            ≡ ok (result, later))
        × (find id result ≡ some old)
  combined_dump_stale clock middle later id old new s od cd b i h =
      let (result, e, found, _) = combined_dump_lem clock middle later od cd in
      let shows = combined_view-Shows complete override below items hidden s o in
      (
        shows.get_eq id (valid id old b) ∙ ap ok (layered_new (items id) (hidden id) (below id) i),
        result,
        e,
        found id ∙ ground arith,
      )
    where
      layered_new :
          (x : Option Revision) (y : Bool) (z : Option Revision)
          → x ≡ some new
          → layer x y z ≡ some new
      layered_new x y z e = rw e

  -- Where the views never show two revisions of one item, `dump` returns what `get` does.
  pub combined_dump-layered :
      (clock middle later : ℕ)
      → ((id : ℕ) → (is_some (items id) && is_some (below id) && not (hidden id)) ≡ false)
      → Dumps override.view items clock middle
      → Dumps complete below middle later
      → Dumps (combined_view complete override) (layered items hidden below) clock later
  combined_dump-layered clock middle later apart od cd =
      let (result, e, found, u) = combined_dump_lem clock middle later od cd in
      (result, e, λ id. found id ∙ same (items id) (hidden id) (below id) (apart id), u)
    where
      same :
          (x : Option Revision) (y : Bool) (z : Option Revision)
          → (is_some x && is_some z && not y) ≡ false
          → (if is_some z && not y then z else x) ≡ layer x y z
      same none true none h = refl
      same none false none h = refl
      same none true (some r) h = refl
      same none false (some r) h = refl
      same (some q) y none h = refl
      same (some q) true (some r) h = refl
      same (some q) false (some r) h = cc
