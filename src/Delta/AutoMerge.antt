-- ===== src/Delta/AutoMerge.antt =====
-- What a delta that passed the check for conflicts is.
use mathlib.Core.Path.{subst}
use map_api.Prelude.{
  ◌&&◌, if◌then◌else◌, ℕ, ◌≡◌, refl, ap, sym, inl, inr, Bool, true, false, List, [], ◌∷◌,
  Bool-cases, arith,
}
use map_api.Prelude.Checked.{Checked, ok, fatal, ◌>>=◌, >>=-eq-ok}
use map_api.Prelude.Map.{Map, has}
use map_api.Revision.{Revision, AutoMergePolicy}
use map_api.View.{ViewBase}
use map_api.Delta.{Delta}
use map_api.Delta.Traverse.{
  finish_check, any_potential, try_merge_item, keep_update, after_merge, merge_round, merge_updates,
  has_conflicts_after_trying_to_merge,
}

pub any_potential-false :
    (m : Map Revision) (potential : Map ℕ) (id : ℕ)
    → any_potential m potential ≡ false
    → (has id m && has id potential) ≡ false
unfolding any_potential has
any_potential-false [] potential id h = refl
any_potential-false ((j, r) ∷ m) potential id h =
    ground (arith, any_potential-false m potential id, has_eq j id)
  where
    has_eq : (a b : ℕ) → a ≡ b → has a potential ≡ has b potential
    has_eq a b e = ap (λ i. has i potential) e

module _ (policies : List AutoMergePolicy) (original_view conflict_view : ViewBase) where
  -- What an update is after the check: an item in conflict was merged with success, any other is
  -- as it was.
  abbrev pub Merged : Map ℕ → ℕ → Revision → Revision → Type 0
  Merged potential id ours ours' =
      (if has id potential
        then try_merge_item policies original_view conflict_view id ours
        else ok (true, ours))
      ≡ ok (true, ours')

  -- The same for all updates, entry by entry.
  abbrev pub AllMerged : Map ℕ → Map Revision → Map Revision → Type 0
  AllMerged potential [] [] = Unit {0}
  AllMerged potential ((id, r) ∷ m) ((id', r') ∷ m') =
      (id' ≡ id) × Merged potential id r r' × AllMerged potential m m'
  AllMerged potential _ _ = ⊥

  keep_update-false :
      (id : ℕ) (ours : Revision) (m' : Map Revision) (rest : Checked (Bool × Map Revision))
      → keep_update policies original_view conflict_view id ours rest ≡ ok (false, m')
      → (items' : Map Revision) × (rest ≡ ok (false, items')) × (m' ≡ (id, ours) ∷ items')
  unfolding keep_update
  keep_update-false id ours m' (ok (false, items')) e = (items', refl, ground arith)
  keep_update-false id ours m' (ok (true, items')) e = cc
  keep_update-false id ours m' fatal e = cc

  after_merge-false :
      (id : ℕ) (items m' : Map Revision) (rest : Checked (Bool × Map Revision))
      (outcome : Bool × Revision)
      → after_merge policies original_view conflict_view id items rest outcome ≡ ok (false, m')
      → (items' : Map Revision) × (rest ≡ ok (false, items'))
        × (m' ≡ (id, outcome.1) ∷ items')
        × (outcome.0 ≡ true)
  unfolding after_merge
  after_merge-false id items m' rest (true, ours') e =
      let (items', e1, e2) = keep_update-false id ours' m' rest e in (items', e1, e2, refl)
  after_merge-false id items m' rest (false, ours') e = cc

  merge_round-false :
      (potential : Map ℕ) (b : Bool) (id : ℕ) (ours : Revision) (items m' : Map Revision)
      (rest : Checked (Bool × Map Revision))
      → has id potential ≡ b
      → merge_round policies original_view conflict_view b id ours items rest ≡ ok (false, m')
      → (items' : Map Revision) × (ours' : Revision) × (rest ≡ ok (false, items'))
        × (m' ≡ (id, ours') ∷ items')
        × Merged potential id ours ours'
  unfolding merge_round
  merge_round-false potential false id ours items m' rest h e =
      let (items', e1, e2) = keep_update-false id ours m' rest e in
      (items', ours, e1, e2, rw h refl)
  merge_round-false potential true id ours items m' rest h e =
      let (outcome, e1, e2) =
        >>=-eq-ok (try_merge_item policies original_view conflict_view id ours)
          (after_merge policies original_view conflict_view id items rest) e in
      let (items', e3, e4, done) = after_merge-false id items m' rest outcome e2 in
      (items', outcome.1, e3, e4, rw h (ground (arith, e1)))

  merge_updates-false :
      (potential : Map ℕ) (m m' : Map Revision)
      → merge_updates policies original_view conflict_view potential m ≡ ok (false, m')
      → AllMerged potential m m'
  unfolding merge_updates
  merge_updates-false potential [] m' e =
      let none_left : ◌≡◌ {A = Map Revision} [] m' = ground arith in
      subst (AllMerged potential []) none_left tt
  merge_updates-false potential ((id, r) ∷ m) m' e =
      let (items', ours', e1, e2, merged) =
        merge_round-false potential (has id potential) id r m m'
          (merge_updates policies original_view conflict_view potential m) refl e in
      subst (AllMerged potential ((id, r) ∷ m)) (sym e2)
        (refl, merged, merge_updates-false potential m items' e1)

  -- A delta passes the check for conflicts only if no item that it inserts or removes is among the
  -- potential conflicts, and each item that it updates and that is among them was merged with
  -- success; its other updates, its insertions and its removes stay as they were.
  pub passes_check :
      (potential : Map ℕ) (d d' : Delta)
      → has_conflicts_after_trying_to_merge policies original_view conflict_view potential d
        ≡ ok (false, d')
      → ((id : ℕ) → (has id d.insertions_ && has id potential) ≡ false)
        × ((id : ℕ) → (has id d.removes_ && has id potential) ≡ false)
        × AllMerged potential d.updates_ d'.updates_
        × (d'.insertions_ ≡ d.insertions_)
        × (d'.removes_ ≡ d.removes_)
  unfolding has_conflicts_after_trying_to_merge finish_check
  passes_check potential d d' e = elim (Bool-cases (any_potential d.insertions_ potential)) [
    | inl bad ↦ cc (fails bad)
    | inr good ↦
        let ((conflict, updates'), e1, e2) =
          >>=-eq-ok (merge_updates policies original_view conflict_view potential d.updates_)
            (finish_check potential d) (passed good) in
        let c : conflict ≡ false = ground arith in
        let r : any_potential d.removes_ potential ≡ false = ground arith in
        let shape : record d { updates_ = updates' } ≡ d' = ground arith in
        (
          λ id. any_potential-false d.insertions_ potential id good,
          λ id. any_potential-false d.removes_ potential id r,
          subst (λ (x : Delta). AllMerged potential d.updates_ x.updates_) shape
              (merge_updates-false potential d.updates_ updates' (ground (arith, e1, c))),
          ap (λ (x : Delta). x.insertions_) (sym shape),
          ap (λ (x : Delta). x.removes_) (sym shape),
        )
  ]
    where
      fails : any_potential d.insertions_ potential ≡ true → ◌≡◌ {A = Bool} true false
      fails bad = ground arith

      passed :
          any_potential d.insertions_ potential ≡ false
          → (merge_updates policies original_view conflict_view potential d.updates_
              >>= finish_check potential d)
            ≡ ok (false, d')
      passed good = ground arith
