-- ===== src/Container/Writes.antt =====
-- What the writes of a container change: the place of a revision, the times that see it, and the
-- invariant of the histories.
use mathlib.Core.Path.{subst₂}
use map_api.Prelude.{
  sym, ==_iff, ℕ, ◌≤◌, ◌<◌, ◌≡◌, ◌∙◌, refl, ap, ◌≢◌, inl, inr, true, false, Option, none, some, [],
  ◌∷◌, ◌==◌, if◌then◌else◌, Bool-cases, arith,
}
use map_api.Prelude.Checked.{ok}
use map_api.Prelude.Map.{find, has, assign, Unique, find-assign, Unique-assign, find-none}
use map_api.Revision.{Revision}
use map_api.Container.Ram.{
  History, HistoryMap, history_from, latest_from, latest_at, history_of, patch_impl, insert_impl,
  get_by_id_impl,
}
use map_api.Container.History.{
  Below, Owned, has_time, placed, Below-mono, has_time-above, patch_history-placed, Below-placed,
  Owned-placed, placed-newest, placed-ne-nil, latest_at-placed_before,
}

-- Each item has one history, which is not empty, is of that item, and falls in its update times,
-- all of them below the bound.
pub record IsWellFormed (bound : ℕ) (data_ : HistoryMap) : Type 0 where
  pub unique : Unique data_
  pub history_at :
      (id : ℕ) (h : History) → find id data_ ≡ some h → Below bound h × Owned id h × (h ≢ [])

-- The data with one more revision, in its place.
unfoldable pub with_revision : Revision → HistoryMap → HistoryMap
unfolding history_of
with_revision r data_ = assign r.id (placed r (history_of r.id data_)) data_

-- `patchImpl` puts a revision into its place, if its update time is new in the item's history.
pub patch_impl-with_revision :
    (r : Revision) (data_ : HistoryMap)
    → has_time r.update_time (history_of r.id data_) ≡ false
    → patch_impl r data_ ≡ ok (with_revision r data_)
unfolding patch_impl with_revision
patch_impl-with_revision r data_ f =
    ground (arith, patch_history-placed r (history_of r.id data_) f)

pub insert_impl-with_revision :
    (r : Revision) (data_ : HistoryMap)
    → has r.id data_ ≡ false
    → insert_impl r data_ ≡ (true, with_revision r data_)
unfolding insert_impl with_revision placed
insert_impl-with_revision r data_ h = ground (arith, find-none r.id data_ h)

good_from :
    (id bound : ℕ) (o : Option History)
    → ((h : History) → o ≡ some h → Below bound h × Owned id h × (h ≢ []))
    → Below bound (history_from o) × Owned id (history_from o)
good_from id bound none good = (tt, tt)
good_from id bound (some h) good = let (b, o, n) = good h refl in (b, o)

pub history_of-good :
    (id bound : ℕ) (data_ : HistoryMap)
    → IsWellFormed bound data_
    → Below bound (history_of id data_) × Owned id (history_of id data_)
unfolding history_of
history_of-good id bound data_ w = good_from id bound (find id data_) (w.history_at id)

-- The bound of a well-formed container is above every update time, so that a revision at the bound
-- or later is new.
pub fresh_history :
    (r : Revision) (bound : ℕ) (data_ : HistoryMap)
    → IsWellFormed bound data_
    → bound ≤ r.update_time
    → Below r.update_time (history_of r.id data_)
fresh_history r bound data_ w le =
    Below-mono bound r.update_time (history_of r.id data_) le (history_of-good r.id bound data_ w).0

pub fresh_time :
    (r : Revision) (bound : ℕ) (data_ : HistoryMap)
    → IsWellFormed bound data_
    → bound ≤ r.update_time
    → has_time r.update_time (history_of r.id data_) ≡ false
fresh_time r bound data_ w le = has_time-above r.update_time (history_of r.id data_) (
    Below-mono bound r.update_time (history_of r.id data_) le
      (history_of-good r.id bound data_ w).0)

-- Writing a revision with a new update time keeps the container well formed.
pub with_revision-IsWellFormed :
    (r : Revision) (bound later : ℕ) (data_ : HistoryMap)
    → IsWellFormed bound data_
    → bound ≤ later
    → r.update_time < later
    → has_time r.update_time (history_of r.id data_) ≡ false
    → IsWellFormed later (with_revision r data_)
unfolding with_revision
with_revision-IsWellFormed r bound later data_ w le lt f = record {
  unique = Unique-assign r.id (placed r (history_of r.id data_)) data_ w.unique;
  history_at = λ id h e. elim (Bool-cases (r.id == id)) [
    | inl hit ↦
        written id h hit
          (ground (arith, find-assign r.id id (placed r (history_of r.id data_)) data_))
    | inr miss ↦
        let (b, o, n) =
          w.history_at id h
            (ground (arith, find-assign r.id id (placed r (history_of r.id data_)) data_)) in
        (Below-mono bound later h le b, o, n)
  ];
}
  where
    old : Below later (history_of r.id data_) × Owned r.id (history_of r.id data_)
    old =
        let (b, o) = history_of-good r.id bound data_ w in
        (Below-mono bound later (history_of r.id data_) le b, o)

    Good : ℕ → History → Type 0
    Good id h = Below later h × Owned id h × (h ≢ [])

    here : Good r.id (placed r (history_of r.id data_))
    here = (
      Below-placed r (history_of r.id data_) later old.0 lt f,
      Owned-placed r.id r (history_of r.id data_) old.1 refl,
      placed-ne-nil r (history_of r.id data_),
    )

    written :
        (id : ℕ) (h : History)
        → (r.id == id) ≡ true
        → h ≡ placed r (history_of r.id data_)
        → Good id h
    written id h hit e = subst₂ Good ((==_iff r.id id).0 hit) (sym e) here

get-with_revision :
    (r : Revision) (j time : ℕ) (data_ : HistoryMap)
    → get_by_id_impl j time (with_revision r data_) ≡ (
        if r.id == j
        then latest_at time (placed r (history_of r.id data_))
        else get_by_id_impl j time data_)
unfolding get_by_id_impl with_revision
get-with_revision r j time data_ =
    ground (arith, find-assign r.id j (placed r (history_of r.id data_)) data_)

get-history_of :
    (id j time : ℕ) (data_ : HistoryMap)
    → (id == j) ≡ true
    → latest_at time (history_of id data_) ≡ get_by_id_impl j time data_
unfolding get_by_id_impl history_of latest_at
get-history_of id j time data_ hit =
    ap (λ i. latest_at time (history_of i data_)) ((==_iff id j).0 hit) ∙ from (find j data_)
  where
    from : (o : Option History) → latest_at time (history_from o) ≡ latest_from time o
    from none = refl
    from (some h) = refl

-- A time before the written revision sees every item as it was.
pub get-with_revision_before :
    (r : Revision) (j time : ℕ) (data_ : HistoryMap)
    → time < r.update_time
    → get_by_id_impl j time (with_revision r data_) ≡ get_by_id_impl j time data_
get-with_revision_before r j time data_ lt = ground (
  arith,
  get-with_revision r j time data_,
  latest_at-placed_before time r (history_of r.id data_) lt,
  get-history_of r.id j time data_,
)

-- What a revision shows of its item: nothing, if it removes the item.
abbrev pub shown : Revision → Option Revision
shown r = if r.removed then none else some r

-- A revision that is newer than the history of its item is what the item shows from then on.
pub get-with_revision_newest :
    (r : Revision) (j time : ℕ) (data_ : HistoryMap)
    → Below r.update_time (history_of r.id data_)
    → r.update_time ≤ time
    → get_by_id_impl j time (with_revision r data_)
      ≡ (if r.id == j then shown r else get_by_id_impl j time data_)
get-with_revision_newest r j time data_ b lt =
    let h = history_of r.id data_ in
    ground (arith, get-with_revision r j time data_, placed-newest r h b, latest_here)
  where
    latest_here : latest_at time (r ∷ history_of r.id data_) ≡ shown r
    latest_here = unfold latest_at in ground arith

-- The other histories stay as they are.
pub history_of-with_revision_ne :
    (r : Revision) (id : ℕ) (data_ : HistoryMap)
    → (r.id == id) ≡ false
    → history_of id (with_revision r data_) ≡ history_of id data_
unfolding history_of with_revision
history_of-with_revision_ne r id data_ ne =
    ground (arith, find-assign r.id id (placed r (history_of r.id data_)) data_)
