-- ===== src/Container/History.antt =====
-- The history of an item: the order that `patchImpl` keeps, and what `History::latestAt` finds.
use map_api.Prelude.{
  ℕ, ◌≤◌, ◌<◌, ◌≡◌, refl, ◌≢◌, Bool, true, false, some, [], ◌∷◌, leb, ◌==◌, if◌then◌else◌, arith,
}
use map_api.Prelude.Checked.{ok, fatal}
use map_api.Revision.{Revision}
use map_api.Container.Ram.{History, latest_at, patch_history}

-- The update times fall along the history, and lie below the bound.
abbrev pub Below : ℕ → History → Type 0
Below bound [] = Unit {0}
Below bound (r ∷ h) = (r.update_time < bound) × Below r.update_time h

-- Every revision of the history is of the item.
abbrev pub Owned : ℕ → History → Type 0
Owned id [] = Unit {0}
Owned id (r ∷ h) = (r.id ≡ id) × Owned id h

-- Is there a revision with this update time?
unfoldable pub has_time : ℕ → History → Bool
has_time time [] = false
has_time time (r ∷ h) = if r.update_time == time then true else has_time time h

-- A revision put in its place by its update time.
unfoldable pub placed : Revision → History → History
placed query [] = query ∷ []
placed query (item ∷ h) =
    if leb item.update_time query.update_time then query ∷ item ∷ h else item ∷ placed query h

pub Below-mono : (a b : ℕ) (h : History) → a ≤ b → Below a h → Below b h
Below-mono a b [] le below = tt
Below-mono a b (r ∷ h) le below = (omega arith, below.1)

pub has_time-above : (time : ℕ) (h : History) → Below time h → has_time time h ≡ false
unfolding has_time
has_time-above time [] b = refl
has_time-above time (r ∷ h) b =
    ground (arith, has_time-above time h, Below-mono r.update_time time h)

-- A time that the history does not have yet: the loop ends, with the revision in its place.
pub patch_history-placed :
    (query : Revision) (h : History)
    → has_time query.update_time h ≡ false
    → patch_history query h ≡ ok (placed query h)
unfolding patch_history has_time placed
patch_history-placed query [] f = refl
patch_history-placed query (item ∷ h) f = ground (arith, patch_history-placed query h)

-- A time that a sorted history has already aborts the process.
pub patch_history-fatal :
    (query : Revision) (h : History) (bound : ℕ)
    → Below bound h
    → has_time query.update_time h ≡ true
    → patch_history query h ≡ fatal
unfolding patch_history has_time
patch_history-fatal query [] bound b f = cc
patch_history-fatal query (item ∷ h) bound b f = ground (
  arith,
  patch_history-fatal query h item.update_time b.1,
  has_time-above query.update_time h,
  Below-mono item.update_time query.update_time h,
)

pub Below-placed :
    (query : Revision) (h : History) (bound : ℕ)
    → Below bound h
    → query.update_time < bound
    → has_time query.update_time h ≡ false
    → Below bound (placed query h)
unfolding placed has_time
Below-placed query [] bound b q f = (q, tt)
Below-placed query (item ∷ h) bound b q f =
    ground (arith, Below-placed query h item.update_time b.1)

pub Owned-placed :
    (id : ℕ) (query : Revision) (h : History)
    → Owned id h
    → query.id ≡ id
    → Owned id (placed query h)
unfolding placed
Owned-placed id query [] o e = (e, tt)
Owned-placed id query (item ∷ h) o e = ground (arith, Owned-placed id query h o.1 e)

-- A revision that is newer than all others comes first.
pub placed-newest :
    (query : Revision) (h : History) → Below query.update_time h → placed query h ≡ query ∷ h
unfolding placed
placed-newest query [] b = refl
placed-newest query (item ∷ h) b = ground arith

-- Two patches with different times end in the same history, whichever comes first.
pub placed_comm :
    (a b : Revision) (h : History)
    → a.update_time ≢ b.update_time
    → placed a (placed b h) ≡ placed b (placed a h)
unfolding placed
placed_comm a b [] n = ground arith
placed_comm a b (item ∷ h) n = ground (arith, placed_comm a b h n)

-- A time before the patch sees the history as it was.
pub latest_at-placed_before :
    (time : ℕ) (query : Revision) (h : History)
    → time < query.update_time
    → latest_at time (placed query h) ≡ latest_at time h
unfolding latest_at placed
latest_at-placed_before time query [] lt = ground arith
latest_at-placed_before time query (item ∷ h) lt =
    ground (arith, latest_at-placed_before time query h lt)

-- What is found is in the history, is not newer than asked for, and is not removed.
pub latest_at-some :
    (id time bound : ℕ) (h : History) (r : Revision)
    → Owned id h
    → Below bound h
    → latest_at time h ≡ some r
    → (r.id ≡ id) × (r.update_time ≤ time) × (r.removed ≡ false) × (r.update_time < bound)
unfolding latest_at
latest_at-some id time bound [] r o b e = cc
latest_at-some id time bound (item ∷ h) r o b e =
    ground (arith, latest_at-some id time item.update_time h r o.1 b.1)

pub has_time-placed :
    (time : ℕ) (query : Revision) (h : History)
    → has_time time (placed query h) ≡ (if query.update_time == time then true else has_time time h)
unfolding has_time placed
has_time-placed time query [] = refl
has_time-placed time query (item ∷ h) = ground (arith, has_time-placed time query h)

pub placed-ne-nil : (query : Revision) (h : History) → placed query h ≢ []
unfolding placed
placed-ne-nil query [] e = cc
placed-ne-nil query (item ∷ h) e = ground arith
