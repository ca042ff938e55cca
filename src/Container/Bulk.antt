-- ===== src/Container/Bulk.antt =====
-- Several revisions with one update time, as a commit writes them: what every time sees of them,
-- and the same revisions arriving at another peer one by one.
use map_api.Prelude.{
  ℕ, suc, ◌≤◌, ◌<◌, ◌≡◌, ◌∙◌, refl, ap, Option, none, some, List, [], ◌∷◌, ◌++◌, ◌==◌,
  if◌then◌else◌, arith,
}
use map_api.Prelude.Checked.{Checked, ok, ◌>>=◌}
use map_api.Revision.{Revision}
use map_api.Container.Ram.{HistoryMap, history_of, patch_impl, get_by_id_impl}
use map_api.Container.History.{Below, Below-mono, has_time-above}
use map_api.Container.Writes.{
  IsWellFormed, with_revision, patch_impl-with_revision, with_revision-IsWellFormed, shown,
  get-with_revision_before, get-with_revision_newest, history_of-with_revision_ne, fresh_history,
}

-- Each revision in its place, one after the other.
unfoldable pub write_all : List Revision → HistoryMap → HistoryMap
write_all [] data_ = data_
write_all (r ∷ rs) data_ = write_all rs (with_revision r data_)

-- The same by `patchImpl`.
unfoldable pub patch_all : List Revision → HistoryMap → Checked HistoryMap
patch_all [] data_ = ok data_
patch_all (r ∷ rs) data_ = patch_impl r data_ >>= λ data'. patch_all rs data'

-- The revision of an item.
abbrev pub at_id : ℕ → List Revision → Option Revision
at_id j [] = none
at_id j (r ∷ rs) = if r.id == j then some r else at_id j rs

-- No item has two revisions, and all have the update time.
abbrev pub Batch : ℕ → List Revision → Type 0
Batch time [] = Unit {0}
Batch time (r ∷ rs) = (r.update_time ≡ time) × (at_id r.id rs ≡ none) × Batch time rs

-- The histories of the items are older.
abbrev pub Older : List Revision → HistoryMap → Type 0
Older [] data_ = Unit {0}
Older (r ∷ rs) data_ = Below r.update_time (history_of r.id data_) × Older rs data_

-- What an item shows: its revision in the batch, or else what it showed before.
abbrev pub overlay : Option Revision → Option Revision → Option Revision
overlay none before = before
overlay (some r) before = shown r

pub Older-IsWellFormed :
    (time bound : ℕ) (rs : List Revision) (data_ : HistoryMap)
    → Batch time rs
    → IsWellFormed bound data_
    → bound ≤ time
    → Older rs data_
Older-IsWellFormed time bound [] data_ batch w le = tt
Older-IsWellFormed time bound (r ∷ rs) data_ batch w le = (
  fresh_history r bound data_ w (omega arith),
  Older-IsWellFormed time bound rs data_ batch.2 w le,
)

pub Older-with_revision :
    (q : Revision) (rs : List Revision) (data_ : HistoryMap)
    → at_id q.id rs ≡ none
    → Older rs data_
    → Older rs (with_revision q data_)
Older-with_revision q [] data_ n older = tt
Older-with_revision q (r ∷ rs) data_ n older = (
  rw (history_of-with_revision_ne q r.id data_ (ground arith)) older.0,
  Older-with_revision q rs data_ (ground arith) older.1,
)

-- A time before the batch sees every item as it was.
pub get-write_all_before :
    (time T j : ℕ) (rs : List Revision) (data_ : HistoryMap)
    → Batch T rs
    → time < T
    → get_by_id_impl j time (write_all rs data_) ≡ get_by_id_impl j time data_
unfolding write_all
get-write_all_before time T j [] data_ batch lt = refl
get-write_all_before time T j (r ∷ rs) data_ batch lt =
    get-write_all_before time T j rs (with_revision r data_) batch.2 lt
    ∙ get-with_revision_before r j time data_ (omega arith)

-- The time of the batch and those after it see the batch, over what was there.
pub get-write_all :
    (time T j : ℕ) (rs : List Revision) (data_ : HistoryMap)
    → Batch T rs
    → Older rs data_
    → T ≤ time
    → get_by_id_impl j time (write_all rs data_)
      ≡ overlay (at_id j rs) (get_by_id_impl j time data_)
unfolding write_all
get-write_all time T j [] data_ batch older le = refl
get-write_all time T j (r ∷ rs) data_ batch older le = ground (
  arith,
  get-write_all time T j rs (with_revision r data_) batch.2
      (Older-with_revision r rs data_ batch.1 older.1) le,
  get-with_revision_newest r j time data_ older.0,
  at_id_eq r.id j rs,
)
  where
    at_id_eq : (a b : ℕ) (l : List Revision) → a ≡ b → at_id a l ≡ at_id b l
    at_id_eq a b l e = ap (λ i. at_id i l) e

pub write_all-IsWellFormed :
    (T bound : ℕ) (rs : List Revision) (data_ : HistoryMap)
    → Batch T rs
    → Older rs data_
    → IsWellFormed bound data_
    → bound ≤ suc T
    → IsWellFormed (suc T) (write_all rs data_)
unfolding write_all
write_all-IsWellFormed T bound [] data_ batch older w le = widen
  where
    widen : IsWellFormed (suc T) data_
    widen = record {
      unique = w.unique;
      history_at =
          λ id h e. let (b, o, n) = w.history_at id h e in (Below-mono bound (suc T) h le b, o, n);
    }
write_all-IsWellFormed T bound (r ∷ rs) data_ batch older w le =
    write_all-IsWellFormed T (suc T) rs (with_revision r data_) batch.2
      (Older-with_revision r rs data_ batch.1 older.1)
      (with_revision-IsWellFormed r bound (suc T) data_ w le (omega arith)
        (has_time-above r.update_time (history_of r.id data_) older.0))
      (omega arith)

-- Patching the batch one by one does not abort, and ends in the same data.
pub patch_all-write_all :
    (T : ℕ) (rs : List Revision) (data_ : HistoryMap)
    → Batch T rs
    → Older rs data_
    → patch_all rs data_ ≡ ok (write_all rs data_)
unfolding patch_all write_all
patch_all-write_all T [] data_ batch older = refl
patch_all-write_all T (r ∷ rs) data_ batch older =
    rw
      (patch_impl-with_revision r data_
        (has_time-above r.update_time (history_of r.id data_) older.0))
      (patch_all-write_all T rs (with_revision r data_) batch.2
        (Older-with_revision r rs data_ batch.1 older.1))

pub write_all-append :
    (xs ys : List Revision) (data_ : HistoryMap)
    → write_all (xs ++ ys) data_ ≡ write_all ys (write_all xs data_)
unfolding write_all
write_all-append [] ys data_ = refl
write_all-append (x ∷ xs) ys data_ = write_all-append xs ys (with_revision x data_)
