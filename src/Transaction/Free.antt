-- ===== src/Transaction/Free.antt =====
-- What a check without conflicts says of a transaction on one chunk.
use mathlib.Core.Path.{subst}
use map_api.Prelude.{
  ℕ, ◌≡◌, ◌∙◌, refl, ap, sym, true, false, Option, List, [], ◌∷◌, ◌&&◌, if◌then◌else◌,
}
use map_api.Prelude.Checked.{ok}
use map_api.Prelude.Map.{Map, has}
use map_api.LogicalTime.{pure, sample}
use map_api.LogicalTime.Steps.{timed-eq-ok}
use map_api.Revision.{Revision, AutoMergePolicy}
use map_api.Container.{find_by_revision}
use map_api.View.{chunk_view}
use map_api.Chunk.{Chunk, get_update_times}
use map_api.Delta.{Delta}
use map_api.Delta.AutoMerge.{AllMerged, passes_check}
use map_api.Transaction.{Transaction, view_before_delta}
use map_api.Transaction.Commit.{is_empty, conditions_hold, check_conditions, has_no_conflicts}
use map_api.Transaction.Isolation.{traversed}

-- No conflict condition finds an item of the chunk.
abbrev pub NothingFound : Chunk → List (Option ℕ × Revision) → Type 0
NothingFound chunk [] = Unit {0}
NothingFound chunk ((key, value_holder) ∷ conditions) =
    ((now clock later : ℕ) × (find_by_revision key value_holder now chunk.container clock
        ≡ ok ([], later)))
    × NothingFound chunk conditions

-- The transaction has no conflict with the chunk: of the updates of the chunk, at some time, that
-- its view does not know, none is of an item that it inserts or removes; each of its updates that
-- is of such an item was merged with success, and the others were kept; and its conflict conditions
-- find nothing. The delta after the check has the merged updates.
abbrev pub IsFree : List AutoMergePolicy → Chunk → Transaction → Transaction → Type 0
IsFree policies chunk t t' =
    (times left : Map ℕ) × (clock middle now : ℕ) × (get_update_times chunk clock
      ≡ ok (times, middle))
    × (now ≡ middle)
    × ((view_before_delta t chunk).discard_known_updates times ≡ ok left)
    × ((id : ℕ) → (has id t.delta.insertions_ && has id left) ≡ false)
    × ((id : ℕ) → (has id t.delta.removes_ && has id left) ≡ false)
    × AllMerged policies (view_before_delta t chunk) (chunk_view chunk.container now) left
        t.delta.updates_ t'.delta.updates_
    × (t'.delta.insertions_ ≡ t.delta.insertions_)
    × (t'.delta.removes_ ≡ t.delta.removes_)
    × NothingFound chunk t.conflict_conditions

conditions_hold-NothingFound :
    (conditions : List (Option ℕ × Revision)) (chunk : Chunk) (clock later : ℕ)
    → conditions_hold conditions chunk clock ≡ ok (true, later)
    → NothingFound chunk conditions
unfolding conditions_hold is_empty
conditions_hold-NothingFound [] chunk clock later h = tt
conditions_hold-NothingFound ((key, value_holder) ∷ conditions) chunk clock later h =
    let (now, c1, h1, k1) = timed-eq-ok sample _ clock later true h in
    let (dummy, c2, h2, k2) =
      timed-eq-ok (find_by_revision key value_holder now chunk.container) _ c1 later true k1 in
    let (nothing, rest) = from dummy c2 k2 in
    (
      (now, c1, c2, h2 ∙ ap (λ m. ok (m, c2)) nothing),
      conditions_hold-NothingFound conditions chunk c2 later rest,
    )
  where
    from :
        (dummy : Map Revision) (c : ℕ)
        → (if is_empty dummy then conditions_hold conditions chunk else pure false) c
          ≡ ok (true, later)
        → (dummy ≡ []) × (conditions_hold conditions chunk c ≡ ok (true, later))
    from [] c k = (refl, k)
    from (entry ∷ m) c k = cc

check_conditions-true :
    (t t' : Transaction) (chunk : Chunk) (delta' : Delta) (clock later : ℕ)
    → check_conditions t chunk (false, delta') clock ≡ ok ((true, t'), later)
    → (t'.delta ≡ delta') × NothingFound chunk t.conflict_conditions
unfolding check_conditions
check_conditions-true t t' chunk delta' clock later h =
    let (holds, c, h1, h2) =
      timed-eq-ok (conditions_hold t.conflict_conditions chunk) _ clock later (true, t') h in
    let same : record t { delta = delta' } ≡ t' = cc in
    let held : holds ≡ true = cc in
    (
      ap (λ (u : Transaction). u.delta) (sym same),
      conditions_hold-NothingFound t.conflict_conditions chunk clock c
          (h1 ∙ ap (λ b. ok (b, c)) held),
    )

-- A check that finds no conflict.
pub has_no_conflicts-IsFree :
    (policies : List AutoMergePolicy) (t t' : Transaction) (chunk : Chunk) (clock later : ℕ)
    → has_no_conflicts policies t chunk clock ≡ ok ((true, t'), later)
    → IsFree policies chunk t t'
has_no_conflicts-IsFree policies t t' chunk clock later h =
    let (times, left, middle, now, delta', e1, e2, at, e3, last, e4) =
      traversed policies t t' chunk clock later h in
    let (same, nothing) = check_conditions-true t t' chunk delta' last later e4 in
    let (no_insert, no_remove, all, insertions, removes) =
      passes_check policies (view_before_delta t chunk) (chunk_view chunk.container now) left
        t.delta delta' e3 in
    (
      times,
      left,
      clock,
      middle,
      now,
      e1,
      at,
      e2,
      no_insert,
      no_remove,
      subst
          (λ (d : Delta).
            AllMerged policies (view_before_delta t chunk) (chunk_view chunk.container now) left
              t.delta.updates_ d.updates_)
          (sym same) all,
      ap (λ (d : Delta). d.insertions_) same ∙ insertions,
      ap (λ (d : Delta). d.removes_) same ∙ removes,
      nothing,
    )
