-- ===== src/Transaction/Isolation.antt =====
-- What a transaction that committed is known to have seen: no other commit came between.
use map_api.Prelude.{
  ℕ, suc, ◌+◌, ◌<◌, ◌≤◌, ◌≡◌, ◌∙◌, refl, ap, sym, ◌⊎◌, inl, inr, Bool, true, false, not, Option,
  none, some, List, ◌||◌, leb, Bool-cases, arith,
}
use map_api.Prelude.Checked.{Checked, ok}
use map_api.Prelude.Map.{Map, Unique, find, has, find-none}
use map_api.LogicalTime.{u64, Timed, ◌>>=◌, lift, assert, sample}
use map_api.LogicalTime.Steps.{timed-eq-ok, lift-eq-ok}
use map_api.Revision.{Revision, AutoMergePolicy}
use map_api.Container.Ram.{get_by_id_impl}
use map_api.View.{chunk_view, commit_history_view}
use map_api.View.Combined.{combined_view}
use map_api.View.Updates.{unseen, find-discard_known_updates}
use map_api.Chunk.{Chunk, get_update_times, is_write_locked}
use map_api.Chunk.Times.{time_of, get_update_times_lem}
use map_api.Delta.{Delta}
use map_api.Delta.Traverse.{has_conflicts_after_trying_to_merge}
use map_api.Delta.AutoMerge.{passes_check}
use map_api.Transaction.{Transaction, view_before_delta, original_from}
use map_api.Transaction.Commit.{has_no_conflicts, check_conditions, finish_commit, commit}

-- The transaction knows of an update at this time: it is not later than its begin, or than its own
-- last commit of the item.
abbrev pub IsKnown : ℕ → Option ℕ → ℕ → Type 0
IsKnown begin_time none time = time ≤ begin_time
IsKnown begin_time (some own) time = (time ≤ own) ⊎ (time ≤ begin_time)

unseen-IsKnown :
    (begin_time time : ℕ) (known : Option ℕ)
    → unseen begin_time known (some time) ≡ none
    → IsKnown begin_time known time
unseen-IsKnown begin_time time none e = ground arith
unseen-IsKnown begin_time time (some own) e = elim (Bool-cases (leb time own)) [
  | inl le ↦ inl (ground arith)
  | inr gt ↦ inr (ground arith)
]

-- Past the check of the delta.
passed :
    (t t' : Transaction) (chunk : Chunk) (clock later : ℕ) (outcome : Bool × Delta)
    → check_conditions t chunk outcome clock ≡ ok ((true, t'), later)
    → outcome ≡ (false, outcome.1)
unfolding check_conditions
passed t t' chunk clock later (true, delta') e = cc
passed t t' chunk clock later (false, delta') e = refl

-- A check that finds no conflict, from its start to its end.
pub traversed :
    (policies : List AutoMergePolicy) (t t' : Transaction) (chunk : Chunk) (clock later : ℕ)
    → has_no_conflicts policies t chunk clock ≡ ok ((true, t'), later)
    → (times left : Map ℕ) × (middle now : ℕ) × (delta' : Delta) × (get_update_times chunk clock
        ≡ ok (times, middle))
      × ((view_before_delta t chunk).discard_known_updates times ≡ ok left)
      × (now ≡ middle)
      × (has_conflicts_after_trying_to_merge policies
            (view_before_delta t chunk)
            (chunk_view chunk.container now)
            left
            t.delta
          ≡ ok (false, delta'))
      × (last : ℕ) × (check_conditions t chunk (false, delta') last ≡ ok ((true, t'), later))
unfolding has_no_conflicts sample
traversed policies t t' chunk clock later e =
    let (u1, c1, e1, r1) = timed-eq-ok (assert (not t.finalized)) _ clock later (true, t') e in
    let (u2, c2, e2, r2) = timed-eq-ok (assert (is_write_locked chunk)) _ c1 later (true, t') r1 in
    let (times, c3, e3, r3) = timed-eq-ok (get_update_times chunk) _ c2 later (true, t') r2 in
    let (left, c4, e4, r4) = timed-eq-ok (lift (discarded times)) _ c3 later (true, t') r3 in
    let (now, c5, e5, r5) = timed-eq-ok sample (from_now left) c4 later (true, t') r4 in
    let (outcome, c6, e6, r6) =
      timed-eq-ok (lift (checked now left)) (check_conditions t chunk) c5 later (true, t') r5 in
    let start : c2 ≡ clock = (lift-eq-ok _ c1 c2 u2 e2).1 ∙ (lift-eq-ok _ clock c1 u1 e1).1 in
    let then_now : now ≡ c4 = sampled c4 now c5 e5 in
    (
      times,
      left,
      c3,
      now,
      outcome.1,
      ap (get_update_times chunk) (sym start) ∙ e3,
      (lift-eq-ok _ c3 c4 left e4).0,
      then_now ∙ (lift-eq-ok _ c3 c4 left e4).1,
      (lift-eq-ok _ c5 c6 outcome e6).0 ∙ ap ok (passed t t' chunk c6 later outcome r6),
      c6,
      ap (λ o. check_conditions t chunk o c6) (sym (passed t t' chunk c6 later outcome r6)) ∙ r6,
    )
  where
    discarded : Map ℕ → Checked (Map ℕ)
    discarded times = (view_before_delta t chunk).discard_known_updates times

    checked : ℕ → Map ℕ → Checked (Bool × Delta)
    checked now left =
        has_conflicts_after_trying_to_merge policies (view_before_delta t chunk)
          (chunk_view chunk.container now) left t.delta

    from_now : Map ℕ → ℕ → Timed (Bool × Transaction)
    from_now left now = lift (checked now left) >>= check_conditions t chunk

    sampled : (c now c' : ℕ) → sample c ≡ ok (now, c') → now ≡ c
    sampled c now c' h = cc

-- A commit that succeeds passed the check.
commit_checked :
    (policies : List AutoMergePolicy) (t t' : Transaction) (chunk chunk' : Chunk) (clock later : ℕ)
    → commit policies t chunk clock ≡ ok ((true, t', chunk'), later)
    → (t1 : Transaction) × (middle : ℕ) × (has_no_conflicts policies t chunk clock
        ≡ ok ((true, t1), middle))
unfolding commit
commit_checked policies t t' chunk chunk' clock later e =
    let (outcome, middle, e1, r1) =
      timed-eq-ok (has_no_conflicts policies t chunk) _ clock later (true, t', chunk') e in
    (outcome.1, middle, e1 ∙ ap (λ x. ok (x, middle)) (free outcome middle r1))
  where
    free :
        (outcome : Bool × Transaction) (middle : ℕ)
        → finish_commit chunk outcome middle ≡ ok ((true, t', chunk'), later)
        → outcome ≡ (true, outcome.1)
    free (true, t1) middle h = refl
    free (false, t1) middle h = cc

module _ (policies : List AutoMergePolicy) (t t' : Transaction) (chunk chunk' : Chunk)
    (clock later : ℕ) (unique : Unique chunk.container.data_) (own : Unique t.commit_history)
    (fits : suc (suc clock) < u64) (detached : t.future ≡ none)
    (done : commit policies t chunk clock ≡ ok ((true, t', chunk'), later)) where
  -- What the check went by: the update times that the transaction does not know.
  checked_against :
      (left : Map ℕ) × (delta' : Delta) × ((id : ℕ)
        → find id left
          ≡ unseen t.begin_time
              (find id t.commit_history)
              (time_of (get_by_id_impl id clock chunk.container.data_)))
      × (has_conflicts_after_trying_to_merge policies
            (view_before_delta t chunk)
            (chunk_view chunk.container (clock + 2))
            left
            t.delta
          ≡ ok (false, delta'))
  checked_against =
      let (t1, middle, e1) = commit_checked policies t t' chunk chunk' clock later done in
      let (times, left, mid, now, delta', e2, e3, e4, e5, _, _) =
        traversed policies t t1 chunk clock middle e1 in
      let (times', f1, found, u) = get_update_times_lem chunk clock unique fits in
      let times_eq : times' ≡ times = same_times times' times mid (sym f1 ∙ e2) in
      let mid_eq : clock + 2 ≡ mid = same_clock times' times mid (sym f1 ∙ e2) in
      let (left', d, kept) =
        find-discard_known_updates t.commit_history times' chunk.container t.begin_time own u in
      let left_eq : left' ≡ left =
        same_left left' left (sym d ∙ sym (undetached times') ∙ ap (discarded) times_eq ∙ e3) in
      (
        left,
        delta',
        λ id.
            ap (find id) (sym left_eq)
            ∙ kept id
            ∙ ap (unseen t.begin_time (find id t.commit_history)) (found id),
        ap
              (λ n.
                has_conflicts_after_trying_to_merge policies (view_before_delta t chunk)
                  (chunk_view chunk.container n) left t.delta)
              (mid_eq ∙ sym e4)
            ∙ e5,
      )
    where
      discarded : Map ℕ → Checked (Map ℕ)
      discarded m = (view_before_delta t chunk).discard_known_updates m

      undetached :
          (m : Map ℕ)
          → discarded m
            ≡ (combined_view
                  (chunk_view chunk.container t.begin_time)
                  (commit_history_view t.commit_history chunk.container)).discard_known_updates
                m
      undetached m =
          ap
            (λ o.
              (combined_view (original_from t.begin_time chunk o)
                  (commit_history_view t.commit_history chunk.container)).discard_known_updates
                m)
            detached

      result : Map ℕ → ℕ → Checked (Map ℕ × ℕ)
      result m c = ok (m, c)

      same_times : (a b : Map ℕ) (mid : ℕ) → result a (clock + 2) ≡ result b mid → a ≡ b
      same_times a b mid h = cc

      same_clock : (a b : Map ℕ) (mid : ℕ) → result a (clock + 2) ≡ result b mid → clock + 2 ≡ mid
      same_clock a b mid h = cc

      same_left : (a b : Map ℕ) → ◌≡◌ {A = Checked (Map ℕ)} (ok a) (ok b) → a ≡ b
      same_left a b h = cc

  -- Without a commit future and before the clock wraps around: a commit that succeeds inserts
  -- and removes only items that are not there, or whose latest update the transaction knows of:
  -- it is not later than its begin or its own last commit of the item.
  pub commit-IsKnown :
      (id : ℕ) (r : Revision)
      → get_by_id_impl id clock chunk.container.data_ ≡ some r
      → (has id t.delta.insertions_ || has id t.delta.removes_) ≡ true
      → IsKnown t.begin_time (find id t.commit_history) r.update_time
  commit-IsKnown id r here changed =
      let (left, delta', found, check) = checked_against in
      let (no_insert, no_remove, _, _, _) =
        passes_check policies (view_before_delta t chunk) (chunk_view chunk.container (clock + 2))
          left t.delta delta' check in
      unseen-IsKnown t.begin_time r.update_time (find id t.commit_history) (
        ap (λ o. unseen t.begin_time (find id t.commit_history) (time_of o)) (sym here)
        ∙ sym (found id)
        ∙ find-none id left (elim (Bool-cases (has id t.delta.insertions_)) [
          | inl h ↦ ground (arith, no_insert id)
          | inr h ↦ ground (arith, no_remove id)
        ]))
