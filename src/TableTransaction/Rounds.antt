-- ===== src/TableTransaction/Rounds.antt =====
-- The merge of one chunk transaction into a new one.
use map_api.Prelude.{ℕ, suc, ◌+◌, ◌%◌, ◌<◌, ◌≡◌, ◌∙◌, refl, ap, true, none, List, ltb, arith}
use map_api.Prelude.Checked.{ok}
use map_api.Prelude.Map.{Map, Unique}
use map_api.Prelude.IdSet.{size}
use map_api.LogicalTime.{u64, Timed, ◌>>=◌, pure, lift, sample}
use map_api.LogicalTime.Steps.{timed-ok}
use map_api.Container.Ram.{get_by_id_impl}
use map_api.View.{chunk_view, commit_history_view}
use map_api.View.Combined.{combined_view}
use map_api.View.Shows.{chunk_view-Shows}
use map_api.View.Updates.{find-discard_known_updates}
use map_api.Chunk.{Chunk, get_update_times}
use map_api.Chunk.Times.{get_update_times_lem}
use map_api.Delta.{Delta, num_changes}
use map_api.Delta.Invariant.{IsSeparate}
use map_api.Delta.Traverse.{Conflict, prepare_manual_merge}
use map_api.Delta.Conflicts.{prepare_manual_merge_lem}
use map_api.Transaction.{
  Transaction, begin_transaction, no_conditions, original_from, view_before_delta,
}
use map_api.Transaction.Commit.{merge}
use map_api.TableTransaction.{Entry}
use map_api.TableTransaction.Reachable.{fresh}

-- A chunk transaction of a transaction that can be merged: it has no conflict conditions, and was
-- not begun from a commit future.
pub record IsMergeable (e : Entry) : Type 0 where
  pub unconditional : no_conditions e.transaction.conflict_conditions ≡ true
  pub detached : e.transaction.future ≡ none
  pub separate : IsSeparate e.transaction.delta
  pub own : Unique e.transaction.commit_history
  pub unique : Unique e.chunk.container.data_

pub begin_transaction-ok :
    (begin_time : ℕ) (chunk : Chunk) (clock : ℕ)
    → begin_time < clock
    → suc clock < u64
    → begin_transaction begin_time none chunk clock ≡ ok (fresh begin_time chunk, clock + 1)
unfolding begin_transaction sample
begin_transaction-ok begin_time chunk clock begun fits =
    let lt : ltb begin_time clock ≡ true = ground arith in
    let small : (clock + 1) % u64 ≡ clock + 1 = omega arith in rw lt (rw small refl)

discard-ok :
    (e : Entry) (times : Map ℕ)
    → IsMergeable e
    → Unique times
    → (left : Map ℕ) × ((view_before_delta e.transaction e.chunk).discard_known_updates times
        ≡ ok left)
discard-ok e times m u =
    let (left, d, _) =
      find-discard_known_updates e.transaction.commit_history times e.chunk.container
        e.transaction.begin_time m.own u in
    (left, detach ∙ d)
  where
    detach :
        (view_before_delta e.transaction e.chunk).discard_known_updates times
        ≡ (combined_view (chunk_view e.chunk.container e.transaction.begin_time) (
              commit_history_view e.transaction.commit_history
                e.chunk.container)).discard_known_updates
            times
    detach =
        ap
          (λ o.
            (combined_view (original_from e.transaction.begin_time e.chunk o) (
                commit_history_view e.transaction.commit_history
                  e.chunk.container)).discard_known_updates
              times)
          m.detached

-- What a merge does with the update times of the chunk.
abbrev from_times : Entry → Transaction → Map ℕ → Timed (Transaction × List Conflict)
from_times e merge_transaction times =
    lift ((view_before_delta e.transaction e.chunk).discard_known_updates times) >>= λ update_times.
    sample >>= λ now.
    lift (
      prepare_manual_merge (chunk_view e.chunk.container now) update_times e.transaction.delta
        merge_transaction.delta)
    >>= λ outcome. pure (record merge_transaction { delta = outcome.0 }, outcome.1)

-- The merge does not abort, and distributes all changes.
pub merge-ok :
    (e : Entry) (begin_time clock : ℕ)
    → IsMergeable e
    → suc (suc (suc clock)) < u64
    → (free : Delta) × (conflicts : List Conflict) × (merge e.transaction
          (fresh begin_time e.chunk)
          e.chunk
          clock
        ≡ ok ((record (fresh begin_time e.chunk) { delta = free }, conflicts), clock + 3))
      × (num_changes e.transaction.delta ≡ num_changes free + size conflicts)
unfolding merge sample
merge-ok e begin_time clock m fits =
    let (times, t1, _, u) = get_update_times_lem e.chunk clock m.unique (omega arith) in
    let (left, d) = discard-ok e times m u in
    let (free, conflicts, p, _, _, _, sum) =
      prepare_manual_merge_lem (chunk_view e.chunk.container (clock + 2))
        (λ id. get_by_id_impl id (clock + 2) e.chunk.container.data_) left e.transaction.delta
        (chunk_view-Shows e.chunk.container (clock + 2)) m.separate in
    let small : (clock + 2 + 1) % u64 ≡ clock + 3 = omega arith in
    (
      free,
      conflicts,
      rw m.unconditional (
          timed-ok (get_update_times e.chunk) (from_times e fresh_one) clock (clock + 2) times t1
          ∙ rw d (rw p (rw small refl))),
      sum,
    )
  where
    fresh_one : Transaction
    fresh_one = fresh begin_time e.chunk
