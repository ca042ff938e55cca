-- ===== src/TableTransaction.antt =====
-- map-api/src/net-table-transaction.cc: the transactions on the chunks of one table that commit
-- together. `commit` is modelled between `lock` and `unlock`, which lock the chunks in the order of
-- the map; the chunk that a chunk transaction points to stands beside it.
pub mod Atomicity
pub mod Items
pub mod Merge
pub mod Order
pub mod Reachable
pub mod Rounds
pub mod Sound
pub mod Keeps
pub mod Steps
pub mod Own
pub mod Counts
use map_api.Prelude.{ℕ, ◌+◌, Bool, true, false, not, List, [], ◌∷◌}
use map_api.Prelude.Checked
use map_api.Prelude.Checked.{Checked, ok}
use map_api.LogicalTime.{Timed, ◌>>=◌, pure, lift, sample}
use map_api.Prelude.Map.{Map, assign}
use map_api.Revision.{Revision, AutoMergePolicy}
use map_api.Chunk.{Chunk}
use map_api.Transaction
use map_api.Transaction.{Transaction}
use map_api.Transaction.Commit

-- An entry of `chunk_transactions_`. The chunk is shared in the code: here it is as the operation
-- finds it, so what other transactions do to it in between is not seen.
pub record Entry : Type 0 where
  pub transaction : Transaction
  pub chunk : Chunk

-- What a check of one entry leaves: the loop ends at the first conflict.
unfoldable pub after_check :
    Entry → List Entry → Timed (Bool × List Entry) → Bool × Transaction → Timed (Bool × List Entry)
after_check e entries rest (false, t) = pure (false, record e { transaction = t } ∷ entries)
after_check e entries rest (true, t) =
    rest >>= λ (free, entries'). pure (free, record e { transaction = t } ∷ entries')

-- The checks may merge updates.
unfoldable pub has_no_conflicts : List AutoMergePolicy → List Entry → Timed (Bool × List Entry)
unfolding after_check
has_no_conflicts policies [] = pure (true, [])
has_no_conflicts policies (e ∷ entries) =
    Commit.has_no_conflicts policies e.transaction e.chunk
    >>= after_check e entries (has_no_conflicts policies entries)

unfoldable pub checked_commit : ℕ → List Entry → Checked (List Entry)
checked_commit time [] = ok []
checked_commit time (e ∷ entries) =
    Checked.◌>>=◌ (Commit.checked_commit time e.transaction e.chunk) λ (t, chunk).
      Checked.◌>>=◌ (checked_commit time entries)
        λ entries'. ok (record { transaction = t; chunk = chunk } ∷ entries')

-- The second half of `commit`.
unfoldable pub finish_commit : Bool × List Entry → Timed (Bool × List Entry)
unfolding checked_commit
finish_commit (false, entries) = pure (false, entries)
finish_commit (true, entries) =
    sample >>= λ time. lift (checked_commit time entries) >>= λ entries'. pure (true, entries')

unfoldable pub commit : List AutoMergePolicy → List Entry → Timed (Bool × List Entry)
unfolding has_no_conflicts finish_commit
commit policies entries = has_no_conflicts policies entries >>= finish_commit

unfoldable pub num_changed_items : List Entry → Checked ℕ
num_changed_items [] = ok 0
num_changed_items (e ∷ entries) =
    Checked.◌>>=◌ (Transaction.num_changed_items e.transaction)
      λ n. Checked.◌>>=◌ (num_changed_items entries) λ rest. ok (n + rest)

-- The chunk transactions; the flag of the table's own transaction is not kept here.
unfoldable pub finalize : List Entry → List Entry
finalize [] = []
finalize (e ∷ entries) =
    record e { transaction = Transaction.finalize e.transaction } ∷ finalize entries

unfoldable pub detach_futures : List Entry → List Entry
detach_futures [] = []
detach_futures (e ∷ entries) =
    record e { transaction = Transaction.detach_future e.transaction } ∷ detach_futures entries

-- The tree maps the id of a chunk to the state of its commit future.
unfoldable pub build_commit_future_tree : List Entry → Timed (Map (Map Revision))
build_commit_future_tree [] = pure []
build_commit_future_tree (e ∷ entries) = Commit.commit_future e.transaction e.chunk >>= λ future.
    build_commit_future_tree entries >>= λ rest. pure (assign e.chunk.id future rest)
