-- ===== src/WholeTransaction/Commit.antt =====
-- map-api/src/transaction.cc, `commitImpl`: the checks of all tables, the commit futures, and the
-- commit of all tables.
use map_api.Prelude.{ℕ, Bool, true, false, List, [], ◌∷◌}
use map_api.Prelude.Checked
use map_api.Prelude.Checked.{Checked, ok}
use map_api.Prelude.Map.{Map}
use map_api.LogicalTime.{Timed, ◌>>=◌, pure, lift, sample}
use map_api.Revision.{Revision, AutoMergePolicy}
use map_api.TableTransaction
use map_api.TableTransaction.{Entry, build_commit_future_tree}
use map_api.WholeTransaction.{WholeTransaction, finalize}

-- Table, chunk and item.
abbrev pub CommitFutureTree : Type 0
CommitFutureTree = Map (Map (Map Revision))

-- What a check of one table leaves: the loop ends at the first conflict.
unfoldable pub after_check :
    ℕ
    → Map (List Entry)
    → Timed (Bool × Map (List Entry))
    → Bool × List Entry
    → Timed (Bool × Map (List Entry))
after_check table tables rest (false, entries) = pure (false, (table, entries) ∷ tables)
after_check table tables rest (true, entries) =
    rest >>= λ (free, tables'). pure (free, (table, entries) ∷ tables')

-- The policies are those of each table.
unfoldable pub has_no_conflicts :
    (ℕ → List AutoMergePolicy) → Map (List Entry) → Timed (Bool × Map (List Entry))
unfolding after_check
has_no_conflicts policies [] = pure (true, [])
has_no_conflicts policies ((table, entries) ∷ tables) =
    TableTransaction.has_no_conflicts (policies table) entries
    >>= after_check table tables (has_no_conflicts policies tables)

unfoldable pub checked_commit : ℕ → Map (List Entry) → Checked (Map (List Entry))
checked_commit time [] = ok []
checked_commit time ((table, entries) ∷ tables) =
    Checked.◌>>=◌ (TableTransaction.checked_commit time entries)
      λ entries'. Checked.◌>>=◌ (checked_commit time tables) λ rest. ok ((table, entries') ∷ rest)

unfoldable pub build_future_tree : Map (List Entry) → Timed CommitFutureTree
build_future_tree [] = pure []
build_future_tree ((table, entries) ∷ tables) = build_commit_future_tree entries >>= λ futures.
    build_future_tree tables >>= λ rest. pure ((table, futures) ∷ rest)

-- `if (future_tree)`
unfoldable pub futures_if : Bool → Map (List Entry) → Timed CommitFutureTree
futures_if true tables = build_future_tree tables
futures_if false tables = pure []

-- The commit after the checks.
unfoldable pub commit_checked :
    Bool → WholeTransaction → Timed (Bool × WholeTransaction × CommitFutureTree)
unfolding checked_commit futures_if
commit_checked with_futures t = futures_if with_futures t.tables >>= λ tree. sample >>= λ time.
    lift (checked_commit time t.tables) >>= λ tables'.
    pure (true, record t { tables = tables'; commit_time = time }, tree)

unfoldable pub finish_commit :
    Bool
    → Bool
    → WholeTransaction
    → Bool × Map (List Entry)
    → Timed (Bool × WholeTransaction × CommitFutureTree)
unfolding commit_checked
finish_commit finalize_after_check with_futures t (false, tables) =
    pure (false, record t { tables = tables }, [])
finish_commit false with_futures t (true, tables) =
    commit_checked with_futures (record t { tables = tables })
finish_commit true with_futures t (true, tables) =
    commit_checked with_futures (finalize (record t { tables = tables }))

-- `commitImpl`
unfoldable pub commit_impl :
    (ℕ → List AutoMergePolicy)
    → Bool
    → Bool
    → WholeTransaction
    → Timed (Bool × WholeTransaction × CommitFutureTree)
unfolding has_no_conflicts finish_commit
commit_impl policies finalize_after_check with_futures t =
    has_no_conflicts policies t.tables >>= finish_commit finalize_after_check with_futures t

unfoldable pub commit :
    (ℕ → List AutoMergePolicy) → WholeTransaction → Timed (Bool × WholeTransaction)
commit policies t = commit_impl policies false false t >>= λ (done, t', tree). pure (done, t')

-- What the thread of `commitInParallel` does.
unfoldable pub commit_in_parallel :
    (ℕ → List AutoMergePolicy)
    → WholeTransaction
    → Timed (Bool × WholeTransaction × CommitFutureTree)
commit_in_parallel policies t = commit_impl policies true true t
