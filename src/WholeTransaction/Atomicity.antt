-- ===== src/WholeTransaction/Atomicity.antt =====
-- The commits of all tables of a transaction.
use mathlib.Core.Path.{subst}
use map_api.Prelude.{ℕ, ◌≡◌, refl, ◌∙◌, ap, sym, Bool, true, false, List, [], ◌∷◌}
use map_api.Prelude.Checked.{ok, >>=-eq-ok}
use map_api.Prelude.Map.{Map}
use map_api.LogicalTime.{lift, sample}
use map_api.LogicalTime.Steps.{timed-eq-ok, lift-eq-ok}
use map_api.Revision.{AutoMergePolicy}
use map_api.Chunk.{Chunk}
use map_api.TableTransaction
use map_api.TableTransaction.{Entry}
use map_api.TableTransaction.Atomicity
use map_api.TableTransaction.Atomicity.{chunks_of, AllCommitted, AllFree}
use map_api.WholeTransaction.{WholeTransaction, finalize, finalize_tables}
use map_api.WholeTransaction.Commit.{
  CommitFutureTree, after_check, has_no_conflicts, checked_commit, futures_if, commit_checked,
  finish_commit, commit_impl,
}

-- The chunks of each table.
abbrev pub chunks_by_table : Map (List Entry) → Map (List Chunk)
chunks_by_table [] = []
chunks_by_table ((table, entries) ∷ tables) = (table, chunks_of entries) ∷ chunks_by_table tables

-- Every chunk transaction of every table did its part of the commit, at the time.
abbrev pub AllTablesCommitted : ℕ → Map (List Entry) → Map (List Entry) → Type 0
AllTablesCommitted time [] [] = Unit {0}
AllTablesCommitted time ((table, entries) ∷ tables) ((table', entries') ∷ tables') =
    (table ≡ table') × AllCommitted time entries entries' × AllTablesCommitted time tables tables'
AllTablesCommitted time _ _ = ⊥

-- No chunk transaction of any table has a conflict, and the chunks are kept.
abbrev pub AllTablesFree : (ℕ → List AutoMergePolicy) → Map (List Entry) → Map (List Entry) → Type 0
AllTablesFree policies [] [] = Unit {0}
AllTablesFree policies ((table, entries) ∷ tables) ((table', entries') ∷ tables') =
    (table' ≡ table)
    × AllFree (policies table) entries entries'
    × AllTablesFree policies tables tables'
AllTablesFree policies _ _ = ⊥

-- A check does not touch the chunks.
has_no_conflicts-chunks :
    (policies : ℕ → List AutoMergePolicy) (tables tables' : Map (List Entry)) (free : Bool)
    (clock later : ℕ)
    → has_no_conflicts policies tables clock ≡ ok ((free, tables'), later)
    → chunks_by_table tables' ≡ chunks_by_table tables
unfolding has_no_conflicts after_check
has_no_conflicts-chunks policies [] tables' free clock later h =
    let e : [] ≡ tables' = cc in ap chunks_by_table (sym e)
has_no_conflicts-chunks policies ((table, entries) ∷ tables) tables' free clock later h =
    let (outcome, middle, h1, h2) =
      timed-eq-ok (TableTransaction.has_no_conflicts (policies table) entries) _ clock later
        (free, tables') h in
    from (has_no_conflicts-chunks policies tables) outcome middle h1 h2
  where
    from :
        ((ts : Map (List Entry)) (b : Bool) (c l : ℕ)
          → has_no_conflicts policies tables c ≡ ok ((b, ts), l)
          → chunks_by_table ts ≡ chunks_by_table tables)
        → (outcome : Bool × List Entry) (middle : ℕ)
        → TableTransaction.has_no_conflicts (policies table) entries clock ≡ ok (outcome, middle)
        → after_check table tables (has_no_conflicts policies tables) outcome middle
          ≡ ok ((free, tables'), later)
        → chunks_by_table tables' ≡ (table, chunks_of entries) ∷ chunks_by_table tables
    from kept (false, es) middle k1 k =
        let same : (table, es) ∷ tables ≡ tables' = cc in
        ap chunks_by_table (sym same)
        ∙ ap (λ l. (table, l) ∷ chunks_by_table tables)
            (Atomicity.has_no_conflicts-chunks (policies table) entries es false clock middle k1)
    from kept (true, es) middle k1 k =
        let (rest, c, r1, r2) =
          timed-eq-ok (has_no_conflicts policies tables) _ middle later (free, tables') k in
        let same : (table, es) ∷ rest.1 ≡ tables' = cc in
        ap chunks_by_table (sym same)
        ∙ ap (λ l. (table, l) ∷ chunks_by_table rest.1)
            (Atomicity.has_no_conflicts-chunks (policies table) entries es true clock middle k1)
        ∙ ap (λ l. (table, chunks_of entries) ∷ l) (kept rest.1 rest.0 middle c r1)

checked_commit-AllTablesCommitted :
    (time : ℕ) (tables tables' : Map (List Entry))
    → checked_commit time tables ≡ ok tables'
    → AllTablesCommitted time tables tables'
unfolding checked_commit
checked_commit-AllTablesCommitted time [] [] h = tt
checked_commit-AllTablesCommitted time [] (t' ∷ tables') h = cc
checked_commit-AllTablesCommitted time ((table, entries) ∷ tables) tables' h =
    let (done, h1, h2) = >>=-eq-ok (TableTransaction.checked_commit time entries) _ h in
    let (rest, k1, k2) = >>=-eq-ok (checked_commit time tables) _ h2 in
    let same : (table, done) ∷ rest ≡ tables' = cc in
    subst (AllTablesCommitted time ((table, entries) ∷ tables)) same (
      refl,
      Atomicity.checked_commit-AllCommitted time entries done h1,
      checked_commit-AllTablesCommitted time tables rest k1,
    )

commit_checked-AllTablesCommitted :
    (with_futures : Bool) (t t' : WholeTransaction) (done : Bool) (tree : CommitFutureTree)
    (clock later : ℕ)
    → commit_checked with_futures t clock ≡ ok ((done, t', tree), later)
    → (done ≡ true) × AllTablesCommitted t'.commit_time t.tables t'.tables
unfolding commit_checked
commit_checked-AllTablesCommitted with_futures t t' done tree clock later h =
    let (futures, c1, f1, f2) =
      timed-eq-ok (futures_if with_futures t.tables) _ clock later (done, t', tree) h in
    let (time, c2, s1, s2) = timed-eq-ok sample _ c1 later (done, t', tree) f2 in
    let (tables', c3, r1, r2) =
      timed-eq-ok (lift (checked_commit time t.tables)) _ c2 later (done, t', tree) s2 in
    let committed =
      checked_commit-AllTablesCommitted time t.tables tables'
        (lift-eq-ok (checked_commit time t.tables) c2 c3 tables' r1).0 in
    let same : record t { tables = tables'; commit_time = time } ≡ t' = cc in
    (cc, subst (λ u. AllTablesCommitted u.commit_time t.tables u.tables) same committed)

-- The tables as they are committed.
abbrev pub finalized_if : Bool → Map (List Entry) → Map (List Entry)
finalized_if true tables = finalize_tables tables
finalized_if false tables = tables

finish_commit-chunks :
    (fin with_futures : Bool) (t t' : WholeTransaction) (tree : CommitFutureTree)
    (outcome : Bool × Map (List Entry)) (clock later : ℕ)
    → finish_commit fin with_futures t outcome clock ≡ ok ((false, t', tree), later)
    → t'.tables ≡ outcome.1
unfolding finish_commit finalize
finish_commit-chunks fin w t t' tree (false, tables) clock later h =
    let same : record t { tables = tables } ≡ t' = cc in ap (λ u. u.tables) (sym same)
finish_commit-chunks false w t t' tree (true, tables) clock later h =
    let no =
      (commit_checked-AllTablesCommitted w (record t { tables = tables }) t' false tree clock later
        h).0 in
    cc
finish_commit-chunks true w t t' tree (true, tables) clock later h =
    let no =
      (commit_checked-AllTablesCommitted w (finalize (record t { tables = tables })) t' false tree
        clock later h).0 in
    cc

-- A commit that fails leaves every chunk of every table as it was.
pub commit_impl-chunks_kept :
    (policies : ℕ → List AutoMergePolicy) (fin with_futures : Bool) (t t' : WholeTransaction)
    (tree : CommitFutureTree) (clock later : ℕ)
    → commit_impl policies fin with_futures t clock ≡ ok ((false, t', tree), later)
    → chunks_by_table t'.tables ≡ chunks_by_table t.tables
unfolding commit_impl
commit_impl-chunks_kept policies fin with_futures t t' tree clock later h =
    let (outcome, middle, h1, h2) =
      timed-eq-ok (has_no_conflicts policies t.tables) _ clock later (false, t', tree) h in
    ap chunks_by_table (finish_commit-chunks fin with_futures t t' tree outcome middle later h2)
    ∙ has_no_conflicts-chunks policies t.tables outcome.1 outcome.0 clock middle h1
