-- ===== src/TableTransaction/Atomicity.antt =====
-- All chunks of a table commit at one time, or none does.
use mathlib.Core.Path.{subst, subst₂}
use map_api.Prelude.{ℕ, ◌≡◌, ◌∙◌, refl, ap, sym, Bool, true, false, List, [], ◌∷◌}
use map_api.Prelude.Checked.{ok, >>=-eq-ok}
use map_api.LogicalTime.{lift, sample}
use map_api.LogicalTime.Steps.{timed-eq-ok, lift-eq-ok}
use map_api.Revision.{AutoMergePolicy}
use map_api.Chunk.{Chunk}
use map_api.Transaction.{Transaction}
use map_api.Transaction.Free.{IsFree, has_no_conflicts-IsFree}
use map_api.Transaction.Commit
use map_api.TableTransaction.{
  Entry, after_check, has_no_conflicts, checked_commit, finish_commit, commit,
}

abbrev pub chunks_of : List Entry → List Chunk
chunks_of [] = []
chunks_of (e ∷ entries) = e.chunk ∷ chunks_of entries

-- Each chunk transaction did its part of the commit, at the time.
abbrev pub AllCommitted : ℕ → List Entry → List Entry → Type 0
AllCommitted time [] [] = Unit {0}
AllCommitted time (e ∷ entries) (e' ∷ entries') =
    (Commit.checked_commit time e.transaction e.chunk ≡ ok (e'.transaction, e'.chunk))
    × AllCommitted time entries entries'
AllCommitted time _ _ = ⊥

-- Each chunk transaction has no conflict with its chunk, which is kept.
abbrev pub AllFree : List AutoMergePolicy → List Entry → List Entry → Type 0
AllFree policies [] [] = Unit {0}
AllFree policies (e ∷ entries) (e' ∷ entries') =
    IsFree policies e.chunk e.transaction e'.transaction
    × (e'.chunk ≡ e.chunk)
    × AllFree policies entries entries'
AllFree policies _ _ = ⊥

-- A check that finds no conflict.
pub has_no_conflicts-AllFree :
    (policies : List AutoMergePolicy) (entries entries' : List Entry) (clock later : ℕ)
    → has_no_conflicts policies entries clock ≡ ok ((true, entries'), later)
    → AllFree policies entries entries'
unfolding has_no_conflicts after_check
has_no_conflicts-AllFree policies [] entries' clock later h =
    let same : [] ≡ entries' = cc in subst (AllFree policies []) same tt
has_no_conflicts-AllFree policies (e ∷ entries) entries' clock later h =
    let (outcome, middle, h1, h2) =
      timed-eq-ok (Commit.has_no_conflicts policies e.transaction e.chunk) _ clock later
        (true, entries') h in
    from (has_no_conflicts-AllFree policies entries) outcome middle h1 h2
  where
    from :
        ((es : List Entry) (c l : ℕ)
          → has_no_conflicts policies entries c ≡ ok ((true, es), l)
          → AllFree policies entries es)
        → (outcome : Bool × Transaction) (middle : ℕ)
        → Commit.has_no_conflicts policies e.transaction e.chunk clock ≡ ok (outcome, middle)
        → after_check e entries (has_no_conflicts policies entries) outcome middle
          ≡ ok ((true, entries'), later)
        → AllFree policies (e ∷ entries) entries'
    from all (false, t) middle k1 k = cc
    from all (true, t) middle k1 k =
        let ((free, es), c, r1, r2) =
          timed-eq-ok (has_no_conflicts policies entries) _ middle later (true, entries') k in
        let still : free ≡ true = cc in
        let same : record e { transaction = t } ∷ es ≡ entries' = cc in
        subst (AllFree policies (e ∷ entries)) same (
          has_no_conflicts-IsFree policies e.transaction t e.chunk clock middle k1,
          refl,
          all es middle c (r1 ∙ ap (λ b. ok ((b, es), c)) still),
        )

-- A check does not touch the chunks.
pub has_no_conflicts-chunks :
    (policies : List AutoMergePolicy) (entries entries' : List Entry) (free : Bool)
    (clock later : ℕ)
    → has_no_conflicts policies entries clock ≡ ok ((free, entries'), later)
    → chunks_of entries' ≡ chunks_of entries
unfolding has_no_conflicts after_check
has_no_conflicts-chunks policies [] entries' free clock later h =
    let e : [] ≡ entries' = cc in ap chunks_of (sym e)
has_no_conflicts-chunks policies (e ∷ entries) entries' free clock later h =
    let (outcome, middle, h1, h2) =
      timed-eq-ok (Commit.has_no_conflicts policies e.transaction e.chunk) _ clock later
        (free, entries') h in
    from (has_no_conflicts-chunks policies entries) outcome middle h2
  where
    from :
        ((es' : List Entry) (b : Bool) (c l : ℕ)
          → has_no_conflicts policies entries c ≡ ok ((b, es'), l)
          → chunks_of es' ≡ chunks_of entries)
        → (outcome : Bool × Transaction) (middle : ℕ)
        → after_check e entries (has_no_conflicts policies entries) outcome middle
          ≡ ok ((free, entries'), later)
        → chunks_of entries' ≡ e.chunk ∷ chunks_of entries
    from kept (false, t) middle k =
        let same : record e { transaction = t } ∷ entries ≡ entries' = cc in ap chunks_of (sym same)
    from kept (true, t) middle k =
        let (rest, c, k1, k2) =
          timed-eq-ok (has_no_conflicts policies entries) _ middle later (free, entries') k in
        let same : record e { transaction = t } ∷ rest.1 ≡ entries' = cc in
        ap chunks_of (sym same) ∙ ap (λ l. e.chunk ∷ l) (kept rest.1 rest.0 middle c k1)

pub checked_commit-AllCommitted :
    (time : ℕ) (entries entries' : List Entry)
    → checked_commit time entries ≡ ok entries'
    → AllCommitted time entries entries'
unfolding checked_commit
checked_commit-AllCommitted time [] [] h = tt
checked_commit-AllCommitted time [] (e' ∷ entries') h = cc
checked_commit-AllCommitted time (e ∷ entries) entries' h =
    let (done, h1, h2) = >>=-eq-ok (Commit.checked_commit time e.transaction e.chunk) _ h in
    let (rest, k1, k2) = >>=-eq-ok (checked_commit time entries) _ h2 in
    let same : record { transaction = done.0; chunk = done.1 } ∷ rest ≡ entries' = cc in
    subst (AllCommitted time (e ∷ entries)) same
      (h1, checked_commit-AllCommitted time entries rest k1)

-- A commit that fails leaves every chunk as it was.
pub commit-chunks_kept :
    (policies : List AutoMergePolicy) (entries entries' : List Entry) (clock later : ℕ)
    → commit policies entries clock ≡ ok ((false, entries'), later)
    → chunks_of entries' ≡ chunks_of entries
unfolding commit
commit-chunks_kept policies entries entries' clock later h =
    let (outcome, middle, h1, h2) =
      timed-eq-ok (has_no_conflicts policies entries) _ clock later (false, entries') h in
    from outcome middle h1 h2
  where
    from :
        (outcome : Bool × List Entry) (middle : ℕ)
        → has_no_conflicts policies entries clock ≡ ok (outcome, middle)
        → finish_commit outcome middle ≡ ok ((false, entries'), later)
        → chunks_of entries' ≡ chunks_of entries
    from (false, es) middle k1 k2 =
        let same : es ≡ entries' = cc in
        ap chunks_of (sym same) ∙ has_no_conflicts-chunks policies entries es false clock middle k1
    from (true, es) middle k1 k2 =
        let (time, c, s1, s2) = timed-eq-ok sample _ middle later (false, entries') k2 in
        let (done, c', r1, r2) =
          timed-eq-ok (lift (checked_commit time es)) _ c later (false, entries') s2 in
        cc

sampled : (c now c' : ℕ) → sample c ≡ ok (now, c') → now ≡ c
unfolding sample
sampled c now c' h = cc

-- A commit that succeeds found no conflict in any of the chunks, and then committed every chunk
-- transaction, as the checks left it, at the one time that it drew after them.
pub commit-AllCommitted :
    (policies : List AutoMergePolicy) (entries entries' : List Entry) (clock later : ℕ)
    → commit policies entries clock ≡ ok ((true, entries'), later)
    → (checked : List Entry) × (time : ℕ) × (has_no_conflicts policies entries clock
        ≡ ok ((true, checked), time))
      × (chunks_of checked ≡ chunks_of entries)
      × AllCommitted time checked entries'
unfolding commit
commit-AllCommitted policies entries entries' clock later h =
    let (outcome, middle, h1, h2) =
      timed-eq-ok (has_no_conflicts policies entries) _ clock later (true, entries') h in
    from outcome middle h1 h2
  where
    from :
        (outcome : Bool × List Entry) (middle : ℕ)
        → has_no_conflicts policies entries clock ≡ ok (outcome, middle)
        → finish_commit outcome middle ≡ ok ((true, entries'), later)
        → (checked : List Entry) × (time : ℕ) × (has_no_conflicts policies entries clock
            ≡ ok ((true, checked), time))
          × (chunks_of checked ≡ chunks_of entries)
          × AllCommitted time checked entries'
    from (false, es) middle k1 k2 = cc
    from (true, es) middle k1 k2 =
        let (time, c, s1, s2) = timed-eq-ok sample _ middle later (true, entries') k2 in
        let (done, c', r1, r2) =
          timed-eq-ok (lift (checked_commit time es)) _ c later (true, entries') s2 in
        let at : time ≡ middle = sampled middle time c s1 in
        let same : done ≡ entries' = cc in
        (
          es,
          middle,
          k1,
          has_no_conflicts-chunks policies entries es true clock middle k1,
          subst₂ (λ n l. AllCommitted n es l) at same
              (checked_commit-AllCommitted time es done
                (lift-eq-ok (checked_commit time es) c c' done r1).0),
        )
