-- ===== src/Delta/Effect.antt =====
-- What is read of a chunk, and of the commit history of a transaction, after a commit.
use map_api.Prelude.{
  ℕ, suc, ◌≤◌, ◌<◌, ◌≡◌, ◌∙◌, refl, ap, sym, inl, inr, Option, none, some, [], ◌∷◌, ◌++◌, ◌||◌,
  if◌then◌else◌, Bool-cases, arith,
}
use mathlib.Core.Path.{subst}
use map_api.Prelude.Checked.{ok}
use map_api.Prelude.Map.{Map, find, has, assign, find-assign, find-none, has-find}
use map_api.Revision.{Revision}
use map_api.Container.Ram.{get_by_id_impl}
use map_api.Container.Writes.{IsWellFormed}
use map_api.Container.Bulk.{
  write_all, at_id, overlay, get-write_all_before, get-write_all, write_all-IsWellFormed,
}
use map_api.Chunk.{Chunk}
use map_api.Chunk.Writes.{written, as_inserted, as_updated, as_removed, stamps}
use map_api.Delta.{Delta}
use map_api.Delta.Commit.{log_commit_event, checked_commit_locked}
use map_api.Delta.Batches.{either, at_id-append, stored, at_id-stamps}
use map_api.Delta.Committed.{
  IsCommittable, committed_revisions, committed_patches, logged, after_commit, from_insertions,
  from_updates, from_removes, ins_keys, upd_keys, rem_keys, commit-Batch, commit-Older,
  checked_commit_locked-written,
}

overlay_insertions :
    (chunk_id T : ℕ) (o : Option Revision) (rest before : Option Revision)
    → overlay (either (stored T (as_inserted chunk_id T) (λ r. refl) (λ r. refl) o) rest) before
      ≡ from_insertions chunk_id T o (overlay rest before)
overlay_insertions chunk_id T none rest before = refl
overlay_insertions chunk_id T (some r) rest before = refl

overlay_updates :
    (T : ℕ) (o : Option Revision) (rest before : Option Revision)
    → overlay (either (stored T (as_updated T) (λ r. refl) (λ r. refl) o) rest) before
      ≡ from_updates T o (overlay rest before)
overlay_updates T none rest before = refl
overlay_updates T (some r) rest before = refl

overlay_removes :
    (T id : ℕ) (m : Map Revision) (before : Option Revision)
    → overlay (stored T (as_removed T) (λ r. refl) (λ r. refl) (find id m)) before
      ≡ from_removes (has id m) before
overlay_removes T id m before = elim (Bool-cases (has id m)) [
  | inl h ↦ let (r, e) = has-find id m h in rw (h, e) refl
  | inr n ↦ rw (n, find-none id m n) refl
]

module _ (bound T : ℕ) (d : Delta) (chunk : Chunk) (c : IsCommittable bound T d chunk)
    (commit_history : Map ℕ) (d' : Delta) (chunk' : Chunk) (history' : Map ℕ)
    (done : checked_commit_locked T d chunk commit_history ≡ ok (d', chunk', history')) where
  data_eq :
      chunk'.container.data_ ≡ write_all (committed_revisions chunk.id T d) chunk.container.data_
  data_eq =
      let e = sym done ∙ checked_commit_locked-written bound T d chunk c commit_history in
      let same : chunk'
          ≡ written (committed_revisions chunk.id T d) (committed_patches chunk.id T d) chunk =
        cc in
      ap (λ (x : Chunk). x.container.data_) same

  -- After the commit of a delta that could be committed, a time before the commit reads every
  -- item as it did.
  pub commit-get_before :
      (j time : ℕ)
      → time < T
      → get_by_id_impl j time chunk'.container.data_ ≡ get_by_id_impl j time chunk.container.data_
  commit-get_before j time lt = rw data_eq (
      get-write_all_before time T j (committed_revisions chunk.id T d) chunk.container.data_
        (commit-Batch bound T d chunk c) lt)

  -- After the commit of a delta that could be committed, from its time on, an inserted or an
  -- updated item reads as the revision of the delta with the stamps of the commit, a removed
  -- item as nothing, and every other item as it did.
  pub commit-get :
      (j time : ℕ)
      → T ≤ time
      → get_by_id_impl j time chunk'.container.data_
        ≡ after_commit chunk.id T d j (get_by_id_impl j time chunk.container.data_)
  commit-get j time le = rw data_eq (
      get-write_all time T j (committed_revisions chunk.id T d) chunk.container.data_
        (commit-Batch bound T d chunk c) (commit-Older bound T d chunk c) le
      ∙ read (get_by_id_impl j time chunk.container.data_))
    where
      parts :
          at_id j (committed_revisions chunk.id T d)
          ≡ either
              (stored T (as_inserted chunk.id T) (λ r. refl) (λ r. refl) (find j d.insertions_))
              (either
                (stored T (as_updated T) (λ r. refl) (λ r. refl) (find j d.updates_))
                (stored T (as_removed T) (λ r. refl) (λ r. refl) (find j d.removes_)))
      parts =
          at_id-append j (stamps (as_inserted chunk.id T) d.insertions_)
            (stamps (as_updated T) d.updates_ ++ stamps (as_removed T) d.removes_)
          ∙ rw
              (at_id-append j (stamps (as_updated T) d.updates_) (stamps (as_removed T) d.removes_))
              (rw
                (at_id-stamps T (as_inserted chunk.id T) (λ r. refl) (λ r. refl) j d.insertions_
                  (ins_keys bound T d chunk c))
                (rw
                  (at_id-stamps T (as_updated T) (λ r. refl) (λ r. refl) j d.updates_
                    (upd_keys bound T d chunk c))
                  (rw
                    (at_id-stamps T (as_removed T) (λ r. refl) (λ r. refl) j d.removes_
                      (rem_keys bound T d chunk c))
                    refl)))

      read :
          (before : Option Revision)
          → overlay (at_id j (committed_revisions chunk.id T d)) before
            ≡ after_commit chunk.id T d j before
      read before = rw parts (
          overlay_insertions chunk.id T (find j d.insertions_)
            (either (stored T (as_updated T) (λ r. refl) (λ r. refl) (find j d.updates_))
              (stored T (as_removed T) (λ r. refl) (λ r. refl) (find j d.removes_)))
            before
          ∙ ap (from_insertions chunk.id T (find j d.insertions_)) (
              overlay_updates T (find j d.updates_)
                (stored T (as_removed T) (λ r. refl) (λ r. refl) (find j d.removes_)) before
              ∙ ap (from_updates T (find j d.updates_)) (overlay_removes T j d.removes_ before)))

  -- After the commit of a delta that could be committed, the histories are well formed: each
  -- item has one, of that item's revisions and not empty, which falls strictly in its update
  -- times, none later than the commit.
  pub commit-IsWellFormed : IsWellFormed (suc T) chunk'.container.data_
  commit-IsWellFormed = subst (IsWellFormed (suc T)) (sym data_eq) (
      write_all-IsWellFormed T bound (committed_revisions chunk.id T d) chunk.container.data_
        (commit-Batch bound T d chunk c) (commit-Older bound T d chunk c) c.well_formed
        (omega arith))

find-log_commit_event :
    (T j : ℕ) (m : Map Revision) (commit_history : Map ℕ)
    → find j (log_commit_event T m commit_history)
      ≡ (if has j m then some T else find j commit_history)
unfolding log_commit_event has
find-log_commit_event T j [] commit_history = refl
find-log_commit_event T j ((id, r) ∷ m) commit_history = ground (
  arith,
  find-log_commit_event T j m (assign id T commit_history),
  find-assign id j T commit_history,
)

-- The commit history has the time of the commit for the items of the delta, and what it had for
-- the others.
pub find-logged :
    (T j : ℕ) (d : Delta) (commit_history : Map ℕ)
    → find j (logged T d commit_history) ≡ (
        if has j d.insertions_ || has j d.updates_ || has j d.removes_
        then some T
        else find j commit_history)
find-logged T j d commit_history = ground (
  arith,
  find-log_commit_event T j d.removes_ (
      log_commit_event T d.updates_
        (log_commit_event T d.insertions_ (log_commit_event T d.insertions_ commit_history))),
  find-log_commit_event T j d.updates_
      (log_commit_event T d.insertions_ (log_commit_event T d.insertions_ commit_history)),
  find-log_commit_event T j d.insertions_ (log_commit_event T d.insertions_ commit_history),
  find-log_commit_event T j d.insertions_ commit_history,
)
