-- ===== src/Container/Patches.antt =====
-- `patchImpl` as other peers' revisions reach it: in any order, and what it leaves.
use mathlib.Core.Path.{subst}
use map_api.Prelude.{
  ◌⊎◌, ◌+◌, ℕ, suc, ◌≤◌, ◌<◌, ◌≡◌, ◌≢◌, ◌∙◌, refl, ap, sym, inl, inr, true, false, if◌then◌else◌,
  Bool-cases, arith,
}
use map_api.Prelude.Checked.{ok, fatal, ◌>>=◌}
use map_api.Revision.{Revision}
use map_api.Container.Ram.{
  History, HistoryMap, history_of, patch_history, patch_impl, get_by_id_impl,
}
use map_api.Container.History.{
  Below, has_time, placed, patch_history-placed, patch_history-fatal, Below-placed, has_time-placed,
  placed_comm, Below-mono,
}
use map_api.Container.Writes.{
  IsWellFormed, with_revision, patch_impl-with_revision, with_revision-IsWellFormed,
  history_of-good, get-with_revision_before,
}

-- Patching a history that is sorted by its times: it aborts on a time that is there, and else puts
-- the revision into its place.
patch_history-cases :
    (r : Revision) (h : History) (bound : ℕ)
    → Below bound h
    → patch_history r h ≡ (if has_time r.update_time h then fatal else ok (placed r h))
patch_history-cases r h bound b =
    ground (arith, patch_history-fatal r h bound b, patch_history-placed r h)

higher :
    (r : Revision) (h : History) (bound : ℕ) → Below bound h → Below (bound + suc r.update_time) h
higher r h bound b = Below-mono bound (bound + suc r.update_time) h (omega arith) b

-- Two patches of an item with different times do the same in either order, also where they abort:
-- a history that falls in its times ends up the same.
pub patch_history_comm :
    (a b : Revision) (h : History) (bound : ℕ)
    → Below bound h
    → a.update_time ≢ b.update_time
    → (patch_history a h >>= λ h'. patch_history b h')
      ≡ (patch_history b h >>= λ h'. patch_history a h')
patch_history_comm a b h bound below n = rw (patch_history-cases a h bound below) (
    rw (patch_history-cases b h bound below)
      (both (Bool-cases (has_time a.update_time h)) (Bool-cases (has_time b.update_time h))))
  where
    after :
        (x y : Revision)
        → has_time x.update_time h ≡ false
        → patch_history y (placed x h)
          ≡ (if has_time y.update_time (placed x h) then fatal else ok (placed y (placed x h)))
    after x y f =
        patch_history-cases y (placed x h) (bound + suc x.update_time)
          (Below-placed x h (bound + suc x.update_time) (higher x h bound below) (omega arith) f)

    both :
        (has_time a.update_time h ≡ true) ⊎ (has_time a.update_time h ≡ false)
        → (has_time b.update_time h ≡ true) ⊎ (has_time b.update_time h ≡ false)
        → ((if has_time a.update_time h then fatal else ok (placed a h)) >>= λ h'.
            patch_history b h')
          ≡ ((if has_time b.update_time h then fatal else ok (placed b h)) >>= λ h'.
              patch_history a h')
    both (inl p) (inl q) = rw (p, q) refl
    both (inl p) (inr q) =
        rw (p, q) (rw (after b a q) (rw (has_time-placed a.update_time b h) (ground (arith, p))))
    both (inr p) (inl q) =
        rw (p, q) (rw (after a b p) (rw (has_time-placed b.update_time a h) (ground (arith, q))))
    both (inr p) (inr q) =
        rw (p, q)
          (ground (
            arith,
            after a b p,
            after b a q,
            has_time-placed a.update_time b h,
            has_time-placed b.update_time a h,
            placed_comm a b h n,
          ))

-- A patch that does not abort wrote a revision with a new update time.
patch_impl-shape :
    (r : Revision) (bound : ℕ) (data_ data' : HistoryMap)
    → IsWellFormed bound data_
    → patch_impl r data_ ≡ ok data'
    → (has_time r.update_time (history_of r.id data_) ≡ false) × (with_revision r data_ ≡ data')
unfolding patch_impl
patch_impl-shape r bound data_ data' w e =
    elim (Bool-cases (has_time r.update_time (history_of r.id data_))) [
      | inl h ↦
          let stuck : patch_history r (history_of r.id data_) ≡ fatal =
            patch_history-fatal r (history_of r.id data_) bound
              (history_of-good r.id bound data_ w).0 h in
          let absurd : fatal ≡ ok data' = sym (rw stuck refl) ∙ e in cc
      | inr f ↦ (
        f,
        (let same : ok (with_revision r data_) ≡ ok data' =
              sym (patch_impl-with_revision r data_ f) ∙ e in
            cc),
      )
    ]

-- A patch that does not abort keeps the histories well formed, below any time later than the bound
-- and the revision.
pub patch_impl-IsWellFormed :
    (r : Revision) (bound later : ℕ) (data_ data' : HistoryMap)
    → IsWellFormed bound data_
    → bound ≤ later
    → r.update_time < later
    → patch_impl r data_ ≡ ok data'
    → IsWellFormed later data'
patch_impl-IsWellFormed r bound later data_ data' w le lt e =
    let (f, same) = patch_impl-shape r bound data_ data' w e in
    subst (IsWellFormed later) same (with_revision-IsWellFormed r bound later data_ w le lt f)

-- After a patch that does not abort, times before the revision read every item as they did.
pub get-patch_impl_before :
    (r : Revision) (bound j time : ℕ) (data_ data' : HistoryMap)
    → IsWellFormed bound data_
    → patch_impl r data_ ≡ ok data'
    → time < r.update_time
    → get_by_id_impl j time data' ≡ get_by_id_impl j time data_
get-patch_impl_before r bound j time data_ data' w e before =
    ap (get_by_id_impl j time) (sym (patch_impl-shape r bound data_ data' w e).1)
    ∙ get-with_revision_before r j time data_ before
