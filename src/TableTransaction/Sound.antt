-- ===== src/TableTransaction/Sound.antt =====
-- The changes of a chunk transaction keep its begin time, and an id in one map of its delta only.
use mathlib.Core.Path.{subst}
use map_api.Prelude.{ℕ, ◌≡◌, not, Option, none, some}
use map_api.Prelude.Checked
use map_api.Prelude.Checked.{Checked, ok, check, check_notnull, >>=-eq-ok}
use map_api.Revision.{Revision}
use map_api.Chunk.{Chunk}
use map_api.Delta.{mutable_update_entry}
use map_api.Delta.Invariant.{Change, inserting, updating, removing, apply, apply-IsSeparate}
use map_api.Transaction
use map_api.Transaction.{Transaction, changing, changeable, entry_or_updated}
use map_api.TableTransaction.Reachable.{IsSound, KeepsSound}

changing-IsSound : (r : Revision) (c : Change) → KeepsSound (changing r (apply c))
unfolding changing
changing-IsSound r c begin_time t t' (began, separate) h =
    let (delta', h1, h2) = >>=-eq-ok (apply c t.delta) _ (Checked.>>-eq-ok (changeable r t) _ h) in
    let same : record t { delta = delta' } ≡ t' = cc in
    subst (IsSound begin_time) same (began, apply-IsSeparate c t.delta delta' separate h1)

pub insert-IsSound : (r : Revision) → KeepsSound (Transaction.insert r)
unfolding Transaction.insert
insert-IsSound r = changing-IsSound r (inserting r)

pub update-IsSound : (r : Revision) → KeepsSound (Transaction.update r)
unfolding Transaction.update
update-IsSound r = changing-IsSound r (updating r)

pub remove-IsSound : (r : Revision) → KeepsSound (Transaction.remove r)
unfolding Transaction.remove
remove-IsSound r = changing-IsSound r (removing r)

-- The original is updated, if the item has no entry.
entry_or_updated-IsSound :
    (id : ℕ) (chunk : Chunk) (begin_time : ℕ) (t t' : Transaction) (r : Revision)
    (entry : Option Revision)
    → IsSound begin_time t
    → entry_or_updated id t chunk entry ≡ ok (r, t')
    → IsSound begin_time t'
unfolding entry_or_updated
entry_or_updated-IsSound id chunk begin_time t t' r (some q) s h =
    let same : t ≡ t' = cc in subst (IsSound begin_time) same s
entry_or_updated-IsSound id chunk begin_time t t' r none s h =
    let (pointer, _, h1) = >>=-eq-ok (Transaction.get_by_id id t chunk) _ h in
    let (original, _, h2) = >>=-eq-ok (check_notnull pointer) _ h1 in
    let (u, updated, h3) = >>=-eq-ok (Transaction.update original t) _ h2 in
    let (q, _, h4) = >>=-eq-ok (check_notnull (mutable_update_entry id u.delta)) _ h3 in
    let same : u ≡ t' = cc in
    subst (IsSound begin_time) same (update-IsSound original begin_time t u s updated)

pub mutable-IsSound :
    (id : ℕ) (chunk : Chunk) (begin_time : ℕ) (t t' : Transaction) (r : Revision)
    → IsSound begin_time t
    → Transaction.get_mutable_update_entry id t chunk ≡ ok (r, t')
    → IsSound begin_time t'
unfolding Transaction.get_mutable_update_entry
mutable-IsSound id chunk begin_time t t' r s h =
    entry_or_updated-IsSound id chunk begin_time t t' r (mutable_update_entry id t.delta) s
      (Checked.>>-eq-ok (check (not t.finalized)) _ h)
