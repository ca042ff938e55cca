-- ===== src/TableTransaction/Keeps.antt =====
-- Each operation of a transaction on one table keeps its chunk transactions consistent.
use mathlib.Core.Path.{subst}
use map_api.Prelude.{
  ℕ, ◌≡◌, sym, Bool, true, false, not, Option, none, some, List, [], ltb, ◌==◌, if◌then◌else◌,
  Bool-cases, inl, inr,
}
use map_api.Prelude.Checked
use map_api.Prelude.Checked.{Checked, ok, check, check_notnull, >>=-eq-ok}
use map_api.Prelude.Map.{Map, has, emplace}
use map_api.LogicalTime.{pure, lift, assert, sample}
use map_api.LogicalTime.Steps.{timed-eq-ok, lift-eq-ok}
use map_api.Revision.{Revision, is_valid_id}
use map_api.Chunk.{Chunk}
use map_api.Transaction
use map_api.Transaction.{Transaction, changing, changeable, entry_or_updated}
use map_api.TableTransaction.{Entry}
use map_api.TableTransaction.Items.{
  NetTableTransaction, set_transaction, begin_table_transaction, transaction_of, change_of, insert,
  chunk_of, update, remove, get_by_id_in, get_by_id_from, get_by_id, dump_chunk,
  get_mutable_update_entry, refresh, refresh_id_to_chunk_id_map,
}
use map_api.TableTransaction.Reachable.{
  IsSound, IsConsistent, Opened, transaction_of_lem, KeepsSound, change_of-Changed,
  Changed-IsConsistent, set_transaction-IsConsistent,
}
use map_api.TableTransaction.Sound.{insert-IsSound, update-IsSound, remove-IsSound, mutable-IsSound}

change_of-IsConsistent :
    (change : Transaction → Checked Transaction) (chunk : Chunk) (t t' : NetTableTransaction)
    (clock later : ℕ)
    → KeepsSound change
    → IsConsistent t
    → change_of change chunk t clock ≡ ok (t', later)
    → IsConsistent t'
change_of-IsConsistent change chunk t t' clock later keeps sound h =
    Changed-IsConsistent change chunk t t' keeps
      (change_of-Changed change chunk t t' clock later sound h)

pub insert-IsConsistent :
    (chunk : Chunk) (r : Revision) (t t' : NetTableTransaction) (clock later : ℕ)
    → IsConsistent t
    → insert chunk r t clock ≡ ok (t', later)
    → IsConsistent t'
unfolding insert
insert-IsConsistent chunk r t t' clock later sound h =
    let (u, c1, _, h1) = timed-eq-ok (assert (not t.finalized)) _ clock later t' h in
    let (v, c2, changed, h2) =
      timed-eq-ok (change_of (Transaction.insert r) chunk t) _ c1 later t' h1 in
    let (w, c3, _, h3) =
      timed-eq-ok (assert (not (has r.id v.item_id_to_chunk_id_map))) _ c2 later t' h2 in
    let same : record v {
      item_id_to_chunk_id_map = emplace r.id chunk.id v.item_id_to_chunk_id_map;
    }
        ≡ t' =
      cc in
    subst IsConsistent same (
      change_of-IsConsistent (Transaction.insert r) chunk t v c1 c2 (insert-IsSound r) sound
        changed)

pub update-IsConsistent :
    (get_chunk : ℕ → Option Chunk) (r : Revision) (t t' : NetTableTransaction) (clock later : ℕ)
    → IsConsistent t
    → update get_chunk r t clock ≡ ok (t', later)
    → IsConsistent t'
unfolding update
update-IsConsistent get_chunk r t t' clock later sound h =
    let (u, c1, _, h1) = timed-eq-ok (assert (not t.finalized)) _ clock later t' h in
    let (v, c2, _, h2) = timed-eq-ok (assert (is_valid_id r.id)) _ c1 later t' h1 in
    let (chunk, c3, _, h3) =
      timed-eq-ok (lift (check_notnull (chunk_of get_chunk r.id t))) _ c2 later t' h2 in
    let (w, c4, _, h4) =
      timed-eq-ok (assert (if is_valid_id r.chunk_id then chunk.id == r.chunk_id else true)) _ c3
        later t' h3 in
    change_of-IsConsistent (Transaction.update r) chunk t t' c4 later (update-IsSound r) sound h4

pub remove-IsConsistent :
    (get_chunk : ℕ → Option Chunk) (r : Revision) (t t' : NetTableTransaction) (clock later : ℕ)
    → IsConsistent t
    → remove get_chunk r t clock ≡ ok (t', later)
    → IsConsistent t'
unfolding remove
remove-IsConsistent get_chunk r t t' clock later sound h =
    let (u, c1, _, h1) = timed-eq-ok (assert (not t.finalized)) _ clock later t' h in
    let (chunk, c2, _, h2) =
      timed-eq-ok (lift (check_notnull (chunk_of get_chunk r.id t))) _ c1 later t' h1 in
    let (w, c3, _, h3) = timed-eq-ok (assert (chunk.id == r.chunk_id)) _ c2 later t' h2 in
    change_of-IsConsistent (Transaction.remove r) chunk t t' c3 later (remove-IsSound r) sound h3

pub dump_chunk-IsConsistent :
    (get_chunk : ℕ → Option Chunk) (contains : ℕ → Bool) (chunk : Chunk)
    (t t' : NetTableTransaction) (items : Map Revision) (clock later : ℕ)
    → IsConsistent t
    → dump_chunk get_chunk contains chunk t clock ≡ ok ((items, t'), later)
    → IsConsistent t'
unfolding dump_chunk
dump_chunk-IsConsistent get_chunk contains chunk t t' items clock later sound h =
    elim (Bool-cases (contains chunk.id)) [
      | inl inside ↦
          let ((e, u), c1, opening, h1) =
            timed-eq-ok (transaction_of chunk t) _ clock later (items, t') (rw inside at h) in
          let (found, c2, _, h2) =
            timed-eq-ok (Transaction.dump_chunk e.transaction e.chunk) _ c1 later (items, t') h1 in
          let same : u ≡ t' = cc in
          let (_, _, _, _, _, sound') = transaction_of_lem chunk t u e clock c1 sound opening in
          subst IsConsistent same sound'
      | inr outside ↦
          let same : t ≡ t' = (let k = rw outside at h in cc) in subst IsConsistent same sound
    ]

get_by_id_in-IsConsistent :
    (get_chunk : ℕ → Option Chunk) (contains : ℕ → Bool) (id : ℕ) (chunk : Chunk)
    (t t' : NetTableTransaction) (r : Option Revision) (clock later : ℕ)
    → IsConsistent t
    → get_by_id_in get_chunk contains id chunk t clock ≡ ok ((r, t'), later)
    → IsConsistent t'
unfolding get_by_id_in
get_by_id_in-IsConsistent get_chunk contains id chunk t t' r clock later sound h =
    elim (Bool-cases (contains chunk.id)) [
      | inl inside ↦
          let ((e, u), c1, opening, h1) =
            timed-eq-ok (transaction_of chunk t) _ clock later (r, t') (rw inside at h) in
          let (found, c2, _, h2) =
            timed-eq-ok (lift (Transaction.get_by_id id e.transaction e.chunk)) _ c1 later (r, t')
              h1 in
          let same : u ≡ t' = cc in
          let (_, _, _, _, _, sound') = transaction_of_lem chunk t u e clock c1 sound opening in
          subst IsConsistent same sound'
      | inr outside ↦
          let same : t ≡ t' = (let k = rw outside at h in cc) in subst IsConsistent same sound
    ]

get_by_id_from-IsConsistent :
    (get_chunk : ℕ → Option Chunk) (contains : ℕ → Bool) (id : ℕ) (found : Option Chunk)
    (t t' : NetTableTransaction) (r : Option Revision) (clock later : ℕ)
    → IsConsistent t
    → get_by_id_from get_chunk contains id t found clock ≡ ok ((r, t'), later)
    → IsConsistent t'
unfolding get_by_id_from
get_by_id_from-IsConsistent get_chunk contains id none t t' r clock later sound h =
    let same : t ≡ t' = cc in subst IsConsistent same sound
get_by_id_from-IsConsistent get_chunk contains id (some chunk) t t' r clock later sound h =
    get_by_id_in-IsConsistent get_chunk contains id chunk t t' r clock later sound h

pub get_by_id-IsConsistent :
    (get_chunk : ℕ → Option Chunk) (contains : ℕ → Bool) (id : ℕ) (t t' : NetTableTransaction)
    (r : Option Revision) (clock later : ℕ)
    → IsConsistent t
    → get_by_id get_chunk contains id t clock ≡ ok ((r, t'), later)
    → IsConsistent t'
unfolding get_by_id
get_by_id-IsConsistent get_chunk contains id t t' r clock later sound h =
    get_by_id_from-IsConsistent get_chunk contains id (chunk_of get_chunk id t) t t' r clock later
      sound h

-- The last step of `get_mutable_update_entry`.
mutable-IsConsistent :
    (id : ℕ) (chunk : Chunk) (t u t' : NetTableTransaction) (e : Entry)
    (changed : Revision × Transaction)
    → Opened chunk t e u
    → Transaction.get_mutable_update_entry id e.transaction e.chunk ≡ ok changed
    → record u { chunk_transactions = set_transaction chunk.id changed.1 u.chunk_transactions } ≡ t'
    → IsConsistent t'
mutable-IsConsistent id chunk t u t' e (q, changed) (_, _, _, s, began, sound) h same =
    let s' = mutable-IsSound id e.chunk t.begin_time e.transaction changed q s h in
    subst IsConsistent same (
      set_transaction-IsConsistent chunk.id changed u sound
        (subst (λ b. IsSound b changed) (sym began) s'))

pub get_mutable-IsConsistent :
    (get_chunk : ℕ → Option Chunk) (contains : ℕ → Bool) (id : ℕ) (t t' : NetTableTransaction)
    (r : Revision) (clock later : ℕ)
    → IsConsistent t
    → get_mutable_update_entry get_chunk contains id t clock ≡ ok ((r, t'), later)
    → IsConsistent t'
unfolding get_mutable_update_entry
get_mutable-IsConsistent get_chunk contains id t t' r clock later sound h =
    let (_, c1, _, h1) = timed-eq-ok (assert (not t.finalized)) _ clock later (r, t') h in
    let (chunk, c2, _, h2) =
      timed-eq-ok (lift (check_notnull (chunk_of get_chunk id t))) _ c1 later (r, t') h1 in
    let (_, c3, _, h3) = timed-eq-ok (assert (contains chunk.id)) _ c2 later (r, t') h2 in
    let (outcome, c4, opening, h4) = timed-eq-ok (transaction_of chunk t) _ c3 later (r, t') h3 in
    let (changed, c5, mutable, h5) =
      timed-eq-ok
        (lift (Transaction.get_mutable_update_entry id outcome.0.transaction outcome.0.chunk)) _ c4
        later (r, t') h4 in
    mutable-IsConsistent id chunk t outcome.1 t' outcome.0 changed
      (transaction_of_lem chunk t outcome.1 outcome.0 c3 c4 sound opening)
      (lift-eq-ok _ c4 c5 changed mutable).0 (last outcome.1 chunk.id changed h5)
  where
    last :
        (u : NetTableTransaction) (k : ℕ) (changed : Revision × Transaction) {c : ℕ}
        → pure {A = Revision × NetTableTransaction}
            (
              changed.0,
              record u { chunk_transactions = set_transaction k changed.1 u.chunk_transactions },
            )
            c
          ≡ ok ((r, t'), later)
        → record u { chunk_transactions = set_transaction k changed.1 u.chunk_transactions } ≡ t'
    last u k changed e = cc

pub refresh-IsConsistent :
    (chunks : List Chunk) (t t' : NetTableTransaction)
    → IsConsistent t
    → refresh_id_to_chunk_id_map chunks t ≡ ok t'
    → IsConsistent t'
unfolding refresh_id_to_chunk_id_map
refresh-IsConsistent chunks t t' sound h =
    let (m, _, h1) =
      >>=-eq-ok (refresh t.begin_time chunks []) _
        (Checked.>>-eq-ok (check (not t.finalized)) _ h) in
    let same : record t { item_id_to_chunk_id_map = m } ≡ t' = cc in subst IsConsistent same sound

pub begin-IsConsistent :
    (chunks : List Chunk) (begin_time clock later : ℕ) (t : NetTableTransaction)
    → begin_table_transaction chunks begin_time clock ≡ ok (t, later)
    → IsConsistent t
unfolding begin_table_transaction sample
begin-IsConsistent chunks begin_time clock later t h =
    let (_, c, _, made) = timed-eq-ok (assert (ltb begin_time clock)) _ _ later t h in
    refresh-IsConsistent chunks first t (tt, tt)
      (lift-eq-ok (refresh_id_to_chunk_id_map chunks first) c later t made).0
  where
    first : NetTableTransaction
    first = record {
      chunk_transactions = [];
      begin_time = begin_time;
      finalized = false;
      item_id_to_chunk_id_map = [];
    }
