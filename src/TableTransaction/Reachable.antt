-- ===== src/TableTransaction/Reachable.antt =====
-- The states of a transaction on one table that its operations reach from its constructor.
use mathlib.Core.Path.{subst}
use map_api.Prelude.{ℕ, ◌≡◌, refl, sym, false, not, Option, none, some, List, [], ◌∷◌, ltb, arith}
use map_api.Prelude.Checked.{Checked, ok}
use map_api.LogicalTime.{lift, assert, sample}
use map_api.LogicalTime.Steps.{timed-eq-ok, lift-eq-ok}
use map_api.Chunk.{Chunk}
use map_api.Delta.{empty}
use map_api.Delta.Invariant.{IsSeparate, empty-IsSeparate}
use map_api.Transaction.{Transaction, begin_transaction}
use map_api.TableTransaction.{Entry}
use map_api.TableTransaction.Items.{
  NetTableTransaction, find_entry, insert_entry, set_transaction, open_entry, transaction_of,
  change_of,
}
use map_api.TableTransaction.Order.{
  IsOrdered, All, insert_entry-IsOrdered, set_transaction-IsOrdered, insert_entry-All,
  find_entry-All, set_transaction-All,
}

-- The transaction started at the time, and its delta keeps an id in one map only.
abbrev pub IsSound : ℕ → Transaction → Type 0
IsSound begin_time t = (t.begin_time ≡ begin_time) × IsSeparate t.delta

abbrev pub IsConsistent : NetTableTransaction → Type 0
IsConsistent t =
    IsOrdered t.chunk_transactions
    × All (λ e. IsSound t.begin_time e.transaction) t.chunk_transactions

-- What the constructor makes.
abbrev pub fresh : ℕ → Chunk → Transaction
fresh begin_time chunk = record {
  begin_time = begin_time;
  future = none;
  structure_reference = chunk.container.template;
  commit_history = [];
  delta = empty;
  conflict_conditions = [];
  finalized = false;
}

begin_transaction-IsSound :
    (begin_time : ℕ) (chunk : Chunk) (t : Transaction) (clock later : ℕ)
    → begin_transaction begin_time none chunk clock ≡ ok (t, later)
    → IsSound begin_time t
unfolding begin_transaction sample
begin_transaction-IsSound begin_time chunk t clock later h =
    let (u, c, _, made) = timed-eq-ok (assert (ltb begin_time clock)) _ _ later t h in
    let same : fresh begin_time chunk ≡ t = cc in
    subst (IsSound begin_time) same (refl, empty-IsSeparate)

find_entry-insert_entry :
    (new : Entry) (entries : List Entry)
    → find_entry new.chunk.id entries ≡ none
    → find_entry new.chunk.id (insert_entry new entries) ≡ some new
unfolding find_entry insert_entry
find_entry-insert_entry new [] h = ground arith
find_entry-insert_entry new (e ∷ entries) h = ground (arith, find_entry-insert_entry new entries)

-- What `transaction_of` keeps, and the entry that it returns.
abbrev pub Opened : Chunk → NetTableTransaction → Entry → NetTableTransaction → Type 0
Opened chunk t e t' =
    (find_entry chunk.id t'.chunk_transactions ≡ some e)
    × (t'.item_id_to_chunk_id_map ≡ t.item_id_to_chunk_id_map)
    × (t'.finalized ≡ t.finalized)
    × IsSound t.begin_time e.transaction
    × (t'.begin_time ≡ t.begin_time)
    × IsConsistent t'

open_entry_lem :
    (chunk : Chunk) (t t' : NetTableTransaction) (e : Entry) (found : Option Entry)
    (clock later : ℕ)
    → IsConsistent t
    → find_entry chunk.id t.chunk_transactions ≡ found
    → open_entry chunk t found clock ≡ ok ((e, t'), later)
    → Opened chunk t e t'
unfolding open_entry
open_entry_lem chunk t t' e (some first) clock later sound hit h =
    let same_entry : first ≡ e = cc in
    let same : t ≡ t' = cc in
    let s =
      find_entry-All (λ x. IsSound t.begin_time x.transaction) chunk.id first t.chunk_transactions
        sound.1 hit in
    subst (λ x. Opened chunk t x t') same_entry
      (subst (Opened chunk t first) same (hit, refl, refl, s, refl, sound))
open_entry_lem chunk t t' e none clock later sound miss h =
    let (u, c1, _, h1) = timed-eq-ok (assert (not t.finalized)) _ clock later (e, t') h in
    let (tr, c2, begun, h2) =
      timed-eq-ok (begin_transaction t.begin_time none chunk) _ c1 later (e, t') h1 in
    let s = begin_transaction-IsSound t.begin_time chunk tr c1 c2 begun in
    let new : Entry = record { transaction = tr; chunk = chunk } in
    let same_entry : new ≡ e = cc in
    let same : record t { chunk_transactions = insert_entry new t.chunk_transactions } ≡ t' = cc in
    subst (λ x. Opened chunk t x t') same_entry
      (subst (Opened chunk t new) same (
        find_entry-insert_entry new t.chunk_transactions miss,
        refl,
        refl,
        s,
        refl,
        (
          insert_entry-IsOrdered new t.chunk_transactions sound.0,
          insert_entry-All (λ x. IsSound t.begin_time x.transaction) new t.chunk_transactions s
              sound.1,
        ),
      ))

pub transaction_of_lem :
    (chunk : Chunk) (t t' : NetTableTransaction) (e : Entry) (clock later : ℕ)
    → IsConsistent t
    → transaction_of chunk t clock ≡ ok ((e, t'), later)
    → Opened chunk t e t'
unfolding transaction_of
transaction_of_lem chunk t t' e clock later sound h =
    open_entry_lem chunk t t' e (find_entry chunk.id t.chunk_transactions) clock later sound refl h

-- A change that keeps a chunk transaction sound.
abbrev pub KeepsSound : (Transaction → Checked Transaction) → Type 0
KeepsSound change =
    (begin_time : ℕ) (t t' : Transaction)
    → IsSound begin_time t
    → change t ≡ ok t'
    → IsSound begin_time t'

-- What a change of the chunk transaction of a chunk does.
abbrev pub Changed :
    (Transaction → Checked Transaction) → Chunk → NetTableTransaction → NetTableTransaction → Type 0
Changed change chunk t t' =
    (e : Entry) × (u : NetTableTransaction) × (changed : Transaction) × Opened chunk t e u
    × (change e.transaction ≡ ok changed)
    × (record u { chunk_transactions = set_transaction chunk.id changed u.chunk_transactions } ≡ t')

pub change_of-Changed :
    (change : Transaction → Checked Transaction) (chunk : Chunk) (t t' : NetTableTransaction)
    (clock later : ℕ)
    → IsConsistent t
    → change_of change chunk t clock ≡ ok (t', later)
    → Changed change chunk t t'
unfolding change_of
change_of-Changed change chunk t t' clock later sound h =
    let ((e, u), c1, h1, h2) = timed-eq-ok (transaction_of chunk t) _ clock later t' h in
    let (changed, c2, h3, h4) = timed-eq-ok (lift (change e.transaction)) _ c1 later t' h2 in
    (
      e,
      u,
      changed,
      transaction_of_lem chunk t u e clock c1 sound h1,
      (lift-eq-ok (change e.transaction) c1 c2 changed h3).0,
      cc,
    )

pub set_transaction-IsConsistent :
    (id : ℕ) (changed : Transaction) (u : NetTableTransaction)
    → IsConsistent u
    → IsSound u.begin_time changed
    → IsConsistent
        (record u { chunk_transactions = set_transaction id changed u.chunk_transactions })
set_transaction-IsConsistent id changed u sound s = (
  set_transaction-IsOrdered id changed u.chunk_transactions sound.0,
  set_transaction-All (λ x. IsSound u.begin_time x.transaction) id changed u.chunk_transactions
      (λ e. s) sound.1,
)

pub Changed-IsConsistent :
    (change : Transaction → Checked Transaction) (chunk : Chunk) (t t' : NetTableTransaction)
    → KeepsSound change
    → Changed change chunk t t'
    → IsConsistent t'
Changed-IsConsistent change chunk t t' keeps
      (e, u, changed, (_, _, _, s, began, sound), done, same) =
    subst IsConsistent same (
      set_transaction-IsConsistent chunk.id changed u sound (
        subst (λ b. IsSound b changed) (sym began)
          (keeps t.begin_time e.transaction changed s done)))
