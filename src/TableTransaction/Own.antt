-- ===== src/TableTransaction/Own.antt =====
-- What a transaction on one table shows of the items that it inserted itself.
use mathlib.Core.Path.{subst}
use map_api.Prelude.{
  ℕ, ◌≡◌, ◌∙◌, refl, sym, ap, Bool, true, false, not, Option, none, some, List, [], ◌∷◌, arith,
}
use map_api.Prelude.Checked
use map_api.Prelude.Checked.{Checked, ok, fatal, check, check_notnull, >>=-eq-ok}
use map_api.Prelude.Map.{Map, has, find, emplace, find-emplace, has-emplace, find-none}
use map_api.Prelude.IdSet
use map_api.LogicalTime.{Timed, ◌>>=◌, assert}
use map_api.LogicalTime.Steps.{timed-eq-ok, timed-ok}
use map_api.Revision.{Revision, is_valid_id}
use map_api.Container.Ram.{available_ids_impl}
use map_api.View.Combined.{combined_view, combined_get}
use map_api.Chunk.{Chunk}
use map_api.Delta
use map_api.Delta.{Delta, delta_view, delta_has, delta_get}
use map_api.Delta.Invariant.{insert-ok}
use map_api.Transaction
use map_api.Transaction.{Transaction, changing, changeable}
use map_api.TableTransaction.{Entry}
use map_api.TableTransaction.Items.{
  NetTableTransaction, find_entry, set_transaction, open_entry, transaction_of, change_of, insert,
  chunk_at, chunk_of, update, get_by_id_in, get_by_id_from, get_by_id, add_items, refresh,
  refresh_id_to_chunk_id_map,
}
use map_api.TableTransaction.Reachable.{IsConsistent, change_of-Changed}

-- A delta shows what was inserted into it.
delta-insert :
    (r : Revision) (d d' : Delta)
    → Delta.insert r d ≡ ok d'
    → (delta_has d' r.id ≡ true) × (delta_get d' r.id ≡ ok (some r))
unfolding delta_has delta_get
delta-insert r d d' h =
    let (_, no_update, no_remove, new, same) = insert-ok r d d' h in
    subst (λ q. (delta_has q r.id ≡ true) × (delta_get q r.id ≡ ok (some r))) same
      (
        ground (arith, no_update, no_remove, has-emplace r.id r.id r d.insertions_),
        ground (arith, find-none r.id d.updates_ no_update, find-emplace r.id r.id r d.insertions_),
      )

get_by_id-insert_own :
    (r : Revision) (t t' : Transaction) (chunk : Chunk)
    → Transaction.insert r t ≡ ok t'
    → Transaction.get_by_id r.id t' chunk ≡ ok (some r)
unfolding Transaction.insert changing Transaction.get_by_id combined_view combined_get delta_view
get_by_id-insert_own r t t' chunk h =
    let (d, h1, h2) =
      >>=-eq-ok (Delta.insert r t.delta) _ (Checked.>>-eq-ok (changeable r t) _ h) in
    let same : record t { delta = d } ≡ t' = cc in
    let (has_it, get_it) = delta-insert r t.delta d h1 in
    subst (λ u. Transaction.get_by_id r.id u chunk ≡ ok (some r)) same (rw has_it get_it)

find_entry-set_transaction :
    (id : ℕ) (t : Transaction) (e : Entry) (entries : List Entry)
    → find_entry id entries ≡ some e
    → find_entry id (set_transaction id t entries) ≡ some (record e { transaction = t })
unfolding find_entry set_transaction
find_entry-set_transaction id t e [] h = cc
find_entry-set_transaction id t e (first ∷ entries) h =
    ground (arith, find_entry-set_transaction id t e entries)

-- The state after an insertion.
Inserted : Chunk → Revision → NetTableTransaction → Type 0
Inserted chunk r t' =
    (e : Entry) × (find_entry chunk.id t'.chunk_transactions ≡ some e)
    × (find r.id t'.item_id_to_chunk_id_map ≡ some chunk.id)
    × (Transaction.get_by_id r.id e.transaction e.chunk ≡ ok (some r))

insert-Inserted :
    (chunk : Chunk) (r : Revision) (t t' : NetTableTransaction) (clock later : ℕ)
    → IsConsistent t
    → insert chunk r t clock ≡ ok (t', later)
    → Inserted chunk r t'
unfolding insert Inserted
insert-Inserted chunk r t t' clock later sound h =
    let (_, c1, _, h1) = timed-eq-ok (assert (not t.finalized)) _ clock later t' h in
    let (v, c2, done, h2) =
      timed-eq-ok (change_of (Transaction.insert r) chunk t) _ c1 later t' h1 in
    let (_, c3, fresh, h3) =
      timed-eq-ok (assert (not (has r.id v.item_id_to_chunk_id_map))) _ c2 later t' h2 in
    let (e, u, changed, (found, _, _, _, _, _), inserted, same) =
      change_of-Changed (Transaction.insert r) chunk t v c1 c2 sound done in
    let new : has r.id v.item_id_to_chunk_id_map ≡ false = ground (arith, fresh) in
    let last : record v {
      item_id_to_chunk_id_map = emplace r.id chunk.id v.item_id_to_chunk_id_map;
    }
        ≡ t' =
      cc in
    subst (λ q. Inserted chunk r q) last
      (subst
        (λ q.
          Inserted chunk r (record q {
            item_id_to_chunk_id_map = emplace r.id chunk.id v.item_id_to_chunk_id_map;
          }))
        same
        (
          record e { transaction = changed },
          find_entry-set_transaction chunk.id changed e u.chunk_transactions found,
          ground (arith, new, find-emplace r.id r.id chunk.id v.item_id_to_chunk_id_map),
          get_by_id-insert_own r e.transaction changed e.chunk inserted,
        ))

chunk_of-found :
    (get_chunk : ℕ → Option Chunk) (id k : ℕ) (t : NetTableTransaction)
    → find id t.item_id_to_chunk_id_map ≡ some k
    → chunk_of get_chunk id t ≡ get_chunk k
unfolding chunk_of chunk_at
chunk_of-found get_chunk id k t h = ap (chunk_at get_chunk) h

-- A check before a computation that aborts.
assert-fatal :
    {A : Type 0} (b : Bool) (next : Timed A) (now : ℕ)
    → ((c : ℕ) → next c ≡ fatal)
    → (assert b >>= λ _. next) now ≡ fatal
assert-fatal false next now h = refl
assert-fatal true next now h = h now

open_entry-found :
    (chunk : Chunk) (t : NetTableTransaction) (e : Entry) (now : ℕ)
    → find_entry chunk.id t.chunk_transactions ≡ some e
    → transaction_of chunk t now ≡ ok ((e, t), now)
unfolding transaction_of open_entry
open_entry-found chunk t e now h = ap (λ found. open_entry chunk t found now) h

get_by_id_in-own :
    (get_chunk : ℕ → Option Chunk) (contains : ℕ → Bool) (id : ℕ) (chunk : Chunk)
    (t : NetTableTransaction) (e : Entry) (r : Revision) (now : ℕ)
    → contains chunk.id ≡ true
    → find_entry chunk.id t.chunk_transactions ≡ some e
    → Transaction.get_by_id id e.transaction e.chunk ≡ ok (some r)
    → get_by_id_in get_chunk contains id chunk t now ≡ ok ((some r, t), now)
unfolding get_by_id_in
get_by_id_in-own get_chunk contains id chunk t e r now inside found own = rw inside (
    timed-ok (transaction_of chunk t) _ now now (e, t) (open_entry-found chunk t e now found)
    ∙ rw own refl)

-- An item that a transaction inserted into a chunk of its workspace is found by its id, as it was
-- inserted, and reading it changes nothing.
pub get_by_id-insert :
    (get_chunk : ℕ → Option Chunk) (contains : ℕ → Bool) (chunk : Chunk) (r : Revision)
    (t t' : NetTableTransaction) (clock later now : ℕ)
    → IsConsistent t
    → insert chunk r t clock ≡ ok (t', later)
    → get_chunk chunk.id ≡ some chunk
    → contains chunk.id ≡ true
    → get_by_id get_chunk contains r.id t' now ≡ ok ((some r, t'), now)
unfolding get_by_id get_by_id_from Inserted
get_by_id-insert get_chunk contains chunk r t t' clock later now sound h holds inside =
    let (e, found, mapped, own) = insert-Inserted chunk r t t' clock later sound h in
    ap (λ c. get_by_id_from get_chunk contains r.id t' c now) {x = chunk_of get_chunk r.id t'}
      {y = some chunk} (chunk_of-found get_chunk r.id chunk.id t' mapped ∙ holds)
    ∙ get_by_id_in-own get_chunk contains r.id chunk t' e r now inside found own

-- No chunk of the list has the item at the time.
abbrev pub IsAbsent : ℕ → ℕ → List Chunk → Type 0
IsAbsent id begin_time [] = Unit {0}
IsAbsent id begin_time (chunk ∷ chunks) =
    (IdSet.contains id (available_ids_impl begin_time chunk.container.data_) ≡ false)
    × IsAbsent id begin_time chunks

add_items-absent :
    (chunk_id id : ℕ) (ids : List ℕ) (m m' : Map ℕ)
    → IdSet.contains id ids ≡ false
    → has id m ≡ false
    → add_items chunk_id ids m ≡ ok m'
    → has id m' ≡ false
unfolding add_items IdSet.contains
add_items-absent chunk_id id [] m m' absent new h = let same : m ≡ m' = cc in rw (sym same) new
add_items-absent chunk_id id (j ∷ ids) m m' absent new h =
    add_items-absent chunk_id id ids (emplace j chunk_id m) m' (ground arith)
      (ground (arith, has-emplace j id chunk_id m)) (Checked.>>-eq-ok (check (not (has j m))) _ h)

refresh-absent :
    (begin_time id : ℕ) (chunks : List Chunk) (m m' : Map ℕ)
    → IsAbsent id begin_time chunks
    → has id m ≡ false
    → refresh begin_time chunks m ≡ ok m'
    → has id m' ≡ false
unfolding refresh
refresh-absent begin_time id [] m m' absent new h = let same : m ≡ m' = cc in rw (sym same) new
refresh-absent begin_time id (chunk ∷ chunks) m m' absent new h =
    let (m1, h1, h2) =
      >>=-eq-ok (add_items chunk.id (available_ids_impl begin_time chunk.container.data_) m) _ h in
    refresh-absent begin_time id chunks m1 m' absent.1
      (add_items-absent chunk.id id (available_ids_impl begin_time chunk.container.data_) m m1
        absent.0 new h1)
      h2

-- A refresh of the map from items to chunks forgets the items that the transaction inserted: if no
-- chunk had the item at the begin time, then it is not found by its id after the refresh, whatever
-- the transaction did before, and an update of it aborts.
pub refresh-forgotten :
    (get_chunk : ℕ → Option Chunk) (contains : ℕ → Bool) (chunks : List Chunk) (r : Revision)
    (t t' : NetTableTransaction) (now : ℕ)
    → IsAbsent r.id t.begin_time chunks
    → refresh_id_to_chunk_id_map chunks t ≡ ok t'
    → (get_by_id get_chunk contains r.id t' now ≡ ok ((none, t'), now))
      × (update get_chunk r t' now ≡ fatal)
unfolding refresh_id_to_chunk_id_map get_by_id get_by_id_from update
refresh-forgotten get_chunk contains chunks r t t' now absent h =
    let (m, h1, h2) =
      >>=-eq-ok (refresh t.begin_time chunks []) _
        (Checked.>>-eq-ok (check (not t.finalized)) _ h) in
    let gone = refresh-absent t.begin_time r.id chunks [] m absent (unfold has in refl) h1 in
    let same : record t { item_id_to_chunk_id_map = m } ≡ t' = cc in
    let unmapped : find r.id t'.item_id_to_chunk_id_map ≡ none =
      ap (λ u. find r.id u.item_id_to_chunk_id_map) (sym same) ∙ find-none r.id m gone in
    let lost : chunk_of get_chunk r.id t' ≡ none =
      unfold chunk_of in (unfold chunk_at in ap (chunk_at get_chunk) unmapped) in
    (
      ap (λ c. get_by_id_from get_chunk contains r.id t' c now) {x = chunk_of get_chunk r.id t'}
          {y = none} lost,
      assert-fatal (not t'.finalized) _ now
          λ c1. assert-fatal (is_valid_id r.id) _ c1 λ c2. rw lost refl,
    )
