-- ===== src/TableTransaction/Items.antt =====
-- map-api/src/net-table-transaction.cc and net-table-transaction-inl.h: the operations on items of
-- a transaction on one table. The chunks that the table holds and those that the workspace contains
-- are parameters; a chunk stands for the pointer to it, and has its id.
use map_api.Prelude.{
  ℕ, Bool, true, false, not, Option, none, some, List, [], ◌∷◌, ltb, ◌==◌, if◌then◌else◌,
}
use map_api.Prelude.Checked
use map_api.Prelude.Checked.{Checked, ok, check, check_notnull}
use map_api.Prelude.Map.{Map, find, has, emplace}
use map_api.LogicalTime.{Timed, ◌>>=◌, ◌>>◌, pure, lift, assert, sample}
use map_api.Revision.{Revision, is_valid_id}
use map_api.Container.Ram.{available_ids_impl}
use map_api.Chunk.{Chunk}
use map_api.Transaction
use map_api.Transaction.{Transaction, begin_transaction}
use map_api.TableTransaction.{Entry}

pub record NetTableTransaction : Type 0 where
  pub chunk_transactions : List Entry
  pub begin_time : ℕ
  pub finalized : Bool
  pub item_id_to_chunk_id_map : Map ℕ

-- `chunk_transactions_.find`
unfoldable pub find_entry : ℕ → List Entry → Option Entry
find_entry id [] = none
find_entry id (e ∷ entries) = if e.chunk.id == id then some e else find_entry id entries

-- `chunk_transactions_.insert`: the map is ordered by `ChunkOrdering`, and an entry that is there
-- stays.
unfoldable pub insert_entry : Entry → List Entry → List Entry
insert_entry new [] = new ∷ []
insert_entry new (e ∷ entries) =
    let rest = insert_entry new entries in
    if ltb new.chunk.id e.chunk.id
    then new ∷ e ∷ entries
    else if e.chunk.id == new.chunk.id
    then e ∷ entries
    else e ∷ rest

-- What a call on the pointer to the chunk transaction of an entry does to the map.
unfoldable pub set_transaction : ℕ → Transaction → List Entry → List Entry
set_transaction id t [] = []
set_transaction id t (e ∷ entries) =
    let rest = set_transaction id t entries in
    if e.chunk.id == id then record e { transaction = t } ∷ entries else e ∷ rest

-- The branches of `transactionOf`.
unfoldable pub open_entry :
    Chunk → NetTableTransaction → Option Entry → Timed (Entry × NetTableTransaction)
open_entry chunk t (some e) = pure (e, t)
open_entry chunk t none = assert (not t.finalized) >>= λ _.
    begin_transaction t.begin_time none chunk >>= λ transaction.
    let e : Entry = record { transaction = transaction; chunk = chunk } in
    pure (e, record t { chunk_transactions = insert_entry e t.chunk_transactions })

-- `transactionOf`: the entry of the chunk, which is made when there is none.
unfoldable pub transaction_of : Chunk → NetTableTransaction → Timed (Entry × NetTableTransaction)
unfolding open_entry
transaction_of chunk t = open_entry chunk t (find_entry chunk.id t.chunk_transactions)

-- A change by the chunk transaction of the chunk.
unfoldable pub change_of :
    (Transaction → Checked Transaction) → Chunk → NetTableTransaction → Timed NetTableTransaction
unfolding set_transaction
change_of change chunk t = do
  outcome ← transaction_of chunk t
  changed ← lift (change outcome.0.transaction)
  pure (record outcome.1 {
    chunk_transactions = set_transaction chunk.id changed outcome.1.chunk_transactions;
  })

unfoldable pub insert : Chunk → Revision → NetTableTransaction → Timed NetTableTransaction
unfolding change_of
insert chunk revision t = do
  assert (not t.finalized)
  t' ← change_of (Transaction.insert revision) chunk t
  assert (not (has revision.id t'.item_id_to_chunk_id_map))
  pure (record t' {
    item_id_to_chunk_id_map = emplace revision.id chunk.id t'.item_id_to_chunk_id_map;
  })

module _ (get_chunk : ℕ → Option Chunk) where
  unfoldable pub chunk_at : Option ℕ → Option Chunk
  chunk_at none = none
  chunk_at (some chunk_id) = get_chunk chunk_id

  -- `chunkOf`, where `get_chunk` is that of the table.
  unfoldable pub chunk_of : ℕ → NetTableTransaction → Option Chunk
  unfolding chunk_at
  chunk_of id t = chunk_at (find id t.item_id_to_chunk_id_map)

  unfoldable pub update : Revision → NetTableTransaction → Timed NetTableTransaction
  unfolding chunk_of change_of
  update revision t = do
    assert (not t.finalized)
    assert (is_valid_id revision.id)
    chunk ← lift (check_notnull (chunk_of revision.id t))
    assert (if is_valid_id revision.chunk_id then chunk.id == revision.chunk_id else true)
    change_of (Transaction.update revision) chunk t

  -- `remove` of a revision.
  unfoldable pub remove : Revision → NetTableTransaction → Timed NetTableTransaction
  unfolding chunk_of change_of
  remove revision t = do
    assert (not t.finalized)
    chunk ← lift (check_notnull (chunk_of revision.id t))
    assert (chunk.id == revision.chunk_id)
    change_of (Transaction.remove revision) chunk t

  module _ (contains : ℕ → Bool) where
    -- `getById(id, chunk)`
    unfoldable pub get_by_id_in :
        ℕ → Chunk → NetTableTransaction → Timed (Option Revision × NetTableTransaction)
    get_by_id_in id chunk t =
        if contains chunk.id
        then (transaction_of chunk t >>= λ (e, t').
            lift (Transaction.get_by_id id e.transaction e.chunk) >>= λ r. pure (r, t'))
        else pure (none, t)

    -- The branches of `getById(id)`.
    unfoldable pub get_by_id_from :
        ℕ → NetTableTransaction → Option Chunk → Timed (Option Revision × NetTableTransaction)
    unfolding get_by_id_in
    get_by_id_from id t none = pure (none, t)
    get_by_id_from id t (some chunk) = get_by_id_in id chunk t

    unfoldable pub get_by_id :
        ℕ → NetTableTransaction → Timed (Option Revision × NetTableTransaction)
    unfolding chunk_of get_by_id_from
    get_by_id id t = get_by_id_from id t (chunk_of id t)

    unfoldable pub dump_chunk :
        Chunk → NetTableTransaction → Timed (Map Revision × NetTableTransaction)
    dump_chunk chunk t =
        if contains chunk.id
        then (transaction_of chunk t >>= λ (e, t').
            Transaction.dump_chunk e.transaction e.chunk >>= λ items. pure (items, t'))
        else pure ([], t)

    unfoldable pub get_mutable_update_entry :
        ℕ → NetTableTransaction → Timed (Revision × NetTableTransaction)
    unfolding chunk_of
    get_mutable_update_entry id t = do
      assert (not t.finalized)
      chunk ← lift (check_notnull (chunk_of id t))
      assert (contains chunk.id)
      outcome ← transaction_of chunk t
      changed ← lift (Transaction.get_mutable_update_entry id outcome.0.transaction outcome.0.chunk)
      pure (
        changed.0,
        record outcome.1 {
          chunk_transactions = set_transaction chunk.id changed.1 outcome.1.chunk_transactions;
        },
      )

-- `getAvailableIds`
unfoldable pub get_available : Map ℕ → List ℕ
get_available [] = []
get_available ((id, chunk_id) ∷ m) = id ∷ get_available m

-- The items of one chunk, each of which aborts when its id is there already.
unfoldable pub add_items : ℕ → List ℕ → Map ℕ → Checked (Map ℕ)
add_items chunk_id [] m = ok m
add_items chunk_id (id ∷ ids) m =
    Checked.◌>>◌ (check (not (has id m))) (add_items chunk_id ids (emplace id chunk_id m))

-- The loop over the chunks of the table that the workspace contains.
unfoldable pub refresh : ℕ → List Chunk → Map ℕ → Checked (Map ℕ)
unfolding add_items
refresh begin_time [] m = ok m
refresh begin_time (chunk ∷ chunks) m =
    Checked.◌>>=◌ (add_items chunk.id (available_ids_impl begin_time chunk.container.data_) m)
      (refresh begin_time chunks)

-- `refreshIdToChunkIdMap`
unfoldable pub refresh_id_to_chunk_id_map :
    List Chunk → NetTableTransaction → Checked NetTableTransaction
unfolding refresh
refresh_id_to_chunk_id_map chunks t = Checked.◌>>◌ (check (not t.finalized)) (
    Checked.◌>>=◌ (refresh t.begin_time chunks [])
      λ m. ok (record t { item_id_to_chunk_id_map = m }))

-- The constructor, without commit futures, from the chunks of the table that the workspace contains.
unfoldable pub begin_table_transaction : List Chunk → ℕ → Timed NetTableTransaction
unfolding refresh_id_to_chunk_id_map
begin_table_transaction chunks begin_time = do
  now ← sample
  assert (ltb begin_time now)
  lift (
      refresh_id_to_chunk_id_map chunks (record {
        chunk_transactions = [];
        begin_time = begin_time;
        finalized = false;
        item_id_to_chunk_id_map = [];
      }))
