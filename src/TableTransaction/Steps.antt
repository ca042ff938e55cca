-- ===== src/TableTransaction/Steps.antt =====
-- The operations of a transaction on one table as steps, from its constructor on. What the table's
-- `getChunk` returns, and which chunks the workspace contains, may be another at every step.
use map_api.Prelude.{ℕ, ◌≡◌, Bool, Option, List}
use map_api.Prelude.Checked.{ok}
use map_api.Prelude.Map.{Map}
use map_api.Revision.{Revision}
use map_api.Chunk.{Chunk}
use map_api.TableTransaction.Items.{
  NetTableTransaction, begin_table_transaction, insert, update, remove, get_by_id, dump_chunk,
  get_mutable_update_entry, refresh_id_to_chunk_id_map,
}
use map_api.TableTransaction.Reachable.{IsConsistent}
use map_api.TableTransaction.Keeps.{
  begin-IsConsistent, insert-IsConsistent, update-IsConsistent, remove-IsConsistent,
  dump_chunk-IsConsistent, get_by_id-IsConsistent, get_mutable-IsConsistent, refresh-IsConsistent,
}

-- An operation that returns.
pub data Step : NetTableTransaction → NetTableTransaction → Type 0 where
  inserting_item :
      (chunk : Chunk) (r : Revision) (t t' : NetTableTransaction) (clock later : ℕ)
      → insert chunk r t clock ≡ ok (t', later)
      → Step t t'
  updating_item :
      (get_chunk : ℕ → Option Chunk) (r : Revision) (t t' : NetTableTransaction) (clock later : ℕ)
      → update get_chunk r t clock ≡ ok (t', later)
      → Step t t'
  removing_item :
      (get_chunk : ℕ → Option Chunk) (r : Revision) (t t' : NetTableTransaction) (clock later : ℕ)
      → remove get_chunk r t clock ≡ ok (t', later)
      → Step t t'
  getting :
      (get_chunk : ℕ → Option Chunk) (contains : ℕ → Bool) (id : ℕ) (t t' : NetTableTransaction)
      (r : Option Revision) (clock later : ℕ)
      → get_by_id get_chunk contains id t clock ≡ ok ((r, t'), later)
      → Step t t'
  dumping :
      (get_chunk : ℕ → Option Chunk) (contains : ℕ → Bool) (chunk : Chunk)
      (t t' : NetTableTransaction) (items : Map Revision) (clock later : ℕ)
      → dump_chunk get_chunk contains chunk t clock ≡ ok ((items, t'), later)
      → Step t t'
  getting_mutable :
      (get_chunk : ℕ → Option Chunk) (contains : ℕ → Bool) (id : ℕ) (t t' : NetTableTransaction)
      (r : Revision) (clock later : ℕ)
      → get_mutable_update_entry get_chunk contains id t clock ≡ ok ((r, t'), later)
      → Step t t'
  refreshing :
      (chunks : List Chunk) (t t' : NetTableTransaction)
      → refresh_id_to_chunk_id_map chunks t ≡ ok t'
      → Step t t'

pub data Reach : NetTableTransaction → Type 0 where
  begun :
      (chunks : List Chunk) (begin_time clock later : ℕ) (t : NetTableTransaction)
      → begin_table_transaction chunks begin_time clock ≡ ok (t, later)
      → Reach t
  then_step : (t t' : NetTableTransaction) → Reach t → Step t t' → Reach t'

Step-IsConsistent : (t t' : NetTableTransaction) → Step t t' → IsConsistent t → IsConsistent t'
Step-IsConsistent t t' (inserting_item chunk r _ _ clock later h) sound =
    insert-IsConsistent chunk r t t' clock later sound h
Step-IsConsistent t t' (updating_item get_chunk r _ _ clock later h) sound =
    update-IsConsistent get_chunk r t t' clock later sound h
Step-IsConsistent t t' (removing_item get_chunk r _ _ clock later h) sound =
    remove-IsConsistent get_chunk r t t' clock later sound h
Step-IsConsistent t t' (getting get_chunk contains id _ _ r clock later h) sound =
    get_by_id-IsConsistent get_chunk contains id t t' r clock later sound h
Step-IsConsistent t t' (dumping get_chunk contains chunk _ _ items clock later h) sound =
    dump_chunk-IsConsistent get_chunk contains chunk t t' items clock later sound h
Step-IsConsistent t t' (getting_mutable get_chunk contains id _ _ r clock later h) sound =
    get_mutable-IsConsistent get_chunk contains id t t' r clock later sound h
Step-IsConsistent t t' (refreshing chunks _ _ h) sound = refresh-IsConsistent chunks t t' sound h

-- In every state that the operations reach from the constructor, the chunk transactions stand in
-- ascending order of the ids of their chunks, each once; each of them began at the begin time of
-- the whole; and each keeps an id in one of the maps of its changes only.
pub Reach-IsConsistent : (t : NetTableTransaction) → Reach t → IsConsistent t
Reach-IsConsistent t (begun chunks begin_time clock later _ h) =
    begin-IsConsistent chunks begin_time clock later t h
Reach-IsConsistent t' (then_step t _ reached step) =
    Step-IsConsistent t t' step (Reach-IsConsistent t reached)
