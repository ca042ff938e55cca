-- ===== src/WholeTransaction/Access.antt =====
-- map-api/src/transaction.cc: the access to a table, which is either by its cache or direct. A
-- thread is a number that stands for its id.
use map_api.Prelude.{
  ℕ, ◌≡◌, ◌∙◌, refl, ap, Bool, true, false, not, Option, none, some, List, [], ◌∷◌, ◌==◌, ◌&&◌,
  if◌then◌else◌, arith,
}
use map_api.Prelude.Checked
use map_api.Prelude.Checked.{Checked, ok, fatal, check}
use map_api.Prelude.Map.{Map, find, assign, emplace, find-assign}
use map_api.Prelude.IdSet.{contains, add}
use map_api.LogicalTime.{Timed, ◌>>=◌, pure, lift, assert}
use map_api.TableTransaction.{Entry}
use map_api.Chunk.{Chunk}
use map_api.TableTransaction.Items.{begin_table_transaction}
use map_api.WholeTransaction.{WholeTransaction, TableAccessMode, cache, direct}

-- `m[table] = mode` of a table that has no mode.
abbrev set_mode : ℕ → TableAccessMode → WholeTransaction → WholeTransaction
set_mode table mode t = record t { access_mode = assign table mode t.access_mode }

cache_only : ℕ → WholeTransaction → Option TableAccessMode → Checked WholeTransaction
cache_only table t none = ok (set_mode table cache t)
cache_only table t (some cache) = ok t
cache_only table t (some direct) = fatal

unfoldable pub ensure_access_is_cache : ℕ → WholeTransaction → Checked WholeTransaction
unfolding cache_only
ensure_access_is_cache table t = cache_only table t (find table t.access_mode)

direct_only : ℕ → ℕ → WholeTransaction → Option TableAccessMode → Checked WholeTransaction
direct_only thread table t none = ok (set_mode table direct t)
direct_only thread table t (some direct) = ok t
direct_only thread table t (some cache) =
    Checked.◌>>◌ (check (contains thread t.cache_access_override)) (ok t)

unfoldable pub ensure_access_is_direct : ℕ → ℕ → WholeTransaction → Checked WholeTransaction
unfolding direct_only
ensure_access_is_direct thread table t = direct_only thread table t (find table t.access_mode)

-- `cache_access_override_.erase`
erase_thread : ℕ → List ℕ → List ℕ
erase_thread thread [] = []
erase_thread thread (k ∷ s) =
    let rest = erase_thread thread s in if k == thread then s else k ∷ rest

unfoldable pub enable_direct_access : ℕ → WholeTransaction → Checked WholeTransaction
enable_direct_access thread t =
    Checked.◌>>◌ (check (not (contains thread t.cache_access_override)))
      (ok (record t { cache_access_override = add thread t.cache_access_override }))

unfoldable pub disable_direct_access : ℕ → WholeTransaction → Checked WholeTransaction
unfolding erase_thread
disable_direct_access thread t =
    Checked.◌>>◌ (check (contains thread t.cache_access_override))
      (ok (record t { cache_access_override = erase_thread thread t.cache_access_override }))

-- The branches of `transactionOf`. The chunks are those of the table that the workspace contains.
unfoldable pub open_table :
    List Chunk → ℕ → WholeTransaction → Option (List Entry) → Timed (List Entry × WholeTransaction)
open_table chunks table t (some entries) = pure (entries, t)
open_table chunks table t none = assert (not t.finalized) >>= λ _.
    begin_table_transaction chunks t.begin_time >>= λ new.
    pure
      (new.chunk_transactions, record t { tables = emplace table new.chunk_transactions t.tables })

-- `transactionOf`: the chunk transactions of the table, whose transaction is made when there is
-- none.
unfoldable pub transaction_of :
    List Chunk → ℕ → ℕ → WholeTransaction → Timed (List Entry × WholeTransaction)
unfolding ensure_access_is_direct open_table
transaction_of chunks thread table t = lift (ensure_access_is_direct thread table t) >>= λ t'.
    open_table chunks table t' (find table t'.tables)

abbrev pub is_by_cache : Option TableAccessMode → Bool
is_by_cache none = false
is_by_cache (some direct) = false
is_by_cache (some cache) = true

-- The two forms of a check.
ok_or_fatal :
    (b : Bool) (t : WholeTransaction) → Checked.◌>>◌ (check b) (ok t) ≡ (if b then ok t else fatal)
ok_or_fatal true t = refl
ok_or_fatal false t = refl

same : (b : Bool) (failed : Checked WholeTransaction) → failed ≡ (if b then failed else failed)
same true failed = refl
same false failed = refl

assigned :
    (table : ℕ) (mode : TableAccessMode) (m : Map TableAccessMode)
    → find table (assign table mode m) ≡ some mode
assigned table mode m = ground (arith, find-assign table table mode m)

cache_then_direct :
    (thread table : ℕ) (t : WholeTransaction) (mode : Option TableAccessMode)
    → find table t.access_mode ≡ mode
    → Checked.◌>>=◌ (cache_only table t mode) (ensure_access_is_direct thread table)
      ≡ (if contains thread t.cache_access_override then cache_only table t mode else fatal)
unfolding cache_only ensure_access_is_direct direct_only
cache_then_direct thread table t none h =
    ap (direct_only thread table (set_mode table cache t)) (assigned table cache t.access_mode)
    ∙ ok_or_fatal (contains thread t.cache_access_override) (set_mode table cache t)
cache_then_direct thread table t (some cache) h =
    ap (direct_only thread table t) h ∙ ok_or_fatal (contains thread t.cache_access_override) t
cache_then_direct thread table t (some direct) h =
    same (contains thread t.cache_access_override) fatal

direct_then_cache :
    (thread table : ℕ) (t : WholeTransaction) (mode : Option TableAccessMode)
    → find table t.access_mode ≡ mode
    → Checked.◌>>=◌ (direct_only thread table t mode) (ensure_access_is_cache table)
      ≡ (if is_by_cache mode && contains thread t.cache_access_override then ok t else fatal)
unfolding ensure_access_is_cache cache_only direct_only
direct_then_cache thread table t none h =
    ap (cache_only table (set_mode table direct t)) (assigned table direct t.access_mode)
direct_then_cache thread table t (some direct) h = ap (cache_only table t) h
direct_then_cache thread table t (some cache) h = again (contains thread t.cache_access_override)
  where
    again :
        (b : Bool)
        → Checked.◌>>=◌ (Checked.◌>>◌ (check b) (ok t)) (ensure_access_is_cache table)
          ≡ (if b then ok t else fatal)
    again true = ap (cache_only table t) h
    again false = refl

-- An access of a table by cache and then directly passes only in a thread for which direct access is
-- enabled, and then does what the access by cache alone does; a direct access and then one by cache
-- passes only if the table was accessed by cache before, in such a thread, and changes nothing.
pub ensure_access_lem :
    (thread table : ℕ) (t : WholeTransaction)
    → (Checked.◌>>=◌ (ensure_access_is_cache table t) (ensure_access_is_direct thread table) ≡ (
        if contains thread t.cache_access_override then ensure_access_is_cache table t else fatal))
      × (Checked.◌>>=◌ (ensure_access_is_direct thread table t) (ensure_access_is_cache table) ≡ (
          if is_by_cache (find table t.access_mode) && contains thread t.cache_access_override
          then ok t
          else fatal))
unfolding ensure_access_is_cache ensure_access_is_direct
ensure_access_lem thread table t = (
  cache_then_direct thread table t (find table t.access_mode) refl,
  direct_then_cache thread table t (find table t.access_mode) refl,
)
