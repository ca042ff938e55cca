-- ===== src/WholeTransaction.antt =====
-- map-api/src/transaction.cc: a transaction on several tables. `net_table_transactions_` maps each
-- table to the chunk transactions of its table transaction. The locks are taken before and released
-- after what is modelled here. Caches, and the push of new chunk ids to trackers, which changes
-- updates before the commit, are left out.
pub mod Commit
pub mod Merge
pub mod Access
pub mod Atomicity
use map_api.Prelude.{ℕ, ◌+◌, Bool, true, false, Option, none, some, List, [], ◌∷◌}
use map_api.Prelude.Checked
use map_api.Prelude.Checked.{Checked, ok}
use map_api.Prelude.Map.{Map}
use map_api.TableTransaction
use map_api.TableTransaction.{Entry}

pub data TableAccessMode : Type 0 where
  cache : TableAccessMode
  direct : TableAccessMode

pub record WholeTransaction : Type 0 where
  pub begin_time : ℕ
  pub commit_time : ℕ
  pub tables : Map (List Entry)
  pub access_mode : Map TableAccessMode
  pub cache_access_override : List ℕ
  pub finalized : Bool

unfoldable pub num_changed_items : Map (List Entry) → Checked ℕ
num_changed_items [] = ok 0
num_changed_items ((table, entries) ∷ tables) =
    Checked.◌>>=◌ (TableTransaction.num_changed_items entries)
      λ n. Checked.◌>>=◌ (num_changed_items tables) λ rest. ok (n + rest)

unfoldable pub finalize_tables : Map (List Entry) → Map (List Entry)
finalize_tables [] = []
finalize_tables ((table, entries) ∷ tables) =
    (table, TableTransaction.finalize entries) ∷ finalize_tables tables

unfoldable pub finalize : WholeTransaction → WholeTransaction
finalize t = record t { finalized = true; tables = finalize_tables t.tables }

unfoldable pub detach_tables : Map (List Entry) → Map (List Entry)
detach_tables [] = []
detach_tables ((table, entries) ∷ tables) =
    (table, TableTransaction.detach_futures entries) ∷ detach_tables tables

unfoldable pub detach_futures : WholeTransaction → WholeTransaction
detach_futures t = record t { tables = detach_tables t.tables }
