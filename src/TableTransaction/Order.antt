-- ===== src/TableTransaction/Order.antt =====
-- The order in which a table transaction keeps its chunk transactions, which is the order in which
-- `lock` locks their chunks.
use map_api.Prelude.{
  ℕ, ◌<◌, ◌≡◌, inl, inr, Bool, true, false, some, List, [], ◌∷◌, ltb, ◌==◌, if◌then◌else◌,
  Bool-cases, arith,
}
use mathlib.Core.Path.{subst}
use map_api.Transaction.{Transaction}
use map_api.TableTransaction.{Entry}
use map_api.TableTransaction.Items.{find_entry, insert_entry, set_transaction}

-- The ids of the chunks are all larger.
abbrev pub AllAbove : ℕ → List Entry → Type 0
AllAbove k [] = Unit {0}
AllAbove k (e ∷ entries) = (k < e.chunk.id) × AllAbove k entries

abbrev pub IsOrdered : List Entry → Type 0
IsOrdered [] = Unit {0}
IsOrdered (e ∷ entries) = AllAbove e.chunk.id entries × IsOrdered entries

AllAbove-trans : (j k : ℕ) (entries : List Entry) → j < k → AllAbove k entries → AllAbove j entries
AllAbove-trans j k [] lt h = tt
AllAbove-trans j k (e ∷ entries) lt h = (omega (arith, lt, h.0), AllAbove-trans j k entries lt h.1)

insert_entry-AllAbove :
    (k : ℕ) (new : Entry) (entries : List Entry)
    → k < new.chunk.id
    → AllAbove k entries
    → AllAbove k (insert_entry new entries)
unfolding insert_entry
insert_entry-AllAbove k new [] lt h = (lt, tt)
insert_entry-AllAbove k new (e ∷ entries) lt h =
    ground (arith, insert_entry-AllAbove k new entries lt h.1)

pub insert_entry-IsOrdered :
    (new : Entry) (entries : List Entry) → IsOrdered entries → IsOrdered (insert_entry new entries)
unfolding insert_entry
insert_entry-IsOrdered new [] h = (tt, tt)
insert_entry-IsOrdered new (e ∷ entries) h = elim (Bool-cases (ltb new.chunk.id e.chunk.id)) [
  | inl lt ↦
      let below : new.chunk.id < e.chunk.id = ground arith in
      let all = AllAbove-trans new.chunk.id e.chunk.id entries below h.0 in rw lt ((below, all), h)
  | inr ge ↦ elim (Bool-cases (e.chunk.id == new.chunk.id)) [
    | inl same ↦ rw ge (rw same h)
    | inr other ↦
        let above : e.chunk.id < new.chunk.id = ground arith in
        rw ge (
          rw other (
            insert_entry-AllAbove e.chunk.id new entries above h.0,
            insert_entry-IsOrdered new entries h.1,
          ))
  ]
]

set_transaction-AllAbove :
    (k id : ℕ) (t : Transaction) (entries : List Entry)
    → AllAbove k entries
    → AllAbove k (set_transaction id t entries)
unfolding set_transaction
set_transaction-AllAbove k id t [] h = tt
set_transaction-AllAbove k id t (e ∷ entries) h =
    ground (arith, set_transaction-AllAbove k id t entries h.1)

pub set_transaction-IsOrdered :
    (id : ℕ) (t : Transaction) (entries : List Entry)
    → IsOrdered entries
    → IsOrdered (set_transaction id t entries)
unfolding set_transaction
set_transaction-IsOrdered id t [] h = tt
set_transaction-IsOrdered id t (e ∷ entries) h = ground (
  arith,
  set_transaction-IsOrdered id t entries h.1,
  set_transaction-AllAbove e.chunk.id id t entries h.0,
)

-- A property of every entry.
abbrev pub All : (Entry → Type 0) → List Entry → Type 0
All P [] = Unit {0}
All P (e ∷ entries) = P e × All P entries

module _ (P : Entry → Type 0) where
  pub insert_entry-All :
      (new : Entry) (entries : List Entry)
      → P new
      → All P entries
      → All P (insert_entry new entries)
  unfolding insert_entry
  insert_entry-All new [] p h = (p, tt)
  insert_entry-All new (e ∷ entries) p h =
      go (ltb new.chunk.id e.chunk.id) (e.chunk.id == new.chunk.id)
        (insert_entry-All new entries p h.1)
    where
      go :
          (lt same : Bool)
          → All P (insert_entry new entries)
          → All P (
              if lt
              then new ∷ e ∷ entries
              else if same
              then e ∷ entries
              else e ∷ insert_entry new entries)
      go true same ih = (p, h)
      go false true ih = h
      go false false ih = (h.0, ih)

  pub find_entry-All :
      (id : ℕ) (e : Entry) (entries : List Entry)
      → All P entries
      → find_entry id entries ≡ some e
      → P e
  unfolding find_entry
  find_entry-All id e [] h found = cc
  find_entry-All id e (first ∷ entries) h found = elim (Bool-cases (first.chunk.id == id)) [
    | inl hit ↦ let same : first ≡ e = ground arith in subst P same h.0
    | inr miss ↦ find_entry-All id e entries h.1 (ground arith)
  ]

  pub set_transaction-All :
      (id : ℕ) (t : Transaction) (entries : List Entry)
      → ((e : Entry) → P (record e { transaction = t }))
      → All P entries
      → All P (set_transaction id t entries)
  unfolding set_transaction
  set_transaction-All id t [] p h = tt
  set_transaction-All id t (e ∷ entries) p h =
      go (e.chunk.id == id) (set_transaction-All id t entries p h.1)
    where
      go :
          (b : Bool)
          → All P (set_transaction id t entries)
          → All P (
              if b
              then record e { transaction = t } ∷ entries
              else e ∷ set_transaction id t entries)
      go true ih = (p e, h.1)
      go false ih = (h.0, ih)
