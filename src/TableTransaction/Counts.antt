-- ===== src/TableTransaction/Counts.antt =====
-- How many changes a merge of table transactions distributes.
use mathlib.Core.Path.{subst}
use map_api.Prelude.{
  ℕ, ◌+◌, ◌*◌, ◌<◌, ◌≡◌, ◌∙◌, refl, sym, ap, inl, inr, true, false, none, List, [], ◌∷◌, ◌++◌, ltb,
  ◌==◌, Bool-cases, arith,
}
use map_api.Prelude.Checked.{ok, >>=-eq-ok}
use map_api.Prelude.IdSet.{size}
use map_api.LogicalTime.{u64, ◌>>=◌}
use map_api.LogicalTime.Steps.{timed-ok}
use map_api.Transaction
use map_api.Transaction.{Transaction, begin_transaction, no_conditions}
use map_api.Transaction.Commit
use map_api.Delta.{num_changes}
use map_api.Delta.Traverse.{Conflict}
use map_api.Delta.Split.{size-append}
use map_api.TableTransaction.{Entry, num_changed_items}
use map_api.TableTransaction.Items.{find_entry, insert_entry}
use map_api.TableTransaction.Merge.{keep_changed, merged_entry, merge_entry, merge_loop, merge}
use map_api.TableTransaction.Order.{AllAbove, IsOrdered, All, insert_entry-IsOrdered}
use map_api.TableTransaction.Reachable.{fresh}
use map_api.TableTransaction.Rounds.{IsMergeable, begin_transaction-ok, merge-ok}

num_changed_items-cons :
    (e : Entry) (entries : List Entry) (a b : ℕ)
    → Transaction.num_changed_items e.transaction ≡ ok a
    → num_changed_items entries ≡ ok b
    → num_changed_items (e ∷ entries) ≡ ok (a + b)
unfolding num_changed_items
num_changed_items-cons e entries a b h k = rw h (rw k refl)

num_changed_items-insert_entry :
    (new : Entry) (entries : List Entry) (a b : ℕ)
    → find_entry new.chunk.id entries ≡ none
    → Transaction.num_changed_items new.transaction ≡ ok a
    → num_changed_items entries ≡ ok b
    → num_changed_items (insert_entry new entries) ≡ ok (a + b)
unfolding insert_entry find_entry num_changed_items
num_changed_items-insert_entry new [] a b absent h k = num_changed_items-cons new [] a b h k
num_changed_items-insert_entry new (e ∷ entries) a b absent h k =
    let (first, h1, k1) = >>=-eq-ok (Transaction.num_changed_items e.transaction) _ k in
    let (rest, h2, k2) = >>=-eq-ok (num_changed_items entries) _ k1 in
    elim (Bool-cases (ltb new.chunk.id e.chunk.id)) [
      | inl lt ↦ rw lt (num_changed_items-cons new (e ∷ entries) a b h k)
      | inr ge ↦ elim (Bool-cases (e.chunk.id == new.chunk.id)) [
        | inl same ↦ ground (arith, same, absent)
        | inr other ↦
            let tail : num_changed_items (insert_entry new entries) ≡ ok (a + rest) =
              num_changed_items-insert_entry new entries a rest (ground (arith, other, absent)) h
                h2 in
            let total : first + rest ≡ b = cc in
            rw ge (
              rw other (
                num_changed_items-cons e (insert_entry new entries) first (a + rest) h1 tail
                ∙ ap ok (omega (arith, total))))
      ]
    ]

find_entry-insert_other :
    (id : ℕ) (new : Entry) (entries : List Entry)
    → (new.chunk.id == id) ≡ false
    → find_entry id entries ≡ none
    → find_entry id (insert_entry new entries) ≡ none
unfolding insert_entry find_entry
find_entry-insert_other id new [] other absent = ground arith
find_entry-insert_other id new (e ∷ entries) other absent =
    ground (arith, find_entry-insert_other id new entries)

-- The merged entries have none of the chunks.
abbrev Fresh : List Entry → List Entry → Type 0
Fresh merged entries = All (λ e. find_entry e.chunk.id merged ≡ none) entries

Fresh-insert_entry :
    (new : Entry) (merged entries : List Entry)
    → AllAbove new.chunk.id entries
    → Fresh merged entries
    → Fresh (insert_entry new merged) entries
Fresh-insert_entry new merged [] above fresh = tt
Fresh-insert_entry new merged (e ∷ entries) above fresh = (
  find_entry-insert_other e.chunk.id new merged (ground (arith, above.0)) fresh.0,
  Fresh-insert_entry new merged entries above.1 fresh.1,
)

keep_changed_lem :
    (a b : ℕ) (e : Entry) (merged : List Entry)
    → find_entry e.chunk.id merged ≡ none
    → Transaction.num_changed_items e.transaction ≡ ok a
    → num_changed_items merged ≡ ok b
    → num_changed_items (keep_changed a e merged) ≡ ok (a + b)
unfolding keep_changed
keep_changed_lem a b e merged absent h k = elim (Bool-cases (ltb 0 a)) [
  | inl some_changed ↦ rw some_changed (num_changed_items-insert_entry e merged a b absent h k)
  | inr unchanged ↦ rw unchanged (k ∙ ap ok (ground arith))
]

keep_changed-IsOrdered :
    (a : ℕ) (e : Entry) (merged : List Entry)
    → IsOrdered merged
    → IsOrdered (keep_changed a e merged)
unfolding keep_changed
keep_changed-IsOrdered a e merged ordered = elim (Bool-cases (ltb 0 a)) [
  | inl some_changed ↦ rw some_changed (insert_entry-IsOrdered e merged ordered)
  | inr unchanged ↦ rw unchanged ordered
]

keep_changed-Fresh :
    (a : ℕ) (e : Entry) (merged entries : List Entry)
    → AllAbove e.chunk.id entries
    → Fresh merged entries
    → Fresh (keep_changed a e merged) entries
unfolding keep_changed
keep_changed-Fresh a e merged entries above fresh = elim (Bool-cases (ltb 0 a)) [
  | inl some_changed ↦ rw some_changed (Fresh-insert_entry e merged entries above fresh)
  | inr unchanged ↦ rw unchanged fresh
]

-- One round that does not abort, in terms of the merged chunk transaction.
abbrev Round : Entry → List Entry × List Conflict → List Entry × List Conflict → Type 0
Round e before after =
    (u : Transaction) × (sub : List Conflict) × (n a : ℕ) × (Transaction.num_changed_items
        e.transaction
      ≡ ok n)
    × (Transaction.num_changed_items u ≡ ok a)
    × (n ≡ a + size sub)
    × (keep_changed a (record e { transaction = u }) before.0 ≡ after.0)
    × (before.1 ++ sub ≡ after.1)

num_changed_items-ok :
    (t : Transaction)
    → no_conditions t.conflict_conditions ≡ true
    → Transaction.num_changed_items t ≡ ok (num_changes t.delta)
unfolding Transaction.num_changed_items
num_changed_items-ok t h = rw h refl

-- The round passes its check of the counts, and draws four times.
merge_entry-ok :
    (begin_time : ℕ) (e : Entry) (before : List Entry × List Conflict) (clock : ℕ)
    → IsMergeable e
    → begin_time < clock
    → clock + 4 < u64
    → (after : List Entry × List Conflict) × (merge_entry begin_time e before clock
        ≡ ok (after, clock + 4))
      × Round e before after
unfolding merge_entry merged_entry
merge_entry-ok begin_time e before clock m begun fits =
    let (free, sub, merged, sum) = merge-ok e begin_time (clock + 1) m (omega (arith, fits)) in
    let u = record (fresh begin_time e.chunk) { delta = free } in
    let counted = num_changed_items-ok e.transaction m.unconditional in
    let changed = num_changed_items-ok u refl in
    let passed : (num_changes e.transaction.delta == num_changes free + size sub) ≡ true =
      ground (arith, sum) in
    let after : List Entry × List Conflict =
      (keep_changed (num_changes free) (record e { transaction = u }) before.0, before.1 ++ sub) in
    let later : clock + 1 + 3 ≡ clock + 4 = omega arith in
    (
      after,
      timed-ok (begin_transaction begin_time none e.chunk)
            (λ t. Commit.merge e.transaction t e.chunk >>= merged_entry e before) clock (clock + 1)
            (fresh begin_time e.chunk)
            (begin_transaction-ok begin_time e.chunk clock begun (omega (arith, fits)))
          ∙ timed-ok (Commit.merge e.transaction (fresh begin_time e.chunk) e.chunk)
              (merged_entry e before) (clock + 1) (clock + 1 + 3) (u, sub) merged
          ∙ rw (counted, changed, passed) (ap (λ c. ok (after, c)) later),
      (
        u,
        sub,
        num_changes e.transaction.delta,
        num_changes free,
        counted,
        changed,
        sum,
        refl,
        refl,
      ),
    )

merge_loop_lem :
    (begin_time : ℕ) (entries merged : List Entry) (conflicts : List Conflict) (before clock : ℕ)
    → All IsMergeable entries
    → begin_time < clock
    → clock + 4 * size entries < u64
    → IsOrdered entries
    → IsOrdered merged
    → Fresh merged entries
    → num_changed_items merged ≡ ok before
    → (merged' : List Entry) × (conflicts' : List Conflict) × (n m : ℕ) × (merge_loop begin_time
          entries
          (merged, conflicts)
          clock
        ≡ ok ((merged', conflicts'), clock + 4 * size entries))
      × (num_changed_items entries ≡ ok n)
      × (num_changed_items merged' ≡ ok m)
      × (n + before + size conflicts ≡ m + size conflicts')
      × IsOrdered merged'
unfolding merge_loop
merge_loop_lem begin_time [] merged conflicts before clock all begun fits o p f k = (
  merged,
  conflicts,
  0,
  before,
  ap (λ c. ok ((merged, conflicts), c)) (omega arith),
  unfold num_changed_items in refl,
  k,
  omega arith,
  p,
)
merge_loop_lem begin_time (e ∷ entries) merged conflicts before clock all begun fits o p f k =
    let (round, done, (u, sub, n, a, counted, changed, sum, kept, joined)) =
      merge_entry-ok begin_time e (merged, conflicts) clock all.0 begun (omega (arith, fits)) in
    let new : Entry = record e { transaction = u } in
    let (merged', conflicts', rest, m, more, k1, k2, total, ordered) =
      merge_loop_lem begin_time entries round.0 round.1 (a + before) (clock + 4) all.1
        (omega (arith, begun)) (omega (arith, fits)) o.1
        (subst IsOrdered kept (keep_changed-IsOrdered a new merged p))
        (subst (λ q. Fresh q entries) kept (keep_changed-Fresh a new merged entries o.0 f.1))
        (ap num_changed_items (sym kept) ∙ keep_changed_lem a before new merged f.0 changed k) in
    let sizes : size round.1 ≡ size conflicts + size sub =
      ap size (sym joined) ∙ size-append conflicts sub in
    (
      merged',
      conflicts',
      n + rest,
      m,
      timed-ok (merge_entry begin_time e (merged, conflicts)) (merge_loop begin_time entries) clock
            (clock + 4) round done
          ∙ more
          ∙ ap (λ c. ok ((merged', conflicts'), c)) (omega arith),
      num_changed_items-cons e entries n rest counted k1,
      k2,
      omega (arith, sum, total, sizes),
      ordered,
    )

-- Merging a table transaction, whose chunk transactions stand in the order of their chunks and can
-- each be merged (`IsMergeable`), into an empty one that began before the clock, which does not
-- wrap around: the merge does not abort, so that its checks of the counts hold in each chunk. It
-- draws four times for each chunk, and accounts for every change once: the changes that were merged
-- and the conflicts are together as many as the changes, as the check that follows in
-- `Transaction::merge` demands; and the merged chunk transactions stand in the order of their
-- chunks, too.
pub merge-counted :
    (begin_time : ℕ) (entries : List Entry) (clock : ℕ)
    → IsOrdered entries
    → All IsMergeable entries
    → begin_time < clock
    → clock + 4 * size entries < u64
    → (merged : List Entry) × (conflicts : List Conflict) × (n m : ℕ) × (merge begin_time [] entries
          clock
        ≡ ok ((merged, conflicts), clock + 4 * size entries))
      × (num_changed_items entries ≡ ok n)
      × (num_changed_items merged ≡ ok m)
      × (n ≡ m + size conflicts)
      × IsOrdered merged
unfolding merge find_entry
merge-counted begin_time entries clock ordered all begun fits =
    let (merged, conflicts, n, m, done, k1, k2, total, out) =
      merge_loop_lem begin_time entries [] [] 0 clock all begun fits ordered tt (all_fresh entries)
        (unfold num_changed_items in refl) in
    (merged, conflicts, n, m, done, k1, k2, omega (arith, total), out)
  where
    all_fresh : (es : List Entry) → Fresh [] es
    all_fresh [] = tt
    all_fresh (e ∷ es) = (refl, all_fresh es)
