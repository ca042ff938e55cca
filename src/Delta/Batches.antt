-- ===== src/Delta/Batches.antt =====
-- The revisions of a commit: those of the three maps of a delta, as they are stored.
use map_api.Prelude.{
  ℕ, ◌≡◌, ◌∙◌, refl, ap, sym, inl, inr, true, false, Option, none, some, List, [], ◌∷◌, ◌++◌, ◌==◌,
  Bool-cases, arith, ==_refl,
}
use map_api.Prelude.Map.{Map, Unique, find, has, find-none}
use map_api.Revision.{Revision}
use map_api.Container.Ram.{HistoryMap}
use map_api.Container.Bulk.{at_id, Batch, Older, write_all, Older-with_revision}
use map_api.Container.Writes.{with_revision}
use map_api.Chunk.Writes.{stamps}

-- The first revision, if there is one, or else the second.
abbrev pub either : Option Revision → Option Revision → Option Revision
either none o = o
either (some r) o = some r

pub at_id-append :
    (j : ℕ) (xs ys : List Revision) → at_id j (xs ++ ys) ≡ either (at_id j xs) (at_id j ys)
at_id-append j [] ys = refl
at_id-append j (x ∷ xs) ys = ground (arith, at_id-append j xs ys)

-- No item is in both lists.
abbrev pub Apart : List Revision → List Revision → Type 0
Apart xs ys = (j : ℕ) (r : Revision) → at_id j xs ≡ some r → at_id j ys ≡ none

Apart-tail : (x : Revision) (xs ys : List Revision) → Apart (x ∷ xs) ys → Apart xs ys
Apart-tail x xs ys apart j r e = elim (Bool-cases (x.id == j)) [
  | inl h ↦ apart j x (rw h refl)
  | inr h ↦ apart j r (rw h e)
]

-- Two batches of different items are one batch.
pub Batch-append :
    (T : ℕ) (xs ys : List Revision) → Batch T xs → Batch T ys → Apart xs ys → Batch T (xs ++ ys)
Batch-append T [] ys a b apart = b
Batch-append T (x ∷ xs) ys a b apart = (
  a.0,
  at_id-append x.id xs ys ∙ (rw a.1 (apart x.id x (rw (==_refl x.id) refl))),
  Batch-append T xs ys a.2 b (Apart-tail x xs ys apart),
)

-- A list stays older than its items while revisions of other items are written.
pub Older-write_all :
    (xs ys : List Revision) (data_ : HistoryMap)
    → Apart xs ys
    → Older ys data_
    → Older ys (write_all xs data_)
unfolding write_all
Older-write_all [] ys data_ apart older = older
Older-write_all (x ∷ xs) ys data_ apart older =
    Older-write_all xs ys (with_revision x data_) (Apart-tail x xs ys apart)
      (Older-with_revision x ys data_ (apart x.id x (rw (==_refl x.id) refl)) older)

pub Older-append :
    (xs ys : List Revision) (data_ : HistoryMap)
    → Older xs data_
    → Older ys data_
    → Older (xs ++ ys) data_
Older-append [] ys data_ a b = b
Older-append (x ∷ xs) ys data_ a b = (a.0, Older-append xs ys data_ a.1 b)

-- The entries of a map stand under the ids of their revisions.
abbrev pub OwnKeys : Map Revision → Type 0
OwnKeys [] = Unit {0}
OwnKeys ((id, r) ∷ m) = (r.id ≡ id) × OwnKeys m

module _ (T : ℕ) (f : Revision → Revision) (own : (r : Revision) → (f r).id ≡ r.id)
    (at : (r : Revision) → (f r).update_time ≡ T) where
  abbrev pub stored : Option Revision → Option Revision
  stored none = none
  stored (some r) = some (f r)

  pub at_id-stamps :
      (j : ℕ) (m : Map Revision) → OwnKeys m → at_id j (stamps f m) ≡ stored (find j m)
  unfolding find
  at_id-stamps j [] k = refl
  at_id-stamps j ((id, r) ∷ m) k = ground (arith, own r, k.0, at_id-stamps j m k.1)

  pub Batch-stamps : (m : Map Revision) → OwnKeys m → Unique m → Batch T (stamps f m)
  Batch-stamps [] k u = tt
  Batch-stamps ((id, r) ∷ m) k u = (
    at r,
    at_id-stamps (f r).id m k.1 ∙ ap stored (ap (λ i. find i m) (own r ∙ k.0) ∙ find-none id m u.0),
    Batch-stamps m k.1 u.1,
  )

  pub at_id-stamps-none :
      (j : ℕ) (m : Map Revision) → OwnKeys m → has j m ≡ false → at_id j (stamps f m) ≡ none
  at_id-stamps-none j m k n = at_id-stamps j m k ∙ ap stored (find-none j m n)

  pub at_id-stamps-some :
      (j : ℕ) (r : Revision) (m : Map Revision)
      → OwnKeys m
      → at_id j (stamps f m) ≡ some r
      → has j m ≡ true
  at_id-stamps-some j r m k e = elim (Bool-cases (has j m)) [
    | inl h ↦ h
    | inr n ↦ let absurd : none ≡ some r = sym (at_id-stamps-none j m k n) ∙ e in cc
  ]
