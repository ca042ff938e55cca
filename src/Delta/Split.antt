-- ===== src/Delta/Split.antt =====
-- One loop of the manual merge: the changes of a map without conflicts, and the conflicts.
use map_api.Prelude.{
  ℕ, ◌+◌, ◌≡◌, ◌∙◌, refl, ap, sym, ◌⊎◌, inl, inr, true, false, none, some, List, [], ◌∷◌, ◌++◌,
  ◌==◌, ==_iff, if◌then◌else◌, Bool-cases, arith,
}
use map_api.Prelude.Checked.{ok}
use map_api.Prelude.Map.{Map, Unique, find, has, find-none, find-some-has}
use map_api.Prelude.IdSet.{size}
use map_api.Revision.{Revision, is_valid_id}
use map_api.View.{ViewBase}
use map_api.View.Shows.{Items, Shows}
use map_api.Delta.Keyed.{IsKeyed}
use map_api.Delta.Traverse.{Conflict, split_round, split}

-- Every entry stands under the valid id of its revision.
abbrev Entries : Map Revision → Type 0
Entries [] = Unit {0}
Entries ((id, r) ∷ m) = (r.id ≡ id) × (is_valid_id id ≡ true) × Entries m

Entries-of :
    (m : Map Revision)
    → Unique m
    → ((id : ℕ) (r : Revision) → find id m ≡ some r → (r.id ≡ id) × (is_valid_id id ≡ true))
    → Entries m
unfolding find
Entries-of [] u key = tt
Entries-of ((id, r) ∷ m) u key =
    let (e, v) = key id r (ground arith) in
    (e, v, Entries-of m u.1 λ j q f. key j q (ground (arith, find-none j m, has_eq id j m, u.0)))
  where
    has_eq : (a b : ℕ) (m : Map Revision) → a ≡ b → has a m ≡ has b m
    has_eq a b m e = ap (λ i. has i m) e

pub Entries-IsKeyed : (m : Map Revision) → IsKeyed m → Entries m
Entries-IsKeyed m k = Entries-of m k.unique k.key

-- The conflict is about a change, of an item of the potential conflicts, and gives the item's current
-- revision.
abbrev pub IsConflict : Map ℕ → Items → (Revision → Type 0) → Conflict → Type 0
IsConflict potential current IsOurs c =
    IsOurs c.ours × (has c.ours.id potential ≡ true) × (c.theirs ≡ current c.ours.id)

abbrev pub AllConflicts : Map ℕ → Items → (Revision → Type 0) → List Conflict → Type 0
AllConflicts potential current IsOurs [] = Unit {0}
AllConflicts potential current IsOurs (c ∷ conflicts) =
    IsConflict potential current IsOurs c × AllConflicts potential current IsOurs conflicts

abbrev pub IsIn : Conflict → List Conflict → Type 0
IsIn c [] = ⊥
IsIn c (x ∷ xs) = (x ≡ c) ⊎ IsIn c xs

-- Each of the changes that is of an item of the potential conflicts is in a conflict with the item's
-- current revision.
abbrev pub HasConflicts : Map ℕ → Items → (Revision → Type 0) → List Conflict → Type 0
HasConflicts potential current IsOurs conflicts =
    (r : Revision)
    → IsOurs r
    → has r.id potential ≡ true
    → IsIn (record { theirs = current r.id; ours = r }) conflicts

pub IsIn-left : (c : Conflict) (xs ys : List Conflict) → IsIn c xs → IsIn c (xs ++ ys)
IsIn-left c [] ys h = absurd h
IsIn-left c (x ∷ xs) ys (inl e) = inl e
IsIn-left c (x ∷ xs) ys (inr h) = inr (IsIn-left c xs ys h)

pub IsIn-right : (c : Conflict) (xs ys : List Conflict) → IsIn c ys → IsIn c (xs ++ ys)
IsIn-right c [] ys h = h
IsIn-right c (x ∷ xs) ys h = inr (IsIn-right c xs ys h)

pub AllConflicts-append :
    (potential : Map ℕ) (current : Items) (IsOurs : Revision → Type 0) (xs ys : List Conflict)
    → AllConflicts potential current IsOurs xs
    → AllConflicts potential current IsOurs ys
    → AllConflicts potential current IsOurs (xs ++ ys)
AllConflicts-append potential current IsOurs [] ys h k = k
AllConflicts-append potential current IsOurs (x ∷ xs) ys h k =
    (h.0, AllConflicts-append potential current IsOurs xs ys h.1 k)

pub AllConflicts-weaken :
    (potential : Map ℕ) (current : Items) (IsOurs IsChange : Revision → Type 0) (xs : List Conflict)
    → ((r : Revision) → IsOurs r → IsChange r)
    → AllConflicts potential current IsOurs xs
    → AllConflicts potential current IsChange xs
AllConflicts-weaken potential current IsOurs IsChange [] f h = tt
AllConflicts-weaken potential current IsOurs IsChange (x ∷ xs) f h =
    ((f x.ours h.0.0, h.0.1, h.0.2), AllConflicts-weaken potential current IsOurs IsChange xs f h.1)

-- The map has the revision, under its id.
abbrev pub IsEntry : Map Revision → Revision → Type 0
IsEntry m r = find r.id m ≡ some r

pub size-append : (xs ys : List Conflict) → size (xs ++ ys) ≡ size xs + size ys
size-append [] ys = omega arith
size-append (x ∷ xs) ys = omega (arith, size-append xs ys)

-- What `split` returns for a map.
abbrev Splits : Map ℕ → Items → Map Revision → Map Revision → List Conflict → Type 0
Splits potential current m conflict_free conflicts =
    ((id : ℕ) → find id conflict_free ≡ (if has id potential then none else find id m))
    × (size conflict_free + size conflicts ≡ size m)
    × ((id : ℕ) → has id m ≡ false → has id conflict_free ≡ false)
    × Unique conflict_free
    × AllConflicts potential current (IsEntry m) conflicts
    × HasConflicts potential current (IsEntry m) conflicts

-- An entry of a map that is extended by an entry: that one, or one of the map.
IsEntry-cases :
    (id : ℕ) (r q : Revision) (m : Map Revision)
    → IsEntry ((id, r) ∷ m) q
    → ((id ≡ q.id) × (r ≡ q)) ⊎ ((id == q.id ≡ false) × IsEntry m q)
unfolding find
IsEntry-cases id r q m e = elim (Bool-cases (id == q.id)) [
  | inl hit ↦ inl ((==_iff id q.id).0 hit, ground arith)
  | inr miss ↦ inr (miss, ground arith)
]

later-IsEntry :
    (id : ℕ) (r q : Revision) (m : Map Revision)
    → has id m ≡ false
    → IsEntry m q
    → IsEntry ((id, r) ∷ m) q
unfolding find
later-IsEntry id r q m u e = elim (Bool-cases (id == q.id)) [
  | inl hit ↦
      let there = find-some-has q.id m q e in
      let same : has id m ≡ has q.id m = ap (λ i. has i m) ((==_iff id q.id).0 hit) in cc
  | inr miss ↦ rw miss e
]

first-IsEntry : (id : ℕ) (r : Revision) (m : Map Revision) → r.id ≡ id → IsEntry ((id, r) ∷ m) r
unfolding find
first-IsEntry id r m e = ground arith

pub split_lem :
    (view : ViewBase) (current : Items) (potential : Map ℕ) (m : Map Revision)
    → Shows view current
    → Unique m
    → Entries m
    → (conflict_free : Map Revision) × (conflicts : List Conflict) × (split view potential m
        ≡ ok (conflict_free, conflicts))
      × Splits potential current m conflict_free conflicts
unfolding split split_round find has
split_lem view current potential [] s u entries =
    ([], [], refl, (λ id. ground arith, refl, λ id h. refl, tt, tt, λ r e h. cc))
split_lem view current potential ((id, r) ∷ m) s u entries =
    let (free, conflicts, e, (found, sizes, absent, unique, all, every)) =
      split_lem view current potential m s u.1 entries.2 in
    let all' =
      AllConflicts-weaken potential current (IsEntry m) (IsEntry ((id, r) ∷ m)) conflicts
        (λ q. later-IsEntry id r q m u.0) all in
    elim (Bool-cases (has id potential)) [
      | inl hit ↦ (
        free,
        record { theirs = current id; ours = r } ∷ conflicts,
        ground (arith, e, s.get_eq id entries.1),
        (
          λ j. ground (arith, found j, has_eq id j),
          omega arith,
          λ j h. ground (arith, absent j),
          unique,
          (
            (
              first-IsEntry id r m entries.0,
              ap (λ i. has i potential) entries.0 ∙ hit,
              ap current (sym entries.0),
            ),
            all',
          ),
          λ q f h. elim (IsEntry-cases id r q m f) [
            | inl (same_id, same) ↦ inl (both id q.id r q same_id same)
            | inr (_, g) ↦ inr (every q g h)
          ],
        ),
      )
      | inr miss ↦ (
        (id, r) ∷ free,
        conflicts,
        ground (arith, e),
        (
          λ j. ground (arith, found j, has_eq id j),
          omega arith,
          λ j h. ground (arith, absent j),
          (absent id u.0, unique),
          all',
          λ q f h. elim (IsEntry-cases id r q m f) [
            | inl (same_id, same) ↦ absurd (never q.id same_id miss h)
            | inr (_, g) ↦ every q g h
          ],
        ),
      )
    ]
  where
    has_eq : (a b : ℕ) → a ≡ b → has a potential ≡ has b potential
    has_eq a b e = ap (λ i. has i potential) e

    never : (j : ℕ) → id ≡ j → has id potential ≡ false → has j potential ≡ true → ⊥
    never j e miss hit = let same = has_eq id j e in cc

    both :
        (i j : ℕ) (x y : Revision)
        → i ≡ j
        → x ≡ y
        → ◌≡◌ {A = Conflict}
            (record { theirs = current i; ours = x })
            (record { theirs = current j; ours = y })
    both i j x y e f k = record { theirs = current (e k); ours = f k }
