-- ===== src/Trackees/Merge.antt =====
-- What `merge` does to the tracked chunks, and when it reports a change.
use map_api.Prelude.{
  ℕ, suc, ◌+◌, ◌≤◌, ◌<◌, ◌≡◌, refl, ap, ◌↔◌, ◌≢◌, inl, inr, Bool, true, false, Option, none, some,
  List, [], ◌∷◌, ◌++◌, ◌==◌, ◌||◌, if◌then◌else◌, Bool-cases, arith,
}
use map_api.Prelude.Map.{
  Unique-assign, Unique-emplace, Unique, find, has, assign, emplace, find-assign, find-emplace,
  find-none, find-none-has,
}
use map_api.Prelude.IdSet.{size, contains, add, contains-add, size-add}
use map_api.Trackees.{Trackees, emplace_all, merge_found, merge_table, merge, tracks}

contains-emplace_all :
    (trackees found : List ℕ) (k : ℕ)
    → contains k (emplace_all trackees found).0
      ≡ (if contains k found then true else contains k trackees)
unfolding emplace_all contains
contains-emplace_all [] found k = ground arith
contains-emplace_all (t ∷ trackees) found k =
    ground (arith, contains-emplace_all trackees (add t found) k, contains-add t k found)

find_eq : (j k : ℕ) (m : Trackees) → j ≡ k → find j m ≡ find k m
find_eq j k m e = ap (λ i. find i m) e

has_eq : (j k : ℕ) (m : Trackees) → j ≡ k → has j m ≡ has k m
has_eq j k m e = ap (λ i. has i m) e

tracks-merge_found :
    (t table k : ℕ) (ids : List ℕ) (o : Option (List ℕ)) (m : Trackees)
    → find t m ≡ o
    → tracks table k (merge_found t ids o m).0
      ≡ (if tracks table k m then true else if t == table then contains k ids else false)
unfolding merge_found tracks contains
tracks-merge_found t table k ids none m e = ground (
  arith,
  find-emplace t table ids m,
  find_eq t table m,
  find-none table m,
  find-none-has t m e,
  has_eq t table m,
)
tracks-merge_found t table k ids (some found) m e = ground (
  arith,
  find_eq t table m,
  find-assign t table (emplace_all ids found).0 m,
  contains-emplace_all ids found k,
)

tracks-cons :
    (t table k : ℕ) (ids : List ℕ) (m : Trackees)
    → Unique ((t, ids) ∷ m)
    → tracks table k ((t, ids) ∷ m) ≡ (if t == table then contains k ids else tracks table k m)
unfolding tracks find
tracks-cons t table k ids m u = ground arith

untracked : (table k : ℕ) (m : Trackees) → has table m ≡ false → tracks table k m ≡ false
unfolding tracks contains
untracked table k m h = ground (arith, find-none table m)

-- The merged map tracks exactly what one of the two maps tracked.
pub tracks-merge :
    (m other : Trackees) (table k : ℕ)
    → Unique other
    → tracks table k (merge m other).0 ≡ (tracks table k m || tracks table k other)
unfolding merge merge_table
tracks-merge m [] table k u = unfold tracks find contains in ground arith
tracks-merge m ((t, ids) ∷ other) table k u = ground (
  arith,
  tracks-merge (merge_found t ids (find t m) m).0 other table k u.1,
  tracks-merge_found t table k ids (find t m) m refl,
  tracks-cons t table k ids other u,
  untracked table k other,
  has_eq t table other,
)

-- The number of tables and of their chunks.
weight : Trackees → ℕ
weight [] = 0
weight ((t, ids) ∷ m) = suc (size ids) + weight m

weight-snoc :
    (t : ℕ) (ids : List ℕ) (m : Trackees) → weight (m ++ (t, ids) ∷ []) ≡ weight m + suc (size ids)
unfolding weight
weight-snoc t ids [] = omega arith
weight-snoc t ids ((j, js) ∷ m) = omega (arith, weight-snoc t ids m)

weight-emplace :
    (t : ℕ) (ids : List ℕ) (m : Trackees) → has t m ≡ false → weight m < weight (emplace t ids m)
unfolding emplace
weight-emplace t ids m h = ground (arith, weight-snoc t ids m)

weight-assign :
    (t : ℕ) (ids found : List ℕ) (m : Trackees)
    → find t m ≡ some found
    → weight (assign t ids m) + size found ≡ weight m + size ids
unfolding weight assign find
weight-assign t ids found [] h = cc
weight-assign t ids found ((j, js) ∷ m) h = ground (arith, weight-assign t ids found m)

assign_same : (t : ℕ) (found : List ℕ) (m : Trackees) → find t m ≡ some found → assign t found m ≡ m
unfolding assign find
assign_same t found [] h = cc
assign_same t found ((j, js) ∷ m) h = ground (arith, assign_same t found m)

-- The flag of a step tells whether the step changed the map.
abbrev Reports : Trackees → Trackees × Bool → Type 0
Reports m (m', change) =
    (weight m ≤ weight m') × (change ≡ true → weight m < weight m') × (change ≡ false → m' ≡ m)

emplace_all-grows :
    (trackees found : List ℕ)
    → (size found ≤ size (emplace_all trackees found).0)
      × ((emplace_all trackees found).1 ≡ true → size found < size (emplace_all trackees found).0)
      × ((emplace_all trackees found).1 ≡ false → (emplace_all trackees found).0 ≡ found)
unfolding emplace_all
emplace_all-grows [] found = (omega arith, λ e. cc, λ e. refl)
emplace_all-grows (t ∷ trackees) found =
    let (grows, strict, same) = emplace_all-grows trackees (add t found) in
    let s = size-add t found in
    (ground arith, λ e. ground arith, λ e. ground (arith, add_same t found))
  where
    add_same : (k : ℕ) (s : List ℕ) → contains k s ≡ true → add k s ≡ s
    add_same k s h = unfold add in ground arith

merge_found-Reports :
    (t : ℕ) (ids : List ℕ) (o : Option (List ℕ)) (m : Trackees)
    → find t m ≡ o
    → Reports m (merge_found t ids o m)
unfolding merge_found
merge_found-Reports t ids none m e =
    let w = weight-emplace t ids m (find-none-has t m e) in (omega arith, λ _. w, λ f. cc)
merge_found-Reports t ids (some found) m e =
    let (grows, strict, same) = emplace_all-grows ids found in
    let w = weight-assign t (emplace_all ids found).0 found m e in
    (
      omega arith,
      λ c. ground (arith, strict c),
      λ c. ground (arith, same c, assign_same t found m e),
    )

merge-Reports : (m other : Trackees) → Reports m (merge m other)
unfolding merge merge_table
merge-Reports m [] = (omega arith, λ e. cc, λ e. refl)
merge-Reports m ((t, ids) ∷ other) =
    let (g1, s1, e1) = merge_found-Reports t ids (find t m) m refl in
    let (g2, s2, e2) = merge-Reports (merge_found t ids (find t m) m).0 other in
    (omega arith, λ c. ground arith, λ c. ground arith)

pub merge-same : (m other : Trackees) → (merge m other).1 ≡ false → (merge m other).0 ≡ m
merge-same m other = (merge-Reports m other).2

pub tracks-nil : (table k : ℕ) → tracks table k [] ≡ false
unfolding tracks find contains
tracks-nil table k = refl

-- `merge` reports a change exactly when the map is another than before.
pub merge-changed : (m other : Trackees) → ((merge m other).1 ≡ true) ↔ ((merge m other).0 ≢ m)
merge-changed m other =
    let (grows, strict, same) = merge-Reports m other in
    (
      λ c e. lt_irrefl (strict c) e,
      λ n. elim (Bool-cases (merge m other).1) [ inl c ↦ c | inr c ↦ absurd (n (same c)) ],
    )
  where
    lt_irrefl : {a b : Trackees} → weight a < weight b → b ≡ a → ⊥
    lt_irrefl h e = omega (arith, ap weight e)

Unique-merge_found :
    (t : ℕ) (ids : List ℕ) (o : Option (List ℕ)) (m : Trackees)
    → Unique m
    → Unique (merge_found t ids o m).0
unfolding merge_found
Unique-merge_found t ids none m u = Unique-emplace t ids m u
Unique-merge_found t ids (some found) m u = Unique-assign t (emplace_all ids found).0 m u

pub Unique-merge : (m other : Trackees) → Unique m → Unique (merge m other).0
unfolding merge merge_table
Unique-merge m [] u = u
Unique-merge m ((t, ids) ∷ other) u =
    Unique-merge (merge_found t ids (find t m) m).0 other (Unique-merge_found t ids (find t m) m u)
