-- ===== src/Prelude/Map.antt =====
-- std::unordered_map (and std::map) with numbers as keys: an association list. The order of the
-- list is the order in which a loop visits the entries, which the standard leaves open.
use Prim.Native.Nat.{ℕ}
use mathlib.Core.Path.{◌≡◌, ◌∙◌, refl, sym, ap}
use mathlib.Core.Bool.{Bool, true, false}
use mathlib.Core.Option.{Option, none, some}
use mathlib.Core.List.{List, [], ◌∷◌, ◌++◌, append-nil, append_assoc}
use native.Mathlib.Omega.{arith}
use map_api.Prelude.Tests.{◌==◌, if◌then◌else◌}

abbrev pub Map {ℓ} : Type ℓ → Type ℓ
Map V = List (ℕ × V)

module _ {ℓ} {V : Type ℓ} where
  unfoldable pub find : ℕ → Map V → Option V
  find k [] = none
  find k ((j, v) ∷ m) = if j == k then some v else find k m

  -- count(k) != 0
  unfoldable pub has : ℕ → Map V → Bool
  has k [] = false
  has k ((j, v) ∷ m) = if j == k then true else has k m

  -- m[k] = v
  unfoldable pub assign : ℕ → V → Map V → Map V
  assign k v [] = (k, v) ∷ []
  assign k v ((j, w) ∷ m) = if j == k then (k, v) ∷ m else (j, w) ∷ assign k v m

  unfoldable pub erase : ℕ → Map V → Map V
  erase k [] = []
  erase k ((j, v) ∷ m) = let rest = erase k m in if j == k then rest else (j, v) ∷ rest

  -- emplace(k, v): an entry that is there stays.
  unfoldable pub emplace : ℕ → V → Map V → Map V
  emplace k v m = if has k m then m else m ++ (k, v) ∷ []

  -- insert(other.begin(), other.end()): entries that are there stay.
  unfoldable pub insert_range : Map V → Map V → Map V
  insert_range m [] = m
  insert_range m ((k, v) ∷ other) = insert_range (emplace k v m) other

  -- No key stands twice: what std::unordered_map guarantees.
  abbrev pub Unique : Map V → Type 0
  Unique [] = Unit {0}
  Unique ((k, v) ∷ m) = (has k m ≡ false) × Unique m

  pub has-find : (k : ℕ) (m : Map V) → has k m ≡ true → (v : V) × (find k m ≡ some v)
  unfolding has find
  has-find k [] h = cc
  has-find k ((j, v) ∷ m) h = go (j == k) h (has-find k m)
    where
      go :
          (b : Bool)
          → (if b then true else has k m) ≡ true
          → (has k m ≡ true → (v : V) × (find k m ≡ some v))
          → (w : V) × ((if b then some v else find k m) ≡ some w)
      go true h ih = (v, refl)
      go false h ih = ih h

  pub find-none : (k : ℕ) (m : Map V) → has k m ≡ false → find k m ≡ none
  unfolding has find
  find-none k [] h = refl
  find-none k ((j, v) ∷ m) h = ground (arith, find-none k m)

  pub find-some-has : (k : ℕ) (m : Map V) (v : V) → find k m ≡ some v → has k m ≡ true
  unfolding has find
  find-some-has k [] v h = cc
  find-some-has k ((j, w) ∷ m) v h = ground (arith, find-some-has k m v)

  pub find-none-has : (k : ℕ) (m : Map V) → find k m ≡ none → has k m ≡ false
  unfolding has find
  find-none-has k [] h = refl
  find-none-has k ((j, w) ∷ m) h = ground (arith, find-none-has k m)

  pub find-assign :
      (k j : ℕ) (v : V) (m : Map V) → find j (assign k v m) ≡ (if k == j then some v else find j m)
  unfolding find assign
  find-assign k j v [] = refl
  find-assign k j v ((i, w) ∷ m) = ground (arith, find-assign k j v m)

  pub has-assign :
      (k j : ℕ) (v : V) (m : Map V) → has j (assign k v m) ≡ (if k == j then true else has j m)
  unfolding has assign
  has-assign k j v [] = refl
  has-assign k j v ((i, w) ∷ m) = ground (arith, has-assign k j v m)

  pub find-erase : (k j : ℕ) (m : Map V) → find j (erase k m) ≡ (if k == j then none else find j m)
  unfolding find erase
  find-erase k j [] = ground arith
  find-erase k j ((i, w) ∷ m) = ground (arith, find-erase k j m)

  pub has-erase : (k j : ℕ) (m : Map V) → has j (erase k m) ≡ (if k == j then false else has j m)
  unfolding has erase
  has-erase k j [] = ground arith
  has-erase k j ((i, w) ∷ m) = ground (arith, has-erase k j m)

  find-snoc :
      (k j : ℕ) (v : V) (m : Map V)
      → find j (m ++ (k, v) ∷ []) ≡ (if has j m then find j m else if k == j then some v else none)
  unfolding find has
  find-snoc k j v [] = refl
  find-snoc k j v ((i, w) ∷ m) = ground (arith, find-snoc k j v m)

  has-snoc :
      (k j : ℕ) (v : V) (m : Map V) → has j (m ++ (k, v) ∷ []) ≡ (if has j m then true else k == j)
  unfolding has
  has-snoc k j v [] = ground arith
  has-snoc k j v ((i, w) ∷ m) = ground (arith, has-snoc k j v m)

  has_eq : (k j : ℕ) (m : Map V) → k ≡ j → has k m ≡ has j m
  has_eq k j m e = ap (λ i. has i m) e

  pub has-emplace :
      (k j : ℕ) (v : V) (m : Map V) → has j (emplace k v m) ≡ (if has j m then true else k == j)
  unfolding emplace
  has-emplace k j v m = ground (arith, has-snoc k j v m, has_eq k j m)

  pub find-emplace :
      (k j : ℕ) (v : V) (m : Map V)
      → find j (emplace k v m) ≡ (if has j m then find j m else if k == j then some v else none)
  unfolding emplace
  find-emplace k j v m = ground (arith, find-snoc k j v m, has_eq k j m, find-none j m)

  pub has-insert_range :
      (m other : Map V) (j : ℕ)
      → has j (insert_range m other) ≡ (if has j m then true else has j other)
  unfolding insert_range has
  has-insert_range m [] j = ground arith
  has-insert_range m ((k, v) ∷ other) j =
      ground (arith, has-insert_range (emplace k v m) other j, has-emplace k j v m)

  -- The entries that were there first win.
  pub find-insert_range :
      (m other : Map V) (j : ℕ)
      → find j (insert_range m other) ≡ (if has j m then find j m else find j other)
  unfolding insert_range find
  find-insert_range m [] j = ground (arith, find-none j m)
  find-insert_range m ((k, v) ∷ other) j =
      ground (
        arith,
        find-insert_range (emplace k v m) other j,
        has-emplace k j v m,
        find-emplace k j v m,
      )

  has-eq-false_of_snoc :
      (k j : ℕ) (v : V) (m : Map V)
      → has j m ≡ false
      → (k == j) ≡ false
      → has j (m ++ (k, v) ∷ []) ≡ false
  has-eq-false_of_snoc k j v m h d = ground (arith, has-snoc k j v m)

  Unique-snoc : (k : ℕ) (v : V) (m : Map V) → Unique m → has k m ≡ false → Unique (m ++ (k, v) ∷ [])
  unfolding has
  Unique-snoc k v [] u h = (refl, tt)
  Unique-snoc k v ((j, w) ∷ m) u h =
      (has-eq-false_of_snoc k j v m u.0 (ground arith), Unique-snoc k v m u.1 (ground arith))

  pub Unique-emplace : (k : ℕ) (v : V) (m : Map V) → Unique m → Unique (emplace k v m)
  unfolding emplace
  Unique-emplace k v m u = ground (arith, Unique-snoc k v m u)

  pub Unique-assign : (k : ℕ) (v : V) (m : Map V) → Unique m → Unique (assign k v m)
  unfolding assign has
  Unique-assign k v [] u = (refl, tt)
  Unique-assign k v ((j, w) ∷ m) u =
      ground (arith, has-assign k j v m, Unique-assign k v m, has_eq j k m)

  pub Unique-erase : (k : ℕ) (m : Map V) → Unique m → Unique (erase k m)
  unfolding erase has
  Unique-erase k [] u = tt
  Unique-erase k ((j, w) ∷ m) u = ground (arith, has-erase k j m, Unique-erase k m)

  pub Unique-insert_range : (m other : Map V) → Unique m → Unique (insert_range m other)
  unfolding insert_range
  Unique-insert_range m [] u = u
  Unique-insert_range m ((k, v) ∷ other) u =
      Unique-insert_range (emplace k v m) other (Unique-emplace k v m u)

  insert_range-append :
      (m other : Map V)
      → ((j : ℕ) → has j other ≡ true → has j m ≡ false)
      → Unique other
      → insert_range m other ≡ m ++ other
  unfolding insert_range emplace has
  insert_range-append m [] apart u = sym (append-nil m)
  insert_range-append m ((k, v) ∷ other) apart u =
      let fresh : has k m ≡ false = apart k (ground arith) in
      rw fresh (
        insert_range-append (m ++ (k, v) ∷ []) other
          (λ j h. ground (arith, has-snoc k j v m, apart j, has_eq k j other, u.0)) u.1
        ∙ append_assoc m ((k, v) ∷ []) other)

  -- Copying into an empty map.
  pub insert_range-nil : (m : Map V) → Unique m → insert_range [] m ≡ m
  insert_range-nil m u = insert_range-append [] m (λ j h. unfold has in refl) u
