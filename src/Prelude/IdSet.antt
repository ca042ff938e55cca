-- ===== src/Prelude/IdSet.antt =====
-- std::unordered_set of numbers: a list without repetition.
use Prim.Native.Nat.{ℕ, suc, ◌+◌}
use mathlib.Core.Path.{◌≡◌, refl}
use mathlib.Core.Bool.{Bool, true, false, ◌&&◌}
use mathlib.Core.List.{List, [], ◌∷◌, ◌++◌}
use native.Mathlib.Omega.{arith}
use map_api.Prelude.Tests.{◌==◌, if◌then◌else◌}

abbrev pub size {ℓ} : {A : Type ℓ} → List A → ℕ
size [] = 0
size (x ∷ xs) = suc (size xs)

unfoldable pub contains : ℕ → List ℕ → Bool
contains k [] = false
contains k (j ∷ s) = if j == k then true else contains k s

-- emplace(k), without the flag that it returns: that is `contains k s` before the call.
unfoldable pub add : ℕ → List ℕ → List ℕ
add k s = if contains k s then s else s ++ k ∷ []

-- Is every element of the first set in the second?
unfoldable pub is_subset : List ℕ → List ℕ → Bool
is_subset [] t = true
is_subset (k ∷ s) t = contains k t && is_subset s t

-- operator== of std::unordered_set
unfoldable pub same_set : List ℕ → List ℕ → Bool
unfolding is_subset
same_set s t = (size s == size t) && is_subset s t

pub contains-snoc :
    (k j : ℕ) (s : List ℕ) → contains j (s ++ k ∷ []) ≡ (if contains j s then true else k == j)
unfolding contains
contains-snoc k j [] = ground arith
contains-snoc k j (i ∷ s) = ground (arith, contains-snoc k j s)

pub contains_eq : (k j : ℕ) (s : List ℕ) → k ≡ j → contains k s ≡ contains j s
contains_eq k j s e i = contains (e i) s

pub contains-add :
    (k j : ℕ) (s : List ℕ) → contains j (add k s) ≡ (if contains j s then true else k == j)
unfolding add
contains-add k j s = ground (arith, contains-snoc k j s, contains_eq k j s)

pub size-snoc {ℓ} : {A : Type ℓ} (xs : List A) (x : A) → size (xs ++ x ∷ []) ≡ size xs + 1
size-snoc [] x = refl
size-snoc (y ∷ xs) x = omega (arith, size-snoc xs x)

pub size-add : (k : ℕ) (s : List ℕ) → size (add k s) ≡ (if contains k s then size s else size s + 1)
unfolding add
size-add k s = ground (arith, size-snoc s k)

pub is_subset-contains :
    (s t : List ℕ) (k : ℕ) → is_subset s t ≡ true → contains k s ≡ true → contains k t ≡ true
unfolding is_subset contains
is_subset-contains [] t k h c = cc
is_subset-contains (j ∷ s) t k h c = ground (arith, is_subset-contains s t k, contains_eq j k t)

pub is_subset-cons : (k : ℕ) (s t : List ℕ) → is_subset s t ≡ true → is_subset s (k ∷ t) ≡ true
unfolding is_subset contains
is_subset-cons k [] t h = refl
is_subset-cons k (j ∷ s) t h = ground (arith, is_subset-cons k s t)

pub is_subset_refl : (s : List ℕ) → is_subset s s ≡ true
unfolding is_subset contains
is_subset_refl [] = refl
is_subset_refl (k ∷ s) = ground (arith, is_subset-cons k s s, is_subset_refl s)

pub contains-is_subset :
    (s t : List ℕ) → ((k : ℕ) → contains k s ≡ true → contains k t ≡ true) → is_subset s t ≡ true
unfolding is_subset contains
contains-is_subset [] t h = refl
contains-is_subset (k ∷ s) t h =
    ground (arith, h k (ground arith), contains-is_subset s t λ j c. h j (ground arith))
