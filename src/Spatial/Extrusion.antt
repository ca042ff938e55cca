-- ===== src/Spatial/Extrusion.antt =====
-- One step of the loop over the dimensions: which positions an extrusion gives.
use native.Mathlib.Nat.{mul-le-mul_right, suc-mul, mod-eq_of_lt}
use map_api.Prelude.{
  ℕ, zero, suc, ◌+◌, ◌*◌, ◌%◌, ◌<◌, ◌≤◌, ◌≡◌, refl, ap, inl, inr, false, List, [], ◌∷◌, ◌++◌, ltb,
  leb, ◌==◌, ◌&&◌, ◌||◌, Bool-cases, arith,
}
use map_api.Prelude.IdSet.{contains}
use map_api.Spatial.{size_values}
use map_api.Spatial.Cells.{indices_from, shift_all, extrude}

abbrev pub AllBelow : ℕ → List ℕ → Type 0
AllBelow k [] = Unit {0}
AllBelow k (j ∷ s) = (j < k) × AllBelow k s

pub contains-above : (k j : ℕ) (s : List ℕ) → AllBelow k s → k ≤ j → contains j s ≡ false
unfolding contains
contains-above k j [] all le = refl
contains-above k j (i ∷ s) all le = ground (arith, contains-above k j s all.1 le, all.0)

contains-append : (k : ℕ) (s t : List ℕ) → contains k (s ++ t) ≡ (contains k s || contains k t)
unfolding contains
contains-append k [] t = refl
contains-append k (j ∷ s) t = ground (arith, contains-append k s t)

-- A step in the higher digit.
pub step : (l i j : ℕ) → i < j → i * l + l ≤ j * l
step l i j lt =
    let le : suc i * l ≤ j * l = mul-le-mul_right {m = suc i} {n = j} l (omega (arith, lt)) in
    omega (arith, le, suc-mul i l)

-- Two digits determine a number.
same_digits : (l p q i j : ℕ) → p < l → q < l → (p + j * l == q + i * l) ≡ ((i == j) && (p == q))
same_digits l p q i j p_below q_below = elim (Bool-cases (ltb i j)) [
  | inl lt ↦ let s = step l i j (ground arith) in ground (arith, s)
  | inr ge ↦ elim (Bool-cases (ltb j i)) [
    | inl lt ↦ let s = step l j i (ground arith) in ground (arith, s)
    | inr le ↦
        let same : i ≡ j = ground arith in
        let e : i * l ≡ j * l = ap (λ k. k * l) same in ground (arith, e)
  ]
]

-- The sum does not wrap around.
no_wrap :
    (l previous j : ℕ)
    → previous < l
    → j * l + l ≤ size_values
    → (previous + j * l % size_values) % size_values ≡ previous + j * l
no_wrap l previous j below fits =
    let small : j * l % size_values ≡ j * l =
      mod-eq_of_lt {n = j * l} {m = size_values} (omega (arith, below, fits)) in
    rw small (mod-eq_of_lt {n = previous + j * l} {m = size_values} (omega (arith, below, fits)))

contains-shift_all :
    (l j q i : ℕ) (indices : List ℕ)
    → AllBelow l indices
    → q < l
    → j * l + l ≤ size_values
    → contains (q + i * l) (shift_all (j * l % size_values) indices)
      ≡ ((i == j) && contains q indices)
unfolding contains shift_all
contains-shift_all l j q i [] all q_below fits = ground arith
contains-shift_all l j q i (previous ∷ indices) all q_below fits =
    rw (no_wrap l previous j all.0 fits) (
      ground (
        arith,
        same_digits l previous q i j all.0 q_below,
        contains-shift_all l j q i indices all.1 q_below fits,
      ))

AllBelow-shift_all :
    (l j k : ℕ) (indices : List ℕ)
    → AllBelow l indices
    → j * l + l ≤ k
    → k ≤ size_values
    → AllBelow k (shift_all (j * l % size_values) indices)
unfolding shift_all
AllBelow-shift_all l j k [] all le fits = tt
AllBelow-shift_all l j k (previous ∷ indices) all le fits = (
  rw (no_wrap l previous j all.0 (omega (arith, le, fits))) (omega (arith, all.0, le)),
  AllBelow-shift_all l j k indices all.1 le fits,
)

AllBelow-append : (k : ℕ) (s t : List ℕ) → AllBelow k s → AllBelow k t → AllBelow k (s ++ t)
AllBelow-append k [] t h h' = h'
AllBelow-append k (j ∷ s) t h h' = (h.0, AllBelow-append k s t h.1 h')

pub AllBelow-extrude_from :
    (l first count n : ℕ) (indices : List ℕ)
    → AllBelow l indices
    → first + count ≤ n
    → n * l ≤ size_values
    → AllBelow (n * l) (extrude (indices_from first count) l indices)
unfolding extrude indices_from
AllBelow-extrude_from l first zero n indices all le fits = tt
AllBelow-extrude_from l first (suc count) n indices all le fits =
    AllBelow-append (n * l) (shift_all (first * l % size_values) indices)
      (extrude (indices_from (first + 1) count) l indices)
      (AllBelow-shift_all l first (n * l) indices all (step l first n (omega (arith, le))) fits)
      (AllBelow-extrude_from l (first + 1) count n indices all (omega (arith, le)) fits)

pub contains-extrude_from :
    (l first count n q i : ℕ) (indices : List ℕ)
    → AllBelow l indices
    → q < l
    → first + count ≤ n
    → n * l ≤ size_values
    → contains (q + i * l) (extrude (indices_from first count) l indices)
      ≡ ((leb first i && ltb i (first + count)) && contains q indices)
unfolding extrude indices_from contains
contains-extrude_from l first zero n q i indices all q_below le fits = ground arith
contains-extrude_from l first (suc count) n q i indices all q_below le fits = ground (
  arith,
  contains-append (q + i * l) (shift_all (first * l % size_values) indices)
      (extrude (indices_from (first + 1) count) l indices),
  contains-shift_all l first q i indices all q_below
      (fits_one (step l first n (omega (arith, le)))),
  contains-extrude_from l (first + 1) count n q i indices all q_below (omega (arith, le)) fits,
)
  where
    fits_one : first * l + l ≤ n * l → first * l + l ≤ size_values
    fits_one s = omega (arith, s, fits)
