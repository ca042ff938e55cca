-- ===== src/Spatial/Positions.antt =====
-- Which cells `getCellsInBoundingBox` gives, against the digits of their positions.
use native.Mathlib.Nat.{
  mul-pos, suc-mul, add-mul, mul_assoc, mul_comm, mod-lt, mod-add-div, div-lt_iff_lt-mul,
  le-mul_of_pos_right, mod-eq_of_lt,
}
use mathlib.Core.Path.{subst}
use map_api.Prelude.{
  ℕ, zero, suc, ◌+◌, ◌-◌, ◌*◌, ◌/◌, ◌%◌, ◌<◌, ◌≤◌, ◌≡◌, ◌∙◌, sym, ap, inl, inr, Bool, true, List,
  [], ◌∷◌, ltb, leb, ◌&&◌, ltb→lt, Bool-cases, arith,
}
use map_api.Prelude.Checked
use map_api.Prelude.Checked.{Checked, ok, ◌>>◌, check}
use map_api.Prelude.IdSet.{contains}
use map_api.Spatial.{DoubleOps, BoundingBox, SpatialIndex, size_values, coefficient_of}
use map_api.Spatial.Cells.{
  indices_from, indices_between, extrude, extrude_all, get_cells_in_bounding_box,
}
use map_api.Spatial.Extrusion.{
  AllBelow, contains-above, step, AllBelow-extrude_from, contains-extrude_from,
}

abbrev pub product : List ℕ → ℕ
product [] = 1
product (count ∷ counts) = count * product counts

between_lem :
    (l first last count q i : ℕ) (indices : List ℕ)
    → AllBelow l indices
    → q < l
    → last < count
    → count * l ≤ size_values
    → contains (q + i * l) (extrude (indices_between first last) l indices)
      ≡ ((leb first i && leb i last) && contains q indices)
unfolding indices_between indices_from extrude contains
between_lem l first last count q i indices all below le fits =
    elim (Bool-cases (leb first (suc last))) [
      | inl h ↦ ground (
        arith,
        contains-extrude_from l first (suc last - first) count q i indices all below
            (ground (arith, le)) fits,
      )
      | inr h ↦ let none : suc last - first ≡ 0 = ground arith in rw none (ground (arith, h))
    ]

between-AllBelow :
    (l first last count : ℕ) (indices : List ℕ)
    → AllBelow l indices
    → last < count
    → count * l ≤ size_values
    → AllBelow (count * l) (extrude (indices_between first last) l indices)
unfolding indices_between
between-AllBelow l first last count indices all le fits = elim (Bool-cases (leb first (suc last))) [
  | inl h ↦
      AllBelow-extrude_from l first (suc last - first) count indices all (ground (arith, le)) fits
  | inr h ↦ let none : suc last - first ≡ 0 = ground arith in rw none (unfold extrude in tt)
]

-- The digit of a dimension, and the higher ones.
regroup :
    (lower q r count : ℕ) → q + r * lower ≡ q + (r % count) * lower + (r / count) * (lower * count)
regroup lower q r count =
    let parts : r ≡ r % count + count * (r / count) = sym (mod-add-div r count) in
    let split : r * lower ≡ (r % count) * lower + count * (r / count) * lower =
      ap (λ k. k * lower) parts ∙ add-mul (r % count) (count * (r / count)) lower in
    let turned : count * (r / count) * lower ≡ (r / count) * (lower * count) =
      ap (λ k. k * lower) (mul_comm count (r / count))
      ∙ mul_assoc (r / count) count lower
      ∙ ap (λ k. (r / count) * k) (mul_comm count lower) in
    omega (arith, split, turned)

ltb-div : (r count k : ℕ) → 0 < count → ltb (r / count) k ≡ ltb r (count * k)
ltb-div r count k positive =
    let (to, from) = div-lt_iff_lt-mul {k = count} {x = r} {y = k} positive in
    elim (Bool-cases (ltb (r / count) k)) [
      | inl lt ↦
          let below : r < k * count = to (ground arith) in ground (arith, below, mul_comm k count)
      | inr ge ↦ elim (Bool-cases (ltb r (count * k))) [
        | inl lt ↦
            let below : r / count < k = from (rw (mul_comm k count) (ltb→lt r (count * k) lt)) in
            ground (arith, below)
        | inr above ↦ ge ∙ sym above
      ]
    ]

module _ {D : Type 0} (ops : DoubleOps D) where
  -- In every dimension, the coefficient of the upper corner is one of the subdivision.
  abbrev pub HasCoefficients : BoundingBox D → List ℕ → BoundingBox D → Type 0
  HasCoefficients (bound ∷ bounds) (count ∷ subdivision) (range ∷ box) =
      (coefficient_of ops bound count range.max < count) × HasCoefficients bounds subdivision box
  HasCoefficients bounds subdivision box = Unit {0}

  -- The digits of the position, the first dimension's as the least significant, lie between the
  -- coefficients of the corners.
  abbrev pub in_box : BoundingBox D → List ℕ → BoundingBox D → ℕ → Bool
  in_box (bound ∷ bounds) (count ∷ subdivision) (range ∷ box) position =
      (leb (coefficient_of ops bound count range.min) (position % count)
        && leb (position % count) (coefficient_of ops bound count range.max))
      && in_box bounds subdivision box (position / count)
  in_box bounds subdivision box position = true

  -- In every dimension the cells are at least one.
  product-pos :
      (bounds : BoundingBox D) (subdivision : List ℕ) (box : BoundingBox D) (lower : ℕ)
      (indices cells : List ℕ)
      → HasCoefficients bounds subdivision box
      → extrude_all ops bounds subdivision box lower indices ≡ ok cells
      → 0 < product subdivision
  unfolding extrude_all
  product-pos [] [] [] lower indices cells h k = ground arith
  product-pos [] [] (range ∷ box) lower indices cells h k = cc
  product-pos [] (count ∷ subdivision) box lower indices cells h k = cc
  product-pos (bound ∷ bounds) [] box lower indices cells h k = cc
  product-pos (bound ∷ bounds) (count ∷ subdivision) [] lower indices cells h k = cc
  product-pos (bound ∷ bounds) (count ∷ subdivision) (range ∷ box) lower indices cells h k =
      let rest = product-pos bounds subdivision box _ _ cells h.1 (Checked.>>-eq-ok _ _ k) in
      mul-pos {m = count} {n = product subdivision} (omega (arith, h.0)) rest

  extrude_all-contains :
      (bounds : BoundingBox D) (subdivision : List ℕ) (box : BoundingBox D) (lower q r : ℕ)
      (indices cells : List ℕ)
      → HasCoefficients bounds subdivision box
      → AllBelow lower indices
      → q < lower
      → lower * product subdivision < size_values
      → extrude_all ops bounds subdivision box lower indices ≡ ok cells
      → contains (q + r * lower) cells
        ≡ ((ltb r (product subdivision) && in_box bounds subdivision box r) && contains q indices)
  unfolding extrude_all
  extrude_all-contains [] [] [] lower q zero indices cells h all below fits k =
      let same : indices ≡ cells = cc in
      ap (λ c. contains (q + 0 * lower) c) (sym same) ∙ ap (λ j. contains j indices) (ground arith)
  extrude_all-contains [] [] [] lower q (suc r) indices cells h all below fits k =
      let same : indices ≡ cells = cc in
      ap (λ c. contains (q + suc r * lower) c) (sym same)
      ∙ contains-above lower (q + suc r * lower) indices all (omega (arith, suc-mul r lower))
      ∙ ground arith
  extrude_all-contains [] [] (range ∷ box) lower q r indices cells h all below fits k = cc
  extrude_all-contains [] (count ∷ subdivision) box lower q r indices cells h all below fits k = cc
  extrude_all-contains (bound ∷ bounds) [] box lower q r indices cells h all below fits k = cc
  extrude_all-contains (bound ∷ bounds) (count ∷ subdivision) [] lower q r indices cells h all below
        fits k =
      cc
  extrude_all-contains (bound ∷ bounds) (count ∷ subdivision) (range ∷ box) lower q r indices cells
        h all below fits k =
      let first = coefficient_of ops bound count range.min in
      let last = coefficient_of ops bound count range.max in
      let next : extrude_all ops bounds subdivision box (lower * count % size_values)
            (extrude (indices_between first last) lower indices)
          ≡ ok cells =
        Checked.>>-eq-ok
          (check (ops.le bound.min range.min)
            >> check (ops.lt range.min range.max)
            >> check (ops.le range.max bound.max))
          _ k in
      let rest_pos =
        product-pos bounds subdivision box (lower * count % size_values)
          (extrude (indices_between first last) lower indices) cells h.1 next in
      let total : lower * count * product subdivision < size_values =
        rw (mul_assoc lower count (product subdivision)) fits in
      let le : lower * count ≤ lower * count * product subdivision =
        le-mul_of_pos_right {m = product subdivision} (lower * count) rest_pos in
      let small : lower * count < size_values = omega (arith, total, le) in
      let fit : count * lower ≤ size_values = rw (mul_comm count lower) (omega (arith, small)) in
      let no_wrap : lower * count % size_values ≡ lower * count =
        mod-eq_of_lt {n = lower * count} {m = size_values} small in
      let digit : r % count < count = mod-lt r {m = count} (omega (arith, h.0)) in
      let higher : (r % count) * lower + lower ≤ count * lower =
        step lower (r % count) count digit in
      let inner = between_lem lower first last count q (r % count) indices all below h.0 fit in
      let stepped = between-AllBelow lower first last count indices all h.0 fit in
      let ih =
        extrude_all-contains bounds subdivision box (lower * count) (q + (r % count) * lower)
          (r / count) (extrude (indices_between first last) lower indices) cells h.1
          (subst (λ b. AllBelow b (extrude (indices_between first last) lower indices))
            (mul_comm count lower) stepped)
          (rw (mul_comm lower count) (omega (arith, below, higher))) total (rw no_wrap at next) in
      ap (λ j. contains j cells) (regroup lower q r count)
      ∙ ih
      ∙ ground (arith, inner, ltb-div r count (product subdivision) (omega (arith, h.0)))

  -- The cells of a bounding box are exactly the positions of the grid whose digits, to the base of
  -- the subdivision with the first dimension's as the least significant, lie between the
  -- coefficients of the corners. This holds if the grid has less than 2 ^ 64 cells and the
  -- coefficient of each upper corner is less than the subdivision.
  pub get_cells_in_bounding_box_lem :
      (index : SpatialIndex D) (box : BoundingBox D) (cells : List ℕ) (position : ℕ)
      → HasCoefficients index.bounds index.subdivision box
      → product index.subdivision < size_values
      → get_cells_in_bounding_box ops index box ≡ ok cells
      → contains position cells ≡ (
          ltb position (product index.subdivision)
          && in_box index.bounds index.subdivision box position)
  unfolding get_cells_in_bounding_box
  get_cells_in_bounding_box_lem index box cells position h fits k =
      let lem =
        extrude_all-contains index.bounds index.subdivision box 1 0 position (0 ∷ []) cells h
          (ground arith, tt) (ground arith) (omega (arith, fits)) (Checked.>>-eq-ok _ _ k) in
      ap (λ j. contains j cells) (omega arith) ∙ lem ∙ (unfold contains in ground arith)
