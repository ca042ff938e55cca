-- ===== src/Spatial/Boxes.antt =====
-- Bounding boxes as the lists of numbers of the messages, and the boxes of cells.
use native.Mathlib.Nat.{add-mul-mod_self_left, add-mul-div_left, mod-eq_of_lt, div-eq_of_lt}
use map_api.Prelude.{ℕ, ◌+◌, ◌*◌, ◌/◌, ◌%◌, ◌<◌, ◌≡◌, ◌∙◌, refl, sym, ap, List, [], ◌∷◌, arith}
use map_api.Prelude.Checked.{ok, >>=-eq-ok}
use map_api.Spatial.{DoubleOps, BoundingBox, serialize, deserialize}
use map_api.Spatial.Dimensions.{positions, corners, finish_dimensions, get_dimensions}

deserialize_own : {D : Type 0} (box : BoundingBox D) → deserialize (serialize box) ≡ ok box
unfolding serialize deserialize
deserialize_own [] = refl
deserialize_own (range ∷ box) = rw (deserialize_own box) refl

serialize_own :
    {D : Type 0} (field : List D) (box : BoundingBox D)
    → deserialize field ≡ ok box
    → serialize box ≡ field
unfolding serialize deserialize
serialize_own [] box h = let same : [] ≡ box = cc in ap serialize (sym same)
serialize_own (min ∷ []) box h = cc
serialize_own (min ∷ max ∷ field) box h =
    let (rest, h1, h2) = >>=-eq-ok (deserialize field) _ h in
    let same : record { min = min; max = max } ∷ rest ≡ box = cc in
    ap serialize (sym same) ∙ ap (λ l. min ∷ max ∷ l) (serialize_own field rest h1)

-- A bounding box comes back from the numbers that it is serialized to, and the numbers of a message
-- from which a bounding box is read are those that this box is serialized to.
pub deserialize-serialize :
    {D : Type 0} (box other : BoundingBox D) (field : List D)
    → deserialize field ≡ ok other
    → (deserialize (serialize box) ≡ ok box) × (serialize other ≡ field)
deserialize-serialize box other field h = (deserialize_own box, serialize_own field other h)

-- The digits of the position of the cell at `x`, `y` and `z`.
digit_x : (n x r : ℕ) → x < n → (x + n * r) % n ≡ x
digit_x n x r below = add-mul-mod_self_left x n r ∙ mod-eq_of_lt {n = x} {m = n} below

higher_x : (n x r : ℕ) → x < n → (x + n * r) / n ≡ r
higher_x n x r below =
    add-mul-div_left x r {y = n} (omega (arith, below))
    ∙ ap (λ k. k + r) (div-eq_of_lt {n = x} {m = n} below)
    ∙ omega arith

positions-cube :
    (n x y z : ℕ)
    → x < n
    → y < n
    → z < n
    → positions (n ∷ n ∷ n ∷ []) (x + n * (y + n * z)) ≡ (z ∷ y ∷ x ∷ [], 0)
unfolding positions
positions-cube n x y z x_below y_below z_below = rw (digit_x n x (y + n * z) x_below) (
    rw (higher_x n x (y + n * z) x_below) (
      rw (digit_x n y z y_below) (
        rw (higher_x n y z y_below) (
          rw (mod-eq_of_lt {n = z} {m = n} z_below)
            (rw (div-eq_of_lt {n = z} {m = n} z_below) refl)))))

-- In a grid with the same subdivision in all dimensions, the position whose digits are `x`, `y` and
-- `z`, the first dimension's as the least significant, as `getCellsInBoundingBox` composes them,
-- has by `getDimensions` the box of the cell at `z`, `y` and `x`.
pub get_dimensions_mirrored :
    {D : Type 0} (ops : DoubleOps D) (bounds : BoundingBox D) (n x y z : ℕ)
    → x < n
    → y < n
    → z < n
    → ((x + n * (y + n * z)) % n ≡ x)
      × ((x + n * (y + n * z)) / n % n ≡ y)
      × ((x + n * (y + n * z)) / n / n ≡ z)
      × (get_dimensions ops
            (record { bounds = bounds; subdivision = n ∷ n ∷ n ∷ [] })
            (x + n * (y + n * z))
          ≡ ok (corners ops bounds (n ∷ n ∷ n ∷ []) (z ∷ y ∷ x ∷ [])))
unfolding get_dimensions finish_dimensions
get_dimensions_mirrored ops bounds n x y z x_below y_below z_below =
    let higher = higher_x n x (y + n * z) x_below in
    (
      digit_x n x (y + n * z) x_below,
      ap (λ k. k % n) higher ∙ digit_x n y z y_below,
      ap (λ k. k / n) higher ∙ higher_x n y z y_below,
      ap (finish_dimensions ops (record { bounds = bounds; subdivision = n ∷ n ∷ n ∷ [] }))
          (positions-cube n x y z x_below y_below z_below),
    )
