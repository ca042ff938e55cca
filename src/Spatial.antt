-- ===== src/Spatial.antt =====
-- map-api/src/spatial-index.cc and include/map-api/spatial-index.h: the index that maps the cells
-- of a grid over space to the chunks in them. This file has the bounding boxes and the grid. The
-- arithmetic of `double` is a parameter; `size_t` has 64 bits.
pub mod Dimensions
pub mod Boxes
pub mod Cells
pub mod Extrusion
pub mod Positions
pub mod CellData
pub mod Differences
pub mod Index
pub mod Reads
pub mod Announce
pub mod OnRing
use map_api.Prelude.{
  ℕ, zero, suc, ◌+◌, ◌-◌, ◌*◌, ◌/◌, ◌%◌, ◌^◌, Bool, true, false, not, List, [], ◌∷◌, ◌++◌, ltb, leb,
  ◌==◌, if◌then◌else◌,
}
use map_api.Prelude.Checked.{Checked, ok, fatal, ◌>>=◌, ◌>>◌, check}
use map_api.Prelude.IdSet.{size}

-- `to_size` is `static_cast<size_t>`, and `of_size` the conversion of a size_t.
pub record DoubleOps (D : Type 0) : Type 0 where
  pub eq : D → D → Bool
  pub lt : D → D → Bool
  pub le : D → D → Bool
  pub plus : D → D → D
  pub minus : D → D → D
  pub times : D → D → D
  pub over : D → D → D
  pub of_size : ℕ → D
  pub to_size : D → ℕ

pub record Range (D : Type 0) : Type 0 where
  pub min : D
  pub max : D

abbrev pub BoundingBox : Type 0 → Type 0
BoundingBox D = List (Range D)

pub record SpatialIndex (D : Type 0) : Type 0 where
  pub bounds : BoundingBox D
  pub subdivision : List ℕ

-- The number of values of a size_t.
abbrev pub size_values : ℕ
size_values = 2 ^ 64

-- `BoundingBox::serialize`
unfoldable pub serialize : {D : Type 0} → BoundingBox D → List D
serialize [] = []
serialize (range ∷ box) = range.min ∷ range.max ∷ serialize box

-- `BoundingBox::deserialize`: an odd number of values aborts.
unfoldable pub deserialize : {D : Type 0} → List D → Checked (BoundingBox D)
deserialize [] = ok []
deserialize (min ∷ []) = fatal
deserialize (min ∷ max ∷ field) =
    deserialize field >>= λ box. ok (record { min = min; max = max } ∷ box)

-- `CHECK_GT(count, 0u)`, for each count.
all_positive : List ℕ → Checked (Unit {0})
all_positive [] = ok tt
all_positive (count ∷ subdivision) = check (ltb 0 count) >> all_positive subdivision

unfoldable pub size_of : List ℕ → ℕ → Checked ℕ
size_of [] result = ok result
size_of (dimension_size ∷ subdivision) result =
    check (not (dimension_size == 0)) >> size_of subdivision (result * dimension_size % size_values)

-- `size()`
unfoldable pub index_size : {D : Type 0} → SpatialIndex D → Checked ℕ
unfolding size_of
index_size index = size_of index.subdivision 1

module _ {D : Type 0} (ops : DoubleOps D) where
  -- `CHECK_LT(bound.min, bound.max)`, for each bound.
  all_proper : BoundingBox D → Checked (Unit {0})
  all_proper [] = ok tt
  all_proper (bound ∷ bounds) = check (ops.lt bound.min bound.max) >> all_proper bounds

  -- The constructor.
  unfoldable pub spatial_index : BoundingBox D → List ℕ → Checked (SpatialIndex D)
  unfolding all_positive all_proper
  spatial_index bounds subdivision =
      check (size bounds == size subdivision)
      >> all_positive subdivision
      >> all_proper bounds
      >> ok (record { bounds = bounds; subdivision = subdivision })

  -- `coefficientOf`, with the bound and the subdivision of the dimension.
  unfoldable pub coefficient_of : Range D → ℕ → D → ℕ
  coefficient_of bound count value =
      if ops.eq value bound.max
      then count - 1
      else ops.to_size (
          ops.over (ops.times (ops.minus value bound.min) (ops.of_size count))
            (ops.minus bound.max bound.min))
