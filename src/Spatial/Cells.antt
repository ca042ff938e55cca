-- ===== src/Spatial/Cells.antt =====
-- `getCellsInBoundingBox`: the positions of the cells that a bounding box overlaps.
use map_api.Prelude.{ℕ, zero, suc, ◌+◌, ◌-◌, ◌*◌, ◌%◌, List, [], ◌∷◌, ◌++◌, ◌==◌}
use map_api.Prelude.Checked.{Checked, ok, fatal, ◌>>◌, check}
use map_api.Prelude.IdSet.{size}
use map_api.Spatial.{DoubleOps, Range, BoundingBox, SpatialIndex, size_values, coefficient_of}

-- `count` indices from `i` on.
unfoldable pub indices_from : ℕ → ℕ → List ℕ
indices_from i zero = []
indices_from i (suc count) = i ∷ indices_from (i + 1) count

-- The loop over this dimension's indices, from the first to the last.
unfoldable pub indices_between : ℕ → ℕ → List ℕ
unfolding indices_from
indices_between first last = indices_from first (suc last - first)

-- The inner loop of the extrusion.
unfoldable pub shift_all : ℕ → List ℕ → List ℕ
shift_all offset [] = []
shift_all offset (previous_index ∷ indices) =
    (previous_index + offset) % size_values ∷ shift_all offset indices

-- `previous_index + this_dimension_index * lower_dimensions_size`, for all of them.
unfoldable pub extrude : List ℕ → ℕ → List ℕ → List ℕ
unfolding shift_all
extrude [] lower_dimensions_size indices = []
extrude (this_dimension_index ∷ this_dimension_indices) lower_dimensions_size indices =
    shift_all (this_dimension_index * lower_dimensions_size % size_values) indices
    ++ extrude this_dimension_indices lower_dimensions_size indices

module _ {D : Type 0} (ops : DoubleOps D) where
  -- The checks of one dimension.
  box_inside : Range D → Range D → Checked (Unit {0})
  box_inside bound box =
      check (ops.le bound.min box.min)
      >> check (ops.lt box.min box.max)
      >> check (ops.le box.max bound.max)

  -- The loop over the dimensions: the bounds, the subdivision, the box, the size of the lower
  -- dimensions and the indices so far. The constructor has checked that the lengths agree.
  unfoldable pub extrude_all :
      BoundingBox D → List ℕ → BoundingBox D → ℕ → List ℕ → Checked (List ℕ)
  unfolding box_inside indices_between extrude
  extrude_all (bound ∷ bounds) (count ∷ subdivision) (range ∷ box) lower_dimensions_size indices =
      box_inside bound range
      >> extrude_all bounds subdivision box (lower_dimensions_size * count % size_values) (
          extrude
            (indices_between (coefficient_of ops bound count range.min)
              (coefficient_of ops bound count range.max))
            lower_dimensions_size indices)
  extrude_all [] [] [] lower_dimensions_size indices = ok indices
  extrude_all bounds subdivision box lower_dimensions_size indices = fatal

  unfoldable pub get_cells_in_bounding_box : SpatialIndex D → BoundingBox D → Checked (List ℕ)
  unfolding extrude_all
  get_cells_in_bounding_box index bounding_box =
      check (size index.bounds == size bounding_box)
      >> extrude_all index.bounds index.subdivision bounding_box 1 (0 ∷ [])
