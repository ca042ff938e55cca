-- ===== src/Spatial/Dimensions.antt =====
-- `Cell::getDimensions`: the box of a cell. The digits and the subdivision are below 2 ^ 31, where
-- their conversion to `int` keeps them.
use map_api.Prelude.{ℕ, ◌/◌, ◌%◌, List, [], ◌∷◌, ◌==◌}
use map_api.Prelude.Checked.{Checked, ok, ◌>>◌, check}
use map_api.Prelude.IdSet.{size}
use map_api.Spatial.{DoubleOps, BoundingBox, SpatialIndex}

-- The loop over the dimensions, from the last to the first: the position in each, and the
-- remainder.
unfoldable pub positions : List ℕ → ℕ → List ℕ × ℕ
positions [] remainder = ([], remainder)
positions (count ∷ subdivision) remainder =
    let (higher, rest) = positions subdivision remainder in (rest % count ∷ higher, rest / count)

module _ {D : Type 0} (ops : DoubleOps D) where
  -- The corners, dimension by dimension.
  unfoldable pub corners : BoundingBox D → List ℕ → List ℕ → BoundingBox D
  corners (bound ∷ bounds) (count ∷ subdivision) (position ∷ position_3d) =
      let unit_cell_extent = ops.over (ops.minus bound.max bound.min) (ops.of_size count) in
      let min_corner = ops.plus bound.min (ops.times (ops.of_size position) unit_cell_extent) in
      record { min = min_corner; max = ops.plus min_corner unit_cell_extent }
      ∷ corners bounds subdivision position_3d
  corners bounds subdivision position_3d = []

  -- After the loop.
  unfoldable pub finish_dimensions : SpatialIndex D → List ℕ × ℕ → Checked (BoundingBox D)
  unfolding corners
  finish_dimensions index (position_3d, remainder) =
      check (remainder == 0) >> ok (corners index.bounds index.subdivision position_3d)

  unfoldable pub get_dimensions : SpatialIndex D → ℕ → Checked (BoundingBox D)
  unfolding positions finish_dimensions
  get_dimensions index position_1d =
      check (size index.subdivision == 3)
      >> finish_dimensions index (positions index.subdivision position_1d)
