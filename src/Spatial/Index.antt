-- ===== src/Spatial/Index.antt =====
-- The operations of the spatial index on the data of its cells, which the distributed index keeps
-- under the positions of the cells. A key stands for the string that has the decimal digits of the
-- position. How the messages are written and parsed is a parameter.
use map_api.Prelude.{ℕ, zero, suc, ◌+◌, Bool, Option, none, some, List, [], ◌∷◌, ◌==◌}
use map_api.Prelude.Checked.{Checked, ok, ◌>>=◌, ◌>>◌, check, check_notnull}
use map_api.Prelude.IdSet.{size}
use map_api.Spatial.{DoubleOps, BoundingBox, SpatialIndex, index_size}
use map_api.Spatial.Cells.{get_cells_in_bounding_box}
use map_api.Spatial.CellData.{
  SpatialIndexCellData, empty_data, add_chunk_id_if_not_present, add_listener_if_not_present,
  add_chunk_ids, get_listeners,
}
use map_api.Chord.Store.{Store}

-- `SerializeAsString` and `ParseFromString`, which may fail.
pub record CellCodec : Type 0 where
  pub serialize_as_string : SpatialIndexCellData → List ℕ
  pub parse_from_string : List ℕ → Option SpatialIndexCellData

abbrev pub position_to_key : ℕ → ℕ
position_to_key cell_index = cell_index

module _ {S : Type 0} (store : Store S) (codec : CellCodec) where
  -- The data string of an accessor is parsed.
  unfoldable pub parsed : Option (List ℕ) × S → Checked (SpatialIndexCellData × S)
  parsed (data_string, s) = check_notnull data_string >>= λ string.
      check_notnull (codec.parse_from_string string) >>= λ data_. ok (data_, s)

  -- The constructor of an accessor, without a timeout.
  unfoldable pub access : ℕ → S → Checked (SpatialIndexCellData × S)
  unfolding parsed
  access position s = store.retrieve_data (position_to_key position) s >>= parsed

  -- With a timeout, if the first attempt fails, there is a second after what happens meanwhile.
  unfoldable pub retry : (S → S) → ℕ → Option (List ℕ) × S → Checked (SpatialIndexCellData × S)
  unfolding access parsed
  retry meanwhile position (none, s) = access position (meanwhile s)
  retry meanwhile position (some data_string, s) = parsed (some data_string, s)

  unfoldable pub access_patiently : (S → S) → ℕ → S → Checked (SpatialIndexCellData × S)
  unfolding retry
  access_patiently meanwhile position s =
      store.retrieve_data (position_to_key position) s >>= retry meanwhile position

  -- What `addData` returned is checked.
  unfoldable pub added : Bool × S → Checked S
  added (success, s) = check success >> ok s

  -- The destructor of a dirty accessor.
  unfoldable pub write_back : ℕ → SpatialIndexCellData → S → Checked S
  unfolding added
  write_back position data_ s =
      store.add_data (position_to_key position) (codec.serialize_as_string data_) s >>= added

  -- A change of the data of a cell by an accessor.
  unfoldable pub change_cell : (SpatialIndexCellData → SpatialIndexCellData) → ℕ → S → Checked S
  unfolding access write_back
  change_cell change position s =
      access position s >>= λ (data_, s'). write_back position (change data_) s'

  unfoldable pub change_all : (SpatialIndexCellData → SpatialIndexCellData) → List ℕ → S → Checked S
  unfolding change_cell
  change_all change [] s = ok s
  change_all change (cell ∷ affected_cells) s =
      change_cell change cell s >>= change_all change affected_cells

  -- The loop of `create`, over `count` cells from a position on.
  unfoldable pub create_cells : ℕ → ℕ → S → Checked S
  unfolding write_back
  create_cells position zero s = ok s
  create_cells position (suc count) s =
      write_back position empty_data s >>= create_cells (position + 1) count

  unfoldable pub seek_all : (S → S) → List ℕ → List ℕ → S → Checked (List ℕ × S)
  unfolding access_patiently
  seek_all meanwhile [] chunk_ids s = ok (chunk_ids, s)
  seek_all meanwhile (cell ∷ affected_cells) chunk_ids s =
      access_patiently meanwhile cell s >>= λ (data_, s').
      seek_all meanwhile affected_cells (add_chunk_ids data_ chunk_ids) s'

  -- `Cell::getListeners`
  unfoldable pub cell_listeners : ℕ → S → Checked (List ℕ × S)
  unfolding access
  cell_listeners position s = access position s >>= λ (data_, s'). ok (get_listeners data_, s')

  module _ {D : Type 0} (ops : DoubleOps D) (index : SpatialIndex D) where
    -- `create`, after that of the distributed index.
    unfoldable pub create : S → Checked S
    unfolding create_cells index_size
    create s =
        check (size index.subdivision == 3)
        >> (index_size index >>= λ count. create_cells 0 count s)

    unfoldable pub announce_chunk : ℕ → BoundingBox D → S → Checked S
    unfolding change_all
    announce_chunk chunk_id bounding_box s =
        get_cells_in_bounding_box ops index bounding_box >>= λ affected_cells.
        change_all (add_chunk_id_if_not_present chunk_id) affected_cells s

    unfoldable pub seek_chunks : (S → S) → BoundingBox D → List ℕ → S → Checked (List ℕ × S)
    unfolding seek_all
    seek_chunks meanwhile bounding_box chunk_ids s =
        get_cells_in_bounding_box ops index bounding_box >>= λ affected_cells.
        seek_all meanwhile affected_cells chunk_ids s

    -- By the peer `self`.
    unfoldable pub listen_to_space : ℕ → BoundingBox D → S → Checked S
    unfolding change_all
    listen_to_space self bounding_box s =
        get_cells_in_bounding_box ops index bounding_box >>= λ affected_cells.
        change_all (add_listener_if_not_present self) affected_cells s
