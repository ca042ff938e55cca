-- ===== src/Tests/Spaces.antt =====
-- A grid of two by two by two cells over the cube from 0 to 100, whose cells are kept by the ring of
-- two peers: whole numbers stand for the doubles.
use map_api.Prelude.{
  ℕ, ◌+◌, ◌-◌, ◌*◌, ◌/◌, ◌%◌, ◌≡◌, refl, ap, not, Option, none, some, List, [], ◌∷◌, ◌==◌, ltb, leb,
  ◌&&◌, ◌||◌, if◌then◌else◌, arith,
}
use map_api.Prelude.Checked.{ok}
use map_api.Prelude.Map.{find, assign}
use map_api.Prelude.IdSet.{contains}
use map_api.Chord.{Node}
use map_api.Chord.Network.{Network}
use map_api.Chord.Ring.{IsRing}
use map_api.Chord.Owner.{IsRing-assign}
use map_api.Spatial.{DoubleOps, Range, BoundingBox, SpatialIndex, serialize, deserialize}
use map_api.Spatial.Cells.{get_cells_in_bounding_box}
use map_api.Spatial.Positions.{in_box, product, get_cells_in_bounding_box_lem}
use map_api.Spatial.Dimensions.{corners, get_dimensions}
use map_api.Spatial.Boxes.{get_dimensions_mirrored}
use map_api.Spatial.CellData.{SpatialIndexCellData, empty_data, local_update_callback}
use map_api.Spatial.Differences.{is_told, is_told-local_update_callback}
use map_api.Chord.RingStore.{ring_store, ring_laws}
use map_api.Spatial.Index.{CellCodec, announce_chunk, seek_chunks}
use map_api.Spatial.Reads.{AllPresent}
use map_api.Spatial.Announce.{overlap}
use map_api.Spatial.OnRing.{IsRing-seek_chunks-announce_chunk}
use map_api.Tests.Rings.{a_config, a_node, two_peers, first_found, two_peers-IsRing}

abbrev whole_numbers : DoubleOps ℕ
whole_numbers = record {
  eq = λ a b. a == b;
  lt = λ a b. ltb a b;
  le = λ a b. leb a b;
  plus = λ a b. a + b;
  minus = λ a b. a - b;
  times = λ a b. a * b;
  over = λ a b. a / b;
  of_size = λ a. a;
  to_size = λ a. a;
}

abbrev cube : ℕ → ℕ → BoundingBox ℕ
cube min max =
    record { min = min; max = max }
    ∷ record { min = min; max = max }
    ∷ record { min = min; max = max }
    ∷ []

abbrev pair : BoundingBox ℕ
pair = record { min = 3; max = 4 } ∷ []

abbrev a_grid : SpatialIndex ℕ
a_grid = record { bounds = cube 0 100; subdivision = 2 ∷ 2 ∷ 2 ∷ [] }

lower_cell : get_cells_in_bounding_box whole_numbers a_grid (cube 0 40) ≡ ok (0 ∷ [])
unfolding get_cells_in_bounding_box map_api.Spatial.coefficient_of
lower_cell = refl

all_cells :
    get_cells_in_bounding_box whole_numbers a_grid (cube 10 60)
    ≡ ok (0 ∷ 1 ∷ 2 ∷ 3 ∷ 4 ∷ 5 ∷ 6 ∷ 7 ∷ [])
unfolding get_cells_in_bounding_box map_api.Spatial.coefficient_of
all_cells = refl

get_cells_in_bounding_box_lem_example : contains 5 (0 ∷ 1 ∷ 2 ∷ 3 ∷ 4 ∷ 5 ∷ 6 ∷ 7 ∷ []) ≡ (
    ltb 5 (product (2 ∷ 2 ∷ 2 ∷ []))
    && in_box whole_numbers (cube 0 100) (2 ∷ 2 ∷ 2 ∷ []) (cube 10 60) 5)
unfolding map_api.Spatial.coefficient_of
get_cells_in_bounding_box_lem_example =
    get_cells_in_bounding_box_lem whole_numbers a_grid (cube 10 60)
      (0 ∷ 1 ∷ 2 ∷ 3 ∷ 4 ∷ 5 ∷ 6 ∷ 7 ∷ []) 5 (omega arith, (omega arith, (omega arith, tt)))
      (omega arith) all_cells

get_dimensions_mirrored_example :
    ((1 + 2 * (0 + 2 * 0)) % 2 ≡ 1)
    × ((1 + 2 * (0 + 2 * 0)) / 2 % 2 ≡ 0)
    × ((1 + 2 * (0 + 2 * 0)) / 2 / 2 ≡ 0)
    × (get_dimensions whole_numbers
          (record { bounds = cube 0 100; subdivision = 2 ∷ 2 ∷ 2 ∷ [] })
          (1 + 2 * (0 + 2 * 0))
        ≡ ok (corners whole_numbers (cube 0 100) (2 ∷ 2 ∷ 2 ∷ []) (0 ∷ 0 ∷ 1 ∷ [])))
get_dimensions_mirrored_example =
    get_dimensions_mirrored whole_numbers (cube 0 100) 2 1 0 0 (omega arith) (omega arith)
      (omega arith)

is_told-local_update_callback_example :
    is_told 2 9 (
      local_update_callback 5
        (record { chunk_ids = 8 ∷ []; listeners = [] })
        (record { chunk_ids = 9 ∷ 8 ∷ []; listeners = 2 ∷ [] }))
    ≡ (contains 2 (2 ∷ []) && (contains 9 (9 ∷ 8 ∷ []) && not (contains 9 (8 ∷ []))))
unfolding contains
is_told-local_update_callback_example =
    is_told-local_update_callback 5 2 9 (record { chunk_ids = 8 ∷ []; listeners = [] })
      (record { chunk_ids = 9 ∷ 8 ∷ []; listeners = 2 ∷ [] }) (refl, (refl, tt))

-- A tag of every element: 0 for a chunk and 1 for a listener.
abbrev tagged : ℕ → List ℕ → List ℕ → List ℕ
tagged tag [] rest = rest
tagged tag (id ∷ ids) rest = tag ∷ id ∷ tagged tag ids rest

abbrev add_parsed : ℕ → ℕ → Option SpatialIndexCellData → Option SpatialIndexCellData
add_parsed tag id none = none
add_parsed tag id (some d) = some (
    if tag == 0
    then record d { chunk_ids = id ∷ d.chunk_ids }
    else record d { listeners = id ∷ d.listeners })

abbrev parse : List ℕ → Option SpatialIndexCellData
parse [] = some empty_data
parse (tag ∷ []) = none
parse (tag ∷ id ∷ rest) = add_parsed tag id (parse rest)

abbrev a_codec : CellCodec
a_codec = record {
  serialize_as_string = λ d. tagged 0 d.chunk_ids (tagged 1 d.listeners []);
  parse_from_string = parse;
}

parse_listeners :
    (listeners : List ℕ)
    → parse (tagged 1 listeners []) ≡ some (record { chunk_ids = []; listeners = listeners })
parse_listeners [] = refl
parse_listeners (l ∷ listeners) = ap (add_parsed 1 l) (parse_listeners listeners)

parse_chunks :
    (ids listeners : List ℕ)
    → parse (tagged 0 ids (tagged 1 listeners []))
      ≡ some (record { chunk_ids = ids; listeners = listeners })
parse_chunks [] listeners = parse_listeners listeners
parse_chunks (id ∷ ids) listeners = ap (add_parsed 0 id) (parse_chunks ids listeners)

-- Peer 1 keeps the cells; chunk 8 is in cell 3.
abbrev cell_node : Node
cell_node = record (a_node 1 2 2) {
  data_ =
      (0, []) ∷ (1, []) ∷ (2, []) ∷ (3, 0 ∷ 8 ∷ []) ∷ (4, []) ∷ (5, []) ∷ (6, []) ∷ (7, []) ∷ [];
}

abbrev cell_ring : Network
cell_ring = assign 1 cell_node two_peers

cell_found : find 1 cell_ring ≡ some cell_node
unfolding find assign
cell_found = refl

cell_ring-IsRing : IsRing a_config cell_ring
cell_ring-IsRing =
    IsRing-assign a_config two_peers 1 (a_node 1 2 2) cell_node first_found
      (record { same_self = refl; same_key = refl; same_successor = refl; same_initialized = refl })
      two_peers-IsRing

present :
    AllPresent
      (ring_store a_config 1)
      a_codec
      (ring_laws a_config 1)
      cell_ring
      (0 ∷ 1 ∷ 2 ∷ 3 ∷ 4 ∷ 5 ∷ 6 ∷ 7 ∷ [])
unfolding find assign map_api.Chord.Lookup.retrieve_data map_api.Chord.Lookup.retrieve_data_at
    map_api.Chord.Lookup.find_successor map_api.Chord.Lookup.find_predecessor
    map_api.Chord.Lookup.find_predecessor_round map_api.Chord.Lookup.walk
    map_api.Chord.Lookup.own_node map_api.Chord.is_in map_api.Chord.hash_string
    map_api.Chord.hash_peer map_api.Chord.closest_preceding_finger
    map_api.Chord.retrieve_data_locally map_api.Chord.Network.get_closest_preceding_finger_rpc
    map_api.Chord.Network.get_successor_rpc map_api.Chord.Network.retrieve_data_rpc
    map_api.Chord.Network.rpc map_api.Chord.Network.accepted map_api.Chord.Network.expect_peer
    map_api.Chord.Network.expect_value map_api.Chord.Requests.handle_routed_request
    map_api.Chord.Requests.retrieved map_api.Chord.Handlers.handle_get_closest_preceding_finger
    map_api.Chord.Handlers.handle_get_successor map_api.Chord.Handlers.handle_retrieve_data
    map_api.Chord.wait_until_initialized
present = (
  (empty_data, refl),
  (
    (empty_data, refl),
    (
      (empty_data, refl),
      (
        (record { chunk_ids = 8 ∷ []; listeners = [] }, refl),
        ((empty_data, refl), ((empty_data, refl), ((empty_data, refl), ((empty_data, refl), tt)))),
      ),
    ),
  ),
)

IsRing-seek_chunks-announce_chunk_example :
    (net' : Network) × (before after : List ℕ) × (announce_chunk
        (ring_store a_config 1)
        a_codec
        whole_numbers
        a_grid
        9
        (cube 0 40)
        cell_ring
      ≡ ok net')
    × (seek_chunks
          (ring_store a_config 1)
          a_codec
          whole_numbers
          a_grid
          (λ net. net)
          (cube 10 60)
          []
          cell_ring
        ≡ ok (before, cell_ring))
    × (seek_chunks
          (ring_store a_config 1)
          a_codec
          whole_numbers
          a_grid
          (λ net. net)
          (cube 10 60)
          []
          net'
        ≡ ok (after, net'))
    × IsRing a_config net'
    × ((k : ℕ)
        → contains k after ≡ (
            contains k before || (9 == k && overlap (0 ∷ []) (0 ∷ 1 ∷ 2 ∷ 3 ∷ 4 ∷ 5 ∷ 6 ∷ 7 ∷ []))))
IsRing-seek_chunks-announce_chunk_example =
    IsRing-seek_chunks-announce_chunk whole_numbers a_grid a_codec (λ net. net) a_config 1 9
      (cube 0 40) (cube 10 60) (0 ∷ []) (0 ∷ 1 ∷ 2 ∷ 3 ∷ 4 ∷ 5 ∷ 6 ∷ 7 ∷ []) cell_ring cell_node
      (λ d. parse_chunks d.chunk_ids d.listeners) cell_ring-IsRing cell_found lower_cell all_cells
      (present.0, tt) present
