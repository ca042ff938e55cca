-- ===== src/Spatial/OnRing.antt =====
-- The spatial index on the ring of peers.
use map_api.Prelude.{ℕ, ◌≡◌, some, List, [], ◌==◌, ◌&&◌, ◌||◌}
use map_api.Prelude.Checked.{ok}
use map_api.Prelude.Map.{find}
use map_api.Prelude.IdSet.{contains}
use map_api.Chord.{Config, Node}
use map_api.Chord.Network.{Network}
use map_api.Chord.Ring.{IsRing}
use map_api.Spatial.{DoubleOps, BoundingBox, SpatialIndex}
use map_api.Spatial.Cells.{get_cells_in_bounding_box}
use map_api.Spatial.CellData.{SpatialIndexCellData}
use map_api.Chord.RingStore.{ring_store, ring_laws}
use map_api.Spatial.Index.{CellCodec, announce_chunk, seek_chunks}
use map_api.Spatial.Reads.{AllPresent}
use map_api.Spatial.Announce.{overlap, seek_chunks-announce_chunk}

-- On a settled ring (`IsRing`) where the cells of the two boxes were created, and with messages that
-- are parsed as they were written, `announceChunk` through a peer succeeds and leaves a settled
-- ring, and `seekChunks` through this peer finds after it exactly the chunks that it found before
-- and, if the two boxes share a cell, the chunk that was announced.
pub IsRing-seek_chunks-announce_chunk :
    {D : Type 0} (ops : DoubleOps D) (index : SpatialIndex D) (codec : CellCodec)
    (meanwhile : Network → Network) (c : Config) (self id : ℕ)
    (announced_box sought_box : BoundingBox D) (announced sought : List ℕ) (net : Network)
    (n : Node)
    → ((d : SpatialIndexCellData) → codec.parse_from_string (codec.serialize_as_string d) ≡ some d)
    → IsRing c net
    → find self net ≡ some n
    → get_cells_in_bounding_box ops index announced_box ≡ ok announced
    → get_cells_in_bounding_box ops index sought_box ≡ ok sought
    → AllPresent (ring_store c self) codec (ring_laws c self) net announced
    → AllPresent (ring_store c self) codec (ring_laws c self) net sought
    → (net' : Network) × (before after : List ℕ) × (announce_chunk
          (ring_store c self)
          codec
          ops
          index
          id
          announced_box
          net
        ≡ ok net')
      × (seek_chunks (ring_store c self) codec ops index meanwhile sought_box [] net
          ≡ ok (before, net))
      × (seek_chunks (ring_store c self) codec ops index meanwhile sought_box [] net'
          ≡ ok (after, net'))
      × IsRing c net'
      × ((k : ℕ) → contains k after ≡ (contains k before || (id == k && overlap announced sought)))
IsRing-seek_chunks-announce_chunk ops index codec meanwhile c self id announced_box sought_box
      announced sought net n reads_back ring e h h' present present' =
    let (net', before, after, done, found, found', (ring', _), all) =
      seek_chunks-announce_chunk (ring_store c self) codec (ring_laws c self) reads_back ops index
        meanwhile announced_box sought_box announced sought id net h h' (ring, (n, e)) present
        present' in
    (net', before, after, done, found, found', ring', all)
