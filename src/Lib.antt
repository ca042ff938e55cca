-- ===== src/Lib.antt =====
-- Map API keeps tables of versioned items in chunks, which peers replicate, and changes them by
-- optimistic transactions. This library models what a transaction reads and commits in
-- one chunk, in one table and in several, the locks that it needs, and the ring of peers that indexes
-- the chunks of a table, by name and by place:
--
--   LogicalTime      map-api/src/logical-time.cc: the Lamport clock. Times are 64-bit words; the
--                    theorems on times assume that the clock does not wrap around.
--   Trackees         map-api/src/internal/trackee-multimap.cc: the chunks that an item tracks.
--   Revision         map-api/src/revision.cc and core.proto: a version of an item, comparison and
--                    automatic merge (Revision/Fields, Revision/AutoMerge).
--   Container        map-api/src/*chunk-data*container*.cc: the histories of the items of a chunk.
--                    Container/Ram is the container in memory (`data_`); Container itself holds the
--                    checked operations around it. The other modules have the theorems.
--   View             map-api/src/internal/chunk-view.cc, commit-history-view.cc, combined-view.cc,
--                    commit-future.cc: the layers through which a transaction reads. A view is a
--                    record of its operations, as the abstract class is.
--   Chunk            map-api/src/legacy-chunk.cc and chunk-base.cc: the writes under the write lock,
--                    and what the peers are sent and do with it.
--   Delta            map-api/src/internal/delta-view.cc: the uncommitted changes of a transaction:
--                    Delta/Traverse checks and merges conflicts, Delta/Commit commits.
--   Transaction      map-api/src/chunk-transaction.cc: a transaction on one chunk: its reads and changes,
--                    the check for conflicts and the commit (Transaction/Commit).
--   TableTransaction map-api/src/net-table-transaction.cc: the commit over the chunks of a table, the
--                    changes and reads by item id (TableTransaction/Items) and the merge.
--   WholeTransaction map-api/src/transaction.cc: the commit over several tables, the merge, and the
--                    access to tables directly or by cache.
--   TableIndex       map-api/src/net-table-index.cc: which peers hold a chunk, by Chord/Store.
--   Spatial          map-api/src/spatial-index.cc and spatial-index-cell-data.cc: the grid (Spatial,
--                    Spatial/Cells, Spatial/Dimensions), the data of its cells (Spatial/CellData)
--                    and the operations on them (Spatial/Index) over what they use of the
--                    distributed index (Chord/Store), which the ring of Chord fills
--                    (Chord/RingStore). The arithmetic of doubles, and how messages are
--                    written and parsed, are parameters. The other modules have the theorems.
--   Chord            map-api/src/chord-index.cc and net-table-index.cc: the ring of peers that indexes
--                    a table. Chord is one peer, Chord/Handlers its handlers, Chord/Requests their
--                    dispatch, Chord/Network the requests to others, Chord/Lookup the search for
--                    the owner of a key, Chord/NodeLocks the locks of peers, Chord/Membership
--                    joining and leaving. Chord/Store is what its clients use of it. The other
--                    modules have the theorems.
--   ChunkLock        map-api/src/legacy-chunk.cc: the write lock on which the peers of a chunk agree:
--                    ChunkLock is one peer, ChunkLock/System the interleaved steps of all.
--   ReaderWriter     map-api-common/src/reader-writer-lock.cc and
--                    reader-first-reader-writer-lock.cc: the locks, as a step relation on threads.
--   Workspace        map-api/src/workspace.cc: the tables and chunks that a transaction sees.
--   Tests            a small chunk, a transaction on it, a ring of two peers, runs of the
--                    locks.
--   Prelude          tests on numbers, maps and sets of the standard library, failed CHECKs.
--
-- A function that may abort the process by a failed CHECK returns `Checked`; one that draws times
-- threads the clock (`LogicalTime.Timed`). State is passed explicitly: a container, a chunk and a
-- delta are records, and an operation returns the new one. Maps are association lists, in whose
-- order the loops visit them. The write to a revision that a shared pointer lets others see is
-- returned with the container. Loops are structural recursions, but for the searches and the retries
-- of Chord, which run on fuel: 2 ^ 16 rounds are enough for a search, since each brings it closer to
-- the key, and keys have 16 bits. A search of the ring sees it at rest: no peer joins or leaves
-- between its requests. `std::hash` is a parameter there.
--
-- Delta/Committed is about the state that a commit leaves, Delta/Effect about what each time reads
-- of it, and Transaction/Isolation about the updates of which a transaction knows when it commits.
--
-- Not modelled: sockets, peers that join or leave the swarm of a chunk, caches, the push of new chunk
-- ids to the items that track chunks, the stabilisation thread of Chord, the texts and hashes of ids,
-- the requests of the spatial index, which repeat those of the net table index, the net table with
-- its manager, the hub, files and logs.
pub mod ChunkLock
pub mod Chord
pub mod ReaderWriter
pub mod Prelude
pub mod LogicalTime
pub mod Trackees
pub mod Revision
pub mod Spatial
pub mod TableIndex
pub mod Container
pub mod View
pub mod Chunk
pub mod Delta
pub mod Transaction
pub mod TableTransaction
pub mod Workspace
pub mod WholeTransaction
pub mod Tests
