-- ===== src/Chunk/Writes.antt =====
-- What the locked writes of a chunk do to its data and send to its peers.
use map_api.Prelude.{ℕ, ◌≡◌, ◌∙◌, ap, sym, true, List, [], ◌∷◌, ◌++◌, arith}
use mathlib.Core.List.{append-nil, append_assoc}
use map_api.Prelude.Checked.{ok}
use map_api.Prelude.Map.{Map}
use map_api.Revision.{
  Revision, structure_match, is_valid_id, set_insert_time, set_update_time, set_removed,
  set_chunk_id,
}
use map_api.Container
use map_api.Container.{Container, sane, stamp_all}
use map_api.Container.Ram.{history_of}
use map_api.Container.History.{Below, has_time-above}
use map_api.Container.Writes.{patch_impl-with_revision}
use map_api.Container.Bulk.{write_all, write_all-append, Older, Older-with_revision, Batch}
use map_api.Delta.Commit.{update_all, remove_all}
use map_api.Chunk.{Chunk, Patch, update_request, update_locked, remove_locked}

-- The chunk with the revisions in their places, and with the messages sent.
abbrev pub written : List Revision → List Patch → Chunk → Chunk
written rs patches chunk = record chunk {
  container = record chunk.container { data_ = write_all rs chunk.container.data_ };
  sent = chunk.sent ++ patches;
}

-- The revision passes the checks of a write.
abbrev pub IsSane : Chunk → Revision → Type 0
IsSane chunk r = (structure_match r chunk.container.template ≡ true) × (is_valid_id r.id ≡ true)

-- The revision as an insertion, an update or a remove stores it.
abbrev pub as_inserted : ℕ → ℕ → Revision → Revision
as_inserted chunk_id time r = set_update_time time (set_insert_time time (set_chunk_id chunk_id r))

abbrev pub as_updated : ℕ → Revision → Revision
as_updated time r = set_update_time time r

abbrev pub as_removed : ℕ → Revision → Revision
as_removed time r = set_removed (set_update_time time r)

pub update_locked-written :
    (time : ℕ) (r : Revision) (chunk : Chunk)
    → IsSane chunk r
    → chunk.id ≡ r.chunk_id
    → Below time (history_of r.id chunk.container.data_)
    → update_locked time r chunk
      ≡ ok (written (as_updated time r ∷ []) (update_request (as_updated time r) ∷ []) chunk)
unfolding update_locked Container.update write_all
update_locked-written time r chunk s c b = ground (
  arith,
  s.0,
  s.1,
  patch_impl-with_revision (as_updated time r) chunk.container.data_
      (has_time-above time (history_of r.id chunk.container.data_) b),
)

pub remove_locked-written :
    (time : ℕ) (r : Revision) (chunk : Chunk)
    → IsSane chunk r
    → chunk.id ≡ r.chunk_id
    → Below time (history_of r.id chunk.container.data_)
    → remove_locked time r chunk
      ≡ ok (written (as_removed time r ∷ []) (update_request (as_removed time r) ∷ []) chunk)
unfolding remove_locked Container.remove write_all
remove_locked-written time r chunk s c b = ground (
  arith,
  s.0,
  s.1,
  patch_impl-with_revision (as_removed time r) chunk.container.data_
      (has_time-above time (history_of r.id chunk.container.data_) b),
)

-- The revisions of a map as they are stored.
abbrev pub stamps : (Revision → Revision) → Map Revision → List Revision
stamps f [] = []
stamps f ((id, r) ∷ m) = f r ∷ stamps f m

-- The messages about them.
abbrev pub requests : (Revision → Patch) → List Revision → List Patch
requests f [] = []
requests f (r ∷ rs) = f r ∷ requests f rs

-- The entries of a map can be updated or removed in the chunk.
abbrev pub AllReady : Chunk → Map Revision → Type 0
AllReady chunk [] = Unit {0}
AllReady chunk ((id, r) ∷ m) =
    (r.id ≡ id) × IsSane chunk r × (chunk.id ≡ r.chunk_id) × AllReady chunk m

-- The entries of a map can be inserted into the chunk.
abbrev pub AllSane : Chunk → Map Revision → Type 0
AllSane chunk [] = Unit {0}
AllSane chunk ((id, r) ∷ m) = (r.id ≡ id) × IsSane chunk r × AllSane chunk m

pub written-written :
    (xs ys : List Revision) (ps qs : List Patch) (chunk : Chunk)
    → written ys qs (written xs ps chunk) ≡ written (xs ++ ys) (ps ++ qs) chunk
written-written xs ys ps qs chunk i = record chunk {
  container = record chunk.container {
    data_ = sym (write_all-append xs ys chunk.container.data_) i;
  };
  sent = append_assoc chunk.sent ps qs i;
}

pub update_all-written :
    (T : ℕ) (m : Map Revision) (chunk : Chunk)
    → AllReady chunk m
    → Batch T (stamps (as_updated T) m)
    → Older (stamps (as_updated T) m) chunk.container.data_
    → update_all T m chunk
      ≡ ok (
          written
            (stamps (as_updated T) m)
            (requests update_request (stamps (as_updated T) m))
            chunk)
unfolding update_all write_all
update_all-written T [] chunk ready batch older =
    ap ok (λ i. record chunk { sent = sym (append-nil chunk.sent) i })
update_all-written T ((id, r) ∷ m) chunk ready batch older =
    let q = as_updated T r in
    let chunk' = written (q ∷ []) (update_request q ∷ []) chunk in
    let rest = stamps (as_updated T) m in
    rw (update_locked-written T r chunk ready.1 ready.2 older.0) (
      update_all-written T m chunk' ready.3 batch.2
        (Older-with_revision q rest chunk.container.data_ batch.1 older.1)
      ∙ ap ok (
          written-written (q ∷ []) rest (update_request q ∷ []) (requests update_request rest)
            chunk))

pub remove_all-written :
    (T : ℕ) (m : Map Revision) (chunk : Chunk)
    → AllReady chunk m
    → Batch T (stamps (as_removed T) m)
    → Older (stamps (as_removed T) m) chunk.container.data_
    → remove_all T m chunk
      ≡ ok (
          written
            (stamps (as_removed T) m)
            (requests update_request (stamps (as_removed T) m))
            chunk)
unfolding remove_all write_all
remove_all-written T [] chunk ready batch older =
    ap ok (λ i. record chunk { sent = sym (append-nil chunk.sent) i })
remove_all-written T ((id, r) ∷ m) chunk ready batch older =
    let q = as_removed T r in
    let chunk' = written (q ∷ []) (update_request q ∷ []) chunk in
    let rest = stamps (as_removed T) m in
    rw (remove_locked-written T r chunk ready.1 ready.2 older.0) (
      remove_all-written T m chunk' ready.3 batch.2
        (Older-with_revision q rest chunk.container.data_ batch.1 older.1)
      ∙ ap ok (
          written-written (q ∷ []) rest (update_request q ∷ []) (requests update_request rest)
            chunk))
