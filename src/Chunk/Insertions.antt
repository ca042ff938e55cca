-- ===== src/Chunk/Insertions.antt =====
-- The insertions of a commit: what `bulkInsertLocked` does to a chunk that knows none of the ids.
use map_api.Prelude.{ℕ, ◌≡◌, ◌∙◌, refl, ap, sym, false, none, List, [], ◌∷◌, arith}
use map_api.Prelude.Checked.{ok}
use map_api.Prelude.Map.{Map, Unique, find, has, assign, has-assign, find-none}
use map_api.Revision.{Revision, structure_match}
use map_api.Container
use map_api.Container.{Container, sane, stamp_all}
use map_api.Container.Ram.{
  HistoryMap, history_of, history_from, any_known, push_all, bulk_insert_impl,
}
use map_api.Container.History.{placed}
use map_api.Container.Writes.{with_revision}
use map_api.Container.Bulk.{write_all}
use map_api.Chunk.{Chunk, insert_request, insert_requests, set_chunk_ids, bulk_insert_locked}
use map_api.Chunk.Writes.{written, as_inserted, stamps, requests, AllSane}

-- The map that `bulkInsert` hands to `bulkInsertImpl`.
stamped_map : (Revision → Revision) → Map Revision → Map Revision
stamped_map f [] = []
stamped_map f ((id, r) ∷ m) = (id, f r) ∷ stamped_map f m

stamp_all-stamped :
    (T : ℕ) (chunk : Chunk) (m : Map Revision)
    → AllSane chunk m
    → stamp_all T chunk.container (set_chunk_ids chunk.id m)
      ≡ ok (stamped_map (as_inserted chunk.id T) m)
unfolding stamp_all set_chunk_ids stamped_map structure_match
stamp_all-stamped T chunk [] s = refl
stamp_all-stamped T chunk ((id, r) ∷ m) s =
    ground (arith, s.0, s.1, stamp_all-stamped T chunk m s.2)

-- None of the ids of the map is in the container.
abbrev pub AllUnknown : Map Revision → HistoryMap → Type 0
AllUnknown [] data_ = Unit {0}
AllUnknown ((id, r) ∷ m) data_ = (has id data_ ≡ false) × AllUnknown m data_

pub AllUnknown-assign :
    (id : ℕ) (h : List Revision) (m : Map Revision) (data_ : HistoryMap)
    → has id m ≡ false
    → AllUnknown m data_
    → AllUnknown m (assign id h data_)
unfolding has
AllUnknown-assign id h [] data_ f u = tt
AllUnknown-assign id h ((j, r) ∷ m) data_ f u = (
  ground (arith, has-assign id j h data_, u.0),
  AllUnknown-assign id h m data_ (ground arith) u.1,
)

any_known-stamped :
    (f : Revision → Revision) (m : Map Revision) (data_ : HistoryMap)
    → AllUnknown m data_
    → any_known (stamped_map f m) data_ ≡ false
unfolding any_known stamped_map
any_known-stamped f [] data_ u = refl
any_known-stamped f ((id, r) ∷ m) data_ u = ground (arith, u.0, any_known-stamped f m data_ u.1)

with_revision-new :
    (q : Revision) (data_ : HistoryMap)
    → find q.id data_ ≡ none
    → with_revision q data_ ≡ assign q.id (q ∷ []) data_
unfolding with_revision history_of placed
with_revision-new q data_ e = rw e refl

no_history : (id : ℕ) (data_ : HistoryMap) → has id data_ ≡ false → history_of id data_ ≡ []
unfolding history_of
no_history id data_ n = ap history_from (find-none id data_ n)

push_all-stamped :
    (T : ℕ) (chunk : Chunk) (m : Map Revision) (data_ : HistoryMap)
    → AllSane chunk m
    → Unique m
    → AllUnknown m data_
    → push_all (stamped_map (as_inserted chunk.id T) m) data_
      ≡ write_all (stamps (as_inserted chunk.id T) m) data_
unfolding push_all stamped_map write_all has
push_all-stamped T chunk [] data_ s u n = refl
push_all-stamped T chunk ((id, r) ∷ m) data_ s u n =
    let q = as_inserted chunk.id T r in
    let rest = stamps (as_inserted chunk.id T) m in
    let e : find r.id data_ ≡ none = ap (λ i. find i data_) s.0 ∙ find-none id data_ n.0 in
    ap (λ h. push_all (stamped_map (as_inserted chunk.id T) m) (assign id (q ∷ h) data_))
      (no_history id data_ n.0)
    ∙ ap (λ i. push_all (stamped_map (as_inserted chunk.id T) m) (assign i (q ∷ []) data_))
        (sym s.0)
    ∙ push_all-stamped T chunk m (assign r.id (q ∷ []) data_) s.2 u.1
        (AllUnknown-assign r.id (q ∷ []) m data_ (ap (λ i. has i m) s.0 ∙ u.0) n.1)
    ∙ ap (write_all rest) (sym (with_revision-new q data_ e))

insert_requests-stamped :
    (f : Revision → Revision) (m : Map Revision)
    → insert_requests (stamped_map f m) ≡ requests insert_request (stamps f m)
unfolding insert_requests stamped_map
insert_requests-stamped f [] = refl
insert_requests-stamped f ((id, r) ∷ m) =
    ap (λ l. insert_request (f r) ∷ l) (insert_requests-stamped f m)

-- The insertions are stored with the chunk's id and the time, and sent.
pub bulk_insert_locked-written :
    (T : ℕ) (m : Map Revision) (chunk : Chunk)
    → AllSane chunk m
    → Unique m
    → AllUnknown m chunk.container.data_
    → bulk_insert_locked m T chunk
      ≡ ok (
          written
            (stamps (as_inserted chunk.id T) m)
            (requests insert_request (stamps (as_inserted chunk.id T) m))
            chunk)
unfolding bulk_insert_locked Container.bulk_insert bulk_insert_impl
bulk_insert_locked-written T m chunk s u n = rw (stamp_all-stamped T chunk m s) (
    rw (any_known-stamped (as_inserted chunk.id T) m chunk.container.data_ n) (
      rw (push_all-stamped T chunk m chunk.container.data_ s u n)
        (rw (insert_requests-stamped (as_inserted chunk.id T) m) refl)))
