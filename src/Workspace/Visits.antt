-- ===== src/Workspace/Visits.antt =====
-- The loop over the chunks of a workspace, against its test of one chunk.
use map_api.Prelude.{ℕ, ◌≡◌, refl, true, not, Option, none, some, List, [], ◌∷◌, ◌&&◌, arith, ap}
use map_api.Prelude.Map.{find}
use map_api.Prelude.IdSet.{contains}
use map_api.Trackees.{Trackees}
use map_api.Workspace.{
  Workspace, is_empty, is_blacklisted, is_allowed, contains_chunk, contains_table, visit,
  candidates, for_each_chunk,
}

is_blacklisted_eq :
    (k j : ℕ) (o : Option (List ℕ)) → k ≡ j → is_blacklisted k o ≡ is_blacklisted j o
is_blacklisted_eq k j o e = ap (λ i. is_blacklisted i o) e

contains-visit :
    (k : ℕ) (black : Option (List ℕ)) (ids : List ℕ)
    → contains k (visit black ids) ≡ (contains k ids && not (is_blacklisted k black))
unfolding visit contains
contains-visit k black [] = refl
contains-visit k black (id ∷ ids) =
    ground (arith, contains-visit k black ids, is_blacklisted_eq id k black)

contains-candidates :
    (k : ℕ) (white : Option (List ℕ)) (active : List ℕ)
    → contains k active ≡ true
    → contains k (candidates white active) ≡ is_allowed k white
unfolding candidates is_allowed contains
contains-candidates k none active h = h
contains-candidates k (some []) active h = h
contains-candidates k (some (id ∷ ids)) active h = refl

is_empty-find : (k : ℕ) (m : Trackees) → is_empty m ≡ true → find k m ≡ none
unfolding find
is_empty-find k [] h = refl
is_empty-find k (entry ∷ m) h = cc

-- Of the active chunks of a table, `forEachChunk` visits exactly those that the workspace contains.
pub contains-for_each_chunk :
    (w : Workspace) (table k : ℕ) (active : List ℕ)
    → contains k active ≡ true
    → contains k (for_each_chunk w table active) ≡ contains_chunk w table k
unfolding for_each_chunk contains_chunk contains_table is_blacklisted is_allowed contains
contains-for_each_chunk w table k active h = ground (
  arith,
  contains-visit k (find table w.chunk_blacklist)
      (candidates (find table w.chunk_whitelist) active),
  contains-candidates k (find table w.chunk_whitelist) active h,
  is_empty-find table w.chunk_blacklist,
  is_empty-find table w.chunk_whitelist,
)
