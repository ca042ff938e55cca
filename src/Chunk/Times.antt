-- ===== src/Chunk/Times.antt =====
-- The update times of a chunk.
use map_api.Prelude.{
  ℕ, suc, ◌+◌, ◌<◌, ◌≡◌, ◌∙◌, ap, Option, none, some, [], ◌∷◌, if◌then◌else◌, arith,
}
use map_api.Prelude.Checked.{ok}
use map_api.Prelude.Map.{
  Map, Unique, find, has, emplace, find-emplace, has-emplace, Unique-emplace, find-none,
}
use map_api.LogicalTime.{u64, sample, pure, ◌>>=◌}
use map_api.LogicalTime.Steps.{timed-ok}
use map_api.LogicalTime.Lamport.{sample_lem}
use map_api.Revision.{Revision}
use map_api.Container
use map_api.Container.Ram.{get_by_id_impl}
use map_api.Container.Reads.{dump_lem}
use map_api.Chunk.{Chunk, update_times_of, get_update_times}

-- The update time of an item that is there.
abbrev pub time_of : Option Revision → Option ℕ
time_of none = none
time_of (some r) = some r.update_time

find-update_times_of :
    (j : ℕ) (items : Map Revision) (result : Map ℕ)
    → find j (update_times_of items result)
      ≡ (if has j result then find j result else time_of (find j items))
unfolding update_times_of find
find-update_times_of j [] result = ground (arith, find-none j result)
find-update_times_of j ((id, r) ∷ items) result = ground (
  arith,
  find-update_times_of j items (emplace id r.update_time result),
  find-emplace id j r.update_time result,
  has-emplace id j r.update_time result,
)

Unique-update_times_of :
    (items : Map Revision) (result : Map ℕ) → Unique result → Unique (update_times_of items result)
unfolding update_times_of
Unique-update_times_of [] result u = u
Unique-update_times_of ((id, r) ∷ items) result u =
    Unique-update_times_of items (emplace id r.update_time result)
      (Unique-emplace id r.update_time result u)

-- `getUpdateTimes` does not abort. It draws two times, and gives the update time of each item that
-- is there at the first of them.
pub get_update_times_lem :
    (chunk : Chunk) (clock : ℕ)
    → Unique chunk.container.data_
    → suc (suc clock) < u64
    → (times : Map ℕ) × (get_update_times chunk clock ≡ ok (times, clock + 2))
      × ((j : ℕ) → find j times ≡ time_of (get_by_id_impl j clock chunk.container.data_))
      × Unique times
unfolding get_update_times has
get_update_times_lem chunk clock u fits =
    let (items, e, found, unique, _) =
      dump_lem chunk.container clock (clock + 1) u (omega arith) (omega arith) in
    (
      update_times_of items [],
      timed-ok sample
            (λ now. Container.dump now chunk.container >>= λ m. pure (update_times_of m [])) clock
            (clock + 1) clock (sample_lem clock (omega arith))
          ∙ timed-ok (Container.dump clock chunk.container) (λ m. pure (update_times_of m []))
              (clock + 1) (clock + 1 + 1) items e
          ∙ ap (λ later. ok (update_times_of items [], later)) (omega arith),
      λ j. find-update_times_of j items [] ∙ ap time_of (found j),
      Unique-update_times_of items [] tt,
    )
