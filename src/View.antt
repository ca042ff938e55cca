-- ===== src/View.antt =====
-- The views of a chunk's items on which transactions are built: map-api/src/internal/chunk-view.cc,
-- commit-history-view.cc, combined-view.cc and commit-future.cc. A view holds a reference to its
-- chunk and reads it at each call, so a view here is made over the chunk's container of that call.
pub mod Shows
pub mod Combined
pub mod Dump
pub mod Updates
pub mod Ids
use map_api.Prelude.{
  ℕ, Bool, true, false, not, Option, none, some, List, [], ◌∷◌, leb, ◌==◌, if◌then◌else◌, is_some,
}
use map_api.Prelude.Checked
use map_api.Prelude.Checked.{Checked, ok, fatal, ◌>>=◌}
use map_api.Prelude.Map.{Map, find, emplace, erase, insert_range}
use map_api.LogicalTime.{Timed, lift, sample}
use map_api.Revision.{Revision}
use map_api.Container
use map_api.Container.{Container, get_by_id}
use map_api.Container.Ram.{available_ids_impl}

-- `ViewBase`. `update_times` is what `UpdateTimes` is: the latest update time of each item.
pub record ViewBase : Type 0 where
  pub has : ℕ → Checked Bool
  pub get : ℕ → Checked (Option Revision)
  pub dump : Timed (Map Revision)
  pub get_available_ids : Checked (List ℕ)
  pub discard_known_updates : Map ℕ → Checked (Map ℕ)

-- `OverridingViewBase`
pub record OverridingView : Type 0 where
  pub view : ViewBase
  pub open view use *
  pub suppresses : ℕ → Checked Bool

-- `static_cast<bool>` of a pointer that a lookup returns
unfoldable pub found : Checked (Option Revision) → Checked Bool
found r = r >>= λ item. ok (is_some item)

-- The loop of `ChunkView::discardKnownUpdates`.
unfoldable pub discard_until : ℕ → Map ℕ → Map ℕ
discard_until view_time [] = []
discard_until view_time ((id, time) ∷ update_times) =
    let rest = discard_until view_time update_times in
    if leb time view_time then rest else (id, time) ∷ rest

unfoldable pub chunk_view : Container → ℕ → ViewBase
unfolding found discard_until
chunk_view chunk view_time = record {
  has = λ id. found (get_by_id id view_time chunk);
  get = λ id. get_by_id id view_time chunk;
  dump = Container.dump view_time chunk;
  get_available_ids = ok (available_ids_impl view_time chunk.data_);
  discard_known_updates = λ update_times. ok (discard_until view_time update_times);
}

-- `CommitHistoryView::get`: the item as this transaction last committed it.
unfoldable pub get_committed : Option ℕ → ℕ → Container → Checked (Option Revision)
get_committed none id chunk = ok none
get_committed (some time) id chunk = get_by_id id time chunk

unfoldable pub history_get : Map ℕ → Container → ℕ → Checked (Option Revision)
unfolding get_committed
history_get commit_history chunk id = get_committed (find id commit_history) id chunk

put_if_found : ℕ → Option Revision → Map Revision → Map Revision
put_if_found id none result = result
put_if_found id (some item) result = emplace id item result

unfoldable pub history_dump : Map ℕ → Container → Map ℕ → Map Revision → Checked (Map Revision)
unfolding history_get put_if_found
history_dump commit_history chunk [] result = ok result
history_dump commit_history chunk ((id, time) ∷ rest) result =
    history_get commit_history chunk id >>= λ item.
    history_dump commit_history chunk rest (put_if_found id item result)

unfoldable pub history_ids : Map ℕ → Container → Map ℕ → Checked (List ℕ)
unfolding history_get
history_ids commit_history chunk [] = ok []
history_ids commit_history chunk ((id, time) ∷ rest) =
    history_get commit_history chunk id >>= λ item.
    history_ids commit_history chunk rest >>= λ ids. ok (if is_some item then id ∷ ids else ids)

-- One round of `CommitHistoryView::discardKnownUpdates`.
discard_known : ℕ → ℕ → Option ℕ → Map ℕ → Map ℕ
discard_known id known none update_times = update_times
discard_known id known (some time) update_times =
    if leb time known then erase id update_times else update_times

unfoldable pub discard_committed : Map ℕ → Map ℕ → Map ℕ
unfolding discard_known
discard_committed [] update_times = update_times
discard_committed ((id, known) ∷ history) update_times =
    discard_committed history (discard_known id known (find id update_times) update_times)

-- `CommitHistoryView::suppresses`: this transaction removed the item.
unfoldable pub suppresses_committed : Option ℕ → ℕ → Container → Checked Bool
suppresses_committed none id chunk = ok false
suppresses_committed (some time) id chunk =
    get_by_id id time chunk >>= λ item. ok (not (is_some item))

unfoldable pub history_suppresses : Map ℕ → Container → ℕ → Checked Bool
unfolding suppresses_committed
history_suppresses commit_history chunk id = suppresses_committed (find id commit_history) id chunk

unfoldable pub commit_history_view : Map ℕ → Container → OverridingView
unfolding found history_get history_dump history_ids discard_committed history_suppresses
commit_history_view commit_history chunk = record {
  view = record {
    has = λ id. found (history_get commit_history chunk id);
    get = history_get commit_history chunk;
    dump = lift (history_dump commit_history chunk commit_history []);
    get_available_ids = history_ids commit_history chunk commit_history;
    discard_known_updates = λ update_times. ok (discard_committed commit_history update_times);
  };
  suppresses = history_suppresses commit_history chunk;
}

-- `CommitFuture`, over `chunk_state_`. It is a view that must not be committed against.
unfoldable pub commit_future_view : Map Revision → ViewBase
commit_future_view chunk_state = record {
  has = λ id. ok (is_some (find id chunk_state));
  get = λ id. ok (find id chunk_state);
  dump = lift (ok (insert_range [] chunk_state));
  get_available_ids = ok (ids_of chunk_state);
  discard_known_updates = λ update_times. fatal;
}
  where
    ids_of : Map Revision → List ℕ
    ids_of [] = []
    ids_of ((id, r) ∷ rest) = id ∷ ids_of rest
