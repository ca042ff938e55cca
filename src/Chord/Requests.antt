-- ===== src/Chord/Requests.antt =====
-- map-api/src/net-table-index.cc: the requests between the peers of the ring, and their dispatch to
-- the handlers. A message that the source would have to parse is a constructor with its fields.
use map_api.Prelude.{ℕ, Bool, true, false, Option, none, some, List}
use map_api.Prelude.Checked.{Checked, ok, ◌>>=◌}
use map_api.Prelude.Map.{Map}
use map_api.Chord.{Config, Node}
use map_api.Chord.Handlers.{
  handle_get_closest_preceding_finger, handle_get_successor, handle_get_predecessor, handle_lock,
  handle_unlock, handle_notify, handle_replace, handle_add_data, handle_retrieve_data,
  handle_fetch_responsibilities, handle_push_responsibilities,
}

pub data Request : Type 0 where
  get_closest_preceding_finger_request : ℕ → Request
  get_successor_request : Request
  get_predecessor_request : Request
  lock_request : Request
  unlock_request : Request
  notify_request : ℕ → Request
  replace_request : ℕ → ℕ → Request
  add_data_request : ℕ → List ℕ → Request
  retrieve_data_request : ℕ → Request
  fetch_responsibilities_request : Request
  push_responsibilities_request : Map (List ℕ) → Request

pub data Response : Type 0 where
  ack : Response
  decline : Response
  peer_response : ℕ → Response
  retrieve_data_response : List ℕ → Response
  fetch_responsibilities_response : Map (List ℕ) → Response

unfoldable pub acked : Bool × Node → Response × Node
acked (true, n) = (ack, n)
acked (false, n) = (decline, n)

unfoldable pub retrieved : Option (List ℕ) → Response
retrieved (some value) = retrieve_data_response value
retrieved none = decline

-- `config sender request node`
unfoldable pub handle_routed_request : Config → ℕ → Request → Node → Checked (Response × Node)
unfolding acked retrieved
handle_routed_request c sender (get_closest_preceding_finger_request key) n =
    ok (peer_response (handle_get_closest_preceding_finger key n), n)
handle_routed_request c sender get_successor_request n =
    ok (peer_response (handle_get_successor n), n)
handle_routed_request c sender get_predecessor_request n =
    ok (peer_response (handle_get_predecessor n), n)
handle_routed_request c sender lock_request n = ok (acked (handle_lock sender n))
handle_routed_request c sender unlock_request n = ok (acked (handle_unlock sender n))
handle_routed_request c sender (notify_request peer) n =
    handle_notify c peer n >>= λ outcome. ok (acked outcome)
handle_routed_request c sender (replace_request old_peer new_peer) n =
    handle_replace c old_peer new_peer n >>= λ outcome. ok (acked outcome)
handle_routed_request c sender (add_data_request key value) n =
    handle_add_data key value n >>= λ outcome. ok (acked outcome)
handle_routed_request c sender (retrieve_data_request key) n =
    handle_retrieve_data key n >>= λ found. ok (retrieved found, n)
handle_routed_request c sender fetch_responsibilities_request n =
    handle_fetch_responsibilities c sender n >>= λ items.
    ok (fetch_responsibilities_response items, n)
handle_routed_request c sender (push_responsibilities_request items) n =
    handle_push_responsibilities items n >>= λ outcome. ok (acked outcome)
