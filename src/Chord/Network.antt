-- ===== src/Chord/Network.antt =====
-- map-api/src/net-table-index.cc: the calls of the other peers of the ring. The network is a map
-- from the peers that can be reached to their indices; a request to any other peer fails.
use map_api.Prelude.{ℕ, Bool, true, false, Option, none, some, List, []}
use map_api.Prelude.Checked.{Checked, ok, fatal, ◌>>=◌}
use map_api.Prelude.Map.{Map, find, assign, insert_range}
use map_api.Chord.{Config, Node}
use map_api.Chord.Handlers.{overwrite}
use map_api.Chord.Requests.{
  Request, Response, get_closest_preceding_finger_request, get_successor_request,
  get_predecessor_request, lock_request, unlock_request, notify_request, replace_request,
  add_data_request, retrieve_data_request, fetch_responsibilities_request,
  push_responsibilities_request, ack, decline, peer_response, retrieve_data_response,
  fetch_responsibilities_response, handle_routed_request,
}

abbrev pub Network : Type 0
Network = Map Node

-- A declined request fails.
unfoldable pub accepted : Response → Option Response
accepted decline = none
accepted ack = some ack
accepted (peer_response peer) = some (peer_response peer)
accepted (retrieve_data_response value) = some (retrieve_data_response value)
accepted (fetch_responsibilities_response items) = some (fetch_responsibilities_response items)

-- `rpc`, from `self` to `to`.
unfoldable pub rpc : Config → ℕ → ℕ → Request → Network → Checked (Option Response × Network)
unfolding accepted
rpc c self to request net = elim (find to net) [
  | none ↦ ok (none, net)
  | some n ↦ handle_routed_request c self request n >>= λ (response, n').
      ok (accepted response, assign to n' net)
]

-- What the callers make of the response: a response of another type aborts.
unfoldable pub expect_ack : Option Response × Network → Checked (Bool × Network)
expect_ack (none, net) = ok (false, net)
expect_ack (some ack, net) = ok (true, net)
expect_ack (some response, net) = fatal

unfoldable pub expect_peer : Option Response × Network → Checked (Option ℕ × Network)
expect_peer (none, net) = ok (none, net)
expect_peer (some (peer_response peer), net) = ok (some peer, net)
expect_peer (some response, net) = fatal

unfoldable pub expect_value : Option Response × Network → Checked (Option (List ℕ) × Network)
expect_value (none, net) = ok (none, net)
expect_value (some (retrieve_data_response value), net) = ok (some value, net)
expect_value (some response, net) = fatal

-- The items are emplaced into the map of the caller.
unfoldable pub expect_items :
    Map (List ℕ) → Option Response × Network → Checked (Option (Map (List ℕ)) × Network)
expect_items responsibilities (none, net) = ok (none, net)
expect_items responsibilities (some (fetch_responsibilities_response items), net) =
    ok (some (insert_range responsibilities items), net)
expect_items responsibilities (some response, net) = fatal

module _ (c : Config) (self : ℕ) where
  unfoldable pub get_closest_preceding_finger_rpc : ℕ → ℕ → Network → Checked (Option ℕ × Network)
  unfolding expect_peer
  get_closest_preceding_finger_rpc to key net =
      rpc c self to (get_closest_preceding_finger_request key) net >>= expect_peer

  unfoldable pub get_successor_rpc : ℕ → Network → Checked (Option ℕ × Network)
  unfolding expect_peer
  get_successor_rpc to net = rpc c self to get_successor_request net >>= expect_peer

  unfoldable pub get_predecessor_rpc : ℕ → Network → Checked (Option ℕ × Network)
  unfolding expect_peer
  get_predecessor_rpc to net = rpc c self to get_predecessor_request net >>= expect_peer

  unfoldable pub lock_rpc : ℕ → Network → Checked (Bool × Network)
  unfolding expect_ack
  lock_rpc to net = rpc c self to lock_request net >>= expect_ack

  unfoldable pub unlock_rpc : ℕ → Network → Checked (Bool × Network)
  unfolding expect_ack
  unlock_rpc to net = rpc c self to unlock_request net >>= expect_ack

  unfoldable pub notify_rpc : ℕ → ℕ → Network → Checked (Bool × Network)
  unfolding expect_ack
  notify_rpc to subject net = rpc c self to (notify_request subject) net >>= expect_ack

  unfoldable pub replace_rpc : ℕ → ℕ → ℕ → Network → Checked (Bool × Network)
  unfolding expect_ack
  replace_rpc to old_peer new_peer net =
      rpc c self to (replace_request old_peer new_peer) net >>= expect_ack

  unfoldable pub add_data_rpc : ℕ → ℕ → List ℕ → Network → Checked (Bool × Network)
  unfolding expect_ack
  add_data_rpc to key value net = rpc c self to (add_data_request key value) net >>= expect_ack

  unfoldable pub retrieve_data_rpc : ℕ → ℕ → Network → Checked (Option (List ℕ) × Network)
  unfolding expect_value
  retrieve_data_rpc to key net = rpc c self to (retrieve_data_request key) net >>= expect_value

  unfoldable pub fetch_responsibilities_rpc :
      ℕ → Map (List ℕ) → Network → Checked (Option (Map (List ℕ)) × Network)
  unfolding expect_items
  fetch_responsibilities_rpc to responsibilities net =
      rpc c self to fetch_responsibilities_request net >>= expect_items responsibilities

  -- The request is built and read back with `overwrite`, into a map that is empty.
  unfoldable pub push_responsibilities_rpc : ℕ → Map (List ℕ) → Network → Checked (Bool × Network)
  unfolding expect_ack
  push_responsibilities_rpc to responsibilities net =
      rpc c self to (push_responsibilities_request (overwrite [] responsibilities)) net
      >>= expect_ack
