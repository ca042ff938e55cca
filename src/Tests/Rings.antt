-- ===== src/Tests/Rings.antt =====
-- The ring of the peers 1 and 2, with the keys 100 and 40000, and peer 3, with the key 200, that
-- joins and leaves it.
use map_api.Prelude.{
  ℕ, zero, suc, ◌+◌, ◌*◌, ◌≡◌, refl, Bool, true, false, Option, none, some, List, [], ◌∷◌, ◌==◌,
  ltb, ◌||◌, if◌then◌else◌, arith,
}
use map_api.Prelude.Checked.{Checked, ok, fatal}
use map_api.Prelude.Map.{find}
use map_api.Chord.{Config, hash_peer, hash_string, is_in, clean_join, chord_peer, Node}
use map_api.Chord.Network.{Network}
use map_api.Chord.Ring.{IsRing, IsLinked, IsRing-AllNodes}
use map_api.Chord.Termination.{find_predecessor-IsPredecessor, IsPredecessor}
use map_api.Chord.Lookup.{find_predecessor, add_data, retrieve_data}
use map_api.Chord.RoundTrip.{retrieve_data-add_data}
use map_api.Chord.NodeLocks.{Attempt, try_lock_in_order}
use map_api.Chord.AllOrNothing.{IsAllOrNothing, try_lock_in_order-IsAllOrNothing}
use map_api.Chord.Handlers.{handle_fetch_responsibilities, handle_replace}
use map_api.Chord.Handover.{handle_fetch_responsibilities-find}
use map_api.Chord.Membership.{join, leave}

abbrev pub key_of : ℕ → ℕ
key_of peer = if peer == 1 then 100 else if peer == 2 then 40000 else 200

abbrev pub a_config : Config
a_config = record { std_hash_peer = key_of; std_hash_string = λ key. key; join_mode = clean_join }

abbrev pub a_node : ℕ → ℕ → ℕ → Node
a_node self successor predecessor = record {
  self = self;
  own_key = key_of self;
  base_keys = [];
  successor = record { id = successor; key = key_of successor };
  predecessor = record { id = predecessor; key = key_of predecessor };
  peers = [];
  data_ = [];
  node_locked = false;
  node_lock_holder = 0;
  initialized = true;
  terminate = false;
  integrated = true;
  integrate_threads = 0;
  peer_lock_readers = 0;
  local_updates = [];
}

abbrev pub second_node : Node
second_node = record (a_node 2 1 1) { data_ = (150, 7 ∷ []) ∷ (300, 8 ∷ []) ∷ [] }

abbrev pub two_peers : Network
two_peers = (1, a_node 1 2 2) ∷ (2, second_node) ∷ []

pub first_found : find 1 two_peers ≡ some (a_node 1 2 2)
unfolding find
first_found = refl

second_found : find 2 two_peers ≡ some second_node
unfolding find
second_found = refl

pub two_peers-IsRing : IsRing a_config two_peers
unfolding find hash_peer is_in
two_peers-IsRing =
    IsRing-AllNodes a_config two_peers
      (
        linked 1 (a_node 1 2 2) second_node refl refl refl refl refl,
        (linked 2 second_node (a_node 1 2 2) refl refl refl refl refl, tt),
      )
      ((refl, (refl, tt)), ((refl, (refl, tt)), tt))
  where
    linked :
        (p : ℕ) (n m : Node)
        → n.self ≡ p
        → n.own_key ≡ hash_peer a_config p
        → n.successor.key ≡ hash_peer a_config n.successor.id
        → n.initialized ≡ true
        → find n.successor.id two_peers ≡ some m
        → IsLinked a_config two_peers p n
    linked p n m e k s up f = record {
      self_eq = e;
      own_key_eq = k;
      successor_key_eq = s;
      is_initialized = up;
      successor_found = (m, f);
    }

find_predecessor-IsPredecessor_example :
    (p : ℕ) × (find_predecessor a_config 1 50000 1 65536 two_peers ≡ ok (some p, two_peers))
    × IsPredecessor 50000 two_peers p
find_predecessor-IsPredecessor_example =
    find_predecessor-IsPredecessor a_config 1 50000 0 65536 two_peers (a_node 1 2 2) (omega arith)
      two_peers-IsRing first_found (omega arith)

retrieve_data-add_data_example :
    (net' : Network) × (before : Option (List ℕ)) × (add_data a_config 1 1 65536 150
        (9 ∷ [])
        two_peers
      ≡ ok (some true, net'))
    × (retrieve_data a_config 2 1 65536 150 two_peers ≡ ok (some before, two_peers))
    × (retrieve_data a_config 2 1 65536 150 net'
        ≡ ok (some (if 150 == 150 then some (9 ∷ []) else before), net'))
retrieve_data-add_data_example =
    retrieve_data-add_data a_config 1 2 150 150 0 65536 0 65536 (9 ∷ []) two_peers (a_node 1 2 2)
      second_node two_peers-IsRing first_found second_found (omega arith) (omega arith)

try_lock_in_order-IsAllOrNothing_example :
    (result : Attempt × Network) × (try_lock_in_order a_config 1 (2 ∷ 1 ∷ 2 ∷ []) two_peers
      ≡ ok result)
    × IsAllOrNothing 1 (2 ∷ 1 ∷ 2 ∷ []) two_peers result
try_lock_in_order-IsAllOrNothing_example =
    try_lock_in_order-IsAllOrNothing a_config 1 (2 ∷ 1 ∷ 2 ∷ []) two_peers (a_node 1 2 2)
      first_found

handle_fetch_responsibilities-find_example :
    (items : List (ℕ × List ℕ)) × (handle_fetch_responsibilities a_config 3 second_node ≡ ok items)
    × (find 150 items ≡ (
        if is_in (hash_string a_config 150) 100 (hash_peer a_config 3)
        then find 150 second_node.data_
        else none))
unfolding hash_string hash_peer is_in
handle_fetch_responsibilities-find_example =
    handle_fetch_responsibilities-find a_config 100 3 150 second_node (omega arith) (omega arith)
      refl (refl, (refl, tt)) refl refl

-- Peer 3 takes over the key 150.
abbrev new_peer : Network
new_peer = (3, record (a_node 3 3 3) { initialized = false; integrated = false }) ∷ two_peers

-- What one peer's data are.
abbrev data_of : ℕ → Checked (Option Network) → Option (ℕ × List (ℕ × List ℕ))
data_of p fatal = none
data_of p (ok none) = none
data_of p (ok (some net)) = elim (find p net) [
  | none ↦ none
  | some n ↦ some (n.successor.id, n.data_)
]

joined : data_of 3 (join a_config 3 1 10 new_peer) ≡ some (2, (150, 7 ∷ []) ∷ [])
unfolding map_api.Chord.hash_peer map_api.Chord.hash_string map_api.Chord.is_in
    map_api.Chord.chord_peer map_api.Chord.wait_until_initialized
    map_api.Chord.closest_preceding_finger map_api.Chord.finger_base_keys map_api.Chord.init
    map_api.Chord.create map_api.Chord.register_successor map_api.Chord.register_predecessor
    map_api.Chord.add_data_locally map_api.Chord.retrieve_data_locally
    map_api.Chord.Handlers.handle_get_closest_preceding_finger
    map_api.Chord.Handlers.handle_get_successor map_api.Chord.Handlers.handle_get_predecessor
    map_api.Chord.Handlers.handle_lock map_api.Chord.Handlers.handle_unlock
    map_api.Chord.Handlers.notify_successor map_api.Chord.Handlers.notify_predecessor
    map_api.Chord.Handlers.handle_notify_common map_api.Chord.Handlers.handle_notify_clean
    map_api.Chord.Handlers.start_integration map_api.Chord.Handlers.handle_notify_stabilize
    map_api.Chord.Handlers.handle_notify map_api.Chord.Handlers.replace_neighbors
    map_api.Chord.Handlers.acquire_read_lock map_api.Chord.Handlers.release_read_lock
    map_api.Chord.Handlers.handle_replace map_api.Chord.Handlers.handle_add_data
    map_api.Chord.Handlers.handle_retrieve_data map_api.Chord.Handlers.collect
    map_api.Chord.Handlers.handle_fetch_responsibilities map_api.Chord.Handlers.overwrite
    map_api.Chord.Handlers.handle_push_responsibilities map_api.Chord.Requests.acked
    map_api.Chord.Requests.retrieved map_api.Chord.Requests.handle_routed_request
    map_api.Chord.Network.accepted map_api.Chord.Network.rpc map_api.Chord.Network.expect_ack
    map_api.Chord.Network.expect_peer map_api.Chord.Network.expect_value
    map_api.Chord.Network.expect_items map_api.Chord.Network.get_closest_preceding_finger_rpc
    map_api.Chord.Network.get_successor_rpc map_api.Chord.Network.get_predecessor_rpc
    map_api.Chord.Network.lock_rpc map_api.Chord.Network.unlock_rpc map_api.Chord.Network.notify_rpc
    map_api.Chord.Network.replace_rpc map_api.Chord.Network.add_data_rpc
    map_api.Chord.Network.retrieve_data_rpc map_api.Chord.Network.fetch_responsibilities_rpc
    map_api.Chord.Network.push_responsibilities_rpc map_api.Chord.Lookup.own_node
    map_api.Chord.Lookup.walk map_api.Chord.Lookup.find_predecessor_round
    map_api.Chord.Lookup.find_predecessor map_api.Chord.Lookup.find_successor
    map_api.Chord.Lookup.add_data_at map_api.Chord.Lookup.add_data
    map_api.Chord.Lookup.retrieve_data_at map_api.Chord.Lookup.retrieve_data
    map_api.Chord.NodeLocks.acknowledged map_api.Chord.NodeLocks.insert_by_hash
    map_api.Chord.NodeLocks.sort_by_hash map_api.Chord.NodeLocks.skip_equal
    map_api.Chord.NodeLocks.unique map_api.Chord.NodeLocks.lock_order
    map_api.Chord.NodeLocks.attempt_of map_api.Chord.NodeLocks.lock map_api.Chord.NodeLocks.try_lock
    map_api.Chord.NodeLocks.unlock_self map_api.Chord.NodeLocks.unlock
    map_api.Chord.NodeLocks.unlock_all map_api.Chord.NodeLocks.lock_all
    map_api.Chord.NodeLocks.try_lock_in_order map_api.Chord.NodeLocks.unlock_other
    map_api.Chord.Membership.checked_rpc map_api.Chord.Membership.are_neighbors
    map_api.Chord.Membership.lock_neighbors map_api.Chord.Membership.notify
    map_api.Chord.Membership.enter_ring map_api.Chord.Membership.clean_join
    map_api.Chord.Membership.join map_api.Chord.Membership.is_consistent
    map_api.Chord.Membership.lock_to_leave map_api.Chord.Membership.replace_self
    map_api.Chord.Membership.hand_over map_api.Chord.Membership.leave_clean
    map_api.Chord.Membership.leave map_api.Prelude.Map.find map_api.Prelude.Map.assign
    map_api.Prelude.Map.emplace map_api.Prelude.Map.insert_range map_api.Prelude.Map.has
    map_api.Prelude.IdSet.add map_api.Prelude.IdSet.contains
joined = refl

-- Peer 2 leaves, and peer 1 takes its data.
left : data_of 1 (leave a_config 2 10 two_peers) ≡ some (1, (150, 7 ∷ []) ∷ (300, 8 ∷ []) ∷ [])
unfolding map_api.Chord.hash_peer map_api.Chord.hash_string map_api.Chord.is_in
    map_api.Chord.chord_peer map_api.Chord.wait_until_initialized
    map_api.Chord.closest_preceding_finger map_api.Chord.finger_base_keys map_api.Chord.init
    map_api.Chord.create map_api.Chord.register_successor map_api.Chord.register_predecessor
    map_api.Chord.add_data_locally map_api.Chord.retrieve_data_locally
    map_api.Chord.Handlers.handle_get_closest_preceding_finger
    map_api.Chord.Handlers.handle_get_successor map_api.Chord.Handlers.handle_get_predecessor
    map_api.Chord.Handlers.handle_lock map_api.Chord.Handlers.handle_unlock
    map_api.Chord.Handlers.notify_successor map_api.Chord.Handlers.notify_predecessor
    map_api.Chord.Handlers.handle_notify_common map_api.Chord.Handlers.handle_notify_clean
    map_api.Chord.Handlers.start_integration map_api.Chord.Handlers.handle_notify_stabilize
    map_api.Chord.Handlers.handle_notify map_api.Chord.Handlers.replace_neighbors
    map_api.Chord.Handlers.acquire_read_lock map_api.Chord.Handlers.release_read_lock
    map_api.Chord.Handlers.handle_replace map_api.Chord.Handlers.handle_add_data
    map_api.Chord.Handlers.handle_retrieve_data map_api.Chord.Handlers.collect
    map_api.Chord.Handlers.handle_fetch_responsibilities map_api.Chord.Handlers.overwrite
    map_api.Chord.Handlers.handle_push_responsibilities map_api.Chord.Requests.acked
    map_api.Chord.Requests.retrieved map_api.Chord.Requests.handle_routed_request
    map_api.Chord.Network.accepted map_api.Chord.Network.rpc map_api.Chord.Network.expect_ack
    map_api.Chord.Network.expect_peer map_api.Chord.Network.expect_value
    map_api.Chord.Network.expect_items map_api.Chord.Network.get_closest_preceding_finger_rpc
    map_api.Chord.Network.get_successor_rpc map_api.Chord.Network.get_predecessor_rpc
    map_api.Chord.Network.lock_rpc map_api.Chord.Network.unlock_rpc map_api.Chord.Network.notify_rpc
    map_api.Chord.Network.replace_rpc map_api.Chord.Network.add_data_rpc
    map_api.Chord.Network.retrieve_data_rpc map_api.Chord.Network.fetch_responsibilities_rpc
    map_api.Chord.Network.push_responsibilities_rpc map_api.Chord.Lookup.own_node
    map_api.Chord.Lookup.walk map_api.Chord.Lookup.find_predecessor_round
    map_api.Chord.Lookup.find_predecessor map_api.Chord.Lookup.find_successor
    map_api.Chord.Lookup.add_data_at map_api.Chord.Lookup.add_data
    map_api.Chord.Lookup.retrieve_data_at map_api.Chord.Lookup.retrieve_data
    map_api.Chord.NodeLocks.acknowledged map_api.Chord.NodeLocks.insert_by_hash
    map_api.Chord.NodeLocks.sort_by_hash map_api.Chord.NodeLocks.skip_equal
    map_api.Chord.NodeLocks.unique map_api.Chord.NodeLocks.lock_order
    map_api.Chord.NodeLocks.attempt_of map_api.Chord.NodeLocks.lock map_api.Chord.NodeLocks.try_lock
    map_api.Chord.NodeLocks.unlock_self map_api.Chord.NodeLocks.unlock
    map_api.Chord.NodeLocks.unlock_all map_api.Chord.NodeLocks.lock_all
    map_api.Chord.NodeLocks.try_lock_in_order map_api.Chord.NodeLocks.unlock_other
    map_api.Chord.Membership.checked_rpc map_api.Chord.Membership.are_neighbors
    map_api.Chord.Membership.lock_neighbors map_api.Chord.Membership.notify
    map_api.Chord.Membership.enter_ring map_api.Chord.Membership.clean_join
    map_api.Chord.Membership.join map_api.Chord.Membership.is_consistent
    map_api.Chord.Membership.lock_to_leave map_api.Chord.Membership.replace_self
    map_api.Chord.Membership.hand_over map_api.Chord.Membership.leave_clean
    map_api.Chord.Membership.leave map_api.Prelude.Map.find map_api.Prelude.Map.assign
    map_api.Prelude.Map.emplace map_api.Prelude.Map.insert_range map_api.Prelude.Map.has
    map_api.Prelude.IdSet.add map_api.Prelude.IdSet.contains
left = refl

-- The early return that keeps the reader of `peer_lock_`.
leaked :
    handle_replace a_config 5 6 second_node
    ≡ ok (false, record second_node { peer_lock_readers = 1 })
unfolding map_api.Chord.hash_peer map_api.Chord.hash_string map_api.Chord.is_in
    map_api.Chord.chord_peer map_api.Chord.wait_until_initialized
    map_api.Chord.closest_preceding_finger map_api.Chord.finger_base_keys map_api.Chord.init
    map_api.Chord.create map_api.Chord.register_successor map_api.Chord.register_predecessor
    map_api.Chord.add_data_locally map_api.Chord.retrieve_data_locally
    map_api.Chord.Handlers.handle_get_closest_preceding_finger
    map_api.Chord.Handlers.handle_get_successor map_api.Chord.Handlers.handle_get_predecessor
    map_api.Chord.Handlers.handle_lock map_api.Chord.Handlers.handle_unlock
    map_api.Chord.Handlers.notify_successor map_api.Chord.Handlers.notify_predecessor
    map_api.Chord.Handlers.handle_notify_common map_api.Chord.Handlers.handle_notify_clean
    map_api.Chord.Handlers.start_integration map_api.Chord.Handlers.handle_notify_stabilize
    map_api.Chord.Handlers.handle_notify map_api.Chord.Handlers.replace_neighbors
    map_api.Chord.Handlers.acquire_read_lock map_api.Chord.Handlers.release_read_lock
    map_api.Chord.Handlers.handle_replace map_api.Chord.Handlers.handle_add_data
    map_api.Chord.Handlers.handle_retrieve_data map_api.Chord.Handlers.collect
    map_api.Chord.Handlers.handle_fetch_responsibilities map_api.Chord.Handlers.overwrite
    map_api.Chord.Handlers.handle_push_responsibilities map_api.Chord.Requests.acked
    map_api.Chord.Requests.retrieved map_api.Chord.Requests.handle_routed_request
    map_api.Chord.Network.accepted map_api.Chord.Network.rpc map_api.Chord.Network.expect_ack
    map_api.Chord.Network.expect_peer map_api.Chord.Network.expect_value
    map_api.Chord.Network.expect_items map_api.Chord.Network.get_closest_preceding_finger_rpc
    map_api.Chord.Network.get_successor_rpc map_api.Chord.Network.get_predecessor_rpc
    map_api.Chord.Network.lock_rpc map_api.Chord.Network.unlock_rpc map_api.Chord.Network.notify_rpc
    map_api.Chord.Network.replace_rpc map_api.Chord.Network.add_data_rpc
    map_api.Chord.Network.retrieve_data_rpc map_api.Chord.Network.fetch_responsibilities_rpc
    map_api.Chord.Network.push_responsibilities_rpc map_api.Chord.Lookup.own_node
    map_api.Chord.Lookup.walk map_api.Chord.Lookup.find_predecessor_round
    map_api.Chord.Lookup.find_predecessor map_api.Chord.Lookup.find_successor
    map_api.Chord.Lookup.add_data_at map_api.Chord.Lookup.add_data
    map_api.Chord.Lookup.retrieve_data_at map_api.Chord.Lookup.retrieve_data
    map_api.Chord.NodeLocks.acknowledged map_api.Chord.NodeLocks.insert_by_hash
    map_api.Chord.NodeLocks.sort_by_hash map_api.Chord.NodeLocks.skip_equal
    map_api.Chord.NodeLocks.unique map_api.Chord.NodeLocks.lock_order
    map_api.Chord.NodeLocks.attempt_of map_api.Chord.NodeLocks.lock map_api.Chord.NodeLocks.try_lock
    map_api.Chord.NodeLocks.unlock_self map_api.Chord.NodeLocks.unlock
    map_api.Chord.NodeLocks.unlock_all map_api.Chord.NodeLocks.lock_all
    map_api.Chord.NodeLocks.try_lock_in_order map_api.Chord.NodeLocks.unlock_other
    map_api.Chord.Membership.checked_rpc map_api.Chord.Membership.are_neighbors
    map_api.Chord.Membership.lock_neighbors map_api.Chord.Membership.notify
    map_api.Chord.Membership.enter_ring map_api.Chord.Membership.clean_join
    map_api.Chord.Membership.join map_api.Chord.Membership.is_consistent
    map_api.Chord.Membership.lock_to_leave map_api.Chord.Membership.replace_self
    map_api.Chord.Membership.hand_over map_api.Chord.Membership.leave_clean
    map_api.Chord.Membership.leave map_api.Prelude.Map.find map_api.Prelude.Map.assign
    map_api.Prelude.Map.emplace map_api.Prelude.Map.insert_range map_api.Prelude.Map.has
    map_api.Prelude.IdSet.add map_api.Prelude.IdSet.contains
leaked = refl
