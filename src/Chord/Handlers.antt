-- ===== src/Chord/Handlers.antt =====
-- map-api/src/chord-index.cc: the handlers of the requests to a peer of the ring.
use map_api.Prelude.{
  ℕ, ◌+◌, ◌-◌, Bool, true, false, not, Option, List, [], ◌∷◌, ◌==◌, ◌&&◌, ◌||◌, if◌then◌else◌,
}
use map_api.Prelude.Checked.{Checked, ok, ◌>>◌, check}
use map_api.Prelude.Map.{Map, assign, emplace}
use map_api.Prelude.IdSet.{contains, add}
use map_api.Chord.{
  JoinMode, clean_join, stabilize_join, Config, hash_peer, hash_string, is_in, ChordPeer,
  chord_peer, Node, wait_until_initialized, closest_preceding_finger, register_successor,
  register_predecessor, add_data_locally, retrieve_data_locally,
}

-- An index that is not active is logged, and answers all the same.
unfoldable pub handle_get_closest_preceding_finger : ℕ → Node → ℕ
handle_get_closest_preceding_finger key n = closest_preceding_finger key n

unfoldable pub handle_get_successor : Node → ℕ
handle_get_successor n = n.successor.id

unfoldable pub handle_get_predecessor : Node → ℕ
handle_get_predecessor n = n.predecessor.id

unfoldable pub handle_lock : ℕ → Node → Bool × Node
handle_lock requester n =
    if not (wait_until_initialized n)
    then (false, n)
    else if n.node_locked
    then (false, n)
    else (true, record n { node_locked = true; node_lock_holder = requester })

unfoldable pub handle_unlock : ℕ → Node → Bool × Node
handle_unlock requester n =
    if not n.node_locked || not (n.node_lock_holder == requester)
    then (false, n)
    else (true, record n { node_locked = false })

-- The flag says whether the peer was stored: its use count is above one.
unfoldable pub notify_successor : ChordPeer → Node → Bool × Node
notify_successor peer n =
    if is_in peer.key n.own_key n.successor.key
    then (true, record n { successor = peer })
    else (false, n)

unfoldable pub notify_predecessor : ChordPeer → Bool × Node → Bool × Node
notify_predecessor peer (stored, n) =
    if is_in peer.key n.predecessor.key n.own_key
    then (true, record n { predecessor = peer })
    else (stored, n)

unfoldable pub handle_notify_common : ChordPeer → Node → Bool × Node
handle_notify_common peer n = notify_predecessor peer (notify_successor peer n)

unfoldable pub handle_notify_clean : Config → ℕ → Node → Checked (Bool × Node)
handle_notify_clean c peer n =
    let notified = handle_notify_common (chord_peer c peer) n in
    check n.node_locked
    >> check (peer == n.node_lock_holder)
    >> check (not (contains peer n.peers))
    >> check notified.0
    >> ok (true, record (notified.1) { peers = add peer n.peers })

-- A notification from the predecessor starts the integration.
unfoldable pub start_integration : Config → ℕ → Node → Node
start_integration c peer n =
    if is_in (hash_peer c peer) n.predecessor.key n.own_key && not n.integrated
    then record n { integrate_threads = n.integrate_threads + 1 }
    else n

unfoldable pub handle_notify_stabilize : Config → ℕ → Node → Bool × Node
handle_notify_stabilize c peer n =
    let started = start_integration c peer n in
    let notified = handle_notify_common (chord_peer c peer) started in
    if contains peer n.peers
    then (true, started)
    else if notified.0
    then (true, record (notified.1) { peers = add peer n.peers })
    else (true, notified.1)

unfoldable pub handle_notify : Config → ℕ → Node → Checked (Bool × Node)
handle_notify c peer n = check (wait_until_initialized n) >> elim c.join_mode [
  | clean_join ↦ handle_notify_clean c peer n
  | stabilize_join ↦ ok (handle_notify_stabilize c peer n)
]

-- The two calls of `registerPeer`.
unfoldable pub replace_neighbors : Config → Bool → Bool → ℕ → Node → Node
replace_neighbors c successor predecessor new_peer n =
    let first = if successor then register_successor c new_peer n else n in
    if predecessor then register_predecessor c new_peer first else first

unfoldable pub acquire_read_lock : Node → Node
acquire_read_lock n = record n { peer_lock_readers = n.peer_lock_readers + 1 }

unfoldable pub release_read_lock : Node → Node
release_read_lock n = record n { peer_lock_readers = n.peer_lock_readers - 1 }

is_clean : JoinMode → Bool
is_clean clean_join = true
is_clean stabilize_join = false

-- The first early return does not release `peer_lock_`.
unfoldable pub handle_replace : Config → ℕ → ℕ → Node → Checked (Bool × Node)
unfolding is_clean
handle_replace c old_peer new_peer n =
    let reading = acquire_read_lock n in
    let successor = old_peer == n.successor.id in
    let predecessor = old_peer == n.predecessor.id in
    check (wait_until_initialized n)
    >> check (is_clean c.join_mode)
    >> (if not successor && not predecessor
        then ok (false, reading)
        else if not n.node_locked || not (n.node_lock_holder == old_peer)
        then ok (false, release_read_lock reading)
        else ok
            (true, replace_neighbors c successor predecessor new_peer (release_read_lock reading)))

unfoldable pub handle_add_data : ℕ → List ℕ → Node → Checked (Bool × Node)
handle_add_data key value n =
    check (wait_until_initialized n) >> ok (true, add_data_locally key value n)

unfoldable pub handle_retrieve_data : ℕ → Node → Checked (Option (List ℕ))
handle_retrieve_data key n = check (wait_until_initialized n) >> ok (retrieve_data_locally key n)

-- The loop of `handleFetchResponsibilities`.
unfoldable pub collect : Config → ℕ → ℕ → Map (List ℕ) → Map (List ℕ) → Map (List ℕ)
collect c requester own_key responsibilities [] = responsibilities
collect c requester own_key responsibilities ((key, value) ∷ items) =
    collect c requester own_key
      (if not (is_in (hash_string c key) (hash_peer c requester) own_key)
        then emplace key value responsibilities
        else responsibilities)
      items

unfoldable pub handle_fetch_responsibilities : Config → ℕ → Node → Checked (Map (List ℕ))
handle_fetch_responsibilities c requester n =
    check (wait_until_initialized n) >> ok (collect c requester n.own_key [] n.data_)

-- The loop of `handlePushResponsibilities`: `overwrite intended`.
unfoldable pub overwrite : Map (List ℕ) → Map (List ℕ) → Map (List ℕ)
overwrite m [] = m
overwrite m ((key, value) ∷ items) = overwrite (assign key value m) items

unfoldable pub handle_push_responsibilities : Map (List ℕ) → Node → Checked (Bool × Node)
handle_push_responsibilities responsibilities n =
    check (wait_until_initialized n)
    >> ok (true, record n { data_ = overwrite n.data_ responsibilities })
