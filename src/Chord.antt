-- ===== src/Chord.antt =====
-- map-api/src/chord-index.cc and include/map-api/chord-index.h: the distributed index of a table, a
-- ring of peers ordered by 16-bit keys. This file is one peer's state and what it does alone.
-- A peer identifier and a data key are numbers that stand for the source's values, and a stored
-- value is its bytes. `std::hash` is a parameter. `peers_` maps an identifier to a weak pointer to
-- a peer that the identifier determines, and is the set of the identifiers here. Each step runs
-- from the end of one wait to the next, and `peer_lock_readers` counts the readers of `peer_lock_`
-- that such a step leaves behind. The order of the hash map, the finger pointers (which nothing
-- reads) and the mutexes that are held within one step only are left out.
pub mod Handlers
pub mod Requests
pub mod Network
pub mod Ring
pub mod Lookup
pub mod NodeLocks
pub mod Membership
pub mod Clockwise
pub mod Termination
pub mod Owner
pub mod RoundTrip
pub mod Store
pub mod RingStore
pub mod Locking
pub mod AllOrNothing
pub mod Handover
use map_api.Prelude.{
  ℕ, zero, suc, ◌+◌, ◌%◌, ◌^◌, Bool, true, false, Option, none, some, List, [], ◌∷◌, ◌++◌, ltb, leb,
  ◌==◌, ◌&&◌, ◌||◌, if◌then◌else◌,
}
use map_api.Prelude.Map.{Map, find, assign}
use map_api.Prelude.IdSet.{add}

-- `FLAGS_join_mode`
pub data JoinMode : Type 0 where
  clean_join : JoinMode
  stabilize_join : JoinMode

-- `std::hash` of a peer identifier and of a string, and the flag.
pub record Config : Type 0 where
  pub std_hash_peer : ℕ → ℕ
  pub std_hash_string : ℕ → ℕ
  pub join_mode : JoinMode

-- The low 16 bits of `std::hash`.
unfoldable pub hash_peer : Config → ℕ → ℕ
hash_peer c peer = c.std_hash_peer peer % 2 ^ 16

unfoldable pub hash_string : Config → ℕ → ℕ
hash_string c key = c.std_hash_string key % 2 ^ 16

-- `key from_inclusive to_exclusive`
unfoldable pub is_in : ℕ → ℕ → ℕ → Bool
is_in key from to =
    if key == from
    then true
    else if to == from
    then true
    else if leb from to
    then ltb from key && ltb key to
    else ltb from key || ltb key to

pub record ChordPeer : Type 0 where
  pub id : ℕ
  pub key : ℕ

-- `explicit ChordPeer(const PeerId&)`
unfoldable pub chord_peer : Config → ℕ → ChordPeer
chord_peer c peer = record { id = peer; key = hash_peer c peer }

-- `local_updates` lists the calls of `localUpdateCallback`, and `integrate_threads` counts the
-- threads started on `integrateThread`.
pub record Node : Type 0 where
  pub self : ℕ
  pub own_key : ℕ
  pub base_keys : List ℕ
  pub successor : ChordPeer
  pub predecessor : ChordPeer
  pub peers : List ℕ
  pub data_ : Map (List ℕ)
  pub node_locked : Bool
  pub node_lock_holder : ℕ
  pub initialized : Bool
  pub terminate : Bool
  pub integrated : Bool
  pub integrate_threads : ℕ
  pub peer_lock_readers : ℕ
  pub local_updates : List (ℕ × List ℕ × List ℕ)

-- The end of the wait: the index is initialised, or it terminates.
unfoldable pub wait_until_initialized : Node → Bool
wait_until_initialized n = n.initialized

unfoldable pub closest_preceding_finger : ℕ → Node → ℕ
closest_preceding_finger key n =
    if is_in key n.own_key n.successor.key then n.self else n.successor.id

-- The loop over the fingers from index `i`, for `count` of them; `overflow intended`.
unfoldable pub finger_base_keys : ℕ → ℕ → ℕ → List ℕ
finger_base_keys own_key i zero = []
finger_base_keys own_key i (suc count) =
    (own_key + 2 ^ i) % 2 ^ 16 ∷ finger_base_keys own_key (i + 1) count

-- Of `init`, without the thread that it starts.
unfoldable pub init : Config → Node → Node
init c n =
    let own = hash_peer c n.self in
    record n {
      own_key = own;
      base_keys = finger_base_keys own 0 16;
      terminate = false;
      data_ = [];
      node_locked = false;
    }

unfoldable pub create : Config → Node → Node
create c n = record (init c n) {
  successor = chord_peer c n.self;
  predecessor = chord_peer c n.self;
  integrated = true;
  initialized = true;
}

-- `registerPeer`: a known peer and a new one are the same but for the pointer.
unfoldable pub register_successor : Config → ℕ → Node → Node
register_successor c peer n = record n { successor = chord_peer c peer; peers = add peer n.peers }

unfoldable pub register_predecessor : Config → ℕ → Node → Node
register_predecessor c peer n = record n {
  predecessor = chord_peer c peer;
  peers = add peer n.peers;
}

-- `data_[key]` of a key that is not there is the empty string.
value_or_empty : Option (List ℕ) → List ℕ
value_or_empty none = []
value_or_empty (some value) = value

-- `addDataLocally`; it returns true.
unfoldable pub add_data_locally : ℕ → List ℕ → Node → Node
unfolding value_or_empty
add_data_locally key value n =
    let old_value = value_or_empty (find key n.data_) in
    record n {
      data_ = assign key value n.data_;
      local_updates = n.local_updates ++ (key, old_value, value) ∷ [];
    }

unfoldable pub retrieve_data_locally : ℕ → Node → Option (List ℕ)
retrieve_data_locally key n = find key n.data_
