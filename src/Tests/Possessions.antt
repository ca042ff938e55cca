-- ===== src/Tests/Possessions.antt =====
-- Peer 1 of the ring of two peers announces and renounces a chunk that peer 7 holds.
use map_api.Prelude.{ℕ, ◌≡◌, refl, some, List, [], ◌∷◌, ◌==◌, ◌||◌, if◌then◌else◌}
use map_api.Prelude.Checked.{ok}
use map_api.Prelude.Map.{find, assign}
use map_api.Prelude.IdSet.{contains}
use map_api.Chord.Network.{Network}
use map_api.Chord.RingStore.{ring_store, ring_laws}
use map_api.TableIndex.{PeersCodec, announce_posession, seek_peers, renounce_posession}
use map_api.TableIndex.Possession.{holders, renounce-announce}
use map_api.Tests.Rings.{a_config, a_node, two_peers, first_found, two_peers-IsRing}

abbrev plain : PeersCodec
plain = record { serialize_peers = λ peers. peers; parse_peers = λ peers_string. some peers_string }

listed :
    holders (ring_store a_config 1) plain (ring_laws a_config 1) (λ peers. refl) two_peers 150
    ≡ some (7 ∷ [])
unfolding find assign map_api.Chord.Lookup.retrieve_data map_api.Chord.Lookup.retrieve_data_at
    map_api.Chord.Lookup.find_successor map_api.Chord.Lookup.find_predecessor
    map_api.Chord.Lookup.find_predecessor_round map_api.Chord.Lookup.walk
    map_api.Chord.Lookup.own_node map_api.Chord.is_in map_api.Chord.hash_string
    map_api.Chord.hash_peer map_api.Chord.closest_preceding_finger
    map_api.Chord.retrieve_data_locally map_api.Chord.Network.get_closest_preceding_finger_rpc
    map_api.Chord.Network.get_successor_rpc map_api.Chord.Network.retrieve_data_rpc
    map_api.Chord.Network.rpc map_api.Chord.Network.accepted map_api.Chord.Network.expect_peer
    map_api.Chord.Network.expect_value map_api.Chord.Requests.handle_routed_request
    map_api.Chord.Requests.retrieved map_api.Chord.Handlers.handle_get_closest_preceding_finger
    map_api.Chord.Handlers.handle_get_successor map_api.Chord.Handlers.handle_retrieve_data
    map_api.Chord.wait_until_initialized
listed = refl

renounce-announce_example :
    (s1 s2 : Network) × (found : List ℕ) × (announce_posession
        (ring_store a_config 1)
        plain
        1
        150
        two_peers
      ≡ ok s1)
    × (seek_peers (ring_store a_config 1) plain (λ net. net) 150 [] s1 ≡ ok (found, s1))
    × ((k : ℕ) → contains k found ≡ (contains k (7 ∷ []) || 1 == k))
    × (renounce_posession (ring_store a_config 1) plain (λ net. net) 1 150 s1 ≡ ok s2)
    × (ring_laws a_config 1).IsSettled s2
    × ((k : ℕ)
        → holders (ring_store a_config 1) plain (ring_laws a_config 1) (λ peers. refl) s2 k ≡ (
            if 150 == k
            then some (7 ∷ [])
            else holders
                (ring_store a_config 1)
                plain
                (ring_laws a_config 1)
                (λ peers. refl)
                two_peers
                k))
unfolding contains
renounce-announce_example =
    renounce-announce (ring_store a_config 1) plain (ring_laws a_config 1) (λ peers. refl)
      (λ net. net) 1 150 (7 ∷ []) two_peers (two_peers-IsRing, (a_node 1 2 2, first_found)) listed
      refl
