-- ===== src/Chord/Lookup.antt =====
-- map-api/src/chord-index.cc: finding the peer that is responsible for a key, and storing and
-- reading data there. A loop runs on fuel: `none` says that it is used up. The network does not
-- change between the requests of one lookup.
use map_api.Prelude.{ℕ, zero, suc, Bool, true, false, Option, none, some, List, ◌==◌, if◌then◌else◌}
use map_api.Prelude.Checked.{Checked, ok, ◌>>=◌, ◌>>◌, check, check_notnull}
use map_api.Prelude.Map.{find, assign}
use map_api.Chord.{
  Config, hash_peer, hash_string, is_in, Node, closest_preceding_finger, add_data_locally,
  retrieve_data_locally,
}
use map_api.Chord.Network.{
  Network, get_closest_preceding_finger_rpc, get_successor_rpc, add_data_rpc, retrieve_data_rpc,
}

-- How one round of `findPredecessor` ends.
pub data Outcome : Type 0 where
  found : ℕ → Outcome
  try_again : Outcome
  out_of_fuel : Outcome

-- The index that runs the code: it is in the network.
unfoldable pub own_node : ℕ → Network → Checked Node
own_node self net = check_notnull (find self net)

module _ (c : Config) (self : ℕ) (key : ℕ) where
  -- The inner loop of `findPredecessor`, from `result` and its successor.
  unfoldable pub walk : ℕ → ℕ → ℕ → Network → Checked (Outcome × Network)
  walk zero result result_successor net = ok (out_of_fuel, net)
  walk (suc fuel) result result_successor net =
      elim (is_in key (hash_peer c result) (hash_peer c result_successor)) [
        | true ↦ ok (found result, net)
        | false ↦ get_closest_preceding_finger_rpc c self result key net >>= λ (finger, net1).
            elim finger [
              | none ↦ ok (try_again, net1)
              | some result' ↦ get_successor_rpc c self result' net1 >>= λ (successor, net2).
                  elim successor [
                    | none ↦ ok (try_again, net2)
                    | some successor' ↦ walk fuel result' successor' net2
                  ]
            ]
      ]

  -- One round of the outer loop.
  unfoldable pub find_predecessor_round : ℕ → Network → Checked (Outcome × Network)
  find_predecessor_round fuel net = own_node self net >>= λ n.
      if is_in key n.own_key n.successor.key
      then ok (found self, net)
      else get_successor_rpc c self (closest_preceding_finger key n) net >>= λ (successor, net1).
          elim successor [
            | none ↦ ok (try_again, net1)
            | some successor' ↦ walk fuel (closest_preceding_finger key n) successor' net1
          ]

  -- `tries fuel`
  unfoldable pub find_predecessor : ℕ → ℕ → Network → Checked (Option ℕ × Network)
  find_predecessor zero fuel net = ok (none, net)
  find_predecessor (suc tries) fuel net = find_predecessor_round fuel net >>= λ (outcome, net1).
      elim outcome [
        | found predecessor ↦ ok (some predecessor, net1)
        | try_again ↦ find_predecessor tries fuel net1
        | out_of_fuel ↦ ok (none, net1)
      ]

  unfoldable pub find_successor : ℕ → ℕ → Network → Checked (Option ℕ × Network)
  find_successor zero fuel net = ok (none, net)
  find_successor (suc tries) fuel net = own_node self net >>= λ n.
      elim (is_in key n.own_key n.successor.key) [
        | true ↦ ok (some n.successor.id, net)
        | false ↦ find_predecessor (suc tries) fuel net >>= λ (predecessor, net1).
            elim predecessor [
              | none ↦ ok (none, net1)
              | some p ↦ elim (p == self) [
                | true ↦ find_successor tries fuel net1
                | false ↦ get_successor_rpc c self p net1 >>= λ (result, net2). elim result [
                  | none ↦ find_successor tries fuel net2
                  | some successor ↦ ok (some successor, net2)
                ]
              ]
            ]
      ]

-- The part of `addData` after the successor is known.
unfoldable pub add_data_at :
    Config → ℕ → ℕ → List ℕ → Option ℕ × Network → Checked (Option Bool × Network)
add_data_at c self key value (none, net) = ok (none, net)
add_data_at c self key value (some successor, net) =
    if successor == self
    then (own_node self net >>= λ n. ok (some true, assign self (add_data_locally key value n) net))
    else add_data_rpc c self successor key value net >>= λ (added, net').
        check added >> ok (some true, net')

-- `config self tries fuel key value`
unfoldable pub add_data :
    Config → ℕ → ℕ → ℕ → ℕ → List ℕ → Network → Checked (Option Bool × Network)
add_data c self tries fuel key value net =
    find_successor c self (hash_string c key) tries fuel net >>= add_data_at c self key value

-- The part of `retrieveData` after the successor is known; the inner `none` says that there is no
-- such data.
unfoldable pub retrieve_data_at :
    Config → ℕ → ℕ → Option ℕ × Network → Checked (Option (Option (List ℕ)) × Network)
retrieve_data_at c self key (none, net) = ok (none, net)
retrieve_data_at c self key (some successor, net) =
    if successor == self
    then (own_node self net >>= λ n. ok (some (retrieve_data_locally key n), net))
    else retrieve_data_rpc c self successor key net >>= λ (value, net'). ok (some value, net')

unfoldable pub retrieve_data :
    Config → ℕ → ℕ → ℕ → ℕ → Network → Checked (Option (Option (List ℕ)) × Network)
retrieve_data c self tries fuel key net =
    find_successor c self (hash_string c key) tries fuel net >>= retrieve_data_at c self key
