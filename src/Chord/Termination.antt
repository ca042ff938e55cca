-- ===== src/Chord/Termination.antt =====
-- The loop of findPredecessor, and how far its candidate is from the key.
use map_api.Prelude.{
  ℕ, zero, suc, ◌^◌, ◌<◌, ◌≤◌, ◌≡◌, refl, ap, ◌∙◌, true, false, some, arith, inl, inr,
}
use map_api.Prelude.Tests.{Bool-cases}
use map_api.Prelude.Checked.{ok}
use map_api.Prelude.Map.{find}
use map_api.Chord.{Config, hash_peer, is_in, Node, closest_preceding_finger}
use map_api.Chord.Network.{Network}
use map_api.Chord.Ring.{IsRing, get_successor_rpc-find, get_closest_preceding_finger_rpc-find}
use map_api.Chord.Clockwise.{clockwise, clockwise-lt, hash_peer-lt, not_is_in-clockwise_lt}
use map_api.Chord.Lookup.{found, own_node, walk, find_predecessor_round, find_predecessor}

-- The peer whose interval the key is in.
pub record IsPredecessor (key : ℕ) (net : Network) (p : ℕ) : Type 0 where
  pub node : Node
  pub node_found : find p net ≡ some node
  pub node_is_in : is_in key node.own_key node.successor.key ≡ true

module _ (c : Config) (self key : ℕ) (small : key < 2 ^ 16) (net : Network)
    (ring : IsRing c net) where
  closest_preceding_finger-else :
      (n : Node)
      → is_in key n.own_key n.successor.key ≡ false
      → closest_preceding_finger key n ≡ n.successor.id
  unfolding closest_preceding_finger
  closest_preceding_finger-else n h = rw h refl

  pub walk-IsPredecessor :
      (fuel r : ℕ) (n : Node)
      → find r net ≡ some n
      → clockwise (hash_peer c r) key < fuel
      → (p : ℕ) × (walk c self key fuel r n.successor.id net ≡ ok (found p, net))
        × IsPredecessor key net p
  unfolding walk
  walk-IsPredecessor zero r n e lt = absurd (omega arith)
  walk-IsPredecessor (suc fuel) r n e lt =
      let link = ring.linked r n e in
      let same : is_in key n.own_key n.successor.key
          ≡ is_in key (hash_peer c r) (hash_peer c n.successor.id) =
        rw (link.own_key_eq, link.successor_key_eq) refl in
      elim (Bool-cases (is_in key (hash_peer c r) (hash_peer c n.successor.id))) [
        | inl h ↦ (r, rw (walk, h) refl, record { node = n; node_found = e; node_is_in = same ∙ h })
        | inr h ↦
            let (m, em) = link.successor_found in
            let closer =
              not_is_in-clockwise_lt key (hash_peer c r) (hash_peer c n.successor.id) small
                (hash_peer-lt c r) (hash_peer-lt c n.successor.id) h in
            let (p, ep, pred) = walk-IsPredecessor fuel n.successor.id m em (omega arith) in
            (
              p,
              rw
                  (
                    walk,
                    h,
                    get_closest_preceding_finger_rpc-find c self r key net n e
                        ∙ ap (λ q. ok (some q, net)) (closest_preceding_finger-else n (same ∙ h)),
                    get_successor_rpc-find c self n.successor.id net m em,
                  )
                  ep,
              pred,
            )
      ]

  pub find_predecessor_round-IsPredecessor :
      (fuel : ℕ) (n : Node)
      → find self net ≡ some n
      → 2 ^ 16 ≤ fuel
      → (p : ℕ) × (find_predecessor_round c self key fuel net ≡ ok (found p, net))
        × IsPredecessor key net p
  unfolding find_predecessor_round own_node
  find_predecessor_round-IsPredecessor fuel n e enough =
      elim (Bool-cases (is_in key n.own_key n.successor.key)) [
        | inl h ↦ (self, rw (e, h) refl, record { node = n; node_found = e; node_is_in = h })
        | inr h ↦
            let (m, em) = (ring.linked self n e).successor_found in
            let near = clockwise-lt (hash_peer c n.successor.id) key in
            let (p, ep, pred) = walk-IsPredecessor fuel n.successor.id m em (omega arith) in
            (
              p,
              rw
                  (
                    e,
                    h,
                    closest_preceding_finger-else n h,
                    get_successor_rpc-find c self n.successor.id net m em,
                    closest_preceding_finger-else n h,
                  )
                  ep,
              pred,
            )
      ]

-- On a settled ring (`IsRing`), from any peer, one try and 2 ^ 16 rounds are enough for findPredecessor: it
-- returns the peer whose interval the key is in, and changes no peer.
pub find_predecessor-IsPredecessor :
    (c : Config) (self key tries fuel : ℕ) (net : Network) (n : Node)
    → key < 2 ^ 16
    → IsRing c net
    → find self net ≡ some n
    → 2 ^ 16 ≤ fuel
    → (p : ℕ) × (find_predecessor c self key (suc tries) fuel net ≡ ok (some p, net))
      × IsPredecessor key net p
unfolding find_predecessor
find_predecessor-IsPredecessor c self key tries fuel net n small ring e enough =
    let (p, ep, pred) =
      find_predecessor_round-IsPredecessor c self key small net ring fuel n e enough in
    (p, rw ep refl, pred)
