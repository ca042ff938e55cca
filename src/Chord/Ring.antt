-- ===== src/Chord/Ring.antt =====
-- What a settled ring is, and the requests on it that only read.
use map_api.Prelude.{
  ℕ, ◌≡◌, refl, ap, ◌∙◌, true, false, none, some, [], ◌∷◌, ◌==◌, arith, ◌&&◌, not,
}
use map_api.Prelude.{inl, inr}
use mathlib.Core.Path.{subst}
use map_api.Prelude.Tests.{Bool-cases}
use map_api.Prelude.Checked.{ok, ◌>>=◌}
use map_api.Prelude.Map.{Map, find, assign, find-assign}
use map_api.Chord.{Config, hash_peer, is_in, Node, closest_preceding_finger}
use map_api.Chord.Handlers.{handle_get_closest_preceding_finger, handle_get_successor}
use map_api.Chord.Requests.{
  Request, Response, get_successor_request, get_closest_preceding_finger_request, peer_response,
  handle_routed_request,
}
use map_api.Chord.Network.{
  Network, accepted, rpc, expect_peer, get_closest_preceding_finger_rpc, get_successor_rpc,
}

-- The index of a peer that has joined: its keys are the hashes, and its successor can be reached.
pub record IsLinked (c : Config) (net : Network) (p : ℕ) (n : Node) : Type 0 where
  pub self_eq : n.self ≡ p
  pub own_key_eq : n.own_key ≡ hash_peer c p
  pub successor_key_eq : n.successor.key ≡ hash_peer c n.successor.id
  pub is_initialized : n.initialized ≡ true
  pub successor_found : (m : Node) × (find n.successor.id net ≡ some m)

-- No peer's key is in the interval of another peer.
pub record IsRing (c : Config) (net : Network) : Type 0 where
  pub linked : (p : ℕ) (n : Node) → find p net ≡ some n → IsLinked c net p n
  pub apart :
      (p q : ℕ) (n m : Node)
      → find p net ≡ some n
      → find q net ≡ some m
      → is_in m.own_key n.own_key n.successor.key ≡ true
      → q ≡ p

-- A predicate of every entry.
abbrev pub AllNodes : (ℕ → Node → Type 0) → Network → Type 0
AllNodes P [] = Unit {0}
AllNodes P ((p, n) ∷ net) = P p n × AllNodes P net

AllNodes-find :
    (P : ℕ → Node → Type 0) (net : Network) (p : ℕ) (n : Node)
    → AllNodes P net
    → find p net ≡ some n
    → P p n
unfolding find
AllNodes-find P [] p n all e = cc
AllNodes-find P ((q, m) ∷ net) p n all e = ground (arith, AllNodes-find P net p n)

-- How the ring of concrete peers is checked.
pub IsRing-AllNodes :
    (c : Config) (net : Network)
    → AllNodes (λ p n. IsLinked c net p n) net
    → AllNodes
        (λ p n.
          AllNodes (λ q m. (is_in m.own_key n.own_key n.successor.key && not (q == p)) ≡ false) net)
        net
    → IsRing c net
IsRing-AllNodes c net all each = record {
  linked = λ p n e. AllNodes-find _ net p n all e;
  apart = λ p q n m e e' h.
      let tested = AllNodes-find _ net q m (AllNodes-find _ net p n each e) e' in
      ground (arith, tested);
}

pub assign-find {ℓ} :
    {V : Type ℓ} (k : ℕ) (v : V) (m : Map V) → find k m ≡ some v → assign k v m ≡ m
unfolding find assign
assign-find k v [] e = cc
assign-find k v ((j, w) ∷ m) e = ground (arith, assign-find k v m)

-- A request to a peer that can be reached.
pub rpc-find :
    (c : Config) (self to : ℕ) (request : Request) (net : Network) (n n' : Node)
    (response : Response)
    → find to net ≡ some n
    → handle_routed_request c self request n ≡ ok (response, n')
    → rpc c self to request net ≡ ok (accepted response, assign to n' net)
unfolding rpc
rpc-find c self to request net n n' response e h =
    ap
      (λ o. elim o [
        | none ↦ ok (none, net)
        | some k ↦
            handle_routed_request c self request k >>= λ (r, k'). ok (accepted r, assign to k' net)
      ])
      e
    ∙ ap (λ o. o >>= λ (r, k'). ok (accepted r, assign to k' net)) h

pub get_successor_rpc-find :
    (c : Config) (self to : ℕ) (net : Network) (n : Node)
    → find to net ≡ some n
    → get_successor_rpc c self to net ≡ ok (some n.successor.id, net)
unfolding get_successor_rpc handle_routed_request accepted expect_peer handle_get_successor
get_successor_rpc-find c self to net n e =
    ap (λ o. o >>= expect_peer)
      (rpc-find c self to get_successor_request net n n _ e refl
        ∙ ap (λ m. ok (some (peer_response n.successor.id), m)) (assign-find to n net e))

pub get_closest_preceding_finger_rpc-find :
    (c : Config) (self to key : ℕ) (net : Network) (n : Node)
    → find to net ≡ some n
    → get_closest_preceding_finger_rpc c self to key net
      ≡ ok (some (closest_preceding_finger key n), net)
unfolding get_closest_preceding_finger_rpc handle_routed_request accepted expect_peer
    handle_get_closest_preceding_finger
get_closest_preceding_finger_rpc-find c self to key net n e =
    ap (λ o. o >>= expect_peer)
      (rpc-find c self to (get_closest_preceding_finger_request key) net n n _ e refl
        ∙ ap (λ m. ok (some (peer_response (closest_preceding_finger key n)), m))
            (assign-find to n net e))

-- Two indices with the same place in the ring.
pub record IsSamePlace (n m : Node) : Type 0 where
  pub same_self : n.self ≡ m.self
  pub same_key : n.own_key ≡ m.own_key
  pub same_successor : n.successor ≡ m.successor
  pub same_initialized : n.initialized ≡ m.initialized

IsSamePlace-refl : (n : Node) → IsSamePlace n n
IsSamePlace-refl n = record {
  same_self = refl;
  same_key = refl;
  same_successor = refl;
  same_initialized = refl;
}

pub find-assign_before :
    (net : Network) (s p : ℕ) (n n' k : Node)
    → find s net ≡ some n
    → IsSamePlace n n'
    → find p (assign s n' net) ≡ some k
    → (k' : Node) × (find p net ≡ some k') × IsSamePlace k' k
find-assign_before net s p n n' k e same e' = elim (Bool-cases (s == p)) [
  | inl h ↦ (n, ground (arith, e, h), old (ground (arith, find-assign s p n' net)))
  | inr h ↦ (k, ground (arith, find-assign s p n' net, e', h), IsSamePlace-refl k)
]
  where
    old : n' ≡ k → IsSamePlace n k
    old eq = subst (λ m. IsSamePlace n m) eq same

pub find-assign_after :
    (net : Network) (s p : ℕ) (n n' k : Node)
    → find p net ≡ some k
    → (m : Node) × (find p (assign s n' net) ≡ some m)
find-assign_after net s p n n' k e = elim (Bool-cases (s == p)) [
  | inl h ↦ (n', ground (arith, find-assign s p n' net, h))
  | inr h ↦ (k, ground (arith, find-assign s p n' net, h))
]
