-- ===== src/Chord/RoundTrip.antt =====
-- Data that is added through one peer of a settled ring and read through another.
use mathlib.Core.Path.{subst}
use map_api.Prelude.{
  ℕ, suc, ◌^◌, ◌≤◌, ◌≡◌, refl, sym, ap, ◌∙◌, true, Option, none, some, List, ◌==◌, if◌then◌else◌,
  arith, inl, inr,
}
use map_api.Prelude.Tests.{Bool-cases, ==_iff}
use map_api.Prelude.Checked.{ok, ◌>>=◌}
use map_api.Prelude.Map.{find, assign, find-assign}
use map_api.Chord.{Config, hash_string, Node, add_data_locally, retrieve_data_locally}
use map_api.Chord.Handlers.{handle_add_data, handle_retrieve_data}
use map_api.Chord.Requests.{
  add_data_request, retrieve_data_request, ack, acked, retrieved, handle_routed_request,
}
use map_api.Chord.Network.{
  Network, accepted, add_data_rpc, retrieve_data_rpc, expect_ack, expect_value,
}
use map_api.Chord.Ring.{IsRing, IsSamePlace, rpc-find, assign-find, find-assign_after}
use map_api.Chord.Clockwise.{hash_string-lt}
use map_api.Chord.Owner.{
  IsOwner, IsOwner-unique, find_successor-IsOwner, IsRing-assign, IsOwner-assign,
}
use map_api.Chord.Lookup.{own_node, add_data, add_data_at, retrieve_data, retrieve_data_at}

add_data_rpc-find :
    (c : Config) (self to key : ℕ) (value : List ℕ) (net : Network) (n : Node)
    → find to net ≡ some n
    → n.initialized ≡ true
    → add_data_rpc c self to key value net ≡ ok (true, assign to (add_data_locally key value n) net)
unfolding add_data_rpc handle_routed_request accepted expect_ack handle_add_data acked
    map_api.Chord.wait_until_initialized
add_data_rpc-find c self to key value net n e up =
    ap (λ o. o >>= expect_ack)
      (rpc-find c self to (add_data_request key value) net n (add_data_locally key value n) ack e
        (rw up refl))

retrieve_data_rpc-find :
    (c : Config) (self to key : ℕ) (net : Network) (n : Node)
    → find to net ≡ some n
    → n.initialized ≡ true
    → retrieve_data_rpc c self to key net ≡ ok (find key n.data_, net)
unfolding retrieve_data_rpc handle_routed_request accepted expect_value handle_retrieve_data
    retrieved retrieve_data_locally map_api.Chord.wait_until_initialized
retrieve_data_rpc-find c self to key net n e up =
    ap (λ o. o >>= expect_value)
      (rpc-find c self to (retrieve_data_request key) net n n (retrieved (find key n.data_)) e
          (rw up refl)
        ∙ ap (λ m. ok (accepted (retrieved (find key n.data_)), m)) (assign-find to n net e))
    ∙ read (find key n.data_)
  where
    read : (o : Option (List ℕ)) → expect_value (accepted (retrieved o), net) ≡ ok (o, net)
    read none = refl
    read (some value) = refl

add_data_at-find :
    (c : Config) (self s key : ℕ) (value : List ℕ) (net : Network) (n : Node)
    → find s net ≡ some n
    → n.initialized ≡ true
    → add_data_at c self key value (some s, net)
      ≡ ok (some true, assign s (add_data_locally key value n) net)
unfolding add_data_at own_node
add_data_at-find c self s key value net n e up = ground (
  arith,
  e,
  up,
  ==_iff s self,
  ap (λ k. find k net) {x = s} {y = self},
  add_data_rpc-find c self s key value net n e up,
)

retrieve_data_at-find :
    (c : Config) (self s key : ℕ) (net : Network) (n : Node)
    → find s net ≡ some n
    → n.initialized ≡ true
    → retrieve_data_at c self key (some s, net) ≡ ok (some (find key n.data_), net)
unfolding retrieve_data_at own_node retrieve_data_locally
retrieve_data_at-find c self s key net n e up = ground (
  arith,
  e,
  up,
  ==_iff s self,
  ap (λ k. find k net) {x = s} {y = self},
  retrieve_data_rpc-find c self s key net n e up,
)

owner_found :
    (c : Config) (key : ℕ) (net : Network) (s : ℕ)
    → IsRing c net
    → IsOwner key net s
    → (n : Node) × (find s net ≡ some n) × (n.initialized ≡ true)
owner_found c key net s ring own =
    let (n, e) = (ring.linked own.p own.n own.p_found).successor_found in
    let e' = sym (ap (λ k. find k net) own.successor_eq) ∙ e in
    (n, e', (ring.linked s n e').is_initialized)

-- What a read from a settled ring returns: the data of the owner of the key.
pub retrieve_data-IsOwner :
    (c : Config) (self key tries fuel : ℕ) (net : Network) (n : Node)
    → IsRing c net
    → find self net ≡ some n
    → 2 ^ 16 ≤ fuel
    → (s : ℕ) × (m : Node) × IsOwner (hash_string c key) net s
      × (find s net ≡ some m)
      × (retrieve_data c self (suc tries) fuel key net ≡ ok (some (find key m.data_), net))
unfolding retrieve_data
retrieve_data-IsOwner c self key tries fuel net n ring e enough =
    let (s, es, own) =
      find_successor-IsOwner c self (hash_string c key) tries fuel net n (hash_string-lt c key) ring
        e enough in
    let (m, em, up) = owner_found c (hash_string c key) net s ring own in
    (
      s,
      m,
      own,
      em,
      ap (λ o. o >>= retrieve_data_at c self key) es
          ∙ retrieve_data_at-find c self s key net m em up,
    )

add_data_locally-IsSamePlace :
    (key : ℕ) (value : List ℕ) (n : Node) → IsSamePlace n (add_data_locally key value n)
unfolding add_data_locally
add_data_locally-IsSamePlace key value n = record {
  same_self = refl;
  same_key = refl;
  same_successor = refl;
  same_initialized = refl;
}

some_data : (n m : Node) → some n ≡ some m → n.data_ ≡ m.data_
some_data n m e = cc

-- The data of the owner of `k` after the owner of `key` stored a value.
stored_data :
    (net : Network) (key k : ℕ) (value : List ℕ) (s t : ℕ) (o mt mt' : Node)
    → find s net ≡ some o
    → find t net ≡ some mt
    → find t (assign s (add_data_locally key value o) net) ≡ some mt'
    → (key ≡ k → s ≡ t)
    → find k mt'.data_ ≡ (if key == k then some value else find k mt.data_)
unfolding add_data_locally
stored_data net key k value s t o mt mt' eo et et' owner = elim (Bool-cases (s == t)) [
  | inl h ↦
      let before = some_data o mt (sym eo ∙ ap (λ q. find q net) (ground (arith, h)) ∙ et) in
      let after =
        some_data (add_data_locally key value o) mt'
          (sym (ground (arith, find-assign s t (add_data_locally key value o) net, h)) ∙ et') in
      sym (ap (λ d. find k d) after)
      ∙ find-assign key k value o.data_
      ∙ ap (λ d. if key == k then some value else find k d) before
  | inr h ↦
      let after = some_data mt mt' (
        sym et
        ∙ sym (ground (arith, find-assign s t (add_data_locally key value o) net, h))
        ∙ et') in
      ground (arith, owner, h, ap (λ d. find k d) after)
]

-- On a settled ring (`IsRing`), and with 2 ^ 16 rounds for each lookup, `addData` through one peer succeeds,
-- and `retrieveData` of any key through any peer then returns the new value if it is the key that
-- was added, and what it returned before if it is another one.
pub retrieve_data-add_data :
    (c : Config) (writer reader key k tries fuel tries' fuel' : ℕ) (value : List ℕ) (net : Network)
    (n m : Node)
    → IsRing c net
    → find writer net ≡ some n
    → find reader net ≡ some m
    → 2 ^ 16 ≤ fuel
    → 2 ^ 16 ≤ fuel'
    → (net' : Network) × (before : Option (List ℕ)) × (add_data c writer
          (suc tries)
          fuel
          key
          value
          net
        ≡ ok (some true, net'))
      × (retrieve_data c reader (suc tries') fuel' k net ≡ ok (some before, net))
      × (retrieve_data c reader (suc tries') fuel' k net'
          ≡ ok (some (if key == k then some value else before), net'))
unfolding add_data
retrieve_data-add_data c writer reader key k tries fuel tries' fuel' value net n m ring e e' enough
      enough' =
    let (s, es, own) =
      find_successor-IsOwner c writer (hash_string c key) tries fuel net n (hash_string-lt c key)
        ring e enough in
    let (o, eo, up) = owner_found c (hash_string c key) net s ring own in
    let o' = add_data_locally key value o in
    let net' = assign s o' net in
    let place = add_data_locally-IsSamePlace key value o in
    let (r, er) = find-assign_after net s reader o o' m e' in
    let (t, mt, own_t, et, read) =
      retrieve_data-IsOwner c reader k tries' fuel' net m ring e' enough' in
    let (t', mt', own_t', et', read') =
      retrieve_data-IsOwner c reader k tries' fuel' net' r
        (IsRing-assign c net s o o' eo place ring) er enough' in
    let same =
      IsOwner-unique c (hash_string c k) net t' t (hash_string-lt c k) ring
        (IsOwner-assign c net s o o' eo place (hash_string c k) t' own_t') own_t in
    (
      net',
      find k mt.data_,
      ap (λ a. a >>= add_data_at c writer key value) es
          ∙ add_data_at-find c writer s key value net o eo up,
      read,
      read'
          ∙ ap (λ a. ok (some a, net'))
              (stored_data net key k value s t o mt mt' eo et
                (sym (ap (λ q. find q net') same) ∙ et')
                (λ h.
                  IsOwner-unique c (hash_string c key) net s t (hash_string-lt c key) ring own
                    (subst (λ q. IsOwner (hash_string c q) net t) (sym h) own_t))),
    )

-- Adding data leaves a settled ring, of the same peers.
pub add_data-IsRing :
    (c : Config) (writer key tries fuel : ℕ) (value : List ℕ) (net : Network) (n : Node)
    → IsRing c net
    → find writer net ≡ some n
    → 2 ^ 16 ≤ fuel
    → (net' : Network) × (add_data c writer (suc tries) fuel key value net ≡ ok (some true, net'))
      × IsRing c net'
      × ((n' : Node) × (find writer net' ≡ some n'))
unfolding add_data
add_data-IsRing c writer key tries fuel value net n ring e enough =
    let (s, es, own) =
      find_successor-IsOwner c writer (hash_string c key) tries fuel net n (hash_string-lt c key)
        ring e enough in
    let (o, eo, up) = owner_found c (hash_string c key) net s ring own in
    let o' = add_data_locally key value o in
    (
      assign s o' net,
      ap (λ a. a >>= add_data_at c writer key value) es
          ∙ add_data_at-find c writer s key value net o eo up,
      IsRing-assign c net s o o' eo (add_data_locally-IsSamePlace key value o) ring,
      find-assign_after net s writer o o' n e,
    )
