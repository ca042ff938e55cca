-- ===== src/Chord/Owner.antt =====
-- The owner of a key on a settled ring, findSuccessor, and steps that keep the places of the peers.
use map_api.Prelude.{
  ℕ, suc, ◌^◌, ◌<◌, ◌≤◌, ◌≡◌, refl, sym, ap, ◌∙◌, true, false, some, ◌==◌, arith, inl, inr,
}
use map_api.Prelude.Tests.{Bool-cases}
use map_api.Prelude.Checked.{ok}
use map_api.Prelude.Map.{find, assign}
use map_api.Chord.{Config, is_in, Node}
use map_api.Chord.Network.{Network}
use map_api.Chord.Ring.{
  IsLinked, IsRing, IsSamePlace, get_successor_rpc-find, find-assign_before, find-assign_after,
}
use map_api.Chord.Clockwise.{hash_peer-lt, is_in-overlap}
use map_api.Chord.Lookup.{own_node, find_successor}
use map_api.Chord.Termination.{IsPredecessor, find_predecessor-IsPredecessor}

-- The successor of the peer whose interval the key is in.
pub record IsOwner (key : ℕ) (net : Network) (s : ℕ) : Type 0 where
  pub p : ℕ
  pub n : Node
  pub p_found : find p net ≡ some n
  pub n_is_in : is_in key n.own_key n.successor.key ≡ true
  pub successor_eq : n.successor.id ≡ s

same_node :
    (net : Network) (p q : ℕ) (n m : Node)
    → p ≡ q
    → find p net ≡ some n
    → find q net ≡ some m
    → n ≡ m
same_node net p q n m eq e e' = some-inj (sym e ∙ ap (λ k. find k net) eq ∙ e')
  where
    some-inj : some n ≡ some m → n ≡ m
    some-inj h = cc

own_key-lt :
    (c : Config) (net : Network) (p : ℕ) (n : Node) → IsLinked c net p n → n.own_key < 2 ^ 16
own_key-lt c net p n link = omega (arith, link.own_key_eq, hash_peer-lt c p)

successor_key-lt :
    (c : Config) (net : Network) (p : ℕ) (n : Node) → IsLinked c net p n → n.successor.key < 2 ^ 16
successor_key-lt c net p n link =
    omega (arith, link.successor_key_eq, hash_peer-lt c n.successor.id)

-- On a settled ring a key has one owner.
pub IsOwner-unique :
    (c : Config) (key : ℕ) (net : Network) (s t : ℕ)
    → key < 2 ^ 16
    → IsRing c net
    → IsOwner key net s
    → IsOwner key net t
    → s ≡ t
IsOwner-unique c key net s t small ring a b =
    let link = ring.linked a.p a.n a.p_found in
    let link' = ring.linked b.p b.n b.p_found in
    let either =
      is_in-overlap key a.n.own_key a.n.successor.key b.n.own_key b.n.successor.key small
        (own_key-lt c net a.p a.n link) (successor_key-lt c net a.p a.n link)
        (own_key-lt c net b.p b.n link') (successor_key-lt c net b.p b.n link') a.n_is_in
        b.n_is_in in
    let same : a.p ≡ b.p = elim (Bool-cases (is_in b.n.own_key a.n.own_key a.n.successor.key)) [
      | inl h ↦ sym (ring.apart a.p b.p a.n b.n a.p_found b.p_found h)
      | inr h ↦ ring.apart b.p a.p b.n a.n b.p_found a.p_found (ground (arith, either, h))
    ] in
    sym a.successor_eq
    ∙ ap (λ n. n.successor.id) (same_node net a.p b.p a.n b.n same a.p_found b.p_found)
    ∙ b.successor_eq

-- findSuccessor ends, with the owner.
pub find_successor-IsOwner :
    (c : Config) (self key tries fuel : ℕ) (net : Network) (n : Node)
    → key < 2 ^ 16
    → IsRing c net
    → find self net ≡ some n
    → 2 ^ 16 ≤ fuel
    → (s : ℕ) × (find_successor c self key (suc tries) fuel net ≡ ok (some s, net))
      × IsOwner key net s
unfolding find_successor own_node
find_successor-IsOwner c self key tries fuel net n small ring e enough =
    elim (Bool-cases (is_in key n.own_key n.successor.key)) [
      | inl h ↦ (
        n.successor.id,
        ground (arith, e, h),
        record { p = self; n = n; p_found = e; n_is_in = h; successor_eq = refl },
      )
      | inr h ↦
          let (p, ep, pred) =
            find_predecessor-IsPredecessor c self key tries fuel net n small ring e enough in
          let other : (p == self) ≡ false = elim (Bool-cases (p == self)) [
            | inl d ↦ (let clash = contradiction p pred (ground (arith, d)) h in cc)
            | inr d ↦ d
          ] in
          (
            pred.node.successor.id,
            ground (
              arith,
              e,
              h,
              ep,
              other,
              get_successor_rpc-find c self p net pred.node pred.node_found,
            ),
            record {
              p = p;
              n = pred.node;
              p_found = pred.node_found;
              n_is_in = pred.node_is_in;
              successor_eq = refl;
            },
          )
    ]
  where
    contradiction :
        (p : ℕ) (pred : IsPredecessor key net p)
        → p ≡ self
        → is_in key n.own_key n.successor.key ≡ false
        → false ≡ true
    contradiction p pred d h =
        sym h
        ∙ ap (λ m. is_in key m.own_key m.successor.key)
            (same_node net self p n pred.node (sym d) e pred.node_found)
        ∙ pred.node_is_in

module _ (c : Config) (net : Network) (s : ℕ) (n n' : Node) (found : find s net ≡ some n)
    (same : IsSamePlace n n') where
  IsLinked-assign :
      (q : ℕ) (k' k : Node)
      → IsLinked c net q k'
      → IsSamePlace k' k
      → IsLinked c (assign s n' net) q k
  IsLinked-assign q k' k link place = record {
    self_eq = sym place.same_self ∙ link.self_eq;
    own_key_eq = sym place.same_key ∙ link.own_key_eq;
    successor_key_eq = rw (← place.same_successor) link.successor_key_eq;
    is_initialized = sym place.same_initialized ∙ link.is_initialized;
    successor_found =
        let (m, em) = link.successor_found in
        rw (← place.same_successor) (find-assign_after net s k'.successor.id n n' m em);
  }

  -- A step of a peer that keeps its place keeps the ring.
  pub IsRing-assign : IsRing c net → IsRing c (assign s n' net)
  IsRing-assign ring = record {
    linked = λ q k e.
        let (k', e', place) = find-assign_before net s q n n' k found same e in
        IsLinked-assign q k' k (ring.linked q k' e') place;
    apart = λ p q k m e e' h.
        let (k', ek, place) = find-assign_before net s p n n' k found same e in
        let (m', em, place') = find-assign_before net s q n n' m found same e' in
        ring.apart p q k' m' ek em (rw (place'.same_key, place.same_key, place.same_successor) h);
  }

  pub IsOwner-assign : (key t : ℕ) → IsOwner key (assign s n' net) t → IsOwner key net t
  IsOwner-assign key t own =
      let (k, e, place) = find-assign_before net s own.p n n' own.n found same own.p_found in
      record {
        p = own.p;
        n = k;
        p_found = e;
        n_is_in = rw (place.same_key, place.same_successor) own.n_is_in;
        successor_eq = rw place.same_successor own.successor_eq;
      }
