-- ===== src/Chord/Locking.antt =====
-- The locks of tryLockInOrder: who holds the lock of which peer before and after.
use map_api.Prelude.{
  ℕ, ◌≡◌, refl, sym, ap, ◌∙◌, ◌⊎◌, true, false, not, Option, none, some, List, [], ◌∷◌, ◌==◌, ◌&&◌,
  if◌then◌else◌, arith, inl, inr,
}
use map_api.Prelude.Tests.{Bool-cases, ==_refl, Option-cases}
use map_api.Prelude.Checked.{ok, ◌>>=◌}
use map_api.Prelude.Map.{find, assign, find-assign}
use map_api.Prelude.IdSet.{contains, contains_eq}
use map_api.Chord.{Config, hash_peer, Node}
use map_api.Chord.Handlers.{handle_lock, handle_unlock}
use map_api.Chord.Requests.{
  Request, lock_request, unlock_request, ack, decline, acked, handle_routed_request,
}
use map_api.Chord.Network.{Network, accepted, lock_rpc, unlock_rpc, expect_ack, rpc}
use map_api.Chord.Ring.{rpc-find, assign-find, find-assign_after}
use map_api.Chord.Lookup.{own_node}
use map_api.Chord.NodeLocks.{
  locked, refused, waits, acknowledged, attempt_of, lock, try_lock, unlock_self, unlock, unlock_all,
}

unfoldable pub lock_of : Node → Option ℕ
lock_of n = if n.node_locked then some n.node_lock_holder else none

-- No peer stands twice.
abbrev pub IsDistinct : List ℕ → Type 0
IsDistinct [] = Unit {0}
IsDistinct (s ∷ subjects) = (contains s subjects ≡ false) × IsDistinct subjects

-- Who holds the lock of a peer.
unfoldable pub holder : ℕ → Network → Option ℕ
unfolding lock_of
holder p net = elim (find p net) [ none ↦ none | some n ↦ lock_of n ]

holder_found : (p : ℕ) (net : Network) (n : Node) → find p net ≡ some n → holder p net ≡ lock_of n
unfolding holder
holder_found p net n e = ground (arith, e)

holder-some :
    (p : ℕ) (net : Network) (h : ℕ)
    → holder p net ≡ some h
    → (n : Node) × (find p net ≡ some n) × (n.node_locked ≡ true) × (n.node_lock_holder ≡ h)
unfolding holder lock_of
holder-some p net h e = elim (Option-cases (find p net)) [
  | inl d ↦ absurd (ground (arith, d, e))
  | inr (n, d) ↦ (n, d, ground (arith, d, e), ground (arith, d, e))
]

holder-assign :
    (s p : ℕ) (n : Node) (net : Network)
    → holder p (assign s n net) ≡ (if s == p then lock_of n else holder p net)
unfolding holder
holder-assign s p n net = ground (arith, find-assign s p n net)

-- How a lock of `s` by `self` changes the holders.
pub record HasLocked (self s : ℕ) (net net' : Network) : Type 0 where
  pub was_free : holder s net ≡ none
  pub now_held : (p : ℕ) → holder p net' ≡ (if s == p then some self else holder p net)
  pub still_found :
      (me : Node) → find self net ≡ some me → (me' : Node) × (find self net' ≡ some me')

HasLocked-assign :
    (self s : ℕ) (net : Network) (n : Node)
    → find s net ≡ some n
    → n.node_locked ≡ false
    → HasLocked self s net (assign s (record n { node_locked = true; node_lock_holder = self }) net)
unfolding lock_of
HasLocked-assign self s net n e free =
    let n' = record n { node_locked = true; node_lock_holder = self } in
    record {
      was_free = holder_found s net n e ∙ rw free refl;
      now_held = λ p. holder-assign s p n' net;
      still_found = λ me em. find-assign_after net s self n n' me em;
    }

rpc_missing :
    (c : Config) (self s : ℕ) (request : Request) (net : Network)
    → find s net ≡ none
    → (rpc c self s request net >>= expect_ack) ≡ ok (false, net)
unfolding rpc expect_ack
rpc_missing c self s request net e = ground (arith, e)

rpc_acked :
    (c : Config) (self s : ℕ) (request : Request) (net : Network) (n n' : Node)
    → find s net ≡ some n
    → handle_routed_request c self request n ≡ ok (ack, n')
    → (rpc c self s request net >>= expect_ack) ≡ ok (true, assign s n' net)
unfolding expect_ack accepted
rpc_acked c self s request net n n' e h =
    ap (λ o. o >>= expect_ack) (rpc-find c self s request net n n' ack e h)

rpc_declined :
    (c : Config) (self s : ℕ) (request : Request) (net : Network) (n : Node)
    → find s net ≡ some n
    → handle_routed_request c self request n ≡ ok (decline, n)
    → (rpc c self s request net >>= expect_ack) ≡ ok (false, net)
unfolding expect_ack accepted
rpc_declined c self s request net n e h =
    ap (λ o. o >>= expect_ack) (rpc-find c self s request net n n decline e h)
    ∙ ap (λ m. ok (false, m)) (assign-find s n net e)

handle_lock-taken :
    (self : ℕ) (n : Node)
    → n.initialized ≡ true
    → n.node_locked ≡ false
    → handle_lock self n ≡ (true, record n { node_locked = true; node_lock_holder = self })
unfolding handle_lock map_api.Chord.wait_until_initialized
handle_lock-taken self n up free = rw (up, free) refl

handle_lock-declined :
    (self : ℕ) (n : Node)
    → (n.initialized && not n.node_locked) ≡ false
    → handle_lock self n ≡ (false, n)
unfolding handle_lock map_api.Chord.wait_until_initialized
handle_lock-declined self n h = elim (Bool-cases n.initialized) [
  | inl up ↦ elim (Bool-cases n.node_locked) [
    | inl held ↦ rw (up, held) refl
    | inr held ↦ absurd (ground (arith, up, held, h))
  ]
  | inr up ↦ rw up refl
]

-- The answers to a lock request.
lock_rpc-cases :
    (c : Config) (self s : ℕ) (net : Network)
    → (lock_rpc c self s net ≡ ok (false, net))
      ⊎ ((net' : Network) × (lock_rpc c self s net ≡ ok (true, net')) × HasLocked self s net net')
unfolding lock_rpc handle_routed_request acked
lock_rpc-cases c self s net = elim (Option-cases (find s net)) [
  | inl e ↦ inl (rpc_missing c self s lock_request net e)
  | inr (n, e) ↦ elim (Bool-cases (n.initialized && not n.node_locked)) [
    | inl h ↦
        let up : n.initialized ≡ true = ground (arith, h) in
        let free : n.node_locked ≡ false = ground (arith, h) in
        let n' = record n { node_locked = true; node_lock_holder = self } in
        inr (
          assign s n' net,
          rpc_acked c self s lock_request net n n' e
              (ap (λ o. ok (acked o)) (handle_lock-taken self n up free)),
          HasLocked-assign self s net n e free,
        )
    | inr h ↦ inl (
        rpc_declined c self s lock_request net n e
          (ap (λ o. ok (acked o)) (handle_lock-declined self n h)))
  ]
]

-- An attempt locks the peer, or leaves the network as it is.
pub try_lock-cases :
    (c : Config) (self s : ℕ) (net : Network) (me : Node)
    → find self net ≡ some me
    → ((net' : Network) × (try_lock c self s net ≡ ok (locked, net')) × HasLocked self s net net')
      ⊎ (try_lock c self s net ≡ ok (refused, net))
      ⊎ ((try_lock c self s net ≡ ok (waits, net)) × (s ≡ self) × (h : ℕ) × (holder s net ≡ some h))
unfolding try_lock lock own_node attempt_of lock_of
try_lock-cases c self s net me em = elim (Bool-cases (s == self)) [
  | inl d ↦
      let es : s ≡ self = ground (arith, d) in
      let ems = ap (λ q. find q net) es ∙ em in
      elim (Bool-cases me.node_locked) [
        | inl h ↦ inr (
            inr (
              ground (arith, d, em, h),
              es,
              me.node_lock_holder,
              holder_found s net me ems ∙ rw h refl,
            ))
        | inr h ↦ inl (
          assign s (record me { node_locked = true; node_lock_holder = self }) net,
          ground (arith, d, em, h, es),
          HasLocked-assign self s net me ems h,
        )
      ]
  | inr d ↦ elim (lock_rpc-cases c self s net) [
    | inl e ↦ inr (inl (rw d (ap (λ o. o >>= λ outcome. ok (attempt_of outcome)) e)))
    | inr (net', e, done) ↦
        inl (net', rw d (ap (λ o. o >>= λ outcome. ok (attempt_of outcome)) e), done)
  ]
]

unlock_self-HasUnlocked :
    (c : Config) (self s : ℕ) (net : Network)
    → holder s net ≡ some self
    → (net' : Network) × (unlock c self s net ≡ ok net')
      × ((p : ℕ) → holder p net' ≡ (if s == p then none else holder p net))
unfolding unlock unlock_self own_node unlock_rpc handle_routed_request acked handle_unlock
    acknowledged lock_of
unlock_self-HasUnlocked c self s net e =
    let (n, en, held, owner) = holder-some s net self e in
    let n' = record n { node_locked = false } in
    (
      assign s n' net,
      elim (Bool-cases (s == self)) [
        | inl d ↦
            let es : s ≡ self = ground (arith, d) in
            let me = sym (ap (λ q. find q net) es) ∙ en in ground (arith, d, es, me, held, owner)
        | inr d ↦ rw d (
            ap (λ o. o >>= acknowledged)
              (rpc_acked c self s unlock_request net n n' en (rw (held, owner, ==_refl self) refl)))
      ],
      λ p. holder-assign s p n' net,
    )

pub unlock_all-holder :
    (c : Config) (self : ℕ) (held : List ℕ) (net : Network)
    → IsDistinct held
    → ((p : ℕ) → contains p held ≡ true → holder p net ≡ some self)
    → (net' : Network) × (unlock_all c self held net ≡ ok net')
      × ((p : ℕ) → holder p net' ≡ (if contains p held then none else holder p net))
unfolding unlock_all contains
unlock_all-holder c self [] net distinct owned = (net, refl, λ p. refl)
unlock_all-holder c self (s ∷ held) net distinct owned =
    let (net1, e1, h1) =
      unlock_self-HasUnlocked c self s net (owned s (ground (arith, ==_refl s))) in
    let (net2, e2, h2) =
      unlock_all-holder c self held net1 distinct.1
        (λ p q. ground (arith, h1 p, owned p, contains_eq s p held, distinct.0)) in
    (net2, ap (λ o. o >>= unlock_all c self held) e1 ∙ e2, λ p. ground (arith, h1 p, h2 p))
