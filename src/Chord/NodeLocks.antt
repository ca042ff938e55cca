-- ===== src/Chord/NodeLocks.antt =====
-- map-api/src/chord-index.cc: locking this peer and others. A wait for the peer's own lock ends the
-- run as `waits`.
use map_api.Prelude.{ℕ, Bool, true, false, List, [], ◌∷◌, ◌++◌, ltb, ◌==◌, if◌then◌else◌}
use map_api.Prelude.Checked.{Checked, ok, fatal, ◌>>=◌, ◌>>◌, check}
use map_api.Prelude.Map.{assign}
use map_api.Chord.{Config, hash_peer}
use map_api.Chord.Network.{Network, lock_rpc, unlock_rpc}
use map_api.Chord.Lookup.{own_node}

pub data Attempt : Type 0 where
  locked : Attempt
  refused : Attempt
  waits : Attempt

-- `CHECK(rpc(…))`
unfoldable pub acknowledged : Bool × Network → Checked Network
acknowledged (true, net) = ok net
acknowledged (false, net) = fatal

-- `std::sort` by the hash.
unfoldable pub insert_by_hash : Config → ℕ → List ℕ → List ℕ
insert_by_hash c a [] = a ∷ []
insert_by_hash c a (b ∷ peers) =
    let rest = insert_by_hash c a peers in
    if ltb (hash_peer c b) (hash_peer c a) then b ∷ rest else a ∷ b ∷ peers

-- `std::sort`, which leaves open in which order peers of one hash stand: here it is the one in
-- which they are given.
unfoldable pub sort_by_hash : Config → List ℕ → List ℕ
sort_by_hash c [] = []
sort_by_hash c (a ∷ peers) = insert_by_hash c a (sort_by_hash c peers)

-- `std::unique`: of equal neighbours, the first stays.
unfoldable pub skip_equal : ℕ → List ℕ → List ℕ
skip_equal a [] = []
skip_equal a (b ∷ peers) = let rest = skip_equal b peers in if a == b then rest else b ∷ rest

unfoldable pub unique : List ℕ → List ℕ
unique [] = []
unique (a ∷ peers) = a ∷ skip_equal a peers

-- The order in which `tryLockInOrder` locks.
unfoldable pub lock_order : Config → List ℕ → List ℕ
lock_order c subjects = unique (sort_by_hash c subjects)

unfoldable pub attempt_of : Bool × Network → Attempt × Network
attempt_of (true, net) = (locked, net)
attempt_of (false, net) = (refused, net)

module _ (c : Config) (self : ℕ) where
  -- `lock()`
  unfoldable pub lock : Network → Checked (Attempt × Network)
  lock net = own_node self net >>= λ n.
      if n.node_locked
      then ok (waits, net)
      else ok (locked, assign self (record n { node_locked = true; node_lock_holder = self }) net)

  unfoldable pub try_lock : ℕ → Network → Checked (Attempt × Network)
  unfolding attempt_of
  try_lock subject net =
      if subject == self
      then lock net
      else (lock_rpc c self subject net >>= λ outcome. ok (attempt_of outcome))

  -- `unlock()`
  unfoldable pub unlock_self : Network → Checked Network
  unlock_self net = own_node self net >>= λ n.
      check n.node_locked
      >> check (n.node_lock_holder == self)
      >> ok (assign self (record n { node_locked = false }) net)

  -- `unlock(subject)`
  unfoldable pub unlock : ℕ → Network → Checked Network
  unfolding acknowledged
  unlock subject net =
      if subject == self then unlock_self net else (unlock_rpc c self subject net >>= acknowledged)

  -- The loop over the peers that were locked before the one that refused.
  unfoldable pub unlock_all : List ℕ → Network → Checked Network
  unlock_all [] net = ok net
  unlock_all (subject ∷ subjects) net = unlock subject net >>= unlock_all subjects

  -- The loop of `tryLockInOrder`: `held` are the peers before the iterator.
  unfoldable pub lock_all : List ℕ → List ℕ → Network → Checked (Attempt × Network)
  lock_all held [] net = ok (locked, net)
  lock_all held (subject ∷ subjects) net = try_lock subject net >>= λ (attempt, net1).
      elim attempt [
        | locked ↦ lock_all (held ++ subject ∷ []) subjects net1
        | refused ↦ unlock_all held net1 >>= λ net2. ok (refused, net2)
        | waits ↦ ok (waits, net1)
      ]

  unfoldable pub try_lock_in_order : List ℕ → Network → Checked (Attempt × Network)
  try_lock_in_order subjects net = lock_all [] (lock_order c subjects) net

  -- `if (a != b) unlock(b)`
  unfoldable pub unlock_other : ℕ → ℕ → Network → Checked Network
  unlock_other a b net = if a == b then ok net else unlock b net
