-- ===== src/Chord/Membership.antt =====
-- map-api/src/chord-index.cc: joining and leaving the ring. The loops that try again run on fuel. The
-- ring does not change between the requests of one run.
use map_api.Prelude.{
  ℕ, zero, suc, Bool, true, false, Option, none, some, [], ◌∷◌, ◌==◌, ◌&&◌, if◌then◌else◌,
}
use map_api.Prelude.Checked.{Checked, ok, fatal, ◌>>=◌, ◌>>◌, check}
use map_api.Prelude.Map.{assign}
use map_api.Chord.{Config, hash_peer, is_in, init, register_predecessor, register_successor}
use map_api.Chord.Network.{
  Network, get_closest_preceding_finger_rpc, get_successor_rpc, get_predecessor_rpc, notify_rpc,
  replace_rpc, fetch_responsibilities_rpc, push_responsibilities_rpc,
}
use map_api.Chord.Lookup.{own_node}
use map_api.Chord.NodeLocks.{
  locked, refused, waits, acknowledged, try_lock_in_order, unlock, unlock_self, unlock_other,
}

-- `CHECK(rpc(…, &result))`
unfoldable pub checked_rpc {ℓ} : {A : Type ℓ} → Option A × Network → Checked (A × Network)
checked_rpc (none, net) = fatal
checked_rpc (some result, net) = ok (result, net)

module _ (c : Config) (self : ℕ) where
  -- The neighbours agree that they are neighbours: the end of the first step of `cleanJoin`.
  unfoldable pub are_neighbors : ℕ → ℕ → Network → Checked (Bool × Network)
  unfolding checked_rpc
  are_neighbors predecessor successor net =
      get_predecessor_rpc c self successor net >>= checked_rpc >>= λ (successor_predecessor, net1).
      get_successor_rpc c self predecessor net1 >>= checked_rpc >>= λ (predecessor_successor, net2).
      ok ((predecessor_successor == successor) && (successor_predecessor == predecessor), net2)

  -- The first step of `cleanJoin`: the locked predecessor and successor of a new peer.
  unfoldable pub lock_neighbors : ℕ → ℕ → ℕ → Network → Checked (Option (ℕ × ℕ) × Network)
  unfolding checked_rpc
  lock_neighbors own_key zero predecessor net = ok (none, net)
  lock_neighbors own_key (suc fuel) predecessor net =
      get_closest_preceding_finger_rpc c self predecessor own_key net
      >>= checked_rpc
      >>= λ (predecessor', net1).
          get_successor_rpc c self predecessor' net1 >>= checked_rpc >>= λ (successor, net2).
          elim (is_in own_key (hash_peer c predecessor') (hash_peer c successor)) [
            | false ↦ lock_neighbors own_key fuel predecessor' net2
            | true ↦
                try_lock_in_order c self (predecessor' ∷ successor ∷ []) net2 >>= λ (attempt, net3).
                elim attempt [
                  | refused ↦ lock_neighbors own_key fuel predecessor' net3
                  | waits ↦ ok (none, net3)
                  | locked ↦ are_neighbors predecessor' successor net3 >>= λ (agreed, net4).
                      elim agreed [
                        | true ↦ ok (some (predecessor', successor), net4)
                        | false ↦
                            unlock c self predecessor' net4
                            >>= unlock_other c self predecessor' successor
                            >>= lock_neighbors own_key fuel predecessor'
                      ]
                ]
          ]

  -- `CHECK(notifyRpc(to, PeerId::self()))`
  unfoldable pub notify : ℕ → Network → Checked Network
  unfolding acknowledged
  notify to net = notify_rpc c self to self net >>= acknowledged

  -- The steps 2 to 4 of `cleanJoin`.
  unfoldable pub enter_ring : ℕ → ℕ → Network → Checked Network
  unfolding checked_rpc
  enter_ring predecessor successor net = own_node self net >>= λ n.
      fetch_responsibilities_rpc c self successor n.data_ net >>= checked_rpc >>= λ (items, net1).
      let n' =
        register_successor c successor
          (register_predecessor c predecessor (record n { data_ = items })) in
      notify predecessor (assign self n' net1) >>= λ net2.
      (if predecessor == successor
        then ok net2
        else (notify successor net2 >>= unlock c self successor))
      >>= unlock c self predecessor

  unfoldable pub clean_join : ℕ → ℕ → Network → Checked (Option Network)
  clean_join other fuel net = own_node self net >>= λ n.
      lock_neighbors n.own_key fuel other net >>= λ (neighbors, net1). elim neighbors [
        | none ↦ ok none
        | some (predecessor, successor) ↦
            enter_ring predecessor successor net1 >>= λ net2. ok (some net2)
      ]

  -- `join` in the clean mode.
  unfoldable pub join : ℕ → ℕ → Network → Checked (Option Network)
  join other fuel net = own_node self net >>= λ n.
      clean_join other fuel (assign self (init c n) net) >>= λ joined. elim joined [
        | none ↦ ok none
        | some net1 ↦ own_node self net1 >>= λ n1.
            ok (some (assign self (record n1 { initialized = true }) net1))
      ]

  -- `verify validity` in `leaveClean`.
  unfoldable pub is_consistent : ℕ → ℕ → Network → Checked (Bool × Network)
  unfolding checked_rpc
  is_consistent predecessor successor net =
      if predecessor == self
      then (check (successor == self) >> ok (true, net))
      else (get_successor_rpc c self predecessor net
          >>= checked_rpc
          >>= λ (predecessor_successor, net1). own_node self net1 >>= λ n.
              get_predecessor_rpc c self successor net1
              >>= checked_rpc
              >>= λ (successor_predecessor, net2). ok (
                (predecessor_successor == self)
                    && ((n.predecessor.id == predecessor) && (n.successor.id == successor))
                    && (successor_predecessor == self),
                net2,
              ))

  -- The first step of `leaveClean`.
  unfoldable pub lock_to_leave : ℕ → Network → Checked (Option (ℕ × ℕ) × Network)
  lock_to_leave zero net = ok (none, net)
  lock_to_leave (suc fuel) net = own_node self net >>= λ n.
      try_lock_in_order c self (n.predecessor.id ∷ self ∷ n.successor.id ∷ []) net
      >>= λ (attempt, net1). elim attempt [
        | refused ↦ lock_to_leave fuel net1
        | waits ↦ ok (none, net1)
        | locked ↦ is_consistent n.predecessor.id n.successor.id net1 >>= λ (consistent, net2).
            elim consistent [
              | true ↦ ok (some (n.predecessor.id, n.successor.id), net2)
              | false ↦
                  unlock c self n.predecessor.id net2
                  >>= unlock_self c self
                  >>= unlock_other c self n.predecessor.id n.successor.id
                  >>= lock_to_leave fuel
            ]
      ]

  -- `CHECK(replaceRpc(to, PeerId::self(), peer))`
  unfoldable pub replace_self : ℕ → ℕ → Network → Checked Network
  unfolding acknowledged
  replace_self to peer net = replace_rpc c self to self peer net >>= acknowledged

  -- The steps 2 and 3 of `leaveClean`.
  unfoldable pub hand_over : ℕ → ℕ → Network → Checked Network
  hand_over predecessor successor net =
      if successor == self
      then ok net
      else (own_node self net >>= λ n.
          push_responsibilities_rpc c self successor n.data_ net >>= λ (pushed, net1).
          replace_self successor predecessor net1 >>= λ net2.
          (if successor == predecessor
            then ok net2
            else (replace_self predecessor successor net2 >>= unlock c self predecessor))
          >>= unlock c self successor)

  unfoldable pub leave_clean : ℕ → Network → Checked (Option Network)
  leave_clean fuel net = lock_to_leave fuel net >>= λ (neighbors, net1). elim neighbors [
    | none ↦ ok none
    | some (predecessor, successor) ↦ hand_over predecessor successor net1 >>= λ net2.
        own_node self net2 >>= λ n.
        unlock_self c self (assign self (record n { terminate = true }) net2) >>= λ net3.
        ok (some net3)
  ]

  unfoldable pub leave : ℕ → Network → Checked (Option Network)
  leave fuel net = leave_clean fuel net >>= λ left. elim left [
    | none ↦ ok none
    | some net1 ↦ own_node self net1 >>= λ n.
        ok (some (assign self (record n { initialized = false; integrated = false }) net1))
  ]
