-- ===== src/Chord/AllOrNothing.antt =====
-- The loop of tryLockInOrder, and the locks before and after it.
use mathlib.Core.Path.{subst}
use mathlib.Core.List.{append_assoc, append-nil}
use map_api.Prelude.{
  ℕ, ◌≡◌, refl, sym, ap, ◌∙◌, true, false, none, some, List, [], ◌∷◌, ◌++◌, ◌==◌, if◌then◌else◌,
  arith, inl, inr,
}
use map_api.Prelude.Tests.{==_iff, ==_refl}
use map_api.Prelude.Checked.{ok}
use map_api.Prelude.Map.{find}
use map_api.Prelude.IdSet.{contains, contains-snoc}
use map_api.Chord.{Config, Node}
use map_api.Chord.Network.{Network}
use map_api.Chord.NodeLocks.{
  Attempt, locked, refused, waits, insert_by_hash, sort_by_hash, skip_equal, unique, lock_order,
  lock_all, try_lock_in_order,
}
use map_api.Chord.Locking.{IsDistinct, holder, HasLocked, try_lock-cases, unlock_all-holder}

-- What the locks are after an attempt to lock the subjects.
unfoldable pub IsAllOrNothing : ℕ → List ℕ → Network → Attempt × Network → Type 0
IsAllOrNothing self subjects net (locked, net') =
    ((p : ℕ) → (if contains p subjects then holder p net else none) ≡ none)
    × ((p : ℕ) → holder p net' ≡ (if contains p subjects then some self else holder p net))
IsAllOrNothing self subjects net (refused, net') = (p : ℕ) → holder p net' ≡ holder p net
IsAllOrNothing self subjects net (waits, net') =
    (contains self subjects ≡ true) × (h : ℕ) × (holder self net' ≡ some h)

IsDistinct-snoc :
    (s : ℕ) (held : List ℕ)
    → IsDistinct held
    → contains s held ≡ false
    → IsDistinct (held ++ s ∷ [])
unfolding contains
IsDistinct-snoc s [] d h = (refl, tt)
IsDistinct-snoc s (t ∷ held) d h = (
  ground (arith, contains-snoc s t held, d.0, ==_iff s t, ==_iff t s),
  IsDistinct-snoc s held d.1 (ground (arith, h)),
)

contains-append_cons : (s : ℕ) (held subjects : List ℕ) → contains s (held ++ s ∷ subjects) ≡ true
unfolding contains
contains-append_cons s [] subjects = ground (arith, ==_refl s)
contains-append_cons s (t ∷ held) subjects = ground (arith, contains-append_cons s held subjects)

-- In the loop, of the network `net0` that it began with.
record IsHeld (self : ℕ) (held : List ℕ) (net0 net : Network) : Type 0 where
  distinct : IsDistinct held
  were_free : (p : ℕ) → (if contains p held then holder p net0 else none) ≡ none
  are_held : (p : ℕ) → holder p net ≡ (if contains p held then some self else holder p net0)

not_contains-held :
    (self s : ℕ) (held : List ℕ) (net0 net : Network)
    → IsHeld self held net0 net
    → holder s net ≡ none
    → (contains s held ≡ false) × (holder s net0 ≡ none)
not_contains-held self s held net0 net inv free =
    (ground (arith, inv.are_held s, free), ground (arith, inv.are_held s, free))

IsHeld-snoc :
    (self s : ℕ) (held : List ℕ) (net0 net net' : Network)
    → IsHeld self held net0 net
    → HasLocked self s net net'
    → IsHeld self (held ++ s ∷ []) net0 net'
IsHeld-snoc self s held net0 net net' inv done =
    let (out, free) = not_contains-held self s held net0 net inv done.was_free in
    record {
      distinct = IsDistinct-snoc s held inv.distinct out;
      were_free = λ p. ground (
        arith,
        contains-snoc s p held,
        inv.were_free p,
        free,
        ==_iff s p,
        ap (λ q. holder q net0) {x = s} {y = p},
      );
      are_held = λ p. ground (arith, contains-snoc s p held, inv.are_held p, done.now_held p);
    }

lock_all-IsAllOrNothing :
    (c : Config) (self : ℕ) (subjects held : List ℕ) (net0 net : Network) (me : Node)
    → find self net ≡ some me
    → IsHeld self held net0 net
    → (result : Attempt × Network) × (lock_all c self held subjects net ≡ ok result)
      × IsAllOrNothing self (held ++ subjects) net0 result
unfolding lock_all IsAllOrNothing
lock_all-IsAllOrNothing c self [] held net0 net me em inv =
    ((locked, net), refl, rw (append-nil held) (inv.were_free, inv.are_held))
lock_all-IsAllOrNothing c self (s ∷ subjects) held net0 net me em inv =
    elim (try_lock-cases c self s net me em) [
      | inl (net1, e, done) ↦
          let (me1, em1) = done.still_found me em in
          let (result, er, all) =
            lock_all-IsAllOrNothing c self subjects (held ++ s ∷ []) net0 net1 me1 em1
              (IsHeld-snoc self s held net0 net net1 inv done) in
          (
            result,
            rw (lock_all, e) er,
            subst (λ l. IsAllOrNothing self l net0 result) (append_assoc held (s ∷ []) subjects)
                all,
          )
      | inr (inl e) ↦
          let (net2, eu, hu) =
            unlock_all-holder c self held net inv.distinct
              (λ p q. ground (arith, inv.are_held p, q)) in
          (
            (refused, net2),
            rw (lock_all, e, eu) refl,
            λ p. ground (arith, hu p, inv.are_held p, inv.were_free p),
          )
      | inr (inr (e, es, h, eh)) ↦ (
        (waits, net),
        rw (lock_all, e) refl,
        (
          subst (λ q. contains q (held ++ s ∷ subjects) ≡ true) es
              (contains-append_cons s held subjects),
          h,
          ap (λ q. holder q net) (sym es) ∙ eh,
        ),
      )
    ]

contains-insert_by_hash :
    (c : Config) (p a : ℕ) (peers : List ℕ)
    → contains p (insert_by_hash c a peers) ≡ (if a == p then true else contains p peers)
unfolding insert_by_hash contains
contains-insert_by_hash c p a [] = refl
contains-insert_by_hash c p a (b ∷ peers) = ground (arith, contains-insert_by_hash c p a peers)

contains-sort_by_hash :
    (c : Config) (p : ℕ) (peers : List ℕ) → contains p (sort_by_hash c peers) ≡ contains p peers
unfolding sort_by_hash contains
contains-sort_by_hash c p [] = refl
contains-sort_by_hash c p (a ∷ peers) =
    ground
      (arith, contains-insert_by_hash c p a (sort_by_hash c peers), contains-sort_by_hash c p peers)

contains-skip_equal :
    (p a : ℕ) (peers : List ℕ)
    → (if a == p then true else contains p (skip_equal a peers))
      ≡ (if a == p then true else contains p peers)
unfolding skip_equal contains
contains-skip_equal p a [] = refl
contains-skip_equal p a (b ∷ peers) = ground (arith, contains-skip_equal p b peers)

-- Sorting and removing equal neighbours keep the set of the peers.
pub contains-lock_order :
    (c : Config) (p : ℕ) (subjects : List ℕ)
    → contains p (lock_order c subjects) ≡ contains p subjects
unfolding lock_order unique contains
contains-lock_order c p subjects = go (sort_by_hash c subjects) ∙ contains-sort_by_hash c p subjects
  where
    go : (peers : List ℕ) → contains p (unique peers) ≡ contains p peers
    go [] = refl
    go (a ∷ peers) = contains-skip_equal p a peers

IsAllOrNothing-same_set :
    (self : ℕ) (xs ys : List ℕ) (net : Network) (result : Attempt × Network)
    → ((p : ℕ) → contains p xs ≡ contains p ys)
    → IsAllOrNothing self xs net result
    → IsAllOrNothing self ys net result
unfolding IsAllOrNothing
IsAllOrNothing-same_set self xs ys net (locked, net') same h =
    (λ p. ground (arith, h.0 p, same p), λ p. ground (arith, h.1 p, same p))
IsAllOrNothing-same_set self xs ys net (refused, net') same h = h
IsAllOrNothing-same_set self xs ys net (waits, net') same h = (sym (same self) ∙ h.0, h.1, h.2)

-- For a peer in the network, tryLockInOrder passes its checks and ends in one of three ways: every
-- subject was free and the peer now holds exactly those locks besides the ones that were held; or
-- it is refused, and every lock is held by whom it was; or it waits for its own lock, which is one
-- of the subjects and is held.
pub try_lock_in_order-IsAllOrNothing :
    (c : Config) (self : ℕ) (subjects : List ℕ) (net : Network) (me : Node)
    → find self net ≡ some me
    → (result : Attempt × Network) × (try_lock_in_order c self subjects net ≡ ok result)
      × IsAllOrNothing self subjects net result
unfolding try_lock_in_order contains
try_lock_in_order-IsAllOrNothing c self subjects net me em =
    let (result, e, all) =
      lock_all-IsAllOrNothing c self (lock_order c subjects) [] net net me em
        (record { distinct = tt; were_free = λ p. refl; are_held = λ p. refl }) in
    (
      result,
      e,
      IsAllOrNothing-same_set self (lock_order c subjects) subjects net result
          (λ p. contains-lock_order c p subjects) all,
    )
