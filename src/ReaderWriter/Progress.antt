-- ===== src/ReaderWriter/Progress.antt =====
-- The states of the locks in which no thread can run.
use mathlib.Core.Path.{subst}
use map_api.Prelude.{ℕ, ◌≤◌, ◌≡◌, refl, Bool, true, false, List, [], ◌∷◌, ◌&&◌, arith}
use map_api.ReaderWriter.{
  Policy, writer_first, reader_first, Mutex, Phase, idle, entering, draining, awaiting, upgrading,
  must_not_read, must_drain, must_await, Reach,
}
use map_api.ReaderWriter.Invariant.{
  total, is_reading, is_writing, is_upgrading, is_draining, is_awaiting, Pending, Reach-IsCounted,
}
use map_api.ReaderWriter.Wakeups.{is_finishing, has_reason, AllReason, Reach-HasNoLostWakeup}

-- The thread has no call to go on with, or sleeps in one.
unfoldable pub is_quiet : Phase → Bool
is_quiet idle = true
is_quiet (entering asleep) = asleep
is_quiet (draining asleep) = asleep
is_quiet (awaiting asleep) = asleep
is_quiet (upgrading asleep) = asleep
is_quiet p = false

abbrev pub is_idle : Phase → Bool
is_idle idle = true
is_idle p = false

abbrev pub all_of : (Phase → Bool) → List Phase → Bool
all_of test [] = true
all_of test (p ∷ threads) = test p && all_of test threads

quiet_totals :
    (threads : List Phase)
    → all_of is_quiet threads ≡ true
    → (total is_reading threads ≡ 0)
      × (total is_writing threads ≡ 0)
      × (total is_finishing threads ≡ 0)
unfolding total is_quiet
quiet_totals [] h = (refl, refl, refl)
quiet_totals (p ∷ threads) h = ground (arith, quiet_totals threads)

-- With one reader at most, no upgrade sleeps.
no_upgrade :
    (policy : Policy) (m : Mutex) (f : ℕ) (threads : List Phase)
    → all_of is_quiet threads ≡ true
    → AllReason policy m f threads
    → m.num_readers ≤ 1
    → total is_upgrading threads ≡ 0
unfolding total is_quiet has_reason
no_upgrade policy m f [] h c k = refl
no_upgrade policy m f (p ∷ threads) h c k = ground (arith, no_upgrade policy m f threads)

no_writer :
    (policy : Policy) (m : Mutex) (threads : List Phase)
    → all_of is_quiet threads ≡ true
    → AllReason policy m 0 threads
    → m.num_readers ≡ 0
    → m.current_writer ≡ false
    → m.pending_upgrade ≡ false
    → (total is_draining threads ≡ 0) × (total is_awaiting threads ≡ 0)
unfolding total is_quiet has_reason must_drain must_await
no_writer policy m [] h c k w u = (refl, refl)
no_writer policy m (p ∷ threads) h c k w u = ground (arith, no_writer policy m threads)

no_one :
    (policy : Policy) (m : Mutex) (threads : List Phase)
    → all_of is_quiet threads ≡ true
    → AllReason policy m 0 threads
    → m.num_readers ≡ 0
    → m.current_writer ≡ false
    → m.pending_upgrade ≡ false
    → m.num_pending_writers ≡ 0
    → all_of is_idle threads ≡ true
unfolding is_quiet has_reason must_drain must_await must_not_read
no_one policy m [] h c k w u d = refl
no_one writer_first m (p ∷ threads) h c k w u d = ground (arith, no_one writer_first m threads)
no_one reader_first m (p ∷ threads) h c k w u d = ground (arith, no_one reader_first m threads)

-- In every reachable state of either lock in which no thread can run (each one has no call under
-- way, or sleeps in a wait), no call is under way: the calls never wait for each other for ever.
pub Reach-progress :
    (policy : Policy) (count : ℕ) (m : Mutex) (threads : List Phase)
    → Reach policy count m threads
    → all_of is_quiet threads ≡ true
    → all_of is_idle threads ≡ true
Reach-progress policy count m threads reach quiet =
    let (r, w, f) = quiet_totals threads quiet in
    let counted = Reach-IsCounted policy count m threads reach in
    let reasons =
      subst (λ k. AllReason policy m k threads) f
        (Reach-HasNoLostWakeup policy count m threads reach) in
    let u = no_upgrade policy m 0 threads quiet reasons (ground (arith, r, counted.0, counted.2)) in
    let readers : m.num_readers ≡ 0 = omega (arith, counted.0, r, u) in
    let writer : m.current_writer ≡ false = ground (arith, counted.1, w) in
    let upgraded : m.pending_upgrade ≡ false = ground (arith, counted.2, u) in
    let (d, a) = no_writer policy m threads quiet reasons readers writer upgraded in
    no_one policy m threads quiet reasons readers writer upgraded (pending policy counted.4 d a)
  where
    pending :
        (p : Policy)
        → Pending p m (total is_draining threads) (total is_awaiting threads)
        → total is_draining threads ≡ 0
        → total is_awaiting threads ≡ 0
        → m.num_pending_writers ≡ 0
    pending writer_first h d a = omega (arith, h.0, d, a)
    pending reader_first h d a = h
