-- ===== src/ReaderWriter/Invariant.antt =====
-- What the counters and flags of the lock say about the threads.
use mathlib.Core.Path.{subst}
use map_api.Prelude.{
  ℕ, zero, suc, ◌+◌, ◌≤◌, ◌≡◌, refl, sym, List, [], ◌∷◌, ◌++◌, map, ◌==◌, if◌then◌else◌, arith,
}
use map_api.ReaderWriter.{
  Policy, writer_first, reader_first, Mutex, Phase, idle, reading, draining, awaiting, writing,
  upgrading, Notification, Outcome, flag, initial, must_not_read, acquire_read_lock,
  release_read_lock, must_drain, must_await, take_writer, enter_second_loop, enter_first_loop,
  acquire_write_lock, resume_second_loop, release_write_lock, finish_upgrade, upgrade_to_write_lock,
  Section, read, read_again, unread, write, write_again, write_next, unwrite, notify, upgrade,
  upgrade_again, woken, awake, Step, run, wake, all_idle, Reach, start, later,
}

-- How many threads a weight selects.
unfoldable pub total : (Phase → ℕ) → List Phase → ℕ
total w [] = 0
total w (p ∷ threads) = w p + total w threads

abbrev pub is_reading : Phase → ℕ
is_reading reading = 1
is_reading p = 0

abbrev pub is_writing : Phase → ℕ
is_writing writing = 1
is_writing p = 0

abbrev pub is_upgrading : Phase → ℕ
is_upgrading (upgrading asleep) = 1
is_upgrading p = 0

abbrev pub is_draining : Phase → ℕ
is_draining (draining asleep) = 1
is_draining p = 0

abbrev pub is_awaiting : Phase → ℕ
is_awaiting (awaiting asleep) = 1
is_awaiting p = 0

-- The pending writers: only the writer-first lock counts them, and while one is in the second loop
-- it has no reader but the one that upgrades.
abbrev pub Pending : Policy → Mutex → ℕ → ℕ → Type 0
Pending writer_first m d a =
    (m.num_pending_writers ≡ d + a)
    × ((if a == 0 then 0 else m.num_readers) ≤ flag m.pending_upgrade)
Pending reader_first m d a = m.num_pending_writers ≡ 0

-- `r` threads read, `u` upgrade, `w` write, `d` and `a` are in the loops of `acquireWriteLock`.
abbrev pub Agrees : Policy → Mutex → ℕ → ℕ → ℕ → ℕ → ℕ → Type 0
Agrees policy m r u w d a =
    (m.num_readers ≡ r + u)
    × (flag m.current_writer ≡ w)
    × (flag m.pending_upgrade ≡ u)
    × ((if m.current_writer then m.num_readers else 0) ≡ 0)
    × Pending policy m d a

-- A section keeps the counts, whatever the other threads are.
pub Section-Agrees :
    (policy : Policy) (m : Mutex) (p : Phase) (o : Outcome) (r u w d a : ℕ)
    → Section policy m p o
    → Agrees policy m
        (r + is_reading p)
        (u + is_upgrading p)
        (w + is_writing p)
        (d + is_draining p)
        (a + is_awaiting p)
    → Agrees policy o.0
        (r + is_reading o.1)
        (u + is_upgrading o.1)
        (w + is_writing o.1)
        (d + is_draining o.1)
        (a + is_awaiting o.1)
unfolding must_not_read acquire_read_lock release_read_lock must_drain must_await take_writer
    enter_second_loop enter_first_loop acquire_write_lock resume_second_loop release_write_lock
    finish_upgrade upgrade_to_write_lock
Section-Agrees writer_first m p o r u w d a read h = ground arith
Section-Agrees reader_first m p o r u w d a read h = ground arith
Section-Agrees writer_first m p o r u w d a read_again h = ground arith
Section-Agrees reader_first m p o r u w d a read_again h = ground arith
Section-Agrees writer_first m p o r u w d a unread h = ground arith
Section-Agrees reader_first m p o r u w d a unread h = ground arith
Section-Agrees writer_first m p o r u w d a write h = ground arith
Section-Agrees reader_first m p o r u w d a write h = ground arith
Section-Agrees writer_first m p o r u w d a write_again h = ground arith
Section-Agrees reader_first m p o r u w d a write_again h = ground arith
Section-Agrees writer_first m p o r u w d a write_next h = ground arith
Section-Agrees reader_first m p o r u w d a write_next h = ground arith
Section-Agrees writer_first m p o r u w d a unwrite h = ground arith
Section-Agrees reader_first m p o r u w d a unwrite h = ground arith
Section-Agrees writer_first m p o r u w d a notify h = ground arith
Section-Agrees reader_first m p o r u w d a notify h = ground arith
Section-Agrees writer_first m p o r u w d a upgrade h = ground arith
Section-Agrees reader_first m p o r u w d a upgrade h = ground arith
Section-Agrees writer_first m p o r u w d a upgrade_again h = ground arith
Section-Agrees reader_first m p o r u w d a upgrade_again h = ground arith

module _ (n : Notification) (p : Phase) where
  -- Waking a thread changes no weight.
  is_reading-woken : is_reading (woken n p) ≡ is_reading p
  unfolding woken
  is_reading-woken = ground arith

  is_writing-woken : is_writing (woken n p) ≡ is_writing p
  unfolding woken
  is_writing-woken = ground arith

  pub is_upgrading-woken : is_upgrading (woken n p) ≡ is_upgrading p
  unfolding woken
  is_upgrading-woken = ground arith

  is_draining-woken : is_draining (woken n p) ≡ is_draining p
  unfolding woken
  is_draining-woken = ground arith

  is_awaiting-woken : is_awaiting (woken n p) ≡ is_awaiting p
  unfolding woken
  is_awaiting-woken = ground arith

pub total-append :
    (w : Phase → ℕ) (xs ys : List Phase) → total w (xs ++ ys) ≡ total w xs + total w ys
unfolding total
total-append w [] ys = omega arith
total-append w (p ∷ xs) ys = omega (arith, total-append w xs ys)

pub total-woken :
    (w : Phase → ℕ) (n : Notification) (threads : List Phase)
    → ((p : Phase) → w (woken n p) ≡ w p)
    → total w (map (woken n) threads) ≡ total w threads
unfolding total
total-woken w n [] keep = refl
total-woken w n (p ∷ threads) keep = omega (arith, total-woken w n threads keep, keep p)

-- The threads around one thread.
pub total-around :
    (w : Phase → ℕ) (before after : List Phase) (p : Phase)
    → total w (before ++ p ∷ after) ≡ total w before + total w after + w p
unfolding total
total-around w before after p = omega (arith, total-append w before (p ∷ after))

pub total-around_woken :
    (w : Phase → ℕ) (n : Notification) (before after : List Phase) (p : Phase)
    → ((q : Phase) → w (woken n q) ≡ w q)
    → total w (map (woken n) before ++ p ∷ map (woken n) after)
      ≡ total w before + total w after + w p
total-around_woken w n before after p keep = omega (
  arith,
  total-around w (map (woken n) before) (map (woken n) after) p,
  total-woken w n before keep,
  total-woken w n after keep,
)

-- The counters agree with the threads.
abbrev pub IsCounted : Policy → Mutex → List Phase → Type 0
IsCounted policy m threads =
    Agrees policy m (total is_reading threads) (total is_upgrading threads)
      (total is_writing threads) (total is_draining threads) (total is_awaiting threads)

awake_keeps :
    (p : Phase)
    → (is_reading (awake p) ≡ is_reading p)
      × (is_upgrading (awake p) ≡ is_upgrading p)
      × (is_writing (awake p) ≡ is_writing p)
      × (is_draining (awake p) ≡ is_draining p)
      × (is_awaiting (awake p) ≡ is_awaiting p)
unfolding awake
awake_keeps p = ground arith

same_total :
    (w : Phase → ℕ) (before after : List Phase) (p q : Phase)
    → w q ≡ w p
    → total w (before ++ q ∷ after) ≡ total w (before ++ p ∷ after)
same_total w before after p q e =
    omega (arith, total-around w before after p, total-around w before after q)

pub IsCounted-around :
    (policy : Policy) (m : Mutex) (before after : List Phase) (p : Phase)
    → IsCounted policy m (before ++ p ∷ after)
    → Agrees policy m
        (total is_reading before + total is_reading after + is_reading p)
        (total is_upgrading before + total is_upgrading after + is_upgrading p)
        (total is_writing before + total is_writing after + is_writing p)
        (total is_draining before + total is_draining after + is_draining p)
        (total is_awaiting before + total is_awaiting after + is_awaiting p)
IsCounted-around policy m before after p around =
    rw
      (
        ← total-around is_reading before after p,
        ← total-around is_upgrading before after p,
        ← total-around is_writing before after p,
        ← total-around is_draining before after p,
        ← total-around is_awaiting before after p,
      )
      around

Step-IsCounted :
    (policy : Policy) (m m' : Mutex) (threads threads' : List Phase)
    → Step policy m threads m' threads'
    → IsCounted policy m threads
    → IsCounted policy m' threads'
Step-IsCounted policy m m' threads threads' (run before after p p' n s e e') h =
    let split = IsCounted-around policy m before after p (subst (λ l. IsCounted policy m l) e h) in
    subst (λ l. IsCounted policy m' l) (sym e')
      (rw
        (
          total-around_woken is_reading n before after p' (λ q. is_reading-woken n q),
          total-around_woken is_upgrading n before after p' (λ q. is_upgrading-woken n q),
          total-around_woken is_writing n before after p' (λ q. is_writing-woken n q),
          total-around_woken is_draining n before after p' (λ q. is_draining-woken n q),
          total-around_woken is_awaiting n before after p' (λ q. is_awaiting-woken n q),
        )
        (Section-Agrees policy m p (m', p', n) _ _ _ _ _ s split))
Step-IsCounted policy m m' threads threads' (wake before after p em e e') h =
    let k = awake_keeps p in
    let around : IsCounted policy m (before ++ p ∷ after) = subst (λ l. IsCounted policy m l) e h in
    subst (λ l. IsCounted policy m' l) (sym e')
      (subst (λ o. IsCounted policy o (before ++ awake p ∷ after)) (sym em)
        (rw
          (
            same_total is_reading before after p (awake p) k.0,
            same_total is_upgrading before after p (awake p) k.1,
            same_total is_writing before after p (awake p) k.2,
            same_total is_draining before after p (awake p) k.3,
            same_total is_awaiting before after p (awake p) k.4,
          )
          around))

total-all_idle : (w : Phase → ℕ) (count : ℕ) → w idle ≡ 0 → total w (all_idle count) ≡ 0
unfolding total all_idle
total-all_idle w zero e = refl
total-all_idle w (suc count) e = omega (arith, total-all_idle w count e)

initial-Agrees : (policy : Policy) → Agrees policy initial 0 0 0 0 0
initial-Agrees writer_first = ground arith
initial-Agrees reader_first = ground arith

-- In every reachable state of either lock, the counters and flags are the numbers of the threads:
-- readers and upgrading threads, the one writer, the one upgrading thread, and, for the writer-first
-- lock, the pending writers.
pub Reach-IsCounted :
    (policy : Policy) (count : ℕ) (m : Mutex) (threads : List Phase)
    → Reach policy count m threads
    → IsCounted policy m threads
Reach-IsCounted policy count m threads start =
    rw
      (
        total-all_idle is_reading count refl,
        total-all_idle is_upgrading count refl,
        total-all_idle is_writing count refl,
        total-all_idle is_draining count refl,
        total-all_idle is_awaiting count refl,
      )
      (initial-Agrees policy)
Reach-IsCounted policy count m threads (later {m = m0} {threads = threads0} reach step) =
    Step-IsCounted policy m0 m threads0 threads step
      (Reach-IsCounted policy count m0 threads0 reach)

-- In every reachable state of either lock, no two threads write, no two upgrade, and no thread reads
-- or upgrades while one writes.
pub Reach-mutual_exclusion :
    (policy : Policy) (count : ℕ) (m : Mutex) (threads : List Phase)
    → Reach policy count m threads
    → (total is_writing threads ≤ 1)
      × (total is_upgrading threads ≤ 1)
      × ((if total is_writing threads == 0
            then 0
            else total is_reading threads + total is_upgrading threads)
          ≡ 0)
Reach-mutual_exclusion policy count m threads reach =
    let counted = Reach-IsCounted policy count m threads reach in
    let readers = counted.0 in
    let writer = counted.1 in
    let upgrade_flag = counted.2 in
    let alone = counted.3 in
    (ground (arith, writer), ground (arith, upgrade_flag), ground (arith, readers, writer, alone))
