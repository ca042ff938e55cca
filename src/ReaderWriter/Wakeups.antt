-- ===== src/ReaderWriter/Wakeups.antt =====
-- The notifications of the locks, and the reasons for which threads sleep.
use mathlib.Core.Path.{subst}
use map_api.Prelude.{
  ℕ, zero, suc, ◌+◌, ◌≤◌, ◌≡◌, refl, sym, Bool, true, not, List, [], ◌∷◌, ◌++◌, map, ltb, ◌==◌,
  ◌&&◌, ◌||◌, arith,
}
use map_api.ReaderWriter.{
  Policy, writer_first, reader_first, Mutex, Phase, entering, draining, awaiting, finishing,
  upgrading, Notification, Outcome, initial, must_not_read, acquire_read_lock, release_read_lock,
  must_drain, must_await, take_writer, enter_second_loop, enter_first_loop, acquire_write_lock,
  resume_second_loop, release_write_lock, finish_upgrade, upgrade_to_write_lock, Section, read,
  read_again, unread, write, write_again, write_next, unwrite, notify, upgrade, upgrade_again,
  woken, awake, Step, run, wake, all_idle, Reach, start, later,
}
use map_api.ReaderWriter.Invariant.{
  total, total-around, total-around_woken, is_reading, is_writing, is_upgrading, is_draining,
  is_awaiting, Agrees, IsCounted, IsCounted-around, Reach-IsCounted,
}

abbrev pub is_finishing : Phase → ℕ
is_finishing finishing = 1
is_finishing p = 0

-- A thread that sleeps has a reason to: its condition holds, or, for the threads that wait for a
-- writer to finish, a notification is still to come.
unfoldable pub has_reason : Policy → Mutex → ℕ → Phase → Bool
unfolding must_not_read must_drain must_await
has_reason policy m f (entering true) = must_not_read policy m || not (f == 0)
has_reason policy m f (draining true) = must_drain m
has_reason policy m f (awaiting true) = must_await m || not (f == 0)
has_reason policy m f (upgrading true) = m.pending_upgrade && ltb 1 m.num_readers
has_reason policy m f p = true

-- The thread that runs a section and goes to sleep.
own_reason :
    (policy : Policy) (m : Mutex) (p : Phase) (o : Outcome) (r u w d a f : ℕ)
    → Section policy m p o
    → Agrees policy m
        (r + is_reading p)
        (u + is_upgrading p)
        (w + is_writing p)
        (d + is_draining p)
        (a + is_awaiting p)
    → has_reason policy o.0 f o.1 ≡ true
unfolding must_not_read acquire_read_lock release_read_lock must_drain must_await take_writer
    enter_second_loop enter_first_loop acquire_write_lock resume_second_loop release_write_lock
    finish_upgrade upgrade_to_write_lock has_reason
own_reason policy m p o r u w d a f read h = ground arith
own_reason policy m p o r u w d a f read_again h = ground arith
own_reason policy m p o r u w d a f unread h = ground arith
own_reason writer_first m p o r u w d a f write h = ground arith
own_reason reader_first m p o r u w d a f write h = ground arith
own_reason policy m p o r u w d a f write_again h = ground arith
own_reason writer_first m p o r u w d a f write_next h = ground arith
own_reason reader_first m p o r u w d a f write_next h = ground arith
own_reason policy m p o r u w d a f unwrite h = ground arith
own_reason policy m p o r u w d a f notify h = ground arith
own_reason policy m p o r u w d a f upgrade h = ground arith
own_reason policy m p o r u w d a f upgrade_again h = ground arith

-- Another thread keeps its reason, or is woken.
other_reason :
    (policy : Policy) (m : Mutex) (p q : Phase) (o : Outcome) (r u w d a f : ℕ)
    → Section policy m p o
    → Agrees policy m
        (r + is_reading p)
        (u + is_upgrading p)
        (w + is_writing p)
        (d + is_draining p)
        (a + is_awaiting p)
    → is_upgrading q ≤ u
    → has_reason policy m (f + is_finishing p) q ≡ true
    → has_reason policy o.0 (f + is_finishing o.1) (woken o.2 q) ≡ true
unfolding must_not_read acquire_read_lock release_read_lock must_drain must_await take_writer
    enter_second_loop enter_first_loop acquire_write_lock resume_second_loop release_write_lock
    finish_upgrade upgrade_to_write_lock has_reason woken
other_reason writer_first m p q o r u w d a f read h k c = ground arith
other_reason reader_first m p q o r u w d a f read h k c = ground arith
other_reason writer_first m p q o r u w d a f read_again h k c = ground arith
other_reason reader_first m p q o r u w d a f read_again h k c = ground arith
other_reason writer_first m p q o r u w d a f unread h k c = ground arith
other_reason reader_first m p q o r u w d a f unread h k c = ground arith
other_reason writer_first m p q o r u w d a f write h k c = ground arith
other_reason reader_first m p q o r u w d a f write h k c = ground arith
other_reason writer_first m p q o r u w d a f write_again h k c = ground arith
other_reason reader_first m p q o r u w d a f write_again h k c = ground arith
other_reason writer_first m p q o r u w d a f write_next h k c = ground arith
other_reason reader_first m p q o r u w d a f write_next h k c = ground arith
other_reason writer_first m p q o r u w d a f unwrite h k c = ground arith
other_reason reader_first m p q o r u w d a f unwrite h k c = ground arith
other_reason writer_first m p q o r u w d a f notify h k c = ground arith
other_reason reader_first m p q o r u w d a f notify h k c = ground arith
other_reason writer_first m p q o r u w d a f upgrade h k c = ground arith
other_reason reader_first m p q o r u w d a f upgrade h k c = ground arith
other_reason writer_first m p q o r u w d a f upgrade_again h k c = ground arith
other_reason reader_first m p q o r u w d a f upgrade_again h k c = ground arith

is_finishing-woken : (n : Notification) (p : Phase) → is_finishing (woken n p) ≡ is_finishing p
unfolding woken
is_finishing-woken n p = ground arith

abbrev pub AllReason : Policy → Mutex → ℕ → List Phase → Type 0
AllReason policy m f [] = Unit {0}
AllReason policy m f (p ∷ threads) = (has_reason policy m f p ≡ true) × AllReason policy m f threads

AllReason-append :
    (policy : Policy) (m : Mutex) (f : ℕ) (xs ys : List Phase)
    → AllReason policy m f xs
    → AllReason policy m f ys
    → AllReason policy m f (xs ++ ys)
AllReason-append policy m f [] ys hx hy = hy
AllReason-append policy m f (p ∷ xs) ys hx hy = (hx.0, AllReason-append policy m f xs ys hx.1 hy)

AllReason-split :
    (policy : Policy) (m : Mutex) (f : ℕ) (xs ys : List Phase)
    → AllReason policy m f (xs ++ ys)
    → AllReason policy m f xs × AllReason policy m f ys
AllReason-split policy m f [] ys h = (tt, h)
AllReason-split policy m f (p ∷ xs) ys h =
    let rest = AllReason-split policy m f xs ys h.1 in ((h.0, rest.0), rest.1)

AllReason-woken :
    (policy : Policy) (m : Mutex) (p : Phase) (o : Outcome) (r u w d a f : ℕ) (xs : List Phase)
    → Section policy m p o
    → Agrees policy m
        (r + is_reading p)
        (u + is_upgrading p)
        (w + is_writing p)
        (d + is_draining p)
        (a + is_awaiting p)
    → total is_upgrading xs ≤ u
    → AllReason policy m (f + is_finishing p) xs
    → AllReason policy o.0 (f + is_finishing o.1) (map (woken o.2) xs)
unfolding total
AllReason-woken policy m p o r u w d a f [] s h k c = tt
AllReason-woken policy m p o r u w d a f (q ∷ xs) s h k c = (
  other_reason policy m p q o r u w d a f s h (omega arith) c.0,
  AllReason-woken policy m p o r u w d a f xs s h (omega arith) c.1,
)

awake_reason :
    (policy : Policy) (m : Mutex) (f : ℕ) (p : Phase) → has_reason policy m f (awake p) ≡ true
unfolding awake has_reason
awake_reason policy m f p = ground arith

is_finishing-awake : (p : Phase) → is_finishing (awake p) ≡ is_finishing p
unfolding awake
is_finishing-awake p = ground arith

-- Every sleeping thread has a reason to sleep.
abbrev pub HasNoLostWakeup : Policy → Mutex → List Phase → Type 0
HasNoLostWakeup policy m threads = AllReason policy m (total is_finishing threads) threads

Step-HasNoLostWakeup :
    (policy : Policy) (m m' : Mutex) (threads threads' : List Phase)
    → Step policy m threads m' threads'
    → IsCounted policy m threads
    → HasNoLostWakeup policy m threads
    → HasNoLostWakeup policy m' threads'
Step-HasNoLostWakeup policy m m' threads threads' (run before after p p' n s e e') h c =
    let split = IsCounted-around policy m before after p (subst (λ l. IsCounted policy m l) e h) in
    let f = total is_finishing before + total is_finishing after in
    let reasons : AllReason policy m (f + is_finishing p) (before ++ p ∷ after) =
      rw (← total-around is_finishing before after p)
        (subst (λ l. HasNoLostWakeup policy m l) e c) in
    let (first, rest) = AllReason-split policy m (f + is_finishing p) before (p ∷ after) reasons in
    subst (λ l. HasNoLostWakeup policy m' l) (sym e')
      (rw (total-around_woken is_finishing n before after p' (λ q. is_finishing-woken n q)) (
        AllReason-append policy m' (f + is_finishing p') (map (woken n) before)
          (p' ∷ map (woken n) after)
          (AllReason-woken policy m p (m', p', n) _ _ _ _ _ f before s split (omega arith) first)
          (
            own_reason policy m p (m', p', n) _ _ _ _ _ (f + is_finishing p') s split,
            AllReason-woken policy m p (m', p', n) _ _ _ _ _ f after s split (omega arith) rest.1,
          )))
Step-HasNoLostWakeup policy m m' threads threads' (wake before after p em e e') h c =
    let f = total is_finishing (before ++ p ∷ after) in
    let (first, rest) =
      AllReason-split policy m f before (p ∷ after) (subst (λ l. HasNoLostWakeup policy m l) e c) in
    let same : total is_finishing (before ++ awake p ∷ after) ≡ f = omega (
      arith,
      total-around is_finishing before after p,
      is_finishing-awake p,
      total-around is_finishing before after (awake p),
    ) in
    subst (λ l. HasNoLostWakeup policy m' l) (sym e')
      (subst (λ o. HasNoLostWakeup policy o (before ++ awake p ∷ after)) (sym em)
        (rw same (
          AllReason-append policy m f before (awake p ∷ after) first
            (awake_reason policy m f p, rest.1))))

all_idle-AllReason :
    (policy : Policy) (m : Mutex) (f count : ℕ) → AllReason policy m f (all_idle count)
unfolding all_idle has_reason
all_idle-AllReason policy m f zero = tt
all_idle-AllReason policy m f (suc count) = (refl, all_idle-AllReason policy m f count)

-- In every reachable state of either lock, a thread that sleeps has to, or will be notified.
pub Reach-HasNoLostWakeup :
    (policy : Policy) (count : ℕ) (m : Mutex) (threads : List Phase)
    → Reach policy count m threads
    → HasNoLostWakeup policy m threads
Reach-HasNoLostWakeup policy count m threads start =
    all_idle-AllReason policy initial (total is_finishing (all_idle count)) count
Reach-HasNoLostWakeup policy count m threads (later {m = m0} {threads = threads0} reach step) =
    Step-HasNoLostWakeup policy m0 m threads0 threads step
      (Reach-IsCounted policy count m0 threads0 reach)
      (Reach-HasNoLostWakeup policy count m0 threads0 reach)
