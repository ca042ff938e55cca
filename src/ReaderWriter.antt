-- ===== src/ReaderWriter.antt =====
-- map-api-common/src/reader-writer-lock.cc and reader-first-reader-writer-lock.cc: the two locks.
-- Threads interleave between the sections that hold `mutex_`: a section runs from the start of a
-- call, or from the end of a wait, to the next wait or to the end of the call. A thread is the phase
-- of its call; the flag of a waiting phase says whether it sleeps on its condition variable. A
-- sleeping thread may also wake without a notification, as a condition variable allows.
pub mod Invariant
pub mod Wakeups
pub mod Progress
use map_api.Prelude.{
  ℕ, zero, suc, ◌+◌, ◌-◌, ◌≡◌, Bool, true, false, not, List, [], ◌∷◌, ◌++◌, map, ltb, ◌==◌, ◌&&◌,
  ◌||◌, if◌then◌else◌,
}

-- ReaderWriterMutex, and the class derived from it.
pub data Policy : Type 0 where
  writer_first : Policy
  reader_first : Policy

pub record Mutex : Type 0 where
  pub num_readers : ℕ
  pub num_pending_writers : ℕ
  pub current_writer : Bool
  pub pending_upgrade : Bool

-- `draining` and `awaiting` are the first and the second loop of `acquireWriteLock`; `finishing` is
-- in `releaseWriteLock`, after the mutex and before the notification.
pub data Phase : Type 0 where
  idle : Phase
  entering : Bool → Phase
  reading : Phase
  draining : Bool → Phase
  awaiting : Bool → Phase
  writing : Phase
  finishing : Phase
  upgrading : Bool → Phase

-- Which condition variable `notify_all` is called on.
pub data Notification : Type 0 where
  silent : Notification
  readers_notified : Notification
  writer_finished : Notification

abbrev pub Outcome : Type 0
Outcome = Mutex × Phase × Notification

abbrev pub flag : Bool → ℕ
flag true = 1
flag false = 0

abbrev pub initial : Mutex
initial = record {
  num_readers = 0;
  num_pending_writers = 0;
  current_writer = false;
  pending_upgrade = false;
}

-- The condition of the loop in `acquireReadLock`.
unfoldable pub must_not_read : Policy → Mutex → Bool
must_not_read writer_first m =
    not (m.num_pending_writers == 0) || m.pending_upgrade || m.current_writer
must_not_read reader_first m = m.current_writer

unfoldable pub acquire_read_lock : Policy → Mutex → Outcome
unfolding must_not_read
acquire_read_lock policy m =
    if must_not_read policy m
    then (m, entering true, silent)
    else (record m { num_readers = m.num_readers + 1 }, reading, silent)

unfoldable pub release_read_lock : Mutex → Outcome
release_read_lock m =
    let m' = record m { num_readers = m.num_readers - 1 } in
    (m', idle, if m'.num_readers == flag m.pending_upgrade then readers_notified else silent)

-- The condition of the first loop of `acquireWriteLock`.
unfoldable pub must_drain : Mutex → Bool
must_drain m = ltb (flag m.pending_upgrade) m.num_readers

-- The condition of the second loop.
unfoldable pub must_await : Mutex → Bool
must_await m = m.current_writer || m.pending_upgrade

-- After the second loop.
unfoldable pub take_writer : Policy → Mutex → Mutex
take_writer writer_first m = record m {
  num_pending_writers = m.num_pending_writers - 1;
  current_writer = true;
}
take_writer reader_first m = record m { current_writer = true }

unfoldable pub enter_second_loop : Policy → Mutex → Outcome
unfolding must_await take_writer
enter_second_loop policy m =
    if must_await m then (m, awaiting true, silent) else (take_writer policy m, writing, silent)

unfoldable pub enter_first_loop : Policy → Mutex → Outcome
unfolding must_drain enter_second_loop
enter_first_loop policy m =
    if must_drain m then (m, draining true, silent) else enter_second_loop policy m

unfoldable pub acquire_write_lock : Policy → Mutex → Outcome
unfolding enter_first_loop
acquire_write_lock writer_first m =
    enter_first_loop writer_first (record m { num_pending_writers = m.num_pending_writers + 1 })
acquire_write_lock reader_first m = enter_first_loop reader_first m

-- After a wait in the second loop: the reader-first lock looks at the readers again.
unfoldable pub resume_second_loop : Policy → Mutex → Outcome
unfolding must_await enter_first_loop enter_second_loop
resume_second_loop writer_first m = enter_second_loop writer_first m
resume_second_loop reader_first m =
    if must_await m then (m, awaiting true, silent) else enter_first_loop reader_first m

-- Under the mutex; the notification is another section.
unfoldable pub release_write_lock : Mutex → Outcome
release_write_lock m = (record m { current_writer = false }, finishing, silent)

-- The loop and the end of `upgradeToWriteLock`.
unfoldable pub finish_upgrade : Mutex → Outcome
finish_upgrade m =
    let m' = record m {
      pending_upgrade = false;
      num_readers = m.num_readers - 1;
      current_writer = true;
    } in
    if ltb 1 m.num_readers
    then (m, upgrading true, silent)
    else (m', writing, if m'.num_readers == 0 then readers_notified else silent)

-- An upgrade fails if another is pending, and gives up the read lock.
unfoldable pub upgrade_to_write_lock : Mutex → Outcome
unfolding finish_upgrade
upgrade_to_write_lock m =
    let m' = record m { num_readers = m.num_readers - 1 } in
    if m.pending_upgrade
    then (m', idle, if m'.num_readers == 1 then readers_notified else silent)
    else finish_upgrade (record m { pending_upgrade = true })

-- The sections of one thread, from the phase it is in.
pub data Section (policy : Policy) (m : Mutex) : Phase → Outcome → Type 0 where
  read : Section policy m idle (acquire_read_lock policy m)
  read_again : Section policy m (entering false) (acquire_read_lock policy m)
  unread : Section policy m reading (release_read_lock m)
  write : Section policy m idle (acquire_write_lock policy m)
  write_again : Section policy m (draining false) (enter_first_loop policy m)
  write_next : Section policy m (awaiting false) (resume_second_loop policy m)
  unwrite : Section policy m writing (release_write_lock m)
  notify : Section policy m finishing (m, idle, writer_finished)
  upgrade : Section policy m reading (upgrade_to_write_lock m)
  upgrade_again : Section policy m (upgrading false) (finish_upgrade m)

-- What a notification does to another thread.
unfoldable pub woken : Notification → Phase → Phase
woken readers_notified (draining asleep) = draining false
woken readers_notified (upgrading asleep) = upgrading false
woken writer_finished (entering asleep) = entering false
woken writer_finished (awaiting asleep) = awaiting false
woken n p = p

-- A wake-up without a notification.
unfoldable pub awake : Phase → Phase
awake (entering asleep) = entering false
awake (draining asleep) = draining false
awake (awaiting asleep) = awaiting false
awake (upgrading asleep) = upgrading false
awake p = p

pub data Step (policy : Policy) (m : Mutex) (threads : List Phase) (m' : Mutex)
    (threads' : List Phase) : Type 0 where
  run :
      (before after : List Phase) (p p' : Phase) (n : Notification)
      → Section policy m p (m', p', n)
      → threads ≡ before ++ p ∷ after
      → threads' ≡ map (woken n) before ++ p' ∷ map (woken n) after
      → Step policy m threads m' threads'
  wake :
      (before after : List Phase) (p : Phase)
      → m' ≡ m
      → threads ≡ before ++ p ∷ after
      → threads' ≡ before ++ awake p ∷ after
      → Step policy m threads m' threads'

-- Every thread is idle at the start.
unfoldable pub all_idle : ℕ → List Phase
all_idle zero = []
all_idle (suc n) = idle ∷ all_idle n

pub data Reach (policy : Policy) (count : ℕ) : Mutex → List Phase → Type 0 where
  start : Reach policy count initial (all_idle count)
  later :
      {m m' : Mutex} {threads threads' : List Phase}
      → Reach policy count m threads
      → Step policy m threads m' threads'
      → Reach policy count m' threads'
