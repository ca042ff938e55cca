-- ===== src/ChunkLock.antt =====
-- map-api/src/legacy-chunk.cc: the distributed reader-writer lock of a chunk, at one peer. `none` is
-- a wait on `lock_.cv`. `thread` is the calling thread; the log of the lock states is left out.
pub mod System
pub mod Sections
pub mod Exclusion
use map_api.Prelude.{
  ℕ, ◌+◌, ◌-◌, Bool, true, false, not, Option, none, some, ltb, ◌==◌, ◌&&◌, ◌||◌, if◌then◌else◌,
}
use map_api.Prelude.Checked.{Checked, ok, fatal, ◌>>◌, check}

pub data LockState : Type 0 where
  unlocked : LockState
  read_locked : LockState
  attempting : LockState
  write_locked : LockState

pub record DistributedRwLock : Type 0 where
  pub state : LockState
  pub preempted_state : LockState
  pub n_readers : ℕ
  pub holder : ℕ
  pub thread : ℕ
  pub write_recursion_depth : ℕ

abbrev pub is_write_state : LockState → Bool
is_write_state write_locked = true
is_write_state state = false

abbrev pub is_attempt_state : LockState → Bool
is_attempt_state attempting = true
is_attempt_state state = false

abbrev pub is_unlocked_state : LockState → Bool
is_unlocked_state unlocked = true
is_unlocked_state state = false

abbrev pub is_read_state : LockState → Bool
is_read_state read_locked = true
is_read_state state = false

unfoldable pub is_writer : ℕ → DistributedRwLock → Bool
is_writer peer l = is_write_state l.state && (l.holder == peer)

-- `self thread relinquished`
unfoldable pub distributed_read_lock :
    ℕ → ℕ → Bool → DistributedRwLock → Checked (Option DistributedRwLock)
unfolding is_writer
distributed_read_lock self thread relinquished l =
    if is_writer self l && (l.thread == thread)
    then ok (some (record l { write_recursion_depth = l.write_recursion_depth + 1 }))
    else if not (is_unlocked_state l.state) && not (is_read_state l.state)
    then ok none
    else (check (not relinquished)
        >> ok (some (record l { state = read_locked; n_readers = l.n_readers + 1 })))

-- `distributedWriteLock` up to the requests; the flag says that they are to be sent.
unfoldable pub begin_write_lock :
    ℕ → ℕ → Bool → DistributedRwLock → Checked (Option (Bool × DistributedRwLock))
unfolding is_writer
begin_write_lock self thread relinquished l =
    if is_writer self l && (l.thread == thread)
    then ok (some (false, record l { write_recursion_depth = l.write_recursion_depth + 1 }))
    else if is_writer self l
    then ok none
    else if not (is_unlocked_state l.state)
        && not (is_attempt_state l.state && (l.thread == thread))
    then ok none
    else (check (not relinquished)
        >> ok (some (true, record l { state = attempting; thread = thread })))

-- `distributedWriteLock` after every peer has acknowledged.
unfoldable pub finish_write_lock : ℕ → ℕ → DistributedRwLock → Checked DistributedRwLock
finish_write_lock self thread l =
    check (is_attempt_state l.state)
    >> ok (record l {
      state = write_locked;
      holder = self;
      thread = thread;
      write_recursion_depth = l.write_recursion_depth + 1;
    })

-- `distributedUnlock` up to the requests; the flag says that they are to be sent.
unfoldable pub begin_unlock : ℕ → ℕ → DistributedRwLock → Checked (Bool × DistributedRwLock)
begin_unlock self thread l =
    let readers = l.n_readers - 1 in
    let depth = l.write_recursion_depth - 1 in
    elim l.state [
      | unlocked ↦ fatal
      | read_locked ↦ ok (
        false,
        record l { n_readers = readers; state = if readers == 0 then unlocked else read_locked },
      )
      | attempting ↦ fatal
      | write_locked ↦
          check (l.holder == self)
          >> check (l.thread == thread)
          >> ok (depth == 0, record l { write_recursion_depth = depth })
    ]

-- `self_unlocked`
unfoldable pub unlock_self : DistributedRwLock → DistributedRwLock
unlock_self l = record l { state = unlocked }

-- `self lowest_peer relinquished locker`; the flag is the acknowledgement.
unfoldable pub handle_lock_request :
    ℕ → ℕ → Bool → ℕ → DistributedRwLock → Checked (Option (Bool × DistributedRwLock))
handle_lock_request self lowest_peer relinquished locker l =
    if relinquished then ok (some (false, l)) else elim l.state [
      | unlocked ↦ ok (
          some
            (true, record l { preempted_state = unlocked; state = write_locked; holder = locker }))
      | read_locked ↦ ok none
      | attempting ↦
          if ltb self lowest_peer
          then (check (ltb self locker) >> ok (some (false, l)))
          else ok (
              some (
                true,
                record l { preempted_state = attempting; state = write_locked; holder = locker },
              ))
      | write_locked ↦ ok (some (false, l))
    ]

unfoldable pub handle_unlock_request : Bool → ℕ → DistributedRwLock → Checked DistributedRwLock
handle_unlock_request relinquished locker l =
    check (not relinquished)
    >> check (is_write_state l.state)
    >> check (l.holder == locker)
    >> check (is_unlocked_state l.preempted_state || is_attempt_state l.preempted_state)
    >> ok (record l { state = l.preempted_state })
