-- ===== src/ChunkLock/Sections.antt =====
-- What the sections of one peer do to the holder of its lock.
use map_api.Prelude.{ℕ, ◌≡◌, Bool, true, false, not, some, ◌==◌, ◌&&◌, arith}
use map_api.Prelude.Checked.{ok}
use map_api.ChunkLock.{
  DistributedRwLock, is_writer, distributed_read_lock, begin_write_lock, finish_write_lock,
  begin_unlock, handle_lock_request, handle_unlock_request,
}

-- The peer holds its own lock, and has not begun to release it.
unfoldable pub writes : ℕ → DistributedRwLock → Bool
unfolding is_writer
writes a l = is_writer a l && not (l.write_recursion_depth == 0)

-- How a section of peer `a` changes who holds its lock.
abbrev pub Keeps : ℕ → DistributedRwLock → DistributedRwLock → ℕ → Type 0
Keeps a l l' c = (is_writer c l ≡ is_writer c l') × ((writes a l' && not (writes a l)) ≡ false)

module _ (a thread : ℕ) (relinquished sends : Bool) (l l' : DistributedRwLock) where
  pub distributed_read_lock-Keeps :
      (is_writer a l && (l.write_recursion_depth == 0)) ≡ false
      → distributed_read_lock a thread relinquished l ≡ ok (some l')
      → (c : ℕ) → Keeps a l l' c
  unfolding distributed_read_lock is_writer writes
  distributed_read_lock-Keeps free e c = ground arith

  pub begin_write_lock-Keeps :
      (is_writer a l && (l.write_recursion_depth == 0)) ≡ false
      → begin_write_lock a thread relinquished l ≡ ok (some (sends, l'))
      → (c : ℕ) → Keeps a l l' c
  unfolding begin_write_lock is_writer writes
  begin_write_lock-Keeps free e c = ground arith

  pub begin_unlock-Keeps : begin_unlock a thread l ≡ ok (sends, l') → (c : ℕ) → Keeps a l l' c
  unfolding begin_unlock is_writer writes
  begin_unlock-Keeps e c = ground arith

  pub finish_write_lock-writes :
      finish_write_lock a thread l ≡ ok l'
      → (c : ℕ) → (is_writer c l ≡ false) × (is_writer a l' ≡ true)
  unfolding finish_write_lock is_writer
  finish_write_lock-writes e c = ground arith

  pub handle_lock_request-granted :
      (locker lowest : ℕ)
      → handle_lock_request a lowest relinquished locker l ≡ ok (some (true, l'))
      → (c : ℕ) → (is_writer c l ≡ false) × (is_writer c l' ≡ (locker == c))
  unfolding handle_lock_request is_writer
  handle_lock_request-granted locker lowest e c = ground arith

  pub handle_unlock_request-released :
      (locker : ℕ)
      → handle_unlock_request relinquished locker l ≡ ok l'
      → (c : ℕ) → (is_writer c l ≡ (locker == c)) × (is_writer c l' ≡ false)
  unfolding handle_unlock_request is_writer
  handle_unlock_request-released locker e c = ground arith

-- An acknowledged lock request can be undone: the unlock request of the same peer passes all checks
-- and restores the state of the lock, whether the peer was idle or attempting itself.
pub handle_unlock_request-handle_lock_request :
    (self lowest locker : ℕ) (l l' : DistributedRwLock)
    → handle_lock_request self lowest false locker l ≡ ok (some (true, l'))
    → handle_unlock_request false locker l' ≡ ok (record l' { state = l.state })
unfolding handle_lock_request handle_unlock_request
handle_unlock_request-handle_lock_request self lowest locker l l' e = ground arith
