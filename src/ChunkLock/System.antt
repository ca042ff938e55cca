-- ===== src/ChunkLock/System.antt =====
-- The peers of a chunk that lock and unlock it, as interleaved steps. A step is what one peer does
-- under `lock_.mutex`; `acks a b` says that `b` acknowledged a lock request of `a` and has not yet
-- handled an unlock request of `a`. A request that is declined or waits changes nothing.
use map_api.Prelude.{ℕ, ◌≡◌, Bool, true, false, not, some, List, ◌==◌, ◌&&◌, if◌then◌else◌}
use map_api.Prelude.Checked.{ok}
use map_api.Prelude.IdSet.{contains}
use map_api.ChunkLock.{
  DistributedRwLock, unlocked, is_writer, distributed_read_lock, begin_write_lock,
  finish_write_lock, begin_unlock, unlock_self, handle_lock_request, handle_unlock_request,
}

pub record System : Type 0 where
  pub locks : ℕ → DistributedRwLock
  pub acks : ℕ → ℕ → Bool

unfoldable pub at {ℓ} : {A : Type ℓ} → ℕ → A → (ℕ → A) → ℕ → A
at k v f j = if j == k then v else f j

-- `distributedUnlock` holds the mutex until all peers have handled the request.
unfoldable pub is_releasing : ℕ → System → Bool
is_releasing a s = is_writer a (s.locks a) && ((s.locks a).write_recursion_depth == 0)

abbrev pub with_lock : ℕ → DistributedRwLock → System → System
with_lock a l s = record s { locks = at a l s.locks }

abbrev pub with_ack : ℕ → ℕ → Bool → System → System
with_ack a b ack s = record s { acks = at a (at b ack (s.acks a)) s.acks }

pub data Step (peers : List ℕ) (s : System) : System → Type 0 where
  read :
      (a thread : ℕ) (relinquished : Bool) (l : DistributedRwLock)
      → is_releasing a s ≡ false
      → distributed_read_lock a thread relinquished (s.locks a) ≡ ok (some l)
      → Step peers s (with_lock a l s)
  attempt :
      (a thread : ℕ) (relinquished sends : Bool) (l : DistributedRwLock)
      → is_releasing a s ≡ false
      → begin_write_lock a thread relinquished (s.locks a) ≡ ok (some (sends, l))
      → Step peers s (with_lock a l s)
  request :
      (a b lowest : ℕ) (relinquished : Bool) (l : DistributedRwLock)
      → (a == b) ≡ false
      → is_releasing b s ≡ false
      → handle_lock_request b lowest relinquished a (s.locks b) ≡ ok (some (true, l))
      → Step peers s (with_ack a b true (with_lock b l s))
  acquire :
      (a thread : ℕ) (l : DistributedRwLock)
      → ((b : ℕ) → (contains b peers && not (b == a)) ≡ true → s.acks a b ≡ true)
      → is_releasing a s ≡ false
      → finish_write_lock a thread (s.locks a) ≡ ok l
      → Step peers s (with_lock a l s)
  unlock :
      (a thread : ℕ) (sends : Bool) (l : DistributedRwLock)
      → is_releasing a s ≡ false
      → begin_unlock a thread (s.locks a) ≡ ok (sends, l)
      → Step peers s (with_lock a l s)
  release :
      (a b : ℕ) (relinquished : Bool) (l : DistributedRwLock)
      → (a == b) ≡ false
      → (s.locks a).write_recursion_depth ≡ 0
      → is_releasing b s ≡ false
      → handle_unlock_request relinquished a (s.locks b) ≡ ok l
      → Step peers s (with_ack a b false (with_lock b l s))
  release_self :
      (a : ℕ)
      → is_writer a (s.locks a) ≡ true
      → (s.locks a).write_recursion_depth ≡ 0
      → Step peers s (with_lock a (unlock_self (s.locks a)) s)

abbrev pub initial : System
initial = record {
  locks = λ a. record {
    state = unlocked;
    preempted_state = unlocked;
    n_readers = 0;
    holder = 0;
    thread = 0;
    write_recursion_depth = 0;
  };
  acks = λ a b. false;
}

pub data Reach (peers : List ℕ) : System → Type 0 where
  start : Reach peers initial
  later : {s t : System} → Reach peers s → Step peers s t → Reach peers t
