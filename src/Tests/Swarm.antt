-- ===== src/Tests/Swarm.antt =====
-- Peer 1 of the swarm of 1 and 2 takes the lock of the chunk.
use map_api.Prelude.{
  ℕ, ◌≡◌, refl, Bool, true, false, some, List, [], ◌∷◌, ◌==◌, ◌&&◌, not, arith, if◌then◌else◌,
}
use map_api.ChunkLock.{
  DistributedRwLock, unlocked, attempting, write_locked, handle_lock_request, handle_unlock_request,
}
use map_api.ChunkLock.System.{
  System, with_lock, with_ack, initial, Reach, start, later, attempt, request, acquire,
}
use map_api.ChunkLock.Sections.{handle_unlock_request-handle_lock_request}
use map_api.ChunkLock.Exclusion.{Reach-one_writer}

abbrev free_lock : DistributedRwLock
free_lock = record {
  state = unlocked;
  preempted_state = unlocked;
  n_readers = 0;
  holder = 0;
  thread = 0;
  write_recursion_depth = 0;
}

abbrev attempt_lock : DistributedRwLock
attempt_lock = record free_lock { state = attempting; thread = 7 }

abbrev remote_lock : DistributedRwLock
remote_lock = record free_lock { state = write_locked; holder = 1 }

abbrev own_lock : DistributedRwLock
own_lock = record attempt_lock { state = write_locked; holder = 1; write_recursion_depth = 1 }

abbrev locked_system : System
locked_system =
    with_lock 1 own_lock
      (with_ack 1 2 true (with_lock 2 remote_lock (with_lock 1 attempt_lock initial)))

locked_once : Reach (1 ∷ 2 ∷ []) locked_system
unfolding map_api.ChunkLock.is_writer map_api.ChunkLock.begin_write_lock
    map_api.ChunkLock.finish_write_lock map_api.ChunkLock.handle_lock_request
    map_api.ChunkLock.System.at map_api.ChunkLock.System.is_releasing
    map_api.ChunkLock.Sections.writes map_api.Prelude.IdSet.contains
locked_once =
    later
      (later (later start (attempt 1 7 false true attempt_lock refl refl))
        (request 1 2 1 false remote_lock refl refl refl))
      (acquire 1 7 own_lock (λ b m. ground arith) refl refl)

Reach-one_writer_example : ◌≡◌ {A = ℕ} 1 1
unfolding map_api.ChunkLock.is_writer map_api.ChunkLock.begin_write_lock
    map_api.ChunkLock.finish_write_lock map_api.ChunkLock.handle_lock_request
    map_api.ChunkLock.System.at map_api.ChunkLock.System.is_releasing
    map_api.ChunkLock.Sections.writes map_api.Prelude.IdSet.contains
Reach-one_writer_example =
    Reach-one_writer (1 ∷ 2 ∷ []) locked_system 1 1 locked_once refl refl refl refl
