-- ===== src/Tests/Locks.antt =====
-- Runs of the reader-writer locks.
use map_api.Prelude.{◌+◌, ◌≤◌, ◌≡◌, refl, true, false, [], ◌∷◌, ◌==◌, if◌then◌else◌}
use map_api.ReaderWriter.{
  writer_first, reader_first, Mutex, Phase, idle, entering, reading, writing, finishing, silent,
  writer_finished, initial, read, write, unwrite, notify, run, Reach, start, later,
}
use map_api.ReaderWriter.Invariant.{
  total, is_reading, is_writing, is_upgrading, Reach-mutual_exclusion,
}
use map_api.ReaderWriter.Progress.{all_of, is_quiet, is_idle, Reach-progress}

-- A thread writes.
abbrev written : Mutex
written = record {
  num_readers = 0;
  num_pending_writers = 0;
  current_writer = true;
  pending_upgrade = false;
}

-- It writes, and another one waits to read.
one_waits : Reach writer_first 2 written (writing ∷ entering true ∷ [])
unfolding map_api.ReaderWriter.all_idle map_api.ReaderWriter.acquire_write_lock
    map_api.ReaderWriter.enter_first_loop map_api.ReaderWriter.enter_second_loop
    map_api.ReaderWriter.must_drain map_api.ReaderWriter.must_await map_api.ReaderWriter.take_writer
    map_api.ReaderWriter.acquire_read_lock map_api.ReaderWriter.must_not_read
    map_api.ReaderWriter.release_write_lock map_api.ReaderWriter.woken
one_waits =
    later (later start (run [] (idle ∷ []) idle writing silent write refl refl))
      (run (writing ∷ []) [] idle (entering true) silent read refl refl)

-- It has written.
all_done : Reach reader_first 1 initial (idle ∷ [])
unfolding map_api.ReaderWriter.all_idle map_api.ReaderWriter.acquire_write_lock
    map_api.ReaderWriter.enter_first_loop map_api.ReaderWriter.enter_second_loop
    map_api.ReaderWriter.must_drain map_api.ReaderWriter.must_await map_api.ReaderWriter.take_writer
    map_api.ReaderWriter.acquire_read_lock map_api.ReaderWriter.must_not_read
    map_api.ReaderWriter.release_write_lock map_api.ReaderWriter.woken
all_done =
    later
      (later (later start (run [] [] idle writing silent write refl refl))
        (run [] [] writing finishing silent unwrite refl refl))
      (run [] [] finishing idle writer_finished notify refl refl)

Reach-mutual_exclusion_example :
    (total is_writing (writing ∷ entering true ∷ []) ≤ 1)
    × (total is_upgrading (writing ∷ entering true ∷ []) ≤ 1)
    × ((if total is_writing (writing ∷ entering true ∷ []) == 0
          then 0
          else total is_reading (writing ∷ entering true ∷ [])
            + total is_upgrading (writing ∷ entering true ∷ []))
        ≡ 0)
Reach-mutual_exclusion_example =
    Reach-mutual_exclusion writer_first 2 written (writing ∷ entering true ∷ []) one_waits

Reach-progress_example : all_of is_idle (idle ∷ []) ≡ true
unfolding is_quiet
Reach-progress_example = Reach-progress reader_first 1 initial (idle ∷ []) all_done refl
