-- ===== src/Tests/Lock.antt =====
-- Threads of the server: a writer and a reader that waits for it.
use student_management_syste.Prelude.{◌≢◌, refl, true, arith, update}
use student_management_syste.Server.Lock.{
  idle, down_locked, down_counted, reading, writing, reads, writes, next, Threads, mutex_init, turn,
  Reach, start, later,
}
use student_management_syste.Server.Lock.Exclusion.{writer_excludes, no_deadlock, CanProceed}

-- Thread 0 writes; thread 1 has counted itself in and waits for `mutex`.
abbrev waiting : Threads
waiting = record {
  locks = record { mutex = true; mutex_reader = true; reader_num = 1 };
  pc = update (update (update (λ _. idle) 0 writing) 1 down_locked) 1 down_counted;
}

waiting-Reach : Reach 2 waiting
unfolding next mutex_init
waiting-Reach =
    later
      (later (later start (turn 0 writes _ writing (omega arith) refl))
        (turn 1 reads _ down_locked (omega arith) refl))
      (turn 1 reads _ down_counted (omega arith) refl)

writer_excludes_example : (waiting.pc 1 ≢ reading) × (waiting.pc 1 ≢ writing)
writer_excludes_example =
    writer_excludes waiting-Reach 0 1 (omega arith) (omega arith) (omega arith) refl

no_deadlock_example : CanProceed 2 waiting
no_deadlock_example = no_deadlock waiting-Reach 1 (omega arith) (λ e. cc)
