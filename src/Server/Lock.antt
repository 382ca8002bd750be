-- ===== src/Server/Lock.antt =====
-- Server/server.cpp, "Mutex": `downReader`, `upReader`, `downWriter` and `upWriter` as steps of n
-- threads, which any schedule may interleave. Each step is one call of pthread or one change of
-- `readerNum`; a `pthread_mutex_lock` on a mutex that is taken does not return yet. `readerNum`
-- counts threads, of which there are fewer than 2^31.
mod Count
pub mod Exclusion
use student_management_syste.Prelude.{
  ℕ, ◌+◌, ◌-◌, ◌<◌, ◌≡◌, Bool, true, false, Option, none, some, ◌==◌, if◌then◌else◌, update,
}

-- `os->mutex`, `os->mutex_reader`, `os->readerNum`.
pub record Locks : Type 0 where
  pub mutex : Bool
  pub mutex_reader : Bool
  pub reader_num : ℕ

-- Where a thread stands: outside; in `downReader` after its first lock, after `readerNum++`, and
-- after its test; reading; in `upReader` likewise; writing.
pub data Pc : Type 0 where
  idle : Pc
  down_locked : Pc
  down_counted : Pc
  down_entered : Pc
  reading : Pc
  up_locked : Pc
  up_counted : Pc
  up_left : Pc
  writing : Pc

pub data Choice : Type 0 where
  reads : Choice
  writes : Choice

-- The next step of a thread, `none` while it waits. The choice is what an idle thread does next.
unfoldable pub next : Choice → Locks → Pc → Option (Locks × Pc)
next reads l idle =
    if l.mutex_reader then none else some (record l { mutex_reader = true }, down_locked)
next writes l idle = if l.mutex then none else some (record l { mutex = true }, writing)
next c l down_locked = some (record l { reader_num = l.reader_num + 1 }, down_counted)
next c l down_counted =
    if l.reader_num == 1
    then (if l.mutex then none else some (record l { mutex = true }, down_entered))
    else some (l, down_entered)
next c l down_entered = some (record l { mutex_reader = false }, reading)
next c l reading =
    if l.mutex_reader then none else some (record l { mutex_reader = true }, up_locked)
next c l up_locked = some (record l { reader_num = l.reader_num - 1 }, up_counted)
next c l up_counted =
    if l.reader_num == 0 then some (record l { mutex = false }, up_left) else some (l, up_left)
next c l up_left = some (record l { mutex_reader = false }, idle)
next c l writing = some (record l { mutex = false }, idle)

pub record Threads : Type 0 where
  pub locks : Locks
  pub pc : ℕ → Pc

-- What `mutexInit` leaves: both mutexes free, no reader, all threads outside.
unfoldable pub mutex_init : Threads
mutex_init = record {
  locks = record { mutex = false; mutex_reader = false; reader_num = 0 };
  pc = λ _. idle;
}

-- One of the n threads makes its next step.
pub data Step (n : ℕ) (s : Threads) : Threads → Type 0 where
  turn :
      (i : ℕ) (c : Choice) (l : Locks) (p : Pc)
      → i < n
      → next c s.locks (s.pc i) ≡ some (l, p)
      → Step n s (record { locks = l; pc = update s.pc i p })

pub data Reach (n : ℕ) : Threads → Type 0 where
  start : Reach n mutex_init
  later : {s t : Threads} → Reach n s → Step n s t → Reach n t
