-- ===== src/Sync.antt =====
-- src/mutex.c, src/semaphore.c, src/block_buf.c and src/spinlock.c. A process that cannot go on leaves the
-- processor inside the loop of `mutex_lock` or `semaphore_wait`, and tests again when it is
-- scheduled: one pass of the loop is a definition, and says whether the call returned.
pub mod Sleep
pub mod Mutex
pub mod Semaphore
pub mod BlockBuf
pub mod Spinlock
mod Examples
use zosys.Common.{ℕ, Option, none, some}
use zosys.Common.ProcList.{ProcList}
use zosys.Process.{Sched, Run, ok, panic, fault, blocked, ready, set_state, push_ready, schedule}

-- What a pass leaves behind: the call has returned, or the process sleeps in the loop.
pub data Pass (A : Type 0) : Type 0 where
  returned : A → Pass A
  asleep : A → Pass A

module _ {L : ProcList} where
  -- `current_proc->state = BLOCKED; p_list_push_back(&list, current_proc); process_schedule();`
  abbrev pub sleep : L.T → Sched L → L.T × Run (Sched L)
  sleep l s = (L.push_back l s.current, schedule (set_state s s.current blocked))

  -- `if (p) { p->state = READY; p_list_push_back(&process_ready_list, p); }`
  abbrev pub wake : Option ℕ → Sched L → Sched L
  wake none s = s
  wake (some p) s = push_ready (set_state s p ready) p

  abbrev pub asleep_in : {A : Type 0} → A → Run (Sched L) → Run (Pass (A × Sched L))
  asleep_in a (ok s) = ok (asleep (a, s))
  asleep_in a panic = panic
  asleep_in a fault = fault
