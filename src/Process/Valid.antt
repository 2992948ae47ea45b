-- ===== src/Process/Valid.antt =====
-- The invariant of the scheduler's state: the current process runs and is in no queue, and every
-- process in the ready queue is READY and stands there once.
use zosys.Common.{ℕ, ◌≡◌, Bool, true, false, List, ◌==◌}
use zosys.Common.ProcList.{ProcList, has}
use zosys.Process.{Sched, ready, running}
use zosys.Process.Queue.{Distinct}

module _ {L : ProcList} where
  abbrev pub queue : Sched L → List ℕ
  queue s = L.to_list s.ready_list

  abbrev pub idle : Sched L → ℕ → Bool
  idle s p = (s.proc p).pid == 0

  pub record IsValid (s : Sched L) : Type 0 where
    pub alone : has s.current (queue s) ≡ false
    pub distinct : Distinct (queue s)
    pub runs : (s.proc s.current).state ≡ running
    pub waits : (p : ℕ) → has p (queue s) ≡ true → (s.proc p).state ≡ ready
