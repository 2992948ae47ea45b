-- ===== src/Process.antt =====
-- src/process.c and include/process.h: processes, the scheduler, exit and wait.
-- A process is named by its address. The lists of z88dk are the interface `ProcList`.
pub mod Queue
pub mod Valid
pub mod Schedule
pub mod Tick
pub mod Life
pub mod Reap
pub mod Waitpid
pub mod Clone
pub mod Create
pub mod Fork
mod Examples
use zosys.Common.{
  ℕ, ◌+◌, ◌-◌, ◌%◌, ◌^◌, Bool, true, false, not, Option, none, some, List, ◌==◌, if◌then◌else◌,
}
use zosys.Common.Int.{ℤ}
use zosys.Common.ProcList.{ProcList}
pub use zosys.Common.Run.{Run, ok, panic, fault}

-- `enum proc_state`
pub data ProcState : Type 0 where
  empty ready running blocked zombie : ProcState

-- `struct process`, but for its list links, its working directory and its table of open files.
pub record Process : Type 0 where
  pub sp : ℕ
  pub cbr : ℕ
  pub state : ProcState
  pub pid : ℕ
  pub ppid : ℕ
  pub status : ℕ
  pub wait_pid : ℤ
  pub wait_options : ℕ
  pub wait_process : Option ℕ

-- The variables of process.c, and the two registers that a switch changes.
pub record Sched (L : ProcList) : Type 0 where
  pub proc : ℕ → Process
  pub process_list : L.T
  pub ready_list : L.T
  pub zombie_list : L.T
  pub wait_list : L.T
  pub current : ℕ
  pub reg_sp : ℕ
  pub reg_cbr : ℕ

abbrev pub update : (ℕ → Process) → ℕ → Process → ℕ → Process
update f p v q = if p == q then v else f q

module _ {L : ProcList} where
  abbrev pub set_state : Sched L → ℕ → ProcState → Sched L
  set_state s p st = record s { proc = update s.proc p (record (s.proc p) { state = st }) }

  -- `push ix; push iy` and the saves of CBR and SP, into the process that is left.
  abbrev pub save : Sched L → Sched L
  save s = record s {
    proc =
        update s.proc s.current
          (record (s.proc s.current) { cbr = s.reg_cbr; sp = (s.reg_sp + 2 ^ 16 - 4) % 2 ^ 16 });
  }

  -- The loads of SP and CBR, the new state, and `pop iy; pop ix`.
  abbrev pub load : Sched L → ℕ → Sched L
  load s next = record s {
    proc = update s.proc next (record (s.proc next) { state = running });
    current = next;
    reg_sp = ((s.proc next).sp + 4) % 2 ^ 16;
    reg_cbr = (s.proc next).cbr;
  }

  pub switch : Sched L → ℕ → Sched L
  switch s next = load (save s) next

  -- `p_list_push_back(&process_ready_list, p)`
  abbrev pub push_ready : Sched L → ℕ → Sched L
  push_ready s p = record s { ready_list = L.push_back s.ready_list p }

  abbrev pub drop_ready : Sched L → Sched L
  drop_ready s = record s { ready_list = (L.pop_front s.ready_list).1 }

  abbrev pub switch_to : Sched L → Option ℕ → Run (Sched L)
  switch_to s none = panic
  switch_to s (some next) = ok (switch s next)

  -- The idle process yields if another one is ready.
  pub prefer_other : Sched L → ℕ → Run (Sched L)
  prefer_other s next =
      if (s.proc next).pid == 0
      then if not (L.empty s.ready_list)
        then (let s' = push_ready s next in switch_to (drop_ready s') (L.pop_front s'.ready_list).0)
        else switch_to s (some next)
      else switch_to s (some next)

  -- `next_proc->pid` is read before the test for NULL.
  pub schedule : Sched L → Run (Sched L)
  unfolding prefer_other
  schedule s = elim (L.pop_front s.ready_list).0 [
    | none ↦ fault
    | some next ↦ prefer_other (drop_ready s) next
  ]

  pub tick : Sched L → Run (Sched L)
  tick s = schedule (push_ready (set_state s s.current ready) s.current)
