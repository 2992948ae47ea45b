-- ===== src/Process/Life.antt =====
-- `process_destroy`, `sys_waitpid` and `sys_exit` of src/process.c. The walk by `p_list_front` and
-- `p_list_next` is a walk over `to_list`. The files of the process are in `zosys.File`: `exit` is
-- what follows their release.
use Prim.Native.Nat.{bit_and}
use zosys.Common.{
  ℕ, ◌%◌, Bool, true, false, ◌&&◌, not, Option, none, some, List, [], ◌∷◌, ◌==◌, if◌then◌else◌,
}
use zosys.Common.Int.{ℤ, pos, negsuc}
use zosys.Common.ProcList.{ProcList}
use zosys.Mem.Pages.{PageMap, free_page_block}
use zosys.Process.{
  ProcState, empty, ready, running, blocked, zombie, Process, Sched, Run, ok, panic, fault, update,
  switch, schedule,
}

-- The first element that passes a test.
unfoldable pub first : (ℕ → Bool) → List ℕ → Option ℕ
first test [] = none
first test (p ∷ ps) = if test p then some p else first test ps

-- A `pid` argument of -1 stands for any process.
abbrev pub accepts : ℤ → ℕ → Bool
accepts (pos n) pid = n == pid
accepts (negsuc n) pid = n == 0

abbrev pub is_zombie : ProcState → Bool
is_zombie zombie = true
is_zombie empty = false
is_zombie ready = false
is_zombie running = false
is_zombie blocked = false

-- What `sys_waitpid` comes to before it reaps.
pub data Wait : Type 0 where
  found : ℕ → Wait
  none_yet no_child waiting : Wait

-- A child of the process with number `pid` becomes one of process 1.
abbrev pub adopt : ℕ → (ℕ → Process) → ℕ → ℕ → Process
adopt pid proc p =
    if (proc p).ppid == pid then update proc p (record (proc p) { ppid = 1 }) else proc

-- The loop over `process_list` in `sys_exit`.
unfoldable pub reparent : ℕ → List ℕ → (ℕ → Process) → ℕ → Process
reparent pid [] proc = proc
reparent pid (p ∷ ps) proc = reparent pid ps (adopt pid proc p)

module _ {L : ProcList} where
  abbrev pub is_child : Sched L → ℤ → ℕ → Bool
  is_child s pid p = ((s.proc p).ppid == (s.proc s.current).pid) && accepts pid (s.proc p).pid

  abbrev pub wait_for : Sched L → ℤ → ℕ → Sched L
  wait_for s pid options = record s {
    proc = update s.proc s.current (record (s.proc s.current) {
      wait_pid = pid;
      wait_options = options;
      wait_process = none;
      state = blocked;
    });
    wait_list = L.push_back s.wait_list s.current;
  }

  abbrev then_waiting : Run (Sched L) → Run (Wait × Sched L)
  then_waiting (ok s) = ok (waiting, s)
  then_waiting panic = panic
  then_waiting fault = fault

  -- Without a zombie: the search of `process_list`, and the sleep.
  unfoldable pub wait_child : ℤ → ℕ → Sched L → Run (Wait × Sched L)
  unfolding first
  wait_child pid options s =
      let asleep = then_waiting (schedule (wait_for s pid options)) in
      elim (first (is_child s pid) (L.to_list s.process_list)) [
        | none ↦ ok (no_child, s)
        | some _ ↦ if bit_and options 1 == 1 then ok (none_yet, s) else asleep
      ]

  unfoldable pub waitpid : ℤ → ℕ → Sched L → Run (Wait × Sched L)
  unfolding wait_child first
  waitpid pid options s =
      if not (bit_and options 0xfffe == 0)
      then ok (no_child, s)
      else elim (first (is_child s pid) (L.to_list s.zombie_list)) [
        | none ↦ wait_child pid options s
        | some z ↦
            if is_zombie (s.proc z).state
            then ok (found z, record s { zombie_list = L.remove s.zombie_list z })
            else panic
      ]

  -- Where a process that slept in `sys_waitpid` goes on.
  unfoldable pub resume : Sched L → Wait
  resume s = elim (s.proc s.current).wait_process [ none ↦ none_yet | some z ↦ found z ]

  unfoldable pub destroy : ℕ → Sched L → PageMap → Sched L × PageMap
  destroy z s m =
      (record s { process_list = L.remove s.process_list z }, free_page_block (s.proc z).cbr m)

  -- The result, and what is copied to `wstatus`.
  unfoldable pub reap : ℕ → Sched L → PageMap → (ℕ × ℕ) × Sched L × PageMap
  unfolding destroy
  reap z s m = (((s.proc z).pid, (s.proc z).status), (destroy z s m).0, (destroy z s m).1)

  abbrev pub waits_for : Sched L → ℕ → Bool
  waits_for s p =
      ((s.proc p).pid == (s.proc s.current).ppid)
      && accepts (s.proc p).wait_pid (s.proc s.current).pid

  abbrev pub dying : ℕ → Sched L → Sched L
  dying status s = record s {
    proc =
        update s.proc s.current
          (record (s.proc s.current) { status = status % 256; state = zombie });
  }

  abbrev pub orphaned : Sched L → Sched L
  orphaned s = record s { proc = reparent (s.proc s.current).pid (L.to_list s.process_list) s.proc }

  -- The parent that waits takes over.
  abbrev pub hand_over : Sched L → ℕ → Sched L
  hand_over s p =
      switch
        (record s {
          proc = update s.proc p (record (s.proc p) { wait_process = some s.current });
          wait_list = L.remove s.wait_list p;
        })
        p

  abbrev pub leave_to : Sched L → Option ℕ → Run (Sched L)
  leave_to s (some p) = ok (hand_over s p)
  leave_to s none = schedule (record s { zombie_list = L.push_back s.zombie_list s.current })

  -- `sys_exit` never returns to its caller: the state is that of the process that runs next.
  unfoldable pub exit : ℕ → Sched L → Run (Sched L)
  unfolding first
  exit status s =
      let s' = orphaned (dying status s) in
      leave_to s' (first (waits_for s') (L.to_list s'.wait_list))
