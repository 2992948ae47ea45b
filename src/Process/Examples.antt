-- ===== src/Process/Examples.antt =====
-- Runs of the scheduler: process 1 runs, the idle process 0, process 2 and process 3 are ready.
use zosys.Common.{ℕ, ◌+◌, ◌≤◌, ◌≡◌, refl, none, some, [], ◌∷◌, arith, ◌==◌, if◌then◌else◌}
use zosys.Common.Int.{pos, negsuc}
use zosys.Common.ListModel.{list_model}
use zosys.Process.{Process, Sched, ok, ready, running, blocked, zombie, update, tick}
use zosys.Process.Queue.{pick, here, there}
use zosys.Process.Valid.{IsValid, queue, idle}
use zosys.Process.Life.{first, found, waits_for, waitpid, exit}
use zosys.Process.Reap.{HandedOver, exit_wakes}
use zosys.Process.Waitpid.{Waited, waitpid_lem}
use zosys.Process.Tick.{Ticked, tick_lem, ticks, runs_soon}

abbrev process : ℕ → Process
process p = record {
  sp = 0xf000 + p;
  cbr = 0x80 + p;
  state = if p == 1 then running else ready;
  pid = p;
  ppid = 1;
  status = 0;
  wait_pid = pos 0;
  wait_options = 0;
  wait_process = none;
}

abbrev busy : Sched list_model
busy = record {
  proc = process;
  process_list = 0 ∷ 1 ∷ 2 ∷ 3 ∷ [];
  ready_list = 0 ∷ 2 ∷ 3 ∷ [];
  zombie_list = [];
  wait_list = [];
  current = 1;
  reg_sp = 0xff00;
  reg_cbr = 0x81;
}

busy-IsValid : IsValid busy
busy-IsValid = record {
  alone = refl;
  distinct = (refl, (refl, (refl, tt)));
  runs = refl;
  waits = λ p h. ground arith;
}

picked : pick (idle busy) (queue busy) ≡ some (2, 3 ∷ 0 ∷ [])
unfolding pick
picked = refl

tick_lem_example : (s' : Sched list_model) × (tick busy ≡ ok s') × Ticked busy s'
tick_lem_example = tick_lem busy-IsValid

runs_soon_example :
    (k : ℕ) × (s' : Sched list_model) × (k ≤ 3) × (ticks k busy ≡ ok s') × (s'.current ≡ 3)
runs_soon_example = runs_soon 2 3 busy-IsValid refl (there (there here))

-- Process 3 runs, process 2 is its parent and waits for any child, process 0 and 4 are ready.
abbrev member : ℕ → Process
member p = record (process p) {
  ppid = if p == 3 then 2 else 1;
  wait_pid = negsuc 0;
  state = if p == 3 then running else if p == 2 then blocked else ready;
}

abbrev family : Sched list_model
family = record busy {
  proc = member;
  process_list = 0 ∷ 1 ∷ 2 ∷ 3 ∷ 4 ∷ [];
  ready_list = 0 ∷ 4 ∷ [];
  wait_list = 2 ∷ [];
  current = 3;
}

waits : first (waits_for family) (2 ∷ []) ≡ some 2
unfolding first
waits = refl

exit_wakes_example :
    (s' : Sched list_model) × (exit 0x305 family ≡ ok s') × HandedOver 0x305 family 2 s'
exit_wakes_example = exit_wakes 0x305 family 2 (ground arith) refl waits

-- The parent does not wait.
abbrev unwaited : Sched list_model
unwaited = record family { wait_list = [] }

nobody_waits : first (waits_for unwaited) [] ≡ none
unfolding first
nobody_waits = refl

picked_family : pick (idle unwaited) (queue unwaited) ≡ some (4, 0 ∷ [])
unfolding pick
picked_family = refl

-- Process 2 runs, and its child, process 3, has ended.
abbrev bereft : Sched list_model
bereft = record family {
  proc = update member 3 (record (member 3) { state = zombie; status = 5 });
  zombie_list = 3 ∷ [];
  wait_list = [];
  current = 2;
}

picked_bereft : pick (idle bereft) (queue bereft) ≡ some (4, 0 ∷ [])
unfolding pick
picked_bereft = refl

waitpid_lem_example : Waited bereft (pos 3) 1 4 (0 ∷ []) (waitpid (pos 3) 1 bereft)
waitpid_lem_example =
    waitpid_lem bereft (pos 3) 1 4 (0 ∷ []) refl (λ p h. ground arith) refl refl (refl, (refl, tt))
      picked_bereft

waitpid-bereft : (r : Sched list_model) × (waitpid (pos 3) 1 bereft ≡ ok (found 3, r))
unfolding waitpid first
waitpid-bereft = (record bereft { zombie_list = [] }, refl)
