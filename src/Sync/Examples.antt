-- ===== src/Sync/Examples.antt =====
-- Runs of the mutex, the semaphore and the block pool: process 1 runs, process 2 is ready, and
-- processes 4 and 5 sleep.
use zosys.Common.{
  List, ℕ, ◌≤◌, ◌≡◌, refl, ◌⊎◌, true, false, none, some, [], ◌∷◌, arith, ◌==◌, if◌then◌else◌,
}
use zosys.Common.Int.{pos, negsuc}
use zosys.Common.ListModel.{list_model}
use zosys.Process.{Process, Sched, ProcState, ok, ready, running, blocked}
use zosys.Process.Queue.{pick}
use zosys.Process.Valid.{IsValid, queue, idle}
use zosys.Sync.{asleep}
use zosys.Sync.Mutex.{Mutex}
use zosys.Sync.Semaphore
use zosys.Sync.Semaphore.{Semaphore, wait, wait_pass, signal, signal_lost}
use zosys.Sync.Spinlock
use zosys.Sync.Spinlock.{holders, start, spinlock_excludes}
use zosys.Sync.BlockBuf
use zosys.Sync.BlockBuf.{BlockBuf, tryalloc, free, locked_at, unlocked, Took, tryalloc_lem}

abbrev state_of : ℕ → ProcState
state_of p = if p == 1 then running else if p == 2 then ready else blocked

abbrev process : ℕ → Process
process p = record {
  sp = 0;
  cbr = 0;
  state = state_of p;
  pid = p;
  ppid = 1;
  status = 0;
  wait_pid = pos 0;
  wait_options = 0;
  wait_process = none;
}

abbrev busy : Sched list_model
busy = record {
  proc = process;
  process_list = 1 ∷ 2 ∷ 4 ∷ 5 ∷ [];
  ready_list = 2 ∷ [];
  zombie_list = [];
  wait_list = [];
  current = 1;
  reg_sp = 0;
  reg_cbr = 0;
}

busy-IsValid : IsValid busy
busy-IsValid = record {
  alone = refl;
  distinct = (refl, tt);
  runs = refl;
  waits = λ p h. ground arith;
}

picked : pick (idle busy) (queue busy) ≡ some (2, [])
unfolding pick
picked = refl

abbrev held : Mutex list_model
held = record { blocked_list = 4 ∷ 5 ∷ []; locked = true }

abbrev idle_mutex : Mutex list_model
idle_mutex = record { blocked_list = []; locked = false }

abbrev sem : Semaphore list_model
sem = record { blocked_list = 4 ∷ 5 ∷ []; count = negsuc 1 }

-- The process that `busy` had woken runs, and processes 1 and 2 are ready.
abbrev later_state : ℕ → ProcState
later_state p = if p == 4 then running else if p == 5 then blocked else ready

abbrev later : Sched list_model
later = record busy {
  proc = λ p. record (process p) { state = later_state p };
  ready_list = 1 ∷ 2 ∷ [];
  current = 4;
}

later-IsValid : IsValid later
later-IsValid = record {
  alone = refl;
  distinct = (refl, (refl, tt));
  runs = refl;
  waits = λ p h. ground arith;
}

picked_later : pick (idle later) (queue later) ≡ some (1, 2 ∷ [])
unfolding pick
picked_later = refl

signal_lost_example :
    let m' = (signal sem busy).0 in
    (m'' : Semaphore list_model) × (t' : Sched list_model) × (wait_pass m' later
      ≡ ok (asleep (m'', t')))
    × (Semaphore.waiters m'' ≡ 5 ∷ 4 ∷ [])
    × (t'.current ≡ 1)
signal_lost_example =
    signal_lost sem busy 0 1 4 (5 ∷ []) (2 ∷ []) refl refl refl later-IsValid refl picked_later

abbrev pool : BlockBuf list_model
pool = record { available = record { blocked_list = []; count = pos 1 }; free = idle_mutex ∷ [] }

tryalloc_lem_example :
    ((tryalloc pool ≡ ok (none, pool)) × (unlocked pool.free ≡ 0))
    ⊎ ((block : ℕ) × (b' : BlockBuf list_model) × (j : ℕ) × (tryalloc pool ≡ ok (some block, b'))
        × BlockBuf.IsValid b'
        × Took 0 pool.free block b'.free j)
tryalloc_lem_example = tryalloc_lem refl

abbrev drained : BlockBuf list_model
drained = record {
  available = record { blocked_list = []; count = pos 0 };
  free = record { blocked_list = []; locked = true } ∷ [];
}

-- Both processes pass the test before either adds to the byte, and process 0 gets there first.
abbrev order : List ℕ
order = 0 ∷ 1 ∷ 0 ∷ 0 ∷ 1 ∷ 1 ∷ 0 ∷ 1 ∷ 1 ∷ []

spinlock_excludes_example : holders (Spinlock.run order (start 2)) ≤ 1
spinlock_excludes_example = spinlock_excludes 2 order (omega arith)

holders-order : holders (Spinlock.run order (start 2)) ≡ 1
unfolding Spinlock.run Spinlock.step
holders-order = refl
