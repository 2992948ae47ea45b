-- ===== src/Process/Schedule.antt =====
-- `process_switch` and `process_schedule` of src/process.c.
use mathlib.Core.Path.{subst₂}
use zosys.Common.{
  ℕ, ◌^◌, ◌<◌, ◌≡◌, ◌≢◌, refl, ◌⊎◌, inl, inr, true, false, Option, some, List, [], ◌∷◌, ◌++◌, arith,
  Bool-cases,
}
use zosys.Common.ProcList.{ProcList, has}
use zosys.Process.{Sched, Run, ok, running, switch, prefer_other, schedule}
use zosys.Process.Queue.{pick, Distinct}
use zosys.Process.Valid.{queue, idle}

module _ {L : ProcList} where
  -- Leaving a process and coming back to it restores its stack pointer and its page base, whatever
  -- other process ran in between.
  switch-switch :
      (s : Sched L) (q : ℕ)
      → q ≢ s.current
      → s.reg_sp < 2 ^ 16
      → let s' = switch (switch s q) s.current in
        (s'.current ≡ s.current)
        × (s'.reg_sp ≡ s.reg_sp)
        × (s'.reg_cbr ≡ s.reg_cbr)
        × ((s'.proc s.current).state ≡ running)
  unfolding switch
  switch-switch s q ne small = ground arith

  -- `c` runs now, `q` is ready, and nothing else of the state that the scheduler reads has changed.
  pub record Scheduled (s : Sched L) (c : ℕ) (q : List ℕ) (s' : Sched L) : Type 0 where
    pub current : s'.current ≡ c
    pub queue_is : queue s' ≡ q
    pub runs : (s'.proc c).state ≡ running
    pub others : (p : ℕ) → p ≢ c → (s'.proc p).state ≡ (s.proc p).state
    pub pids : (p : ℕ) → (s'.proc p).pid ≡ (s.proc p).pid
    pub zombies : s'.zombie_list ≡ s.zombie_list
    pub waiting : s'.wait_list ≡ s.wait_list
    pub wait_pids : (p : ℕ) → (s'.proc p).wait_pid ≡ (s.proc p).wait_pid
    pub wait_options : (p : ℕ) → (s'.proc p).wait_options ≡ (s.proc p).wait_options
    pub wait_processes : (p : ℕ) → (s'.proc p).wait_process ≡ (s.proc p).wait_process

  -- A switch to `c` after a change of the ready list alone.
  requeued :
      (s : Sched L) (l : L.T) (c : ℕ) (q : List ℕ)
      → L.to_list l ≡ q
      → Scheduled s c q (switch (record s { ready_list = l }) c)
  unfolding switch
  requeued s l c q h = record {
    current = refl;
    queue_is = h;
    runs = ground arith;
    others = λ p ne. ground arith;
    pids = λ p. ground arith;
    zombies = refl;
    waiting = refl;
    wait_pids = λ p. ground arith;
    wait_options = λ p. ground arith;
    wait_processes = λ p. ground arith;
  }

  abbrev pub Schedules : Sched L → ℕ → List ℕ → Run (Sched L) → Type 0
  Schedules s c q r = (s' : Sched L) × (r ≡ ok s') × Scheduled s c q s'

  -- The idle process alone is ready, or another one comes first.
  prefer_first :
      (s : Sched L) (l : L.T) (x c : ℕ) (q : List ℕ)
      → L.to_list l ≡ q
      → (idle s x ≡ false) ⊎ (q ≡ [])
      → Schedules s x q (prefer_other (record s { ready_list = l }) x)
  unfolding prefer_other
  prefer_first s l x c q e why =
      (switch (record s { ready_list = l }) x, ground (arith, L.empty_lem l), requeued s l x q e)

  -- The idle process gives way.
  prefer_second :
      (s : Sched L) (l : L.T) (x y : ℕ) (r : List ℕ)
      → L.to_list l ≡ y ∷ r
      → has x (y ∷ r) ≡ false
      → idle s x ≡ true
      → Schedules s y (r ++ x ∷ []) (prefer_other (record s { ready_list = l }) x)
  unfolding prefer_other
  prefer_second s l x y r e out i =
      let pushed : L.to_list (L.push_back l x) ≡ y ∷ (r ++ x ∷ []) =
        ground (arith, L.to_list-push_back l x) in
      let popped = L.pop_front-cons (L.push_back l x) y (r ++ x ∷ []) pushed in
      (
        switch (record s { ready_list = (L.pop_front (L.push_back l x)).1 }) y,
        ground (arith, L.empty_lem l, popped),
        requeued s (L.pop_front (L.push_back l x)).1 y (r ++ x ∷ []) popped.1,
      )

  Schedules-eq :
      {s : Sched L} {r : Run (Sched L)} (c d : ℕ) (q t : List ℕ)
      → ◌≡◌ {A = Option (ℕ × List ℕ)} (some (c, q)) (some (d, t))
      → Schedules s c q r
      → Schedules s d t r
  Schedules-eq {s} {r} c d q t e h =
      subst₂ (λ c q. Schedules s c q r) (ground arith) (ground arith) h

  schedule_from :
      (s : Sched L) (xs : List ℕ) (c : ℕ) (q : List ℕ)
      → queue s ≡ xs
      → Distinct xs
      → pick (idle s) xs ≡ some (c, q)
      → Schedules s c q (schedule s)
  unfolding pick schedule
  schedule_from s [] c q e d h = absurd (ground arith)
  schedule_from s (x ∷ []) c q e d h =
      let popped = L.pop_front-cons s.ready_list x [] e in
      rw (popped.0, schedule)
        (Schedules-eq x c [] q h
          (prefer_first s (L.pop_front s.ready_list).1 x c [] popped.1 (inr refl)))
  schedule_from s (x ∷ y ∷ r) c q e d h =
      let popped = L.pop_front-cons s.ready_list x (y ∷ r) e in
      rw (popped.0, schedule)
        (elim (Bool-cases (idle s x)) [
          | inl i ↦
              Schedules-eq y c (r ++ x ∷ []) q (ground arith)
                (prefer_second s (L.pop_front s.ready_list).1 x y r popped.1 d.0 i)
          | inr n ↦
              Schedules-eq x c (y ∷ r) q (ground arith)
                (prefer_first s (L.pop_front s.ready_list).1 x c (y ∷ r) popped.1 (inl n))
        ])

  -- From a ready queue in which each process stands once, `process_schedule` runs the process that
  -- `pick` chooses, and leaves the queue that `pick` says; nothing else that counts changes.
  pub schedule_lem :
      (s : Sched L) (c : ℕ) (q : List ℕ)
      → Distinct (queue s)
      → pick (idle s) (queue s) ≡ some (c, q)
      → Schedules s c q (schedule s)
  schedule_lem s c q d h = schedule_from s (queue s) c q refl d h
