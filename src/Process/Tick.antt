-- ===== src/Process/Tick.antt =====
-- `process_tick` of src/process.c, the timer's interrupt routine, and what a run of ticks does.
use mathlib.Core.Path.{fun_ext}
use zosys.Common.{
  ℕ, zero, suc, ◌+◌, ◌≤◌, ◌<◌, ◌≡◌, ◌∙◌, inl, inr, true, false, some, List, [], ◌∷◌, ◌++◌, arith,
  Option-cases,
}
use native.Mathlib.Numerals.{add-one}
use zosys.Common.ProcList.{ProcList, has}
use zosys.Process.{Sched, Run, ok, panic, fault, ready, set_state, push_ready, tick}
use zosys.Process.Queue.{
  pick, Distinct, Distinct-snoc, pick-Distinct, pick-has, pick-snoc, At, At-append, pick-At,
  has-append, ne_of_has,
}
use zosys.Process.Valid.{queue, idle, IsValid}
use zosys.Process.Schedule.{Scheduled, schedule_lem}

module _ {L : ProcList} where
  -- A process that gives up the processor stays valid only in the queue: the state that `tick`
  -- hands to the scheduler.
  yielded : Sched L → Sched L
  yielded s = push_ready (set_state s s.current ready) s.current

  queue-yielded : {s : Sched L} → IsValid s → queue (yielded s) ≡ queue s ++ s.current ∷ []
  unfolding yielded
  queue-yielded {s} v = L.to_list-push_back s.ready_list s.current v.alone

  idle-yielded : (s : Sched L) (p : ℕ) → idle (yielded s) p ≡ idle s p
  unfolding yielded
  idle-yielded s p = ground arith

  pub record Ticked (s s' : Sched L) : Type 0 where
    pub picked : pick (idle s) (queue s ++ s.current ∷ []) ≡ some (s'.current, queue s')
    pub pids : (p : ℕ) → (s'.proc p).pid ≡ (s.proc p).pid
    pub valid : IsValid s'
    pub zombies : s'.zombie_list ≡ s.zombie_list
    pub waiting : s'.wait_list ≡ s.wait_list

  yielded-ready :
      {s : Sched L} (p : ℕ)
      → IsValid s
      → has p (queue s ++ s.current ∷ []) ≡ true
      → ((yielded s).proc p).state ≡ ready
  unfolding yielded
  yielded-ready {s} p v h = ground (arith, v.waits p, has-append p (queue s) (s.current ∷ []))

  waits_at :
      {s s' : Sched L} (c : ℕ) (q : List ℕ)
      → IsValid s
      → pick (idle s) (queue s ++ s.current ∷ []) ≡ some (c, q)
      → has c q ≡ false
      → Scheduled (yielded s) c q s'
      → (p : ℕ) → has p (queue s') ≡ true
      → (s'.proc p).state ≡ ready
  waits_at {s} c q v e out sch p h =
      let inside : has p q ≡ true = rw (← sch.queue_is) h in
      sch.others p (ne_of_has p c q inside out)
      ∙ yielded-ready p v (ground (arith, pick-has (idle s) (queue s ++ s.current ∷ []) c q p e))

  tick_at :
      {s : Sched L} (c : ℕ) (q : List ℕ)
      → IsValid s
      → pick (idle s) (queue s ++ s.current ∷ []) ≡ some (c, q)
      → (s' : Sched L) × (tick s ≡ ok s') × Ticked s s' × (s'.current ≡ c)
  unfolding tick yielded
  tick_at {s} c q v e =
      let dist : Distinct (queue s ++ s.current ∷ []) =
        Distinct-snoc (queue s) s.current v.distinct v.alone in
      let dist' = pick-Distinct (idle s) (queue s ++ s.current ∷ []) c q dist e in
      let (s', ran, sch) =
        schedule_lem (yielded s) c q (rw (queue-yielded v) dist)
          (rw (queue-yielded v, fun_ext (idle-yielded s)) e) in
      (
        s',
        ran,
        record {
          picked = rw (sch.current, sch.queue_is) e;
          pids = λ p. ground (arith, sch.pids p);
          valid = record {
            alone = rw (sch.current, sch.queue_is) dist'.0;
            distinct = rw sch.queue_is dist'.1;
            runs = rw sch.current sch.runs;
            waits = waits_at c q v e dist'.0 sch;
          };
          zombies = sch.zombies;
          waiting = sch.waiting;
        },
        sch.current,
      )

  -- From a valid state `process_tick` neither panics nor faults. The current process joins the end
  -- of the ready queue, the one that `pick` chooses from it runs, the rest stay ready in their
  -- order, and the state is valid again.
  pub tick_lem : {s : Sched L} → IsValid s → (s' : Sched L) × (tick s ≡ ok s') × Ticked s s'
  tick_lem {s} v = elim (Option-cases (pick (idle s) (queue s ++ s.current ∷ []))) [
    | inl e ↦ absurd (pick-snoc (idle s) (queue s) s.current e)
    | inr ((c, q), e) ↦ let (s', ran, t, _) = tick_at c q v e in (s', ran, t)
  ]

  pub ticks : ℕ → Sched L → Run (Sched L)
  ticks zero s = ok s
  ticks (suc n) s = elim (tick s) [ ok s' ↦ ticks n s' | panic ↦ panic | fault ↦ fault ]

  ticks-suc : (s s' : Sched L) (n : ℕ) → tick s ≡ ok s' → ticks (suc n) s ≡ ticks n s'
  unfolding ticks
  ticks-suc s s' n e = rw (e, ticks)

  keeps_idle : {s s' : Sched L} (p : ℕ) → Ticked s s' → idle s p ≡ false → idle s' p ≡ false
  keeps_idle p t i = rw t.pids i

  -- A process that runs within `n` ticks of `s`.
  abbrev pub RunsWithin : ℕ → ℕ → Sched L → Type 0
  RunsWithin n p s = (k : ℕ) × (s' : Sched L) × (k ≤ n) × (ticks k s ≡ ok s') × (s'.current ≡ p)

  runs_by :
      (fuel n p : ℕ) {s : Sched L}
      → n < fuel
      → IsValid s
      → idle s p ≡ false
      → At p n (queue s)
      → RunsWithin (suc n) p s
  unfolding ticks
  runs_by zero n p h v i a = absurd (omega arith)
  runs_by (suc fuel) n p {s} h v i a =
      let (s', ran, t) = tick_lem v in
      elim (pick-At (idle s) (queue s ++ s.current ∷ []) s'.current (queue s')
        (At-append (s.current ∷ []) a) i t.picked) [
          | inl now ↦ (1, s', omega arith, ticks-suc s s' 0 ran, now)
          | inr (k, less, a') ↦
              let (j, s'', le, ran', at) =
                runs_by fuel k p {s = s'} (omega arith) t.valid (keeps_idle p t i) a' in
              (suc j, s'', omega arith, ticks-suc s s' j ran ∙ ran', at)
        ]

  -- No starvation: from a valid state a ready process with `n` others before it, other than the idle one, runs within
  -- `n + 1` ticks, if it is only timer ticks that happen.
  pub runs_soon :
      (n p : ℕ) {s : Sched L}
      → IsValid s
      → idle s p ≡ false
      → At p n (queue s)
      → RunsWithin (n + 1) p s
  runs_soon n p v i a = rw add-one (runs_by (suc n) n p (omega arith) v i a)
