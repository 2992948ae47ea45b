-- ===== src/Sync/Sleep.antt =====
-- What it does to the scheduler that the current process goes to sleep, or wakes another.
use mathlib.Core.Path.{fun_ext}
use zosys.Common.{ℕ, ◌≡◌, ◌≢◌, refl, sym, ap, ◌∙◌, true, false, some, List, [], ◌∷◌, ◌++◌, arith}
use zosys.Common.ProcList.{ProcList, has}
use zosys.Process.{Sched, ok, ready, blocked, set_state}
use zosys.Process.Queue.{pick, pick-has, pick-Distinct, Distinct-snoc, has-append, ne_of_has}
use zosys.Process.Valid.{queue, idle, IsValid}
use zosys.Process.Schedule.{schedule_lem}
use zosys.Sync.{sleep, wake}

module _ {L : ProcList} where
  -- The caller is BLOCKED, `c` runs, `q` is ready, and the other processes are as they were.
  pub record Slept (s : Sched L) (c : ℕ) (q : List ℕ) (s' : Sched L) : Type 0 where
    pub current : s'.current ≡ c
    pub queue_is : queue s' ≡ q
    pub sleeper : (s'.proc s.current).state ≡ blocked
    pub others : (p : ℕ) → p ≢ c → p ≢ s.current → (s'.proc p).state ≡ (s.proc p).state
    pub valid : IsValid s'

  -- Another process than the current one is chosen.
  chosen-ne :
      {s : Sched L} (c : ℕ) (q : List ℕ)
      → IsValid s
      → pick (idle s) (queue s) ≡ some (c, q)
      → c ≢ s.current
  chosen-ne {s} c q v e same =
      ground (arith, pick-has (idle s) (queue s) c q c e, v.alone, ap (λ x. has x (queue s)) same)

  leave : Sched L → Sched L
  leave s = set_state s s.current blocked

  idle-leave : (s : Sched L) (p : ℕ) → idle (leave s) p ≡ idle s p
  unfolding leave
  idle-leave s p = ground arith

  leave-state : (s : Sched L) (p : ℕ) → p ≢ s.current → ((leave s).proc p).state ≡ (s.proc p).state
  unfolding leave
  leave-state s p ne = ground arith

  leave-blocked : (s : Sched L) → ((leave s).proc s.current).state ≡ blocked
  unfolding leave
  leave-blocked s = ground arith

  still_ready :
      {s : Sched L} (c : ℕ) (q : List ℕ) (p : ℕ)
      → IsValid s
      → pick (idle s) (queue s) ≡ some (c, q)
      → has p q ≡ true
      → ((leave s).proc p).state ≡ ready
  still_ready {s} c q p v e h =
      let inside : has p (queue s) ≡ true = ground (arith, pick-has (idle s) (queue s) c q p e) in
      leave-state s p (ne_of_has p s.current (queue s) inside v.alone) ∙ v.waits p inside

  pub sleep_lem :
      {s : Sched L} (l : L.T) (c : ℕ) (q : List ℕ)
      → IsValid s
      → pick (idle s) (queue s) ≡ some (c, q)
      → (s' : Sched L) × ((sleep l s).1 ≡ ok s') × Slept s c q s'
  unfolding leave
  sleep_lem {s} l c q v e =
      let ne = chosen-ne c q v e in
      let out = pick-Distinct (idle s) (queue s) c q v.distinct e in
      let (s', ran, sch) = schedule_lem (leave s) c q v.distinct (rw (fun_ext (idle-leave s)) e) in
      (
        s',
        ran,
        record {
          current = sch.current;
          queue_is = sch.queue_is;
          sleeper = sch.others s.current (λ h. ne (sym h)) ∙ leave-blocked s;
          others = λ p a b. sch.others p a ∙ leave-state s p b;
          valid = record {
            alone = rw (sch.current, sch.queue_is) out.0;
            distinct = rw sch.queue_is out.1;
            runs = rw sch.current sch.runs;
            waits = λ p h.
                let inside : has p q ≡ true = rw (← sch.queue_is) h in
                sch.others p (ne_of_has p c q inside out.0) ∙ still_ready c q p v e inside;
          };
        },
      )

  -- `p` is READY at the end of the queue, and the current process goes on.
  pub record Woken (s : Sched L) (p : ℕ) (s' : Sched L) : Type 0 where
    pub current : s'.current ≡ s.current
    pub queue_is : queue s' ≡ queue s ++ p ∷ []
    pub state : (s'.proc p).state ≡ ready
    pub others : (r : ℕ) → r ≢ p → (s'.proc r).state ≡ (s.proc r).state
    pub valid : IsValid s'

  pub wake_lem :
      {s : Sched L} (p : ℕ)
      → IsValid s
      → has p (queue s) ≡ false
      → p ≢ s.current
      → Woken s p (wake (some p) s)
  wake_lem {s} p v out ne =
      let pushed = L.to_list-push_back s.ready_list p out in
      record {
        current = refl;
        queue_is = pushed;
        state = ground arith;
        others = λ r h. ground arith;
        valid = record {
          alone = rw pushed (ground (arith, has-append s.current (queue s) (p ∷ []), v));
          distinct = rw pushed (Distinct-snoc (queue s) p v.distinct out);
          runs = ground (arith, v);
          waits = λ r h.
              let inside : has r (queue s ++ p ∷ []) ≡ true = rw (← pushed) h in
              ground (arith, has-append r (queue s) (p ∷ []), v.waits r);
        };
      }
