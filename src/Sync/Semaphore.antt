-- ===== src/Sync/Semaphore.antt =====
-- src/semaphore.c and include/semaphore.h.
use zosys.Common.{
  ℕ, suc, ◌≡◌, ◌≢◌, refl, Bool, true, false, some, List, [], ◌∷◌, ◌++◌, arith, if◌then◌else◌,
}
use zosys.Common.Int.{ℤ, negsuc, is_neg, is_pos, add_one, sub_one}
use zosys.Common.ProcList.{ProcList, has}
use zosys.Process.{Sched, Run, ok}
use zosys.Process.Queue.{pick}
use zosys.Process.Valid.{queue, idle, IsValid}
use zosys.Sync.{Pass, returned, asleep, sleep, wake, asleep_in}
use zosys.Sync.Sleep.{Slept, sleep_lem, Woken, wake_lem}

-- `semaphore_t`; the `int` count is taken not to overflow.
pub record Semaphore (L : ProcList) : Type 0 where
  pub blocked_list : L.T
  pub count : ℤ

module _ {L : ProcList} where
  unfoldable pub init : ℤ → Semaphore L
  init n = record { blocked_list = L.init; count = n }

  -- A pass of the loop of `semaphore_wait`.
  unfoldable pub wait_pass : Semaphore L → Sched L → Run (Pass (Semaphore L × Sched L))
  wait_pass m s =
      if is_neg m.count
      then asleep_in (record m { blocked_list = (sleep m.blocked_list s).0 })
          (sleep m.blocked_list s).1
      else ok (returned (m, s))

  unfoldable pub wait : Semaphore L → Sched L → Run (Pass (Semaphore L × Sched L))
  unfolding wait_pass
  wait m s = wait_pass (record m { count = sub_one m.count }) s

  unfoldable pub trywait : Semaphore L → Bool × Semaphore L
  trywait m = if is_pos m.count then (true, record m { count = sub_one m.count }) else (false, m)

  unfoldable pub signal : Semaphore L → Sched L → Semaphore L × Sched L
  signal m s = (
    record { count = add_one m.count; blocked_list = (L.pop_front m.blocked_list).1 },
    wake (L.pop_front m.blocked_list).0 s,
  )

  abbrev pub waiters : Semaphore L → List ℕ
  waiters m = L.to_list m.blocked_list

  pub record Refused (m : Semaphore L) (s : Sched L) (c : ℕ) (q : List ℕ) (m' : Semaphore L)
      (s' : Sched L) : Type 0 where
    pub count : m'.count ≡ m.count
    pub joined : waiters m' ≡ waiters m ++ s.current ∷ []
    pub sched : Slept s c q s'

  -- A pass at a negative count, where another process can run, puts the caller to sleep at the end
  -- of the waiters.
  wait_pass_neg :
      {m : Semaphore L} {s : Sched L} (n c : ℕ) (q : List ℕ)
      → IsValid s
      → m.count ≡ negsuc n
      → has s.current (waiters m) ≡ false
      → pick (idle s) (queue s) ≡ some (c, q)
      → (m' : Semaphore L) × (s' : Sched L) × (wait_pass m s ≡ ok (asleep (m', s')))
        × Refused m s c q m' s'
  unfolding wait_pass
  wait_pass_neg {m} {s} n c q v e out p =
      let (s', ran, slept) = sleep_lem m.blocked_list c q v p in
      (
        record m { blocked_list = (sleep m.blocked_list s).0 },
        s',
        ground (arith, ran),
        record {
          count = refl;
          joined = L.to_list-push_back m.blocked_list s.current out;
          sched = slept;
        },
      )

  -- `semaphore_signal` adds one; the process that has waited longest is READY at the end of the
  -- ready queue, and the others wait on in their order.
  signal_wakes :
      (m : Semaphore L) {s : Sched L} (p : ℕ) (ps : List ℕ)
      → IsValid s
      → waiters m ≡ p ∷ ps
      → has p (queue s) ≡ false
      → p ≢ s.current
      → let (m', s') = signal m s in (m'.count ≡ add_one m.count) × (waiters m' ≡ ps) × Woken s p s'
  unfolding signal
  signal_wakes m {s} p ps v e out ne =
      let popped = L.pop_front-cons m.blocked_list p ps e in
      (refl, popped.1, rw popped.0 (wake_lem p v out ne))

  -- The bug: with two or more waiting, a signal lets nobody through. The process that it wakes finds
  -- the count still negative and goes back to sleep behind those that it was ahead of.
  pub signal_lost :
      (m : Semaphore L) (s : Sched L) {t : Sched L} (n c : ℕ) (p : ℕ) (ps q : List ℕ)
      → m.count ≡ negsuc (suc n)
      → waiters m ≡ p ∷ ps
      → has p ps ≡ false
      → IsValid t
      → t.current ≡ p
      → pick (idle t) (queue t) ≡ some (c, q)
      → let m' = (signal m s).0 in
        (m'' : Semaphore L) × (t' : Sched L) × (wait_pass m' t ≡ ok (asleep (m'', t')))
        × (waiters m'' ≡ ps ++ p ∷ [])
        × (t'.current ≡ c)
  unfolding signal
  signal_lost m s {t} n c p ps q e w out v cur k =
      let popped = L.pop_front-cons m.blocked_list p ps w in
      let (m'', t', ran, refused) =
        wait_pass_neg {m = (signal m s).0} n c q v (ground arith) (rw (popped.1, cur) out) k in
      (m'', t', ran, ground (arith, refused.joined, popped.1, cur), refused.sched.current)
