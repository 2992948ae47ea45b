-- ===== src/Sync/Mutex.antt =====
-- src/mutex.c and include/mutex.h.
use zosys.Common.{
  ℕ, zero, suc, ◌+◌, ◌≤◌, ◌≡◌, ◌≢◌, refl, Bool, true, false, some, List, [], ◌∷◌, ◌++◌, arith,
  if◌then◌else◌,
}
use zosys.Common.ProcList.{ProcList, has}
use zosys.Process.{Sched, Run, ok}
use zosys.Process.Queue.{pick}
use zosys.Process.Valid.{queue, idle, IsValid}
use zosys.Sync.Sleep.{Slept, sleep_lem, Woken, wake_lem}
use zosys.Sync.{Pass, returned, asleep, sleep, wake, asleep_in}

-- `mutex_t`
pub record Mutex (L : ProcList) : Type 0 where
  pub blocked_list : L.T
  pub locked : Bool

module _ {L : ProcList} where
  unfoldable pub init : Mutex L
  init = record { blocked_list = L.init; locked = false }

  -- A pass of the loop of `mutex_lock`, and what follows the loop.
  unfoldable pub lock : Mutex L → Sched L → Run (Pass (Mutex L × Sched L))
  lock m s =
      if m.locked
      then asleep_in (record m { blocked_list = (sleep m.blocked_list s).0 })
          (sleep m.blocked_list s).1
      else ok (returned (record m { locked = true }, s))

  unfoldable pub trylock : Mutex L → Bool × Mutex L
  trylock m = if m.locked then (false, m) else (true, record m { locked = true })

  unfoldable pub unlock : Mutex L → Sched L → Mutex L × Sched L
  unlock m s = (
    record { locked = false; blocked_list = (L.pop_front m.blocked_list).1 },
    wake (L.pop_front m.blocked_list).0 s,
  )

  abbrev pub waiters : Mutex L → List ℕ
  waiters m = L.to_list m.blocked_list

  -- `mutex_lock` that goes to sleep: the caller is at the end of the waiters, the mutex stays taken,
  -- and the scheduler has moved on to `c`.
  pub record Refused (m : Mutex L) (s : Sched L) (c : ℕ) (q : List ℕ) (m' : Mutex L) (s' : Sched L)
      : Type 0 where
    pub locked : m'.locked ≡ true
    pub joined : waiters m' ≡ waiters m ++ s.current ∷ []
    pub sched : Slept s c q s'

  -- On a taken mutex the caller of `mutex_lock`, where another process can run, joins the end of
  -- the waiters as BLOCKED, the one that the scheduler chooses runs, and the mutex stays taken.
  lock_taken :
      {m : Mutex L} {s : Sched L} (c : ℕ) (q : List ℕ)
      → IsValid s
      → m.locked ≡ true
      → has s.current (waiters m) ≡ false
      → pick (idle s) (queue s) ≡ some (c, q)
      → (m' : Mutex L) × (s' : Sched L) × (lock m s ≡ ok (asleep (m', s'))) × Refused m s c q m' s'
  unfolding lock
  lock_taken {m} {s} c q v e out p =
      let (s', ran, slept) = sleep_lem m.blocked_list c q v p in
      (
        record m { blocked_list = (sleep m.blocked_list s).0 },
        s',
        ground (arith, ran),
        record {
          locked = e;
          joined = L.to_list-push_back m.blocked_list s.current out;
          sched = slept;
        },
      )

  -- `mutex_unlock` frees the mutex. If processes wait, the one that has waited longest is READY at
  -- the end of the ready queue, and the others wait on in their order; if none does, the scheduler
  -- is untouched.
  unlock_wakes :
      (m : Mutex L) {s : Sched L} (p : ℕ) (ps : List ℕ)
      → IsValid s
      → waiters m ≡ p ∷ ps
      → has p (queue s) ≡ false
      → p ≢ s.current
      → let (m', s') = unlock m s in (m'.locked ≡ false) × (waiters m' ≡ ps) × Woken s p s'
  unfolding unlock
  unlock_wakes m {s} p ps v e out ne =
      let popped = L.pop_front-cons m.blocked_list p ps e in
      (refl, popped.1, rw popped.0 (wake_lem p v out ne))

  -- How many of `n` calls of `mutex_trylock` in a row succeed.
  pub grants : ℕ → Mutex L → ℕ
  grants zero m = 0
  grants (suc n) m = (if (trylock m).0 then 1 else 0) + grants n (trylock m).1

  -- Mutual exclusion: without an unlock in between, one of any number of tries at most succeeds, and
  -- none if the mutex is taken.
  grants_le : (n : ℕ) (m : Mutex L) → grants n m + (if m.locked then 1 else 0) ≤ 1
  unfolding grants trylock
  grants_le zero m = ground arith
  grants_le (suc n) m = ground (arith, grants_le n (trylock m).1)
