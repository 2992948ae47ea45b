-- ===== src/Process/Waitpid.antt =====
-- Every outcome of `sys_waitpid`, and of `sys_exit` where nobody waits.
use Prim.Native.Nat.{bit_and}
use mathlib.Core.Path.{fun_ext}
use zosys.Common.{
  ℕ, ◌≡◌, ◌≢◌, ap, ◌∙◌, ◌⊎◌, inl, inr, Bool, true, false, none, some, List, [], ◌∷◌, ◌++◌, arith,
  Bool-cases, Option-cases, ◌==◌,
}
use zosys.Common.Int.{ℤ}
use zosys.Common.ProcList.{ProcList, has, without}
use zosys.Process.{Sched, Run, ok, zombie, running, blocked}
use zosys.Process.Queue.{Distinct, pick, pick-has}
use zosys.Process.Valid.{queue, idle}
use zosys.Process.Schedule.{Scheduled, schedule_lem}
use zosys.Process.Life.{
  first, is_child, is_zombie, Wait, found, none_yet, no_child, waiting, wait_for, waitpid,
  wait_child, waits_for, dying, orphaned, exit,
}
use zosys.Process.Reap.{first-some, waits_for-after, after-state, after-pid}

first-none :
    (test : ℕ → Bool) (ps : List ℕ) (p : ℕ)
    → first test ps ≡ none
    → has p ps ≡ true
    → test p ≡ false
unfolding first
first-none test [] p e h = ground arith
first-none test (x ∷ ps) p e h = elim (Bool-cases (p == x)) [
  | inl same ↦ let at : p ≡ x = ground arith in rw at (ground arith)
  | inr other ↦ first-none test ps p (ground arith) (ground arith)
]

module _ {L : ProcList} where
  -- No process of the list is a child that is waited for.
  abbrev pub NoChild : Sched L → ℤ → List ℕ → Type 0
  NoChild s pid ps = (p : ℕ) → has p ps ≡ true → is_child s pid p ≡ false

  -- A child that has ended is taken off the list of zombies.
  pub record Taken (s : Sched L) (pid : ℤ) (r : Run (Wait × Sched L)) (z : ℕ) (s' : Sched L)
      : Type 0 where
    pub ran : r ≡ ok (found z, s')
    pub child : is_child s pid z ≡ true
    pub ended : has z (L.to_list s.zombie_list) ≡ true
    pub zombies : L.to_list s'.zombie_list ≡ without z (L.to_list s.zombie_list)

  abbrev pub Living : Sched L → ℤ → Type 0
  Living s pid = (p : ℕ) × (is_child s pid p ≡ true) × (has p (L.to_list s.process_list) ≡ true)

  -- The caller is blocked and the last of those that wait, for `pid` with these options and with no
  -- child found yet, and process `c` runs.
  pub record Asleep (s : Sched L) (pid : ℤ) (options c : ℕ) (q : List ℕ) (s' : Sched L)
      : Type 0 where
    pub current : s'.current ≡ c
    pub queue_is : queue s' ≡ q
    pub runs : (s'.proc c).state ≡ running
    pub waits : L.to_list s'.wait_list ≡ L.to_list s.wait_list ++ s.current ∷ []
    pub is_blocked : (s'.proc s.current).state ≡ blocked
    pub wait_pid : (s'.proc s.current).wait_pid ≡ pid
    pub wait_options : (s'.proc s.current).wait_options ≡ options
    pub wait_process : (s'.proc s.current).wait_process ≡ none
    pub others : (p : ℕ) → p ≢ c → p ≢ s.current → (s'.proc p).state ≡ (s.proc p).state
    pub pids : (p : ℕ) → (s'.proc p).pid ≡ (s.proc p).pid
    pub zombies : s'.zombie_list ≡ s.zombie_list

  -- The four outcomes.
  abbrev pub Waited : Sched L → ℤ → ℕ → ℕ → List ℕ → Run (Wait × Sched L) → Type 0
  Waited s pid options c q r =
      ((z : ℕ) × (s' : Sched L) × Taken s pid r z s')
      ⊎ (NoChild s pid (L.to_list s.zombie_list)
          × (((r ≡ ok (no_child, s)) × NoChild s pid (L.to_list s.process_list))
              ⊎ (Living s pid
                  × (((r ≡ ok (none_yet, s)) × (bit_and options 1 ≡ 1))
                      ⊎ ((s' : Sched L) × (r ≡ ok (waiting, s')) × Asleep s pid options c q s')))))

  idle-wait_for :
      (s : Sched L) (pid : ℤ) (options p : ℕ) → idle (wait_for s pid options) p ≡ idle s p
  idle-wait_for s pid options p = ground arith

  Scheduled-Asleep :
      (s : Sched L) (pid : ℤ) (options c : ℕ) (q : List ℕ) (s' : Sched L)
      → has s.current (L.to_list s.wait_list) ≡ false
      → s.current ≢ c
      → Scheduled (wait_for s pid options) c q s'
      → Asleep s pid options c q s'
  Scheduled-Asleep s pid options c q s' new ne sch = record {
    current = sch.current;
    queue_is = sch.queue_is;
    runs = sch.runs;
    waits = ap (λ l. L.to_list l) sch.waiting ∙ L.to_list-push_back s.wait_list s.current new;
    is_blocked = sch.others s.current ne ∙ ground arith;
    wait_pid = sch.wait_pids s.current ∙ ground arith;
    wait_options = sch.wait_options s.current ∙ ground arith;
    wait_process = sch.wait_processes s.current ∙ ground arith;
    others = λ p nc ns. sch.others p nc ∙ ground arith;
    pids = λ p. sch.pids p ∙ ground arith;
    zombies = sch.zombies;
  }

  -- With options that are valid, zombies that are all ZOMBIE, and another process that can run, the
  -- caller being neither ready nor one of those that wait,
  -- `sys_waitpid` does one of four things: it takes a child that has ended off the list of zombies;
  -- or there is none, and it fails, if no process is such a child; or it returns at once, with
  -- WNOHANG; or the caller is blocked, joins those that wait as the last one, for that `pid`, and the
  -- scheduler's choice runs.
  pub waitpid_lem :
      (s : Sched L) (pid : ℤ) (options c : ℕ) (q : List ℕ)
      → bit_and options 0xfffe ≡ 0
      → ((p : ℕ) → has p (L.to_list s.zombie_list) ≡ true → is_zombie (s.proc p).state ≡ true)
      → has s.current (L.to_list s.wait_list) ≡ false
      → has s.current (queue s) ≡ false
      → Distinct (queue s)
      → pick (idle s) (queue s) ≡ some (c, q)
      → Waited s pid options c q (waitpid pid options s)
  unfolding waitpid wait_child
  waitpid_lem s pid options c q valid ended new out d e =
      elim (Option-cases (first (is_child s pid) (L.to_list s.zombie_list))) [
        | inr (z, hit) ↦
            let (child, inside) = first-some (is_child s pid) (L.to_list s.zombie_list) z hit in
            inl (
              z,
              record s { zombie_list = L.remove s.zombie_list z },
              record {
                ran = ground (arith, hit, ended z inside, valid);
                child = child;
                ended = inside;
                zombies = L.to_list-remove s.zombie_list z inside;
              },
            )
        | inl miss ↦ inr (
          λ p h. first-none (is_child s pid) (L.to_list s.zombie_list) p miss h,
          elim (Option-cases (first (is_child s pid) (L.to_list s.process_list))) [
            | inl nobody ↦ inl (
              ground (arith, miss, nobody, valid),
              λ p h. first-none (is_child s pid) (L.to_list s.process_list) p nobody h,
            )
            | inr (p, alive) ↦ inr (
              let (child, inside) =
                    first-some (is_child s pid) (L.to_list s.process_list) p alive in
                  (p, child, inside),
              elim (Bool-cases (bit_and options 1 == 1)) [
                | inl nohang ↦ inl (ground (arith, miss, alive, valid, nohang), ground arith)
                | inr hang ↦
                    let (s', ran, sch) =
                      schedule_lem (wait_for s pid options) c q d
                        (rw (fun_ext (idle-wait_for s pid options)) e) in
                    let ne : s.current ≢ c = λ h. ground (
                      arith,
                      pick-has (idle s) (queue s) c q c e,
                      out,
                      ap (λ x. has x (queue s)) h,
                    ) in
                    inr (
                      s',
                      ground (arith, miss, alive, valid, hang, ran),
                      Scheduled-Asleep s pid options c q s' new ne sch,
                    )
              ],
            )
          ],
        )
      ]

  -- What a process that nobody waits for leaves behind.
  pub record Left (status : ℕ) (s : Sched L) (c : ℕ) (q : List ℕ) (s' : Sched L) : Type 0 where
    pub current : s'.current ≡ c
    pub queue_is : queue s' ≡ q
    pub zombies : L.to_list s'.zombie_list ≡ L.to_list s.zombie_list ++ s.current ∷ []
    pub state : (s'.proc s.current).state ≡ zombie
    pub pid : (s'.proc s.current).pid ≡ (s.proc s.current).pid

  -- A process other than its own parent and than those ready, that nobody waits for, becomes a
  -- ZOMBIE at the end of that list in `sys_exit`, and the scheduler's choice runs.
  exit_unwaited :
      (status : ℕ) (s : Sched L) (c : ℕ) (q : List ℕ)
      → (s.proc s.current).ppid ≢ (s.proc s.current).pid
      → first (waits_for s) (L.to_list s.wait_list) ≡ none
      → has s.current (L.to_list s.zombie_list) ≡ false
      → has s.current (queue s) ≡ false
      → Distinct (queue s)
      → pick (idle s) (queue s) ≡ some (c, q)
      → (s' : Sched L) × (exit status s ≡ ok s') × Left status s c q s'
  unfolding exit
  exit_unwaited status s c q own nobody new out d e =
      let s1 = orphaned (dying status s) in
      let who : first (waits_for s1) (L.to_list s.wait_list) ≡ none =
        ap (λ t. first t (L.to_list s.wait_list)) (fun_ext (λ p. waits_for-after status s p own))
        ∙ nobody in
      let s2 = record s1 { zombie_list = L.push_back s1.zombie_list s1.current } in
      let same : (p : ℕ) → idle s2 p ≡ idle s p = λ p. ap (λ n. n == 0) (after-pid status s p) in
      let (s', ran, sch) = schedule_lem s2 c q d (rw (fun_ext same) e) in
      let ne : s.current ≢ c = λ h.
        ground (arith, pick-has (idle s) (queue s) c q c e, out, ap (λ x. has x (queue s)) h) in
      (
        s',
        ground (arith, who, ran),
        record {
          current = sch.current;
          queue_is = sch.queue_is;
          zombies =
              ap (λ l. L.to_list l) sch.zombies ∙ L.to_list-push_back s.zombie_list s.current new;
          state = sch.others s.current ne ∙ after-state status s;
          pid = sch.pids s.current ∙ after-pid status s s.current;
        },
      )
