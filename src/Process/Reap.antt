-- ===== src/Process/Reap.antt =====
-- What `sys_exit` leaves for `sys_waitpid` of the parent.
use mathlib.Core.Path.{fun_ext}
use zosys.Common.{
  ℕ, ◌%◌, ◌≡◌, ◌≢◌, refl, sym, ap, ◌∙◌, inl, inr, Bool, true, false, some, List, [], ◌∷◌, arith,
  Bool-cases, ◌==◌,
}
use zosys.Common.ProcList.{ProcList, has, without}
use zosys.Mem.Pages.{PageMap}
use zosys.Process.{Process, Sched, ok, zombie, running, switch}
use zosys.Process.Queue.{ne_of_has}
use zosys.Process.Life.{
  first, found, resume, reap, destroy, adopt, reparent, waits_for, dying, orphaned, hand_over, exit,
}

pub first-some :
    (test : ℕ → Bool) (ps : List ℕ) (p : ℕ)
    → first test ps ≡ some p
    → (test p ≡ true) × (has p ps ≡ true)
unfolding first
first-some test [] p e = ground arith
first-some test (x ∷ ps) p e = elim (Bool-cases (test x)) [
  | inl hit ↦ let same : x ≡ p = ground arith in rw (← same) (hit, ground arith)
  | inr miss ↦ ground (arith, first-some test ps p)
]

adopt-keeps :
    (pid : ℕ) (proc : ℕ → Process) (p q : ℕ)
    → adopt pid proc p q ≡ record (proc q) { ppid = (adopt pid proc p q).ppid }
adopt-keeps pid proc p q = elim (Bool-cases (p == q)) [
  | inl e ↦ let same : p ≡ q = ground arith in rw (← same) (ground arith)
  | inr e ↦ ground arith
]

-- Only the parent of a process changes when children are given away.
reparent-keeps :
    (pid : ℕ) (ps : List ℕ) (proc : ℕ → Process) (q : ℕ)
    → reparent pid ps proc q ≡ record (proc q) { ppid = (reparent pid ps proc q).ppid }
unfolding reparent
reparent-keeps pid [] proc q = refl
reparent-keeps pid (p ∷ ps) proc q =
    ground (arith, reparent-keeps pid ps (adopt pid proc p) q, adopt-keeps pid proc p q)

adopt-other :
    (pid : ℕ) (proc : ℕ → Process) (p q : ℕ)
    → (proc q).ppid ≢ pid
    → (adopt pid proc p q).ppid ≡ (proc q).ppid
adopt-other pid proc p q ne = elim (Bool-cases (p == q)) [
  | inl e ↦ let same : p ≡ q = ground arith in ground (arith, ap proc same)
  | inr e ↦ ground arith
]

adopt_self : (pid : ℕ) (proc : ℕ → Process) (p : ℕ) → pid ≢ 1 → (adopt pid proc p p).ppid ≢ pid
adopt_self pid proc p ne = ground arith

reparent-other :
    (pid : ℕ) (ps : List ℕ) (proc : ℕ → Process) (q : ℕ)
    → (proc q).ppid ≢ pid
    → (reparent pid ps proc q).ppid ≡ (proc q).ppid
unfolding reparent
reparent-other pid [] proc q ne = refl
reparent-other pid (p ∷ ps) proc q ne =
    ground (arith, reparent-other pid ps (adopt pid proc p) q, adopt-other pid proc p q ne)

-- Nobody on the list is a child of that process then.
reparent-none :
    (pid : ℕ) (ps : List ℕ) (proc : ℕ → Process) (q : ℕ)
    → pid ≢ 1
    → has q ps ≡ true
    → (reparent pid ps proc q).ppid ≢ pid
unfolding reparent
reparent-none pid [] proc q ne h = ground arith
reparent-none pid (p ∷ ps) proc q ne h = elim (Bool-cases (q == p)) [
  | inl e ↦
      let same : q ≡ p = ground arith in
      rw same (λ bad.
        adopt_self pid proc p ne
          (sym (reparent-other pid ps (adopt pid proc p) p (adopt_self pid proc p ne)) ∙ bad))
  | inr e ↦ reparent-none pid ps (adopt pid proc p) q ne (ground arith)
]

module _ {L : ProcList} (status : ℕ) (s : Sched L) where
  abbrev pub after : Sched L
  after = orphaned (dying status s)

  after-keeps :
      (q : ℕ) → after.proc q ≡ record ((dying status s).proc q) { ppid = (after.proc q).ppid }
  after-keeps q =
      reparent-keeps ((dying status s).proc s.current).pid (L.to_list s.process_list)
        (dying status s).proc q

  dying-keeps : (q : ℕ) → ((dying status s).proc q).pid ≡ (s.proc q).pid
  dying-keeps q = ground arith

  dying-wait_pid : (q : ℕ) → ((dying status s).proc q).wait_pid ≡ (s.proc q).wait_pid
  dying-wait_pid q = ground arith

  pub after-pid : (q : ℕ) → (after.proc q).pid ≡ (s.proc q).pid
  after-pid q = ap (λ x. x.pid) (after-keeps q) ∙ dying-keeps q

  after-wait_pid : (q : ℕ) → (after.proc q).wait_pid ≡ (s.proc q).wait_pid
  after-wait_pid q = ap (λ x. x.wait_pid) (after-keeps q) ∙ dying-wait_pid q

  pub after-status : (after.proc s.current).status ≡ status % 256
  after-status = ap (λ x. x.status) (after-keeps s.current) ∙ ground arith

  pub after-state : (after.proc s.current).state ≡ zombie
  after-state = ap (λ x. x.state) (after-keeps s.current) ∙ ground arith

  after-ppid :
      (s.proc s.current).ppid ≢ (s.proc s.current).pid
      → (after.proc s.current).ppid ≡ (s.proc s.current).ppid
  after-ppid ne =
      reparent-other ((dying status s).proc s.current).pid (L.to_list s.process_list)
        (dying status s).proc s.current (ground arith)
      ∙ ground arith

  -- Who is waiting is decided by what `sys_exit` does not change.
  pub waits_for-after :
      (q : ℕ) → (s.proc s.current).ppid ≢ (s.proc s.current).pid → waits_for after q ≡ waits_for s q
  waits_for-after q ne =
      ground (arith, after-pid q, after-pid s.current, after-wait_pid q, after-ppid ne)

  -- What the parent that takes over finds.
  pub record HandedOver (p : ℕ) (s' : Sched L) : Type 0 where
    pub current : s'.current ≡ p
    pub runs : (s'.proc p).state ≡ running
    pub told : resume s' ≡ found s.current
    pub result : (m : PageMap) → (reap s.current s' m).0 ≡ ((s.proc s.current).pid, status % 256)
    pub waiters : L.to_list s'.wait_list ≡ without p (L.to_list s.wait_list)
    pub no_children :
        (q : ℕ)
        → (s.proc s.current).pid ≢ 1
        → has q (L.to_list s.process_list) ≡ true
        → (s'.proc q).ppid ≢ (s.proc s.current).pid

  -- A process other than its own parent, and not itself asleep in `sys_waitpid`, whose parent waits
  -- for it: in `sys_exit` the parent runs at once, is off the list of those that wait, and finds the
  -- process, so that `sys_waitpid` gives its number and the low 8 bits of the status. Unless it is
  -- process 1, no process of the list has it as parent any more.
  pub exit_wakes :
      (p : ℕ)
      → (s.proc s.current).ppid ≢ (s.proc s.current).pid
      → has s.current (L.to_list s.wait_list) ≡ false
      → first (waits_for s) (L.to_list s.wait_list) ≡ some p
      → (s' : Sched L) × (exit status s ≡ ok s') × HandedOver p s'
  unfolding exit resume reap switch destroy
  exit_wakes p own out e =
      let inside = (first-some (waits_for s) (L.to_list s.wait_list) p e).1 in
      let ne = ne_of_has p s.current (L.to_list s.wait_list) inside out in
      let who : first (waits_for after) (L.to_list s.wait_list) ≡ some p =
        ap (λ t. first t (L.to_list s.wait_list)) (fun_ext (λ q. waits_for-after q own)) ∙ e in
      (
        hand_over after p,
        ground (arith, who),
        record {
          current = refl;
          runs = ground arith;
          told = ground arith;
          result = λ m. ground (arith, after-pid s.current, after-status);
          waiters = L.to_list-remove s.wait_list p inside;
          no_children = λ q ne1 h. ground (
            arith,
            reparent-none ((dying status s).proc s.current).pid (L.to_list s.process_list)
                (dying status s).proc q,
          );
        },
      )
