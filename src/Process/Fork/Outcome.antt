-- ===== src/Process/Fork/Outcome.antt =====
-- The ends of `process_new` and `sys_fork` of src/process.c.
use zosys.Common.{
  sym, ℕ, ◌+◌, ◌*◌, ◌%◌, ◌<◌, ◌≡◌, ◌≢◌, refl, ap, ◌∙◌, ◌⊎◌, inl, inr, Option, none, some, List, [],
  ◌++◌, arith, Option-cases, Bool-cases, ◌==◌, length, replicate, drop,
}
use zosys.Common.Int.{ℤ, pos, minus_one}
use zosys.Common.ProcList.{ProcList}
use zosys.Common.Run.{ok}
use zosys.File.{Kernel, Env, put_at, max_open_files}
use zosys.File.Count.{file_ref, size_max}
use zosys.Mem.Dma.{Dma}
use zosys.Mem.Pages.{alloc_page_block}
use zosys.Mem.Pages.Blocks.{Got}
use zosys.Process.{Process, empty, update}
use zosys.Process.Clone.{clone_from}
use zosys.Process.Create.{World, FileTable, process_new, clone_files}
use zosys.Process.Fork.{
  Frame, ref_cwd, sys_fork, fork_into, cloned_or_not, fork_return, copied, destroyed, make_ready,
  parented, with_cwd,
}

-- Taking a reference to the working directory, if there is one.
abbrev pub TakesCwd : {D : Type 0} → (k k1 : Kernel D) → Type 0
TakesCwd k k1 =
    ((k.cwd ≡ none) × (k1 ≡ k)) ⊎ ((q : ℕ) × (k.cwd ≡ some q) × (file_ref (some q) k ≡ ok (tt, k1)))

-- That changes the count of a file alone.
pub cwd_same : {D : Type 0} (k k1 : Kernel D) → TakesCwd k k1 → k1.cwd ≡ k.cwd
unfolding file_ref
cwd_same {D} k k1 (inl (no_cwd, same)) = ap (λ (n : Kernel D). n.cwd) same
cwd_same {D} k k1 (inr (q, cwd, taken)) = elim (Option-cases (k.files q)) [
  | inl gone ↦ absurd (ground (arith, taken, gone))
  | inr (g, there) ↦ elim (Bool-cases (g.ref_count == size_max)) [
    | inl full ↦ absurd (ground (arith, taken, there, full))
    | inr room ↦ ground (arith, taken, there, room)
  ]
]

module _ {L : ProcList} {D : Type 0} where
  -- The world with a new process at `p`, whose memory is block `b`.
  abbrev pub created : World L D → (p b : ℕ) → Process → FileTable → World L D
  created w p b fields table = record w {
    sched = record w.sched {
      proc =
          update w.sched.proc p
            (record fields { cbr = b * 16; ppid = 0; state = empty; pid = w.next_pid });
      process_list = L.push_back w.sched.process_list p;
    };
    tables = put_at w.tables p (record table { open_files = replicate max_open_files none });
    next_pid = w.next_pid + 1;
    pages = (alloc_page_block w.pages).1;
  }

  module _ (malloc_process : World L D → Option (ℕ × Process × FileTable)) (w : World L D) (p : ℕ)
      (fields : Process) (table : FileTable) (given : malloc_process w ≡ some (p, fields, table))
      (first : 0 < w.next_pid) where
    pub process_new_block :
        (b : ℕ)
        → w.next_pid < 0x7fff
        → Got w.pages (alloc_page_block w.pages) b
        → process_new malloc_process w ≡ ok (some p, created w p b fields table)
    unfolding process_new
    process_new_block b last got =
        let e : (b * 16) % 256 ≡ b * 16 = omega (arith, got.in_range) in
        rw (given, process_new) (ground (arith, got.result, e))

    pub process_new_no_block :
        (alloc_page_block w.pages).0 ≡ minus_one
        → (alloc_page_block w.pages).1 ≡ w.pages
        → process_new malloc_process w ≡ ok (none, w)
    unfolding process_new
    process_new_no_block refused same =
        rw (given, process_new)
          (ground (arith, refused) ∙ ap (λ m. ok (none, record w { pages = m })) same)

  module _ (dma : Dma) (env : Env D) (f : Frame)
      (malloc_process : World L D → Option (ℕ × Process × FileTable)) where
    abbrev with_files : World L D → (p : ℕ) → List (Option ℕ) → Kernel D → World L D
    with_files w p fds k = record w {
      kernel = k;
      tables =
          put_at w.tables p
            (record (w.tables p) { open_files = fds ++ drop (length fds) (w.tables p).open_files });
    }

    -- The world of the child before its files are cloned, the working directory's file being `k1`'s.
    abbrev prepared : World L D → (p : ℕ) → Kernel D → World L D
    prepared w p k1 =
        with_cwd p (record (parented p (w.sched.proc w.sched.current).pid w) { kernel = k1 })

    ref_cwd_lem :
        (w : World L D) (k1 : Kernel D)
        → TakesCwd w.kernel k1
        → ref_cwd w ≡ ok (tt, record w { kernel = k1 })
    unfolding ref_cwd
    ref_cwd_lem w k1 (inl (no_cwd, same)) =
        rw (no_cwd, ref_cwd) (ap (λ k. ok (tt, record w { kernel = k })) (sym same))
    ref_cwd_lem w k1 (inr (q, cwd, taken)) = rw (cwd, ref_cwd) (rw taken refl)

    fork_into_step :
        (w : World L D) (p : ℕ) (k1 k2 : Kernel D) (r : ℤ) (fds : List (Option ℕ))
        → TakesCwd w.kernel k1
        → clone_from env [] k1.fds k1 ≡ ok ((r, fds), k2)
        → fork_into dma env f malloc_process p w
          ≡ cloned_or_not dma env f malloc_process
              (w.sched.proc w.sched.current).pid
              (w.sched.proc p).pid
              p
              r
              (with_files (prepared w p k1) p fds k2)
    unfolding fork_into clone_files
    fork_into_step w p k1 k2 r fds cwd e =
        rw (ref_cwd_lem (parented p (w.sched.proc w.sched.current).pid w) k1 cwd) (rw e refl)

    pub sys_fork_step :
        (w w1 : World L D) (p : ℕ)
        → process_new malloc_process w ≡ ok (some p, w1)
        → sys_fork dma env f malloc_process w ≡ fork_into dma env f malloc_process p w1
    unfolding sys_fork
    sys_fork_step w w1 p e = rw e refl

    pub sys_fork-none :
        (w w1 : World L D)
        → process_new malloc_process w ≡ ok (none, w1)
        → sys_fork dma env f malloc_process w ≡ ok (minus_one, w1)
    unfolding sys_fork
    sys_fork-none w w1 e = rw e refl

    -- The world once the loop over the open files is done.
    abbrev pub tried :
        World L D
        → (p b : ℕ) → Process
        → FileTable
        → (k1 k2 : Kernel D) → List (Option ℕ)
        → World L D
    tried w p b fields table k1 k2 fds =
        with_files (prepared (created w p b fields table) p k1) p fds k2

    abbrev pub forked :
        World L D
        → (p b : ℕ) → Process
        → FileTable
        → (k1 k2 : Kernel D) → List (Option ℕ)
        → World L D
    forked w p b fields table k1 k2 fds =
        make_ready p (copied dma f p (tried w p b fields table k1 k2 fds))

    fork_return_lem :
        (parent_pid child_pid : ℕ) (u : World L D) (p : ℕ)
        → (u.sched.proc u.sched.current).pid ≡ parent_pid
        → fork_return parent_pid child_pid p u ≡ ok (pos child_pid, make_ready p u)
    unfolding fork_return
    fork_return_lem parent_pid child_pid u p e = ground arith

    copied_pid :
        (u : World L D) (p : ℕ)
        → p ≢ u.sched.current
        → ((copied dma f p u).sched.proc (copied dma f p u).sched.current).pid
          ≡ (u.sched.proc u.sched.current).pid
    unfolding copied
    copied_pid u p ne = ground arith

    module _ (w : World L D) (p b : ℕ) (fields : Process) (table : FileTable) (k1 k2 : Kernel D)
        (fds : List (Option ℕ)) (new : p ≢ w.sched.current)
        (is_new : process_new malloc_process w ≡ ok (some p, created w p b fields table))
        (cwd : TakesCwd w.kernel k1) where
      same_parent :
          ((tried w p b fields table k1 k2 fds).sched.proc w.sched.current).pid
          ≡ ((created w p b fields table).sched.proc w.sched.current).pid
      same_parent = ground arith

      child_pid : ((created w p b fields table).sched.proc p).pid ≡ w.next_pid
      child_pid = ground arith

      pub sys_fork_cloned :
          clone_from env [] k1.fds k1 ≡ ok ((pos 0, fds), k2)
          → sys_fork dma env f malloc_process w
            ≡ ok (pos w.next_pid, forked w p b fields table k1 k2 fds)
      unfolding cloned_or_not
      sys_fork_cloned e =
          sys_fork_step w (created w p b fields table) p is_new
          ∙ fork_into_step (created w p b fields table) p k1 k2 (pos 0) fds cwd e
          ∙ fork_return_lem _ _ (copied dma f p (tried w p b fields table k1 k2 fds)) p
              (copied_pid (tried w p b fields table k1 k2 fds) p new ∙ same_parent)
          ∙ ap (λ n. ok (pos n, forked w p b fields table k1 k2 fds)) child_pid

      pub sys_fork_not_cloned :
          clone_from env [] k1.fds k1 ≡ ok ((minus_one, fds), k2)
          → sys_fork dma env f malloc_process w
            ≡ ok (minus_one, destroyed p (tried w p b fields table k1 k2 fds))
      unfolding cloned_or_not
      sys_fork_not_cloned e =
          sys_fork_step w (created w p b fields table) p is_new
          ∙ fork_into_step (created w p b fields table) p k1 k2 minus_one fds cwd e
