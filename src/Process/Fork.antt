-- ===== src/Process/Fork.antt =====
-- `sys_fork`, `sys_fork_helper` and `process_destroy` of src/process.c, over the whole state of the
-- kernel. The address that `sys_fork_helper` returns to, IX, IY and the address of
-- `sys_fork_child_reentry` are arguments; the stack lies in the memory that CBR selects.
pub mod Stack
pub mod Outcome
pub mod Forked
pub mod Result
mod Examples
use zosys.Common.{
  ℕ, ◌+◌, ◌-◌, ◌*◌, ◌/◌, ◌%◌, ◌^◌, Option, none, some, Bool, false, if◌then◌else◌, ◌==◌,
}
use zosys.Common.Int.{ℤ, pos, negsuc, minus_one}
use zosys.Common.ProcList.{ProcList}
use zosys.Common.Run.{ok}
use zosys.File.{Env, put_at}
use zosys.File.Count.{file_ref}
use zosys.Mem.Copy.{pa_from_pfn}
use zosys.Mem.Dma.{Memory, write, Dma, dma_memcpy}
use zosys.Process.{Process, ready, update}
use zosys.Process.Life.{destroy}
use zosys.Process.Create.{
  World, FileTable, W, pure, ◌>>=◌, ◌>>◌, modify, in_kernel, set_process, clone_files, process_new,
}

-- What `sys_fork_helper` pushes for the child.
pub record Frame : Type 0 where
  pub back : ℕ
  pub reentry : ℕ
  pub ix : ℕ
  pub iy : ℕ

-- A word at a logical address of the memory of `cbr`, the lower byte first.
abbrev pub place : ℕ → ℕ → ℕ
place cbr a = (pa_from_pfn cbr + a) % 2 ^ 20

abbrev pub push : (cbr sp x : ℕ) → Memory → Memory
push cbr sp x m = write (write m (place cbr sp) (x % 2 ^ 8)) (place cbr (sp + 1)) (x / 2 ^ 8)

-- `below sp n` is `sp - n` in 16 bits.
abbrev pub below : ℕ → ℕ → ℕ
below sp n = (sp + 2 ^ 16 - n) % 2 ^ 16

-- The pushes, with SP as it is when the helper is called: first its return address is popped.
unfoldable pub push_frame : (cbr sp : ℕ) → Frame → Memory → Memory
push_frame cbr sp f m =
    push cbr (below sp 6) f.iy
      (push cbr (below sp 4) f.ix (push cbr (below sp 2) f.reentry (push cbr sp f.back m)))

abbrev is_zero : ℤ → Bool
is_zero (pos n) = n == 0
is_zero (negsuc n) = false

module _ {L : ProcList} {D : Type 0} where
  unfoldable pub destroyed : ℕ → World L D → World L D
  unfolding destroy
  destroyed p w = record w {
    sched = (destroy p w.sched w.pages).0;
    pages = (destroy p w.sched w.pages).1;
  }

  -- The copy of 64K, and `sys_fork_helper`, whose result is the stack pointer of the child.
  unfoldable pub copied : Dma → Frame → ℕ → World L D → World L D
  unfolding push_frame
  copied dma f child w =
      let v = w.sched.proc child in
      let (mem, regs) =
        dma_memcpy dma (pa_from_pfn v.cbr) (pa_from_pfn w.sched.reg_cbr) 0 w.regs w.mem in
      let w' = set_process w child (record v { sp = below w.sched.reg_sp 6 }) in
      record w' { mem = push_frame v.cbr w.sched.reg_sp f mem; regs = regs }

  abbrev pub make_ready : ℕ → World L D → World L D
  make_ready child w = record w {
    sched = record w.sched {
      proc = update w.sched.proc child (record (w.sched.proc child) { state = ready });
      ready_list = L.push_back w.sched.ready_list child;
    };
  }

  -- Where both processes come out of `sys_fork_helper`; `parent_pid`, `child_pid` and `child_proc`
  -- are on the stack, and so in both memories.
  unfoldable pub fork_return : (parent_pid child_pid child : ℕ) → W L D ℤ
  fork_return parent_pid child_pid child w =
      if (w.sched.proc w.sched.current).pid == parent_pid
      then ok (pos child_pid, make_ready child w)
      else ok (pos 0, w)

  abbrev pub parented : (child parent_pid : ℕ) → World L D → World L D
  parented child parent_pid w =
      set_process w child (record (w.sched.proc child) { ppid = parent_pid })

  unfoldable pub ref_cwd : W L D (Unit {0})
  unfolding file_ref
  ref_cwd w = elim w.kernel.cwd [ none ↦ ok (tt, w) | some p ↦ in_kernel (file_ref (some p)) w ]

  abbrev pub with_cwd : ℕ → World L D → World L D
  with_cwd child w = record w {
    tables = put_at w.tables child (record (w.tables child) { cwd = w.kernel.cwd });
  }

  module _ (dma : Dma) (env : Env D) (f : Frame)
      (malloc_process : World L D → Option (ℕ × Process × FileTable)) where
    -- What follows `process_clone_files`.
    unfoldable pub cloned_or_not : (parent_pid child_pid child : ℕ) → ℤ → W L D ℤ
    unfolding copied fork_return destroyed
    cloned_or_not parent_pid child_pid child r =
        if is_zero r
        then (modify (copied dma f child) >> fork_return parent_pid child_pid child)
        else (modify (destroyed child) >> pure minus_one)

    unfoldable pub fork_into : ℕ → W L D ℤ
    unfolding cloned_or_not clone_files ref_cwd
    fork_into child w =
        let parent_pid = (w.sched.proc w.sched.current).pid in
        let child_pid = (w.sched.proc child).pid in
        (do
          modify (parented child parent_pid)
          ref_cwd
          modify (with_cwd child)
          r ← clone_files env child
          cloned_or_not parent_pid child_pid child r)
          w

    unfoldable pub sys_fork : W L D ℤ
    unfolding process_new fork_into
    sys_fork = do
      child ← process_new malloc_process
      elim child [ none ↦ pure minus_one | some p ↦ fork_into p ]
