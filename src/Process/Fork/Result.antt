-- ===== src/Process/Fork/Result.antt =====
-- `sys_fork` of src/process.c on every path.
use mathlib.Core.Path.{sym}
use std.Path.{subst}
use zosys.Common.{
  ℕ, ◌+◌, ◌-◌, ◌*◌, ◌/◌, ◌^◌, ◌≤◌, ◌<◌, ◌≡◌, ◌≢◌, refl, ap, ◌∙◌, ◌⊎◌, inl, inr, true, false, Option,
  some, List, [], ◌∷◌, ◌++◌, arith, length,
}
use zosys.Common.Int.{ℤ, pos, minus_one}
use zosys.Common.ProcList.{ProcList, has, without}
use zosys.Common.Run.{Run, ok}
use zosys.File.{Kernel, Env}
use zosys.Mem.Dma.{Dma}
use zosys.Mem.Pages.{alloc_page_block, free_page_block}
use zosys.Mem.Pages.Blocks.{Got, IsFreeBlock, alloc_page_block_lem, free_page_block_lem}
use zosys.Mem.Pages.Used.{IsValid, is_used}
use zosys.Process.{Process, switch}
use zosys.Process.Life.{destroy}
use zosys.Process.Clone.{clone_from}
use zosys.Process.Clone.Undo.{Made, slots, added, Fresh}
use zosys.Process.Clone.Whole.{AllocatesFree, Copies, Ready, clone_from_lem}
use zosys.Process.Create.{World, FileTable}
use zosys.Process.Fork.{Frame, sys_fork, destroyed, fork_return}
use zosys.Process.Fork.Forked.{Forked, last-Forked}
use zosys.Process.Fork.Stack.{word_at}
use zosys.Process.Fork.Outcome.{
  TakesCwd, tried, process_new_block, process_new_no_block, sys_fork-none, sys_fork_cloned,
  sys_fork_not_cloned,
}

has-append : (l : List ℕ) (p : ℕ) → has p (l ++ p ∷ []) ≡ true
has-append [] p = ground arith
has-append (x ∷ l) p = ground (arith, has-append l p)

without-append : (l : List ℕ) (p : ℕ) → has p l ≡ false → without p (l ++ p ∷ []) ≡ l
without-append [] p h = ground arith
without-append (x ∷ l) p h = ground (arith, without-append l p)

module _ {L : ProcList} {D : Type 0} where
  -- The child is gone and its memory free again; the reference to the working directory stays.
  pub record GivenUp (w w' : World L D) (p : ℕ) (k1 : Kernel D) : Type 0 where
    pub files : w'.kernel ≡ k1
    pub listed : L.to_list w'.sched.process_list ≡ L.to_list w.sched.process_list
    pub ready_list : w'.sched.ready_list ≡ w.sched.ready_list
    pub others : (q : ℕ) → q ≢ p → w'.sched.proc q ≡ w.sched.proc q
    pub pages : (q : ℕ) → is_used w'.pages q ≡ is_used w.pages q
    pub memory : w'.mem ≡ w.mem

  module _ (dma : Dma) (env : Env D) (f : Frame)
      (malloc_process : World L D → Option (ℕ × Process × FileTable)) (w : World L D) (p b : ℕ)
      (fields : Process) (table : FileTable) (k1 : Kernel D) (new : p ≢ w.sched.current)
      (fresh : has p (L.to_list w.sched.process_list) ≡ false) where
    pushed :
        has p (L.to_list w.sched.process_list) ≡ false
        → has p (L.to_list (L.push_back w.sched.process_list p)) ≡ true
    pushed h =
        ap (has p) (L.to_list-push_back w.sched.process_list p h)
        ∙ has-append (L.to_list w.sched.process_list) p

    abbrev at_end : List (Option ℕ) → World L D
    at_end fds = tried dma env f malloc_process w p b fields table k1 k1 fds

    cbr : (fds : List (Option ℕ)) → ((at_end fds).sched.proc p).cbr ≡ b * 16
    cbr fds = ground arith

    freed :
        (fds : List (Option ℕ))
        → Got w.pages (alloc_page_block w.pages) b
        → (q : ℕ)
        → is_used (free_page_block ((at_end fds).sched.proc p).cbr (alloc_page_block w.pages).1) q
          ≡ is_used w.pages q
    freed fds got q =
        let e : b * 16 / 16 ≡ b = omega arith in
        ap (λ n. is_used (free_page_block n (alloc_page_block w.pages).1) q) (cbr fds)
        ∙ (free_page_block_lem (b * 16) got.valid (omega (arith, got.in_range))).1 q
        ∙ ground (arith, e, got.now_used q, got.was_free q)

    destroyed-GivenUp :
        (fds : List (Option ℕ))
        → Got w.pages (alloc_page_block w.pages) b
        → GivenUp w (destroyed p (at_end fds)) p k1
    unfolding destroyed destroy
    destroyed-GivenUp fds got = record {
      files = refl;
      listed =
          L.to_list-remove _ p (pushed fresh)
          ∙ ap (without p) (L.to_list-push_back w.sched.process_list p fresh)
          ∙ without-append (L.to_list w.sched.process_list) p fresh;
      ready_list = refl;
      others = λ q ne. ground arith;
      pages = freed fds got;
      memory = refl;
    }

  -- The ends of `sys_fork`: a child, no block of pages for it, or no memory for a clone.
  pub data ForkEnd (w : World L D) (p : ℕ) (k1 : Kernel D) (f : Frame)
      : Run (ℤ × World L D) → Type 0 where
    child :
        (b : ℕ) (m : List (Option Made)) (w' : World L D)
        → Forked w w' p b (added m k1) f (slots m)
        → Copies k1 k1.fds m
        → ForkEnd w p k1 f (ok (pos w.next_pid, w'))
    no_block : ((b : ℕ) → b < 16 → ¬ (IsFreeBlock w.pages b)) → ForkEnd w p k1 f (ok (minus_one, w))
    no_clone : (w' : World L D) → GivenUp w w' p k1 → ForkEnd w p k1 f (ok (minus_one, w'))

  module _ (dma : Dma) (env : Env D) (f : Frame)
      (malloc_process : World L D → Option (ℕ × Process × FileTable)) (w : World L D) (p c : ℕ)
      (fields : Process) (table : FileTable) (k1 : Kernel D) where
    -- Of a process with a stack that leaves room and with a block of pages of its own, not the first,
    -- where `malloc` gives the new process a place that is no process yet and gives open files free
    -- places, where the reference to the working directory can be taken, and where the open files
    -- are in use and their files' counts leave room: `sys_fork` comes back. It returns the next number
    -- and makes a child of that number that is ready, with a block that was free, a copy of the
    -- parent's 64K with the frame of `sys_fork_helper` on its stack, a clone of each open
    -- file on the same descriptor, and the parent's working directory; or it returns -1 and changes nothing, if no block is free; or it returns -1 and gives the
    -- block and the clones back, but not the reference to the working directory.
    pub sys_fork_lem :
        malloc_process w ≡ some (p, fields, table)
        → p ≢ w.sched.current
        → has p (L.to_list w.sched.process_list) ≡ false
        → has p (L.to_list w.sched.ready_list) ≡ false
        → 0 < w.next_pid
        → w.next_pid < 0x7fff
        → IsValid w.pages
        → w.sched.reg_cbr ≡ c * 16
        → c < 16
        → is_used w.pages (c * 16) ≡ true
        → 6 ≤ w.sched.reg_sp
        → w.sched.reg_sp + 1 < 2 ^ 16
        → AllocatesFree env
        → TakesCwd w.kernel k1
        → Ready (length k1.fds) k1 k1 k1.fds
        → ForkEnd w p k1 f (sys_fork dma env f malloc_process w)
    sys_fork_lem given new fresh idle first last valid own in_range held deep small free cwd ready =
        elim (alloc_page_block_lem valid) [
          | inl (b, got) ↦ with_block b got (clone_from_lem env k1 k1.fds free ready)
          | inr (refused, all) ↦
              subst (ForkEnd w p k1 f)
                (sym (
                  sys_fork-none dma env f malloc_process w w (
                    process_new_no_block malloc_process w p fields table given first refused.result
                      refused.same)))
                (no_block all)
        ]
      where
        with_block :
            (b : ℕ)
            → Got w.pages (alloc_page_block w.pages) b
            → (((m : List (Option Made)) × (clone_from env [] k1.fds k1
                    ≡ ok ((pos 0, slots m), added m k1))
                  × Copies k1 k1.fds m
                  × Fresh m k1)
                ⊎ ((x : List (Option ℕ)) × (clone_from env [] k1.fds k1 ≡ ok ((minus_one, x), k1))))
            → ForkEnd w p k1 f (sys_fork dma env f malloc_process w)
        with_block b got (inl (m, e, copies, _)) =
            subst (ForkEnd w p k1 f)
              (sym (
                sys_fork_cloned dma env f malloc_process w p b fields table k1 (added m k1)
                  (slots m) new
                  (process_new_block malloc_process w p fields table given first b last got) cwd e))
              (child b m _
                (last-Forked dma env f malloc_process w p b c fields table k1 (added m k1) (slots m)
                  new got own in_range held deep small fresh idle cwd)
                copies)
        with_block b got (inr (x, e)) =
            subst (ForkEnd w p k1 f)
              (sym (
                sys_fork_not_cloned dma env f malloc_process w p b fields table k1 k1 x new
                  (process_new_block malloc_process w p fields table given first b last got) cwd e))
              (no_clone _
                (destroyed-GivenUp dma env f malloc_process w p b fields table k1 new fresh x got))

  -- Of a process whose number is below the next: once the child that `sys_fork` made is switched to,
  -- it finds its own memory and on its stack the way out of `sys_fork_helper`, and `sys_fork` returns
  -- 0 in it.
  pub fork_return-switch :
      (w w' : World L D) (p b child_pid : ℕ) (k2 : Kernel D) (f : Frame) (fds : List (Option ℕ))
      → Forked w w' p b k2 f fds
      → p ≢ w.sched.current
      → 6 ≤ w.sched.reg_sp
      → w.sched.reg_sp < 2 ^ 16
      → (w.sched.proc w.sched.current).pid < w.next_pid
      → let u = record w' { sched = switch w'.sched p } in
        (u.sched.reg_cbr ≡ b * 16)
        × (word_at u.mem (b * 16) u.sched.reg_sp ≡ f.reentry)
        × (word_at u.mem (b * 16) (u.sched.reg_sp + 2) ≡ f.back)
        × (fork_return (w.sched.proc w.sched.current).pid child_pid p u ≡ ok (pos 0, u))
  unfolding switch fork_return
  fork_return-switch w w' p b child_pid k2 f fds made new deep small below =
      let at : p ≢ w'.sched.current = λ e. new (e ∙ made.goes_on) in
      let sp : (switch w'.sched p).reg_sp ≡ w.sched.reg_sp - 2 = ground (arith, made.stack, at) in
      let e : w.sched.reg_sp - 2 + 2 ≡ w.sched.reg_sp = omega arith in
      (
        ground (arith, made.block.0, at),
        rw sp made.frame.reentry,
        rw sp (rw e made.frame.back),
        ground (arith, made.pid.0, at),
      )
