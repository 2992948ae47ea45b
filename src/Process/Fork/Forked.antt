-- ===== src/Process/Fork/Forked.antt =====
-- What `sys_fork` of src/process.c leaves behind.
use zosys.Common.{
  ℕ, ◌+◌, ◌-◌, ◌*◌, ◌^◌, ◌≤◌, ◌<◌, ◌≡◌, ◌≢◌, refl, ap, ◌∙◌, ◌⊎◌, true, false, Option, none, List,
  [], ◌∷◌, ◌++◌, arith, length, drop, replicate,
}
use zosys.Common.Int.{pos}
use zosys.Common.ProcList.{ProcList, has}
use zosys.File.{Kernel, Env, max_open_files}
use zosys.Mem.Copy.{pa_from_pfn}
use zosys.Mem.Dma.{Dma, Memory, dma_memcpy}
use zosys.Mem.Dma.Moves.{moved, Apart, dma_memcpy_all}
use zosys.Mem.Pages.{alloc_page_block}
use zosys.Mem.Pages.Blocks.{Got}
use zosys.Mem.Pages.Used.{is_used}
use zosys.Process.{Process, ready}
use zosys.Process.Create.{World, FileTable}
use zosys.Process.Fork.{Frame, copied, push_frame}
use zosys.Process.Fork.Outcome.{forked, tried, TakesCwd, cwd_same}
use zosys.Process.Fork.Stack.{Framed, Fits, below_lem, push_frame-Framed, push_frame-other}

module _ {L : ProcList} {D : Type 0} where
  -- The child at `p` with the memory of block `b`, the files `k2` and the descriptors `fds`.
  pub record Forked (w w' : World L D) (p b : ℕ) (k2 : Kernel D) (f : Frame) (fds : List (Option ℕ))
      : Type 0 where
    pub pid : ((w'.sched.proc p).pid ≡ w.next_pid) × (w'.next_pid ≡ w.next_pid + 1)
    pub ppid : (w'.sched.proc p).ppid ≡ (w.sched.proc w.sched.current).pid
    pub is_ready :
        ((w'.sched.proc p).state ≡ ready)
        × (L.to_list w'.sched.ready_list ≡ L.to_list w.sched.ready_list ++ p ∷ [])
    pub listed : L.to_list w'.sched.process_list ≡ L.to_list w.sched.process_list ++ p ∷ []
    pub others : (q : ℕ) → q ≢ p → w'.sched.proc q ≡ w.sched.proc q
    pub goes_on : w'.sched.current ≡ w.sched.current
    pub block : ((w'.sched.proc p).cbr ≡ b * 16) × Got w.pages (pos (b * 16), w'.pages) b
    pub files : w'.kernel ≡ k2
    -- the child's descriptors are these and then none, and its working directory is the parent's
    pub descriptors :
        (w'.tables p).open_files ≡ fds ++ drop (length fds) (replicate max_open_files none)
    pub cwd : (w'.tables p).cwd ≡ w.kernel.cwd
    pub other_tables : (q : ℕ) → q ≢ p → w'.tables q ≡ w.tables q
    pub stack : (w'.sched.proc p).sp ≡ w.sched.reg_sp - 6
    pub frame : Framed w'.mem (b * 16) w.sched.reg_sp f
    -- the rest of the child's 64K is a copy, and no other byte has changed
    pub memory :
        (a : ℕ)
        → a < 2 ^ 16
        → (a < w.sched.reg_sp - 6) ⊎ (w.sched.reg_sp + 2 ≤ a)
        → w'.mem (pa_from_pfn (b * 16) + a) ≡ w.mem (pa_from_pfn w.sched.reg_cbr + a)
    pub untouched :
        (q : ℕ)
        → (q < pa_from_pfn (b * 16)) ⊎ (pa_from_pfn (b * 16) + 2 ^ 16 ≤ q)
        → w'.mem q ≡ w.mem q

  module _ (dma : Dma) (env : Env D) (f : Frame)
      (malloc_process : World L D → Option (ℕ × Process × FileTable)) (w : World L D) (p b c : ℕ)
      (fields : Process) (table : FileTable) (k1 k2 : Kernel D) (fds : List (Option ℕ))
      (new : p ≢ w.sched.current) (got : Got w.pages (alloc_page_block w.pages) b)
      (own : w.sched.reg_cbr ≡ c * 16) (in_range : c < 16) (held : is_used w.pages (c * 16) ≡ true)
      (deep : 6 ≤ w.sched.reg_sp) (small : w.sched.reg_sp + 1 < 2 ^ 16) where
    abbrev last : World L D
    last = forked dma env f malloc_process w p b fields table k1 k2 fds

    -- The blocks of parent and child are not the same.
    two_blocks : c ≢ b
    two_blocks e = ground (arith, got.was_free (c * 16) (omega arith), held)

    apart : Apart (2 ^ 16) (pa_from_pfn (b * 16)) (pa_from_pfn w.sched.reg_cbr)
    apart = ground (arith, own, two_blocks)

    abbrev copy : Memory
    copy = (dma_memcpy dma (pa_from_pfn (b * 16)) (pa_from_pfn w.sched.reg_cbr) 0 w.regs w.mem).0

    copy_lem :
        (a : ℕ)
        → copy a ≡ moved (2 ^ 16) (pa_from_pfn (b * 16)) (pa_from_pfn w.sched.reg_cbr) w.mem a
    copy_lem =
        dma_memcpy_all dma (pa_from_pfn (b * 16)) (pa_from_pfn w.sched.reg_cbr) w.regs w.mem
          (omega (arith, got.in_range)) (omega (arith, own, in_range)) apart

    abbrev before : World L D
    before = tried dma env f malloc_process w p b fields table k1 k2 fds

    pub cbr_lem : (before.sched.proc p).cbr ≡ b * 16
    cbr_lem = ground arith

    last_mem : last.mem ≡ push_frame (b * 16) w.sched.reg_sp f copy
    unfolding copied
    last_mem =
        ap
          (λ (n : ℕ).
            push_frame n w.sched.reg_sp f
              (dma_memcpy dma (pa_from_pfn n) (pa_from_pfn w.sched.reg_cbr) 0 w.regs w.mem).0)
          cbr_lem

    fits : Fits (b * 16)
    fits = omega (arith, got.in_range)

    granted : Got w.pages (pos (b * 16), (alloc_page_block w.pages).1) b
    granted = record {
      in_range = got.in_range;
      result = refl;
      was_free = got.was_free;
      now_used = got.now_used;
      valid = got.valid;
    }

    moved_in : (m : Memory) (d s a : ℕ) → a < 2 ^ 16 → moved (2 ^ 16) d s m (d + a) ≡ m (s + a)
    moved_in m d s a h = let e : s + (d + a - d) ≡ s + a = omega arith in ground (arith, ap m e)

    same_rest :
        (a : ℕ)
        → a < 2 ^ 16
        → (a < w.sched.reg_sp - 6) ⊎ (w.sched.reg_sp + 2 ≤ a)
        → last.mem (pa_from_pfn (b * 16) + a) ≡ w.mem (pa_from_pfn w.sched.reg_cbr + a)
    same_rest a h out =
        let q = pa_from_pfn (b * 16) + a in
        ap (λ m. m q) last_mem
        ∙ push_frame-other copy (b * 16) w.sched.reg_sp f fits deep small q (ground arith)
        ∙ copy_lem q
        ∙ moved_in w.mem (pa_from_pfn (b * 16)) (pa_from_pfn w.sched.reg_cbr) a h

    same_outside :
        (q : ℕ)
        → (q < pa_from_pfn (b * 16)) ⊎ (pa_from_pfn (b * 16) + 2 ^ 16 ≤ q)
        → last.mem q ≡ w.mem q
    same_outside q out =
        ap (λ m. m q) last_mem
        ∙ push_frame-other copy (b * 16) w.sched.reg_sp f fits deep small q (ground arith)
        ∙ copy_lem q
        ∙ ground arith

    pub last-Forked :
        has p (L.to_list w.sched.process_list) ≡ false
        → has p (L.to_list w.sched.ready_list) ≡ false
        → TakesCwd w.kernel k1
        → Forked w last p b k2 f fds
    unfolding copied
    last-Forked fresh idle cwd = record {
      pid = (ground arith, refl);
      ppid = ground arith;
      is_ready = (ground arith, L.to_list-push_back w.sched.ready_list p idle);
      listed = L.to_list-push_back w.sched.process_list p fresh;
      others = λ q ne. ground arith;
      goes_on = refl;
      block = (ground arith, granted);
      files = refl;
      descriptors = ground arith;
      cwd = ground (arith, cwd_same w.kernel k1 cwd);
      other_tables = λ q ne. ground arith;
      stack = ground (arith, below_lem w.sched.reg_sp 6 deep (omega arith));
      frame = rw last_mem (push_frame-Framed copy (b * 16) w.sched.reg_sp f fits deep small);
      memory = same_rest;
      untouched = same_outside;
    }
