-- ===== src/Process/Fork/Examples.antt =====
-- A fork of process 1, with an open file that is its working directory too.
use zosys.Common.{
  ℕ, ◌+◌, ◌≡◌, refl, ap, ◌∙◌, ◌%◌, inr, ◌⊎◌, true, Option, none, some, List, [], ◌∷◌, arith,
  replicate, if◌then◌else◌, ◌==◌,
}
use zosys.Common.Bits.{bit}
use zosys.Common.Int.{pos, minus_one}
use zosys.Common.ListModel.{list_model}
use zosys.Common.Run.{ok}
use zosys.File.{Kernel, Env, FileOps, OpenFile, plain, put_at}
use zosys.File.Count.{file_ref}
use zosys.Mem.Dma.{Dma, move, bytes_of}
use zosys.Mem.Pages.{initial_map}
use zosys.Mem.Pages.Used.{is_used, initial_map-IsValid}
use zosys.Process.{Process, running, switch}
use zosys.Process.Clone.{clone_from}
use zosys.Process.Clone.Undo.{Live, Made, slots, added, Fresh}
use zosys.Process.Clone.Whole.{AllocatesFree, Copies, clone_from_lem}
use zosys.Process.Create.{World, FileTable}
use zosys.Process.Fork.{Frame, sys_fork, fork_return}
use zosys.Process.Fork.Forked.{Forked, last-Forked}
use zosys.Process.Fork.Outcome.{TakesCwd, forked}
use zosys.Process.Fork.Stack.{word_at}
use zosys.Mem.Pages.Blocks.{alloc_page_block_first}
use zosys.Process.Fork.Result.{ForkEnd, sys_fork_lem, fork_return-switch}

dma : Dma
dma = record { start = λ r m. move (bytes_of r.bcr0) r.dar0 r.sar0 m; start-burst = λ r m e. refl }

abbrev kernel : Kernel ℕ
kernel = record {
  files = λ p. if p == 7 then some (record { kind = plain none 0; ref_count = 3 }) else none;
  opens = λ o. if o == 40 then some (record { file = some 7; ref_count = 1; pos = 0 }) else none;
  bufs = λ b. none;
  mounts = [];
  drivers = [];
  fds = some 40 ∷ replicate 7 none;
  cwd = some 7;
  dev = 0;
}

abbrev no_ops : FileOps ℕ
no_ops = record {
  open_op = none;
  close_op = none;
  read_op = none;
  write_op = none;
  ioctl_op = none;
  readdirent_op = none;
}

-- One place for an open file.
abbrev place_for : Option OpenFile → Option (ℕ × OpenFile)
place_for none = some (44, record { file = some 7; ref_count = 7; pos = 77 })
place_for (some f) = none

abbrev env : Env ℕ
env = record {
  filesystem = λ n. record { find = λ mp path d. none; ops = none };
  driver = λ n. no_ops;
  malloc_file = λ k. none;
  malloc_open = λ k. place_for (k.opens 44);
  malloc_buf = λ k. none;
  malloc_bytes = λ k. none;
}

place_for-free :
    (o : Option OpenFile) (dest : ℕ) (junk : OpenFile)
    → place_for o ≡ some (dest, junk)
    → (dest ≡ 44) × (o ≡ none)
place_for-free none dest junk e = (ground arith, refl)
place_for-free (some f) dest junk e = absurd (ground arith)

env-AllocatesFree : AllocatesFree env
env-AllocatesFree k dest junk e =
    let (at, free) = place_for-free (k.opens 44) dest junk e in ap k.opens at ∙ free

abbrev process : ℕ → Process
process p = record {
  sp = 0xf000;
  cbr = 0x70;
  state = running;
  pid = p;
  ppid = 0;
  status = 0;
  wait_pid = pos 0;
  wait_options = 0;
  wait_process = none;
}

abbrev world : World list_model ℕ
world = record {
  sched = record {
    proc = process;
    process_list = 0 ∷ 1 ∷ [];
    ready_list = 0 ∷ [];
    zombie_list = [];
    wait_list = [];
    current = 1;
    reg_sp = 0xff00;
    reg_cbr = 0x70;
  };
  next_pid = 2;
  pages = initial_map;
  kernel = kernel;
  tables = λ p. record { open_files = replicate 8 none; cwd = none };
  mem = λ a. a % 256;
  regs = record { sar0 = 0; dar0 = 0; bcr0 = 0; dmode = 0 };
}

abbrev malloc_process : World list_model ℕ → Option (ℕ × Process × FileTable)
malloc_process w = some (9, process 77, record { open_files = replicate 8 none; cwd = none })

abbrev frame : Frame
frame = record { back = 0x1234; reentry = 0x4321; ix = 5; iy = 6 }

used : is_used initial_map 0x70 ≡ true
unfolding is_used bit
used = refl

abbrev with_cwd : Kernel ℕ
with_cwd = record kernel {
  files = put_at kernel.files 7 (some (record { kind = plain none 0; ref_count = 4 }));
}

takes_cwd : TakesCwd kernel with_cwd
unfolding file_ref
takes_cwd = inr (7, refl, refl)

abbrev at_40 : OpenFile
at_40 = record { file = some 7; ref_count = 1; pos = 0 }

live : Live 8 with_cwd 7
live = (record { kind = plain none 0; ref_count = 4 }, refl, omega arith, omega arith)

sys_fork_lem_example : ForkEnd world 9 with_cwd frame (sys_fork dma env frame malloc_process world)
sys_fork_lem_example =
    sys_fork_lem dma env frame malloc_process world 9 7 (process 77)
      (record { open_files = replicate 8 none; cwd = none }) with_cwd refl (omega arith) refl refl
      (omega arith) (omega arith) initial_map-IsValid refl (omega arith) used (omega arith)
      (omega arith) env-AllocatesFree takes_cwd ((at_40, 7, refl, refl, live, live), tt)

clone_from_lem_example :
    ((m : List (Option Made)) × (clone_from env [] with_cwd.fds with_cwd
        ≡ ok ((pos 0, slots m), added m with_cwd))
      × Copies with_cwd with_cwd.fds m
      × Fresh m with_cwd)
    ⊎ ((c : List (Option ℕ)) × (clone_from env [] with_cwd.fds with_cwd
          ≡ ok ((minus_one, c), with_cwd)))
clone_from_lem_example =
    clone_from_lem env with_cwd with_cwd.fds env-AllocatesFree
      ((at_40, 7, refl, refl, live, live), tt)

abbrev made : List (Option Made)
made = some (record { at = 44; file = 7; pos = 77 }) ∷ replicate 7 none

abbrev table : FileTable
table = record { open_files = replicate 8 none; cwd = none }

abbrev after : World list_model ℕ
after =
    forked dma env frame malloc_process world 9 8 (process 77) table with_cwd (added made with_cwd)
      (slots made)

after-Forked : Forked world after 9 8 (added made with_cwd) frame (slots made)
after-Forked =
    last-Forked dma env frame malloc_process world 9 8 7 (process 77) table with_cwd
      (added made with_cwd) (slots made) (omega arith) alloc_page_block_first refl (omega arith)
      used (omega arith) (omega arith) refl refl takes_cwd

fork_return-switch_example :
    let u = record after { sched = switch after.sched 9 } in
    (u.sched.reg_cbr ≡ 0x80)
    × (word_at u.mem 0x80 u.sched.reg_sp ≡ 0x4321)
    × (word_at u.mem 0x80 (u.sched.reg_sp + 2) ≡ 0x1234)
    × (fork_return 1 2 9 u ≡ ok (pos 0, u))
fork_return-switch_example =
    fork_return-switch world after 9 8 2 (added made with_cwd) frame (slots made) after-Forked
      (omega arith) (omega arith) (omega arith) (omega arith)
