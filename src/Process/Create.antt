-- ===== src/Process/Create.antt =====
-- `process_new` and `process_init` of src/process.c, over the whole state of
-- the kernel. Its `files` hold the open files and the working directory of the process that runs;
-- those of the others are in `tables`. `malloc_process` stands for the `malloc` of a process: an
-- address, and what the memory there held before.
use zosys.Common.{
  ℕ, ◌+◌, ◌%◌, Option, none, some, List, [], ◌++◌, replicate, drop, length, if◌then◌else◌, ltb, leb,
}
use zosys.Common.Int.{ℤ, pos, negsuc}
use zosys.Common.ProcList.{ProcList}
use zosys.Common.Run.{Run, ok, panic, fault}
use zosys.File.{Kernel, Env, max_open_files, put_at}
use zosys.File.Monad.{M}
use zosys.Mem.Dma.{Memory, Regs}
use zosys.Mem.Pages.{PageMap, alloc_page_block}
use zosys.Process.Clone.{clone_from}
use zosys.Process.{Process, Sched, empty, running, update}

-- `open_files` and `cwd` of `struct process`.
pub record FileTable : Type 0 where
  pub open_files : List (Option ℕ)
  pub cwd : Option ℕ

pub record World (L : ProcList) (D : Type 0) : Type 0 where
  pub sched : Sched L
  pub next_pid : ℕ
  pub pages : PageMap
  pub kernel : Kernel D
  pub tables : ℕ → FileTable
  pub mem : Memory
  pub regs : Regs

abbrev pub W : ProcList → Type 0 → Type 0 → Type 0
W L D A = World L D → Run (A × World L D)

module _ {L : ProcList} {D : Type 0} where
  abbrev pub pure : {A : Type 0} → A → W L D A
  pure a w = ok (a, w)

  abbrev pub and_then : {A B : Type 0} → Run (A × World L D) → (A → W L D B) → Run (B × World L D)
  and_then (ok (a, w)) f = f a w
  and_then panic f = panic
  and_then fault f = fault

  infixl 5 ◌>>=◌ ◌>>◌
  abbrev pub ◌>>=◌ : {A B : Type 0} → W L D A → (A → W L D B) → W L D B
  ◌>>=◌ m f w = and_then (m w) f

  abbrev pub ◌>>◌ : {B : Type 0} → W L D (Unit {0}) → W L D B → W L D B
  m >> n = m >>= λ _. n

  abbrev pub modify : (World L D → World L D) → W L D (Unit {0})
  modify f w = ok (tt, f w)

  abbrev pub put_kernel : {A : Type 0} → World L D → Run (A × Kernel D) → Run (A × World L D)
  put_kernel w (ok (a, k)) = ok (a, record w { kernel = k })
  put_kernel w panic = panic
  put_kernel w fault = fault

  abbrev pub in_kernel : {A : Type 0} → M D A → W L D A
  in_kernel m w = put_kernel w (m w.kernel)

  abbrev pub set_process : World L D → ℕ → Process → World L D
  set_process w p v = record w { sched = record w.sched { proc = update w.sched.proc p v } }

  -- The rest of `process_new`, from `ppid` on. `next_pid++` overflows an `int` at 0x7fff, which C
  -- leaves undefined.
  abbrev pub enlist : ℕ → Process → FileTable → World L D → Run (Option ℕ × World L D)
  enlist p fields table w =
      if leb 0x7fff w.next_pid
      then fault
      else ok (
        some p,
        record w {
          sched = record w.sched {
            proc =
                update w.sched.proc p (record fields { ppid = 0; state = empty; pid = w.next_pid });
            process_list = L.push_back w.sched.process_list p;
          };
          tables = put_at w.tables p (record table { open_files = replicate max_open_files none });
          next_pid = w.next_pid + 1;
        },
      )

  -- A process that is not the first has a block of pages.
  abbrev pub with_block : ℕ → Process → FileTable → World L D → Run (Option ℕ × World L D)
  with_block p fields table w =
      let w' = record w { pages = (alloc_page_block w.pages).1 } in
      elim (alloc_page_block w.pages).0 [
        | negsuc _ ↦ ok (none, w')
        | pos new_cbr ↦ enlist p (record fields { cbr = new_cbr % 256 }) table w'
      ]

  -- `process_clone_files(dest, src)`, where `src` is the process that runs.
  abbrev pub store_table : ℕ → ℤ × List (Option ℕ) → W L D ℤ
  store_table dest (r, cloned) w = ok (
    r,
    record w {
      tables = put_at w.tables dest (record (w.tables dest) {
        open_files = cloned ++ drop (length cloned) (w.tables dest).open_files;
      });
    },
  )

  unfoldable pub clone_files : Env D → ℕ → W L D ℤ
  unfolding clone_from
  clone_files env dest w = (in_kernel (clone_from env [] w.kernel.fds) >>= store_table dest) w

  module _ (malloc_process : World L D → Option (ℕ × Process × FileTable)) where
    unfoldable pub process_new : W L D (Option ℕ)
    process_new w = elim (malloc_process w) [
      | none ↦ ok (none, w)
      | some (p, fields, table) ↦
          if ltb 0 w.next_pid then with_block p fields table w else enlist p fields table w
    ]

    -- The first process takes over the memory that the kernel starts in.
    abbrev first_process : Option ℕ → W L D (Unit {0})
    first_process none w = panic
    first_process (some p) w = ok (
      tt,
      record w {
        sched = record w.sched {
          current = p;
          proc =
              update w.sched.proc p
                (record (w.sched.proc p) { state = running; cbr = w.sched.reg_cbr });
        };
        tables = put_at w.tables p (record (w.tables p) { cwd = none });
      },
    )

    unfoldable pub process_init : W L D (Unit {0})
    unfolding process_new
    process_init = do
      modify (λ w. record w {
        sched = record w.sched {
          process_list = L.init;
          ready_list = L.init;
          zombie_list = L.init;
          wait_list = L.init;
        };
      })
      p ← process_new
      first_process p
