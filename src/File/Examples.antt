-- ===== src/File/Examples.antt =====
-- Runs on a kernel with one open file, on descriptor 0, for the device with major number 1.
use zosys.Common.{
  min, ℕ, zero, suc, ◌+◌, ◌∷◌, ◌≡◌, refl, ap, Option, none, some, [], arith, replicate, get_or, set,
  ◌++◌, take,
}
use zosys.Common.Int.{pos}
use zosys.Common.Run.{ok}
use zosys.CircularBuffer.{CircularBuffer}
use zosys.CircularBuffer.Valid
use zosys.CircularBuffer.Refine.{contents}
use zosys.File.{Kernel, Env, File, OpenFile, special, pipe, write_end, FileOps, put_at}
use zosys.File.Vfs.{fs_num, mount_at, unmounted}
use zosys.File.Pipe.{room, read_loop, write_loop, read-write}
use zosys.File.Dispatch.{file_close}
use zosys.File.Calls.{slot, sys_close, sys_dup2, find_fd}
use zosys.File.Refs.{IsCounted, total-one, points, refers, slots, refs}
use zosys.File.Close.{GivenBack, sys_close_lem}
use zosys.File.Dup.{sys_dup2-IsCounted}
use zosys.File.Transfer.{sys_write}
use zosys.File.PipeWrite.{sys_write-pipe}

abbrev nothing : {A : Type 0} → ℕ → Option A
nothing q = none

abbrev console : File
console = record { kind = special 1 0 none; ref_count = 1 }

abbrev opened : OpenFile
opened = record { file = some 60; ref_count = 1; pos = 5 }

-- `dev` counts the calls of the driver's `close`.
abbrev kernel : Kernel ℕ
kernel = record {
  files = put_at nothing 60 (some console);
  opens = put_at nothing 40 (some opened);
  bufs = nothing;
  mounts = replicate 26 unmounted;
  drivers = some 0 ∷ replicate 7 none;
  fds = some 40 ∷ replicate 7 none;
  cwd = none;
  dev = 0;
}

abbrev driver : FileOps ℕ
driver = record {
  open_op = none;
  close_op = some (λ p d. (pos 0, d + 1));
  read_op = none;
  write_op = none;
  ioctl_op = none;
  readdirent_op = none;
}

abbrev env : Env ℕ
env = record {
  filesystem = λ n. record { find = λ mp path d. none; ops = none };
  driver = λ n. driver;
  malloc_file = λ k. none;
  malloc_open = λ k. some (44, record { file = some 7; ref_count = 7; pos = 77 });
  malloc_buf = λ k. none;
  malloc_bytes = λ k. none;
}

none_at : (m n : ℕ) → get_or (replicate {A = Option ℕ} m none) n none ≡ none
none_at zero n = refl
none_at (suc m) zero = refl
none_at (suc m) (suc n) = none_at m n

fds_only : (n : ℕ) (q : ℕ) → get_or kernel.fds n none ≡ some q → (n ≡ 0) × (q ≡ 40)
fds_only zero q e = (refl, ground arith)
fds_only (suc n) q e = absurd (ground (arith, none_at 7 n))

opens_only : (q : ℕ) (f : OpenFile) → kernel.opens q ≡ some f → (q ≡ 40) × (f ≡ opened)
opens_only q f e = ground arith

slots-kernel : (o : ℕ) → slots kernel o ≡ points (some 40) o
slots-kernel o =
    total-one 8 0 (λ fd. points (get_or kernel.fds fd none) o) (omega arith)
      (elim [ zero ↦ λ ne. absurd (ne refl) | suc j ↦ λ ne. ap (λ c. points c o) (none_at 7 j) ])

refs-kernel : (p : ℕ) → refs kernel p ≡ points (some 60) p
refs-kernel p = omega (
  arith,
  total-one 0x10000 40 (λ o. refers (kernel.opens o) p) (omega arith) (λ j ne. ground arith),
)

kernel-IsCounted : IsCounted kernel
kernel-IsCounted = record {
  table = refl;
  address = λ q f e. omega (arith, (opens_only q f e).0);
  slot_live = λ n q e. (opened, ground (arith, fds_only n q e));
  open_live = λ q f e. (60, console, ground (arith, opens_only q f e), refl);
  cwd_live = λ p e. absurd (ground arith);
  open_count = λ q f e. ground (arith, opens_only q f e, slots-kernel q);
  file_count = λ p g e. ground (arith, refs-kernel p);
}

file_close_result : file_close env 60 kernel ≡ ok (pos 0, record kernel { dev = 1 })
unfolding file_close
file_close_result = refl

sys_close_lem_example :
    (k' : Kernel ℕ) × (sys_close env (pos 0) kernel ≡ ok (pos 0, k'))
    × (k'.fds ≡ set kernel.fds 0 none)
    × (get_or k'.fds 0 none ≡ none)
    × GivenBack kernel k' 40 60 opened console
    × IsCounted k'
sys_close_lem_example =
    sys_close_lem env kernel 0 40 60 opened console (pos 0) 1 kernel-IsCounted refl refl refl refl
      file_close_result

sys_dup2-IsCounted_example :
    (k' : Kernel ℕ) × (sys_dup2 env (pos 0) (pos 5) kernel ≡ ok (pos 5, k'))
    × (slot k' (pos 5) ≡ some 40)
    × (slot k' (pos 0) ≡ some 40)
    × IsCounted k'
sys_dup2-IsCounted_example =
    sys_dup2-IsCounted kernel 5 40 opened kernel-IsCounted (omega arith) refl refl env 0 refl
      (omega arith)

find_fd-kernel : find_fd kernel.fds none 8 0 ≡ some 1
unfolding find_fd
find_fd-kernel = refl

same_drive : fs_num b'C' ≡ fs_num b'c'
unfolding fs_num
same_drive = refl

free_drive : (mount_at kernel (fs_num b'c')).fs ≡ none
unfolding fs_num
free_drive = refl

abbrev ring : CircularBuffer
ring = record { buffer = 20 ∷ 7 ∷ 8 ∷ 10 ∷ []; size = 4; head = 3; tail = 0 }

ring-IsValid : Valid.IsValid ring
ring-IsValid = record {
  storage = omega arith;
  small = omega arith;
  head_in = omega arith;
  tail_in = omega arith;
}

read-write_example :
    (read_loop 9 (write_loop (1 ∷ 2 ∷ 3 ∷ []) ring).1).0
    ≡ contents ring ++ take (write_loop (1 ∷ 2 ∷ 3 ∷ []) ring).0 (1 ∷ 2 ∷ 3 ∷ [])
read-write_example = read-write (1 ∷ 2 ∷ 3 ∷ []) 9 ring-IsValid (omega arith)

-- Descriptor 0 is the write end of a pipe over `ring`.
abbrev writer : OpenFile
writer = record { file = some 61; ref_count = 1; pos = 0 }

abbrev piped : Kernel ℕ
piped = record kernel {
  files = put_at nothing 61 (some (record { kind = pipe write_end 3; ref_count = 1 }));
  opens = put_at nothing 40 (some writer);
  bufs = put_at nothing 3 (some ring);
}

sys_write-pipe_example :
    (k' : Kernel ℕ) × (ring' : CircularBuffer) × (sys_write env
        (pos 0)
        0x2000
        (1 ∷ 2 ∷ 3 ∷ [])
        piped
      ≡ ok (pos (min 3 (room ring)), k'))
    × (k'.bufs 3 ≡ some ring')
    × (contents ring' ≡ contents ring ++ take (room ring) (1 ∷ 2 ∷ 3 ∷ []))
sys_write-pipe_example =
    sys_write-pipe env piped 40 61 3 1 writer ring refl refl refl refl ring-IsValid 0 0x2000 1
      (2 ∷ 3 ∷ []) (omega arith) refl (omega arith) (omega arith) (omega arith)
