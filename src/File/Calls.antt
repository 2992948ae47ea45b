-- ===== src/File/Calls.antt =====
-- The system calls of src/file.c on the descriptors and the working directory of the current
-- process: `sys_open`, `sys_close`, `sys_dup2`, `sys_ioctl`, `sys_lseek`, `sys_chdir`, `sys_fchdir`
-- and `sys_pipe`. A path is the string that was copied from user memory.
use zosys.Common.{
  ℕ, zero, suc, ◌+◌, ◌%◌, ◌^◌, Option, none, some, List, Bool, true, false, if◌then◌else◌, ltb,
  ◌==◌, get_or, set,
}
use zosys.Common.Int.{ℤ, pos, negsuc, minus_one}
use zosys.Common.Run.{ok}
use zosys.File.{Kernel, Env, FileKind, plain, special, directory, pipe, OpenFile, max_open_files}
use zosys.File.Monad.{M, pure, ◌>>=◌, ◌>>◌, the, load_file, load_open, store_open}
use zosys.File.Count.{file_ref, file_unref, open_ref, open_unref, open_free, open_new}
use zosys.File.Dispatch.{file_open, file_close, file_ioctl}

-- The value of `whence`, by what the constants of the C library name.
pub data Whence : Type 0 where
  seek_set seek_cur seek_end other : Whence

abbrev is_it : Option ℕ → ℕ → Bool
is_it none fd = false
is_it (some s) fd = s == fd

abbrev pub is_directory : FileKind → Bool
is_directory (directory mp inode) = true
is_directory (plain mp inode) = false
is_directory (special major minor backing) = false
is_directory (pipe end b) = false

-- The loop for a free descriptor from `fd`, passing over `skip`, with `left` to go.
unfoldable pub find_fd : List (Option ℕ) → (skip : Option ℕ) → (left fd : ℕ) → Option ℕ
find_fd fds skip zero fd = none
find_fd fds skip (suc left) fd =
    let rest = find_fd fds skip left (fd + 1) in
    elim (get_or fds fd none) [ some _ ↦ rest | none ↦ if is_it skip fd then rest else some fd ]

module _ {D : Type 0} where
  -- `current_proc->open_files[fd]`, nothing if `fd` is out of range.
  abbrev pub slot : Kernel D → ℤ → Option ℕ
  slot k (pos n) = if ltb n max_open_files then get_or k.fds n none else none
  slot k (negsuc n) = none

  abbrev pub set_slot : ℕ → Option ℕ → M D (Unit {0})
  set_slot fd o k = ok (tt, record k { fds = set k.fds fd o })

  abbrev pub set_cwd : Option ℕ → M D (Unit {0})
  set_cwd c k = ok (tt, record k { cwd = c })

  -- `if (current_proc->cwd) file_file_unref(current_proc->cwd);`
  abbrev pub leave_cwd : M D (Unit {0})
  leave_cwd k = elim k.cwd [ none ↦ pure tt k | some c ↦ file_unref (some c) k ]

  abbrev move_to : ℕ → OpenFile → ℕ → M D (Option ℕ)
  move_to o f at = do store_open o (some (record f { pos = at })); pure (some at)

  abbrev seek : ℕ → OpenFile → ℕ → Whence → M D (Option ℕ)
  seek o f offset seek_set = move_to o f offset
  seek o f offset seek_cur = move_to o f ((f.pos + offset) % 2 ^ 32)
  seek o f offset seek_end = pure none
  seek o f offset other = pure none

  -- An `off_t` is its 32 bits; `none` is the error, -1. The output for debugging is left out.
  unfoldable pub sys_lseek : ℤ → ℕ → Whence → M D (Option ℕ)
  sys_lseek fd offset whence k = elim (slot k fd) [
    | none ↦ pure none k
    | some o ↦ (do f ← load_open o; seek o f offset whence) k
  ]

  abbrev enter_if : Bool → ℕ → M D ℤ
  enter_if true p = do leave_cwd; file_ref (some p); set_cwd (some p); pure (pos 0)
  enter_if false p = pure minus_one

  unfoldable pub sys_fchdir : ℤ → M D ℤ
  unfolding file_ref file_unref
  sys_fchdir fd k = elim (slot k fd) [
    | none ↦ pure minus_one k
    | some o ↦
        (do f ← load_open o; p ← the f.file; d ← load_file p; enter_if (is_directory d.kind) p) k
  ]

  module _ (env : Env D) where
    -- The rest of `sys_open` after the new open file.
    abbrev attach : ℕ → ℕ → Option ℕ → M D ℤ
    attach fd o none = do open_free (some o); pure minus_one
    attach fd o (some p) = do
      f ← load_open o
      store_open o (some (record f { file = some p; pos = 0 }))
      set_slot fd (some o)
      pure (pos fd)

    abbrev open_at : ℕ → List ℕ → ℕ → Option ℕ → M D ℤ
    open_at fd path flags none = pure minus_one
    open_at fd path flags (some o) = do found ← file_open env path flags; attach fd o found

    unfoldable pub sys_open : List ℕ → ℕ → M D ℤ
    unfolding find_fd open_new file_open open_free
    sys_open path flags k = elim (find_fd k.fds none max_open_files 0) [
      | none ↦ pure minus_one k
      | some fd ↦ (do o ← open_new env; open_at fd path flags o) k
    ]

    -- `file_close(f->file); file_open_file_unref(f); current_proc->open_files[fd] = NULL;`
    abbrev pub close_slot : ℕ → ℕ → M D (Unit {0})
    close_slot fd o = do
      f ← load_open o
      p ← the f.file
      r ← file_close env p
      open_unref (some o)
      set_slot fd none

    abbrev close_if : ℕ → Option ℕ → M D ℤ
    close_if fd none = pure minus_one
    close_if fd (some o) = do close_slot fd o; pure (pos 0)

    unfoldable pub sys_close : ℤ → M D ℤ
    unfolding file_close open_unref
    sys_close (negsuc n) k = pure minus_one k
    sys_close (pos fd) k = close_if fd (slot k (pos fd)) k

    abbrev clear_slot : ℕ → Option ℕ → M D (Unit {0})
    clear_slot fd none = pure tt
    clear_slot fd (some o) = close_slot fd o

    abbrev dup_to : ℕ → ℕ → Option ℕ → M D ℤ
    dup_to old new none k = pure minus_one k
    dup_to old new (some o) k =
        if old == new
        then pure (pos new) k
        else (do
          clear_slot new (get_or k.fds new none)
          open_ref (some o)
          set_slot new (some o)
          pure (pos new))
            k

    unfoldable pub sys_dup2 : ℤ → ℤ → M D ℤ
    unfolding file_close open_unref open_ref
    sys_dup2 (negsuc n) new k = pure minus_one k
    sys_dup2 (pos old) (negsuc n) k = pure minus_one k
    sys_dup2 (pos old) (pos new) k =
        if ltb new max_open_files then dup_to old new (slot k (pos old)) k else pure minus_one k

    abbrev ioctl_on : Option ℕ → ℤ → ℕ → M D ℤ
    ioctl_on none request argp = pure minus_one
    ioctl_on (some o) request argp = do
      f ← load_open o
      p ← the f.file
      file_ioctl env p request argp

    unfoldable pub sys_ioctl : ℤ → ℤ → ℕ → M D ℤ
    unfolding file_ioctl
    sys_ioctl fd request argp k = ioctl_on (slot k fd) request argp k

    abbrev enter_opened : Option ℕ → M D ℤ
    enter_opened none = pure minus_one
    enter_opened (some p) = do
      d ← load_file p
      if is_directory d.kind
          then (do leave_cwd; set_cwd (some p); pure (pos 0))
          else (do file_unref (some p); pure minus_one)

    -- `o_rdonly` is the constant of the C library.
    unfoldable pub sys_chdir : (o_rdonly : ℕ) → List ℕ → M D ℤ
    unfolding file_open file_unref
    sys_chdir o_rdonly path = do found ← file_open env path o_rdonly; enter_opened found
