-- ===== src/File/ReadDir.antt =====
-- `file_readdirent` and `sys_readdirent` of src/file.c, and that a system call on a directory is the
-- call of its file system. An entry is its inode and its name.
use zosys.Common.{ℕ, Bool, ◌+◌, ◌≤◌, ◌≡◌, ◌||◌, Option, none, some, List, if◌then◌else◌, ltb, arith}
use zosys.Common.Int.{ℤ, minus_one}
use zosys.Common.Run.{ok}
use zosys.File.{Kernel, Env, File, FileKind, plain, special, directory, pipe, OpenFile, FileOps}
use zosys.File.Calls.{slot}
use zosys.File.Dispatch.{fs_of}
use zosys.File.Monad.{M, pure, ◌>>=◌, panics, the, load_file, load_open}
use zosys.File.Vfs.{mount_at}

-- `sizeof(struct dirent)`: an inode number of four bytes, and the name.
abbrev pub dirent_size : ℕ
dirent_size = 4 + 256

module _ {D : Type 0} (env : Env D) where
  abbrev run_op : (D → ℤ × Option (ℕ × List ℕ) × D) → M D (ℤ × Option (ℕ × List ℕ))
  run_op f k = let (r, e, d) = f k.dev in ok ((r, e), record k { dev = d })

  abbrev pub readdirent_by_type : FileKind → (p count : ℕ) → M D (ℤ × Option (ℕ × List ℕ))
  readdirent_by_type (directory mp inode) p count = do
    fs ← fs_of env mp
    elim fs.ops [
      | none ↦ pure (minus_one, none)
      | some ops ↦ elim ops.readdirent_op [
        | none ↦ pure (minus_one, none)
        | some f ↦ run_op (f p count)
      ]
    ]
  readdirent_by_type (plain mp inode) p count = pure (minus_one, none)
  readdirent_by_type (special major minor backing) p count = pure (minus_one, none)
  readdirent_by_type (pipe end circ_buf) p count = panics

  unfoldable pub file_readdirent : (p count : ℕ) → M D (ℤ × Option (ℕ × List ℕ))
  file_readdirent p count = do f ← load_file p; readdirent_by_type f.kind p count

  abbrev pub dirent_outside : ℕ → Bool
  dirent_outside dirp = ltb dirp 0x1000 || ltb 0xf000 (dirp + dirent_size)

  abbrev of_open : ℕ → OpenFile → M D (ℤ × Option (ℕ × List ℕ))
  unfolding file_readdirent
  of_open count f = do p ← the f.file; file_readdirent p count

  -- The result, and whether an entry is copied to the process: it is, whatever the result, and
  -- then what the file system put in the buffer, or else what the buffer held.
  unfoldable pub sys_readdirent : ℤ → (dirp count : ℕ) → M D (ℤ × Option (Option (ℕ × List ℕ)))
  unfolding file_readdirent
  sys_readdirent fd dirp count k = elim (slot k fd) [
    | none ↦ pure (minus_one, none) k
    | some o ↦
        if dirent_outside dirp
        then pure (minus_one, none) k
        else (do f ← load_open o; r ← of_open count f; pure (r.0, some r.1)) k
  ]

  -- A descriptor that leads to a directory of a mounted file system which lists directories:
  -- `sys_readdirent`, with room for an entry in the memory of the process, returns what the file
  -- system returns, and copies the entry that it gives.
  sys_readdirent_lem :
      (k : Kernel D) (fd : ℤ) (o p mp inode n dirp count : ℕ) (f : OpenFile) (g : File)
      (ops : FileOps D) (op : ℕ → ℕ → D → ℤ × Option (ℕ × List ℕ) × D)
      → slot k fd ≡ some o
      → k.opens o ≡ some f
      → f.file ≡ some p
      → k.files p ≡ some g
      → g.kind ≡ directory (some mp) inode
      → (mount_at k mp).fs ≡ some n
      → (env.filesystem n).ops ≡ some ops
      → ops.readdirent_op ≡ some op
      → 0x1000 ≤ dirp
      → dirp + dirent_size ≤ 0xf000
      → let (r, e, d) = op p count k.dev in
        sys_readdirent fd dirp count k ≡ ok ((r, some e), record k { dev = d })
  unfolding sys_readdirent
  sys_readdirent_lem k fd o p mp inode n dirp count f g ops op at opened on live kind mounted has
        member low high =
      ground (arith, at, opened, on, live, kind, mounted, has, member)
