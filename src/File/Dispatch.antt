-- ===== src/File/Dispatch.antt =====
-- The calls of src/file.c on a file, by its type: `file_open`, `file_close`, `file_read`,
-- `file_write` and `file_ioctl`, with `get_file` of a mounted file system.
use zosys.Common.{
  ℕ, Option, none, some, List, [], ◌∷◌, if◌then◌else◌, ◌==◌, drop, length, Bool, true, not,
}
use zosys.Common.Int.{ℤ, pos, minus_one, is_neg}
use zosys.Common.Run.{ok}
use zosys.CircularBuffer.{CircularBuffer}
use zosys.File.{
  Env, FileKind, plain, special, directory, pipe, FileOps, Filesystem, read_end, write_end, put_at,
}
use zosys.File.Monad.{M, pure, ◌>>=◌, ◌>>◌, panics, faults, the, load_file}
use zosys.File.Count.{file_ref}
use zosys.File.Vfs.{mount_at, vfs_get_mount}
use zosys.File.Device.{
  on_dev, on_dev_read, device_open, device_close, device_read, device_write, device_ioctl,
}
use zosys.File.Pipe.{read_loop, write_loop}

-- `pathname[0] == '\0' || pathname[1] != ':'`
abbrev is_relative : List ℕ → Bool
is_relative [] = true
is_relative (c ∷ []) = true
is_relative (c ∷ d ∷ path) = not (d == b':')

module _ {D : Type 0} where
  -- `directory.mp` of the working directory; the other members of the union hold no mount point.
  abbrev mount_of_dir : FileKind → M D (Option ℕ)
  mount_of_dir (directory mp inode) = pure mp
  mount_of_dir (plain mp inode) = pure mp
  mount_of_dir (special major minor backing) = faults
  mount_of_dir (pipe end circ_buf) = faults

  -- The mount point that a path is looked up in, and the path there.
  unfoldable pub place_of : List ℕ → M D (Option ℕ × List ℕ)
  unfolding vfs_get_mount
  place_of path k =
      if is_relative path
      then elim k.cwd [
        | none ↦ panics k
        | some c ↦ (do f ← load_file c; mp ← mount_of_dir f.kind; pure (mp, path)) k
      ]
      else (do mp ← vfs_get_mount path; pure (mp, drop 2 path)) k

  -- `pipe_read` and `pipe_write`
  abbrev load_buf : ℕ → M D CircularBuffer
  load_buf p k = the (k.bufs p) k

  abbrev store_buf : ℕ → CircularBuffer → M D (Unit {0})
  store_buf p b k = ok (tt, record k { bufs = put_at k.bufs p (some b) })

  unfoldable pub pipe_read : ℕ → ℕ → M D (ℤ × List ℕ)
  unfolding read_loop
  pipe_read p count = do
    b ← load_buf p
    let r = read_loop count b
    store_buf p r.1
    pure (pos (length r.0), r.0)

  unfoldable pub pipe_write : ℕ → List ℕ → M D ℤ
  unfolding write_loop
  pipe_write p buf = do b ← load_buf p; let r = write_loop buf b; store_buf p r.1; pure (pos r.0)

  module _ (env : Env D) where
    -- `mp->fs`, a fault if nothing is mounted there.
    abbrev pub fs_of : Option ℕ → M D (Filesystem D)
    fs_of none k = faults k
    fs_of (some i) k = elim (mount_at k i).fs [
      | none ↦ faults k
      | some n ↦ pure (env.filesystem n) k
    ]

    -- `get_file`: the search, and a reference to what it finds.
    unfoldable pub get_file : Option ℕ → List ℕ → M D (Option ℕ)
    unfolding file_ref
    get_file none path = pure none
    get_file (some i) path = fs_of (some i) >>= λ fs k. elim (fs.find i path k.dev) [
      | none ↦ pure none k
      | some p ↦ (file_ref (some p) >> pure (some p)) k
    ]

    abbrev op_or :
        {A : Type 0} → M D ℤ → Option (FileOps D) → (FileOps D → Option A) → (A → M D ℤ) → M D ℤ
    op_or otherwise none member call = otherwise
    op_or otherwise (some ops) member call = elim (member ops) [
      | none ↦ otherwise
      | some f ↦ call f
    ]

    abbrev fs_open : Option ℕ → ℕ → ℕ → M D ℤ
    fs_open mp p flags = do
      fs ← fs_of mp
      op_or (pure (pos 0)) fs.ops (λ ops. ops.open_op) (λ f. on_dev env (f p flags))

    -- The `switch` of `file_open`.
    abbrev open_by_type : Option ℕ → FileKind → ℕ → ℕ → M D ℤ
    open_by_type mp (plain _ _) p flags = fs_open mp p flags
    open_by_type mp (special major minor backing) p flags = device_open env major p flags
    open_by_type mp (directory _ _) p flags = fs_open mp p flags
    open_by_type mp (pipe end circ_buf) p flags = panics

    unfoldable pub file_open : List ℕ → ℕ → M D (Option ℕ)
    unfolding place_of get_file device_open
    file_open path flags = do
      (mp, rest) ← place_of path
      found ← get_file mp rest
      elim found [
        | none ↦ pure none
        | some p ↦ (do
          f ← load_file p
          result ← open_by_type mp f.kind p flags
          pure (if is_neg result then none else some p))
      ]

    abbrev close_by_type : FileKind → ℕ → M D ℤ
    close_by_type (plain mp inode) p = do
      fs ← fs_of mp
      op_or (pure (pos 0)) fs.ops (λ ops. ops.close_op) (λ f. on_dev env (f p))
    close_by_type (special major minor backing) p = device_close env major p
    close_by_type (directory mp inode) p = pure minus_one
    close_by_type (pipe end circ_buf) p = pure (pos 0)

    unfoldable pub file_close : ℕ → M D ℤ
    unfolding device_close
    file_close p = do f ← load_file p; close_by_type f.kind p

    abbrev read_by_type : FileKind → ℕ → ℕ → ℕ → M D (ℤ × List ℕ)
    read_by_type (plain mp inode) p count at = do
      fs ← fs_of mp
      elim fs.ops [
        | none ↦ pure (minus_one, [])
        | some ops ↦ elim ops.read_op [
          | none ↦ pure (minus_one, [])
          | some f ↦ on_dev_read env (f p count at)
        ]
      ]
    read_by_type (special major minor backing) p count at = device_read env major p count at
    read_by_type (directory mp inode) p count at = pure (minus_one, [])
    read_by_type (pipe read_end b) p count at = pipe_read b count
    read_by_type (pipe write_end b) p count at = pure (minus_one, [])

    unfoldable pub file_read : ℕ → ℕ → ℕ → M D (ℤ × List ℕ)
    unfolding device_read pipe_read
    file_read p count at = do f ← load_file p; read_by_type f.kind p count at

    abbrev write_by_type : FileKind → ℕ → List ℕ → ℕ → M D ℤ
    write_by_type (plain mp inode) p buf at = do
      fs ← fs_of mp
      op_or (pure (pos 0)) fs.ops (λ ops. ops.write_op) (λ f. on_dev env (f p buf at))
    write_by_type (special major minor backing) p buf at = device_write env major p buf at
    write_by_type (directory mp inode) p buf at = pure minus_one
    write_by_type (pipe write_end b) p buf at = pipe_write b buf
    write_by_type (pipe read_end b) p buf at = pure minus_one

    unfoldable pub file_write : ℕ → List ℕ → ℕ → M D ℤ
    unfolding device_write pipe_write
    file_write p buf at = do f ← load_file p; write_by_type f.kind p buf at

    abbrev ioctl_by_type : FileKind → ℕ → ℤ → ℕ → M D ℤ
    ioctl_by_type (plain mp inode) p request argp = pure minus_one
    ioctl_by_type (special major minor backing) p request argp =
        device_ioctl env major p request argp
    ioctl_by_type (directory mp inode) p request argp = pure minus_one
    ioctl_by_type (pipe end b) p request argp = panics

    unfoldable pub file_ioctl : ℕ → ℤ → ℕ → M D ℤ
    unfolding device_ioctl
    file_ioctl p request argp = do f ← load_file p; ioctl_by_type f.kind p request argp
