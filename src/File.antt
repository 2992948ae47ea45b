-- ===== src/File.antt =====
-- src/file.c, include/file.h, src/vfs.c and src/device.c: files and open files with their reference
-- counts, the mount table, the driver table, and the calls of a process on its descriptors.
-- Objects are reached by their addresses; an address that holds nothing is NULL-like or dangling.
pub mod Monad
pub mod Count
pub mod Vfs
pub mod Device
pub mod Pipe
pub mod Dispatch
pub mod Calls
pub mod PipeCall
pub mod Refs
pub mod Release
pub mod Close
pub mod Dup
pub mod Tables
pub mod Transfer
pub mod PipeWrite
pub mod ReadDir
mod Examples
use zosys.Common.{ℕ, Option, none, some, List, Bool, ◌==◌, if◌then◌else◌}
use zosys.Common.Int.{ℤ}
use zosys.CircularBuffer.{CircularBuffer}

-- `enum pipe_end`
pub data PipeEnd : Type 0 where
  read_end write_end : PipeEnd

-- `enum file_type` with the union of `struct file`. A mount point is an index of `mountpoints`.
pub data FileKind : Type 0 where
  plain : (mp : Option ℕ) (inode : ℕ) → FileKind
  special : (major minor : ℕ) (backing : Option ℕ) → FileKind
  directory : (mp : Option ℕ) (inode : ℕ) → FileKind
  pipe : PipeEnd → (circ_buf : ℕ) → FileKind

pub record File : Type 0 where
  pub kind : FileKind
  pub ref_count : ℕ

pub record OpenFile : Type 0 where
  pub file : Option ℕ
  pub ref_count : ℕ
  pub pos : ℕ

-- `struct mountpoint`; a file system is named by its place in `Env`.
pub record Mountpoint : Type 0 where
  pub fs : Option ℕ
  pub backing : Option ℕ

abbrev pub max_open_files : ℕ
max_open_files = 8

-- The heap objects, the tables, and what `current_proc` holds. `dev` is all that drivers and file
-- systems keep for themselves.
pub record Kernel (D : Type 0) : Type 0 where
  pub files : ℕ → Option File
  pub opens : ℕ → Option OpenFile
  pub bufs : ℕ → Option CircularBuffer
  pub mounts : List Mountpoint
  pub drivers : List (Option ℕ)
  pub fds : List (Option ℕ)
  pub cwd : Option ℕ
  pub dev : D

-- `struct file_ops`: a member may be NULL. `read` gives the result and the bytes put in the
-- buffer, `readdirent` the result and the inode and name put in the entry.
pub record FileOps (D : Type 0) : Type 0 where
  pub open_op : Option (ℕ → ℕ → D → ℤ × D)
  pub close_op : Option (ℕ → D → ℤ × D)
  pub read_op : Option (ℕ → ℕ → ℕ → D → ℤ × List ℕ × D)
  pub write_op : Option (ℕ → List ℕ → ℕ → D → ℤ × D)
  pub ioctl_op : Option (ℕ → ℤ → ℕ → D → ℤ × D)
  pub readdirent_op : Option (ℕ → ℕ → D → ℤ × Option (ℕ × List ℕ) × D)

-- `struct filesystem`: `find` is the search in `get_file`, before it takes a reference.
pub record Filesystem (D : Type 0) : Type 0 where
  pub find : ℕ → List ℕ → D → Option ℕ
  pub ops : Option (FileOps D)

-- What the code calls and does not fix: the registered operations, and `malloc`, which gives an
-- address and what the memory there held before.
pub record Env (D : Type 0) : Type 0 where
  pub filesystem : ℕ → Filesystem D
  pub driver : ℕ → FileOps D
  pub malloc_file : Kernel D → Option ℕ
  pub malloc_open : Kernel D → Option (ℕ × OpenFile)
  pub malloc_buf : Kernel D → Option ℕ
  pub malloc_bytes : Kernel D → Option (List ℕ)

abbrev pub put_at {ℓ} : {A : Type ℓ} → (ℕ → A) → ℕ → A → ℕ → A
put_at f p v q = if p == q then v else f q
