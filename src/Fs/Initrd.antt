-- ===== src/Fs/Initrd.antt =====
-- src/fs_initrd.c: the files of the image that the kernel is linked with. Their bytes, which the build
-- makes, are parameters. A file is smaller than 2 ^ 15, as the address space is.
use zosys.Common.{
  ℕ, zero, suc, ◌+◌, ◌-◌, ◌%◌, ◌^◌, Bool, false, ◌&&◌, Option, none, some, List, [], ◌∷◌,
  if◌then◌else◌, ltb, leb, ◌==◌, length, take, drop,
}
use zosys.Common.Int.{ℤ, pos, minus_one}
use zosys.Common.Run.{Run, ok, fault}
use zosys.File.{Env}
use zosys.File.Monad.{M, pure, ◌>>=◌, ◌>>◌}
use zosys.File.Count.{file_new}
use zosys.File.Vfs.{vfs_mount}
use zosys.Fs.{same_name, file_init_plain, file_init_directory, found}

-- `struct initrd_entry`: `content` is what lies from `start` to `end`, `none` if these are NULL.
pub record InitrdEntry : Type 0 where
  pub name : List ℕ
  pub file_ptr : Option ℕ
  pub content : Option (List ℕ)

abbrev file_entry : List ℕ → List ℕ → InitrdEntry
file_entry name content = record { name = name; file_ptr = none; content = some content }

-- `entries` before the start.
abbrev pub entries : (init sh ls dd ioctl : List ℕ) → List InitrdEntry
entries init sh ls dd ioctl =
    record { name = []; file_ptr = none; content = none }
    ∷ file_entry (b'i' ∷ b'n' ∷ b'i' ∷ b't' ∷ []) init
    ∷ file_entry (b's' ∷ b'h' ∷ []) sh
    ∷ file_entry (b'l' ∷ b's' ∷ []) ls
    ∷ file_entry (b'd' ∷ b'd' ∷ []) dd
    ∷ file_entry (b'i' ∷ b'o' ∷ b'c' ∷ b't' ∷ b'l' ∷ []) ioctl
    ∷ []

abbrev pub entry_at : List InitrdEntry → ℕ → Option InitrdEntry
entry_at [] i = none
entry_at (e ∷ es) zero = some e
entry_at (e ∷ es) (suc i) = entry_at es i

module _ {D : Type 0} (env : Env D) where
  abbrev init_if : (ℕ → M D (Unit {0})) → Option ℕ → M D (Unit {0})
  init_if init none = pure tt
  init_if init (some p) = init p

  abbrev new_file : (ℕ → M D (Unit {0})) → InitrdEntry → M D InitrdEntry
  unfolding file_new
  new_file init e = do p ← file_new env; init_if init p; pure (record e { file_ptr = p })

  -- The loop over the entries from `i` on.
  pub init_entries : (mp i : ℕ) → List InitrdEntry → M D (List InitrdEntry)
  unfolding file_init_plain new_file
  init_entries mp i [] = pure []
  init_entries mp i (e ∷ es) = do
    e' ← new_file (λ p. file_init_plain p mp i) e
    es' ← init_entries mp (i + 1) es
    pure (e' ∷ es')

  pub init_table : ℕ → List InitrdEntry → M D (List InitrdEntry)
  unfolding file_init_directory init_entries new_file
  init_table mp [] = pure []
  init_table mp (e ∷ es) = do
    e' ← new_file (λ p. file_init_directory p mp 0) e
    es' ← init_entries mp 1 es
    pure (e' ∷ es')

  -- The result, and the entries after it. `fs` is the place of `fs_initrd`.
  unfoldable fs_initrd_init : ℕ → List InitrdEntry → M D (ℤ × List InitrdEntry)
  unfolding init_table vfs_mount
  fs_initrd_init fs es = do
    mp ← vfs_mount fs none b'Y'
    elim mp [ none ↦ pure (minus_one, es) | some m ↦ (do es' ← init_table m es; pure (pos 0, es')) ]

-- The search of `fs_initrd_get_file`: the first entry of that name.
unfoldable pub find_entry : List ℕ → List InitrdEntry → Option ℕ
unfolding same_name
find_entry pathname [] = none
find_entry pathname (e ∷ es) =
    if same_name pathname e.name then e.file_ptr else find_entry pathname es

unfoldable pub fs_initrd_get_file : {D : Type 0} → List InitrdEntry → List ℕ → M D (Option ℕ)
unfolding find_entry found
fs_initrd_get_file es pathname = found (find_entry pathname es)

abbrev pub copy_out : Option (List ℕ) → (count at : ℕ) → ℤ × List ℕ
copy_out none count at = (minus_one, [])
copy_out (some bytes) count at =
    if leb (length bytes) at
    then (minus_one, [])
    else let n = if ltb (length bytes) ((at + count) % 2 ^ 32) then length bytes - at else count in
      (pos n, take n (drop at bytes))

-- The result, and the bytes put in the buffer. An inode of no entry is read beyond the table.
unfoldable pub fs_initrd_read : List InitrdEntry → (inode count at : ℕ) → Run (ℤ × List ℕ)
fs_initrd_read es inode count at = elim (entry_at es inode) [
  | none ↦ fault
  | some e ↦ ok (copy_out e.content count at)
]

abbrev pub root : List InitrdEntry → Option ℕ
root [] = none
root (e ∷ es) = e.file_ptr

abbrev pub same_file : Option ℕ → ℕ → Bool
same_file none p = false
same_file (some q) p = p == q

-- The entry of that inode, if it is one of a file.
abbrev pub list_entry : List InitrdEntry → ℕ → ℤ × Option (ℕ × List ℕ)
list_entry es inode = elim (entry_at es inode) [
  | none ↦ (minus_one, none)
  | some e ↦
      if ltb 0 inode && ltb inode (length es)
      then (if inode == length es - 1 then pos 0 else pos 1, some (inode, e.name))
      else (minus_one, none)
]

-- The result, and the inode and the name put in `dirp`.
unfoldable pub fs_initrd_readdirent :
    List InitrdEntry → (file_ptr count : ℕ) → ℤ × Option (ℕ × List ℕ)
fs_initrd_readdirent es file_ptr count =
    if same_file (root es) file_ptr then list_entry es ((count + 1) % 2 ^ 16) else (minus_one, none)
