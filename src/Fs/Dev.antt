-- ===== src/Fs/Dev.antt =====
-- src/fs_dev.c: the files of the devices.
use zosys.Common.{ℕ, zero, suc, Bool, false, ◌==◌, Option, none, some, List, [], ◌∷◌, if◌then◌else◌}
use zosys.Common.Int.{ℤ, pos, minus_one}
use zosys.File.{Env}
use zosys.File.Monad.{M, pure, ◌>>=◌, ◌>>◌}
use zosys.File.Count.{file_new}
use zosys.File.Vfs.{vfs_mount}
use zosys.Fs.{same_name, file_init_directory, file_init_special, found}

-- `fs_dev_root_file` and the others.
pub record DevFiles : Type 0 where
  pub root_file : Option ℕ
  pub asci0_file : Option ℕ
  pub asci1_file : Option ℕ
  pub sermem_file : Option ℕ
  pub sd0_file : Option ℕ
  pub flash0_file : Option ℕ

abbrev pub asci0 : List ℕ
asci0 = b'a' ∷ b's' ∷ b'c' ∷ b'i' ∷ b'0' ∷ []

abbrev pub asci1 : List ℕ
asci1 = b'a' ∷ b's' ∷ b'c' ∷ b'i' ∷ b'1' ∷ []

abbrev pub sermem0 : List ℕ
sermem0 = b's' ∷ b'e' ∷ b'r' ∷ b'm' ∷ b'e' ∷ b'm' ∷ b'0' ∷ []

abbrev pub sd0 : List ℕ
sd0 = b's' ∷ b'd' ∷ b'0' ∷ []

abbrev pub flash0 : List ℕ
flash0 = b'f' ∷ b'l' ∷ b'a' ∷ b's' ∷ b'h' ∷ b'0' ∷ []

module _ {D : Type 0} (env : Env D) where
  abbrev init_if : (ℕ → M D (Unit {0})) → Option ℕ → M D (Unit {0})
  init_if init none = pure tt
  init_if init (some p) = init p

  -- `file_file_new`, and `file_init_special` if there is a file.
  abbrev new_special : (major minor : ℕ) → Option ℕ → M D (Option ℕ)
  unfolding file_new file_init_special
  new_special major minor backing = do
    p ← file_new env
    init_if (λ q. file_init_special q major minor backing) p
    pure p

  abbrev init_files : ℕ → M D DevFiles
  unfolding file_new file_init_directory new_special
  init_files mp = do
    root ← file_new env
    init_if (λ q. file_init_directory q mp 0) root
    a ← new_special 1 0 none
    b ← new_special 1 1 none
    s ← new_special 2 0 a
    d ← new_special 3 0 none
    f ← new_special 4 0 none
    pure (record {
      root_file = root;
      asci0_file = a;
      asci1_file = b;
      sermem_file = s;
      sd0_file = d;
      flash0_file = f;
    })

  -- The result, and the files after it. `fs` is the place of `fs_dev`.
  unfoldable fs_dev_init : ℕ → DevFiles → M D (ℤ × DevFiles)
  unfolding vfs_mount init_files
  fs_dev_init fs files = do
    mp ← vfs_mount fs none b'Z'
    elim mp [
      | none ↦ pure (minus_one, files)
      | some m ↦ (do files' ← init_files m; pure (pos 0, files'))
    ]

-- The choice of `fs_dev_get_file`.
unfoldable pub find_file : List ℕ → DevFiles → Option ℕ
unfolding same_name
find_file pathname files =
    if same_name pathname []
    then files.root_file
    else if same_name pathname asci0
    then files.asci0_file
    else if same_name pathname asci1
    then files.asci1_file
    else if same_name pathname sermem0
    then files.sermem_file
    else if same_name pathname sd0
    then files.sd0_file
    else if same_name pathname flash0
    then files.flash0_file
    else none

unfoldable pub fs_dev_get_file : {D : Type 0} → DevFiles → List ℕ → M D (Option ℕ)
unfolding find_file found
fs_dev_get_file files pathname = found (find_file pathname files)

abbrev same_file : Option ℕ → ℕ → Bool
same_file none p = false
same_file (some q) p = p == q

abbrev entry_of : ℕ → ℤ × Option (ℕ × List ℕ)
entry_of zero = (pos 1, some (1, asci0))
entry_of (suc zero) = (pos 1, some (2, asci1))
entry_of (suc (suc zero)) = (pos 1, some (3, sermem0))
entry_of (suc (suc (suc zero))) = (pos 1, some (4, sd0))
entry_of (suc (suc (suc (suc zero)))) = (pos 0, some (5, flash0))
entry_of (suc (suc (suc (suc (suc n))))) = (minus_one, none)

-- The result, and the inode and the name put in `dirp`.
unfoldable pub fs_dev_readdirent : DevFiles → (file_ptr count : ℕ) → ℤ × Option (ℕ × List ℕ)
fs_dev_readdirent files file_ptr count =
    if same_file files.root_file file_ptr then entry_of count else (minus_one, none)
