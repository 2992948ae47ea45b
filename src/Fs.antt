-- ===== src/Fs.antt =====
-- src/fs_initrd.c and src/fs_dev.c: the file systems on the drives Y and Z, and what they take of
-- src/file.c to set up their files. A name is its characters, without the NUL.
pub mod Initrd
pub mod Dev
pub mod Names
pub mod Reads
mod Examples
use zosys.Common.{ℕ, Bool, true, false, ◌&&◌, ◌==◌, Option, none, some, List, [], ◌∷◌}
use zosys.File.{FileKind, plain, special, directory, File}
use zosys.File.Monad.{M, pure, ◌>>=◌, ◌>>◌, load_file, store_file}
use zosys.File.Count.{file_ref}

-- `strcmp` is 0.
pub same_name : List ℕ → List ℕ → Bool
same_name [] [] = true
same_name [] (d ∷ ds) = false
same_name (c ∷ cs) [] = false
same_name (c ∷ cs) (d ∷ ds) = c == d && same_name cs ds

module _ {D : Type 0} where
  abbrev set_kind : ℕ → FileKind → M D (Unit {0})
  set_kind p kind = do f ← load_file p; store_file p (some (record f { kind = kind }))

  pub file_init_plain : ℕ → (mp inode : ℕ) → M D (Unit {0})
  file_init_plain p mp inode = set_kind p (plain (some mp) inode)

  pub file_init_directory : ℕ → (mp inode : ℕ) → M D (Unit {0})
  file_init_directory p mp inode = set_kind p (directory (some mp) inode)

  abbrev ref_if : Option ℕ → M D (Unit {0})
  ref_if none = pure tt
  ref_if (some p) = file_ref (some p)

  -- The type and the numbers are set before the reference is taken, the backing file after it.
  pub file_init_special : ℕ → (major minor : ℕ) → Option ℕ → M D (Unit {0})
  unfolding file_ref
  file_init_special p major minor backing = do
    f ← load_file p
    store_file p (some (record f { kind = special major minor none }))
    ref_if backing
    set_kind p (special major minor backing)

  -- The end of both `get_file`: a reference for the caller, if there is a file.
  pub found : Option ℕ → M D (Option ℕ)
  unfolding file_ref
  found none = pure none
  found (some p) = do file_ref (some p); pure (some p)
