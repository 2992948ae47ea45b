-- ===== src/File/Vfs.antt =====
-- src/vfs.c and include/vfs.h: the table of mounted drives, A to Z.
use zosys.Common.{
  ℕ, ◌-◌, Bool, ◌&&◌, ◌||◌, not, Option, none, some, List, [], ◌∷◌, get_or, set, if◌then◌else◌, leb,
  ◌==◌,
}
use zosys.File.{Kernel, Mountpoint}
use zosys.File.Monad.{M, pure, ◌>>◌}
use zosys.File.Count.{file_ref, file_unref}

-- `isalpha`, `islower` and `toupper` of the C locale.
abbrev pub is_lower : ℕ → Bool
is_lower c = leb b'a' c && leb c b'z'

abbrev pub is_upper : ℕ → Bool
is_upper c = leb b'A' c && leb c b'Z'

abbrev pub is_alpha : ℕ → Bool
is_alpha c = is_upper c || is_lower c

-- The slot of a drive letter.
unfoldable pub fs_num : ℕ → ℕ
fs_num c = if is_lower c then c - b'a' else c - b'A'

abbrev pub unmounted : Mountpoint
unmounted = record { fs = none; backing = none }

module _ {D : Type 0} where
  abbrev pub mount_at : Kernel D → ℕ → Mountpoint
  mount_at k i = get_or k.mounts i unmounted

  abbrev set_mount : ℕ → Mountpoint → M D (Unit {0})
  set_mount i m = λ k. pure tt (record k { mounts = set k.mounts i m })

  abbrev ref_if : Option ℕ → M D (Unit {0})
  ref_if none = pure tt
  ref_if (some p) = file_ref (some p)

  abbrev unref_if : Option ℕ → M D (Unit {0})
  unref_if none = pure tt
  unref_if (some p) = file_unref (some p)

  unfoldable pub vfs_mount : ℕ → Option ℕ → ℕ → M D (Option ℕ)
  unfolding file_ref fs_num
  vfs_mount fs backing drive k =
      if not (is_alpha drive) then pure none k else elim (mount_at k (fs_num drive)).fs [
        | some _ ↦ pure none k
        | none ↦
            (do
              ref_if backing
              set_mount (fs_num drive) (record { fs = some fs; backing = backing })
              pure (some (fs_num drive)))
              k
      ]

  unfoldable pub vfs_unmount : ℕ → M D (Unit {0})
  unfolding file_unref fs_num
  vfs_unmount drive k =
      if not (is_alpha drive)
      then pure tt k
      else (do unref_if (mount_at k (fs_num drive)).backing; set_mount (fs_num drive) unmounted) k

  -- A path is its characters, without the NUL.
  unfoldable pub vfs_get_mount : List ℕ → M D (Option ℕ)
  unfolding fs_num
  vfs_get_mount [] k = pure none k
  vfs_get_mount (c ∷ []) k = pure none k
  vfs_get_mount (c ∷ d ∷ path) k =
      if not (is_alpha c) || not (d == b':') then pure none k else elim (mount_at k (fs_num c)).fs [
        | none ↦ pure none k
        | some _ ↦ pure (some (fs_num c)) k
      ]
