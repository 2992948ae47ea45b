-- ===== src/File/Tables.antt =====
-- The tables of src/file.c, src/vfs.c and src/device.c: free descriptors, mounted drives and major
-- numbers.
use zosys.Common.{
  ℕ, zero, suc, ◌+◌, ◌≤◌, ◌<◌, ◌≡◌, ◌≢◌, refl, ap, Option, none, some, List, ◌∷◌, arith, ◌⊎◌, inl,
  inr, true, Bool-cases, ◌==◌, length, get_or, set, get_or-set_self,
}
use zosys.Common.Int.{pos, minus_one}
use zosys.Common.Run.{ok}
use zosys.File.{Kernel, Mountpoint}
use zosys.File.Vfs.{fs_num, is_alpha, mount_at, unmounted, vfs_mount, vfs_get_mount}
use zosys.File.Device.{find_major, register_driver}
use zosys.File.Calls.{find_fd}

option_cases : {A : Type 0} (x : Option A) → (x ≡ none) ⊎ ((a : A) × (x ≡ some a))
option_cases none = inl refl
option_cases (some a) = inr (a, refl)

-- Nothing is free from `a` up to `b`.
abbrev pub TakenUpTo : {A : Type 0} → List (Option A) → ℕ → ℕ → Type 0
TakenUpTo xs a b = (i : ℕ) → a ≤ i → i < b → get_or xs i none ≢ none

-- The lowest free place from `from` on, or that there is none.
unfoldable pub FirstFree : List (Option ℕ) → ℕ → ℕ → Option ℕ → Type 0
FirstFree xs from to none = TakenUpTo xs from to
FirstFree xs from to (some i) =
    (from ≤ i) × (i < to) × (get_or xs i none ≡ none) × TakenUpTo xs from i

taken_from :
    (xs : List (Option ℕ)) (from to q : ℕ)
    → get_or xs from none ≡ some q
    → TakenUpTo xs (from + 1) to
    → TakenUpTo xs from to
taken_from xs from to q e h i p s = elim (Bool-cases (from == i)) [
  | inl here ↦
      let at : from ≡ i = ground arith in
      λ no. absurd (ground (arith, ap (λ j. get_or xs j none) at))
  | inr there ↦ h i (ground arith) s
]

FirstFree-step :
    (xs : List (Option ℕ)) (from to q : ℕ) (r : Option ℕ)
    → get_or xs from none ≡ some q
    → FirstFree xs (from + 1) to r
    → FirstFree xs from to r
unfolding FirstFree
FirstFree-step xs from to q none e h = taken_from xs from to q e h
FirstFree-step xs from to q (some j) e (le, lt, free, h) =
    (omega arith, lt, free, taken_from xs from j q e h)

-- Without a descriptor to pass over, the loop for a free descriptor gives the lowest one that is
-- free from where it starts, and none only if all are taken.
find_fd_lem :
    (fds : List (Option ℕ)) (left fd to : ℕ)
    → fd + left ≡ to
    → FirstFree fds fd to (find_fd fds none left fd)
unfolding find_fd FirstFree
find_fd_lem fds zero fd to e = λ i p s. absurd (omega arith)
find_fd_lem fds (suc left) fd to e =
    let rest = find_fd_lem fds left (fd + 1) to (omega arith) in
    elim (get_or fds fd none)
        as (λ x.
          get_or fds fd none ≡ x
          → FirstFree fds fd to
              (elim x [ some _ ↦ find_fd fds none left (fd + 1) | none ↦ some fd ])) [
                | none ↦ λ free. (omega arith, omega arith, free, λ i p s. absurd (omega arith))
                | some q ↦
                    λ taken. FirstFree-step fds fd to q (find_fd fds none left (fd + 1)) taken rest
              ]
      refl

-- The loop for a free major number is that for a free place of the table.
find_major_lem :
    (drivers : List (Option ℕ)) (left n to : ℕ)
    → n + left ≡ to
    → ((find_major drivers left (n + 1) ≡ none) × TakenUpTo drivers n to)
      ⊎ ((m : ℕ) × (find_major drivers left (n + 1) ≡ some (m + 1))
          × FirstFree drivers n to (some m))
unfolding find_major FirstFree
find_major_lem drivers zero n to e = inl (refl, λ i p s. absurd (omega arith))
find_major_lem drivers (suc left) n to e = elim (option_cases (get_or drivers n none)) [
  | inl free ↦
      inr (n, ground arith, (omega arith, omega arith, free, λ i p s. absurd (omega arith)))
  | inr (q, taken) ↦ elim (find_major_lem drivers left (n + 1) to (omega arith)) [
    | inl (no_one, all) ↦ inl (ground arith, taken_from drivers n to q taken all)
    | inr (m, found, (le, lt, free, h)) ↦
        inr (m, ground arith, (omega arith, lt, free, taken_from drivers n m q taken h))
  ]
]

-- A driver without a number of its own gets the lowest major number, counted from 1, whose place
-- is free, and takes that place alone; it is refused only if all eight are taken.
register_driver_lem :
    (drv : ℕ) (drivers : List (Option ℕ))
    → ((register_driver (pos 0) drv drivers ≡ (minus_one, drivers)) × TakenUpTo drivers 0 8)
      ⊎ ((m : ℕ) × (register_driver (pos 0) drv drivers ≡ (pos (m + 1), set drivers m (some drv)))
          × FirstFree drivers 0 8 (some m))
unfolding register_driver
register_driver_lem drv drivers = elim (find_major_lem drivers 8 0 8 refl) [
  | inl (no_one, all) ↦ inl (ground arith, all)
  | inr (m, found, free) ↦ inr (m, ground arith, free)
]

module _ {D : Type 0} where
  -- A file system without a backing file that is mounted on a free drive is found by the drive's
  -- letter in either case, and the mount point found holds it.
  vfs_get_mount-vfs_mount :
      (k : Kernel D) (fs drive letter : ℕ) (path : List ℕ)
      → length k.mounts ≡ 26
      → is_alpha drive ≡ true
      → is_alpha letter ≡ true
      → fs_num letter ≡ fs_num drive
      → (mount_at k (fs_num drive)).fs ≡ none
      → (k' : Kernel D) × (vfs_mount fs none drive k ≡ ok (some (fs_num drive), k'))
        × (vfs_get_mount (letter ∷ b':' ∷ path) k' ≡ ok (some (fs_num drive), k'))
        × ((mount_at k' (fs_num drive)).fs ≡ some fs)
  unfolding vfs_mount vfs_get_mount fs_num
  vfs_get_mount-vfs_mount k fs drive letter path len a b same free =
      let at = fs_num drive in
      let m : Mountpoint = record { fs = some fs; backing = none } in
      let bound : at < length k.mounts = ground arith in
      let there : get_or (set k.mounts at m) at unmounted ≡ m =
        get_or-set_self k.mounts at m unmounted bound in
      (
        record k { mounts = set k.mounts at m },
        ground arith,
        ground (arith, there),
        ap (λ x. x.fs) there,
      )
