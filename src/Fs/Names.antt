-- ===== src/Fs/Names.antt =====
-- What a directory lists can be opened: `readdirent` against `get_file` of src/fs_initrd.c and
-- src/fs_dev.c.
use zosys.Common.{
  ℕ, zero, suc, ◌+◌, ◌-◌, ◌%◌, ◌^◌, ◌≤◌, ◌<◌, ◌≡◌, ◌⊎◌, inl, inr, refl, ap, ◌∙◌, arith, true, false,
  ◌&&◌, Option, none, some, List, [], ◌∷◌, if◌then◌else◌, ltb, ◌==◌, length, Bool-cases,
}
use zosys.Common.Int.{pos, minus_one}
use mathlib.Core.Path.{subst}
use mathlib.Core.Option.{some-injective}
use zosys.File.{Kernel}
use zosys.Fs.{same_name, found}
use zosys.Fs.Initrd.{
  InitrdEntry, entry_at, list_entry, find_entry, root, fs_initrd_get_file, fs_initrd_readdirent,
}
use zosys.Fs.Dev.{
  DevFiles, asci0, asci1, sermem0, sd0, flash0, find_file, fs_dev_get_file, fs_dev_readdirent,
}

-- The file of each device, in the order in which they are listed.
abbrev pub device_file : DevFiles → ℕ → Option ℕ
device_file files zero = files.asci0_file
device_file files (suc zero) = files.asci1_file
device_file files (suc (suc zero)) = files.sermem_file
device_file files (suc (suc (suc zero))) = files.sd0_file
device_file files (suc (suc (suc (suc n)))) = files.flash0_file

same : (p : ℕ) → (p == p) ≡ true
same p = ground arith

same_name_self : (n : List ℕ) → same_name n n ≡ true
unfolding same_name
same_name_self [] = refl
same_name_self (c ∷ cs) = rw (same_name_self cs) (ground arith)

-- No entry of the list has that name.
abbrev pub Fresh : List ℕ → List InitrdEntry → Type 0
Fresh name [] = Unit {0}
Fresh name (f ∷ es) = (same_name f.name name ≡ false) × Fresh name es

-- The names differ.
abbrev pub Distinct : List InitrdEntry → Type 0
Distinct [] = Unit {0}
Distinct (e ∷ es) = Fresh e.name es × Distinct es

Fresh-at :
    (name : List ℕ) (es : List InitrdEntry) (i : ℕ) (e : InitrdEntry)
    → Fresh name es
    → entry_at es i ≡ some e
    → same_name e.name name ≡ false
Fresh-at name [] i e h here = absurd (ground (arith, here))
Fresh-at name (f ∷ es) zero e h here = rw (← some-injective f e here) h.0
Fresh-at name (f ∷ es) (suc i) e h here = Fresh-at name es i e h.1 here

find_entry_lem :
    (es : List InitrdEntry) (i : ℕ) (e : InitrdEntry)
    → Distinct es
    → entry_at es i ≡ some e
    → find_entry e.name es ≡ e.file_ptr
unfolding find_entry
find_entry_lem [] i e h here = absurd (ground (arith, here))
find_entry_lem (f ∷ es) zero e h here =
    subst (λ g. find_entry g.name (f ∷ es) ≡ g.file_ptr) (some-injective f e here)
      (rw (same_name_self f.name) refl)
find_entry_lem (f ∷ es) (suc i) e h here =
    rw (Fresh-at f.name es i e h.0 here) (find_entry_lem es i e h.1 here)

entry_at-some :
    (es : List InitrdEntry) (i : ℕ) → i < length es → (e : InitrdEntry) × (entry_at es i ≡ some e)
entry_at-some [] i h = absurd (omega arith)
entry_at-some (e ∷ es) zero h = (e, refl)
entry_at-some (e ∷ es) (suc i) h = entry_at-some es i (omega arith)

entry_at-none : (es : List InitrdEntry) (i : ℕ) → length es ≤ i → entry_at es i ≡ none
entry_at-none [] i h = refl
entry_at-none (e ∷ es) zero h = absurd (omega arith)
entry_at-none (e ∷ es) (suc i) h = entry_at-none es i (omega arith)

-- Where the names differ, the root has a file and the table has fewer than 2 ^ 16 entries: the
-- calls 0, 1, … of `fs_initrd_readdirent` on the root list the other entries in their order, the
-- last one with the result 0 and those before it with 1, and every call after that, up to 2 ^ 16 -
-- 2, gives -1. With a name that is listed, `fs_initrd_get_file` gives the file of that entry.
pub initrd_listed_lem :
    {D : Type 0} (es : List InitrdEntry) (p count : ℕ)
    → Distinct es
    → length es < 2 ^ 16
    → root es ≡ some p
    → count + 1 < 2 ^ 16
    → ((e : InitrdEntry) × (count + 1 < length es)
        × (entry_at es (count + 1) ≡ some e)
        × (fs_initrd_readdirent es p count
            ≡ (if count + 2 == length es then pos 0 else pos 1, some (count + 1, e.name)))
        × ((k : Kernel D) → fs_initrd_get_file es e.name k ≡ found e.file_ptr k))
      ⊎ ((length es ≤ count + 1) × (fs_initrd_readdirent es p count ≡ (minus_one, none)))
unfolding fs_initrd_readdirent fs_initrd_get_file
initrd_listed_lem es p count h small top hc = elim (Bool-cases (ltb (count + 1) (length es))) [
  | inl inside ↦
      let (e, at) = entry_at-some es (count + 1) (ground arith) in
      inl (
        e,
        ground arith,
        at,
        start ∙ rw (list_entry, at, there, inside, last (ground arith)) refl,
        λ k. ap (λ f. found f k) (find_entry_lem es (count + 1) e h at),
      )
  | inr outside ↦
      inr (ground arith, start ∙ rw (list_entry, entry_at-none es (count + 1) (ground arith)) refl)
]
  where
    wrap : (count + 1) % 2 ^ 16 ≡ count + 1
    wrap = omega arith

    start : fs_initrd_readdirent es p count ≡ list_entry es (count + 1)
    start = rw (top, same p) (ap (list_entry es) wrap)

    there : (ltb 0 (count + 1) && ltb (count + 1) (length es)) ≡ ltb (count + 1) (length es)
    there = ground arith

    last : count + 1 < length es → (count + 1 == length es - 1) ≡ (count + 2 == length es)
    last l = ground arith

-- The same of the devices: the calls 0 to 4 of `fs_dev_readdirent` on the root list them, the last
-- with the result 0, any other gives -1, and `fs_dev_get_file` finds what is listed.
dev_listed_lem :
    {D : Type 0} (files : DevFiles) (p count : ℕ)
    → files.root_file ≡ some p
    → ((name : List ℕ) × (count < 5)
        × (fs_dev_readdirent files p count
            ≡ (if count == 4 then pos 0 else pos 1, some (count + 1, name)))
        × ((k : Kernel D) → fs_dev_get_file files name k ≡ found (device_file files count) k))
      ⊎ ((5 ≤ count) × (fs_dev_readdirent files p count ≡ (minus_one, none)))
unfolding fs_dev_readdirent fs_dev_get_file find_file same_name
dev_listed_lem files p zero top =
    inl (asci0, omega arith, rw (top, fs_dev_readdirent, same p) refl, λ k. refl)
dev_listed_lem files p (suc zero) top =
    inl (asci1, omega arith, rw (top, fs_dev_readdirent, same p) refl, λ k. refl)
dev_listed_lem files p (suc (suc zero)) top =
    inl (sermem0, omega arith, rw (top, fs_dev_readdirent, same p) refl, λ k. refl)
dev_listed_lem files p (suc (suc (suc zero))) top =
    inl (sd0, omega arith, rw (top, fs_dev_readdirent, same p) refl, λ k. refl)
dev_listed_lem files p (suc (suc (suc (suc zero)))) top =
    inl (flash0, omega arith, rw (top, fs_dev_readdirent, same p) refl, λ k. refl)
dev_listed_lem files p (suc (suc (suc (suc (suc n))))) top =
    inr (omega arith, rw (top, fs_dev_readdirent, same p) refl)
