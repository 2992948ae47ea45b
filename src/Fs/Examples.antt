-- ===== src/Fs/Examples.antt =====
-- Runs of the two file systems.
use zosys.Common.{
  ℕ, ◌+◌, ◌<◌, ◌≤◌, ◌≡◌, ◌⊎◌, refl, arith, none, some, List, [], ◌∷◌, if◌then◌else◌, ◌==◌, length,
}
use zosys.Common.Int.{pos, minus_one}
use zosys.File.{Kernel}
use zosys.Fs.{same_name, found}
use zosys.Fs.Initrd.{InitrdEntry, entries, entry_at, fs_initrd_get_file, fs_initrd_readdirent}
use zosys.Fs.Names.{Distinct, initrd_listed_lem}

abbrev numbered : ℕ → List InitrdEntry → List InitrdEntry
numbered p [] = []
numbered p (e ∷ es) = record e { file_ptr = some p } ∷ numbered (p + 1) es

-- The table of the kernel, with small images and its files at 100 and behind.
abbrev table : List InitrdEntry
table = numbered 100 (entries (1 ∷ []) (2 ∷ 3 ∷ 4 ∷ []) [] [] [])

table-Distinct : Distinct table
unfolding same_name
table-Distinct = (
  (refl, (refl, (refl, (refl, (refl, tt))))),
  (
    (refl, (refl, (refl, (refl, tt)))),
    ((refl, (refl, (refl, tt))), ((refl, (refl, tt)), ((refl, tt), (tt, tt)))),
  ),
)

-- The last entry.
initrd_listed_lem_example :
    ((e : InitrdEntry) × (4 + 1 < length table)
      × (entry_at table (4 + 1) ≡ some e)
      × (fs_initrd_readdirent table 100 4
          ≡ (if 4 + 2 == length table then pos 0 else pos 1, some (4 + 1, e.name)))
      × ((k : Kernel ℕ) → fs_initrd_get_file table e.name k ≡ found e.file_ptr k))
    ⊎ ((length table ≤ 4 + 1) × (fs_initrd_readdirent table 100 4 ≡ (minus_one, none)))
initrd_listed_lem_example =
    initrd_listed_lem {D = ℕ} table 100 4 table-Distinct (omega arith) refl (omega arith)

abbrev sh : InitrdEntry
sh = record {
  name = b's' ∷ b'h' ∷ [];
  file_ptr = some (100 + 1 + 1);
  content = some (2 ∷ 3 ∷ 4 ∷ []);
}

abbrev image : List ℕ
image = 2 ∷ 3 ∷ 4 ∷ []
