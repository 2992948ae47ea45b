-- ===== src/File/Refs.antt =====
-- How many references there are to an object, and the invariant of the reference counts: whatever
-- is reached by a pointer is there, and no object's count is below the number of its references.
use zosys.Common.{
  ℕ, zero, suc, ◌+◌, ◌^◌, ◌≤◌, ◌<◌, ◌≡◌, ◌≢◌, refl, Option, none, some, arith, inl, inr, Bool-cases,
  if◌then◌else◌, ◌==◌, length, get_or,
}
use zosys.File.{Kernel, File, OpenFile}

-- g 0 + … + g (n - 1)
pub total : ℕ → (ℕ → ℕ) → ℕ
total zero g = 0
total (suc n) g = g n + total n g

pub total-eq : (n : ℕ) (g h : ℕ → ℕ) → ((i : ℕ) → g i ≡ h i) → total n g ≡ total n h
unfolding total
total-eq zero g h e = refl
total-eq (suc n) g h e = omega (arith, e n, total-eq n g h e)

total-same : (n : ℕ) (g h : ℕ → ℕ) → ((i : ℕ) → i < n → g i ≡ h i) → total n g ≡ total n h
unfolding total
total-same zero g h e = refl
total-same (suc n) g h e =
    omega (arith, e n (omega arith), total-same n g h (λ i p. e i (omega arith)))

-- A change at one place changes the sum by as much.
pub total-change :
    (n i : ℕ) (g h : ℕ → ℕ)
    → i < n
    → ((j : ℕ) → j ≢ i → g j ≡ h j)
    → total n g + h i ≡ total n h + g i
unfolding total
total-change zero i g h p e = absurd (omega arith)
total-change (suc n) i g h p e = elim (Bool-cases (n == i)) [
  | inl here ↦
      let same : n ≡ i = ground arith in
      rw (← same) (omega (arith, total-same n g h (λ j q. e j (omega arith))))
  | inr there ↦ omega (arith, e n (ground arith), total-change n i g h (ground arith) e)
]

pub le-total : (n i : ℕ) (g : ℕ → ℕ) → i < n → g i ≤ total n g
unfolding total
le-total zero i g p = absurd (omega arith)
le-total (suc n) i g p = elim (Bool-cases (n == i)) [
  | inl here ↦ let same : n ≡ i = ground arith in rw (← same) (omega arith)
  | inr there ↦ omega (arith, le-total n i g (ground arith))
]

total-nil : (n : ℕ) → total n (λ i. 0) ≡ 0
unfolding total
total-nil zero = refl
total-nil (suc n) = omega (arith, total-nil n)

pub total-one : (n i : ℕ) (g : ℕ → ℕ) → i < n → ((j : ℕ) → j ≢ i → g j ≡ 0) → total n g ≡ g i
total-one n i g p e = omega (arith, total-change n i g (λ j. 0) p e, total-nil n)

abbrev pub points : Option ℕ → ℕ → ℕ
points none o = 0
points (some q) o = if q == o then 1 else 0

abbrev pub refers : Option OpenFile → ℕ → ℕ
refers none p = 0
refers (some f) p = points f.file p

module _ {D : Type 0} where
  -- The descriptors of the current process that lead to open file `o`.
  abbrev pub slots : Kernel D → ℕ → ℕ
  slots k o = total 8 (λ fd. points (get_or k.fds fd none) o)

  -- The open files of all processes, and the working directory, that lead to file `p`.
  abbrev pub refs : Kernel D → ℕ → ℕ
  refs k p = total (2 ^ 16) (λ o. refers (k.opens o) p) + points k.cwd p

  pub record IsCounted (k : Kernel D) : Type 0 where
    pub table : length k.fds ≡ 8
    pub address : (o : ℕ) (f : OpenFile) → k.opens o ≡ some f → o < 2 ^ 16
    pub slot_live :
        (fd o : ℕ) → get_or k.fds fd none ≡ some o → (f : OpenFile) × (k.opens o ≡ some f)
    pub open_live :
        (o : ℕ) (f : OpenFile)
        → k.opens o ≡ some f
        → (p : ℕ) × (g : File) × (f.file ≡ some p) × (k.files p ≡ some g)
    pub cwd_live : (p : ℕ) → k.cwd ≡ some p → (g : File) × (k.files p ≡ some g)
    pub open_count : (o : ℕ) (f : OpenFile) → k.opens o ≡ some f → slots k o ≤ f.ref_count
    pub file_count : (p : ℕ) (g : File) → k.files p ≡ some g → refs k p ≤ g.ref_count
