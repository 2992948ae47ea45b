-- ===== src/Mem/Dma/Moves.antt =====
-- What `dma_memcpy` does to memory.
use mathlib.Core.Path.{fun_ext}
use zosys.Common.{
  ℕ, zero, suc, ◌+◌, ◌-◌, ◌%◌, ◌^◌, ◌≤◌, ◌<◌, ◌≡◌, ◌⊎◌, inl, inr, refl, ap, ◌∙◌, ◌&&◌, arith,
  if◌then◌else◌, ◌==◌, ltb, leb, Bool-cases,
}
use zosys.Mem.Dma.{Memory, write, Regs, move, bytes_of, Dma, dma_memcpy}

-- The places from `d` on are those from `s` on; no other has changed.
abbrev pub moved : ℕ → (dest src : ℕ) → Memory → Memory
moved n d s m a = if leb d a && ltb a (d + n) then m (s + (a - d)) else m a

abbrev pub Apart : ℕ → ℕ → ℕ → Type 0
Apart n d s = (d + n ≤ s) ⊎ (s + n ≤ d)

-- A byte, and the places behind it.
moved-write :
    (n d s : ℕ) (m : Memory) (a : ℕ)
    → Apart (suc n) d s
    → moved n (d + 1) (s + 1) (write m d (m s)) a ≡ moved (suc n) d s m a
moved-write n d s m a h = elim (Bool-cases (d == a)) [
  | inl e ↦ let at : d ≡ a = ground arith in ground (arith, ap m at, ap m (shift s a d at))
  | inr e ↦ elim (Bool-cases (ltb d a)) [
    | inl above ↦ ground (
      arith,
      ap m (later s a d (ground arith)),
      ap (write m d (m s)) (later s a d (ground arith)),
    )
    | inr below ↦ ground arith
  ]
]
  where
    shift : (s a d : ℕ) → d ≡ a → s + (a - d) ≡ s
    shift s a d e = omega arith

    later : (s a d : ℕ) → d < a → s + 1 + (a - (d + 1)) ≡ s + (a - d)
    later s a d h = omega arith

-- Between places that do not overlap, and do not pass the end of memory.
move-moved :
    (n d s : ℕ) (m : Memory) (a : ℕ)
    → d + n ≤ 2 ^ 20
    → s + n ≤ 2 ^ 20
    → Apart n d s
    → move n d s m a ≡ moved n d s m a
unfolding move
move-moved zero d s m a p q h = ground arith
move-moved (suc zero) d s m a p q h = moved_one
  where
    moved_one : write m d (m s) a ≡ moved 1 d s m a
    moved_one = elim (Bool-cases (d == a)) [
      | inl e ↦ let at : s + (a - d) ≡ s = ground arith in ground (arith, ap m at)
      | inr e ↦ ground arith
    ]
move-moved (suc (suc n)) d s m a p q h =
    let e : (d + 1) % 2 ^ 20 ≡ d + 1 = omega arith in
    let f : (s + 1) % 2 ^ 20 ≡ s + 1 = omega arith in
    rw (e, f)
      (move-moved (suc n) (d + 1) (s + 1) (write m d (m s)) a (omega arith) (omega arith)
          (ground arith)
        ∙ moved-write (suc n) d s m a h)

-- `dma_memcpy` of one byte or more, between places that do not overlap, copies them and changes no
-- other byte.
pub dma_memcpy_lem :
    (dma : Dma) (dest src num : ℕ) (r : Regs) (m : Memory)
    → 0 < num
    → num < 2 ^ 16
    → dest + num ≤ 2 ^ 20
    → src + num ≤ 2 ^ 20
    → Apart num dest src
    → (dma_memcpy dma dest src num r m).0 ≡ moved num dest src m
unfolding dma_memcpy
dma_memcpy_lem dma dest src num r m one small p q h =
    let e : dest % 2 ^ 20 ≡ dest = omega arith in
    let f : src % 2 ^ 20 ≡ src = omega arith in
    let g : bytes_of (num % 2 ^ 16) ≡ num = ground arith in
    dma.start-burst _ m refl ∙ fun_ext (λ a. rw (e, f, g) (move-moved num dest src m a p q h))

-- A count of 0 copies 64K.
pub dma_memcpy_all :
    (dma : Dma) (dest src : ℕ) (r : Regs) (m : Memory)
    → dest + 2 ^ 16 ≤ 2 ^ 20
    → src + 2 ^ 16 ≤ 2 ^ 20
    → Apart (2 ^ 16) dest src
    → (a : ℕ) → (dma_memcpy dma dest src 0 r m).0 a ≡ moved (2 ^ 16) dest src m a
unfolding dma_memcpy
dma_memcpy_all dma dest src r m p q h a =
    let e : dest % 2 ^ 20 ≡ dest = omega arith in
    let f : src % 2 ^ 20 ≡ src = omega arith in
    ap (λ g. g a) (dma.start-burst _ m refl) ∙ rw (e, f) (move-moved (2 ^ 16) dest src m a p q h)
