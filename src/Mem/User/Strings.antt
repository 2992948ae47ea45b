-- ===== src/Mem/User/Strings.antt =====
-- What `mem_user_strlen` and `mem_user_vector_len` say of a process' memory.
use zosys.Common.{
  ℕ, zero, suc, ◌+◌, ◌-◌, ◌^◌, ◌≤◌, ◌<◌, ◌≡◌, ◌≢◌, ◌⊎◌, inl, inr, refl, ap, ◌∙◌, true, false, arith,
  ◌==◌, Bool-cases,
}
use zosys.Common.Int.{ℤ, pos, minus_one}
use zosys.Common.Run.{ok}
use zosys.Mem.Dma.{Memory, Dma}
use zosys.Mem.Dma.Moves.{moved, Apart, dma_memcpy_lem}
use zosys.Mem.Copy.{Machine, user_addr, copy}
use zosys.Mem.User.{
  mem_user_buffer_size, mem_user_valid_ptr, strnlen, mem_copy_to_user_buffer, mem_user_strlen,
}

add_zero : (a : ℕ) → a + 0 ≡ a
add_zero a = omega arith

strnlen-eq :
    (m n : Memory) (a b left : ℕ)
    → ((i : ℕ) → i < left → m (a + i) ≡ n (b + i))
    → strnlen m a left ≡ strnlen n b left
unfolding strnlen
strnlen-eq m n a b zero e = refl
strnlen-eq m n a b (suc left) e =
    let here : m a ≡ n b = ap m (omega arith) ∙ e 0 (omega arith) ∙ ap n (omega arith) in
    let ih =
      strnlen-eq m n (a + 1) (b + 1) left
        (λ i h. ap m (omega arith) ∙ e (suc i) (omega arith) ∙ ap n (omega arith)) in
    ground (arith, here, ih)

-- The first NUL, if one of the bytes is NUL.
pub record FirstNul (m : Memory) (a len : ℕ) : Type 0 where
  pub ends : m (a + len) ≡ 0
  pub before : (i : ℕ) → i < len → m (a + i) ≢ 0

strnlen_found :
    (m : Memory) (a left : ℕ) → strnlen m a left < left → FirstNul m a (strnlen m a left)
unfolding strnlen
strnlen_found m a zero h = absurd (omega arith)
strnlen_found m a (suc left) h = elim (Bool-cases (m a == 0)) [
  | inl e ↦
      rw (e, strnlen)
        (record { ends = ground (arith, ap m (add_zero a)); before = λ i p. absurd (omega arith) })
  | inr e ↦
      let ih = strnlen_found m (a + 1) left (ground arith) in
      rw (e, strnlen)
        (record {
          ends = ap m (omega arith) ∙ ih.ends;
          before = elim [
            | zero ↦ λ p z. absurd (ground (arith, ap m (add_zero a)))
            | suc i ↦ λ p z. ih.before i (omega arith) (ap m (omega arith) ∙ z)
          ];
        })
]

strnlen_le : (m : Memory) (a left : ℕ) → strnlen m a left ≤ left
unfolding strnlen
strnlen_le m a zero = omega arith
strnlen_le m a (suc left) = ground (arith, strnlen_le m (a + 1) left)

strnlen_none :
    (m : Memory) (a left : ℕ) → left ≤ strnlen m a left → (i : ℕ) → i < left → m (a + i) ≢ 0
unfolding strnlen
strnlen_none m a zero h i p = absurd (omega arith)
strnlen_none m a (suc left) h zero p = λ z. absurd (ground (arith, ap m (add_zero a)))
strnlen_none m a (suc left) h (suc i) p =
    λ z. strnlen_none m (a + 1) left (ground arith) i (omega arith) (ap m (omega arith) ∙ z)

module _ (dma : Dma) (user_buffer : ℕ) (k : Machine) where
  -- The buffer holds what the process has at `p`.
  abbrev pub copied : ℕ → Machine
  copied p = copy dma (user_addr k user_buffer) (user_addr k p) mem_user_buffer_size k

  -- Both places are in memory, and apart.
  pub record Fits (p : ℕ) : Type 0 where
    pub buffer_fits : user_addr k user_buffer + 0x200 ≤ 2 ^ 20
    pub source_fits : user_addr k p + 0x200 ≤ 2 ^ 20
    pub apart : Apart 0x200 (user_addr k user_buffer) (user_addr k p)

  pub copied-mem :
      (p i : ℕ)
      → Fits p
      → i < 0x200
      → (copied p).mem (user_addr k user_buffer + i) ≡ k.mem (user_addr k p + i)
  copied-mem p i f h =
      ap (λ m. m (user_addr k user_buffer + i))
        (dma_memcpy_lem dma (user_addr k user_buffer) (user_addr k p) 0x200 k.regs k.mem
          (omega arith) (omega arith) f.buffer_fits f.source_fits f.apart)
      ∙ inside (user_addr k user_buffer) (user_addr k p)
    where
      inside : (d s : ℕ) → moved 0x200 d s k.mem (d + i) ≡ k.mem (s + i)
      inside d s = ground (arith, ap k.mem (back d s))
        where
          back : (d s : ℕ) → s + (d + i - d) ≡ s + i
          back d s = omega arith

  -- What `mem_user_strlen` says of the memory at `p`.
  abbrev pub StringLength : ℕ → ℤ → Type 0
  StringLength p r =
      ((len : ℕ) × (r ≡ pos len)
        × (len < 0x200)
        × (mem_user_valid_ptr p ≡ true)
        × FirstNul k.mem (user_addr k p) len)
      ⊎ ((r ≡ minus_one)
          × ((mem_user_valid_ptr p ≡ false)
              ⊎ ((i : ℕ) → i < 0x200 → k.mem (user_addr k p + i) ≢ 0)))

  -- `mem_user_strlen` never panics: from a pointer into the process' pages it gives the number of
  -- bytes before the first NUL, if one of the first 0x200 bytes is NUL, and else -1. The places have
  -- to be in memory, and the string apart from the buffer.
  pub mem_user_strlen_lem :
      (p : ℕ)
      → Fits p
      → (r : ℤ) × (k' : Machine) × (mem_user_strlen dma user_buffer p k ≡ ok (r, k'))
        × StringLength p r
  unfolding mem_user_strlen mem_copy_to_user_buffer
  mem_user_strlen_lem p f = elim (Bool-cases (mem_user_valid_ptr p)) [
    | inr bad ↦ (minus_one, k, ground arith, inr (refl, inl bad))
    | inl good ↦
        let len = strnlen k.mem (user_addr k p) 0x200 in
        let same =
          strnlen-eq (copied p).mem k.mem (user_addr k user_buffer) (user_addr k p) 0x200
            (λ i h. copied-mem p i f h) in
        elim (Bool-cases (len == 0x200)) [
          | inr short ↦
              let less : len < 0x200 = ground (arith, strnlen_le k.mem (user_addr k p) 0x200) in
              (
                pos len,
                copied p,
                rw (good, mem_user_strlen, same, short) refl,
                inl (len, refl, less, good, strnlen_found k.mem (user_addr k p) 0x200 less),
              )
          | inl long ↦
              let all : 0x200 ≤ len = ground arith in
              (
                minus_one,
                copied p,
                rw (good, mem_user_strlen, same, long) refl,
                inr (refl, inr (strnlen_none k.mem (user_addr k p) 0x200 all)),
              )
        ]
  ]
