-- ===== src/Mem/User/Empty.antt =====
-- A copy of no bytes by the DMA controller.
use zosys.Common.{ℕ, zero, suc, ◌+◌, ◌%◌, ◌^◌, ◌≤◌, ◌<◌, ◌≡◌, refl, ap, ◌∙◌, arith}
use zosys.Common.Run.{ok}
use zosys.Mem.Dma.{Memory, write, move, Regs, Dma, dma_memcpy}
use zosys.Mem.Copy.{Machine, user_addr}
use zosys.Mem.User.{mem_copy_from_user_buffer}

move-below : (n d s : ℕ) (m : Memory) (a : ℕ) → a < d → d + n ≤ 2 ^ 20 → move n d s m a ≡ m a
unfolding move
move-below zero d s m a h p = refl
move-below (suc zero) d s m a h p = ground arith
move-below (suc (suc n)) d s m a h p =
    let e : (d + 1) % 2 ^ 20 ≡ d + 1 = omega arith in
    rw e (
      move-below (suc n) (d + 1) ((s + 1) % 2 ^ 20) (write m d (m s)) a (omega arith) (omega arith)
      ∙ ground arith)

move-first : (n d s : ℕ) (m : Memory) → d + suc (suc n) ≤ 2 ^ 20 → move (suc (suc n)) d s m d ≡ m s
unfolding move
move-first n d s m p =
    let e : (d + 1) % 2 ^ 20 ≡ d + 1 = omega arith in
    rw e (
      move-below (suc n) (d + 1) ((s + 1) % 2 ^ 20) (write m d (m s)) d (omega arith) (omega arith)
      ∙ ground arith)

first_of : (n d s : ℕ) (m : Memory) → 2 ≤ n → d + n ≤ 2 ^ 20 → move n d s m d ≡ m s
first_of zero d s m h p = absurd (omega arith)
first_of (suc zero) d s m h p = absurd (omega arith)
first_of (suc (suc n)) d s m h p = move-first n d s m p

dma_memcpy-zero :
    (dma : Dma) (dest src : ℕ) (r : Regs) (m : Memory)
    → dest < 2 ^ 20
    → src < 2 ^ 20
    → (dma_memcpy dma dest src 0 r m).0 ≡ move (2 ^ 16) dest src m
unfolding dma_memcpy
dma_memcpy-zero dma dest src r m p q =
    let e : dest % 2 ^ 20 ≡ dest = omega arith in
    let f : src % 2 ^ 20 ≡ src = omega arith in
    rw (e, f) (dma.start-burst (record { sar0 = src; dar0 = dest; bcr0 = 0; dmode = 2 }) m refl)

-- The bug: a copy of no bytes from the user buffer, as `sys_read` makes it where there is nothing
-- to read, is a transfer of 64K, so that it writes to the process' memory all the same. The 64K
-- from the destination on and the start of the buffer are taken to be in memory.
pub empty_copy_writes :
    (dma : Dma) (user_buffer p : ℕ) (k : Machine)
    → user_addr k p + 2 ^ 16 ≤ 2 ^ 20
    → user_addr k user_buffer < 2 ^ 20
    → (k' : Machine) × (mem_copy_from_user_buffer dma user_buffer p 0 k ≡ ok k')
      × (k'.mem ≡ move (2 ^ 16) (user_addr k p) (user_addr k user_buffer) k.mem)
      × (k'.mem (user_addr k p) ≡ k.mem (user_addr k user_buffer))
unfolding mem_copy_from_user_buffer
empty_copy_writes dma user_buffer p k fits there =
    let all : (dma_memcpy dma (user_addr k p) (user_addr k user_buffer) 0 k.regs k.mem).0
        ≡ move (2 ^ 16) (user_addr k p) (user_addr k user_buffer) k.mem =
      dma_memcpy-zero dma (user_addr k p) (user_addr k user_buffer) k.regs k.mem (omega arith)
        there in
    (
      _,
      refl,
      all,
      ap (λ m. m (user_addr k p)) all
          ∙ first_of (2 ^ 16) (user_addr k p) (user_addr k user_buffer) k.mem (omega arith) fits,
    )
