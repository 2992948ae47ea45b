-- ===== src/Mem/Dma.antt =====
-- src/dma.c and include/dma.h: channel 0 of the DMA controller. The controller is the interface
-- `Dma`, with what its manual says of a burst from memory to memory. `dma_0_mtx` is taken to be free,
-- with nobody waiting, so that it is as it was after a copy.
pub mod Moves
use zosys.Common.{
  ℕ, zero, suc, ◌+◌, ◌-◌, ◌*◌, ◌%◌, ◌^◌, ◌≡◌, Bool, true, false, ◌&&◌, ◌||◌, if◌then◌else◌, ◌==◌,
}
use zosys.Common.Int.{ℤ, pos, minus_one}

-- Physical memory, by 20-bit addresses.
abbrev pub Memory : Type 0
Memory = ℕ → ℕ

abbrev pub write : Memory → ℕ → ℕ → Memory
write m a x b = if a == b then x else m b

-- The registers SAR0, DAR0, BCR0 and DMODE.
pub record Regs : Type 0 where
  pub sar0 : ℕ
  pub dar0 : ℕ
  pub bcr0 : ℕ
  pub dmode : ℕ

pub data DmaMode : Type 0 where
  memory_inc memory_dec memory_fix io_fix : DmaMode

abbrev mode_number : DmaMode → ℕ
mode_number memory_inc = 0
mode_number memory_dec = 1
mode_number memory_fix = 2
mode_number io_fix = 3

abbrev is_fix : DmaMode → Bool
is_fix memory_inc = false
is_fix memory_dec = false
is_fix memory_fix = true
is_fix io_fix = true

-- A byte after the other, both addresses counting up in 20 bits.
unfoldable pub move : ℕ → (dest src : ℕ) → Memory → Memory
move zero dest src m = m
move (suc n) dest src m = move n ((dest + 1) % 2 ^ 20) ((src + 1) % 2 ^ 20) (write m dest (m src))

-- A byte count of 0 stands for 64K.
abbrev pub bytes_of : ℕ → ℕ
bytes_of count = if count == 0 then 2 ^ 16 else count

-- What DE0 starts, in burst mode from memory to memory, both addresses counting up: DMODE is 2.
pub record Dma : Type 0 where
  pub start : Regs → Memory → Memory
  pub start-burst :
      (r : Regs) (m : Memory) → r.dmode ≡ 2 → start r m ≡ move (bytes_of r.bcr0) r.dar0 r.sar0 m

pub dma_0_addr : (src_addr dest_addr byte_count : ℕ) → Regs → Regs
dma_0_addr src_addr dest_addr byte_count r = record r {
  sar0 = src_addr % 2 ^ 20;
  dar0 = dest_addr % 2 ^ 20;
  bcr0 = byte_count % 2 ^ 16;
}

pub dma_0_mode : (src_mode dest_mode : DmaMode) → (burst_mode : Bool) → Regs → ℤ × Regs
dma_0_mode src_mode dest_mode burst_mode r =
    if is_fix dest_mode && is_fix src_mode then (minus_one, r) else (
      pos 0,
      record r {
        dmode =
            mode_number dest_mode * 16 + mode_number src_mode * 4 + (if burst_mode then 2 else 0);
      },
    )

unfoldable pub dma_memcpy : Dma → (dest src num : ℕ) → Regs → Memory → Memory × Regs
unfolding dma_0_addr dma_0_mode
dma_memcpy dma dest src num r m =
    let r' = (dma_0_mode memory_inc memory_inc true (dma_0_addr src dest num r)).1 in
    (dma.start r' m, r')
