-- ===== src/Mem/Copy.antt =====
-- The copies of src/mem.c between the kernel's logical memory, a process' memory and physical
-- memory. A copy returns its destination, which is left out.
use zosys.Common.{ℕ, ◌+◌, ◌*◌, ◌^◌, leb, if◌then◌else◌}
use zosys.Mem.Dma.{Memory, Regs, Dma, dma_memcpy}

-- Physical memory, the DMA controller's registers, and the page bases of the process and the kernel.
pub record Machine : Type 0 where
  pub mem : Memory
  pub regs : Regs
  pub cbr : ℕ
  pub bbr : ℕ

abbrev pub pa_from_pfn : ℕ → ℕ
pa_from_pfn pfn = pfn * 2 ^ 12

-- The physical address of a logical one: of a process, or of kernel data.
abbrev pub user_addr : Machine → ℕ → ℕ
user_addr k p = pa_from_pfn k.cbr + p

abbrev pub kdata_addr : Machine → ℕ → ℕ
kdata_addr k p = pa_from_pfn k.bbr + p

module _ (dma : Dma) where
  abbrev pub copy : (dest src count : ℕ) → Machine → Machine
  copy dest src count k = record k {
    mem = (dma_memcpy dma dest src count k.regs k.mem).0;
    regs = (dma_memcpy dma dest src count k.regs k.mem).1;
  }

  pub mem_memcpy_long_from_kconst : (dest src count : ℕ) → Machine → Machine
  mem_memcpy_long_from_kconst dest src count k = copy dest src count k

  pub mem_memcpy_long_from_kdata : (dest src count : ℕ) → Machine → Machine
  mem_memcpy_long_from_kdata dest src count k = copy dest (kdata_addr k src) count k

  pub mem_memcpy_long_from_kstack : (dest src count : ℕ) → Machine → Machine
  mem_memcpy_long_from_kstack dest src count k = copy dest (user_addr k src) count k

  unfoldable mem_memcpy_long_from_kernel : (dest src count : ℕ) → Machine → Machine
  unfolding mem_memcpy_long_from_kstack mem_memcpy_long_from_kdata mem_memcpy_long_from_kconst
  mem_memcpy_long_from_kernel dest src count k =
      if leb 0xf000 src
      then mem_memcpy_long_from_kstack dest src count k
      else if leb 0x1000 src
      then mem_memcpy_long_from_kdata dest src count k
      else mem_memcpy_long_from_kconst dest src count k

  pub mem_memcpy_kdata_from_long : (dest src count : ℕ) → Machine → Machine
  mem_memcpy_kdata_from_long dest src count k = copy (kdata_addr k dest) src count k

  pub mem_memcpy_kstack_from_long : (dest src count : ℕ) → Machine → Machine
  mem_memcpy_kstack_from_long dest src count k = copy (user_addr k dest) src count k

  -- Nothing is written below 0x1000.
  unfoldable mem_memcpy_kernel_from_long : (dest src count : ℕ) → Machine → Machine
  unfolding mem_memcpy_kstack_from_long mem_memcpy_kdata_from_long
  mem_memcpy_kernel_from_long dest src count k =
      if leb 0xf000 dest
      then mem_memcpy_kstack_from_long dest src count k
      else if leb 0x1000 dest
      then mem_memcpy_kdata_from_long dest src count k
      else k

  unfoldable mem_memcpy_long_from_long : (dest src count : ℕ) → Machine → Machine
  mem_memcpy_long_from_long dest src count k = copy dest src count k

  pub mem_memcpy_user_from_kconst : (dest src count : ℕ) → Machine → Machine
  mem_memcpy_user_from_kconst dest src count k = copy (user_addr k dest) src count k

  pub mem_memcpy_user_from_kdata : (dest src count : ℕ) → Machine → Machine
  mem_memcpy_user_from_kdata dest src count k = copy (user_addr k dest) (kdata_addr k src) count k

  pub mem_memcpy_user_from_kstack : (dest src count : ℕ) → Machine → Machine
  mem_memcpy_user_from_kstack dest src count k = copy (user_addr k dest) (user_addr k src) count k

  unfoldable mem_memcpy_user_from_kernel : (dest src count : ℕ) → Machine → Machine
  unfolding mem_memcpy_user_from_kstack mem_memcpy_user_from_kdata mem_memcpy_user_from_kconst
  mem_memcpy_user_from_kernel dest src count k =
      if leb 0xf000 src
      then mem_memcpy_user_from_kstack dest src count k
      else if leb 0x1000 src
      then mem_memcpy_user_from_kdata dest src count k
      else mem_memcpy_user_from_kconst dest src count k

  pub mem_memcpy_kdata_from_user : (dest src count : ℕ) → Machine → Machine
  mem_memcpy_kdata_from_user dest src count k = copy (kdata_addr k dest) (user_addr k src) count k

  pub mem_memcpy_kstack_from_user : (dest src count : ℕ) → Machine → Machine
  mem_memcpy_kstack_from_user dest src count k = copy (user_addr k dest) (user_addr k src) count k

  unfoldable mem_memcpy_kernel_from_user : (dest src count : ℕ) → Machine → Machine
  unfolding mem_memcpy_kstack_from_user mem_memcpy_kdata_from_user
  mem_memcpy_kernel_from_user dest src count k =
      if leb 0xf000 dest
      then mem_memcpy_kstack_from_user dest src count k
      else if leb 0x1000 dest
      then mem_memcpy_kdata_from_user dest src count k
      else k

  unfoldable mem_memcpy_user_from_user : (dest src count : ℕ) → Machine → Machine
  mem_memcpy_user_from_user dest src count k = copy (user_addr k dest) (user_addr k src) count k
