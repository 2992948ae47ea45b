-- ===== src/Mem/Examples.antt =====
-- Runs of the copies to and from a process.
use zosys.Common.{◌^◌, ◌≡◌, ◌⊎◌, inr, refl, arith, false}
use zosys.Common.Int.{ℤ, minus_one}
use zosys.Common.Run.{ok}
use zosys.Mem.Dma.{Dma, move, bytes_of}
use zosys.Mem.Copy.{Machine, user_addr}
use zosys.Mem.User.{
  mem_user_strlen, mem_user_vector_len, mem_copy_from_user_buffer, mem_user_valid_ptr,
}
use zosys.Mem.User.Strings.{Fits, StringLength, mem_user_strlen_lem}
use zosys.Mem.User.Vectors.{Found, mem_user_vector_len_lem}
use zosys.Mem.User.Empty.{empty_copy_writes}

-- A controller that does what its manual says.
dma : Dma
dma = record { start = λ r m. move (bytes_of r.bcr0) r.dar0 r.sar0 m; start-burst = λ r m e. refl }

-- A process whose pages start at 0x40000, in a memory of zeros.
abbrev machine : Machine
machine = record {
  mem = λ a. 0;
  regs = record { sar0 = 0; dar0 = 0; bcr0 = 0; dmode = 0 };
  cbr = 0x40;
  bbr = 0x20;
}

machine-Fits : Fits dma 0xf000 machine 0x2000
machine-Fits = record {
  buffer_fits = omega arith;
  source_fits = omega arith;
  apart = inr (omega arith);
}

mem_user_strlen_lem_example :
    (r : ℤ) × (k' : Machine) × (mem_user_strlen dma 0xf000 0x2000 machine ≡ ok (r, k'))
    × StringLength dma 0xf000 machine 0x2000 r
mem_user_strlen_lem_example = mem_user_strlen_lem dma 0xf000 machine 0x2000 machine-Fits

mem_user_vector_len_lem_example :
    (r : ℤ) × (k' : Machine) × (mem_user_vector_len dma 0xf000 0x2000 machine ≡ ok (r, k'))
    × (((mem_user_valid_ptr 0x2000 ≡ false) × (r ≡ minus_one))
        ⊎ Found machine.mem (user_addr machine 0x2000) 0x2000 0 256 r)
mem_user_vector_len_lem_example = mem_user_vector_len_lem dma 0xf000 machine 0x2000 machine-Fits

empty_copy_writes_example :
    (k' : Machine) × (mem_copy_from_user_buffer dma 0xf000 0x2000 0 machine ≡ ok k')
    × (k'.mem ≡ move (2 ^ 16) (user_addr machine 0x2000) (user_addr machine 0xf000) machine.mem)
    × (k'.mem (user_addr machine 0x2000) ≡ machine.mem (user_addr machine 0xf000))
empty_copy_writes_example = empty_copy_writes dma 0xf000 0x2000 machine (omega arith) (omega arith)
