-- ===== src/Spi.antt =====
-- src/spi.c and include/spi.h: bytes to and from a device on the clocked serial port, which sends the
-- lowest bit first where SPI wants the highest. The port and what hangs on it are the interface
-- `Csio`: the loops on CNTR end when a byte is through.
use Prim.Native.Nat.{bit_and, bit_or}
use zosys.Common.{ℕ, ◌+◌, ◌-◌, ◌*◌, ◌/◌, ◌^◌, ◌<◌, ◌≡◌, refl, Bool, true, arith}
use zosys.Common.Bits.{bit, holds_from, at_of_holds, same, same-eq}

pub record Csio (D : Type 0) : Type 0 where
  -- A byte through TRDR, out and in, and a write of `io_system`.
  pub send : ℕ → D → D
  pub receive : D → ℕ × D
  pub io_system : ℕ → D → D

unfoldable pub reverse : ℕ → ℕ
reverse b =
    let b1 = bit_or (bit_and b 0xf0 / 2 ^ 4) (bit_and b 0x0f * 2 ^ 4) in
    let b2 = bit_or (bit_and b1 0xcc / 2 ^ 2) (bit_and b1 0x33 * 2 ^ 2) in
    bit_or (bit_and b2 0xaa / 2) (bit_and b2 0x55 * 2)

-- The chip selects, and the other bits of `io_system`, which `passive` holds.
abbrev pub cs1_bit : ℕ
cs1_bit = 0x04

abbrev pub cs2_bit : ℕ
cs2_bit = 0x08

module _ {D : Type 0} (port : Csio D) (passive : ℕ) where
  unfoldable pub spi_in_byte : D → ℕ × D
  unfolding reverse
  spi_in_byte d = (reverse (port.receive d).0, (port.receive d).1)

  unfoldable pub spi_out_byte : ℕ → D → D
  unfolding reverse
  spi_out_byte b d = port.send (reverse b) d

  unfoldable pub spi_cs_none : D → D
  spi_cs_none d = port.io_system (bit_or (cs2_bit + cs1_bit) (bit_and passive 0xf3)) d

  unfoldable pub spi_cs1 : D → D
  spi_cs1 d = port.io_system (bit_or cs2_bit (bit_and passive 0xf3)) d

  unfoldable spi_cs2 : D → D
  spi_cs2 d = port.io_system (bit_or cs1_bit (bit_and passive 0xf3)) d

reverse_row : ℕ → ℕ → Bool
reverse_row b i = same (bit (reverse b) i) (bit b (7 - i))

reverse_table : holds_from (λ b. holds_from (reverse_row b) 0 8) 0 256 ≡ true
unfolding holds_from reverse_row reverse bit
reverse_table = refl

-- `reverse` turns the eight bits of a byte round: bit `i` of the result is bit `7 - i` of the byte.
bit-reverse : (b i : ℕ) → b < 256 → i < 8 → bit (reverse b) i ≡ bit b (7 - i)
unfolding reverse_row
bit-reverse b i hb hi =
    let row =
      at_of_holds (λ c. holds_from (reverse_row c) 0 8) 0 256 b reverse_table (omega arith)
        (omega arith) in
    same-eq _ _ (at_of_holds (reverse_row b) 0 8 i row (omega arith) (omega arith))
