-- ===== src/Sd.antt =====
-- src/dev_sd.c: the SD card on SPI. A call is a function on what hangs on the port. The loops that
-- wait for the card without limit (`sd_response_r1`) make `patience` rounds: `none` is a card that
-- has not answered by then, for which the code waits on. The mutex of the port is taken to be free.
pub mod Start
pub mod Blocks
pub mod Transfer
pub mod Answers
pub mod BlockReads
pub mod BlockWrites
pub mod Card
pub mod Reads
pub mod Writes
pub mod Wire
mod Examples
mod Simulated
use Prim.Native.Nat.{bit_and, bit_or}
use zosys.Common.{
  ℕ, zero, suc, ◌+◌, ◌*◌, ◌/◌, ◌%◌, ◌^◌, ◌≡◌, ap, Bool, true, false, not, Option, none, some, List,
  [], ◌∷◌, if◌then◌else◌, ltb, ◌==◌,
}
use zosys.Common.Int.{ℤ, pos, minus_one}
use zosys.Spi.{Csio, spi_in_byte, spi_out_byte, spi_cs_none, spi_cs1}

abbrev pub Io : Type 0 → Type 0 → Type 0
Io D A = D → Option (A × D)

module _ {D : Type 0} where
  abbrev pub pure : {A : Type 0} → A → Io D A
  pure a d = some (a, d)

  abbrev pub and_then : {A B : Type 0} → Option (A × D) → (A → Io D B) → Option (B × D)
  and_then none f = none
  and_then (some (a, d)) f = f a d

  infixl 5 ◌>>=◌ ◌>>◌
  abbrev pub ◌>>=◌ : {A B : Type 0} → Io D A → (A → Io D B) → Io D B
  ◌>>=◌ m f d = and_then (m d) f

  -- What follows a call that gives a result.
  pub after :
      {A B : Type 0} {o : Option (A × D)} {a : A} {d' : D} (f : A → Io D B)
      → o ≡ some (a, d')
      → and_then o f ≡ f a d'
  after f e = ap (λ o. and_then o f) e

  abbrev pub ◌>>◌ : {B : Type 0} → Io D (Unit {0}) → Io D B → Io D B
  m >> n = m >>= λ _. n

-- `struct` of a response R7, and of the others what they give beside R1.
pub record R7 : Type 0 where
  pub r1 : ℕ
  pub command_version : ℕ
  pub reserved_bits : ℕ
  pub voltage_accepted : ℕ
  pub check_pattern : ℕ

abbrev pub sd_start_token : ℕ
sd_start_token = 0xfe

abbrev pub sd_max_read_attempts : ℕ
sd_max_read_attempts = 1563

abbrev pub sd_max_write_attempts : ℕ
sd_max_write_attempts = 3907

-- The argument of a command, the highest byte first.
abbrev pub byte_of : ℕ → ℕ → ℕ
byte_of n shift = n / 2 ^ shift % 2 ^ 8

module _ {D : Type 0} (port : Csio D) (passive patience : ℕ) where
  abbrev pub out : ℕ → Io D (Unit {0})
  unfolding spi_out_byte
  out b d = some (tt, spi_out_byte port passive b d)

  abbrev pub inp : Io D ℕ
  unfolding spi_in_byte
  inp d = some (spi_in_byte port passive d)

  -- `sd_sel` of card 0, which is none, and of card 1.
  abbrev pub deselect : Io D (Unit {0})
  unfolding spi_cs_none
  deselect d = some (tt, spi_cs_none port passive d)

  abbrev pub select : Io D (Unit {0})
  unfolding spi_cs1
  select d = some (tt, spi_cs1 port passive d)

  -- 0xFF, and the chip select, and 0xFF.
  pub assert_cs : Io D (Unit {0})
  assert_cs = do out 0xff; select; out 0xff

  pub deassert_cs : Io D (Unit {0})
  deassert_cs = do out 0xff; deselect; out 0xff

  -- The loop of `sd_power_up_seq`, with `left` rounds to go.
  pub clocks : ℕ → Io D (Unit {0})
  clocks zero = pure tt
  clocks (suc left) = do out 0xff; clocks left

  -- The delays change nothing here.
  pub sd_power_up_seq : Io D (Unit {0})
  unfolding clocks
  sd_power_up_seq = do deselect; clocks 10

  pub sd_command : (command argument crc : ℕ) → Io D (Unit {0})
  sd_command command argument crc = do
    out (bit_or command 0x40)
    out (byte_of argument 24)
    out (byte_of argument 16)
    out (byte_of argument 8)
    out (byte_of argument 0)
    out (bit_or crc 0x01)

  -- The loop of `sd_response_r1`.
  pub await_r1 : ℕ → Io D ℕ
  await_r1 zero d = none
  await_r1 (suc left) d =
      let next = spi_in_byte port passive d in
      elim (bit_and next.0 0x80 == 0) [ true ↦ some next | false ↦ await_r1 left next.1 ]

  pub sd_response_r1 : Io D ℕ
  unfolding await_r1
  sd_response_r1 = await_r1 patience

  -- The loop of `sd_response_r1b`, while the card is busy.
  pub await_idle : ℕ → Io D (Unit {0})
  await_idle zero d = none
  await_idle (suc left) d =
      let next = spi_in_byte port passive d in
      elim (next.0 == 0) [ true ↦ await_idle left next.1 | false ↦ some (tt, next.1) ]

  unfoldable sd_response_r1b : Io D ℕ
  unfolding sd_response_r1 await_idle
  sd_response_r1b = do r1 ← sd_response_r1; await_idle patience; pure r1

  unfoldable sd_response_r2 : Io D (ℕ × ℕ)
  unfolding sd_response_r1
  sd_response_r2 = do r1 ← sd_response_r1; b ← inp; pure (r1, b)

  pub sd_response_r3 : Io D (ℕ × ℕ)
  unfolding sd_response_r1
  sd_response_r3 = do
    r1 ← sd_response_r1
    a ← inp
    b ← inp
    c ← inp
    e ← inp
    pure (r1, a * 2 ^ 24 + b * 2 ^ 16 + c * 2 ^ 8 + e)

  pub sd_response_r7 : Io D R7
  unfolding sd_response_r1
  sd_response_r7 = do
    r1 ← sd_response_r1
    a ← inp
    b ← inp
    c ← inp
    e ← inp
    pure (record {
      r1 = r1;
      command_version = a;
      reserved_bits = b;
      voltage_accepted = c;
      check_pattern = e;
    })

  -- A command between the chip selects, and its response.
  abbrev pub exchange : {A : Type 0} → (command argument crc : ℕ) → Io D A → Io D A
  unfolding assert_cs deassert_cs sd_command
  exchange command argument crc response = do
    assert_cs
    sd_command command argument crc
    r ← response
    deassert_cs
    pure r

  pub sd_go_idle_state : Io D ℕ
  unfolding sd_response_r1 assert_cs deassert_cs sd_command
  sd_go_idle_state = exchange 0 0 0x94 sd_response_r1

  pub sd_send_if_cond : Io D R7
  unfolding sd_response_r7 assert_cs deassert_cs sd_command
  sd_send_if_cond = exchange 8 0x1aa 0x86 sd_response_r7

  pub sd_read_ocr : Io D (ℕ × ℕ)
  unfolding sd_response_r3 assert_cs deassert_cs sd_command
  sd_read_ocr = exchange 58 0 0xff sd_response_r3

  pub sd_send_app : Io D ℕ
  unfolding sd_response_r1 assert_cs deassert_cs sd_command
  sd_send_app = exchange 55 0 0xff sd_response_r1

  pub sd_send_op_cond : Io D ℕ
  unfolding sd_response_r1 assert_cs deassert_cs sd_command
  sd_send_op_cond = exchange 41 0x40000000 0xff sd_response_r1
