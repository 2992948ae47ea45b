-- ===== src/Ds1302.antt =====
-- src/ds1302.c and include/ds1302.h: the real time clock, a bit at a time over the port `io_system`.
-- The port and the chip behind it are the interface `Lines`; the delays are left out, and
-- `io_system_mtx` is taken to be free.
pub mod Bytes
pub mod Time
mod Examples
use Prim.Native.Nat.{bit_and, bit_or}
use zosys.Common.{ℕ, zero, suc, ◌+◌, ◌-◌, ◌*◌, ◌/◌, ◌^◌, if◌then◌else◌, ◌==◌, ltb}
use zosys.Common.Int.{ℤ, pos, negsuc, minus_one, is_neg, sub_one}

-- A write of `io_system`, and a read.
pub record Lines (D : Type 0) : Type 0 where
  pub put : ℕ → D → D
  pub get : D → ℕ × D

abbrev pub dout : ℕ
dout = 0x80

abbrev pub sclk : ℕ
sclk = 0x40

abbrev pub nwe : ℕ
nwe = 0x20

abbrev pub ce : ℕ
ce = 0x10

-- `IO_SYSTEM_PASSIVE & 0x0F`
abbrev pub passive : ℕ
passive = bit_and 0xFD 0x0F

abbrev pub read_low : ℕ
read_low = bit_or dout (bit_or nwe (bit_or ce passive))

abbrev pub read_high : ℕ
read_high = bit_or dout (bit_or sclk (bit_or nwe (bit_or ce passive)))

-- The lines with a bit to send, before and at the rise of the clock.
abbrev pub write_low : ℕ → ℕ
write_low b = bit_or (if bit_and b 0x01 == 0 then 0 else dout) (bit_or ce passive)

abbrev pub write_high : ℕ → ℕ
write_high b = bit_or (if bit_and b 0x01 == 0 then 0 else dout) (bit_or sclk (bit_or ce passive))

abbrev pub idle : ℕ
idle = bit_or dout (bit_or nwe passive)

-- `receive_byte >>= 1`, and the new bit on top.
abbrev pub shift_in : ℕ → ℕ → ℕ
shift_in receive_byte x = bit_or (receive_byte / 2) (if bit_and x 0x01 == 0 then 0x00 else 0x80)

-- `struct tm`
pub record Tm : Type 0 where
  pub tm_sec : ℕ
  pub tm_min : ℕ
  pub tm_hour : ℕ
  pub tm_mday : ℕ
  pub tm_mon : ℕ
  pub tm_wday : ℤ
  pub tm_year : ℕ

-- The fields of `ds1302_time_get`.
unfoldable pub sec_of : ℕ → ℕ
sec_of r = bit_and (r / 2 ^ 4) 0x07 * 10 + bit_and r 0x0F

unfoldable pub hour_of : ℕ → ℕ
hour_of r =
    bit_and r 0x0F
    + (if bit_and r 0x10 == 0 then 0 else 10)
    + (if bit_and r 0x20 == 0 then 0 else if bit_and r 0x80 == 0 then 20 else 12)

unfoldable pub mday_of : ℕ → ℕ
mday_of r = bit_and (r / 2 ^ 4) 0x03 * 10 + bit_and r 0x0F

unfoldable pub mon_of : ℕ → ℕ
mon_of r = bit_and (r / 2 ^ 4) 0x01 * 10 + bit_and r 0x0F

unfoldable pub wday_of : ℕ → ℤ
wday_of r = sub_one (pos (bit_and r 0x07))

unfoldable pub year_of : ℕ → ℕ
year_of r = 100 + bit_and (r / 2 ^ 4) 0x0F * 10 + bit_and r 0x0F

module _ {D : Type 0} (lines : Lines D) where
  -- The loop from round `i`, with `left` to go.
  unfoldable pub in_bits : (left i receive_byte : ℕ) → D → ℕ × D
  in_bits zero i receive_byte d = (receive_byte, d)
  in_bits (suc left) i receive_byte d =
      let (x, d1) = lines.get (lines.put read_low d) in
      in_bits left (i + 1) (shift_in receive_byte x)
        (if ltb i 7 then lines.put read_high d1 else d1)

  unfoldable pub ds1302_in_byte : D → ℤ × D
  unfolding in_bits
  ds1302_in_byte d = let (b, d') = in_bits 8 0 0 d in (pos b, d')

  unfoldable pub out_bits : (left send_byte : ℕ) → D → ℕ × D
  out_bits zero send_byte d = (send_byte, d)
  out_bits (suc left) send_byte d =
      out_bits left (send_byte / 2)
        (lines.put (write_high send_byte) (lines.put (write_low send_byte) d))

  unfoldable pub ds1302_out_byte : ℕ → D → ℤ × D
  unfolding out_bits
  ds1302_out_byte send_byte d = let (b, d') = out_bits 8 send_byte d in (pos b, d')

  unfoldable pub ds1302_read_byte : ℕ → D → ℤ × D
  unfolding ds1302_out_byte ds1302_in_byte
  ds1302_read_byte address d =
      let (sent, d1) = ds1302_out_byte address d in
      let (result, d2) = ds1302_in_byte d1 in
      if is_neg sent
      then (minus_one, lines.put (bit_or nwe passive) d1)
      else (result, lines.put idle d2)

  unfoldable pub ds1302_write_byte : (address data_byte : ℕ) → D → ℤ × D
  unfolding ds1302_out_byte
  ds1302_write_byte address data_byte d =
      let (sent, d1) = ds1302_out_byte address d in
      let (result, d2) =
        ds1302_out_byte data_byte (lines.put (bit_or dout (bit_or nwe (bit_or ce passive))) d1) in
      if is_neg sent then (minus_one, lines.put idle d1) else (result, lines.put idle d2)

  -- A register into a field: the rest is left out if the read fails.
  unfoldable pub field : (address : ℕ) → (ℕ → Tm → Tm) → (Tm → D → ℤ × Tm × D) → Tm → D → ℤ × Tm × D
  field address store rest t d =
      let (result, d') = ds1302_read_byte address d in
      elim result [ negsuc _ ↦ (minus_one, t, d') | pos r ↦ rest (store r t) d' ]

  -- The result, what `time` holds then, and the port.
  unfoldable pub ds1302_time_get : Tm → D → ℤ × Tm × D
  ds1302_time_get =
      field 0x81 (λ r t. record t { tm_sec = sec_of r })
        (field 0x83 (λ r t. record t { tm_min = sec_of r })
          (field 0x85 (λ r t. record t { tm_hour = hour_of r })
            (field 0x87 (λ r t. record t { tm_mday = mday_of r })
              (field 0x89 (λ r t. record t { tm_mon = mon_of r })
                (field 0x8B (λ r t. record t { tm_wday = wday_of r })
                  (field 0x8D (λ r t. record t { tm_year = year_of r }) (λ t d. (pos 0, t, d))))))))
