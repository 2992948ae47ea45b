-- ===== src/Ds1302/Examples.antt =====
-- A chip with a shift register and a clock in its registers.
use Prim.Native.Nat.{bit_and}
use zosys.Common.{
  ℕ, ◌+◌, ◌-◌, ◌*◌, ◌/◌, ◌%◌, ◌^◌, ◌<◌, ◌≡◌, refl, Bool-cases, inl, inr, Bool, true, false, ◌&&◌,
  List, [], ◌∷◌, ◌++◌, arith, if◌then◌else◌, ◌==◌,
}
use zosys.Common.Bits.{and_1, holds_from, at_of_holds}
use zosys.Common.Int.{ℤ, pos, negsuc}
use zosys.Ds1302.{
  Lines, Tm, write_low, write_high, read_low, ds1302_in_byte, ds1302_out_byte, ds1302_read_byte,
  ds1302_time_get, hour_of,
}
use zosys.Ds1302.Bytes.{Serial, bits_of, in_byte-out_byte}
use zosys.Ds1302.Time.{Clock, IsTime, register, time_get_lem}

-- The bits taken, and those to come.
abbrev Wires : Type 0
Wires = List ℕ × List ℕ

-- A rise of the clock takes a bit when the chip is written.
abbrev level : ℕ → Wires → Wires
level v (sent, queue) =
    if bit_and v 0x60 == 0x40
    then (sent ++ (if bit_and v 0x80 == 0 then 0 else 1) ∷ [], queue)
    else (sent, queue)

abbrev next : Wires → ℕ × Wires
next (sent, []) = (0, (sent, []))
next (sent, b ∷ bs) = (b, (sent, bs))

abbrev wires : Lines Wires
wires = record { put = level; get = next }

abbrev low_bits : List ℕ → List ℕ
low_bits [] = []
low_bits (b ∷ bs) = b % 2 ∷ low_bits bs

level-write :
    (b : ℕ) (d : Wires) → (level (write_high b) (level (write_low b) d)).0 ≡ d.0 ++ b % 2 ∷ []
level-write b (sent, queue) = elim (Bool-cases (bit_and b 0x01 == 0)) [
  | inl zeroed ↦ ground (arith, and_1 b, zeroed)
  | inr one ↦ ground (arith, and_1 b, one)
]

next-read :
    (d : Wires) (b : ℕ) (bs : List ℕ)
    → low_bits d.1 ≡ b ∷ bs
    → let (x, d') = next (level read_low d) in (x % 2 ≡ b) × (low_bits d'.1 ≡ bs)
next-read (sent, []) b bs e = absurd (ground arith)
next-read (sent, x ∷ xs) b bs e = ground arith

abbrev serial : Serial wires
serial = record {
  sent = λ d. d.0;
  queue = λ d. low_bits d.1;
  put-write = level-write;
  get-read = next-read;
  put-read = λ d. refl;
}

in_byte-out_byte_example :
    let (r, e) = ds1302_out_byte wires 0x8D ([], []) in
    let (s, e') = ds1302_in_byte wires ([], bits_of 8 0x59 ++ 1 ∷ []) in
    ((r ≡ pos 0) × (e.0 ≡ bits_of 8 0x8D)) × ((s ≡ pos 0x59) × (low_bits e'.1 ≡ 1 ∷ []))
in_byte-out_byte_example =
    in_byte-out_byte wires serial 0x8D 0x59 (1 ∷ []) ([], []) ([], bits_of 8 0x59 ++ 1 ∷ [])
      (omega arith) (omega arith) refl

abbrev evening : Clock
evening = record {
  second = 7;
  minute = 45;
  hour = 23;
  day = 31;
  month = 12;
  weekday = 7;
  year = 23;
}

-- The address shifted in so far, and the number of the bit to give.
abbrev Chip : Type 0
Chip = ℕ × ℕ

abbrev chip_put : ℕ → Chip → Chip
chip_put v (address, i) =
    if bit_and v 0x10 == 0
    then (0, 0)
    else if bit_and v 0x60 == 0x40
    then (address / 2 + (if bit_and v 0x80 == 0 then 0 else 128), 0)
    else (address, i)

abbrev bit_value : ℕ → ℕ → ℕ
bit_value x i = x / 2 ^ i % 2

abbrev chip_get : Chip → ℕ × Chip
chip_get (address, i) = (bit_value (register evening ((address - 0x81) / 2)) i, (address, i + 1))

abbrev chip : Lines Chip
chip = record { put = chip_put; get = chip_get }

abbrev is_reset : Chip → Bool
is_reset (address, i) = (address == 0) && (i == 0)

abbrev reads_as : ℤ × Chip → ℕ → Bool
reads_as (pos r, d) n = (r == n) && is_reset d
reads_as (negsuc r, d) n = false

chip_row : ℕ → Bool
chip_row k = reads_as (ds1302_read_byte chip (0x81 + k * 2) (0, 0)) (register evening k)

chip_table : holds_from chip_row 0 7 ≡ true
unfolding holds_from chip_row ds1302_read_byte
chip_table = refl

reads_as_lem : (r : ℤ × Chip) (n : ℕ) → reads_as r n ≡ true → (r.0 ≡ pos n) × (is_reset r.1 ≡ true)
reads_as_lem (pos r, d) n h = ground arith
reads_as_lem (negsuc r, d) n h = absurd (ground arith)

chip_reads :
    (k : ℕ) (d : Chip)
    → k < 7
    → is_reset d ≡ true
    → let (r, d') = ds1302_read_byte chip (0x81 + k * 2) d in
      (r ≡ pos (register evening k)) × (is_reset d' ≡ true)
unfolding chip_row
chip_reads k (address, i) h e =
    let a : address ≡ 0 = ground arith in
    let b : i ≡ 0 = ground arith in
    rw (a, b)
      (reads_as_lem (ds1302_read_byte chip (0x81 + k * 2) (0, 0)) (register evening k)
        (at_of_holds chip_row 0 7 k chip_table (omega arith) (omega arith)))

evening-IsTime : IsTime evening
evening-IsTime = record {
  second = omega arith;
  minute = omega arith;
  hour = omega arith;
  day = omega arith;
  month = omega arith;
  weekday = omega arith;
  year = omega arith;
}

abbrev blank : Tm
blank = record {
  tm_sec = 0;
  tm_min = 0;
  tm_hour = 0;
  tm_mday = 0;
  tm_mon = 0;
  tm_wday = pos 0;
  tm_year = 0;
}

time_get_lem_example :
    (d' : Chip) × (ds1302_time_get chip blank (0, 0) ≡ (
      pos 0,
      record {
        tm_sec = 7;
        tm_min = 45;
        tm_hour = 23;
        tm_mday = 31;
        tm_mon = 12;
        tm_wday = pos 6;
        tm_year = 123;
      },
      d',
    ))
time_get_lem_example =
    time_get_lem chip is_reset evening chip_reads evening-IsTime blank (0, 0) refl

-- In 12-hour mode noon is read as 24 o'clock and midnight as 12.
noon : hour_of 0xB2 ≡ 24
unfolding hour_of
noon = refl

midnight : hour_of 0x92 ≡ 12
unfolding hour_of
midnight = refl
