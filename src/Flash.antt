-- ===== src/Flash.antt =====
-- src/dev_flash.c: the flash chip. The bus to it, of which `mem_memcpy_kernel_from_long` and
-- `mem_memcpy_long_from_kernel` are the reads and the writes, is the interface `Bus`. The wait for the
-- chip has no limit in the code; here `none` is a chip that is not done after `patience` rounds. The
-- mutex of the chip is taken to be free. A count is a `size_t`, below 2 ^ 16, and a result that does
-- not fit an `ssize_t` wraps.
pub mod Chip
pub mod Writes
pub mod RoundTrip
mod Examples
use Prim.Native.Nat.{bit_and, bit_xor}
use zosys.Common.{
  ℕ, zero, suc, ◌+◌, ◌-◌, ◌*◌, ◌%◌, ◌^◌, Bool, true, false, Option, none, some, List, [], ◌∷◌,
  if◌then◌else◌, ltb, leb, ◌==◌, length, take, get_or,
}
use zosys.Common.Int.{ℤ, pos, minus_one, int16}
use zosys.File.Device.{register_driver}

pub record Bus (D : Type 0) : Type 0 where
  pub read : (addr count : ℕ) → D → List ℕ × D
  pub write : (addr byte : ℕ) → D → D

-- `enum flash_chip`
pub data FlashChip : Type 0 where
  sst39sf010a sst39sf020a sst39sf040a : FlashChip

-- `struct flash_chip_desc`
pub record FlashChipDesc : Type 0 where
  pub chip_size : ℕ
  pub sector_size : ℕ

abbrev pub flash_chip_descs : FlashChip → FlashChipDesc
flash_chip_descs sst39sf010a = record { chip_size = 131072; sector_size = 4096 }
flash_chip_descs sst39sf020a = record { chip_size = 262144; sector_size = 4096 }
flash_chip_descs sst39sf040a = record { chip_size = 524288; sector_size = 4096 }

-- `struct flash_instance`
pub record FlashInstance : Type 0 where
  pub chip : FlashChip
  pub base_addr : ℕ

abbrev pub flash_instance_0 : FlashInstance
flash_instance_0 = record { chip = sst39sf040a; base_addr = 0 }

abbrev pub instance_of : ℕ → Option FlashInstance
instance_of minor = if minor == 0 then some flash_instance_0 else none

-- `drv` is the place of `flash_driver`.
unfoldable dev_flash_init : ℕ → List (Option ℕ) → ℤ × List (Option ℕ)
unfolding register_driver
dev_flash_init drv drivers = (pos 0, (register_driver (pos 4) drv drivers).1)

-- What is left of the chip from `at` on limits the count.
pub clamp : FlashChip → (count at : ℕ) → ℕ
clamp chip count at =
    let size_left = (flash_chip_descs chip).chip_size - at in
    if ltb size_left count then size_left else count

module _ {D : Type 0} (bus : Bus D) (patience : ℕ) where
  pub read_from : FlashInstance → (count at : ℕ) → D → (ℤ × List ℕ) × D
  unfolding clamp
  read_from f count at d =
      if leb (flash_chip_descs f.chip).chip_size at
      then ((minus_one, []), d)
      else let n = clamp f.chip count at in
        ((int16 n, (bus.read (f.base_addr + at) n d).0), (bus.read (f.base_addr + at) n d).1)

  -- The result, and the bytes put in `buf`.
  pub flash_read : (minor count at : ℕ) → D → (ℤ × List ℕ) × D
  unfolding read_from
  flash_read minor count at d = elim (instance_of minor) [
    | none ↦ ((minus_one, []), d)
    | some f ↦ read_from f count at d
  ]

  -- Bit 6 of two reads differs while the chip works.
  pub wait : ℕ → D → Option D
  wait zero d = none
  wait (suc left) d =
      let (tmp, d') = bus.read 0 2 d in
      let rest = wait left d' in
      if bit_and (bit_xor (get_or tmp 0 0) (get_or tmp 1 0)) 0x40 == 0 then some d' else rest

  pub sst39sfxxxa_wait : D → Option D
  unfolding wait
  sst39sfxxxa_wait = wait patience

  -- The two writes that unlock a command, and the command.
  abbrev pub command : (flash_base code : ℕ) → D → D
  command flash_base code d =
      bus.write (flash_base + 0x5555) code
        (bus.write (flash_base + 0x2aaa) 0x55 (bus.write (flash_base + 0x5555) 0xaa d))

  -- A round of the loop.
  pub program : (flash_base addr byte : ℕ) → D → Option D
  unfolding sst39sfxxxa_wait
  program flash_base addr byte d =
      sst39sfxxxa_wait (bus.write addr byte (command flash_base 0xa0 d))

  -- The loop over the bytes from `addr` on.
  pub program_all : (flash_base addr : ℕ) → List ℕ → D → Option D
  unfolding program
  program_all flash_base addr [] d = some d
  program_all flash_base addr (b ∷ bytes) d = elim (program flash_base addr b d) [
    | none ↦ none
    | some d' ↦ program_all flash_base (addr + 1) bytes d'
  ]

  abbrev with_result : ℤ → Option D → Option (ℤ × D)
  with_result r none = none
  with_result r (some d) = some (r, d)

  pub flash_write_sst39sfxxxa : FlashInstance → List ℕ → (count at : ℕ) → D → Option (ℤ × D)
  unfolding program_all
  flash_write_sst39sfxxxa f buf count at d =
      with_result (int16 count) (program_all f.base_addr (f.base_addr + at) (take count buf) d)

  -- Every chip is of the one kind.
  pub write_to : FlashInstance → List ℕ → (at : ℕ) → D → Option (ℤ × D)
  unfolding flash_write_sst39sfxxxa clamp
  write_to f buf at d =
      if leb (flash_chip_descs f.chip).chip_size at
      then some (minus_one, d)
      else flash_write_sst39sfxxxa f buf (clamp f.chip (length buf) at) at d

  pub flash_write : (minor : ℕ) → List ℕ → (at : ℕ) → D → Option (ℤ × D)
  unfolding write_to
  flash_write minor buf at d = elim (instance_of minor) [
    | none ↦ some (minus_one, d)
    | some f ↦ write_to f buf at d
  ]

  pub erase : (flash_base addr code : ℕ) → D → Option D
  unfolding sst39sfxxxa_wait
  erase flash_base addr code d = sst39sfxxxa_wait (
      bus.write addr code (
        bus.write (flash_base + 0x2aaa) 0x55
          (bus.write (flash_base + 0x5555) 0xaa (command flash_base 0x80 d))))

  -- Request 0 erases the sector `argp`, request 1 the chip; another does nothing.
  pub flash_ioctl_sst39sfxxxa : FlashInstance → (request argp : ℕ) → D → Option (ℤ × D)
  unfolding erase
  flash_ioctl_sst39sfxxxa f request argp d =
      if request == 0
      then with_result (pos 0) (
          erase f.base_addr ((f.base_addr + argp * (flash_chip_descs f.chip).sector_size) % 2 ^ 32)
            0x30 d)
      else if request == 1
      then with_result (pos 0) (erase f.base_addr (f.base_addr + 0x5555) 0x10 d)
      else some (pos 0, d)

  pub flash_ioctl : (minor request argp : ℕ) → D → Option (ℤ × D)
  unfolding flash_ioctl_sst39sfxxxa
  flash_ioctl minor request argp d = elim (instance_of minor) [
    | none ↦ some (minus_one, d)
    | some f ↦ flash_ioctl_sst39sfxxxa f request argp d
  ]
