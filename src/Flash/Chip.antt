-- ===== src/Flash/Chip.antt =====
-- What a flash chip does on the bus: `Holds d f` says that its bytes are `f`. A write can only clear
-- bits, and an erase sets those of a sector or of all.
use Prim.Native.Nat.{bit_and, bit_xor}
use zosys.Common.{
  ℕ, zero, suc, ◌≢◌, get_or, ◌+◌, ◌*◌, ◌/◌, ◌<◌, ◌≤◌, ◌≡◌, List, [], ◌∷◌, if◌then◌else◌, ◌==◌,
}
use zosys.Common.Bytes.{bytes}
use zosys.Flash.{Bus}

-- `f`, but from `a` on with the bits cleared that are 0 in those bytes.
unfoldable pub cleared : (ℕ → ℕ) → ℕ → List ℕ → ℕ → ℕ
cleared f a [] x = f x
cleared f a (b ∷ bs) x = if x == a then bit_and (f a) b else cleared f (a + 1) bs x

unfoldable pub erased : (ℕ → ℕ) → (sector size : ℕ) → ℕ → ℕ
erased f sector size x = if x / size == sector then 0xff else f x

-- Bit 6 is the same in the first two bytes, so that the wait for the chip sees that it is done.
abbrev pub Agree : (ℕ → ℕ) → Type 0
Agree f = bit_and (bit_xor (f 0) (f 1)) 0x40 ≡ 0

-- The commands of the data sheet: two bytes that unlock and a code, and for an erase both twice.
abbrev pub byte_program : {D : Type 0} → Bus D → (a b : ℕ) → D → D
byte_program bus a b d =
    bus.write a b (bus.write 0x5555 0xa0 (bus.write 0x2aaa 0x55 (bus.write 0x5555 0xaa d)))

abbrev pub sector_erase : {D : Type 0} → Bus D → (a : ℕ) → D → D
sector_erase bus a d = bus.write a 0x30 (
    bus.write 0x2aaa 0x55 (
      bus.write 0x5555 0xaa
        (bus.write 0x5555 0x80 (bus.write 0x2aaa 0x55 (bus.write 0x5555 0xaa d)))))

-- `Holds d f`: the chip is idle and its bytes are `f`. `Works d f n`: it works on a command, after
-- which its bytes are `f`, for `n` more readings of its first two bytes; in these bit 6 toggles.
-- `patience` bounds the time of a command.
pub record Chip {D : Type 0} (bus : Bus D) (patience size : ℕ) (Holds : D → (ℕ → ℕ) → Type 0)
    (Works : D → (ℕ → ℕ) → ℕ → Type 0) : Type 0 where
  pub reads :
      (d : D) (f : ℕ → ℕ) (a n : ℕ)
      → 1 ≤ n
      → a + n ≤ size
      → Holds d f
      → ((bus.read a n d).0 ≡ bytes f a n) × Holds (bus.read a n d).1 f
  pub programs :
      (d : D) (f : ℕ → ℕ) (a b : ℕ)
      → a < size
      → Holds d f
      → (n : ℕ) × (n < patience) × Works (byte_program bus a b d) (cleared f a (b ∷ [])) n
  pub erases :
      (d : D) (f : ℕ → ℕ) (s : ℕ)
      → (s + 1) * 4096 ≤ size
      → Holds d f
      → (n : ℕ) × (n < patience) × Works (sector_erase bus (s * 4096) d) (erased f s 4096) n
  pub toggles :
      (d : D) (f : ℕ → ℕ) (n : ℕ)
      → Works d f (suc n)
      → (bit_and (bit_xor (get_or (bus.read 0 2 d).0 0 0) (get_or (bus.read 0 2 d).0 1 0)) 0x40 ≢ 0)
        × Works (bus.read 0 2 d).1 f n
  pub done : (d : D) (f : ℕ → ℕ) → Works d f zero → Holds d f
