-- ===== src/Flash/RoundTrip.antt =====
-- A sector of the flash chip erased, written and read back, by the calls of src/dev_flash.c.
use Prim.Native.Nat.{bit_and}
use zosys.Common.{
  ℕ, zero, suc, ◌+◌, ◌-◌, ◌*◌, ◌/◌, ◌≤◌, ◌<◌, ◌≡◌, inl, inr, refl, ap, ◌∙◌, arith, Bool, true, some,
  List, [], ◌∷◌, ◌==◌, min, length, take, take_all,
}
use mathlib.Core.Path.{subst}
use zosys.Common.Int.{pos, int16, int16_small}
use zosys.Common.Bytes.{bytes, AreBytes}
use zosys.Common.Bits.{holds_from, at_of_holds}
use zosys.Flash.{Bus, flash_write, flash_read, flash_ioctl}
use zosys.Flash.Chip.{cleared, erased, Agree, Chip}
use zosys.Flash.Writes.{flash_write_lem, flash_read_lem, erase_lem, Agree-erased}

same_byte : ℕ → Bool
same_byte b = bit_and 255 b == b

ones_table : holds_from same_byte 0 256 ≡ true
unfolding holds_from same_byte
ones_table = refl

ones_lem : (b : ℕ) → b < 256 → bit_and 255 b ≡ b
unfolding same_byte
ones_lem b h =
    let e = at_of_holds same_byte 0 256 b ones_table (omega arith) (omega arith) in
    ground (arith, e)

bytes-agree : (f g : ℕ → ℕ) (a n : ℕ) → ((y : ℕ) → a ≤ y → f y ≡ g y) → bytes f a n ≡ bytes g a n
unfolding bytes
bytes-agree f g a zero h = refl
bytes-agree f g a (suc n) h =
    rw (h a (omega arith), bytes-agree f g (a + 1) n (λ y l. h y (omega arith))) refl

bytes-cleared :
    (g : ℕ → ℕ) (a : ℕ) (bs : List ℕ)
    → AreBytes bs
    → ((y : ℕ) → a ≤ y → y < a + length bs → g y ≡ 255)
    → bytes (cleared g a bs) a (length bs) ≡ bs
unfolding bytes cleared
bytes-cleared g a [] h ones = refl
bytes-cleared g a (b ∷ bs) (small, h) ones =
    let here : (a == a) ≡ true = ground arith in
    let first : cleared g a (b ∷ bs) a ≡ b =
      rw (here, ones a (omega arith) (omega arith)) (ones_lem b small) in
    let later =
      bytes-agree (cleared g a (b ∷ bs)) (cleared g (a + 1) bs) (a + 1) (length bs)
        (λ y l. ground arith) in
    rw (first, later, bytes-cleared g (a + 1) bs h (λ y l m. ones y (omega arith) (omega arith)))
      refl

erased_lem :
    (f : ℕ → ℕ) (s off n y : ℕ)
    → off + n ≤ 4096
    → s * 4096 + off ≤ y
    → y < s * 4096 + off + n
    → erased f s 4096 y ≡ 255
unfolding erased
erased_lem f s off n y h l m =
    let here : y / 4096 ≡ s = omega arith in
    let same : (y / 4096 == s) ≡ true = ground (arith, here) in rw same refl

module _ {D : Type 0} {bus : Bus D} {patience : ℕ} {Holds : D → (ℕ → ℕ) → Type 0}
    {Works : D → (ℕ → ℕ) → ℕ → Type 0} (chip : Chip bus patience 524288 Holds Works) where
  -- What is written to an erased sector is read back: after request 0 for a sector, a write of one
  -- byte or more that lie in it, and a read of as many from the same place, each call gives its full
  -- result, and the read gives the bytes that were written, whatever the chip held before. The first
  -- two bytes of the chip have to agree in bit 6, and the write must not touch them.
  pub erase_write_read :
      (f : ℕ → ℕ) (s off : ℕ) (buf : List ℕ) (d : D)
      → s < 128
      → 1 ≤ length buf
      → off + length buf ≤ 4096
      → 2 ≤ s * 4096 + off
      → AreBytes buf
      → Agree f
      → Holds d f
      → (d1 d2 d3 : D) × (flash_ioctl bus patience 0 0 s d ≡ some (pos 0, d1))
        × (flash_write bus patience 0 buf (s * 4096 + off) d1 ≡ some (pos (length buf), d2))
        × (flash_read bus patience 0 (length buf) (s * 4096 + off) d2
            ≡ ((pos (length buf), buf), d3))
  erase_write_read f s off buf d hs hl ho low hb agree hf =
      let a = s * 4096 + off in
      let (d1, e1, h1) = erase_lem chip f s d hs agree hf in
      let n : min (length buf) (524288 - a) ≡ length buf = omega arith in
      let fits = int16_small (length buf) (omega arith) in
      let all = take_all (length buf) buf (omega arith) in
      elim (flash_write_lem chip (erased f s 4096) buf a d1 low (omega arith)
        (Agree-erased f s agree) h1) [
          | inr (past, none) ↦ absurd (omega arith)
          | inl (d2, on, (e2, h2)) ↦
              let (d3, e3, h3) =
                flash_read_lem chip (cleared (erased f s 4096) a buf) (length buf) a d2 hl on (
                  subst (λ l. Holds d2 (cleared (erased f s 4096) a l))
                    (ap (λ k. take k buf) n ∙ all) h2) in
              (
                d1,
                d2,
                d3,
                e1,
                e2 ∙ ap (λ k. some (int16 k, d2)) n ∙ ap (λ r. some (r, d2)) fits,
                e3
                    ∙ ap (λ k. ((int16 k, bytes (cleared (erased f s 4096) a buf) a k), d3)) n
                    ∙ ap (λ r. ((r, bytes (cleared (erased f s 4096) a buf) a (length buf)), d3))
                        fits
                    ∙ ap (λ l. ((pos (length buf), l), d3))
                        (bytes-cleared (erased f s 4096) a buf hb
                          (λ y l m. erased_lem f s off (length buf) y ho l m)),
              )
        ]
