-- ===== src/Flash/Writes.antt =====
-- The operations of src/dev_flash.c over a chip that works.
use Prim.Native.Nat.{bit_and, bit_xor}
use mathlib.Core.Path.{fun_ext, subst}
use zosys.Common.{
  ℕ, zero, suc, ◌+◌, ◌-◌, ◌*◌, ◌%◌, ◌^◌, ◌≤◌, ◌<◌, ◌≡◌, ◌≢◌, ◌⊎◌, inl, inr, refl, ◌∙◌, arith, false,
  Bool-cases, none, some, List, [], ◌∷◌, leb, ◌==◌, min, length, take, length-take,
}
use zosys.Common.Int.{pos, minus_one, int16}
use zosys.Common.Bytes.{bytes}
use zosys.Flash.{
  Bus, wait, program, erase, sst39sfxxxa_wait, write_to, read_from, sst39sf040a, clamp, program_all,
  flash_write, flash_read, flash_ioctl, flash_write_sst39sfxxxa, flash_ioctl_sst39sfxxxa,
}
use zosys.Flash.Chip.{cleared, erased, Agree, byte_program, sector_erase, Chip}

clamp_lem : (count at : ℕ) → clamp sst39sf040a count at ≡ min count (524288 - at)
unfolding clamp
clamp_lem count at = ground arith

cleared-agree :
    (f g : ℕ → ℕ) (a : ℕ) (bs : List ℕ) (x : ℕ)
    → ((y : ℕ) → a ≤ y → f y ≡ g y)
    → f x ≡ g x
    → cleared f a bs x ≡ cleared g a bs x
unfolding cleared
cleared-agree f g a [] x h e = e
cleared-agree f g a (b ∷ bs) x h e =
    rw (h a (omega arith), cleared-agree f g (a + 1) bs x (λ y l. h y (omega arith)) e) refl

cleared-before : (f : ℕ → ℕ) (a : ℕ) (bs : List ℕ) (x : ℕ) → x < a → cleared f a bs x ≡ f x
unfolding cleared
cleared-before f a [] x h = refl
cleared-before f a (b ∷ bs) x h = ground (arith, cleared-before f (a + 1) bs x (omega arith))

-- The first two bytes are not written.
Agree-cleared : (f : ℕ → ℕ) (a : ℕ) (bs : List ℕ) → 2 ≤ a → Agree f → Agree (cleared f a bs)
Agree-cleared f a bs h agree =
    rw (cleared-before f a bs 0 (omega arith), cleared-before f a bs 1 (omega arith)) agree

-- An erased sector has all bits set in both, or in none.
pub Agree-erased : (f : ℕ → ℕ) (s : ℕ) → Agree f → Agree (erased f s 4096)
unfolding erased
Agree-erased f zero agree = refl
Agree-erased f (suc s) agree = let apart : (0 == suc s) ≡ false = ground arith in rw apart agree

differ : (n : ℕ) → n ≢ 0 → (n == 0) ≡ false
differ n h = ground arith

-- A byte, and then those behind it.
cleared-cons :
    (f : ℕ → ℕ) (a b : ℕ) (bs : List ℕ) (x : ℕ)
    → cleared (cleared f a (b ∷ [])) (a + 1) bs x ≡ cleared f a (b ∷ bs) x
unfolding cleared
cleared-cons f a b bs x = elim (Bool-cases (x == a)) [
  | inl here ↦ cleared-before (cleared f a (b ∷ [])) (a + 1) bs x (ground arith) ∙ rw here refl
  | inr other ↦
      cleared-agree (cleared f a (b ∷ [])) f (a + 1) bs x (λ y l. ground arith) (rw other refl)
      ∙ rw other refl
]

module _ {D : Type 0} {bus : Bus D} {patience : ℕ} {Holds : D → (ℕ → ℕ) → Type 0}
    {Works : D → (ℕ → ℕ) → ℕ → Type 0} (chip : Chip bus patience 524288 Holds Works) where
  -- The wait ends when the chip has done its command.
  wait_lem :
      (left n : ℕ) (f : ℕ → ℕ) (d : D)
      → n < left
      → Agree f
      → Works d f n
      → (d' : D) × (wait bus patience left d ≡ some d') × Holds d' f
  unfolding wait bytes
  wait_lem zero n f d h agree w = absurd (omega arith)
  wait_lem (suc left) zero f d h agree w =
      let (e, hf) = chip.reads d f 0 2 (omega arith) (omega arith) (chip.done d f w) in
      ((bus.read 0 2 d).1, rw (wait, e, agree) refl, hf)
  wait_lem (suc left) (suc n) f d h agree w =
      let (toggled, w') = chip.toggles d f n w in
      let (d', e, hf) = wait_lem left n f (bus.read 0 2 d).1 (omega arith) agree w' in
      let go_on = differ _ toggled in (d', rw (wait, go_on) e, hf)

  program_lem :
      (f : ℕ → ℕ) (a b : ℕ) (d : D)
      → a < 524288
      → Agree (cleared f a (b ∷ []))
      → Holds d f
      → (d' : D) × (program bus patience 0 a b d ≡ some d') × Holds d' (cleared f a (b ∷ []))
  unfolding program sst39sfxxxa_wait
  program_lem f a b d h agree hf =
      let (n, soon, w) = chip.programs d f a b h hf in
      wait_lem patience n (cleared f a (b ∷ [])) (byte_program bus a b d) soon agree w

  erase_sector_lem :
      (f : ℕ → ℕ) (s : ℕ) (d : D)
      → (s + 1) * 4096 ≤ 524288
      → Agree (erased f s 4096)
      → Holds d f
      → (d' : D) × (erase bus patience 0 (s * 4096) 0x30 d ≡ some d') × Holds d' (erased f s 4096)
  unfolding erase sst39sfxxxa_wait
  erase_sector_lem f s d h agree hf =
      let (n, soon, w) = chip.erases d f s h hf in
      wait_lem patience n (erased f s 4096) (sector_erase bus (s * 4096) d) soon agree w

  program_all_lem :
      (f : ℕ → ℕ) (a : ℕ) (bs : List ℕ) (d : D)
      → 2 ≤ a
      → a + length bs ≤ 524288
      → Agree f
      → Holds d f
      → (d' : D) × (program_all bus patience 0 a bs d ≡ some d') × Holds d' (cleared f a bs)
  unfolding program_all cleared
  program_all_lem f a [] d low h agree hf = (d, refl, hf)
  program_all_lem f a (b ∷ bs) d low h agree hf =
      let (d', e, hf') =
        program_lem f a b d (omega arith) (Agree-cleared f a (b ∷ []) low agree) hf in
      let (d'', e', hf'') =
        program_all_lem (cleared f a (b ∷ [])) (a + 1) bs d' (omega arith) (omega arith)
          (Agree-cleared f a (b ∷ []) low agree) hf' in
      (d'', rw (program_all, e) e', subst (Holds d'') (fun_ext (cleared-cons f a b bs)) hf'')

  -- A write from a place on the chip behind its first two bytes, of which bit 6 agrees, of less than 2 ^ 16 bytes, writes the bytes that fit before its end, returns their number as an `ssize_t`,
  -- and clears in the bytes of the chip the bits that are 0 in those; all others stay. From a place
  -- behind the end it returns -1 and leaves the chip alone.
  pub flash_write_lem :
      (f : ℕ → ℕ) (buf : List ℕ) (at : ℕ) (d : D)
      → 2 ≤ at
      → length buf < 2 ^ 16
      → Agree f
      → Holds d f
      → ((d' : D) × (at < 524288)
          × (let n = min (length buf) (524288 - at) in
              (flash_write bus patience 0 buf at d ≡ some (int16 n, d'))
              × Holds d' (cleared f at (take n buf))))
        ⊎ ((524288 ≤ at) × (flash_write bus patience 0 buf at d ≡ some (minus_one, d)))
  unfolding flash_write write_to flash_write_sst39sfxxxa
  flash_write_lem f buf at d low fits agree hf = elim (Bool-cases (leb 524288 at)) [
    | inl past ↦ inr (ground arith, rw (flash_write, write_to, past) refl)
    | inr inside ↦
        let n = min (length buf) (524288 - at) in
        let size = length-take n buf (omega arith) in
        let (d', e, hf') = program_all_lem f at (take n buf) d low (ground arith) agree hf in
        let start : 0 + at ≡ at = omega arith in
        inl (
          d',
          ground arith,
          (
            rw
                (
                  flash_write,
                  write_to,
                  inside,
                  clamp_lem (length buf) at,
                  flash_write_sst39sfxxxa,
                  start,
                  e,
                )
                refl,
            hf',
          ),
        )
  ]

  -- A read from a place on the chip gives the bytes there up to the chip's end, and their number as an `ssize_t`.
  pub flash_read_lem :
      (f : ℕ → ℕ) (count at : ℕ) (d : D)
      → 1 ≤ count
      → at < 524288
      → Holds d f
      → (d' : D) × (let n = min count (524288 - at) in
          flash_read bus patience 0 count at d ≡ ((int16 n, bytes f at n), d'))
        × Holds d' f
  unfolding flash_read read_from
  flash_read_lem f count at d some_bytes h hf =
      let inside : leb 524288 at ≡ false = ground arith in
      let n = min count (524288 - at) in
      let (e, hf') = chip.reads d f at n (omega arith) (omega arith) hf in
      let start : 0 + at ≡ at = omega arith in
      (
        (bus.read at n d).1,
        rw (flash_read, read_from, inside, clamp_lem count at, start, e) refl,
        hf',
      )

  -- A request to erase one of the 128 sectors returns 0 and sets all bits of its bytes alone.
  pub erase_lem :
      (f : ℕ → ℕ) (s : ℕ) (d : D)
      → s < 128
      → Agree f
      → Holds d f
      → (d' : D) × (flash_ioctl bus patience 0 0 s d ≡ some (pos 0, d'))
        × Holds d' (erased f s 4096)
  unfolding flash_ioctl flash_ioctl_sst39sfxxxa
  erase_lem f s d h agree hf =
      let (d', e, hf') = erase_sector_lem f s d (omega arith) (Agree-erased f s agree) hf in
      let start : (0 + s * 4096) % 2 ^ 32 ≡ s * 4096 = omega arith in
      (d', rw (flash_ioctl, flash_ioctl_sst39sfxxxa, start, e) refl, hf')

  -- The wait for the chip compares its first byte with its second, not one byte with itself: on a
  -- chip that works and is idle, in which bit 6 of these two differs, it does not see the end,
  -- however many rounds it makes.
  pub wait_endless :
      (left : ℕ) (f : ℕ → ℕ) (d : D) → ¬ (Agree f) → Holds d f → wait bus patience left d ≡ none
  unfolding wait bytes
  wait_endless zero f d apart hf = refl
  wait_endless (suc left) f d apart hf =
      let (e, hf') = chip.reads d f 0 2 (omega arith) (omega arith) hf in
      let go_on : (bit_and (bit_xor (f 0) (f 1)) 0x40 == 0) ≡ false = differ _ apart in
      rw (wait, e, go_on) (wait_endless left f (bus.read 0 2 d).1 apart hf')
