-- ===== src/Ds1302/Bytes.antt =====
-- The bit loops of src/ds1302.c against a chip: the lowest bit goes first, both ways.
use native.Mathlib.Nat.{pow-suc}
use zosys.Common.{
  ℕ, zero, suc, ◌+◌, ◌*◌, ◌/◌, ◌%◌, ◌^◌, ◌<◌, ◌≡◌, refl, sym, ap, ◌∙◌, List, [], ◌∷◌, ◌++◌,
  append_assoc, append-nil, arith, ltb, if◌then◌else◌,
}
use zosys.Common.Bits.{and_1, or_zero, or_128}
use zosys.Common.Int.{pos}
use zosys.Ds1302.{
  Lines, read_low, read_high, write_low, write_high, shift_in, in_bits, out_bits, ds1302_in_byte,
  ds1302_out_byte,
}

-- The eight bits of a byte, the lowest first.
abbrev pub bits_of : (n b : ℕ) → List ℕ
bits_of zero b = []
bits_of (suc n) b = b % 2 ∷ bits_of n (b / 2)

-- What the chip's manual says of the lines: a bit is taken at the rise of the clock, and the next bit is
-- there once the clock is low. `sent` are the bits taken, `queue` those to come.
pub record Serial {D : Type 0} (lines : Lines D) : Type 0 where
  pub sent : D → List ℕ
  pub queue : D → List ℕ
  pub put-write :
      (b : ℕ) (d : D)
      → sent (lines.put (write_high b) (lines.put (write_low b) d)) ≡ sent d ++ b % 2 ∷ []
  pub get-read :
      (d : D) (b : ℕ) (bs : List ℕ)
      → queue d ≡ b ∷ bs
      → let (x, d') = lines.get (lines.put read_low d) in (x % 2 ≡ b) × (queue d' ≡ bs)
  pub put-read : (d : D) → queue (lines.put read_high d) ≡ queue d

module _ {D : Type 0} (lines : Lines D) (chip : Serial lines) where
  out_bits-sent :
      (left b : ℕ) (d : D)
      → b < 2 ^ left
      → ((out_bits lines left b d).0 ≡ 0)
        × (chip.sent (out_bits lines left b d).1 ≡ chip.sent d ++ bits_of left b)
  unfolding out_bits
  out_bits-sent zero b d h = (omega arith, sym (append-nil (chip.sent d)))
  out_bits-sent (suc left) b d h =
      let d' = lines.put (write_high b) (lines.put (write_low b) d) in
      let (r, all) = out_bits-sent left (b / 2) d' (omega (arith, pow-suc 2 left)) in
      (
        r,
        all
            ∙ ap (λ l. l ++ bits_of left (b / 2)) (chip.put-write b d)
            ∙ append_assoc (chip.sent d) (b % 2 ∷ []) (bits_of left (b / 2)),
      )

  -- What `ds1302_in_byte` makes of the bits that it gets.
  abbrev gather : ℕ → List ℕ → ℕ
  gather r [] = r
  gather r (b ∷ bs) = gather (r / 2 + b * 128) bs

  shift_in_lem : (r x b : ℕ) → r < 256 → x % 2 ≡ b → shift_in r x ≡ r / 2 + b * 128
  shift_in_lem r x b h e = ground (arith, and_1 x, or_zero (r / 2), or_128 (r / 2) (omega arith))

  -- The bits that are to come do not depend on a rise of the clock.
  settle :
      (i : ℕ) (d : D) → chip.queue (if ltb i 7 then lines.put read_high d else d) ≡ chip.queue d
  settle i d = ground (arith, chip.put-read d)

  in_bits-gather :
      (left i r n : ℕ) (rest : List ℕ) (d : D)
      → r < 256
      → chip.queue d ≡ bits_of left n ++ rest
      → let (b, d') = in_bits lines left i r d in
        (b ≡ gather r (bits_of left n)) × (chip.queue d' ≡ rest)
  unfolding in_bits
  in_bits-gather zero i r n rest d h e = (refl, e)
  in_bits-gather (suc left) i r n rest d h e =
      let (x, left_over) = chip.get-read d (n % 2) (bits_of left (n / 2) ++ rest) e in
      let s = shift_in_lem r (lines.get (lines.put read_low d)).0 (n % 2) h x in
      let d' = (lines.get (lines.put read_low d)).1 in
      let r' = shift_in r (lines.get (lines.put read_low d)).0 in
      let (got, end) =
        in_bits-gather left (i + 1) r' (n / 2) rest (if ltb i 7 then lines.put read_high d' else d')
          (omega (arith, s)) (settle i d' ∙ left_over) in
      (got ∙ ap (λ t. gather t (bits_of left (n / 2))) s, end)

  -- If the chip takes a bit at each rise of the clock and gives the next when the clock is low:
  -- `ds1302_out_byte` of a byte sends its eight bits, the lowest first, and returns 0; and
  -- `ds1302_in_byte` returns the byte whose bits the chip gives, the lowest first, and takes no
  -- more of them.
  pub in_byte-out_byte :
      (b n : ℕ) (rest : List ℕ) (d d' : D)
      → b < 2 ^ 8
      → n < 2 ^ 8
      → chip.queue d' ≡ bits_of 8 n ++ rest
      → let (r, e) = ds1302_out_byte lines b d in
        let (s, e') = ds1302_in_byte lines d' in
        ((r ≡ pos 0) × (chip.sent e ≡ chip.sent d ++ bits_of 8 b))
        × ((s ≡ pos n) × (chip.queue e' ≡ rest))
  unfolding ds1302_out_byte ds1302_in_byte
  in_byte-out_byte b n rest d d' hb hn e =
      let (zeroed, sent) = out_bits-sent 8 b d hb in
      let (got, left_over) = in_bits-gather 8 0 0 n rest d' (omega arith) e in
      let all : gather 0 (bits_of 8 n) ≡ n = omega arith in
      ((ap pos zeroed, sent), (ap pos (got ∙ all), left_over))
