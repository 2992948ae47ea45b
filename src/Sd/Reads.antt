-- ===== src/Sd/Reads.antt =====
-- `sd_read` of src/dev_sd.c over a card that works: what is read is what the card holds.
use zosys.Common.{
  ℕ, zero, suc, ◌+◌, ◌-◌, ◌*◌, ◌/◌, ◌%◌, ◌^◌, ◌≤◌, ◌<◌, ◌≡◌, refl, ap, inl, inr, false, List, [],
  ◌∷◌, some, ltb, arith, Bool-cases, length-take, length-drop, length, take, drop,
}
use zosys.Common.Int.{int16}
use zosys.Sd.{Io}
use zosys.Sd.Transfer.{bytes_to_do, read_round, read_rounds, read_bytes}
use zosys.Common.Bytes.{bytes, length-bytes}
use zosys.Sd.Card.{Card, bytes-eq, bytes-wrap, take-drop-bytes}

pub bytes_to_do-bounds :
    (at c : ℕ)
    → 1 ≤ c
    → (1 ≤ bytes_to_do at c) × (bytes_to_do at c ≤ c) × (at % 512 + bytes_to_do at c ≤ 512)
unfolding bytes_to_do
bytes_to_do-bounds at c h = ground arith

pub block_of-lt : (at : ℕ) → at < 2 ^ 32 → at / 512 * 512 < 2 ^ 32
block_of-lt at h = omega arith

pub all_of : (n i : ℕ) → i + n ≤ 512 → ltb n 512 ≡ false → 512 ≡ n
all_of n i h w = ground arith

-- A whole block starts at the place.
pub block_of-whole : (at n : ℕ) → at % 512 + n ≤ 512 → ltb n 512 ≡ false → at / 512 * 512 ≡ at
block_of-whole at n h w = let e = all_of n (at % 512) h w in omega arith

module _ {D : Type 0} {read_block : ℕ → List ℕ → Io D (ℕ × ℕ × List ℕ)}
    {write_block : ℕ → List ℕ → Io D (ℕ × ℕ)} {Holds : D → (ℕ → ℕ) → Type 0}
    (card : Card read_block write_block Holds) where
  round_lem :
      (f : ℕ → ℕ) (n at : ℕ) (buf block : List ℕ) (d : D)
      → at < 2 ^ 32
      → at % 512 + n ≤ 512
      → n ≤ length buf
      → length block ≡ 512
      → Holds d f
      → (block' : List ℕ) × (d' : D) × (read_round read_block write_block n at buf block d
          ≡ some ((bytes f at n, block'), d'))
        × (length block' ≡ 512)
        × Holds d' f
  round_lem f n at buf block d h hn hl hb hf = elim (Bool-cases (ltb n 512)) [
    | inl part ↦
        let (r1, token, d', e, hf') = card.reads d f (at / 512) block (block_of-lt at h) hb hf in
        (
          bytes f (at / 512 * 512) 512,
          d',
          rw
              (
                read_round,
                part,
                e,
                take-drop-bytes f (at / 512 * 512) (at % 512) n 512 hn,
                bytes-eq f (at / 512 * 512 + at % 512) at n n (omega arith) refl,
              )
              refl,
          length-bytes f (at / 512 * 512) 512,
          hf',
        )
    | inr whole ↦
        let (r1, token, d', e, hf') =
          card.reads d f (at / 512) (take 512 buf) (block_of-lt at h)
            (length-take 512 buf (ground arith)) hf in
        (
          block,
          d',
          rw
              (
                read_round,
                whole,
                e,
                bytes-eq f (at / 512 * 512) at 512 n (block_of-whole at n hn whole)
                    (all_of n (at % 512) hn whole),
              )
              refl,
          hb,
          hf',
        )
  ]

  rounds_lem :
      (fuel : ℕ) (f : ℕ → ℕ) (at : ℕ) (buf block : List ℕ) (d : D)
      → length buf < fuel
      → at + length buf ≤ 2 ^ 32
      → length block ≡ 512
      → Holds d f
      → (d' : D) × (read_rounds read_block write_block fuel at buf block d
          ≡ some (bytes f at (length buf), d'))
        × Holds d' f
  unfolding read_rounds bytes
  rounds_lem zero f at buf block d hu h hb hf = absurd (omega arith)
  rounds_lem (suc fuel) f at [] block d hu h hb hf = (d, refl, hf)
  rounds_lem (suc fuel) f at (x ∷ xs) block d hu h hb hf =
      let c = length (x ∷ xs) in
      let n = bytes_to_do at c in
      let (low, high, fits) = bytes_to_do-bounds at c (omega arith) in
      let (block', d', e, hb', hf') =
        round_lem f n at (x ∷ xs) block d (omega arith) fits high hb hf in
      let left = length-drop n (x ∷ xs) in
      let (d'', e', hf'') =
        rounds_lem fuel f ((at + n) % 2 ^ 32) (drop n (x ∷ xs)) block' d' (omega arith)
          (omega arith) hb' hf' in
      (
        d'',
        rw (e, e', left, bytes-wrap f at n (c - n) (omega arith))
            (ap (λ l. some (l, d'')) (bytes-eq f at at (n + (c - n)) c refl (omega arith))),
        hf'',
      )

  -- From a card that works, whose bytes are `f`, a call of `sd_read` on minor 0 that ends before 2
  -- ^ 32, with a block of 512 bytes from the pool, returns the count as an `ssize_t` and fills the buffer with the
  -- bytes of `f` from that place on, wherever in a block the place and the end are; the bytes of
  -- the card stay.
  pub read_bytes_lem :
      (f : ℕ → ℕ) (at : ℕ) (buf block : List ℕ) (d : D)
      → at + length buf ≤ 2 ^ 32
      → length block ≡ 512
      → Holds d f
      → (d' : D) × (read_bytes read_block write_block 0 at buf block d
          ≡ some ((int16 (length buf), bytes f at (length buf)), d'))
        × Holds d' f
  unfolding read_bytes
  read_bytes_lem f at buf block d h hb hf =
      let (d', e, hf') = rounds_lem (suc (length buf)) f at buf block d (omega arith) h hb hf in
      (d', rw e refl, hf')
