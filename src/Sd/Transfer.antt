-- ===== src/Sd/Transfer.antt =====
-- `sd_read` and `sd_write` of src/dev_sd.c: bytes from any place of the card, by whole blocks. A
-- partial block goes through a block of the pool of src/block_buf.c, of which the caller gets the
-- first and gives it back, so that here it is a buffer with what was in it. A
-- count is a `size_t`, below 2 ^ 16, and a result that does not fit an `ssize_t` wraps.
use zosys.Common.{
  ℕ, zero, suc, ◌+◌, ◌-◌, ◌*◌, ◌/◌, ◌%◌, ◌^◌, true, false, none, List, [], ◌∷◌, ◌++◌, if◌then◌else◌,
  ltb, ◌==◌, length, take, drop,
}
use zosys.Common.Int.{ℤ, minus_one, int16}
use zosys.Spi.{Csio}
use zosys.Sd.{Io, pure, ◌>>=◌}
use zosys.Sd.Blocks.{sd_block_len, sd_read_single_block, sd_write_single_block}

-- `bytes_to_do`
unfoldable pub bytes_to_do : (at count : ℕ) → ℕ
bytes_to_do at count =
    let n = if at % sd_block_len == 0 then sd_block_len else sd_block_len - at % sd_block_len in
    if ltb count n then count else n

abbrev pub block_of : ℕ → ℕ
block_of at = at / sd_block_len * sd_block_len

-- `memcpy(&block[i], bytes, …)`
unfoldable pub copy_into : List ℕ → ℕ → List ℕ → List ℕ
copy_into [] i bytes = []
copy_into (x ∷ block) zero [] = x ∷ block
copy_into (x ∷ block) zero (b ∷ bytes) = b ∷ copy_into block zero bytes
copy_into (x ∷ block) (suc i) bytes = x ∷ copy_into block i bytes

module _ {D : Type 0} (read_block : ℕ → List ℕ → Io D (ℕ × ℕ × List ℕ))
    (write_block : ℕ → List ℕ → Io D (ℕ × ℕ)) where
  -- A round of `sd_read`: the bytes for `buf`, and the block of the pool. `n` is `bytes_to_do`.
  abbrev pub read_round : (n at : ℕ) (buf block : List ℕ) → Io D (List ℕ × List ℕ)
  read_round n at buf block = elim (ltb n sd_block_len) [
    | true ↦ (do
      r ← read_block (block_of at) block
      pure (take n (drop (at % sd_block_len) r.2), r.2))
    | false ↦ (do r ← read_block (block_of at) (take sd_block_len buf); pure (r.2, block))
  ]

  -- `buf` is what is left of the buffer, so that its length is `count`.
  unfoldable pub read_rounds : (fuel at : ℕ) (buf block : List ℕ) → Io D (List ℕ)
  unfolding bytes_to_do
  read_rounds zero at buf block d = none
  read_rounds (suc fuel) at [] block d = pure [] d
  read_rounds (suc fuel) at (x ∷ xs) block d =
      let n = bytes_to_do at (length (x ∷ xs)) in
      (do
        r ← read_round n at (x ∷ xs) block
        rest ← read_rounds fuel ((at + n) % 2 ^ 32) (drop n (x ∷ xs)) r.1
        pure (r.0 ++ rest))
        d

  -- A round of `sd_write`, of these bytes: the block of the pool.
  abbrev pub write_round : (at : ℕ) (bytes block : List ℕ) → Io D (List ℕ)
  unfolding copy_into
  write_round at bytes block = elim (ltb (length bytes) sd_block_len) [
    | true ↦ (do
      r ← read_block (block_of at) block
      w ← write_block (block_of at) (copy_into r.2 (at % sd_block_len) bytes)
      pure (copy_into r.2 (at % sd_block_len) bytes))
    | false ↦ (do w ← write_block (block_of at) bytes; pure block)
  ]

  unfoldable pub write_rounds : (fuel at : ℕ) (buf block : List ℕ) → Io D (Unit {0})
  unfolding bytes_to_do copy_into
  write_rounds zero at buf block d = none
  write_rounds (suc fuel) at [] block d = pure tt d
  write_rounds (suc fuel) at (x ∷ xs) block d =
      let n = bytes_to_do at (length (x ∷ xs)) in
      (do
        b ← write_round at (take n (x ∷ xs)) block
        write_rounds fuel ((at + n) % 2 ^ 32) (drop n (x ∷ xs)) b)
        d

  -- The result, and the buffer after the call. A round does a byte at least.
  unfoldable pub read_bytes : (minor at : ℕ) (buf block : List ℕ) → Io D (ℤ × List ℕ)
  unfolding read_rounds
  read_bytes minor at buf block = elim (minor == 0) [
    | false ↦ pure (minus_one, buf)
    | true ↦ (do
      bytes ← read_rounds (suc (length buf)) at buf block
      pure (int16 (length buf), bytes))
  ]

  unfoldable pub write_bytes : (minor at : ℕ) (buf block : List ℕ) → Io D ℤ
  unfolding write_rounds
  write_bytes minor at buf block = elim (minor == 0) [
    | false ↦ pure minus_one
    | true ↦ (do u ← write_rounds (suc (length buf)) at buf block; pure (int16 (length buf)))
  ]

module _ {D : Type 0} (port : Csio D) (passive patience : ℕ) where
  unfoldable pub sd_read : (minor at : ℕ) (buf block : List ℕ) → Io D (ℤ × List ℕ)
  unfolding read_bytes sd_read_single_block sd_write_single_block
  sd_read =
      read_bytes (sd_read_single_block port passive patience)
        (sd_write_single_block port passive patience)

  unfoldable pub sd_write : (minor at : ℕ) (buf block : List ℕ) → Io D ℤ
  unfolding write_bytes sd_read_single_block sd_write_single_block
  sd_write =
      write_bytes (sd_read_single_block port passive patience)
        (sd_write_single_block port passive patience)
