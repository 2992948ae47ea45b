-- ===== src/Sd/Wire.antt =====
-- `sd_read` and `sd_write` of src/dev_sd.c over a card that follows the SPI protocol on the wire.
use zosys.Common.{
  ℕ, ◌+◌, ◌*◌, ◌/◌, ◌%◌, ◌^◌, ◌≤◌, ◌<◌, ◌≡◌, ◌≢◌, refl, some, List, [], ◌∷◌, ◌++◌, length,
  replicate,
}
use Prim.Native.Nat.{bit_and, bit_or}
use zosys.Common.Bytes.{bytes, AreBytes, length-bytes}
use zosys.Common.Int.{int16}
use zosys.Spi.{Csio, reverse, spi_out_byte, spi_cs1, spi_cs_none}
use zosys.Sd.{
  out, select, deselect, assert_cs, deassert_cs, sd_command, sd_max_read_attempts,
  sd_max_write_attempts,
}
use zosys.Sd.Blocks.{send_block, sd_read_single_block, sd_write_single_block}
use zosys.Sd.Answers.{Answers}
use zosys.Sd.BlockReads.{sd_read_single_block_lem}
use zosys.Sd.BlockWrites.{taken, sd_write_single_block_lem}
use zosys.Sd.Card.{over, Card}
use zosys.Sd.Transfer.{sd_read, sd_write}
use zosys.Sd.Reads.{read_bytes_lem}
use zosys.Sd.Writes.{write_bytes_lem}

-- The six bytes of a command: its number with a start bit, the address, and an end bit.
abbrev pub frame : (code addr : ℕ) → List ℕ
frame code addr =
    code
    ∷ addr / 2 ^ 24 % 2 ^ 8
    ∷ addr / 2 ^ 16 % 2 ^ 8
    ∷ addr / 2 ^ 8 % 2 ^ 8
    ∷ addr / 2 ^ 0 % 2 ^ 8
    ∷ 0x01
    ∷ []

module _ {D : Type 0} (port : Csio D) (passive patience : ℕ) where
  abbrev pub sent : List ℕ → D → D
  sent [] d = d
  sent (b ∷ bs) d = sent bs (port.send (reverse b) d)

  -- Chip select 1 goes low, and both are high, between idle bytes.
  abbrev pub selected : D → D
  selected d =
      sent (0xff ∷ []) (port.io_system (bit_or 0x08 (bit_and passive 0xf3)) (sent (0xff ∷ []) d))

  abbrev pub released : D → D
  released d =
      sent (0xff ∷ []) (port.io_system (bit_or 0x0c (bit_and passive 0xf3)) (sent (0xff ∷ []) d))

  -- `Holds d f`: the card is idle and its bytes are `f`. To a read of a block, command 17, it answers
  -- with R1 of 0, a start token, the block and a CRC; to a write, command 24, with R1 of 0, and to the
  -- start token and the block with a data response of 5 and a time in which it is busy. Each comes
  -- within the attempts that the driver has.
  pub record Wire (Holds : D → (ℕ → ℕ) → Type 0) : Type 0 where
    pub are_bytes : (d : D) (f : ℕ → ℕ) → Holds d f → (x : ℕ) → f x < 256
    pub answers_read :
        (d : D) (f : ℕ → ℕ) (b : ℕ)
        → b * 512 < 2 ^ 32
        → Holds d f
        → (i j c e : ℕ) × (d' : D) × (i < patience)
          × (j < sd_max_read_attempts)
          × Answers port passive patience
              (sent (frame 0x51 (b * 512)) (selected d))
              ((replicate i 0xff ++ 0 ∷ [])
                ++ ((replicate j 0xff ++ 0xfe ∷ []) ++ (bytes f (b * 512) 512 ++ c ∷ e ∷ [])))
              d'
          × Holds (released d') f
    pub answers_write :
        (d : D) (f : ℕ → ℕ) (b : ℕ) (bs : List ℕ)
        → b * 512 < 2 ^ 32
        → length bs ≡ 512
        → AreBytes bs
        → Holds d f
        → (i j n answer t : ℕ) × (m d' : D) × (i < patience)
          × (j < sd_max_write_attempts)
          × (n < sd_max_write_attempts)
          × (bit_and answer 0x1f ≡ 5)
          × (answer ≢ 0xff)
          × (t ≢ 0)
          × Answers port passive patience
              (sent (frame 0x58 (b * 512)) (selected d))
              (replicate i 0xff ++ 0 ∷ [])
              m
          × Answers port passive patience
              (sent bs (sent (0xfe ∷ []) m))
              ((replicate j 0xff ++ answer ∷ []) ++ (replicate n 0x00 ++ t ∷ []))
              d'
          × Holds (released d') (over f (b * 512) bs)

  up_lem : (d : D) → assert_cs port passive patience d ≡ some (tt, selected d)
  unfolding assert_cs out select spi_out_byte spi_cs1
  up_lem d = refl

  down_lem : (d : D) → deassert_cs port passive patience d ≡ some (tt, released d)
  unfolding deassert_cs out deselect spi_out_byte spi_cs_none
  down_lem d = refl

  read_command_lem :
      (addr : ℕ) (d : D)
      → sd_command port passive patience 17 addr 0 d ≡ some (tt, sent (frame 0x51 addr) d)
  unfolding sd_command out spi_out_byte
  read_command_lem addr d = refl

  write_command_lem :
      (addr : ℕ) (d : D)
      → sd_command port passive patience 24 addr 0 d ≡ some (tt, sent (frame 0x58 addr) d)
  unfolding sd_command out spi_out_byte
  write_command_lem addr d = refl

  token_lem : (d : D) → out port passive patience 0xfe d ≡ some (tt, sent (0xfe ∷ []) d)
  unfolding out spi_out_byte
  token_lem d = refl

  send_block_lem :
      (bs : List ℕ) (d : D) → send_block port passive patience bs d ≡ some (tt, sent bs d)
  unfolding send_block out spi_out_byte
  send_block_lem [] d = refl
  send_block_lem (b ∷ bs) d = send_block_lem bs (port.send (reverse b) d)

module _ {D : Type 0} {port : Csio D} {passive patience : ℕ} {Holds : D → (ℕ → ℕ) → Type 0}
    (wire : Wire port passive patience Holds) where
  -- The two calls of the driver that move a block do what `sd_read` and `sd_write` rely on.
  card :
      Card
        (sd_read_single_block port passive patience)
        (sd_write_single_block port passive patience)
        Holds
  card = record {
    are_bytes = wire.are_bytes;
    reads = λ d f b buf h size hf.
        let (i, j, c, e, d', hi, hj, a, later) = wire.answers_read d f b h hf in
        (
          0,
          0xfe,
          released port passive patience d',
          sd_read_single_block_lem port passive patience (some (bytes f (b * 512) 512)) i j
              sd_max_read_attempts 0 c e (b * 512) buf d _ _ d' _ (up_lem port passive patience d)
              (read_command_lem port passive patience (b * 512) _) hi hj refl refl
              (length-bytes f (b * 512) 512) (down_lem port passive patience d') a,
          later,
        );
    writes = λ d f b bs h size by hf.
        let (i, j, n, answer, t, m, d', hi, hj, hn, took, other, ready, a, a', later) =
          wire.answers_write d f b bs h size by hf in
        (
          0,
          0x05,
          released port passive patience d',
          sd_write_single_block_lem port passive patience (taken n t) i j answer (b * 512) bs d _ _
              m _ _ d' _ (up_lem port passive patience d)
              (write_command_lem port passive patience (b * 512) _) hi a
              (token_lem port passive patience m) (send_block_lem port passive patience bs _) hj
              other (took, hn, ready) a' (down_lem port passive patience d'),
          later,
        );
  }

  -- From a card that follows the protocol, whose bytes are `f`, `sd_read` of card 0 of less than 2 ^ 16
  -- bytes that end before 2 ^ 32, with a block of 512 bytes from the pool, returns the count as an
  -- `ssize_t` and fills the buffer with the bytes of `f` from that place on, wherever in a block the
  -- place and the end are; the bytes of the card stay.
  pub sd_read_lem :
      (f : ℕ → ℕ) (at : ℕ) (buf block : List ℕ) (d : D)
      → at + length buf ≤ 2 ^ 32
      → length buf < 2 ^ 16
      → length block ≡ 512
      → Holds d f
      → (d' : D) × (sd_read port passive patience 0 at buf block d
          ≡ some ((int16 (length buf), bytes f at (length buf)), d'))
        × Holds d' f
  unfolding sd_read
  sd_read_lem f at buf block d h fits hb hf = read_bytes_lem card f at buf block d h hb hf

  -- To a card that follows the protocol, whose bytes are `f`, `sd_write` of card 0 of less than 2 ^ 16
  -- bytes that end before 2 ^ 32, with a block of 512 bytes from the pool, returns the count as an
  -- `ssize_t`, and the card's bytes are then those of the buffer from that place on and those of `f`
  -- elsewhere, also in the blocks that the call writes in part.
  pub sd_write_lem :
      (f : ℕ → ℕ) (at : ℕ) (buf block : List ℕ) (d : D)
      → at + length buf ≤ 2 ^ 32
      → length buf < 2 ^ 16
      → length block ≡ 512
      → AreBytes buf
      → Holds d f
      → (d' : D) × (sd_write port passive patience 0 at buf block d ≡ some (int16 (length buf), d'))
        × Holds d' (over f at buf)
  unfolding sd_write
  sd_write_lem f at buf block d h fits hb by hf = write_bytes_lem card f at buf block d h hb by hf
