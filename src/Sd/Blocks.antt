-- ===== src/Sd/Blocks.antt =====
-- `sd_read_single_block` and `sd_write_single_block` of src/dev_sd.c. The first gives the buffer as it
-- is after the call.
use Prim.Native.Nat.{bit_and}
use zosys.Common.{ℕ, zero, suc, true, false, List, [], ◌∷◌, if◌then◌else◌, ◌==◌}
use zosys.Spi.{Csio}
use zosys.Sd.{
  Io, pure, ◌>>=◌, ◌>>◌, out, inp, assert_cs, deassert_cs, sd_command, sd_response_r1,
  sd_start_token, sd_max_read_attempts, sd_max_write_attempts,
}

abbrev pub sd_block_len : ℕ
sd_block_len = 512

module _ {D : Type 0} (port : Csio D) (passive patience : ℕ) where
  -- The loop for another byte than `idle`, with `left` attempts to go; `last` is the byte read last.
  unfoldable pub await_token : (idle left last : ℕ) → Io D ℕ
  await_token idle zero last = pure last
  await_token idle (suc left) last = do
    b ← inp port passive patience
    elim (b == idle) [ true ↦ await_token idle left b | false ↦ pure b ]

  unfoldable pub receive_block : ℕ → Io D (List ℕ)
  receive_block zero = pure []
  receive_block (suc left) = do
    b ← inp port passive patience
    bs ← receive_block left
    pure (b ∷ bs)

  unfoldable pub send_block : List ℕ → Io D (Unit {0})
  send_block [] = pure tt
  send_block (b ∷ bs) = do out port passive patience b; send_block bs

  -- The block behind a start token, with its two bytes of CRC.
  unfoldable pub data_block : ℕ → List ℕ → Io D (List ℕ)
  unfolding receive_block
  data_block token buf = elim (token == sd_start_token) [
    | false ↦ pure buf
    | true ↦ (do
      bs ← receive_block sd_block_len
      c ← inp port passive patience
      e ← inp port passive patience
      pure bs)
  ]

  unfoldable pub wait_and_read : ℕ → List ℕ → Io D (ℕ × List ℕ)
  unfolding await_token
  wait_and_read token buf = do
    t ← await_token 0xff sd_max_read_attempts 0xff
    bs ← data_block t buf
    pure (t, bs)

  -- R1, the token (0xFF if none was set), and the buffer.
  unfoldable pub sd_read_single_block : (addr : ℕ) (buf : List ℕ) → Io D (ℕ × ℕ × List ℕ)
  unfolding assert_cs deassert_cs sd_command sd_response_r1
  sd_read_single_block addr buf = do
    assert_cs port passive patience
    sd_command port passive patience 17 addr 0x00
    r1 ← sd_response_r1 port passive patience
    r ← (elim (r1 == 0xff) [ true ↦ pure (0xff, buf) | false ↦ wait_and_read 0xff buf ])
    deassert_cs port passive patience
    pure (r1, r.0, r.1)

  -- The wait while the card is busy with the block, which it took.
  unfoldable pub busy : ℕ → Io D ℕ
  unfolding await_token
  busy read = do
    b ← await_token 0x00 sd_max_write_attempts read
    pure (if b == 0 then 0x00 else 0x05)

  unfoldable pub send_data : List ℕ → Io D ℕ
  unfolding await_token busy
  send_data buf = do
    out port passive patience sd_start_token
    send_block buf
    b ← await_token 0xff sd_max_write_attempts 0xff
    elim (bit_and b 0x1f == 0x05) [ true ↦ busy b | false ↦ pure 0xff ]

  -- R1 and the token.
  unfoldable pub sd_write_single_block : (addr : ℕ) (buf : List ℕ) → Io D (ℕ × ℕ)
  unfolding send_data assert_cs deassert_cs sd_command sd_response_r1
  sd_write_single_block addr buf = do
    assert_cs port passive patience
    sd_command port passive patience 24 addr 0x00
    r1 ← sd_response_r1 port passive patience
    token ← (elim (r1 == 0) [ true ↦ send_data buf | false ↦ pure 0xff ])
    deassert_cs port passive patience
    pure (r1, token)
