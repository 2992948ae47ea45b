-- ===== src/Sd/Examples.antt =====
-- Runs of the SD card's commands that move a block, on cards that answer one of them.
use zosys.Common.{
  ℕ, zero, suc, ◌++◌, ◌≡◌, refl, some, List, [], ◌∷◌, replicate, arith, length-replicate,
}
use zosys.Spi.{Csio, spi_in_byte, spi_out_byte, spi_cs1, spi_cs_none, reverse}
use zosys.Sd.{out, select, deselect, assert_cs, deassert_cs, sd_command, sd_start_token}
use zosys.Sd.Blocks.{sd_read_single_block, sd_write_single_block, send_block}
use zosys.Sd.Answers.{Answers}
use zosys.Sd.BlockReads.{data_bytes, token_of, block_or, sd_read_single_block_lem}
use zosys.Sd.BlockWrites.{taken, reply_bytes, sd_write_single_block_lem}
use zosys.Sd.Transfer.{bytes_to_do}

-- The first byte of the second block on its own, and the last two of the first.
read_example : bytes_to_do 510 100 ≡ 2
unfolding bytes_to_do
read_example = refl

-- A card that answers R1, the start token and then ones for ever.
abbrev next : ℕ → ℕ × ℕ
next zero = (0x00, 1)
next (suc zero) = (0x7f, 2)
next (suc (suc n)) = (0xff, 2)

abbrev port : Csio ℕ
port = record { send = λ b d. d; receive = next; io_system = λ b d. d }

ones :
    (n : ℕ) (bs : List ℕ) → Answers port 0 9 2 bs 2 → Answers port 0 9 2 (replicate n 0xff ++ bs) 2
unfolding spi_in_byte reverse
ones zero bs a = a
ones (suc n) bs a = (refl, ones n bs a)

block_answer :
    Answers port 0 9 0
      ((replicate 0 0xff ++ 0x00 ∷ []) ++ data_bytes (some (replicate 512 0xff)) 0 1563 0xff 0xff)
      2
unfolding spi_in_byte reverse
block_answer = (refl, (refl, ones 512 (0xff ∷ 0xff ∷ []) (refl, (refl, refl))))

port_up : assert_cs port 0 9 0 ≡ some (tt, 0)
unfolding assert_cs out select spi_out_byte spi_cs1
port_up = refl

port_command : sd_command port 0 9 17 1024 0 0 ≡ some (tt, 0)
unfolding sd_command out spi_out_byte
port_command = refl

port_down : deassert_cs port 0 9 2 ≡ some (tt, 2)
unfolding deassert_cs out deselect spi_out_byte spi_cs_none
port_down = refl

sd_read_single_block_lem_example :
    sd_read_single_block port 0 9 1024 [] 0
    ≡ some
        ((0x00, token_of (some (replicate 512 0xff)), block_or (some (replicate 512 0xff)) []), 2)
sd_read_single_block_lem_example =
    sd_read_single_block_lem port 0 9 (some (replicate 512 0xff)) 0 0 1563 0x00 0xff 0xff 1024 [] 0
      0 0 2 2 port_up port_command (omega arith) (omega arith) refl refl
      (length-replicate {A = ℕ} 512 0xff) port_down block_answer

-- A card that answers R1, takes the block, is busy for one byte and then idle.
abbrev next_taken : ℕ → ℕ × ℕ
next_taken zero = (0x00, 1)
next_taken (suc zero) = (0xa7, 2)
next_taken (suc (suc zero)) = (0x00, 3)
next_taken (suc (suc (suc n))) = (0xff, 3)

abbrev port_taken : Csio ℕ
port_taken = record { send = λ b d. d; receive = next_taken; io_system = λ b d. d }

taken_up : assert_cs port_taken 0 9 0 ≡ some (tt, 0)
unfolding assert_cs out select spi_out_byte spi_cs1
taken_up = refl

taken_command : sd_command port_taken 0 9 24 1024 0 0 ≡ some (tt, 0)
unfolding sd_command out spi_out_byte
taken_command = refl

taken_r1 : Answers port_taken 0 9 0 (0x00 ∷ []) 1
unfolding spi_in_byte reverse
taken_r1 = (refl, refl)

taken_block : send_block port_taken 0 9 (7 ∷ 8 ∷ 9 ∷ []) 1 ≡ some (tt, 1)
unfolding send_block out spi_out_byte
taken_block = refl

taken_token : out port_taken 0 9 sd_start_token 1 ≡ some (tt, 1)
unfolding out spi_out_byte
taken_token = refl

taken_answer :
    Answers port_taken 0 9 1 ((replicate 0 0xff ++ 0xe5 ∷ []) ++ reply_bytes (taken 1 0xff)) 3
unfolding spi_in_byte reverse
taken_answer = (refl, (refl, (refl, refl)))

taken_down : deassert_cs port_taken 0 9 3 ≡ some (tt, 3)
unfolding deassert_cs out deselect spi_out_byte spi_cs_none
taken_down = refl

sd_write_single_block_lem_example :
    sd_write_single_block port_taken 0 9 1024 (7 ∷ 8 ∷ 9 ∷ []) 0 ≡ some ((0x00, 0x05), 3)
sd_write_single_block_lem_example =
    sd_write_single_block_lem port_taken 0 9 (taken 1 0xff) 0 0 0xe5 1024 (7 ∷ 8 ∷ 9 ∷ []) 0 0 0 1 1
      1 3 3 taken_up taken_command (omega arith) taken_r1 taken_token taken_block (omega arith)
      (ground arith) (refl, omega arith, ground arith) taken_answer taken_down
