-- ===== src/Sd/BlockWrites.antt =====
-- `sd_write_single_block` of src/dev_sd.c by what the card answers.
use Prim.Native.Nat.{bit_and}
use zosys.Common.{
  ℕ, ◌<◌, ◌≡◌, ◌≢◌, refl, sym, ap, ◌∙◌, arith, Bool, true, false, some, List, [], ◌∷◌, ◌++◌, ◌==◌,
  if◌then◌else◌, replicate,
}
use zosys.Spi.{Csio}
use zosys.Sd.{
  Io, pure, after, out, assert_cs, deassert_cs, sd_command, sd_response_r1, sd_start_token,
  sd_max_write_attempts,
}
use zosys.Sd.Blocks.{await_token, send_block, send_data, busy, sd_write_single_block}
use zosys.Sd.Answers.{Answers, split, await_r1_lem, await_other_lem, all_idle_lem}

-- What the card sends behind its answer to the block: it is busy for some bytes, does not take the
-- block, or is busy for ever.
pub data Reply : Type 0 where
  taken : (b t : ℕ) → Reply
  refused : Reply
  stuck : (n : ℕ) → Reply

abbrev pub reply_bytes : Reply → List ℕ
reply_bytes (taken b t) = replicate b 0x00 ++ t ∷ []
reply_bytes refused = []
reply_bytes (stuck n) = replicate n 0x00

-- `answer` is the data response: its lower five bits are 5 if the card takes the block.
abbrev pub IsReply : Reply → ℕ → Type 0
IsReply (taken b t) answer = (bit_and answer 0x1f ≡ 5) × (b < sd_max_write_attempts) × (t ≢ 0)
IsReply refused answer = bit_and answer 0x1f ≢ 5
IsReply (stuck n) answer = (bit_and answer 0x1f ≡ 5) × (n ≡ sd_max_write_attempts)

abbrev pub token_of : Reply → ℕ
token_of (taken b t) = 0x05
token_of refused = 0xff
token_of (stuck n) = 0x00

module _ {D : Type 0} (port : Csio D) (passive patience : ℕ) where
  busy_lem :
      (b t answer : ℕ) (d d' : D)
      → b < sd_max_write_attempts
      → t ≢ 0
      → Answers port passive patience d (replicate b 0x00 ++ t ∷ []) d'
      → busy port passive patience answer d ≡ some (0x05, d')
  unfolding busy
  busy_lem b t answer d d' h other a =
      after _
        (await_other_lem port passive patience 0x00 sd_max_write_attempts b t answer d d' h other a)
      ∙ let no : (t == 0) ≡ false = ground arith in ap (λ c. some (if c then 0x00 else 0x05, d')) no

  stuck_lem :
      (n answer : ℕ) (d d' : D)
      → n ≡ sd_max_write_attempts
      → Answers port passive patience d (replicate n 0x00) d'
      → busy port passive patience answer d ≡ some (0x00, d')
  unfolding busy
  stuck_lem n answer d d' all a = after _ (
      ap (λ k. await_token port passive patience 0x00 k answer d) (sym all)
      ∙ all_idle_lem port passive patience 0x00 n answer d d' (omega (arith, all)) a)

  -- What follows the data response.
  abbrev on_answer : ℕ → Bool → Io D ℕ
  on_answer answer c = elim c [ true ↦ busy port passive patience answer | false ↦ pure 0xff ]

  reply_lem :
      (reply : Reply) (answer : ℕ) (d d' : D)
      → IsReply reply answer
      → Answers port passive patience d (reply_bytes reply) d'
      → on_answer answer (bit_and answer 0x1f == 0x05) d ≡ some (token_of reply, d')
  reply_lem (taken b t) answer d d' (e, h, other) a =
      ap (λ x. on_answer answer (x == 0x05) d) e ∙ busy_lem b t answer d d' h other a
  reply_lem refused answer d d' ne a =
      let no : (bit_and answer 0x1f == 0x05) ≡ false = ground arith in
      ap (λ c. on_answer answer c d) no ∙ ap (λ x. some (0xff, x)) a
  reply_lem (stuck n) answer d d' (e, all) a =
      ap (λ x. on_answer answer (x == 0x05) d) e ∙ stuck_lem n answer d d' all a

  sent_lem :
      (reply : Reply) (j answer : ℕ) (buf : List ℕ) (d d1 d2 d3 : D)
      → out port passive patience sd_start_token d ≡ some (tt, d1)
      → send_block port passive patience buf d1 ≡ some (tt, d2)
      → j < sd_max_write_attempts
      → answer ≢ 0xff
      → IsReply reply answer
      → Answers port passive patience d2 ((replicate j 0xff ++ answer ∷ []) ++ reply_bytes reply) d3
      → send_data port passive patience buf d ≡ some (token_of reply, d3)
  unfolding send_data
  sent_lem reply j answer buf d d1 d2 d3 token block hj other good a =
      let (m, p, q) =
        split port passive patience (replicate j 0xff ++ answer ∷ []) (reply_bytes reply) d2 d3 a in
      after _ token
      ∙ after _ block
      ∙ after _ (
          await_other_lem port passive patience 0xff sd_max_write_attempts j answer 0xff d2 m hj
            other p)
      ∙ reply_lem reply answer m d3 good q

  -- The card answers command 24 with idle bytes and an R1 of 0, gets the start token and the block,
  -- and answers with idle bytes, fewer than the code has attempts, and a data response. If the lower
  -- five bits of that are 5 and the card is busy for fewer bytes than there are attempts, the call
  -- gives 0 and the token 5; if it is busy in all attempts, the token 0; if the lower five bits are
  -- others, the token 0xFF.
  pub sd_write_single_block_lem :
      (reply : Reply) (i j answer addr : ℕ) (buf : List ℕ) (d d1 d2 d3 d4 d5 d6 d7 : D)
      → assert_cs port passive patience d ≡ some (tt, d1)
      → sd_command port passive patience 24 addr 0 d1 ≡ some (tt, d2)
      → i < patience
      → Answers port passive patience d2 (replicate i 0xff ++ 0 ∷ []) d3
      → out port passive patience sd_start_token d3 ≡ some (tt, d4)
      → send_block port passive patience buf d4 ≡ some (tt, d5)
      → j < sd_max_write_attempts
      → answer ≢ 0xff
      → IsReply reply answer
      → Answers port passive patience d5 ((replicate j 0xff ++ answer ∷ []) ++ reply_bytes reply) d6
      → deassert_cs port passive patience d6 ≡ some (tt, d7)
      → sd_write_single_block port passive patience addr buf d ≡ some ((0, token_of reply), d7)
  unfolding sd_write_single_block sd_response_r1
  sd_write_single_block_lem reply i j answer addr buf d d1 d2 d3 d4 d5 d6 d7 up cmd hi r1 token
        block hj other good a down =
      after _ up
      ∙ after _ cmd
      ∙ after _ (await_r1_lem port passive patience patience i 0 d2 d3 hi refl r1)
      ∙ after _ (sent_lem reply j answer buf d3 d4 d5 d6 token block hj other good a)
      ∙ after _ down
