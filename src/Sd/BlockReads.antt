-- ===== src/Sd/BlockReads.antt =====
-- `sd_read_single_block` of src/dev_sd.c by what the card answers.
use Prim.Native.Nat.{bit_and}
use zosys.Common.{
  ℕ, ◌<◌, ◌≡◌, ◌≢◌, refl, sym, ap, ◌∙◌, arith, true, false, Option, none, some, List, [], ◌∷◌, ◌++◌,
  ◌==◌, length, replicate,
}
use zosys.Spi.{Csio}
use zosys.Sd.{
  Io, pure, after, assert_cs, deassert_cs, sd_command, sd_response_r1, sd_max_read_attempts,
}
use zosys.Sd.Blocks.{await_token, data_block, wait_and_read, receive_block, sd_read_single_block}
use zosys.Sd.Answers.{
  Answers, split, inp_lem, await_r1_lem, await_other_lem, all_idle_lem, receive_block_lem,
}

valid_r1 : (r1 : ℕ) → bit_and r1 0x80 ≡ 0 → (r1 == 0xff) ≡ false
valid_r1 r1 h = differ (λ e. seen (sym (ap (λ r. bit_and r 0x80) e) ∙ h))
  where
    differ : r1 ≢ 0xff → (r1 == 0xff) ≡ false
    differ n = ground arith

    seen : ◌≢◌ {A = ℕ} 0x80 0
    seen e = omega (arith, e)

-- What follows R1: a block, or nothing.
abbrev pub data_bytes : Option (List ℕ) → (j n c e : ℕ) → List ℕ
data_bytes none j n c e = replicate n 0xff
data_bytes (some bs) j n c e = (replicate j 0xff ++ 0xfe ∷ []) ++ (bs ++ c ∷ e ∷ [])

abbrev pub IsBlock : Option (List ℕ) → Type 0
IsBlock none = Unit {0}
IsBlock (some bs) = length bs ≡ 512

abbrev pub token_of : Option (List ℕ) → ℕ
token_of none = 0xff
token_of (some bs) = 0xfe

abbrev pub block_or : Option (List ℕ) → List ℕ → List ℕ
block_or none buf = buf
block_or (some bs) buf = bs

module _ {D : Type 0} (port : Csio D) (passive patience : ℕ) where
  -- The start token, a block and its CRC.
  data_lem :
      (bs buf : List ℕ) (c e : ℕ) (d d' : D)
      → length bs ≡ 512
      → Answers port passive patience d (bs ++ c ∷ e ∷ []) d'
      → data_block port passive patience 0xfe buf d ≡ some (bs, d')
  unfolding data_block
  data_lem bs buf c e d d' size a =
      let (m, p, (q1, (q2, q3))) = split port passive patience bs (c ∷ e ∷ []) d d' a in
      after _ (
        ap (λ n. receive_block port passive patience n d) (sym size)
        ∙ receive_block_lem port passive patience bs d m p)
      ∙ after _ (inp_lem port passive patience c m _ q1 refl)
      ∙ after _ (inp_lem port passive patience e _ d' q2 q3)

  data_read :
      (j : ℕ) (bs buf : List ℕ) (c e : ℕ) (d d' : D)
      → j < sd_max_read_attempts
      → length bs ≡ 512
      → Answers port passive patience d ((replicate j 0xff ++ 0xfe ∷ []) ++ (bs ++ c ∷ e ∷ [])) d'
      → wait_and_read port passive patience 0xff buf d ≡ some ((0xfe, bs), d')
  unfolding wait_and_read
  data_read j bs buf c e d d' hj size a =
      let (m, p, q) =
        split port passive patience (replicate j 0xff ++ 0xfe ∷ []) (bs ++ c ∷ e ∷ []) d d' a in
      after _ (
        await_other_lem port passive patience 0xff sd_max_read_attempts j 0xfe 0xff d m hj
          (λ x. omega (arith, x)) p)
      ∙ after _ (data_lem bs buf c e m d' size q)

  missed :
      (n : ℕ) (buf : List ℕ) (d d' : D)
      → n ≡ sd_max_read_attempts
      → Answers port passive patience d (replicate n 0xff) d'
      → wait_and_read port passive patience 0xff buf d ≡ some ((0xff, buf), d')
  unfolding wait_and_read data_block
  missed n buf d d' all a = after _ (
      ap (λ k. await_token port passive patience 0xff k 0xff d) (sym all)
      ∙ all_idle_lem port passive patience 0xff n 0xff d d' (omega (arith, all)) a)

  around :
      (i r1 addr t : ℕ) (bs buf : List ℕ) (d d1 d2 m d3 d4 : D)
      → assert_cs port passive patience d ≡ some (tt, d1)
      → sd_command port passive patience 17 addr 0 d1 ≡ some (tt, d2)
      → i < patience
      → bit_and r1 0x80 ≡ 0
      → Answers port passive patience d2 (replicate i 0xff ++ r1 ∷ []) m
      → wait_and_read port passive patience 0xff buf m ≡ some ((t, bs), d3)
      → deassert_cs port passive patience d3 ≡ some (tt, d4)
      → sd_read_single_block port passive patience addr buf d ≡ some ((r1, t, bs), d4)
  unfolding sd_read_single_block sd_response_r1
  around i r1 addr t bs buf d d1 d2 m d3 d4 up cmd hi valid a block down =
      after _ up
      ∙ after _ cmd
      ∙ after _ (await_r1_lem port passive patience patience i r1 d2 m hi valid a)
      ∙ after _ (
          ap
            (λ x.
              (elim x as (λ y. Io D (ℕ × List ℕ)) [
                | true ↦ pure (0xff, buf)
                | false ↦ wait_and_read port passive patience 0xff buf
              ])
                m)
            (valid_r1 r1 valid)
          ∙ block)
      ∙ after _ down

  -- The card answers command 17 with idle bytes, R1, and either idle bytes, the start token, a block
  -- and two bytes of CRC, with fewer idle bytes each time than the code has attempts, or idle bytes in
  -- all attempts. In the one case the call gives that R1, the token and that block, whatever the
  -- buffer held; in the other R1 and 0xFF, and the buffer stays.
  pub sd_read_single_block_lem :
      (answer : Option (List ℕ)) (i j n r1 c e addr : ℕ) (buf : List ℕ) (d d1 d2 d3 d4 : D)
      → assert_cs port passive patience d ≡ some (tt, d1)
      → sd_command port passive patience 17 addr 0 d1 ≡ some (tt, d2)
      → i < patience
      → j < sd_max_read_attempts
      → n ≡ sd_max_read_attempts
      → bit_and r1 0x80 ≡ 0
      → IsBlock answer
      → deassert_cs port passive patience d3 ≡ some (tt, d4)
      → Answers port passive patience d2
          ((replicate i 0xff ++ r1 ∷ []) ++ data_bytes answer j n c e)
          d3
      → sd_read_single_block port passive patience addr buf d
        ≡ some ((r1, token_of answer, block_or answer buf), d4)
  sd_read_single_block_lem (some bs) i j n r1 c e addr buf d d1 d2 d3 d4 up cmd hi hj all valid size
        down a =
      let (m, p, q) =
        split port passive patience (replicate i 0xff ++ r1 ∷ []) (data_bytes (some bs) j n c e) d2
          d3 a in
      around i r1 addr 0xfe bs buf d d1 d2 m d3 d4 up cmd hi valid p
        (data_read j bs buf c e m d3 hj size q) down
  sd_read_single_block_lem none i j n r1 c e addr buf d d1 d2 d3 d4 up cmd hi hj all valid size down
        a =
      let (m, p, q) =
        split port passive patience (replicate i 0xff ++ r1 ∷ []) (replicate n 0xff) d2 d3 a in
      around i r1 addr 0xff buf buf d d1 d2 m d3 d4 up cmd hi valid p (missed n buf m d3 all q) down
