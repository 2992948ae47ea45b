-- ===== src/Sd/Answers.antt =====
-- What the card sends, a byte after the other, and what the loops of src/dev_sd.c make of it.
use Prim.Native.Nat.{bit_and}
use zosys.Common.{
  ℕ, zero, suc, ◌<◌, ◌≡◌, ◌≢◌, refl, ap, ◌∙◌, arith, true, false, some, List, [], ◌∷◌, ◌++◌, ◌==◌,
  length, replicate,
}
use zosys.Spi.{Csio, spi_in_byte}
use zosys.Sd.{Io, pure, after, inp, await_r1}
use zosys.Sd.Blocks.{await_token, receive_block}

differ : (t idle : ℕ) → t ≢ idle → (t == idle) ≡ false
differ t idle h = ground arith

same : (t : ℕ) → (t == t) ≡ true
same t = ground arith

module _ {D : Type 0} (port : Csio D) (passive patience : ℕ) where
  -- From `d` on the card sends those bytes, and is then in the state `d'`.
  abbrev pub Answers : D → List ℕ → D → Type 0
  Answers d [] d' = d ≡ d'
  Answers d (b ∷ bs) d' =
      ((spi_in_byte port passive d).0 ≡ b) × Answers (spi_in_byte port passive d).1 bs d'

  pub split :
      (xs ys : List ℕ) (d d' : D)
      → Answers d (xs ++ ys) d'
      → (m : D) × Answers d xs m × Answers m ys d'
  split [] ys d d' h = (d, refl, h)
  split (x ∷ xs) ys d d' (e, h) =
      let (m, p, q) = split xs ys (spi_in_byte port passive d).1 d' h in (m, (e, p), q)

  -- A byte, and the state after it.
  byte_lem :
      (b : ℕ) (d m : D)
      → (spi_in_byte port passive d).0 ≡ b
      → (spi_in_byte port passive d).1 ≡ m
      → spi_in_byte port passive d ≡ (b, m)
  byte_lem b d m e f i = (e i, f i)

  -- R1 comes after some bytes of the idle line.
  pub await_r1_lem :
      (left i r1 : ℕ) (d d' : D)
      → i < left
      → bit_and r1 0x80 ≡ 0
      → Answers d (replicate i 0xff ++ r1 ∷ []) d'
      → await_r1 port passive patience left d ≡ some (r1, d')
  unfolding await_r1
  await_r1_lem zero i r1 d d' h valid a = absurd (omega arith)
  await_r1_lem (suc left) zero r1 d d' h valid (e, last) =
      rw (await_r1, e, valid) (ap some (byte_lem r1 d d' e last))
  await_r1_lem (suc left) (suc i) r1 d d' h valid (e, a) =
      rw (await_r1, e)
        (await_r1_lem left i r1 (spi_in_byte port passive d).1 d' (omega arith) valid a)

  -- The same by the name that the loops call.
  pub inp_lem :
      (b : ℕ) (d m : D)
      → (spi_in_byte port passive d).0 ≡ b
      → (spi_in_byte port passive d).1 ≡ m
      → inp port passive patience d ≡ some (b, m)
  unfolding inp
  inp_lem b d m e f = ap some (byte_lem b d m e f)

  idle_step :
      (idle left last : ℕ) (d : D)
      → (spi_in_byte port passive d).0 ≡ idle
      → await_token port passive patience idle (suc left) last d
        ≡ await_token port passive patience idle left idle (spi_in_byte port passive d).1
  unfolding await_token
  idle_step idle left last d e =
      let m = (spi_in_byte port passive d).1 in
      after _ (inp_lem idle d m e refl)
      ∙ ap
          (λ c.
            (elim c as (λ x. Io D ℕ) [
              | true ↦ await_token port passive patience idle left idle
              | false ↦ pure idle
            ])
              m)
          (same idle)

  -- A byte that is not the idle one, after fewer idle bytes than there are attempts.
  pub await_other_lem :
      (idle left j t last : ℕ) (d d' : D)
      → j < left
      → t ≢ idle
      → Answers d (replicate j idle ++ t ∷ []) d'
      → await_token port passive patience idle left last d ≡ some (t, d')
  unfolding await_token
  await_other_lem idle zero j t last d d' h other a = absurd (omega arith)
  await_other_lem idle (suc left) zero t last d d' h other (e, end) =
      let token : (t == idle) ≡ false = differ t idle other in
      after _ (inp_lem t d d' e end)
      ∙ ap
          (λ c.
            (elim c as (λ x. Io D ℕ) [
              | true ↦ await_token port passive patience idle left t
              | false ↦ pure t
            ])
              d')
          token
  await_other_lem idle (suc left) (suc j) t last d d' h other (e, a) =
      idle_step idle left last d e
      ∙ await_other_lem idle left j t idle (spi_in_byte port passive d).1 d' (omega arith) other a

  all_idle_after :
      (idle left : ℕ) (d d' : D)
      → Answers d (replicate left idle) d'
      → await_token port passive patience idle left idle d ≡ some (idle, d')
  unfolding await_token
  all_idle_after idle zero d d' e = ap (λ x. some (idle, x)) e
  all_idle_after idle (suc left) d d' (e, a) =
      idle_step idle left idle d e ∙ all_idle_after idle left (spi_in_byte port passive d).1 d' a

  -- The idle byte in all of one or more attempts.
  pub all_idle_lem :
      (idle left last : ℕ) (d d' : D)
      → 0 < left
      → Answers d (replicate left idle) d'
      → await_token port passive patience idle left last d ≡ some (idle, d')
  all_idle_lem idle zero last d d' h a = absurd (omega arith)
  all_idle_lem idle (suc left) last d d' h (e, a) =
      idle_step idle left last d e ∙ all_idle_after idle left (spi_in_byte port passive d).1 d' a

  pub receive_block_lem :
      (bs : List ℕ) (d d' : D)
      → Answers d bs d'
      → receive_block port passive patience (length bs) d ≡ some (bs, d')
  unfolding receive_block
  receive_block_lem [] d d' e = ap (λ x. some ([], x)) e
  receive_block_lem (b ∷ bs) d d' (e, a) =
      after _ (inp_lem b d (spi_in_byte port passive d).1 e refl)
      ∙ after _ (receive_block_lem bs (spi_in_byte port passive d).1 d' a)
