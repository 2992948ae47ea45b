-- ===== src/Sd/Writes.antt =====
-- `sd_write` of src/dev_sd.c over a card that works: the card holds what was written, and the bytes
-- around it in the same blocks are as they were.
use zosys.Common.{
  ℕ, zero, suc, ◌+◌, ◌*◌, ◌/◌, ◌%◌, ◌^◌, ◌≤◌, ◌<◌, ◌≡◌, refl, ap, inl, inr, ◌∙◌, sym, List, [], ◌∷◌,
  some, if◌then◌else◌, ltb, ◌==◌, arith, Bool-cases, length-take, length-drop, length, take, drop,
}
use mathlib.Core.Path.{fun_ext, subst}
use zosys.Common.Int.{int16}
use zosys.Sd.{Io}
use zosys.Sd.Transfer.{bytes_to_do, write_round, write_rounds, write_bytes, copy_into}
use zosys.Common.Bytes.{bytes, length-bytes, AreBytes, bytes-AreBytes, take-AreBytes, drop-AreBytes}
use zosys.Sd.Card.{over, Card}
use zosys.Sd.Reads.{bytes_to_do-bounds, block_of-lt, block_of-whole, all_of}

length-copy_into :
    (block : List ℕ) (i : ℕ) (bs : List ℕ) → length (copy_into block i bs) ≡ length block
unfolding copy_into
length-copy_into [] i bs = refl
length-copy_into (x ∷ block) zero [] = refl
length-copy_into (x ∷ block) zero (b ∷ bs) = ap suc (length-copy_into block zero bs)
length-copy_into (x ∷ block) (suc i) bs = ap suc (length-copy_into block i bs)

copy_into-AreBytes :
    (block : List ℕ) (i : ℕ) (bs : List ℕ)
    → AreBytes block
    → AreBytes bs
    → AreBytes (copy_into block i bs)
unfolding copy_into
copy_into-AreBytes [] i bs h k = tt
copy_into-AreBytes (x ∷ block) zero [] h k = h
copy_into-AreBytes (x ∷ block) zero (b ∷ bs) (x8, h) (b8, k) =
    (b8, copy_into-AreBytes block zero bs h k)
copy_into-AreBytes (x ∷ block) (suc i) bs (x8, h) k = (x8, copy_into-AreBytes block i bs h k)

copy_into-nil : (block : List ℕ) (i : ℕ) → copy_into block i [] ≡ block
unfolding copy_into
copy_into-nil [] i = refl
copy_into-nil (x ∷ block) zero = refl
copy_into-nil (x ∷ block) (suc i) = ap (◌∷◌ x) (copy_into-nil block i)

over-eq : (f : ℕ → ℕ) (a b : ℕ) (bs : List ℕ) (x : ℕ) → a ≡ b → over f a bs x ≡ over f b bs x
over-eq f a b bs x e = ap (λ c. over f c bs x) e

-- Before the bytes nothing is changed.
over-before : (f : ℕ → ℕ) (a : ℕ) (bs : List ℕ) (x : ℕ) → x < a → over f a bs x ≡ f x
unfolding over
over-before f a [] x h = refl
over-before f a (b ∷ bs) x h = ground (arith, over-before f (a + 1) bs x (omega arith))

over-bytes : (f : ℕ → ℕ) (a n x : ℕ) → over f a (bytes f a n) x ≡ f x
unfolding over bytes
over-bytes f a zero x = refl
over-bytes f a (suc n) x = elim (Bool-cases (x == a)) [
  | inl here ↦ let e : x ≡ a = ground arith in rw (here, e) refl
  | inr other ↦ rw other (over-bytes f (a + 1) n x)
]

-- A block of `f` written back with bytes copied into it is those bytes written.
over-copy_into :
    (f : ℕ → ℕ) (a n i : ℕ) (bs : List ℕ) (x : ℕ)
    → i + length bs ≤ n
    → over f a (copy_into (bytes f a n) i bs) x ≡ over f (a + i) bs x
unfolding over bytes copy_into
over-copy_into f a n i [] x h =
    ap (λ l. over f a l x) (copy_into-nil (bytes f a n) i) ∙ over-bytes f a n x
over-copy_into f a zero i (b ∷ bs) x h = absurd (omega arith)
over-copy_into f a (suc n) zero (b ∷ bs) x h =
    ap (λ y. if x == a then b else y)
      (over-copy_into f (a + 1) n zero bs x (omega arith)
        ∙ over-eq f (a + 1 + 0) (a + 1) bs x (omega arith))
    ∙ over-eq f a (a + 0) (b ∷ bs) x (omega arith)
over-copy_into f a (suc n) (suc i) (b ∷ bs) x h = elim (Bool-cases (x == a)) [
  | inl here ↦
      let e : x ≡ a = ground arith in
      rw here (ap f (sym e) ∙ sym (over-before f (a + suc i) (b ∷ bs) x (omega arith)))
  | inr other ↦ rw other (
      over-copy_into f (a + 1) n i (b ∷ bs) x (omega arith)
      ∙ over-eq f (a + 1 + i) (a + suc i) (b ∷ bs) x (omega arith))
]

over-later : (f g : ℕ → ℕ) (a : ℕ) (bs : List ℕ) (x : ℕ) → f x ≡ g x → over f a bs x ≡ over g a bs x
unfolding over
over-later f g a [] x e = e
over-later f g a (b ∷ bs) x e = rw (over-later f g (a + 1) bs x e) refl

-- Bytes written twice in a row are bytes written once.
pub over-append :
    (f : ℕ → ℕ) (a n : ℕ) (buf : List ℕ) (x : ℕ)
    → n ≤ length buf
    → over (over f a (take n buf)) (a + n) (drop n buf) x ≡ over f a buf x
unfolding over
over-append f a zero buf x h = over-eq f (a + 0) a buf x (omega arith)
over-append f a (suc n) [] x h = absurd (omega arith)
over-append f a (suc n) (b ∷ bs) x h = elim (Bool-cases (x == a)) [
  | inl here ↦
      over-before (over f a (b ∷ take n bs)) (a + suc n) (drop n bs) x (ground arith) ∙ rw here refl
  | inr other ↦
      over-later (over f a (b ∷ take n bs)) (over f (a + 1) (take n bs)) (a + suc n) (drop n bs) x
        (rw other refl)
      ∙ over-eq (over f (a + 1) (take n bs)) (a + suc n) (a + 1 + n) (drop n bs) x (omega arith)
      ∙ over-append f (a + 1) n bs x (omega arith)
      ∙ rw other refl
]

over-wrap :
    (f : ℕ → ℕ) (a : ℕ) (bs : List ℕ) (x : ℕ)
    → a + length bs ≤ 2 ^ 32
    → over f (a % 2 ^ 32) bs x ≡ over f a bs x
unfolding over
over-wrap f a [] x h = refl
over-wrap f a (b ∷ bs) x h = over-eq f (a % 2 ^ 32) a (b ∷ bs) x (omega arith)

module _ {D : Type 0} {read_block : ℕ → List ℕ → Io D (ℕ × ℕ × List ℕ)}
    {write_block : ℕ → List ℕ → Io D (ℕ × ℕ)} {Holds : D → (ℕ → ℕ) → Type 0}
    (card : Card read_block write_block Holds) where
  round_lem :
      (f : ℕ → ℕ) (at : ℕ) (bs block : List ℕ) (d : D)
      → at < 2 ^ 32
      → at % 512 + length bs ≤ 512
      → length block ≡ 512
      → AreBytes bs
      → Holds d f
      → (block' : List ℕ) × (d' : D) × (write_round read_block write_block at bs block d
          ≡ some (block', d'))
        × (length block' ≡ 512)
        × Holds d' (over f at bs)
  unfolding copy_into length-copy_into
  round_lem f at bs block d h hn hb by hf = elim (Bool-cases (ltb (length bs) 512)) [
    | inl part ↦
        let (r1, token, d', e, hf') = card.reads d f (at / 512) block (block_of-lt at h) hb hf in
        let old = bytes f (at / 512 * 512) 512 in
        let new = copy_into old (at % 512) bs in
        let size = length-copy_into old (at % 512) bs ∙ length-bytes f (at / 512 * 512) 512 in
        let (s1, token2, d'', e', hf'') =
          card.writes d' f (at / 512) new (block_of-lt at h) size
            (copy_into-AreBytes old (at % 512) bs
              (bytes-AreBytes f (at / 512 * 512) 512 (card.are_bytes d f hf)) by)
            hf' in
        (
          new,
          d'',
          rw (write_round, part, e, e') refl,
          size,
          subst (Holds d'')
              (fun_ext (λ x.
                over-copy_into f (at / 512 * 512) 512 (at % 512) bs x hn
                ∙ over-eq f (at / 512 * 512 + at % 512) at bs x (omega arith)))
              hf'',
        )
    | inr whole ↦
        let (r1, token, d', e, hf') =
          card.writes d f (at / 512) bs (block_of-lt at h)
            (sym (all_of (length bs) (at % 512) hn whole)) by hf in
        (
          block,
          d',
          rw (write_round, whole, e) refl,
          hb,
          subst (λ a. Holds d' (over f a bs)) (block_of-whole at (length bs) hn whole) hf',
        )
  ]

  rounds_lem :
      (fuel : ℕ) (f : ℕ → ℕ) (at : ℕ) (buf block : List ℕ) (d : D)
      → length buf < fuel
      → at + length buf ≤ 2 ^ 32
      → length block ≡ 512
      → AreBytes buf
      → Holds d f
      → (d' : D) × (write_rounds read_block write_block fuel at buf block d ≡ some (tt, d'))
        × Holds d' (over f at buf)
  unfolding write_rounds over
  rounds_lem zero f at buf block d hu h hb by hf = absurd (omega arith)
  rounds_lem (suc fuel) f at [] block d hu h hb by hf = (d, refl, hf)
  rounds_lem (suc fuel) f at (x ∷ xs) block d hu h hb by hf =
      let c = length (x ∷ xs) in
      let n = bytes_to_do at c in
      let (low, high, fits) = bytes_to_do-bounds at c (omega arith) in
      let size = length-take n (x ∷ xs) high in
      let (block', d', e, hb', hf') =
        round_lem f at (take n (x ∷ xs)) block d (omega arith) (omega arith) hb
          (take-AreBytes n (x ∷ xs) by) hf in
      let left = length-drop n (x ∷ xs) in
      let (d'', e', hf'') =
        rounds_lem fuel (over f at (take n (x ∷ xs))) ((at + n) % 2 ^ 32) (drop n (x ∷ xs)) block'
          d' (omega arith) (omega arith) hb' (drop-AreBytes n (x ∷ xs) by) hf' in
      (
        d'',
        rw (e, e') refl,
        subst (Holds d'')
            (fun_ext (λ y.
              over-wrap (over f at (take n (x ∷ xs))) (at + n) (drop n (x ∷ xs)) y (omega arith)
              ∙ over-append f at n (x ∷ xs) y high))
            hf'',
      )

  -- To a card that works, whose bytes are `f`, a call of `sd_write` on minor 0 that ends before 2
  -- ^ 32, with a block of 512 bytes from the pool, returns the count as an `ssize_t`, and the card's bytes are
  -- then those of the buffer from that place on and those of `f` elsewhere, also in the blocks
  -- that the call writes in part.
  pub write_bytes_lem :
      (f : ℕ → ℕ) (at : ℕ) (buf block : List ℕ) (d : D)
      → at + length buf ≤ 2 ^ 32
      → length block ≡ 512
      → AreBytes buf
      → Holds d f
      → (d' : D) × (write_bytes read_block write_block 0 at buf block d
          ≡ some (int16 (length buf), d'))
        × Holds d' (over f at buf)
  unfolding write_bytes
  write_bytes_lem f at buf block d h hb by hf =
      let (d', e, hf') = rounds_lem (suc (length buf)) f at buf block d (omega arith) h hb by hf in
      (d', rw e refl, hf')
