-- ===== src/Sd/Card.antt =====
-- What a card does whose blocks are read and written: `Holds d f` says that its bytes are `f`.
use zosys.Common.{
  ℕ, zero, suc, ◌+◌, ◌*◌, ◌%◌, ◌^◌, ◌≤◌, ◌<◌, ◌≡◌, refl, ap, ◌∙◌, List, [], ◌∷◌, ◌++◌, some,
  if◌then◌else◌, ◌==◌, arith, length, take, drop,
}
use zosys.Common.Bytes.{bytes, AreBytes}
use zosys.Sd.{Io}

-- `f`, but from `a` on those bytes.
unfoldable pub over : (ℕ → ℕ) → ℕ → List ℕ → ℕ → ℕ
over f a [] x = f x
over f a (b ∷ bs) x = if x == a then b else over f (a + 1) bs x

pub record Card {D : Type 0} (read_block : ℕ → List ℕ → Io D (ℕ × ℕ × List ℕ))
    (write_block : ℕ → List ℕ → Io D (ℕ × ℕ)) (Holds : D → (ℕ → ℕ) → Type 0) : Type 0 where
  pub are_bytes : (d : D) (f : ℕ → ℕ) → Holds d f → (x : ℕ) → f x < 256
  pub reads :
      (d : D) (f : ℕ → ℕ) (b : ℕ) (buf : List ℕ)
      → b * 512 < 2 ^ 32
      → length buf ≡ 512
      → Holds d f
      → (r1 token : ℕ) × (d' : D) × (read_block (b * 512) buf d
          ≡ some ((r1, token, bytes f (b * 512) 512), d'))
        × Holds d' f
  pub writes :
      (d : D) (f : ℕ → ℕ) (b : ℕ) (bs : List ℕ)
      → b * 512 < 2 ^ 32
      → length bs ≡ 512
      → AreBytes bs
      → Holds d f
      → (r1 token : ℕ) × (d' : D) × (write_block (b * 512) bs d ≡ some ((r1, token), d'))
        × Holds d' (over f (b * 512) bs)

-- Both are reckoned another way.
pub bytes-eq : (f : ℕ → ℕ) (a b n k : ℕ) → a ≡ b → n ≡ k → bytes f a n ≡ bytes f b k
bytes-eq f a b n k e h = ap (λ x. bytes f x n) e ∙ ap (bytes f b) h

pub bytes-append : (f : ℕ → ℕ) (a n k : ℕ) → bytes f a n ++ bytes f (a + n) k ≡ bytes f a (n + k)
unfolding bytes
bytes-append f a zero k = bytes-eq f (a + 0) a k (0 + k) (omega arith) (omega arith)
bytes-append f a (suc n) k =
    ap (λ x. f a ∷ (bytes f (a + 1) n ++ x))
      (bytes-eq f (a + suc n) (a + 1 + n) k k (omega arith) refl)
    ∙ ap (◌∷◌ (f a)) (bytes-append f (a + 1) n k)
    ∙ bytes-eq f a a (suc (n + k)) (suc n + k) refl (omega arith)

-- What is left of the buffer starts at the next byte, and is nothing at the end of the card.
pub bytes-wrap :
    (f : ℕ → ℕ) (a n k : ℕ)
    → a + n + k ≤ 2 ^ 32
    → bytes f a n ++ bytes f ((a + n) % 2 ^ 32) k ≡ bytes f a (n + k)
unfolding bytes
bytes-wrap f a n zero h = bytes-append f a n zero
bytes-wrap f a n (suc k) h =
    ap (λ x. bytes f a n ++ bytes f x (suc k)) (omega arith) ∙ bytes-append f a n (suc k)

take-bytes : (f : ℕ → ℕ) (a n k : ℕ) → n ≤ k → take n (bytes f a k) ≡ bytes f a n
unfolding bytes
take-bytes f a zero k h = refl
take-bytes f a (suc n) zero h = absurd (omega arith)
take-bytes f a (suc n) (suc k) h = ap (◌∷◌ (f a)) (take-bytes f (a + 1) n k (omega arith))

pub take-drop-bytes :
    (f : ℕ → ℕ) (a i n k : ℕ) → i + n ≤ k → take n (drop i (bytes f a k)) ≡ bytes f (a + i) n
unfolding bytes
take-drop-bytes f a zero n k h =
    take-bytes f a n k (omega arith) ∙ bytes-eq f a (a + 0) n n (omega arith) refl
take-drop-bytes f a (suc i) n zero h = absurd (omega arith)
take-drop-bytes f a (suc i) n (suc k) h =
    take-drop-bytes f (a + 1) i n k (omega arith)
    ∙ bytes-eq f (a + 1 + i) (a + suc i) n n (omega arith) refl
