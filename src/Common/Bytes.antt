-- ===== src/Common/Bytes.antt =====
-- A run of the bytes that a device holds, as a list.
use zosys.Common.{ℕ, zero, suc, ◌+◌, ◌<◌, ◌≡◌, refl, ap, List, [], ◌∷◌, ◌++◌, take, drop, length}

-- The bytes of `f` from `a` on.
unfoldable pub bytes : (ℕ → ℕ) → (a n : ℕ) → List ℕ
bytes f a zero = []
bytes f a (suc n) = f a ∷ bytes f (a + 1) n

pub length-bytes : (f : ℕ → ℕ) (a n : ℕ) → length (bytes f a n) ≡ n
unfolding bytes
length-bytes f a zero = refl
length-bytes f a (suc n) = ap suc (length-bytes f (a + 1) n)

abbrev pub AreBytes : List ℕ → Type 0
AreBytes [] = Unit {0}
AreBytes (b ∷ bs) = (b < 256) × AreBytes bs

pub bytes-AreBytes : (f : ℕ → ℕ) (a n : ℕ) → ((x : ℕ) → f x < 256) → AreBytes (bytes f a n)
unfolding bytes
bytes-AreBytes f a zero h = tt
bytes-AreBytes f a (suc n) h = (h a, bytes-AreBytes f (a + 1) n h)

pub append-AreBytes : (xs ys : List ℕ) → AreBytes xs → AreBytes ys → AreBytes (xs ++ ys)
append-AreBytes [] ys h k = k
append-AreBytes (x ∷ xs) ys (small, h) k = (small, append-AreBytes xs ys h k)

pub take-AreBytes : (n : ℕ) (xs : List ℕ) → AreBytes xs → AreBytes (take n xs)
take-AreBytes zero xs h = tt
take-AreBytes (suc n) [] h = tt
take-AreBytes (suc n) (x ∷ xs) (small, h) = (small, take-AreBytes n xs h)

pub drop-AreBytes : (n : ℕ) (xs : List ℕ) → AreBytes xs → AreBytes (drop n xs)
drop-AreBytes zero xs h = h
drop-AreBytes (suc n) [] h = tt
drop-AreBytes (suc n) (x ∷ xs) (small, h) = drop-AreBytes n xs h
