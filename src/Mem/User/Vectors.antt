-- ===== src/Mem/User/Vectors.antt =====
-- What `mem_user_vector_len` says of a process' memory.
use zosys.Common.{
  ℕ, zero, suc, ◌+◌, ◌-◌, ◌*◌, ◌%◌, ◌^◌, ◌≤◌, ◌<◌, ◌≡◌, ◌≢◌, ◌⊎◌, inl, inr, refl, sym, ap, ◌∙◌,
  true, false, arith, ◌==◌, ltb, Bool-cases,
}
use zosys.Common.Int.{ℤ, pos, minus_one}
use zosys.Common.Run.{ok}
use zosys.Mem.Dma.{Memory, Dma}
use zosys.Mem.Copy.{Machine, user_addr}
use zosys.Mem.User.{
  mem_user_valid_ptr, mem_copy_to_user_buffer, find_null, mem_user_vector_len, pointer_at,
}
use zosys.Mem.User.Strings.{Fits, copied, copied-mem}

-- The pointers of a vector at address `a`, counted from `i` to below `j`, are not NULL.
abbrev pub NoNull : Memory → (a i j : ℕ) → Type 0
NoNull m a i j = (l : ℕ) → i ≤ l → l < j → pointer_at m (a + l * 2) ≢ 0

-- All of that pointer is below 0xF000.
abbrev pub Within : (vector l : ℕ) → Type 0
Within vector l = vector + l * 2 + 1 < 0xf000

abbrev pub Found : Memory → (a vector i j : ℕ) → ℤ → Type 0
Found m a vector i j r =
    ((l : ℕ) × (r ≡ pos l)
      × (i ≤ l)
      × (l < j)
      × Within vector l
      × (pointer_at m (a + l * 2) ≡ 0)
      × NoNull m a i l)
    ⊎ ((r ≡ minus_one) × ((l : ℕ) → i ≤ l → l < j → Within vector l → pointer_at m (a + l * 2) ≢ 0))

Found-step :
    (m : Memory) (a vector i j : ℕ) (r : ℤ)
    → pointer_at m (a + i * 2) ≢ 0
    → Found m a vector (i + 1) j r
    → Found m a vector i j r
Found-step m a vector i j r here (inl (l, e, le, lt, w, z, before)) = inl (
  l,
  e,
  omega arith,
  lt,
  w,
  z,
  λ n p q. elim (Bool-cases (i == n)) [
    | inl same ↦ let at : i ≡ n = ground arith in rw (← at) here
    | inr other ↦ before n (ground arith) q
  ],
)
Found-step m a vector i j r here (inr (e, all)) = inr (
  e,
  λ n p q w. elim (Bool-cases (i == n)) [
    | inl same ↦ let at : i ≡ n = ground arith in rw (← at) here
    | inr other ↦ all n (ground arith) q w
  ],
)

valid_iff :
    (vector i : ℕ)
    → 0x1000 ≤ vector
    → vector < 0xf000
    → i < 256
    → mem_user_valid_ptr ((vector + (i + 1) * 2 - 1) % 2 ^ 16) ≡ ltb (vector + i * 2 + 1) 0xf000
unfolding mem_user_valid_ptr
valid_iff vector i low high small = ground arith

find_null_lem :
    (m : Memory) (a vector left i : ℕ)
    → 0x1000 ≤ vector
    → vector < 0xf000
    → i + left ≡ 256
    → Found m a vector i 256 (find_null m a vector left i)
unfolding find_null
find_null_lem m a vector zero i low high e = inr (refl, λ l p q w. absurd (omega arith))
find_null_lem m a vector (suc left) i low high e =
    let valid = valid_iff vector i low high (omega arith) in
    elim (Bool-cases (ltb (vector + i * 2 + 1) 0xf000)) [
      | inr out ↦ rw (valid, out, find_null) (inr (refl, λ l p q w. absurd (ground arith)))
      | inl within ↦ elim (Bool-cases (pointer_at m (a + i * 2) == 0)) [
        | inl null ↦
            rw (valid, within, null, find_null)
              (inl (
                i,
                refl,
                omega arith,
                omega arith,
                ground arith,
                ground arith,
                λ l p q. absurd (omega arith),
              ))
        | inr some ↦
            rw (valid, within, some, find_null)
              (Found-step m a vector i 256 (find_null m a vector left (i + 1)) (ground arith)
                (find_null_lem m a vector left (i + 1) low high (omega arith)))
      ]
    ]

pair :
    (m n : Memory) (a b i : ℕ)
    → m (a + i) ≡ n (b + i)
    → m (a + (i + 1)) ≡ n (b + (i + 1))
    → pointer_at m (a + i) ≡ pointer_at n (b + i)
pair m n a b i e f = omega (arith, e, f, ap m (later a i), ap n (later b i))
  where
    later : (a i : ℕ) → a + (i + 1) ≡ a + i + 1
    later a i = omega arith

-- Both memories have the same pointers.
Found-eq :
    (m n : Memory) (a b vector : ℕ) (r : ℤ)
    → ((l : ℕ) → l < 256 → pointer_at m (a + l * 2) ≡ pointer_at n (b + l * 2))
    → Found m a vector 0 256 r
    → Found n b vector 0 256 r
Found-eq m n a b vector r same (inl (l, e, le, lt, w, z, before)) =
    inl
      (l, e, le, lt, w, sym (same l lt) ∙ z, λ i p q. λ h. before i p q (same i (omega arith) ∙ h))
Found-eq m n a b vector r same (inr (e, all)) = inr (e, λ l p q w. λ h. all l p q w (same l q ∙ h))

valid_range : (p : ℕ) → mem_user_valid_ptr p ≡ true → (0x1000 ≤ p) × (p < 0xf000)
unfolding mem_user_valid_ptr
valid_range p good = (ground arith, ground arith)

module _ (dma : Dma) (user_buffer : ℕ) (k : Machine) where
  copied-pointer :
      (p l : ℕ)
      → Fits dma user_buffer k p
      → l < 256
      → pointer_at (copied dma user_buffer k p).mem (user_addr k user_buffer + l * 2)
        ≡ pointer_at k.mem (user_addr k p + l * 2)
  copied-pointer p l f h =
      let low = copied-mem dma user_buffer k p (l * 2) f (omega arith) in
      let high = copied-mem dma user_buffer k p (l * 2 + 1) f (omega arith) in
      pair (copied dma user_buffer k p).mem k.mem (user_addr k user_buffer) (user_addr k p) (l * 2)
        low high

  -- `mem_user_vector_len` never panics, and does not look at the strings: from a pointer into the process' pages it gives the number of
  -- pointers before the first NULL, which is one of the first 256 and lies wholly in those pages; if
  -- no pointer is so, or the vector does not start there, it gives -1. The places have to be in
  -- memory, and the vector apart from the buffer.
  pub mem_user_vector_len_lem :
      (p : ℕ)
      → Fits dma user_buffer k p
      → (r : ℤ) × (k' : Machine) × (mem_user_vector_len dma user_buffer p k ≡ ok (r, k'))
        × (((mem_user_valid_ptr p ≡ false) × (r ≡ minus_one))
            ⊎ Found k.mem (user_addr k p) p 0 256 r)
  unfolding mem_user_vector_len mem_copy_to_user_buffer
  mem_user_vector_len_lem p f = elim (Bool-cases (mem_user_valid_ptr p)) [
    | inr bad ↦ (minus_one, k, ground arith, inl (bad, refl))
    | inl good ↦
        let (low, high) = valid_range p good in
        (
          find_null (copied dma user_buffer k p).mem (user_addr k user_buffer) p 256 0,
          copied dma user_buffer k p,
          rw (good, mem_user_vector_len) refl,
          inr (
              Found-eq (copied dma user_buffer k p).mem k.mem (user_addr k user_buffer)
                (user_addr k p) p _ (λ l h. copied-pointer p l f h)
                (find_null_lem (copied dma user_buffer k p).mem (user_addr k user_buffer) p 256 0
                  low high refl)),
        )
  ]
