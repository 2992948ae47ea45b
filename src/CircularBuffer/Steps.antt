-- ===== src/CircularBuffer/Steps.antt =====
-- A call of `circular_buffer_put` or `circular_buffer_get` by its two outcomes.
use zosys.Common.{
  ℕ, ◌-◌, ◌≡◌, ◌⊎◌, inl, inr, refl, ap, ◌∙◌, Bool-cases, List, [], ◌∷◌, ◌++◌, leb, length,
}
use zosys.Common.Int.{pos, minus_one}
use zosys.CircularBuffer.{CircularBuffer, put, get}
use zosys.CircularBuffer.Fifo
use zosys.CircularBuffer.Valid.{IsValid}
use zosys.CircularBuffer.Refine.{contents, put_refines, get_refines}

pub put-cases :
    (b : CircularBuffer) (x : ℕ)
    → IsValid b
    → (((put b x).0 ≡ minus_one) × (contents (put b x).1 ≡ contents b))
      ⊎ (((put b x).0 ≡ pos x) × (contents (put b x).1 ≡ contents b ++ x ∷ []))
unfolding Fifo.put
put-cases b x v = elim (Bool-cases (leb (b.size - 1) (length (contents b)))) [
  | inl full ↦
      let e = put_refines x v ∙ rw (Fifo.put, full) refl in inl (ap (λ r. r.0) e, ap (λ r. r.1) e)
  | inr room ↦
      let e = put_refines x v ∙ rw (Fifo.put, room) refl in inr (ap (λ r. r.0) e, ap (λ r. r.1) e)
]

pub get-cases :
    (b : CircularBuffer)
    → IsValid b
    → (((get b).0 ≡ minus_one) × (contents b ≡ []) × (contents (get b).1 ≡ []))
      ⊎ ((x : ℕ) × (q : List ℕ) × (contents b ≡ x ∷ q)
          × ((get b).0 ≡ pos x)
          × (contents (get b).1 ≡ q))
unfolding Fifo.get
get-cases b v = go (contents b) (get_refines v) refl
  where
    go :
        (q : List ℕ)
        → ((get b).0, contents (get b).1) ≡ Fifo.get q
        → contents b ≡ q
        → (((get b).0 ≡ minus_one) × (contents b ≡ []) × (contents (get b).1 ≡ []))
          ⊎ ((x : ℕ) × (q : List ℕ) × (contents b ≡ x ∷ q)
              × ((get b).0 ≡ pos x)
              × (contents (get b).1 ≡ q))
    go [] e h = inl (ap (λ r. r.0) e, h, ap (λ r. r.1) e)
    go (x ∷ q) e h = inr (x, q, h, ap (λ r. r.0) e, ap (λ r. r.1) e)
