-- ===== src/Asci/Drains.antt =====
-- Port 0 sends all that waits; port 1 stops at a NUL.
use mathlib.Core.List.{tail-eq_of_cons-eq, head-eq_of_cons-eq}
use zosys.Common.{
  ℕ, zero, suc, ◌≤◌, ◌≡◌, inl, inr, refl, sym, ap, ◌∙◌, arith, true, false, Bool-cases, List, [],
  ◌∷◌, ◌++◌, append-nil, length, replicate,
}
use zosys.CircularBuffer.Valid.{IsValid}
use zosys.CircularBuffer.Refine.{contents}
use zosys.CircularBuffer.Steps.{get-cases}
use zosys.Asci.{Port, send_0, int_asci0, send_1, int_asci1}
use zosys.Asci.Events.{Event, interrupt, step_0, run_0, all_taken}
use zosys.Asci.Sends.{IsSound, stream, onto, nil-ne-cons, step_lem, run_0_lem}

abbrev pub ready : Event
ready = interrupt false true 0

empty_stays : (p : Port) → IsSound p → contents p.tx ≡ [] → contents (step_0 ready p).tx ≡ []
unfolding step_0 int_asci0 send_0
empty_stays p s h = elim (Bool-cases p.tie) [
  | inr off ↦ rw (step_0, int_asci0, off) h
  | inl on ↦ elim (get-cases p.tx s.valid) [
    | inl (none, empty, still) ↦ rw (step_0, int_asci0, on, none) still
    | inr (x, q, all, first, rest) ↦ absurd (nil-ne-cons x q (sym h ∙ all))
  ]
]

one_less :
    (p : Port) (x : ℕ) (q : List ℕ)
    → IsSound p
    → contents p.tx ≡ x ∷ q
    → contents (step_0 ready p).tx ≡ q
unfolding step_0 int_asci0 send_0
one_less p x q s h = elim (get-cases p.tx s.valid) [
  | inl (none, empty, still) ↦ absurd (nil-ne-cons x q (sym empty ∙ h))
  | inr (y, r, all, first, rest) ↦
      rw (step_0, int_asci0, s.active x q h, first) (rest ∙ tail-eq_of_cons-eq (sym all ∙ h))
]

shorter :
    (n : ℕ) (p : Port)
    → IsSound p
    → (q : List ℕ) → contents p.tx ≡ q
    → length q ≤ suc n
    → length (contents (step_0 ready p).tx) ≤ n
shorter n p s [] e l = rw (empty_stays p s e) (omega arith)
shorter n p s (x ∷ q) e l = rw (one_less p x q s e) (omega arith)

emptied :
    (n : ℕ) (p : Port)
    → IsSound p
    → length (contents p.tx) ≤ n
    → contents (run_0 (replicate n ready) p).tx ≡ []
unfolding run_0
emptied zero p s h = no_bytes (contents p.tx) h
  where
    no_bytes : (q : List ℕ) → length q ≤ 0 → q ≡ []
    no_bytes [] h = refl
    no_bytes (x ∷ q) h = absurd (omega arith)
emptied (suc n) p s h =
    emptied n (step_0 ready p) (step_lem ready p s).sound (shorter n p s (contents p.tx) refl h)

nothing_taken : (n : ℕ) (p : Port) → all_taken (replicate n ready) p ≡ []
unfolding all_taken
nothing_taken zero p = refl
nothing_taken (suc n) p = nothing_taken n (step_0 ready p)

-- When the transmitter of port 0, in a sound state, has been ready as often as bytes wait in the
-- ring, all of them are sent, in their order, and the ring is empty.
pub drained :
    (n : ℕ) (p : Port)
    → IsSound p
    → length (contents p.tx) ≤ n
    → let p' = run_0 (replicate n ready) p in (onto p'.sent [] ≡ stream p) × (contents p'.tx ≡ [])
drained n p s h =
    let e = emptied n p s h in
    (
      sym (ap (onto (run_0 (replicate n ready) p).sent) e)
          ∙ (run_0_lem (replicate n ready) p s).0
          ∙ ap (λ l. stream p ++ l) (nothing_taken n p)
          ∙ append-nil (stream p),
      e,
    )

-- Port 1 does not: with a valid ring and the interrupt that sends on, when a NUL is the next byte,
-- that interrupt takes it from the ring, sends nothing and turns itself off, whatever else waits.
nul_stops :
    (q : List ℕ) (p : Port)
    → IsValid p.tx
    → p.tie ≡ true
    → contents p.tx ≡ 0 ∷ q
    → let p' = int_asci1 false true 0 p in
      (contents p'.tx ≡ q) × (p'.sent ≡ p.sent) × (p'.tie ≡ false)
unfolding int_asci1 send_1
nul_stops q p v on h = elim (get-cases p.tx v) [
  | inl (none, empty, still) ↦ absurd (nil-ne-cons 0 q (sym empty ∙ h))
  | inr (y, r, all, first, rest) ↦
      let zero_byte : y ≡ 0 = head-eq_of_cons-eq (sym all ∙ h) in
      let rest' = rest ∙ tail-eq_of_cons-eq (sym all ∙ h) in
      (
        rw (int_asci1, on, first, zero_byte) rest',
        rw (int_asci1, on, first, zero_byte) refl,
        rw (int_asci1, on, first, zero_byte) refl,
      )
]
