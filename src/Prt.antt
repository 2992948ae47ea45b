-- ===== src/Prt.antt =====
-- src/prt.c and include/prt.h: the two channels of the reload timer. The masks of TCR are those of the
-- processor's header.
mod Examples
use Prim.Native.Nat.{bit_and, bit_or}
use zosys.Common.{
  ℕ, ◌+◌, ◌-◌, ◌*◌, ◌/◌, ◌%◌, ◌^◌, ◌≤◌, ◌<◌, ◌≡◌, refl, ap, ◌∙◌, Bool, true, false, not, ◌&&◌, ◌||◌,
  ◌≢◌, Option, none, some, arith, if◌then◌else◌, ◌==◌,
}
use zosys.Common.Bits.{
  bit, bit-and, bit-or, bit-pow, bit-zero, and_255, holds_from, at_of_holds, same, same-eq,
}
use zosys.Common.Int.{ℤ, pos}

-- The bits of TCR.
pub record Masks : Type 0 where
  pub tde0 : ℕ
  pub tde1 : ℕ
  pub tie0 : ℕ
  pub tie1 : ℕ
  pub toc0 : ℕ
  pub toc1 : ℕ

-- `enum prt_output_control`
pub data OutputControl : Type 0 where
  inhibited toggled zero_level one_level : OutputControl

-- The registers of a channel: what counts, and what it is reloaded with.
pub record Channel : Type 0 where
  pub tmdr_l : ℕ
  pub tmdr_h : ℕ
  pub rldr_l : ℕ
  pub rldr_h : ℕ

-- `H` is what the handlers are told apart by; none is a NULL pointer.
pub record Prt (H : Type 0) : Type 0 where
  pub tcr : ℕ
  pub channel_0 : Channel
  pub channel_1 : Channel
  pub routine_0 : Option H
  pub routine_1 : Option H

-- `~mask` in 8 bits
abbrev pub clear : (tcr mask : ℕ) → ℕ
clear tcr mask = bit_and tcr (0xFF - mask)

abbrev toc_bits : Masks → OutputControl → ℕ
toc_bits k inhibited = 0
toc_bits k toggled = k.toc0
toc_bits k zero_level = k.toc1
toc_bits k one_level = bit_or k.toc1 k.toc0

-- `count` is a `uint16_t`, so that `count - 1` is -1 at 0.
abbrev pub loaded : ℕ → Channel
loaded count = record {
  tmdr_l = bit_and count 0xFF;
  tmdr_h = bit_and (count / 2 ^ 8) 0xFF;
  rldr_l = bit_and ((count + 2 ^ 16 - 1) % 2 ^ 16) 0xFF;
  rldr_h = bit_and ((count + 2 ^ 16 - 1) % 2 ^ 16 / 2 ^ 8) 0xFF;
}

module _ {H : Type 0} (k : Masks) where
  unfoldable pub prt_start_0 : (count : ℕ) → (interrupt : Bool) → Prt H → ℤ × Prt H
  prt_start_0 count interrupt p =
      let stopped = clear p.tcr k.tde0 in
      (
        pos 0,
        record p {
          tcr = bit_or stopped (bit_or (if interrupt then k.tie0 else 0) k.tde0);
          channel_0 = loaded count;
        },
      )

  unfoldable pub prt_start_1 : (count : ℕ) → (interrupt : Bool) → OutputControl → Prt H → ℤ × Prt H
  prt_start_1 count interrupt toc p =
      let stopped = clear p.tcr k.tde1 in
      (
        pos 0,
        record p {
          tcr =
              bit_or stopped
                (bit_or (bit_or (if interrupt then k.tie1 else 0) (toc_bits k toc)) k.tde1);
          channel_1 = loaded count;
        },
      )

  unfoldable pub prt_stop_0 : Prt H → ℤ × Prt H
  prt_stop_0 p = (pos 0, record p { tcr = clear p.tcr k.tde0 })

  unfoldable pub prt_stop_1 : Prt H → ℤ × Prt H
  prt_stop_1 p = (pos 0, record p { tcr = clear p.tcr k.tde1 })

module _ {H : Type 0} where
  unfoldable pub prt_interrupt_routine_0 : Option H → Prt H → Prt H
  prt_interrupt_routine_0 routine p = record p { routine_0 = routine }

  unfoldable pub prt_interrupt_routine_1 : Option H → Prt H → Prt H
  prt_interrupt_routine_1 routine p = record p { routine_1 = routine }

  abbrev call : {S : Type 0} → (H → S → S) → Option H → S → S
  call run none s = s
  call run (some h) s = run h s

  -- What the interrupts do, past the two reads that acknowledge them.
  unfoldable pub int_prt0 : {S : Type 0} → (H → S → S) → Prt H → S → S
  int_prt0 run p s = call run p.routine_0 s

  unfoldable pub int_prt1 : {S : Type 0} → (H → S → S) → Prt H → S → S
  int_prt1 run p s = call run p.routine_1 s

abbrev pub count_of : Channel → ℕ
count_of c = c.tmdr_l + c.tmdr_h * 2 ^ 8

abbrev pub reload_of : Channel → ℕ
reload_of c = c.rldr_l + c.rldr_h * 2 ^ 8

loaded_lem :
    (count : ℕ)
    → 0 < count
    → count < 2 ^ 16
    → (count_of (loaded count) ≡ count) × (reload_of (loaded count) + 1 ≡ count)
loaded_lem count one h =
    let e : (count + 2 ^ 16 - 1) % 2 ^ 16 ≡ count - 1 = omega arith in
    (
      omega (arith, and_255 count, and_255 (count / 2 ^ 8)),
      rw e (omega (arith, and_255 (count - 1), and_255 ((count - 1) / 2 ^ 8))),
    )

mask_row : ℕ → ℕ → Bool
mask_row i j = same (bit (0xFF - 2 ^ i) j) (not (i == j))

mask_table : holds_from (λ i. holds_from (mask_row i) 0 8) 0 8 ≡ true
unfolding holds_from mask_row bit
mask_table = refl

bit-clear : (x i j : ℕ) → i < 8 → j < 8 → bit (clear x (2 ^ i)) j ≡ (bit x j && not (i == j))
unfolding mask_row
bit-clear x i j hi hj =
    let row =
      at_of_holds (λ i. holds_from (mask_row i) 0 8) 0 8 i mask_table (omega arith) (omega arith) in
    let e = same-eq _ _ (at_of_holds (mask_row i) 0 8 j row (omega arith) (omega arith)) in
    bit-and x (0xFF - 2 ^ i) j ∙ ap (λ b. bit x j && b) e

bit-if : (c : Bool) (t j : ℕ) → bit (if c then 2 ^ t else 0) j ≡ (c && (t == j))
bit-if true t j = bit-pow t j
bit-if false t j = bit-zero j

-- What `prt_start_0` leaves: the count and the count less one to reload, so that the period is the
-- count; of the eight bits of TCR, the one that counts is set, the one that interrupts is set if
-- asked for, and every other, that one included if it is not asked for, is as it was. Channel 1 and
-- the handlers are as they were. The masks are single bits, and the count is a positive `uint16_t`.
pub prt_start_0_lem :
    {H : Type 0} (k : Masks) (i t count : ℕ) (interrupt : Bool) (p : Prt H)
    → k.tde0 ≡ 2 ^ i
    → k.tie0 ≡ 2 ^ t
    → i < 8
    → 0 < count
    → count < 2 ^ 16
    → let (r, p') = prt_start_0 k count interrupt p in
      (r ≡ pos 0)
      × (count_of p'.channel_0 ≡ count)
      × (reload_of p'.channel_0 + 1 ≡ count)
      × ((j : ℕ)
          → j < 8
          → bit p'.tcr j ≡ ((bit p.tcr j && not (i == j)) || ((interrupt && (t == j)) || (i == j))))
      × (p'.channel_1 ≡ p.channel_1)
      × (p'.routine_0 ≡ p.routine_0)
      × (p'.routine_1 ≡ p.routine_1)
unfolding prt_start_0
prt_start_0_lem k i t count interrupt p ei et hi one h =
    let (now, later) = loaded_lem count one h in
    (
      refl,
      now,
      later,
      λ j hj.
          rw (ei, et)
            (bit-or _ _ j
              ∙ ap (◌||◌ (bit (clear p.tcr (2 ^ i)) j)) (bit-or _ _ j)
              ∙ (λ z. bit-clear p.tcr i j hi hj z || (bit-if interrupt t j z || bit-pow i j z))),
      refl,
      refl,
      refl,
    )
