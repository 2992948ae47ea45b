-- ===== src/Prt/Examples.antt =====
-- A start of the first channel of src/prt.c with the masks of the Z180.
use zosys.Common.{ℕ, ◌+◌, ◌<◌, ◌≡◌, refl, true, not, ◌&&◌, ◌||◌, none, arith, ◌==◌}
use zosys.Common.Bits.{bit}
use zosys.Common.Int.{pos}
use zosys.Prt.{Masks, Prt, Channel, prt_start_0, prt_start_0_lem, count_of, reload_of}

abbrev masks : Masks
masks = record { tde0 = 1; tde1 = 2; tie0 = 16; tie1 = 32; toc0 = 4; toc1 = 8 }

abbrev stopped : Channel
stopped = record { tmdr_l = 0; tmdr_h = 0; rldr_l = 0; rldr_h = 0 }

abbrev timer : Prt ℕ
timer = record {
  tcr = 0;
  channel_0 = stopped;
  channel_1 = stopped;
  routine_0 = none;
  routine_1 = none;
}

prt_start_0_lem_example :
    let (r, p') = prt_start_0 masks 0x4D2 true timer in
    (r ≡ pos 0)
    × (count_of p'.channel_0 ≡ 0x4D2)
    × (reload_of p'.channel_0 + 1 ≡ 0x4D2)
    × ((j : ℕ)
        → j < 8
        → bit p'.tcr j ≡ ((bit 0 j && not (◌==◌ 0 j)) || ((true && (◌==◌ 4 j)) || (◌==◌ 0 j))))
    × (p'.channel_1 ≡ stopped)
    × (p'.routine_0 ≡ none)
    × (p'.routine_1 ≡ none)
prt_start_0_lem_example =
    prt_start_0_lem masks 0 4 0x4D2 true timer refl refl (omega arith) (omega arith) (omega arith)
