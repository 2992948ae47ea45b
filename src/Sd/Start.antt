-- ===== src/Sd/Start.antt =====
-- `dev_sd_init` of src/dev_sd.c.
use Prim.Native.Nat.{bit_and}
use zosys.Common.{ℕ, zero, suc, true, false, if◌then◌else◌, ltb, ◌==◌}
use zosys.Common.Int.{ℤ, pos, minus_one}
use zosys.Spi.{Csio}
use zosys.Sd.{
  Io, R7, pure, ◌>>=◌, ◌>>◌, sd_power_up_seq, sd_go_idle_state, sd_send_if_cond, sd_send_app,
  sd_send_op_cond, sd_read_ocr,
}

module _ {D : Type 0} (port : Csio D) (passive patience : ℕ) where
  -- The loop over `init_attempts`, with the last result of ACMD41: 0 ends it.
  pub init_attempts : ℕ → ℕ → Io D ℕ
  unfolding sd_send_app sd_send_op_cond
  init_attempts zero result = pure result
  init_attempts (suc left) result = do
    app ← sd_send_app port passive patience
    elim (bit_and app 0xfe == 0) [
      | false ↦ init_attempts left result
      | true ↦ (do
        r ← sd_send_op_cond port passive patience
        elim (r == 0) [ true ↦ pure r | false ↦ init_attempts left r ])
    ]

  -- The part of `dev_sd_init` under the mutex: its result. The driver is registered in any case.
  abbrev pub init_rest : ℕ → Io D ℤ
  unfolding sd_read_ocr
  init_rest op_cond = elim (op_cond == 0) [
    | false ↦ pure minus_one
    | true ↦ (do
      r ← sd_read_ocr port passive patience
      pure (if ltb 1 r.0 then minus_one else pos 0))
  ]

  abbrev pub init_checked : R7 → Io D ℤ
  unfolding init_attempts
  init_checked r = elim (ltb 1 r.r1) [
    | true ↦ pure minus_one
    | false ↦ (do op_cond ← init_attempts 100 0xff; init_rest op_cond)
  ]

  abbrev pub init_idle : ℕ → Io D ℤ
  unfolding sd_send_if_cond
  init_idle r1 = elim (ltb 1 r1) [
    | true ↦ pure minus_one
    | false ↦ (do r ← sd_send_if_cond port passive patience; init_checked r)
  ]

  unfoldable dev_sd_init : Io D ℤ
  unfolding sd_power_up_seq sd_go_idle_state
  dev_sd_init = do
    sd_power_up_seq port passive patience
    r1 ← sd_go_idle_state port passive patience
    init_idle r1
