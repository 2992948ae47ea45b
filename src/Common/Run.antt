-- ===== src/Common/Run.antt =====
-- The end of a kernel path: it returns, it stops in `panic()`, or it reads through a null or a
-- dangling pointer (which the C standard leaves undefined).
pub data Run {ℓ} (A : Type ℓ) : Type ℓ where
  ok : A → Run A
  panic fault : Run A
