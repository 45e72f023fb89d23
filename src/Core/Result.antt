-- ===== src/Core/Result.antt =====
-- `core::Result<T, E>` of include/ccmcp/core/result.h.
pub data Result {ℓ} (T E : Type ℓ) : Type ℓ where
  ok : T → Result T E
  err : E → Result T E
