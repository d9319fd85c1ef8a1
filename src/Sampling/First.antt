-- ===== src/Sampling/First.antt =====
-- `get_rand_mod_len` finds the first candidate of the key stream that is below the bound.
use bike_modify.Base.{ℕ, ◌+◌, ◌*◌}
use bike_modify.Prf.{Aes}
use bike_modify.Prf.Stream.{stream}
use bike_modify.Sampling.Bounded.{drawn}

module _ (aes : Aes) where
  -- The `j`th candidate from byte `n` of the key stream on: 4 bytes under the mask of the bound.
  unfoldable pub candidate : aes.Ks → ℕ → ℕ → ℕ → ℕ
  candidate ks len n j = drawn aes len (stream aes ks (n + 4 * j) 4)
