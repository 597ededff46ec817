-- ===== src/Bls/Aggregate.antt =====
-- contracts/primitives/bls/aggregate.py: sums of keys that lie behind one another in a blob.
use eth_avm_light_client.Prelude.{
  ℕ, zero, suc, ◌+◌, ◌-◌, ◌*◌, ◌/◌, ◌%◌, ◌==◌, if◌then◌else◌, leb, ltb, length,
}
use eth_avm_light_client.Prelude.Slices.{slice}
use eth_avm_light_client.Avm.{Bytes, Result, ok, ◌>>=◌, ◌>>◌, assert, u64}
use eth_avm_light_client.Bls.Curve.{Curve}
use eth_avm_light_client.Bls.Codec.{g1_bytes, g1_infinity, g1_is_infinity, g1_negate}

abbrev pub g1_value_cap_bytes : ℕ
g1_value_cap_bytes = 4032

abbrev pub scalar_bytes : ℕ
scalar_bytes = 32

unfoldable pub assert_g1_blob : Bytes → Result ℕ
assert_g1_blob blob = do
  assert (length blob % g1_bytes == 0) ""
  assert (leb (length blob) g1_value_cap_bytes) ""
  ok (length blob / g1_bytes)

unfoldable pub chunk_count : ℕ → ℕ → Result ℕ
chunk_count n chunk_size = do
  assert (ltb 0 chunk_size) ""
  end ← u64 (n + chunk_size)
  ok ((end - 1) / chunk_size)

module _ (c : Curve) where
  -- The points left, the next point, and the sum so far.
  unfoldable pub add_points : ℕ → ℕ → Bytes → Bytes → Result Bytes
  add_points zero i blob acc = ok acc
  add_points (suc m) i blob acc = do
    acc' ← c.g1_add acc (slice blob (i * g1_bytes) g1_bytes)
    add_points m (i + 1) blob acc'

  unfoldable pub g1_sum_blob : Bytes → Result Bytes
  g1_sum_blob blob = do
    n ← assert_g1_blob blob
    if n == 0 then ok g1_infinity else add_points (n - 1) 1 blob (slice blob 0 g1_bytes)

  unfoldable pub g1_accumulate : Bytes → Bytes → Result Bytes
  g1_accumulate acc blob = do
    assert (length acc == g1_bytes) ""
    n ← assert_g1_blob blob
    if n == 0 then ok acc else (do
      infinite ← g1_is_infinity acc
      if infinite
          then add_points (n - 1) 1 blob (slice blob 0 g1_bytes)
          else add_points n 0 blob acc)

  unfoldable pub g1_accumulate_negated : Bytes → Bytes → Result Bytes
  g1_accumulate_negated acc blob = do
    assert (length acc == g1_bytes) ""
    n ← assert_g1_blob blob
    if n == 0 then ok acc else (do
      total ← g1_sum_blob blob
      neg_sum ← g1_negate total
      infinite ← g1_is_infinity acc
      if infinite then ok neg_sum else c.g1_add acc neg_sum)

  unfoldable pub g1_msm_chunk : Bytes → Bytes → Result Bytes
  g1_msm_chunk points scalars = do
    assert (leb (length points) g1_value_cap_bytes) ""
    assert (length points % g1_bytes == 0) ""
    assert (length scalars == length points / g1_bytes * scalar_bytes) ""
    c.g1_scalar_mul_multi points scalars

  unfoldable pub g1_msm_accumulate : Bytes → Bytes → Bytes → Result Bytes
  g1_msm_accumulate acc points scalars = do
    assert (length acc == g1_bytes) ""
    chunk ← g1_msm_chunk points scalars
    infinite ← g1_is_infinity acc
    if infinite then ok chunk else c.g1_add acc chunk
