-- ===== src/Bls/Curve.antt =====
-- The opcodes on BLS12-381, which the sources only call: a call may fail. Of the results only the
-- length of a sum in G1 is assumed.
use eth_avm_light_client.Prelude.{Bool, ◌≡◌, length}
use eth_avm_light_client.Avm.{Bytes, Result, ok}

pub record Curve : Type 0 where
  -- ec_add
  pub g1_add : Bytes → Bytes → Result Bytes
  pub g2_add : Bytes → Bytes → Result Bytes
  -- ec_subgroup_check
  pub g1_subgroup_check : Bytes → Result Bool
  pub g2_subgroup_check : Bytes → Result Bool
  -- ec_map_to
  pub g2_map_to : Bytes → Result Bytes
  -- ec_pairing_check
  pub pairing_check : Bytes → Bytes → Result Bool
  -- ec_multi_scalar_mul
  pub g1_scalar_mul_multi : Bytes → Bytes → Result Bytes
  pub length-g1_add : (a b : Bytes) {p : Bytes} → g1_add a b ≡ ok p → length p ≡ 96
