-- ===== src/Bls/Pairing.antt =====
-- contracts/primitives/bls/pairing.py: the check of an aggregate signature.
use eth_avm_light_client.Prelude.{Bool, not, ◌++◌, ◌==◌, length}
use eth_avm_light_client.Avm.{Bytes, Result, ◌>>=◌, ◌>>◌, assert}
use eth_avm_light_client.Bls.Curve.{Curve}
use eth_avm_light_client.Bls.Codec.{
  g1_bytes, g2_bytes, g1_is_infinity, g2_is_infinity, neg_g1_generator,
}

module _ (c : Curve) where
  unfoldable pub pairing_check_2 : Bytes → Bytes → Bytes → Bytes → Result Bool
  pairing_check_2 a0 b0 a1 b1 = do
    assert (length a0 == g1_bytes) ""
    assert (length a1 == g1_bytes) ""
    assert (length b0 == g2_bytes) ""
    assert (length b1 == g2_bytes) ""
    c.pairing_check (a0 ++ a1) (b0 ++ b1)

  unfoldable pub verify_aggregate_signature : Bytes → Bytes → Bytes → Result Bool
  verify_aggregate_signature agg_pubkey msg_point signature = do
    no_key ← g1_is_infinity agg_pubkey
    assert (not no_key) ""
    no_message ← g2_is_infinity msg_point
    assert (not no_message) ""
    no_signature ← g2_is_infinity signature
    assert (not no_signature) ""
    inside ← c.g2_subgroup_check signature
    assert inside ""
    pairing_check_2 agg_pubkey msg_point neg_g1_generator signature
