-- ===== src/Bls/HashToCurve.antt =====
-- contracts/primitives/bls/hash_to_curve.py: a message as a point of G2.
use Prim.Native.Nat.{bit_xor}
use eth_avm_light_client.Prelude.{ℕ, zero, suc, ◌+◌, ◌-◌, ◌*◌, ◌/◌, ◌%◌, [], ◌∷◌, ◌++◌, leb, length}
use eth_avm_light_client.Prelude.Slices.{slice}
use eth_avm_light_client.Avm.{
  Bytes, Result, ok, ◌>>=◌, ◌>>◌, assert, bzero, byte1, be2, from_be, Hashes,
}
use eth_avm_light_client.Bls.Curve.{Curve}
use eth_avm_light_client.Bls.Codec.{field_modulus, pad_fp, big_bytes}

-- `b^` of two digests, which have one length.
unfoldable pub bytes_xor : Bytes → Bytes → Bytes
bytes_xor [] b = b
bytes_xor (x ∷ a) [] = x ∷ a
bytes_xor (x ∷ a) (y ∷ b) = bit_xor x y ∷ bytes_xor a b

module _ (h : Hashes) where
  -- The blocks left, the index of the next one, the last block and the bytes so far.
  unfoldable pub expand_loop : ℕ → ℕ → Bytes → Bytes → Bytes → Bytes → Bytes
  expand_loop zero i b0 b_prev dst_prime uniform = uniform
  expand_loop (suc m) i b0 b_prev dst_prime uniform =
      let b_i : Bytes = h.sha256 (bytes_xor b0 b_prev ++ (byte1 i ++ dst_prime)) in
      expand_loop m (i + 1) b0 b_i dst_prime (uniform ++ b_i)

  unfoldable pub expand_message_xmd_sha256 : Bytes → Bytes → ℕ → Result Bytes
  expand_message_xmd_sha256 msg dst out_len = do
    assert (leb (length dst) 255) ""
    assert (leb out_len (255 * 32)) ""
    let ell : ℕ = (out_len + 32 - 1) / 32 in
        (do
          assert (leb 1 ell) ""
          assert (leb ell 255) ""
          let dst_prime : Bytes = dst ++ byte1 (length dst) in
              let msg_prime : Bytes =
                bzero 64 ++ (msg ++ (be2 out_len ++ (bzero 1 ++ dst_prime))) in
              let b0 : Bytes = h.sha256 msg_prime in
              let b1 : Bytes = h.sha256 (b0 ++ (byte1 1 ++ dst_prime)) in
              ok (slice (expand_loop (ell - 1) 2 b0 b1 dst_prime b1) 0 out_len))

  module _ (c : Curve) where
    unfoldable pub hash_to_g2 : Bytes → Bytes → Result Bytes
    hash_to_g2 msg dst = do
      uniform ← expand_message_xmd_sha256 msg dst 256
      e0 ← pad_fp (big_bytes (from_be (slice uniform 0 64) % field_modulus))
      e1 ← pad_fp (big_bytes (from_be (slice uniform 64 64) % field_modulus))
      e2 ← pad_fp (big_bytes (from_be (slice uniform 128 64) % field_modulus))
      e3 ← pad_fp (big_bytes (from_be (slice uniform 192 64) % field_modulus))
      q0 ← c.g2_map_to (e0 ++ e1)
      q1 ← c.g2_map_to (e2 ++ e3)
      c.g2_add q0 q1
