-- ===== src/Bls/Codec.antt =====
-- contracts/primitives/bls/codec.py: points as bytes, and their compressed form.
use Prim.Native.Nat.{bit_or}
use eth_avm_light_client.Prelude.{
  not, ◌&&◌, ◌||◌, ltb, ℕ, zero, suc, ◌-◌, [], ◌∷◌, ◌++◌, ◌==◌, if◌then◌else◌, Bool, leb, length,
  bytes_eq,
}
use eth_avm_light_client.Prelude.Slices.{slice}
use eth_avm_light_client.Avm.{
  Bytes, Result, ok, ◌>>=◌, ◌>>◌, assert, sub, from_be, be, be_onto, bzero,
}
use eth_avm_light_client.Bls.Curve.{Curve}

abbrev pub fp_bytes : ℕ
fp_bytes = 48

abbrev pub g1_bytes : ℕ
g1_bytes = 96

abbrev pub field_modulus : ℕ
field_modulus =
    0x1A0111EA397FE69A4B1BA7B6434BACD764774B84F38512BF6730D2A0F6B0F6241EABFFFEB153FFFFB9FEFFFFFFFFAAAB

abbrev pub g1_infinity : Bytes
g1_infinity = bzero g1_bytes

abbrev pub strip_zeros : Bytes → Bytes
strip_zeros [] = []
strip_zeros (zero ∷ b) = strip_zeros b
strip_zeros (suc n ∷ b) = suc n ∷ b

-- The bytes of a BigUInt, at most 64 of them and without leading zeros.
unfoldable pub big_bytes : ℕ → Bytes
big_bytes n = strip_zeros (be 64 n)

unfoldable pub pad_fp : Bytes → Result Bytes
pad_fp b = do
  assert (leb (length b) fp_bytes) ""
  if length b == fp_bytes then ok b else ok (bzero (fp_bytes - length b) ++ b)

unfoldable pub g1_is_infinity : Bytes → Result Bool
g1_is_infinity p = do assert (length p == g1_bytes) ""; ok (bytes_eq p g1_infinity)

unfoldable pub g1_negate : Bytes → Result Bytes
g1_negate p = do
  assert (length p == g1_bytes) ""
  infinite ← g1_is_infinity p
  if infinite then ok p else (do
    difference ← sub field_modulus (from_be (slice p 48 48))
    neg_y ← pad_fp (big_bytes difference)
    ok (slice p 0 48 ++ neg_y))

abbrev pub g2_bytes : ℕ
g2_bytes = 192

abbrev pub half_p : ℕ
half_p =
    0x0D0088F51CBFF34D258DD3DB21A5D66BB23BA5C279C2895FB39869507B587B120F55FFFF58A9FFFFDCFF7FFFFFFFD555

abbrev pub neg_g1_generator : Bytes
neg_g1_generator =
    be_onto 48
      0x17f1d3a73197d7942695638c4fa9ac0fc3688c4f9774b905a14e3a3f171bac586c55e83ff97a1aeffb3af00adb22c6bb
      (be 48
        0x114d1d6855d545a8aa7d76c8cf2e21f267816aef1db507c96655b9d5caac42364e6f38ba0ecb751bad54dcd6b939c2ca)

abbrev pub g2_infinity : Bytes
g2_infinity = bzero g2_bytes

abbrev pub g1_compressed_infinity : Bytes
g1_compressed_infinity = 0xC0 ∷ bzero 47

abbrev pub g2_compressed_infinity : Bytes
g2_compressed_infinity = 0xC0 ∷ bzero 95

unfoldable pub g2_is_infinity : Bytes → Result Bool
g2_is_infinity p = do assert (length p == g2_bytes) ""; ok (bytes_eq p g2_infinity)

unfoldable pub g2_negate : Bytes → Result Bytes
g2_negate p = do
  assert (length p == g2_bytes) ""
  infinite ← g2_is_infinity p
  if infinite then ok p else (do
    d0 ← sub field_modulus (from_be (slice p 96 48))
    neg_y_c0 ← pad_fp (big_bytes d0)
    d1 ← sub field_modulus (from_be (slice p 144 48))
    neg_y_c1 ← pad_fp (big_bytes d1)
    ok (slice p 0 96 ++ (neg_y_c0 ++ neg_y_c1)))

-- The first byte of a coordinate with the flags set: the compression flag 0x80, and 0x20 for the
-- larger y.
unfoldable pub with_flags : Bytes → Bool → Bytes
with_flags [] larger = []
with_flags (b ∷ x) larger = bit_or (bit_or b 0x80) (if larger then 0x20 else 0) ∷ x

unfoldable pub g1_compress : Bytes → Result Bytes
g1_compress p = do
  assert (length p == g1_bytes) ""
  infinite ← g1_is_infinity p
  if infinite
      then ok g1_compressed_infinity
      else ok (with_flags (slice p 0 48) (ltb half_p (from_be (slice p 48 48))))

-- The limbs change places: c1 comes first in the compressed form.
unfoldable pub g2_compress : Bytes → Result Bytes
g2_compress p = do
  assert (length p == g2_bytes) ""
  infinite ← g2_is_infinity p
  let y_c0 : ℕ = from_be (slice p 96 48) in
      let y_c1 : ℕ = from_be (slice p 144 48) in
      let larger : Bool = ltb half_p y_c1 || y_c1 == 0 && ltb half_p y_c0 in
      if infinite
      then ok g2_compressed_infinity
      else ok (with_flags (slice p 48 48) larger ++ slice p 0 48)

module _ (c : Curve) where
  unfoldable pub g1_validate_wellformed_only : Bytes → Result (Unit {0})
  g1_validate_wellformed_only p = do
    assert (length p == g1_bytes) ""
    inside ← c.g1_subgroup_check p
    assert inside ""

  unfoldable pub g2_validate_wellformed_only : Bytes → Result (Unit {0})
  g2_validate_wellformed_only p = do
    assert (length p == g2_bytes) ""
    inside ← c.g2_subgroup_check p
    assert inside ""

  unfoldable pub g1_bind : Bytes → Bytes → Result (Unit {0})
  g1_bind uncompressed committed_compressed = do
    infinite ← g1_is_infinity uncompressed
    assert (not infinite) ""
    inside ← c.g1_subgroup_check uncompressed
    assert inside ""
    compressed ← g1_compress uncompressed
    assert (bytes_eq compressed committed_compressed) ""

  unfoldable pub g2_bind : Bytes → Bytes → Result (Unit {0})
  g2_bind uncompressed committed_compressed = do
    infinite ← g2_is_infinity uncompressed
    assert (not infinite) ""
    inside ← c.g2_subgroup_check uncompressed
    assert inside ""
    compressed ← g2_compress uncompressed
    assert (bytes_eq compressed committed_compressed) ""
