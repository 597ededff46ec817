-- ===== src/Bls.antt =====
-- contracts/primitives/bls: the encodings of points, the hash to the curve, the pairing check and
-- the sums of keys. The curve opcodes are parameters.
pub mod Curve
pub mod Codec
pub mod Pairing
pub mod HashToCurve
pub mod Aggregate
