-- ===== src/SyncCommittee/Bitfield.antt =====
-- contracts/sync_committee/bitfield.py: the order of the participation bits and the one pass that
-- reads the bits and adds up the keys; the names of the key boxes (install.py).
pub mod Order
pub mod Count
use eth_avm_light_client.Prelude.{
  ℕ, zero, suc, ◌+◌, ◌-◌, ◌*◌, ◌/◌, ◌%◌, ◌^◌, [], ◌∷◌, ◌++◌, ◌==◌, if◌then◌else◌, Bool, true, false,
  not, ◌&&◌, ◌||◌, length,
}
use eth_avm_light_client.Avm.{
  Bytes, Result, ok, ◌>>=◌, ◌>>◌, assert, u64, sub, getbyte, getbit, itob, byte1,
}
use eth_avm_light_client.Avm.Store.{Store, box_extract}
use eth_avm_light_client.Bls.Codec.{g1_infinity, g1_negate}

abbrev pub sync_committee_size : ℕ
sync_committee_size = 512

abbrev pub sync_committee_bits_bytes : ℕ
sync_committee_bits_bytes = 64

abbrev pub keys_per_box : ℕ
keys_per_box = 64

abbrev pub g1_uncompressed_bytes : ℕ
g1_uncompressed_bytes = 96

-- "k:"
unfoldable pub key_box_name : ℕ → ℕ → Bytes
key_box_name gen box_index = 107 ∷ 58 ∷ [] ++ (itob gen ++ byte1 box_index)

-- "a:"
unfoldable pub total_box_name : ℕ → Bytes
total_box_name gen = 97 ∷ 58 ∷ [] ++ itob gen

unfoldable pub avm_bit_index : ℕ → Result ℕ
avm_bit_index i = do above ← u64 (i / 8 * 8 + 7); sub above (i % 8)

-- op.getbit on a byte string counts bits from the most significant one of the first byte.
abbrev pub bytes_getbit : Bytes → ℕ → Result Bool
bytes_getbit b i = do v ← getbyte b (i / 8); ok (getbit v (7 - i % 8))

-- `acc`, `have` and `touched`
abbrev pub Walk : Type 0
Walk = Bytes × Bool × ℕ

abbrev pub touches : Bool → Bool → Bool
touches bit_set complement = bit_set && not complement || not bit_set && complement

-- `add` is the opcode ec_add on BLS12-381 G1.
module _ (add : Bytes → Bytes → Result Bytes) (boxes : Store) where
  unfoldable pub add_member : ℕ → ℕ → Walk → Result Walk
  add_member gen i (acc, have, touched) = do
    pk ←
        box_extract (key_box_name gen (i / keys_per_box)) (i % keys_per_box * g1_uncompressed_bytes)
          g1_uncompressed_bytes boxes
    acc' ← if have then add acc pk else ok pk
    touched' ← u64 (touched + 1)
    ok (acc', true, touched')

  unfoldable pub walk_bit : Bytes → ℕ → Bool → ℕ → Walk → Result Walk
  walk_bit bits gen complement i walk = do
    index ← avm_bit_index i
    bit_set ← bytes_getbit bits index
    if touches bit_set complement then add_member gen i walk else ok walk

  -- The bits left and the next bit.
  unfoldable pub walk_bits : Bytes → ℕ → Bool → ℕ → ℕ → Walk → Result Walk
  walk_bits bits gen complement zero i walk = ok walk
  walk_bits bits gen complement (suc m) i walk = do
    walk' ← walk_bit bits gen complement i walk
    walk_bits bits gen complement m (i + 1) walk'

  unfoldable pub walk_and_accumulate : Bytes → ℕ → Bool → Result (Bytes × ℕ)
  walk_and_accumulate bits gen complement = do
    assert (length bits == sync_committee_bits_bytes) ""
    (acc, _, touched) ← walk_bits bits gen complement sync_committee_size 0 (g1_infinity, false, 0)
    ok (acc, touched)

  unfoldable pub aggregate_participants : Bytes → ℕ → ℕ → Result (Bytes × ℕ)
  aggregate_participants bits gen mode =
      let complement : Bool = mode == 1 in
      (do
        (touched_sum, touched) ← walk_and_accumulate bits gen complement
        if complement
            then (do
              popcount ← sub sync_committee_size touched
              a_total ← box_extract (total_box_name gen) 0 g1_uncompressed_bytes boxes
              negated ← g1_negate touched_sum
              agg ← add a_total negated
              ok (agg, popcount))
            else ok (touched_sum, touched))
