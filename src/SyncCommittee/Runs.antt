-- ===== src/SyncCommittee/Runs.antt =====
-- The participation bits on concrete committees.
pub mod Update
pub mod Genesis
pub mod Committee
use eth_avm_light_client.Prelude.{
  ◌/◌, ◌%◌, ◌≡◌, refl, [], ◌∷◌, ◌++◌, some, arith, replicate, bytes_eq,
}
use eth_avm_light_client.Avm.{Bytes, Result, ok, ◌>>=◌, getbyte, getbit}
use eth_avm_light_client.Avm.Store.{Store}
use eth_avm_light_client.Bls.Codec.{g1_negate, g1_is_infinity, pad_fp, big_bytes}
use eth_avm_light_client.SyncCommittee.Bitfield.{
  avm_bit_index, bytes_getbit, aggregate_participants, walk_and_accumulate, walk_bits, walk_bit,
  add_member, key_box_name, total_box_name,
}
use eth_avm_light_client.SyncCommittee.Bitfield.Order.{member, avm_bit_index-getbit}
use eth_avm_light_client.SyncCommittee.Bitfield.Count.{count, aggregate_participants-count}

-- Everyone but member 0.
abbrev bits : Bytes
bits = 0xFE ∷ replicate 63 0xFF

-- Every box of the store holds sevens.
abbrev boxes : Store
boxes name = some (replicate 6144 7)

-- Not the group's sum: the run only shows that the calls succeed.
abbrev add : Bytes → Bytes → Result Bytes
add a b = ok b

abbrev negated_sevens : Bytes
negated_sevens =
    replicate 48 7
    ++ (0x12 ∷ 0xFA ∷ 0x0A ∷ 0xE3 ∷ 0x32 ∷ 0x78 ∷ 0xDF ∷ 0x93 ∷ 0x44 ∷ 0x14 ∷ 0xA0 ∷ 0xAF ∷ 0x3C
        ∷ 0x44 ∷ 0xA5 ∷ 0xD0 ∷ 0x5D ∷ 0x70 ∷ 0x44 ∷ 0x7D ∷ 0xEC ∷ 0x7E ∷ 0x0B ∷ 0xB8 ∷ 0x60 ∷ 0x29
        ∷ 0xCB ∷ 0x99 ∷ 0xEF ∷ 0xA9 ∷ 0xEF ∷ 0x1D ∷ 0x17 ∷ 0xA4 ∷ 0xF8 ∷ 0xF7 ∷ 0xAA ∷ 0x4C ∷ 0xF8
        ∷ 0xF8 ∷ 0xB2 ∷ 0xF7 ∷ 0xF8 ∷ 0xF8 ∷ 0xF8 ∷ 0xF8 ∷ 0xA3 ∷ 0xA4 ∷ [])

runs : aggregate_participants add boxes bits 1 1 ≡ ok (negated_sevens, 511)
unfolding aggregate_participants walk_and_accumulate walk_bits walk_bit add_member avm_bit_index
    key_box_name total_box_name g1_negate g1_is_infinity pad_fp big_bytes bytes_eq
runs = refl

aggregate_participants-count_example : 511 ≡ count (member bits) 512 0
aggregate_participants-count_example = aggregate_participants-count add boxes 1 bits 1 runs
