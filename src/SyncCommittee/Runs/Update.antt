-- ===== src/SyncCommittee/Runs/Update.antt =====
-- An update that rolls over to the next committee, on a concrete state.
use eth_avm_light_client.Prelude.{
  ◌≡◌, refl, ap, sym, [], ◌∷◌, ◌++◌, true, none, some, arith, replicate, bytes_eq, length,
}
use eth_avm_light_client.Avm.{Bytes, Result, ok, bzero, itob, bitlen, bitlen_fuel}
use eth_avm_light_client.Avm.Results.{ok_inj}
use eth_avm_light_client.Avm.Store.{Store, put}
use eth_avm_light_client.Toy.{digest, toy}
use eth_avm_light_client.Bls.Curve.{Curve}
use eth_avm_light_client.Bls.Codec.{g1_negate, g1_is_infinity, g2_is_infinity, pad_fp, big_bytes}
use eth_avm_light_client.Bls.HashToCurve.{
  hash_to_g2, expand_message_xmd_sha256, expand_loop, bytes_xor,
}
use eth_avm_light_client.Bls.Pairing.{verify_aggregate_signature, pairing_check_2}
use eth_avm_light_client.Ssz.Branch.{
  branch_fold, compute_merkle_branch_root, assert_valid_merkle_branch, padding_loop,
  assert_valid_normalized_merkle_branch,
}
use eth_avm_light_client.Ssz.Merkleize.{zero_hash, zero_hash_table}
use eth_avm_light_client.SyncCommittee.Header.{
  be64_from_le, header_slot, epoch_at_slot, hash_tree_root_beacon_block_header,
  compute_fork_data_root, compute_domain, compute_signing_root,
}
use eth_avm_light_client.SyncCommittee.Period.{
  period_at_epoch, period_at_slot, fork_version_epoch_for_signature_slot,
}
use eth_avm_light_client.SyncCommittee.Forks.{
  row_key, read_row, find_loop, find_row_index_for_epoch, lookup_fork_version, lookup_gindices,
}
use eth_avm_light_client.SyncCommittee.Bitfield.{
  total_box_name, avm_bit_index, walk_bit, walk_bits, walk_and_accumulate, aggregate_participants,
}
use eth_avm_light_client.SyncCommittee.Install.{install_delete_committee_boxes}
use eth_avm_light_client.SyncCommittee.Verifier.{Verifier, retire, zero32}
use eth_avm_light_client.SyncCommittee.Verifier.Update.{
  Arguments, UpdateVerified, submit_update, check_update, select_committee, discover,
  finalize_update, advances, has_supermajority, has_next_proof, rollover, assert_signed,
}
use eth_avm_light_client.SyncCommittee.Verifier.Steps.{retires, here, next}
use eth_avm_light_client.SyncCommittee.Verifier.Stuck.{rollover-stays}
use eth_avm_light_client.SyncCommittee.Verifier.Finality.{Finalizes, submit_update-Finalizes}

-- A curve whose opcodes succeed; the sum of two points is the second one where that has 96 bytes.
abbrev pub toy_add : Bytes → Bytes → Result Bytes
toy_add a b = ok (replicate 96 9)

pub length-toy_add : (a b : Bytes) {p : Bytes} → toy_add a b ≡ ok p → length p ≡ 96
length-toy_add a b e = ap length (sym (ok_inj e))

abbrev pub curve : Curve
curve = record {
  g1_add = toy_add;
  g2_add = λ a b. ok (replicate 192 5);
  g1_subgroup_check = λ p. ok true;
  g2_subgroup_check = λ p. ok true;
  g2_map_to = λ u. ok (replicate 192 5);
  pairing_check = λ a b. ok true;
  g1_scalar_mul_multi = λ a b. ok (replicate 96 9);
  length-g1_add = length-toy_add;
}

-- Both headers are all zeros but for their slots and the attested state root.
abbrev finalized_header : Bytes
finalized_header = 96 ∷ bzero 111

abbrev fin_root : Bytes
fin_root = digest (96 ∷ [])

abbrev sibling : Bytes
sibling = digest (5 ∷ [])

abbrev state_root : Bytes
state_root = digest (101 ∷ [])

-- Slot 8200, in period 1.
abbrev attested_header : Bytes
attested_header = 8 ∷ 32 ∷ (bzero 46 ++ (state_root ++ bzero 32))

abbrev row : Bytes
row = itob 0 ++ (bzero 4 ++ (itob 2 ++ (itob 2 ++ itob 2)))

abbrev rows : Store
rows = put (row_key 0) row (λ name. none)

abbrev boxes : Store
boxes name = some (replicate 96 7)

-- The finalized header is of slot 64, in period 0; generation 2 is known for period 1.
abbrev s : Verifier
s = record {
  gov = zero32;
  gvr = zero32;
  fin_slot = 64;
  fin_root = zero32;
  fin_state_root = zero32;
  att_slot = 64;
  att_state_root = zero32;
  cur_gen = 1;
  cur_period = 0;
  next_gen = 2;
  next_period = 1;
  next_committee_root_trusted = sibling;
  next_committee_root_period = 1;
  inst_state = 0;
  inst_gen = 0;
  inst_period = 0;
  inst_root = zero32;
  inst_cursor = 0;
  fork_count = 1;
  gen_counter = 2;
  rows = rows;
  boxes = boxes;
}

abbrev u : Arguments
u = record {
  attested_header = attested_header;
  finalized_header = finalized_header;
  finality_branch = sibling;
  next_committee_root = zero32;
  next_committee_branch = [];
  sync_committee_bits = replicate 64 255;
  signature = replicate 192 6;
  signature_slot = 8201;
  mode = 1;
}

abbrev event : UpdateVerified
event = record {
  finalized_slot = 96;
  finalized_beacon_root = fin_root;
  finalized_state_root = zero32;
  attested_slot = 8200;
  attested_state_root = state_root;
  participation = 512;
  signature_slot = 8201;
}

abbrev t : Verifier
t = record s {
  fin_slot = 96;
  fin_root = fin_root;
  att_slot = 8200;
  att_state_root = state_root;
  cur_gen = 2;
  cur_period = 1;
  next_gen = 0;
  next_period = 0;
}

runs : submit_update toy curve u s ≡ ok (t, some event)
unfolding submit_update check_update header_slot be64_from_le select_committee period_at_slot
    period_at_epoch epoch_at_slot fork_version_epoch_for_signature_slot lookup_fork_version
    lookup_gindices find_row_index_for_epoch find_loop read_row row_key put bytes_eq
    hash_tree_root_beacon_block_header zero_hash zero_hash_table
    assert_valid_normalized_merkle_branch padding_loop assert_valid_merkle_branch
    compute_merkle_branch_root branch_fold bitlen bitlen_fuel has_next_proof aggregate_participants
    walk_and_accumulate walk_bits walk_bit avm_bit_index total_box_name g1_negate g1_is_infinity
    g2_is_infinity pad_fp big_bytes assert_signed compute_domain compute_fork_data_root
    compute_signing_root hash_to_g2 expand_message_xmd_sha256 expand_loop bytes_xor
    verify_aggregate_signature pairing_check_2 discover finalize_update advances has_supermajority
    rollover
runs = refl

-- Committee 1 is retired after the rollover.
abbrev retired : Verifier
retired = record t { boxes = install_delete_committee_boxes 1 boxes }

retire_runs : retire 1 t ≡ ok retired
unfolding retire
retire_runs = refl

rollover-stays_example : period_at_slot retired.fin_slot ≡ period_at_slot s.fin_slot
unfolding period_at_slot
rollover-stays_example =
    rollover-stays toy curve u s {event = event} runs (omega arith) (omega arith) refl refl
      (omega arith) (next here (retires 1 (omega arith) retire_runs))

submit_update-Finalizes_example : Finalizes toy curve u s t
submit_update-Finalizes_example = submit_update-Finalizes toy curve u s {event = event} runs
