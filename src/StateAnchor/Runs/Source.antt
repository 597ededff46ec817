-- ===== src/StateAnchor/Runs/Source.antt =====
-- A block anchored under the header of the verifier's genesis.
use eth_avm_light_client.Prelude.{bytes_eq, ◌≡◌, ◌⊎◌, refl, ◌∷◌, ◌++◌}
use eth_avm_light_client.Avm.{Bytes, ok, itob, bitlen, bitlen_fuel, Collision}
use eth_avm_light_client.Avm.Store.{put}
use eth_avm_light_client.Toy.{digest, toy}
use eth_avm_light_client.Ssz.Branch.{
  branch_fold, compute_merkle_branch_root, assert_valid_merkle_branch,
}
use eth_avm_light_client.Ssz.Merkleize.{zero_hash, zero_hash_table}
use eth_avm_light_client.SyncCommittee.Header.{
  le64, be64_from_le, header_slot, epoch_at_slot, hash_tree_root_beacon_block_header,
}
use eth_avm_light_client.SyncCommittee.Verifier.{zero32}
use eth_avm_light_client.SyncCommittee.Runs.Update.{curve}
use eth_avm_light_client.SyncCommittee.Runs.Genesis.{
  gov, header, header_root, booted, booted_reached,
}
use eth_avm_light_client.StateAnchor.Record.{build_record, a_block_number, a_beacon_slot}
use eth_avm_light_client.StateAnchor.Box.{
  ring_box_name, ring_residue, ring_admit_and_write, ring_decide, finish_outcome,
  finish_anchor_flow,
}
use eth_avm_light_client.StateAnchor.Forks.{
  row_key, read_row, find_loop, find_row_index_for_epoch, lookup_row,
}
use eth_avm_light_client.StateAnchor.Bridge.{
  read_m4_finalized, assert_header_shape, assert_fin_header_matches,
  assert_fin_state_root_cross_check, assert_branch_depth, block_number_leaf, fold_execution_fields,
}
use eth_avm_light_client.StateAnchor.App.{Anchor, finish_anchor, write_back, anchor_direct}
use eth_avm_light_client.StateAnchor.App.Source.{verifier_app, Attested, anchor_direct-Attested}
use eth_avm_light_client.StateAnchor.Runs.{
  state_root, receipts_root, state_branch, receipts_branch, number_branch, txn, s,
}

abbrev anchored : Bytes
anchored =
    1
    ∷ (0
        ∷ (itob 5
            ++ (itob 64
                ++ (state_root ++ (receipts_root ++ (header_root ++ (header_root ++ itob 1000)))))))

abbrev after : Anchor
after = record s {
  hi_block = 5;
  hi_slot = 64;
  n_anchored = 1;
  boxes = put (ring_box_name 1) anchored s.boxes;
}

anchor_runs :
    anchor_direct toy txn
      (verifier_app 7 booted)
      header
      state_root
      receipts_root
      5
      state_branch
      receipts_branch
      number_branch
      s
    ≡ ok (anchored, after)
unfolding verifier_app anchor_direct read_m4_finalized assert_fin_header_matches assert_header_shape
    hash_tree_root_beacon_block_header zero_hash zero_hash_table assert_fin_state_root_cross_check
    header_slot be64_from_le epoch_at_slot lookup_row find_row_index_for_epoch find_loop read_row
    row_key fold_execution_fields assert_branch_depth assert_valid_merkle_branch
    compute_merkle_branch_root branch_fold block_number_leaf le64 bitlen bitlen_fuel build_record
    finish_anchor write_back finish_anchor_flow ring_admit_and_write ring_decide finish_outcome
    a_block_number a_beacon_slot ring_residue put bytes_eq ring_box_name
anchor_runs = refl

anchor_direct-Attested_example :
    Attested toy curve gov zero32 s state_root receipts_root 5 state_branch receipts_branch
      number_branch booted
    ⊎ Collision digest
anchor_direct-Attested_example =
    anchor_direct-Attested toy curve gov zero32 7 booted txn header state_root receipts_root 5
      state_branch receipts_branch number_branch s booted_reached anchor_runs
