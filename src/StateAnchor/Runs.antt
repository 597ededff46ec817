-- ===== src/StateAnchor/Runs.antt =====
-- The anchor on a small ring, with the hash of the tests.
pub mod Pinning
pub mod Source
pub mod Table
use eth_avm_light_client.Prelude.{
  ℕ, ◌+◌, ◌≡◌, refl, ◌⊎◌, [], ◌∷◌, ◌++◌, true, false, none, some, arith, bytes_eq,
}
use eth_avm_light_client.Avm.{Bytes, ok, err, code, bzero, itob, bitlen, bitlen_fuel, Collision}
use eth_avm_light_client.Avm.Store.{Store, put, box_extract}
use eth_avm_light_client.Toy.{digest, toy}
use eth_avm_light_client.Ssz.Branch.{
  branch_fold, compute_merkle_branch_root, assert_valid_merkle_branch,
}
use eth_avm_light_client.Ssz.Merkleize.{zero_hash, zero_hash_table}
use eth_avm_light_client.SyncCommittee.Header.{
  le64, be64_from_le, header_slot, epoch_at_slot, hash_tree_root_beacon_block_header,
}
use eth_avm_light_client.StateAnchor.Record.{
  a_version, a_flags, a_is_revoked, a_block_number, a_beacon_slot, a_matches_block_number,
  build_record, record_content_matches,
}
use eth_avm_light_client.StateAnchor.Record.Fields.{Says, build_record-Says, content_matches-rounds}
use eth_avm_light_client.StateAnchor.Box.{
  ring_box_name, ring_residue, ring_decide, ring_admit_and_write, finish_outcome,
  finish_anchor_flow, read_ring_slot, Finished,
}
use eth_avm_light_client.StateAnchor.Box.Clash.{historical-latches}
use eth_avm_light_client.StateAnchor.Forks as Forks
use eth_avm_light_client.StateAnchor.Forks.{
  row_key, read_row, assert_epoch_increases, lookup_row, find_row_index_for_epoch, find_loop,
}
use eth_avm_light_client.StateAnchor.Forks.Table.{IsTable, Looked, lookup_row-Looked}
use eth_avm_light_client.StateAnchor.Forks.Append.{extend, append_fork_row-IsTable}
use eth_avm_light_client.StateAnchor.Bridge.{
  M4, read_m4_finalized, assert_header_shape, assert_fin_header_matches,
  assert_fin_state_root_cross_check, assert_branch_depth, block_number_leaf, fold_execution_fields,
}
use eth_avm_light_client.StateAnchor.App.{
  Anchor, Txn, anchor_direct, finish_anchor, write_back, attest, get_anchor, revoke, is_record_of,
  unless_revoked,
}
use eth_avm_light_client.StateAnchor.App.Reads.{Serves, attest-Serves, conflict-blocks}
use eth_avm_light_client.StateAnchor.App.Anchoring.{Advances, finish_anchor-Advances}
use eth_avm_light_client.StateAnchor.App.Direct.{anchor_direct-attest, anchor_direct-binding}
use eth_avm_light_client.StateAnchor.App.Governance.{revoke-blocks}
use eth_avm_light_client.Avm.Group.{Call}
use eth_avm_light_client.StateAnchor.Handoff.{
  attest_selector, arc4_return_prefix, anchor_from_group, Handed, anchor_from_group-Handed,
}

-- Block 5 of slot 64: three branches of one sibling each, under one body root.
abbrev pub state_root : Bytes
state_root = digest (1 ∷ [])

abbrev pub receipts_root : Bytes
receipts_root = digest (2 ∷ [])

abbrev pub state_branch : Bytes
state_branch = digest (9 ∷ [])

abbrev pub receipts_branch : Bytes
receipts_branch = digest (8 ∷ [])

abbrev pub number_branch : Bytes
number_branch = digest (5 ∷ [])

abbrev header : Bytes
header = 64 ∷ (bzero 79 ++ digest (10 ∷ []))

abbrev fin_root : Bytes
fin_root = digest (74 ∷ [])

abbrev m4 : M4
m4 = record {
  id = 7;
  fin_slot = some 64;
  fin_root = some fin_root;
  fin_state_root = some (bzero 32);
}

abbrev pub txn : Txn
txn = record { sender = digest (3 ∷ []); round = 1000; app_address = digest (4 ∷ []) }

abbrev row : Bytes
row = itob 0 ++ (itob 2 ++ (itob 2 ++ (itob 2 ++ itob 2)))

abbrev pub no_rows : Store
no_rows name = none

abbrev pub rows : Store
rows = put (row_key 0) row no_rows

abbrev pub s : Anchor
s = record {
  gov = digest (3 ∷ []);
  m4_app = 7;
  ring_size = 4;
  ring_cursor = 4;
  hi_block = 0;
  hi_slot = 0;
  n_anchored = 0;
  frozen = 0;
  conflict = 0;
  fork_count = 1;
  rows = rows;
  boxes = put (ring_box_name 1) (bzero 154) no_rows;
}

abbrev anchored : Bytes
anchored =
    1
    ∷ (0
        ∷ (itob 5
            ++ (itob 64
                ++ (state_root ++ (receipts_root ++ (fin_root ++ (fin_root ++ itob 1000)))))))

abbrev s' : Anchor
s' = record s {
  hi_block = 5;
  hi_slot = 64;
  n_anchored = 1;
  boxes = put (ring_box_name 1) anchored (put (ring_box_name 1) (bzero 154) no_rows);
}

builds : build_record false 5 64 state_root receipts_root fin_root fin_root 1000 ≡ ok anchored
unfolding build_record
builds = refl

finishes : finish_anchor anchored s ≡ ok (anchored, s')
unfolding finish_anchor write_back finish_anchor_flow ring_admit_and_write ring_decide
    finish_outcome a_block_number a_beacon_slot ring_residue put bytes_eq ring_box_name
finishes = refl

runs :
    anchor_direct toy txn m4 header state_root receipts_root 5 state_branch receipts_branch
      number_branch s
    ≡ ok (anchored, s')
unfolding anchor_direct read_m4_finalized assert_fin_header_matches assert_header_shape
    hash_tree_root_beacon_block_header zero_hash zero_hash_table assert_fin_state_root_cross_check
    header_slot be64_from_le epoch_at_slot lookup_row find_row_index_for_epoch find_loop read_row
    row_key fold_execution_fields assert_branch_depth assert_valid_merkle_branch
    compute_merkle_branch_root branch_fold block_number_leaf le64 bitlen bitlen_fuel build_record
    finish_anchor write_back finish_anchor_flow ring_admit_and_write ring_decide finish_outcome
    a_block_number a_beacon_slot ring_residue put bytes_eq ring_box_name
runs = refl

abbrev block : ℕ
block = 5

anchor_direct-binding_example :
    ((state_root ≡ state_root) × (receipts_root ≡ receipts_root) × (block ≡ block))
    ⊎ Collision digest
anchor_direct-binding_example =
    anchor_direct-binding toy txn txn m4 header header state_root state_root receipts_root
      receipts_root 5 5 state_branch receipts_branch number_branch state_branch receipts_branch
      number_branch s s runs runs refl refl (omega arith) (omega arith)

anchor_direct-attest_example :
    (attest 5 s' ≡ ok anchored)
    × ((root : Bytes) × (m4.fin_root ≡ some root)
        × Says anchored false 5 64 state_root receipts_root root root 1000)
anchor_direct-attest_example =
    anchor_direct-attest toy txn m4 header state_root receipts_root 5 state_branch receipts_branch
      number_branch s runs 64 refl (omega arith) (omega arith) (omega arith)
      (λ e. absurd (omega arith))

finish_anchor-Advances_example : Advances s s'
finish_anchor-Advances_example = finish_anchor-Advances anchored s finishes

attests : attest 5 s' ≡ ok anchored
unfolding attest read_ring_slot ring_residue put bytes_eq ring_box_name is_record_of a_version
    a_matches_block_number a_block_number unless_revoked a_is_revoked a_flags
attests = refl

attest-Serves_example : Serves s' 5 anchored
attest-Serves_example = attest-Serves s' 5 attests

abbrev set_state : Anchor
set_state = record s { conflict = 1 }

abbrev revoked_state : Anchor
revoked_state = record s' {
  boxes =
      put (ring_box_name 1)
        (1
          ∷ (1
              ∷ (itob 5
                  ++ (itob 64
                      ++ (state_root
                          ++ (receipts_root ++ (fin_root ++ (fin_root ++ itob 1000))))))))
        s'.boxes;
}

revokes : revoke txn 5 s' ≡ ok revoked_state
unfolding revoke ring_residue put bytes_eq ring_box_name is_record_of a_version
    a_matches_block_number a_block_number a_flags
revokes = refl

revoke-blocks_example :
    (attest 5 revoked_state ≡ err (code "N13")) × (get_anchor 5 revoked_state ≡ err (code "N13"))
revoke-blocks_example = revoke-blocks txn 5 s' {s' = revoked_state} revokes refl

abbrev stranger : Txn
stranger = record txn { sender = digest (6 ∷ []) }

build_record-Says_example : Says anchored false 5 64 state_root receipts_root fin_root fin_root 1000
build_record-Says_example =
    build_record-Says false 5 64 state_root receipts_root fin_root fin_root 1000 (omega arith)
      (omega arith) (omega arith) builds

-- The same block by `anchor_historical`, under a later finalized header.
abbrev historical : Bytes
historical =
    1
    ∷ (2
        ∷ (itob 5
            ++ (itob 64
                ++ (state_root ++ (receipts_root ++ (fin_root ++ (digest [] ++ itob 1002)))))))

builds_historical :
    build_record true 5 64 state_root receipts_root fin_root (digest []) 1002 ≡ ok historical
unfolding build_record
builds_historical = refl

historical-Says : Says historical true 5 64 state_root receipts_root fin_root (digest []) 1002
historical-Says =
    build_record-Says true 5 64 state_root receipts_root fin_root (digest []) 1002 (omega arith)
      (omega arith) (omega arith) builds_historical

residue : ring_residue 5 4 ≡ ok 1
unfolding ring_residue
residue = refl

slot : box_extract (ring_box_name 1) 0 154 s'.boxes ≡ ok anchored
unfolding put bytes_eq ring_box_name
slot = refl

abbrev latched_result : Finished
latched_result = record {
  new_conflict = 1;
  result_record = anchored;
  new_hi_block = 5;
  new_hi_slot = 64;
  wrote_new = 0;
  boxes = s'.boxes;
}

historical-latches_example : finish_anchor_flow 4 4 0 0 5 64 historical s'.boxes ≡ ok latched_result
historical-latches_example =
    historical-latches 4 5 64 5 1 64 64 1000 1002 anchored historical state_root receipts_root
      fin_root fin_root state_root receipts_root fin_root (digest []) s'.boxes
      build_record-Says_example historical-Says (omega arith) (omega arith) residue slot

abbrev call : Call
call = record { app_id = 9; app_arg_0 = attest_selector; last_log = arc4_return_prefix ++ anchored }

hands : anchor_from_group 9 (call ∷ []) 1 0 5 ≡ ok anchored
unfolding anchor_from_group bytes_eq a_flags
hands = refl

anchor_from_group-Handed_example : Handed 9 (call ∷ []) 1 0 5 anchored
anchor_from_group-Handed_example = anchor_from_group-Handed 9 (call ∷ []) 1 0 5 hands
