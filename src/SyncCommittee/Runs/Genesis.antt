-- ===== src/SyncCommittee/Runs/Genesis.antt =====
-- The installation of the first committee, from the created contract on.
use eth_avm_light_client.Prelude.{ℕ, zero, suc, ◌≡◌, refl, [], ◌∷◌, ◌++◌, none, replicate, bytes_eq}
use eth_avm_light_client.Avm.{Bytes, Result, ok, err, bzero, itob, bitlen, bitlen_fuel}
use eth_avm_light_client.Avm.Store.{Store, put}
use eth_avm_light_client.Toy.{digest, toy}
use eth_avm_light_client.Ssz.Branch.{
  branch_fold, compute_merkle_branch_root, assert_valid_merkle_branch, padding_loop,
  assert_valid_normalized_merkle_branch,
}
use eth_avm_light_client.Ssz.Merkleize.{zero_hash, zero_hash_table}
use eth_avm_light_client.SyncCommittee.Header.{
  be64_from_le, header_slot, epoch_at_slot, hash_tree_root_beacon_block_header,
}
use eth_avm_light_client.SyncCommittee.Period.{period_at_epoch, period_at_slot}
use eth_avm_light_client.SyncCommittee.Forks as Forks
use eth_avm_light_client.SyncCommittee.Forks.{
  row_key, read_row, find_loop, find_row_index_for_epoch, lookup_gindices, assert_epoch_increases,
}
use eth_avm_light_client.SyncCommittee.Bitfield.{key_box_name}
use eth_avm_light_client.SyncCommittee.Install.{
  session_box_name, create_key_boxes, install_open_key_boxes, install_open_session_box,
}
use eth_avm_light_client.SyncCommittee.Runs.Update.{curve}
use eth_avm_light_client.SyncCommittee.Verifier.Steps.{appends, bootstraps, Reach, here, next}
use eth_avm_light_client.SyncCommittee.Verifier.{
  Verifier, create, append_fork_row, bootstrap, reserve, install_open_keys, install_open_session,
  zero32,
}

abbrev pub gov : Bytes
gov = digest (3 ∷ [])

abbrev pub created : Verifier
created = create gov zero32

abbrev pub with_row : Verifier
with_row = record {
  gov = gov;
  gvr = zero32;
  fin_slot = 0;
  fin_root = zero32;
  fin_state_root = zero32;
  att_slot = 0;
  att_state_root = zero32;
  cur_gen = 0;
  cur_period = 0;
  next_gen = 0;
  next_period = 0;
  next_committee_root_trusted = zero32;
  next_committee_root_period = 0;
  inst_state = 0;
  inst_gen = 0;
  inst_period = 0;
  inst_root = zero32;
  inst_cursor = 0;
  fork_count = 1;
  gen_counter = 0;
  rows = put (row_key 0) (itob 0 ++ (bzero 4 ++ (itob 2 ++ (itob 2 ++ itob 2)))) (λ _. none);
  boxes = λ _. none;
}

pub append_runs : append_fork_row gov 0 (bzero 4) 2 2 2 created ≡ ok with_row
unfolding append_fork_row create bytes_eq Forks.append_fork_row assert_epoch_increases
append_runs = refl

-- Every member has this key, which stands for itself but for the compression flag.
abbrev pub key : Bytes
key = replicate 96 1

abbrev pub compressed : Bytes
compressed = 0x81 ∷ replicate 47 1

abbrev pub repeated : ℕ → Bytes → Bytes
repeated zero b = []
repeated (suc n) b = b ++ repeated n b

abbrev pub aggregate : Bytes
aggregate = 0x89 ∷ replicate 47 9

-- Under the hash of the tests.
abbrev pub committee_root : Bytes
committee_root = digest (48 ∷ [])

abbrev pub state_root : Bytes
state_root = digest (53 ∷ [])

abbrev pub header : Bytes
header = 64 ∷ (bzero 47 ++ (state_root ++ digest (10 ∷ [])))

abbrev pub header_root : Bytes
header_root = digest (127 ∷ [])

abbrev pub booted : Verifier
booted = record with_row {
  fin_slot = 64;
  fin_root = header_root;
  fin_state_root = state_root;
  att_slot = 64;
  att_state_root = state_root;
  inst_state = 1;
  inst_gen = 1;
  inst_root = committee_root;
  gen_counter = 1;
}

pub bootstrap_runs :
    bootstrap toy gov header committee_root (digest (5 ∷ [])) header_root with_row ≡ ok booted
unfolding bootstrap bytes_eq hash_tree_root_beacon_block_header zero_hash zero_hash_table
    header_slot be64_from_le lookup_gindices find_row_index_for_epoch find_loop read_row row_key put
    epoch_at_slot period_at_slot period_at_epoch assert_valid_normalized_merkle_branch padding_loop
    assert_valid_merkle_branch compute_merkle_branch_root branch_fold bitlen bitlen_fuel reserve
bootstrap_runs = refl

abbrev store_of : Result Store → Store
store_of (ok b) = b
store_of (err e) = λ _. none

abbrev chunk_store : Result (ℕ × Store) → Store
chunk_store (ok (n, b)) = b
chunk_store (err e) = λ _. none

abbrev pub keys_open : Verifier
keys_open = record booted {
  boxes = store_of (install_open_key_boxes 1 booted.boxes);
  inst_state = 2;
}

pub keys_run : install_open_keys booted ≡ ok keys_open
unfolding install_open_keys install_open_key_boxes create_key_boxes put bytes_eq key_box_name
keys_run = refl

abbrev pub session_open : Verifier
session_open = record keys_open {
  boxes = store_of (install_open_session_box 1 keys_open.boxes);
  inst_state = 3;
}

pub session_run : install_open_session keys_open ≡ ok session_open
unfolding install_open_session install_open_session_box install_open_key_boxes create_key_boxes put
    bytes_eq key_box_name session_box_name
session_run = refl

pub booted_reached : Reach toy curve created booted
booted_reached =
    next (next here (appends gov 0 (bzero 4) 2 2 2 append_runs))
      (bootstraps gov header committee_root (digest (5 ∷ [])) header_root bootstrap_runs)
