-- ===== src/SyncCommittee/Header.antt =====
-- contracts/sync_committee/header.py: the raw header of a beacon block, its slot, its root and the
-- signing root; and the epoch of a slot (contracts/sync_committee/constants.py).
pub mod Binding
use eth_avm_light_client.Prelude.{ℕ, ◌+◌, ◌-◌, ◌/◌, [], ◌++◌, ◌==◌, length}
use eth_avm_light_client.Prelude.Slices.{slice}
use eth_avm_light_client.Avm.{Bytes, Result, ok, ◌>>=◌, ◌>>◌, assert, itob, btoi, bzero, Hashes}
use eth_avm_light_client.Ssz.Merkleize.{reversed_onto, zero_hash}

abbrev pub beacon_header_bytes : ℕ
beacon_header_bytes = 112

abbrev pub slots_per_epoch : ℕ
slots_per_epoch = 32

unfoldable pub epoch_at_slot : ℕ → ℕ
epoch_at_slot slot = slot / slots_per_epoch

unfoldable pub le64 : ℕ → Bytes
le64 x = reversed_onto (itob x) []

unfoldable pub be64_from_le : Bytes → Result ℕ
be64_from_le chunk_bytes8 = do
  assert (length chunk_bytes8 == 8) ""
  btoi (reversed_onto chunk_bytes8 [])

unfoldable pub header_slot : Bytes → Result ℕ
header_slot header = do
  assert (length header == beacon_header_bytes) ""
  be64_from_le (slice header 0 8)

module _ (h : Hashes) where
  unfoldable pub hash_tree_root_beacon_block_header : Bytes → Result Bytes
  hash_tree_root_beacon_block_header header = do
    assert (length header == beacon_header_bytes) ""
    zero_leaf ← zero_hash h 0
    let slot_chunk : Bytes = slice header 0 8 ++ bzero 24 in
        let proposer_chunk : Bytes = slice header 8 8 ++ bzero 24 in
        let parent_root : Bytes = slice header 16 32 in
        let state_root : Bytes = slice header 48 32 in
        let body_root : Bytes = slice header 80 32 in
        let l0 : Bytes = h.sha256 (slot_chunk ++ proposer_chunk) in
        let l1 : Bytes = h.sha256 (parent_root ++ state_root) in
        let l2 : Bytes = h.sha256 (body_root ++ zero_leaf) in
        let l3 : Bytes = h.sha256 (zero_leaf ++ zero_leaf) in
        let n0 : Bytes = h.sha256 (l0 ++ l1) in
        let n1 : Bytes = h.sha256 (l2 ++ l3) in ok (h.sha256 (n0 ++ n1))

  unfoldable pub compute_fork_data_root : Bytes → Bytes → Result Bytes
  compute_fork_data_root current_version genesis_validators_root = do
    assert (length current_version == 4) ""
    assert (length genesis_validators_root == 32) ""
    ok (h.sha256 (current_version ++ bzero 28 ++ genesis_validators_root))

  unfoldable pub compute_domain : Bytes → Bytes → Bytes → Result Bytes
  compute_domain domain_type fork_version genesis_validators_root = do
    assert (length domain_type == 4) ""
    fork_data_root ← compute_fork_data_root fork_version genesis_validators_root
    ok (domain_type ++ slice fork_data_root 0 28)

  unfoldable pub compute_signing_root : Bytes → Bytes → Result Bytes
  compute_signing_root header domain = do
    assert (length domain == 32) ""
    object_root ← hash_tree_root_beacon_block_header header
    ok (h.sha256 (object_root ++ domain))
