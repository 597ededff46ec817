-- ===== src/StateAnchor/Bridge.antt =====
-- contracts/state_anchor/bridge.py: from a beacon header to the fields of the execution block.
pub mod Bound
use eth_avm_light_client.Prelude.{
  ℕ, ◌+◌, ◌-◌, ◌*◌, ◌%◌, ◌++◌, Option, none, some, ◌==◌, ltb, leb, length, bytes_eq,
}
use eth_avm_light_client.Prelude.Slices.{slice}
use eth_avm_light_client.Avm.{
  Bytes, Result, ok, err, code, ◌>>=◌, ◌>>◌, assert, u64, sub, bitlen, bzero, Hashes,
}
use eth_avm_light_client.Ssz.Branch.{assert_valid_merkle_branch}
use eth_avm_light_client.SyncCommittee.Header.{
  beacon_header_bytes, hash_tree_root_beacon_block_header, le64,
}

abbrev pub slots_per_historical_root : ℕ
slots_per_historical_root = 8192

-- The verifier's application as another contract reads it: its id and three of its global values.
pub record M4 : Type 0 where
  pub id : ℕ
  pub fin_slot : Option ℕ
  pub fin_root : Option Bytes
  pub fin_state_root : Option Bytes

-- A global value that must be there.
abbrev pub present {ℓ} : {A : Type ℓ} → Option A → Result A
present none = err (code "N4")
present (some v) = ok v

unfoldable pub read_m4_finalized : M4 → ℕ → Result (ℕ × Bytes × Bytes)
read_m4_finalized m4_app expected_m4_id = do
  assert (m4_app.id == expected_m4_id) "N4"
  fin_slot ← present (m4_app.fin_slot)
  fin_root ← present (m4_app.fin_root)
  fin_state_root ← present (m4_app.fin_state_root)
  ok (fin_slot, fin_root, fin_state_root)

unfoldable pub assert_header_shape : Bytes → Result (Unit {0})
assert_header_shape header = assert (length header == beacon_header_bytes) "N8"

unfoldable pub assert_fin_state_root_cross_check : Bytes → Bytes → Result (Unit {0})
assert_fin_state_root_cross_check header_state_root m4_fin_state_root =
    assert (bytes_eq header_state_root m4_fin_state_root) "N7"

unfoldable pub block_number_leaf : ℕ → Bytes
block_number_leaf block_number = le64 block_number ++ bzero 24

unfoldable pub assert_branch_depth : Bytes → ℕ → Result (Unit {0})
assert_branch_depth branch gindex = do
  assert (leb 1 gindex) "N9"
  assert (length branch == (bitlen gindex - 1) * 32) "N9"

unfoldable pub block_roots_gindex : ℕ → ℕ → Result ℕ
block_roots_gindex g_block_roots_base t_slot = do
  base ← u64 (g_block_roots_base * slots_per_historical_root)
  u64 (base + t_slot % slots_per_historical_root)

unfoldable pub assert_window : ℕ → ℕ → Result (Unit {0})
assert_window t_slot fin_slot = do
  assert (ltb t_slot fin_slot) "N16"
  assert (leb (fin_slot - t_slot) slots_per_historical_root) "N16"

module _ (h : Hashes) where
  unfoldable pub assert_fin_header_matches : Bytes → Bytes → Result Bytes
  assert_fin_header_matches header fin_root = do
    assert_header_shape header
    root ← hash_tree_root_beacon_block_header h header
    assert (bytes_eq root fin_root) "N6"
    ok (slice header 48 32)

  unfoldable pub fold_execution_fields :
      Bytes → ℕ → ℕ → ℕ → Bytes → Bytes → ℕ → Bytes → Bytes → Bytes → Result (Unit {0})
  fold_execution_fields body_root g_state_root g_receipts_root g_block_number el_state_root
        el_receipts_root el_block_number state_branch receipts_branch number_branch =
      do
        assert (length el_state_root == 32) "N20-shape"
        assert (length el_receipts_root == 32) "N20-shape"
        assert_branch_depth state_branch g_state_root
        assert_branch_depth receipts_branch g_receipts_root
        assert_branch_depth number_branch g_block_number
        assert_valid_merkle_branch h el_state_root state_branch g_state_root body_root
        assert_valid_merkle_branch h el_receipts_root receipts_branch g_receipts_root body_root
        assert_valid_merkle_branch h (block_number_leaf el_block_number) number_branch
            g_block_number body_root

  unfoldable pub fold_block_roots : Bytes → ℕ → ℕ → Bytes → Bytes → Result (Unit {0})
  fold_block_roots fin_state_root g_block_roots_base t_slot target_root block_roots_branch = do
    g ← block_roots_gindex g_block_roots_base t_slot
    assert_branch_depth block_roots_branch g
    assert_valid_merkle_branch h target_root block_roots_branch g fin_state_root
