-- ===== src/Mpt/State.antt =====
-- contracts/mpt/state.py: the walk state W, a buffer of 101 bytes
-- status(1) | root(32) | expected(32) | depth(2) | key_nibs(2) | key(32).
pub mod Fields
use eth_avm_light_client.Prelude.{ℕ, ◌-◌, ◌++◌, leb, ◌==◌, length}
use eth_avm_light_client.Avm.{
  Bytes, Result, ok, ◌>>=◌, ◌>>◌, assert, getbyte, extract, replace, extract_uint16, bzero, byte1,
  be2,
}

abbrev pub walk_continue : ℕ
walk_continue = 0

abbrev pub walk_included : ℕ
walk_included = 1

abbrev pub walk_absent_empty_slot : ℕ
walk_absent_empty_slot = 2

abbrev pub walk_absent_ext_diverge : ℕ
walk_absent_ext_diverge = 3

abbrev pub walk_absent_leaf_diverge : ℕ
walk_absent_leaf_diverge = 4

abbrev pub walk_absent_branch_term : ℕ
walk_absent_branch_term = 5

abbrev pub w_len : ℕ
w_len = 101

unfoldable pub w_status : Bytes → Result ℕ
w_status w = getbyte w 0

unfoldable pub w_root : Bytes → Result Bytes
w_root w = extract w 1 32

unfoldable pub w_expected : Bytes → Result Bytes
w_expected w = extract w 33 32

unfoldable pub w_depth : Bytes → Result ℕ
w_depth w = extract_uint16 w 65

unfoldable pub w_key_nibs : Bytes → Result ℕ
w_key_nibs w = extract_uint16 w 67

unfoldable pub w_key : Bytes → Result Bytes
w_key w = extract w 69 32

unfoldable pub mpt_init_state : Bytes → Bytes → ℕ → Result Bytes
mpt_init_state root key key_nibs = do
  assert (length root == 32) "W18"
  assert (leb (length key) 32) "W19"
  let padded_key = key ++ bzero (32 - length key)
  ok (byte1 walk_continue ++ (root ++ (root ++ (be2 0 ++ (be2 key_nibs ++ padded_key)))))

unfoldable pub w_with_continue : Bytes → Bytes → ℕ → Result Bytes
w_with_continue w expected depth = do
  assert (length expected == 32) "W18"
  w1 ← replace w 0 (byte1 walk_continue)
  w2 ← replace w1 33 expected
  replace w2 65 (be2 depth)

unfoldable pub w_with_continue_depth_only : Bytes → ℕ → Result Bytes
w_with_continue_depth_only w depth = do
  w1 ← replace w 0 (byte1 walk_continue)
  replace w1 65 (be2 depth)

unfoldable pub w_with_terminal : Bytes → ℕ → Result Bytes
w_with_terminal w status = replace w 0 (byte1 status)
