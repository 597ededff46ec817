-- ===== src/Mpt/Walk.antt =====
-- contracts/mpt/walk.py: the handlers of branch, extension and leaf nodes, and the walk inside one
-- supplied node.
pub mod Hops
mod Ends
pub mod Progress
pub mod Match
pub mod Extension
pub mod Proof
use eth_avm_light_client.Prelude.{
  ℕ, zero, suc, ◌+◌, Bool, true, false, not, leb, ◌==◌, if◌then◌else◌, bytes_eq,
}
use eth_avm_light_client.Avm.{Bytes, Result, ok, err, out_of_fuel, ◌>>=◌, ◌>>◌, assert, u64, Hashes}
use eth_avm_light_client.Rlp.Core.{kind_list, kind_str}
use eth_avm_light_client.Rlp.Scan.{rlp_bytes}
use eth_avm_light_client.Rlp.Nibbles.{hp_decode, nibble_at, nibbles_equal}
use eth_avm_light_client.Mpt.Descend.{mpt_arity_discriminate, mpt_branch_item_at}
use eth_avm_light_client.Mpt.State.{
  walk_continue, walk_included, walk_absent_empty_slot, walk_absent_ext_diverge,
  walk_absent_leaf_diverge, walk_absent_branch_term, w_status, w_expected, w_depth, w_key_nibs,
  w_key, w_with_continue, w_with_continue_depth_only, w_with_terminal,
}

abbrev pub inline_steps_max : ℕ
inline_steps_max = 8

abbrev pub hop_terminal : ℕ
hop_terminal = 0

abbrev pub hop_next_node : ℕ
hop_next_node = 1

abbrev pub hop_inline : ℕ
hop_inline = 2

-- (hop_kind, w_out, value_off, value_len, child_off)
abbrev pub Hop : Type 0
Hop = ℕ × Bytes × ℕ × ℕ × ℕ

-- A terminal hop without a value.
abbrev pub stop : Bytes → ℕ → Result Hop
stop w status = do w' ← w_with_terminal w status; ok (hop_terminal, w', 0, 0, 0)

-- The child reference of a branch: an embedded list, nothing, or the hash of the next node.
unfoldable pub branch_child : Bytes → Bytes → ℕ → ℕ → ℕ → ℕ → Result Hop
branch_child node w depth oc lc kc =
    if kc == kind_list
    then (do
      d ← u64 (depth + 1)
      w' ← w_with_continue_depth_only w d
      ok (hop_inline, w', 0, 0, oc))
    else (do
      assert (kc == kind_str) "W6"
      if lc == 0 then stop w walk_absent_empty_slot else (do
        assert (lc == 32) "W6"
        next_expected ← rlp_bytes node oc 32
        d ← u64 (depth + 1)
        w' ← w_with_continue w next_expected d
        ok (hop_next_node, w', 0, 0, 0)))

unfoldable pub mpt_branch_hop : Bytes → ℕ → ℕ → ℕ → ℕ → ℕ → ℕ → ℕ → Bytes → Result Hop
mpt_branch_hop node o0 l0 k0 o1 l1 k1 payload_end w = do
  depth ← w_depth w
  key_nibs ← w_key_nibs w
  key ← w_key w
  assert (leb depth key_nibs) "W4"
  if depth == key_nibs
      then (do
        (ov, lv, kv) ← mpt_branch_item_at node o0 l0 k0 o1 l1 k1 payload_end 16
        if lv == 0
            then stop w walk_absent_branch_term
            else (do w' ← w_with_terminal w walk_included; ok (hop_terminal, w', ov, lv, 0)))
      else (do
        nib ← nibble_at key depth
        (oc, lc, kc) ← mpt_branch_item_at node o0 l0 k0 o1 l1 k1 payload_end nib
        branch_child node w depth oc lc kc)

-- The child reference of an extension, which is never empty.
unfoldable pub extension_child : Bytes → Bytes → ℕ → ℕ → ℕ → ℕ → Result Hop
extension_child node w new_depth o1 l1 k1 =
    if k1 == kind_list
    then (do w' ← w_with_continue_depth_only w new_depth; ok (hop_inline, w', 0, 0, o1))
    else (do
      assert (k1 == kind_str) "W6"
      assert (not (l1 == 0)) "W7"
      assert (l1 == 32) "W6"
      next_expected ← rlp_bytes node o1 32
      w' ← w_with_continue w next_expected new_depth
      ok (hop_next_node, w', 0, 0, 0))

unfoldable pub mpt_extension_hop : Bytes → ℕ → ℕ → ℕ → ℕ → ℕ → Bytes → Result Hop
mpt_extension_hop node o0 l0 o1 l1 k1 w = do
  depth ← w_depth w
  key_nibs ← w_key_nibs w
  key ← w_key w
  (is_leaf, n_path, nib_index) ← hp_decode node o0 l0
  new_depth ← u64 (depth + n_path)
  if not (leb new_depth key_nibs) then stop w walk_absent_ext_diverge else (do
    same ← nibbles_equal node nib_index key depth n_path
    if same then extension_child node w new_depth o1 l1 k1 else stop w walk_absent_ext_diverge)

unfoldable pub mpt_leaf_hop : Bytes → ℕ → ℕ → ℕ → ℕ → Bytes → Result Hop
mpt_leaf_hop node o0 l0 o1 l1 w = do
  depth ← w_depth w
  key_nibs ← w_key_nibs w
  key ← w_key w
  (is_leaf, n_path, nib_index) ← hp_decode node o0 l0
  end ← u64 (depth + n_path)
  if not (end == key_nibs) then stop w walk_absent_leaf_diverge else (do
    same ← nibbles_equal node nib_index key depth n_path
    if same
        then (do w' ← w_with_terminal w walk_included; ok (hop_terminal, w', o1, l1, 0))
        else stop w walk_absent_leaf_diverge)

-- The body of the loop of `mpt_walk_node`: one decode of the prefix, and the handler of the node's
-- kind.
unfoldable pub mpt_hop : Bytes → ℕ → Bytes → Result Hop
mpt_hop node start w = do
  (arity, payload_end, o0, l0, k0, o1, l1, k1) ← mpt_arity_discriminate node start
  if arity == 17 then mpt_branch_hop node o0 l0 k0 o1 l1 k1 payload_end w else (do
    (is_leaf, n_path, nib_index) ← hp_decode node o0 l0
    if is_leaf then mpt_leaf_hop node o0 l0 o1 l1 w else mpt_extension_hop node o0 l0 o1 l1 k1 w)

-- The loop, over the start of the current node in the buffer, the inline steps made and W.
unfoldable pub walk_loop : ℕ → Bytes → ℕ → ℕ → Bytes → Result (Bytes × ℕ × ℕ)
walk_loop zero node start steps w = err out_of_fuel
walk_loop (suc fuel) node start steps w = do
  assert (leb steps inline_steps_max) "W8"
  (hop_kind, w', value_off, value_len, child_off) ← mpt_hop node start w
  elim (hop_kind == hop_inline) [
    | true ↦ walk_loop fuel node child_off (steps + 1) w'
    | false ↦ ok (w', value_off, value_len)
  ]

module _ (h : Hashes) where
  -- "W8" ends the loop in its tenth round at the latest.
  unfoldable pub mpt_walk_node : Bytes → Bytes → Result (Bytes × ℕ × ℕ)
  mpt_walk_node node w = do
    expected ← w_expected w
    assert (bytes_eq (h.keccak256 node) expected) "W11"
    status ← w_status w
    assert (status == walk_continue) "W12"
    walk_loop 10 node 0 0 w

unfoldable pub mpt_verify_inclusion : Bytes → ℕ → ℕ → Result (ℕ × ℕ)
mpt_verify_inclusion w value_off value_len = do
  status ← w_status w
  assert (status == walk_included) "W17"
  ok (value_off, value_len)
