-- ===== src/Mpt/Runs.antt =====
-- A walk of one leaf, with the hash of the tests.
use eth_avm_light_client.Prelude.{
  ℕ, ◌+◌, ◌≤◌, ◌≡◌, ◌≢◌, refl, ap, ◌⊎◌, [], ◌∷◌, ◌++◌, arith, length, leb, if◌then◌else◌, true,
  false, bytes_eq, replicate,
}
use eth_avm_light_client.Prelude.Slices.{slice, splice}
use eth_avm_light_client.Avm.{
  Bytes, ok, err, code, out_of_fuel, ◌>>=◌, byte1, be2, bzero, Collision,
}
use eth_avm_light_client.Avm.Results.{ok_inj}
use eth_avm_light_client.Toy.{digest, toy}
use eth_avm_light_client.Rlp.Core.{
  kind_list, rlp_list_header, list_span, read_len, rlp_item_header, item_span,
}
use eth_avm_light_client.Rlp.Scan.{rlp_scan_upto}
use eth_avm_light_client.Rlp.Nibbles.{hp_decode, nibbles_equal, aligned_equal, nibbles_loop}
use eth_avm_light_client.Rlp.Nibbles.Range.{nibs}
use eth_avm_light_client.Mpt.State.{
  mpt_init_state, w_status, w_depth, w_key_nibs, w_key, w_expected, w_with_terminal, walk_continue,
  walk_included, walk_absent_leaf_diverge,
}
use eth_avm_light_client.Mpt.Keys.{mpt_key_from_tx_index, index_of_key, index_of_tx_key}
use eth_avm_light_client.Mpt.Descend.{
  mpt_arity_discriminate, mpt_descend, mpt_branch_item_at, branch_loop, branch_skip, raw_len,
}
use eth_avm_light_client.Mpt.Descend.Agree.{descend-scan_upto}
use eth_avm_light_client.Mpt.Walk.{
  mpt_walk_node, walk_loop, mpt_hop, mpt_leaf_hop, hop_terminal, stop, mpt_extension_hop,
}
use eth_avm_light_client.Mpt.Walk.Match.{leaf_hop-nibs}
use eth_avm_light_client.Mpt.Walk.Extension.{Follows, extension_hop-Follows}
use eth_avm_light_client.Mpt.Walk.Progress.{Walked, walk_node-Walked, walk_node_total}
use eth_avm_light_client.Mpt.Walk.Proof.{walk_nodes, walk_nodes-length, walk_nodes_unique}

-- The leaf of the path 0 1 and the value 5.
abbrev node : Bytes
node = 0xC4 ∷ 0x82 ∷ 0x20 ∷ 1 ∷ 5 ∷ []

-- The state before, for the key 01 of two nibbles, and after.
abbrev w : Bytes
w = 0 ∷ (digest node ++ (digest node ++ (be2 0 ++ (be2 2 ++ (1 ∷ bzero 31)))))

abbrev w' : Bytes
w' = splice w 0 (byte1 walk_included)

starts : mpt_init_state (digest node) (1 ∷ []) 2 ≡ ok w
unfolding mpt_init_state
starts = refl

at : w_depth w ≡ ok 0
unfolding w_depth
at = refl

of : w_key_nibs w ≡ ok 2
unfolding w_key_nibs
of = refl

key : w_key w ≡ ok (1 ∷ bzero 31)
unfolding w_key
key = refl

path : hp_decode node 2 2 ≡ ok (true, 2, 6)
unfolding hp_decode
path = refl

walks : mpt_walk_node toy node w ≡ ok (w', 4, 1)
unfolding mpt_walk_node walk_loop mpt_hop mpt_arity_discriminate rlp_list_header list_span read_len
    rlp_item_header item_span hp_decode mpt_leaf_hop nibbles_equal aligned_equal nibbles_loop
    w_status w_depth w_key_nibs w_key w_expected w_with_terminal bytes_eq
walks = refl

walk_node-Walked_example : Walked w w' 0 2
walk_node-Walked_example =
    walk_node-Walked toy node w {w' = w'} {off = 4} {len = 1} refl at of (omega arith) (omega arith)
      walks

walk_node_total_example : mpt_walk_node toy node w ≢ err out_of_fuel
walk_node_total_example = walk_node_total toy node w

abbrev result : Bytes × Bytes
result = (w', 5 ∷ [])

proof_walks : walk_nodes toy (node ∷ []) w [] ≡ ok result
unfolding walk_nodes
proof_walks = ap (λ r. r >>= λ x. ok (x.0, slice node (x.1) (x.2))) walks

abbrev one : ℕ
one = 1

one_not_zero : ok one ≡ ok walk_continue → ⊥
one_not_zero e = let z : one ≡ walk_continue = ok_inj e in omega arith

ended : w_status w' ≢ ok walk_continue
unfolding w_status
ended e = let e' : ok one ≡ ok walk_continue = e in one_not_zero e'

walk_nodes_unique_example : (result ≡ result) ⊎ Collision digest
walk_nodes_unique_example =
    walk_nodes_unique toy (node ∷ []) (node ∷ []) w [] proof_walks proof_walks ended ended

walk_nodes-length_example : 0 + length (node ∷ []) ≤ 2 + 1
walk_nodes-length_example =
    walk_nodes-length toy (node ∷ []) w [] refl at of (omega arith) (omega arith) proof_walks

index_of_tx_key_example :
    (mpt_key_from_tx_index 300 >>= index_of_key)
    ≡ (if leb 300 0xFFFFFF then ok 300 else err (code "W3"))
index_of_tx_key_example = index_of_tx_key 300

path_room : 6 + 2 ≤ length (nibs node)
unfolding nibs
path_room = omega arith

key_room : 2 ≤ length (nibs (1 ∷ bzero 31))
unfolding nibs
key_room = omega arith

leaf_hop-nibs_example : mpt_leaf_hop node 2 2 4 1 w ≡ (
    if bytes_eq (slice (nibs node) 6 2) (slice (nibs (1 ∷ bzero 31)) 0 2)
    then (do v ← w_with_terminal w walk_included; ok (hop_terminal, v, 4, 1, 0))
    else stop w walk_absent_leaf_diverge)
leaf_hop-nibs_example =
    leaf_hop-nibs node w (1 ∷ bzero 31) 2 2 2 6 0 2 true at of key path path_room (omega arith)
      key_room (omega arith) 4 1

-- An extension with the path 0 and an embedded child.
abbrev extension : Bytes
extension = 0xC4 ∷ 0x82 ∷ 0 ∷ 1 ∷ 0xC0 ∷ []

extension_path : hp_decode extension 2 2 ≡ ok (false, 2, 6)
unfolding hp_decode
extension_path = refl

extension_room : 6 + 2 ≤ length (nibs extension)
unfolding nibs
extension_room = omega arith

extension_hop-Follows_example :
    Follows extension w
      (slice (nibs extension) 6 2)
      (slice (nibs (1 ∷ bzero 31)) 0 2)
      2
      (0 + 2)
      4
      1
      kind_list
      (mpt_extension_hop extension 2 2 4 1 kind_list w)
extension_hop-Follows_example =
    extension_hop-Follows extension w (1 ∷ bzero 31) 2 2 2 6 0 2 false 4 1 kind_list refl at of key
      extension_path extension_room (omega arith) key_room (omega arith)

-- A branch of sixteen empty items and the value 5.
abbrev branch : Bytes
branch = 0xD1 ∷ (replicate 16 0x80 ++ (5 ∷ []))

third : mpt_descend branch 0 2 ≡ ok (17, 2, 0, 1, 4, 0, 1)
unfolding mpt_descend mpt_arity_discriminate mpt_branch_item_at branch_loop branch_skip raw_len
    rlp_list_header list_span read_len rlp_item_header item_span
third = refl

descend-scan_upto_example : rlp_scan_upto branch 0 2 ≡ ok (4, 0, 1)
descend-scan_upto_example = descend-scan_upto branch 0 0 third
