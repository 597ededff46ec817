-- ===== src/Mpt/Walk/Ends.antt =====
-- The results of the handlers of contracts/mpt/walk.py, as chains with no unbounded loop.
use eth_avm_light_client.Prelude.{ℕ, zero, suc, ◌+◌, false, ◌==◌}
use eth_avm_light_client.Avm.{Bytes}
use eth_avm_light_client.Avm.Ends.{Ends, Ends-bind, Ends-if, Ends-ok, ends_rules}
use eth_avm_light_client.Rlp.Core.{rlp_list_header, rlp_item_header, read_len, item_span}
use eth_avm_light_client.Rlp.Nibbles.{
  hp_decode, nibble_at, nibbles_loop, aligned_equal, nibbles_equal,
}
use eth_avm_light_client.Mpt.State.{
  w_status, w_expected, w_depth, w_key_nibs, w_key, w_with_continue, w_with_continue_depth_only,
  w_with_terminal,
}
use eth_avm_light_client.Mpt.Descend.{
  mpt_arity_discriminate, raw_len, branch_skip, branch_loop, mpt_branch_item_at,
}
use eth_avm_light_client.Mpt.Walk.{
  branch_child, mpt_branch_hop, extension_child, mpt_extension_hop, mpt_leaf_hop, mpt_hop,
}

Ends-list_header : (buf : Bytes) (start : ℕ) → Ends (rlp_list_header buf start)
unfolding rlp_list_header
Ends-list_header buf start = search ends_rules depth 12

Ends-read_len : (buf : Bytes) (off ll : ℕ) → Ends (read_len buf off ll)
unfolding read_len
Ends-read_len buf off ll = search ends_rules depth 12

Ends-item_span : (buf : Bytes) (pos p : ℕ) → Ends (item_span buf pos p)
unfolding item_span
Ends-item_span buf pos p = search (ends_rules, Ends-read_len) depth 16

Ends-item_header : (buf : Bytes) (pos : ℕ) → Ends (rlp_item_header buf pos)
unfolding rlp_item_header
Ends-item_header buf pos = search (ends_rules, Ends-item_span) depth 12

Ends-discriminate : (node : Bytes) (start : ℕ) → Ends (mpt_arity_discriminate node start)
unfolding mpt_arity_discriminate
Ends-discriminate node start = search (ends_rules, Ends-list_header, Ends-item_header) depth 16

Ends-raw_len : (node : Bytes) (off ll : ℕ) → Ends (raw_len node off ll)
unfolding raw_len
Ends-raw_len node off ll = search ends_rules depth 12

Ends-branch_skip : (node : Bytes) (pos : ℕ) → Ends (branch_skip node pos)
unfolding branch_skip
Ends-branch_skip node pos = search (ends_rules, Ends-raw_len) depth 16

Ends-branch_loop : (m : ℕ) (node : Bytes) (end pos : ℕ) → Ends (branch_loop m node end pos)
unfolding branch_loop
Ends-branch_loop zero node end pos = search (ends_rules, Ends-item_header)
Ends-branch_loop (suc m) node end pos =
    let rest : (p : ℕ) → Ends (branch_loop m node end p) = Ends-branch_loop m node end in
    search (ends_rules, Ends-branch_skip, rest) depth 12

Ends-branch_item :
    (node : Bytes) (o0 l0 k0 o1 l1 k1 end want : ℕ)
    → Ends (mpt_branch_item_at node o0 l0 k0 o1 l1 k1 end want)
unfolding mpt_branch_item_at
Ends-branch_item node o0 l0 k0 o1 l1 k1 end want = search (ends_rules, Ends-branch_loop) depth 12

Ends-hp_decode : (buf : Bytes) (off len : ℕ) → Ends (hp_decode buf off len)
unfolding hp_decode
Ends-hp_decode buf off len = search ends_rules depth 20

Ends-nibble_at : (b : Bytes) (k : ℕ) → Ends (nibble_at b k)
unfolding nibble_at
Ends-nibble_at b k = search ends_rules depth 8

Ends-nibbles_loop : (m : ℕ) (a : Bytes) (i : ℕ) (b : Bytes) (j : ℕ) → Ends (nibbles_loop m a i b j)
unfolding nibbles_loop
Ends-nibbles_loop zero a i b j = search ends_rules
Ends-nibbles_loop (suc m) a i b j = Ends-bind (nibble_at a i) _ (Ends-nibble_at a i) (λ x.
    Ends-bind (nibble_at b j) _ (Ends-nibble_at b j)
      (λ y. Ends-if (x == y) _ _ (Ends-nibbles_loop m a (i + 1) b (j + 1)) (Ends-ok false)))

Ends-aligned : (a : Bytes) (i : ℕ) (b : Bytes) (j n : ℕ) → Ends (aligned_equal a i b j n)
unfolding aligned_equal
Ends-aligned a i b j n = search (ends_rules, Ends-nibble_at) depth 16

Ends-nibbles_equal : (a : Bytes) (i : ℕ) (b : Bytes) (j n : ℕ) → Ends (nibbles_equal a i b j n)
unfolding nibbles_equal
Ends-nibbles_equal a i b j n =
    search (ends_rules, Ends-nibble_at, Ends-aligned, Ends-nibbles_loop) depth 16

Ends-with_terminal : (w : Bytes) (s : ℕ) → Ends (w_with_terminal w s)
unfolding w_with_terminal
Ends-with_terminal w s = search ends_rules

Ends-depth_only : (w : Bytes) (d : ℕ) → Ends (w_with_continue_depth_only w d)
unfolding w_with_continue_depth_only
Ends-depth_only w d = search ends_rules

Ends-continue : (w e : Bytes) (d : ℕ) → Ends (w_with_continue w e d)
unfolding w_with_continue
Ends-continue w e d = search ends_rules depth 8

pub Ends-w_status : (w : Bytes) → Ends (w_status w)
unfolding w_status
Ends-w_status w = search ends_rules

pub Ends-w_expected : (w : Bytes) → Ends (w_expected w)
unfolding w_expected
Ends-w_expected w = search ends_rules

Ends-w_depth : (w : Bytes) → Ends (w_depth w)
unfolding w_depth
Ends-w_depth w = search ends_rules

Ends-w_key_nibs : (w : Bytes) → Ends (w_key_nibs w)
unfolding w_key_nibs
Ends-w_key_nibs w = search ends_rules

Ends-w_key : (w : Bytes) → Ends (w_key w)
unfolding w_key
Ends-w_key w = search ends_rules

ruleset state_rules = (
  ends_rules, Ends-with_terminal, Ends-depth_only, Ends-continue, Ends-w_depth, Ends-w_key_nibs,
  Ends-w_key,
)

Ends-branch_child : (node w : Bytes) (d oc lc kc : ℕ) → Ends (branch_child node w d oc lc kc)
unfolding branch_child
Ends-branch_child node w d oc lc kc = search state_rules depth 16

Ends-branch_hop :
    (node : Bytes) (o0 l0 k0 o1 l1 k1 end : ℕ) (w : Bytes)
    → Ends (mpt_branch_hop node o0 l0 k0 o1 l1 k1 end w)
unfolding mpt_branch_hop
Ends-branch_hop node o0 l0 k0 o1 l1 k1 end w =
    search (state_rules, Ends-branch_item, Ends-nibble_at, Ends-branch_child) depth 20

Ends-extension_child : (node w : Bytes) (d o1 l1 k1 : ℕ) → Ends (extension_child node w d o1 l1 k1)
unfolding extension_child
Ends-extension_child node w d o1 l1 k1 = search state_rules depth 16

Ends-extension_hop :
    (node : Bytes) (o0 l0 o1 l1 k1 : ℕ) (w : Bytes) → Ends (mpt_extension_hop node o0 l0 o1 l1 k1 w)
unfolding mpt_extension_hop
Ends-extension_hop node o0 l0 o1 l1 k1 w =
    search (state_rules, Ends-hp_decode, Ends-nibbles_equal, Ends-extension_child) depth 20

Ends-leaf_hop :
    (node : Bytes) (o0 l0 o1 l1 : ℕ) (w : Bytes) → Ends (mpt_leaf_hop node o0 l0 o1 l1 w)
unfolding mpt_leaf_hop
Ends-leaf_hop node o0 l0 o1 l1 w = search (state_rules, Ends-hp_decode, Ends-nibbles_equal) depth 20

pub Ends-hop : (node : Bytes) (start : ℕ) (w : Bytes) → Ends (mpt_hop node start w)
unfolding mpt_hop
Ends-hop node start w =
    search
      (
        ends_rules, Ends-discriminate, Ends-branch_hop, Ends-hp_decode, Ends-leaf_hop,
        Ends-extension_hop,
      )
      depth 12
