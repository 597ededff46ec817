-- ===== src/Mpt/Descend.antt =====
-- contracts/mpt/descend.py: arity by the end of item 1, and the items of a branch.
pub mod Agree
use eth_avm_light_client.Prelude.{ℕ, zero, suc, ◌+◌, ◌-◌, ltb, ◌==◌, if◌then◌else◌}
use eth_avm_light_client.Avm.{
  Bytes, Result, ok, ◌>>=◌, ◌>>◌, assert, u64, sub, getbyte, extract, btoi,
}
use eth_avm_light_client.Rlp.Core.{rlp_list_header, rlp_item_header}

-- (arity, payload_end, o0, l0, k0, o1, l1, k1)
unfoldable pub mpt_arity_discriminate : Bytes → ℕ → Result (ℕ × ℕ × ℕ × ℕ × ℕ × ℕ × ℕ × ℕ)
mpt_arity_discriminate node start = do
  (payload_off, payload_end) ← rlp_list_header node start
  (o0, l0, k0) ← rlp_item_header node payload_off
  next ← u64 (o0 + l0)
  (o1, l1, k1) ← rlp_item_header node next
  end ← u64 (o1 + l1)
  if end == payload_end
      then ok (2, payload_end, o0, l0, k0, o1, l1, k1)
      else ok (17, payload_end, o0, l0, k0, o1, l1, k1)

-- `op.btoi(op.extract(node, off, ll))`, with no "R7"
unfoldable pub raw_len : Bytes → ℕ → ℕ → Result ℕ
raw_len node off ll = do b ← extract node off ll; btoi b

-- The step past an item that this module inlines: the arms of `rlp_scan_n`, with the length read by
-- `btoi` alone.
unfoldable pub branch_skip : Bytes → ℕ → Result ℕ
branch_skip node pos = do
  p ← getbyte node pos
  if ltb p 0xB8
      then (if ltb p 0x80 then u64 (pos + 1) else (do d ← sub (1 + p) 0x80; u64 (pos + d)))
      else if ltb p 0xC0
      then (do
        ll ← sub p 0xB7
        off ← u64 (pos + 1)
        n ← raw_len node off ll
        u64 (pos + (1 + ll + n)))
      else if ltb p 0xF8
      then (do d ← sub (1 + p) 0xC0; u64 (pos + d))
      else (do
        ll ← sub p 0xF7
        off ← u64 (pos + 1)
        n ← raw_len node off ll
        u64 (pos + (1 + ll + n)))

-- The loop from item 2 on, on the number of items left to skip.
unfoldable pub branch_loop : ℕ → Bytes → ℕ → ℕ → Result (ℕ × ℕ × ℕ)
branch_loop zero node payload_end pos = do
  assert (ltb pos payload_end) "W9"
  rlp_item_header node pos
branch_loop (suc more) node payload_end pos = do
  assert (ltb pos payload_end) "W9"
  next ← branch_skip node pos
  branch_loop more node payload_end next

unfoldable pub mpt_branch_item_at : Bytes → ℕ → ℕ → ℕ → ℕ → ℕ → ℕ → ℕ → ℕ → Result (ℕ × ℕ × ℕ)
unfolding branch_loop
mpt_branch_item_at node o0 l0 k0 o1 l1 k1 payload_end want =
    if want == 0
    then ok (o0, l0, k0)
    else if want == 1
    then ok (o1, l1, k1)
    else (do pos ← u64 (o1 + l1); branch_loop (want - 2) node payload_end pos)

-- (arity, o0, l0, k0, ow, lw, kw)
unfoldable pub mpt_descend : Bytes → ℕ → ℕ → Result (ℕ × ℕ × ℕ × ℕ × ℕ × ℕ × ℕ)
mpt_descend node start want = do
  (arity, payload_end, o0, l0, k0, o1, l1, k1) ← mpt_arity_discriminate node start
  if arity == 2 then ok (2, o0, l0, k0, o1, l1, k1) else (do
    (ow, lw, kw) ← mpt_branch_item_at node o0 l0 k0 o1 l1 k1 payload_end want
    ok (17, o0, l0, k0, ow, lw, kw))
