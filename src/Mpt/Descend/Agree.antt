-- ===== src/Mpt/Descend/Agree.antt =====
-- The duplicated step and the branch items against the RLP scans.
use eth_avm_light_client.Prelude.{
  ℕ, zero, suc, ◌+◌, ◌-◌, ◌<◌, ◌≡◌, length, arith, leb, if◌then◌else◌,
}
use eth_avm_light_client.Prelude.{◌↔◌, ◌≢◌, ◌∙◌, ap, inl, inr}
use eth_avm_light_client.Prelude.Slices.{length-slice}
use eth_avm_light_client.Avm.{Bytes, ok, err, code, panic, u64_mod, extract, getbyte}
use eth_avm_light_client.Avm.Results.{extract-eq-ok, Result-cases}
use eth_avm_light_client.Rlp.Core.{rlp_item_header, rlp_skip, read_len, rlp_list_header}
use eth_avm_light_client.Rlp.Core.Stride.{skip-item_header, item_header_bounds}
use eth_avm_light_client.Rlp.Scan.{rlp_scan_upto, upto_loop}
use eth_avm_light_client.Mpt.Descend.{
  mpt_arity_discriminate, branch_skip, branch_loop, raw_len, mpt_branch_item_at, mpt_descend,
}

-- Beyond eight bytes `btoi` panics where "R7" would have failed.
raw_len-panic : (node : Bytes) (off ll : ℕ) → 8 < ll → raw_len node off ll ≡ err panic
unfolding raw_len
raw_len-panic node off ll long = elim (Result-cases (extract node off ll)) [
  | inr (f, e) ↦ ground arith
  | inl (b, e) ↦
      let (inside, eq) = extract-eq-ok node off ll e in
      let size : length b ≡ ll = ap length eq ∙ length-slice node off ll inside in
      rw e (ground arith)
]

read_len-raw_len :
    (node : Bytes) (off ll : ℕ)
    → read_len node off ll ≡ (if leb ll 8 then raw_len node off ll else err (code "R7"))
unfolding read_len raw_len
read_len-raw_len node off ll = ground arith

-- The step that the trie module inlines succeeds where the one of the RLP module does, and goes to
-- the same position.
pub branch_skip-rlp_skip :
    (node : Bytes) (pos next : ℕ) → (branch_skip node pos ≡ ok next) ↔ (rlp_skip node pos ≡ ok next)
unfolding branch_skip rlp_skip
branch_skip-rlp_skip node pos next = elim (Result-cases (getbyte node pos)) [
  | inr (f, e) ↦ (λ h. ground arith, λ h. ground arith)
  | inl (p, e) ↦ (
    λ h. ground (
      arith,
      read_len-raw_len node (pos + 1) (p - 0xB7),
      read_len-raw_len node (pos + 1) (p - 0xF7),
      raw_len-panic node (pos + 1) (p - 0xB7),
      raw_len-panic node (pos + 1) (p - 0xF7),
    ),
    λ h. ground (
      arith,
      read_len-raw_len node (pos + 1) (p - 0xB7),
      read_len-raw_len node (pos + 1) (p - 0xF7),
    ),
  )
]

branch_loop_before :
    (m : ℕ) (node : Bytes) (end pos : ℕ) {r : ℕ × ℕ × ℕ}
    → branch_loop m node end pos ≡ ok r
    → pos < end
unfolding branch_loop
branch_loop_before zero node end pos h = ground arith
branch_loop_before (suc m) node end pos h = ground arith

branch_loop-upto_loop :
    (m : ℕ) (node : Bytes) (end pos : ℕ) {r : ℕ × ℕ × ℕ}
    → branch_loop m node end pos ≡ ok r
    → upto_loop m node end pos ≡ ok r
unfolding branch_loop upto_loop
branch_loop-upto_loop zero node end pos h = ground arith
branch_loop-upto_loop (suc m) node end pos {r} h = elim (Result-cases (branch_skip node pos)) [
  | inr (f, e) ↦ ground arith
  | inl (next, e) ↦ ground (
    arith,
    (branch_skip-rlp_skip node pos next).0 e,
    branch_loop-upto_loop m node end next {r = r},
  )
]

-- What the prefix decode of a node has read.
pub record Prefix (node : Bytes) (start arity end o0 l0 k0 o1 l1 k1 : ℕ) : Type 0 where
  pub off : ℕ
  pub header : rlp_list_header node start ≡ ok (off, end)
  pub first : rlp_item_header node off ≡ ok (o0, l0, k0)
  pub second : rlp_item_header node (o0 + l0) ≡ ok (o1, l1, k1)
  pub two_items : o1 + l1 ≡ end → arity ≡ 2
  pub more_items : o1 + l1 ≢ end → arity ≡ 17
  pub fits : o1 + l1 < u64_mod

pub discriminate-Prefix :
    (node : Bytes) (start : ℕ) {arity end o0 l0 k0 o1 l1 k1 : ℕ}
    → mpt_arity_discriminate node start ≡ ok (arity, end, o0, l0, k0, o1, l1, k1)
    → Prefix node start arity end o0 l0 k0 o1 l1 k1
unfolding mpt_arity_discriminate
discriminate-Prefix node start h = elim (Result-cases (rlp_list_header node start)) [
  | inr (f, e) ↦ ground arith
  | inl ((off, end), e) ↦ record {
    off = off;
    header = ground arith;
    first = ground arith;
    second = ground arith;
    two_items = ground arith;
    more_items = ground arith;
    fits = ground arith;
  }
]

-- Where mpt_descend returns an item of a branch with an index of 2 or more, rlp_scan_upto returns
-- the same item.
pub descend-scan_upto :
    (node : Bytes) (start m : ℕ) {o0 l0 k0 o l k : ℕ}
    → mpt_descend node start (suc (suc m)) ≡ ok (17, o0, l0, k0, o, l, k)
    → rlp_scan_upto node start (suc (suc m)) ≡ ok (o, l, k)
unfolding mpt_descend mpt_branch_item_at rlp_scan_upto upto_loop
descend-scan_upto node start m h = elim (Result-cases (mpt_arity_discriminate node start)) [
  | inr (f, e) ↦ ground arith
  | inl ((arity, end, o0, l0, k0, o1, l1, k1), e) ↦
      let p = discriminate-Prefix node start e in
      elim (Result-cases (branch_loop m node end (o1 + l1))) [
        | inr (f, b) ↦ ground (arith, p.more_items)
        | inl (r, b) ↦ ground (
          arith,
          p.header,
          skip-item_header node p.off p.first,
          skip-item_header node (o0 + l0) p.second,
          item_header_bounds node p.off p.first,
          item_header_bounds node (o0 + l0) p.second,
          branch_loop_before m node end (o1 + l1) b,
          branch_loop-upto_loop m node end (o1 + l1) b,
        )
      ]
]
