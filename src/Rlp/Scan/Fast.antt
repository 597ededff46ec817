-- ===== src/Rlp/Scan/Fast.antt =====
-- The loop-free decode of a list of two items against the full scan, and the arity check.
use eth_avm_light_client.Prelude.{
  ℕ, ◌+◌, ◌≤◌, ◌<◌, ◌^◌, ◌≡◌, refl, ◌⊎◌, inl, inr, List, [], ◌∷◌, length, arith,
}
use eth_avm_light_client.Avm.{Bytes, ok}
use eth_avm_light_client.Avm.Results.{Result-cases}
use eth_avm_light_client.Rlp.Core.{rlp_list_header, rlp_item_header}
use eth_avm_light_client.Rlp.Core.Stride.{skip-item_header, item_header_bounds, list_header_bounds}
use eth_avm_light_client.Rlp.Scan.{
  rlp_scan_n, rlp_scan, rlp_table_item, rlp_table_count, mpt_node_scan, rlp_scan2, max_items,
}
use eth_avm_light_client.Rlp.Scan.Items.{Items, done, item, table_of, length-table_of}
use eth_avm_light_client.Rlp.Scan.Table.{scan_n_complete, scan_n_sound}
use eth_avm_light_client.Rlp.Scan.Upto.{table-get}

record Two (buf : Bytes) (start o0 l0 k0 o1 l1 k1 : ℕ) : Type 0 where
  off : ℕ
  end : ℕ
  header : rlp_list_header buf start ≡ ok (off, end)
  first : rlp_item_header buf off ≡ ok (o0, l0, k0)
  second : rlp_item_header buf (o0 + l0) ≡ ok (o1, l1, k1)
  filled : o1 + l1 ≡ end

scan2_parts :
    (buf : Bytes) (start : ℕ) {o0 l0 k0 o1 l1 k1 : ℕ}
    → rlp_scan2 buf start ≡ ok (o0, l0, k0, o1, l1, k1)
    → Two buf start o0 l0 k0 o1 l1 k1
unfolding rlp_scan2
scan2_parts buf start h = elim (Result-cases (rlp_list_header buf start)) [
  | inr (f, e) ↦ ground arith
  | inl ((off, end), e) ↦ record {
    off = off;
    end = end;
    header = e;
    first = ground arith;
    second = ground arith;
    filled = ground arith;
  }
]

-- Where the decode of two items succeeds, in a buffer shorter than 2^16 bytes, a full scan with a
-- limit of at least 2, below 2^63, counts exactly two items and its table gives the same two.
pub scan2-scan_n :
    (buf : Bytes) (start limit : ℕ) {o0 l0 k0 o1 l1 k1 : ℕ}
    → rlp_scan2 buf start ≡ ok (o0, l0, k0, o1, l1, k1)
    → 2 ≤ limit
    → limit < 2 ^ 63
    → length buf < 2 ^ 16
    → (table : Bytes) × (rlp_scan_n buf start limit ≡ ok (table, 2))
      × (rlp_table_item buf table 0 ≡ ok (o0, l0, k0))
      × (rlp_table_item buf table 1 ≡ ok (o1, l1, k1))
scan2-scan_n buf start limit {o0} {l0} h two bounded small =
    let p = scan2_parts buf start h in
    let heads : List ℕ = p.off ∷ (o0 + l0) ∷ [] in
    let a = item_header_bounds buf p.off p.first in
    let b = item_header_bounds buf (o0 + l0) p.second in
    let c = list_header_bounds buf start p.header in
    let items : Items buf p.end p.off heads =
      item (omega (arith, p.filled)) (skip-item_header buf p.off p.first) (
        item (omega (arith, p.filled)) (skip-item_header buf (o0 + l0) p.second) (done p.filled)) in
    (
      table_of heads p.end,
      scan_n_complete buf start limit heads p.header items two bounded,
      unfold rlp_table_item in
          ground (
            arith,
            table-get heads p.end 0 p.off refl (omega arith),
            length-table_of heads p.end,
            p.first,
          ),
      unfold rlp_table_item in
          ground (
            arith,
            table-get heads p.end 1 (o0 + l0) refl (omega arith),
            length-table_of heads p.end,
            p.second,
          ),
    )

-- A node that passes the arity check is a list of 2 or of 17 items, and its table counts them.
pub node_scan_arity :
    (buf : Bytes) (start : ℕ) {table : Bytes} {n : ℕ}
    → mpt_node_scan buf start ≡ ok (table, n)
    → ((n ≡ 2) ⊎ (n ≡ 17)) × (rlp_table_count table ≡ ok n)
unfolding mpt_node_scan rlp_scan rlp_table_count
node_scan_arity buf start h = elim (Result-cases (rlp_scan_n buf start max_items)) [
  | inr (f, e) ↦ ground arith
  | inl ((t, m), e) ↦
      let s = scan_n_sound buf start max_items e in
      ground (arith, s.listed, s.counted, length-table_of s.heads s.end)
]
