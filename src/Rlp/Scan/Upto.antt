-- ===== src/Rlp/Scan/Upto.antt =====
-- The early-exit retrieval against the table of a full scan.
use eth_avm_light_client.Prelude.{
  ℕ, zero, suc, ◌*◌, ◌≤◌, ◌<◌, ◌^◌, ◌≡◌, refl, List, [], ◌∷◌, some, length, get_elem?, arith,
}
use eth_avm_light_client.Avm.{Bytes, ok, err, code, be2, extract_uint16}
use eth_avm_light_client.Avm.Words.{extract_uint16-be2}
use eth_avm_light_client.Prelude.Slices.{slice}
use eth_avm_light_client.Rlp.Core.{rlp_item_header}
use eth_avm_light_client.Rlp.Core.Stride.{list_header_bounds}
use eth_avm_light_client.Rlp.Scan.{rlp_scan_n, rlp_table_item, rlp_scan_upto, upto_loop}
use eth_avm_light_client.Rlp.Scan.Items.{
  Items, done, item, table_of, length-table_of, Items-lt, Items-length,
}
use eth_avm_light_client.Rlp.Scan.Table.{scan_n_sound}

-- The loop stops at the header of the item that it was sent to.
upto_loop-Items :
    (buf : Bytes) (end pos : ℕ) (heads : List ℕ) (i h : ℕ)
    → Items buf end pos heads
    → get_elem? heads i ≡ some h
    → upto_loop i buf end pos ≡ rlp_item_header buf h
unfolding upto_loop
upto_loop-Items buf end pos [] i h d e = cc
upto_loop-Items buf end pos (x ∷ heads) zero h (item lt s d) e = ground arith
upto_loop-Items buf end pos (x ∷ heads) (suc i) h (item {next = n} lt s d) e =
    ground (arith, upto_loop-Items buf end n heads i h d e)

upto_loop-past :
    (buf : Bytes) (end pos : ℕ) (heads : List ℕ) (i : ℕ)
    → Items buf end pos heads
    → length heads ≤ i
    → upto_loop i buf end pos ≡ err (code "R9")
unfolding upto_loop
upto_loop-past buf end pos [] zero (done e) b = ground arith
upto_loop-past buf end pos [] (suc i) (done e) b = ground arith
upto_loop-past buf end pos (x ∷ heads) zero (item lt s d) b = absurd (omega arith)
upto_loop-past buf end pos (x ∷ heads) (suc i) (item {next = n} lt s d) b =
    ground (arith, upto_loop-past buf end n heads i d)

-- Entry `i` of the table is the header position of item `i`.
table-entry :
    (heads : List ℕ) (end i h : ℕ)
    → get_elem? heads i ≡ some h
    → slice (table_of heads end) (2 * i) 2 ≡ be2 h
table-entry [] end i h e = cc
table-entry (x ∷ heads) end zero h e = ground arith
table-entry (x ∷ heads) end (suc i) h e =
    let shift : 2 * suc i ≡ suc (suc (2 * i)) = omega arith in
    rw shift (table-entry heads end i h e)

get_elem?-lt : (heads : List ℕ) (i : ℕ) → i < length heads → (h : ℕ) × (get_elem? heads i ≡ some h)
get_elem?-lt [] i b = absurd (omega arith)
get_elem?-lt (x ∷ heads) zero b = (x, refl)
get_elem?-lt (x ∷ heads) (suc i) b = get_elem?-lt heads i (omega arith)

get_elem?-bound : (heads : List ℕ) (i : ℕ) {h : ℕ} → get_elem? heads i ≡ some h → i < length heads
get_elem?-bound [] i e = cc
get_elem?-bound (x ∷ heads) zero e = omega arith
get_elem?-bound (x ∷ heads) (suc i) e = omega (arith, get_elem?-bound heads i e)

pub table-get :
    (heads : List ℕ) (end i h : ℕ)
    → get_elem? heads i ≡ some h
    → h < 2 ^ 16
    → extract_uint16 (table_of heads end) (2 * i) ≡ ok h
table-get heads end i h e small =
    extract_uint16-be2 (table_of heads end) (2 * i) h
      (omega (arith, length-table_of heads end, get_elem?-bound heads i e))
      (table-entry heads end i h e) small

module _ (buf : Bytes) (start limit : ℕ) {table : Bytes} {n : ℕ} where
  -- For an item that a full scan of a buffer shorter than 2^16 bytes has counted, the early-exit
  -- scan returns what the table gives for it.
  pub scan_upto-table_item :
      (i : ℕ)
      → rlp_scan_n buf start limit ≡ ok (table, n)
      → length buf < 2 ^ 16
      → i < n
      → rlp_scan_upto buf start i ≡ rlp_table_item buf table i
  unfolding rlp_scan_upto rlp_table_item
  scan_upto-table_item i scanned small lt =
      let s = scan_n_sound buf start limit scanned in
      let (h, e) = get_elem?-lt s.heads i (omega (arith, s.counted)) in
      let before : h < s.end = Items-lt buf s.end s.off s.heads i h s.items e in
      let inside = list_header_bounds buf start s.header in
      ground (
        arith,
        s.header,
        s.counted,
        s.listed,
        length-table_of s.heads s.end,
        Items-length buf s.end s.off s.heads s.items,
        inside,
        table-get s.heads s.end i h e,
        upto_loop-Items buf s.end s.off s.heads i h s.items e,
      )

  -- For an item behind the last one that a full scan has counted, the early-exit scan fails with
  -- R9.
  pub scan_upto_past :
      (i : ℕ)
      → rlp_scan_n buf start limit ≡ ok (table, n)
      → n ≤ i
      → rlp_scan_upto buf start i ≡ err (code "R9")
  unfolding rlp_scan_upto
  scan_upto_past i scanned le =
      let s = scan_n_sound buf start limit scanned in
      ground (arith, s.header, s.counted, upto_loop-past buf s.end s.off s.heads i s.items)
