-- ===== src/Rlp/Scan.antt =====
-- contracts/primitives/rlp/core.py: the scans of a list and the retrieval of items.
pub mod Items
pub mod Table
pub mod Upto
pub mod Fast
use eth_avm_light_client.Prelude.{
  ℕ, zero, suc, ◌+◌, ◌-◌, ◌*◌, ◌/◌, Bool, true, false, ◌||◌, [], ◌++◌, ltb, leb, ◌==◌, length,
}
use eth_avm_light_client.Avm.{
  Bytes, Result, ok, err, out_of_fuel, ◌>>=◌, ◌>>◌, assert, u64, sub, extract, be2, extract_uint16,
}
use eth_avm_light_client.Rlp.Core.{rlp_list_header, rlp_item_header, rlp_skip}

abbrev pub max_items : ℕ
max_items = 17

-- The `while` loop of `rlp_scan_n` and the assertion behind it.
unfoldable pub scan_loop : ℕ → Bytes → ℕ → ℕ → Bytes → ℕ → Result Bytes
scan_loop zero buf payload_end limit table pos = err out_of_fuel
scan_loop (suc fuel) buf payload_end limit table pos = elim (ltb pos payload_end) [
  | false ↦ assert (pos == payload_end) "R4" >> ok (table ++ be2 payload_end)
  | true ↦ do
    cap ← u64 (2 * limit)
    assert (ltb (length table) cap) "R3"
    next ← rlp_skip buf pos
    scan_loop fuel buf payload_end limit (table ++ be2 pos) next
]

-- `limit` is the source's `max_items`: every round adds an entry and passes "R3", so `limit + 1` rounds
-- are enough.
unfoldable pub rlp_scan_n : Bytes → ℕ → ℕ → Result (Bytes × ℕ)
rlp_scan_n buf start limit = do
  (payload_off, payload_end) ← rlp_list_header buf start
  table ← scan_loop (limit + 1) buf payload_end limit [] payload_off
  n ← sub (length table / 2) 1
  ok (table, n)

unfoldable pub rlp_scan : Bytes → ℕ → Result (Bytes × ℕ)
rlp_scan buf start = rlp_scan_n buf start max_items

unfoldable pub rlp_table_item : Bytes → Bytes → ℕ → Result (ℕ × ℕ × ℕ)
rlp_table_item buf table i = do
  need ← u64 (2 * i + 2)
  assert (leb need (length table)) "R5"
  pos ← extract_uint16 table (2 * i)
  rlp_item_header buf pos

unfoldable pub rlp_table_count : Bytes → Result ℕ
rlp_table_count table = sub (length table / 2) 1

abbrev pub rlp_bytes : Bytes → ℕ → ℕ → Result Bytes
rlp_bytes buf off len = extract buf off len

unfoldable pub mpt_node_scan : Bytes → ℕ → Result (Bytes × ℕ)
mpt_node_scan buf start = do
  (table, n) ← rlp_scan buf start
  assert (n == 2 || n == 17) "R6"
  ok (table, n)

unfoldable pub rlp_scan2 : Bytes → ℕ → Result (ℕ × ℕ × ℕ × ℕ × ℕ × ℕ)
rlp_scan2 buf start = do
  (payload_off, payload_end) ← rlp_list_header buf start
  (o0, l0, k0) ← rlp_item_header buf payload_off
  item1_off ← u64 (o0 + l0)
  (o1, l1, k1) ← rlp_item_header buf item1_off
  end ← u64 (o1 + l1)
  assert (end == payload_end) "R4"
  ok (o0, l0, k0, o1, l1, k1)

-- The loop of `rlp_scan_upto`, on the number of items still to skip.
unfoldable pub upto_loop : ℕ → Bytes → ℕ → ℕ → Result (ℕ × ℕ × ℕ)
upto_loop zero buf payload_end pos = do assert (ltb pos payload_end) "R9"; rlp_item_header buf pos
upto_loop (suc more) buf payload_end pos = do
  assert (ltb pos payload_end) "R9"
  next ← rlp_skip buf pos
  upto_loop more buf payload_end next

unfoldable pub rlp_scan_upto : Bytes → ℕ → ℕ → Result (ℕ × ℕ × ℕ)
rlp_scan_upto buf start want = do
  (payload_off, payload_end) ← rlp_list_header buf start
  upto_loop want buf payload_end payload_off
