-- ===== src/Rlp/Core/Stride.antt =====
-- The inlined step of the scans against the header routine.
use eth_avm_light_client.Prelude.{ℕ, ◌+◌, ◌≤◌, ◌<◌, ◌≡◌, arith, length}
use eth_avm_light_client.Avm.{Bytes, ok}
use eth_avm_light_client.Rlp.Core.{rlp_item_header, rlp_skip, rlp_list_header}

-- Wherever rlp_item_header succeeds, the step that the scans inline goes to the end of the same
-- item.
pub skip-item_header :
    (buf : Bytes) (pos : ℕ) {o l k : ℕ}
    → rlp_item_header buf pos ≡ ok (o, l, k)
    → rlp_skip buf pos ≡ ok (o + l)
unfolding rlp_item_header rlp_skip
skip-item_header buf pos h = ground arith

-- An item's content begins at or behind its header, is not before the end of it, and lies in the
-- buffer; the item takes at least one byte.
pub item_header_bounds :
    (buf : Bytes) (pos : ℕ) {o l k : ℕ}
    → rlp_item_header buf pos ≡ ok (o, l, k)
    → (pos ≤ o) × (pos < o + l) × (o + l ≤ length buf)
unfolding rlp_item_header
item_header_bounds buf pos h = ground arith

pub skip_forward : (buf : Bytes) (pos : ℕ) {next : ℕ} → rlp_skip buf pos ≡ ok next → pos < next
unfolding rlp_skip
skip_forward buf pos h = ground arith

pub list_header_bounds :
    (buf : Bytes) (start : ℕ) {off end : ℕ}
    → rlp_list_header buf start ≡ ok (off, end)
    → (start < off) × (off ≤ end) × (end ≤ length buf)
unfolding rlp_list_header
list_header_bounds buf start h = ground arith
