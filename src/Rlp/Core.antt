-- ===== src/Rlp/Core.antt =====
-- contracts/primitives/rlp/core.py: the headers of lists and items, and the inlined step past an
-- item. The source's `data` is called `buf`.
pub mod Stride
use eth_avm_light_client.Prelude.{ℕ, ◌+◌, ltb, leb, if◌then◌else◌, length}
use eth_avm_light_client.Avm.{
  Bytes, Result, ok, ◌>>=◌, ◌>>◌, assert, u64, sub, getbyte, extract, btoi,
}

abbrev pub kind_byte : ℕ
kind_byte = 0

abbrev pub kind_str : ℕ
kind_str = 1

abbrev pub kind_list : ℕ
kind_list = 2

unfoldable pub read_len : Bytes → ℕ → ℕ → Result ℕ
read_len buf off ll = do assert (leb ll 8) "R7"; b ← extract buf off ll; btoi b

-- The two arms of `rlp_list_header` for a first byte `p`.
unfoldable pub list_span : Bytes → ℕ → ℕ → Result (ℕ × ℕ)
list_span buf start p =
    if ltb p 0xF8
    then (do payload_off ← u64 (start + 1); payload_len ← sub p 0xC0; ok (payload_off, payload_len))
    else (do
      ll ← sub p 0xF7
      payload_off ← u64 (start + 1 + ll)
      payload_len ← read_len buf (start + 1) ll
      ok (payload_off, payload_len))

unfoldable pub rlp_list_header : Bytes → ℕ → Result (ℕ × ℕ)
unfolding list_span read_len
rlp_list_header buf start = do
  assert (ltb start (length buf)) "R8"
  p ← getbyte buf start
  assert (leb 0xC0 p) "R1"
  (payload_off, payload_len) ← list_span buf start p
  payload_end ← u64 (payload_off + payload_len)
  assert (leb payload_end (length buf)) "R2"
  ok (payload_off, payload_end)

-- The five arms of `rlp_item_header`: content offset, content length, kind.
unfoldable pub item_span : Bytes → ℕ → ℕ → Result (ℕ × ℕ × ℕ)
item_span buf pos p =
    if ltb p 0x80
    then ok (pos, 1, kind_byte)
    else if ltb p 0xB8
    then (do
      content_off ← u64 (pos + 1)
      content_len ← sub p 0x80
      ok (content_off, content_len, kind_str))
    else if ltb p 0xC0
    then (do
      ll ← sub p 0xB7
      content_off ← u64 (pos + 1 + ll)
      content_len ← read_len buf (pos + 1) ll
      ok (content_off, content_len, kind_str))
    else if ltb p 0xF8
    then (do content_len ← sub (1 + p) 0xC0; ok (pos, content_len, kind_list))
    else (do
      ll ← sub p 0xF7
      off ← u64 (pos + 1)
      list_len ← read_len buf off ll
      content_len ← u64 (1 + ll + list_len)
      ok (pos, content_len, kind_list))

unfoldable pub rlp_item_header : Bytes → ℕ → Result (ℕ × ℕ × ℕ)
unfolding item_span
rlp_item_header buf pos = do
  p ← getbyte buf pos
  (content_off, content_len, kind) ← item_span buf pos p
  end ← u64 (content_off + content_len)
  assert (leb end (length buf)) "R2"
  ok (content_off, content_len, kind)

-- The arms that the loops of `rlp_scan_n` and `rlp_scan_upto` inline, on the first byte `p`.
skip_from : Bytes → ℕ → ℕ → Result ℕ
skip_from buf pos p =
    if ltb p 0xB8
    then (if ltb p 0x80 then u64 (pos + 1) else (do d ← sub (1 + p) 0x80; u64 (pos + d)))
    else if ltb p 0xC0
    then (do
      ll ← sub p 0xB7
      off ← u64 (pos + 1)
      n ← read_len buf off ll
      u64 (pos + (1 + ll + n)))
    else if ltb p 0xF8
    then (do d ← sub (1 + p) 0xC0; u64 (pos + d))
    else (do
      ll ← sub p 0xF7
      off ← u64 (pos + 1)
      n ← read_len buf off ll
      u64 (pos + (1 + ll + n)))

-- The position behind the item at `pos`.
unfoldable pub rlp_skip : Bytes → ℕ → Result ℕ
unfolding skip_from
rlp_skip buf pos = do p ← getbyte buf pos; skip_from buf pos p
