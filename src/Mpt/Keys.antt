-- ===== src/Mpt/Keys.antt =====
-- contracts/mpt/state.py: the trie keys, derived on chain from their preimages.
use eth_avm_light_client.Prelude.{
  ℕ, ◌+◌, ◌≤◌, ◌≡◌, ◌∷◌, [], Bool, not, ◌&&◌, ltb, leb, ◌==◌, if◌then◌else◌, length, arith,
}
use eth_avm_light_client.Avm.{
  Bytes, Result, ok, err, code, ◌>>=◌, ◌>>◌, assert, byte1, be2, be3, Hashes, from_be,
}
use eth_avm_light_client.Rlp.Core.{rlp_item_header, kind_byte, kind_str}
use eth_avm_light_client.Prelude.Slices.{slice}

module _ (h : Hashes) where
  unfoldable pub mpt_key_from_address : Bytes → Result Bytes
  mpt_key_from_address addr = do assert (length addr == 20) "W1"; ok (h.keccak256 addr)

  unfoldable pub mpt_key_from_slot : Bytes → Result Bytes
  mpt_key_from_slot slot = do assert (length slot == 32) "W2"; ok (h.keccak256 slot)

unfoldable pub mpt_key_from_tx_index : ℕ → Result Bytes
mpt_key_from_tx_index index = do
  assert (leb index 0xFFFFFF) "W3"
  if index == 0
      then ok (0x80 ∷ [])
      else if leb index 0x7F
      then ok (byte1 index)
      else if leb index 0xFF
      then ok (0x81 ∷ byte1 index)
      else if leb index 0xFFFF
      then ok (0x82 ∷ be2 index)
      else ok (0x83 ∷ be3 index)

-- Whether the content of an RLP item of kind `kind` at `off` is a number in its minimal form: no
-- list, no length in bytes of its own, no leading zero, and no string of one byte below 0x80, which
-- stands for itself.
abbrev pub is_minimal : ℕ → ℕ → Bytes → Bool
is_minimal kind off [] = kind == kind_str && off == 1
is_minimal kind off (b ∷ []) =
    if ltb b 0x80 then kind == kind_byte && not (b == 0) else kind == kind_str && off == 1
is_minimal kind off (b ∷ c ∷ rest) = kind == kind_str && off == 1 && not (b == 0)

-- The index that a key stands for, if the key is one RLP item, of a number in its minimal form. The
-- number 0 is the empty string.
unfoldable pub index_of_key : Bytes → Result ℕ
index_of_key key = do
  (off, len, kind) ← rlp_item_header key 0
  assert (off + len == length key) "no item"
  let content : Bytes = slice key off len
  assert (is_minimal kind off content) "not minimal"
  ok (from_be content)

-- The key of every transaction index up to 0xFFFFFF is one RLP item of a number in its minimal
-- form, that of the index, and the key of every other index is refused with W3.
pub index_of_tx_key :
    (index : ℕ)
    → (mpt_key_from_tx_index index >>= index_of_key)
      ≡ (if leb index 0xFFFFFF then ok index else err (code "W3"))
unfolding mpt_key_from_tx_index index_of_key rlp_item_header
index_of_tx_key index = ground arith

tx_key_range : (i : ℕ) {key : Bytes} → mpt_key_from_tx_index i ≡ ok key → i ≤ 0xFFFFFF
unfolding mpt_key_from_tx_index
tx_key_range i e = ground arith

-- So no two indices share a key.
pub tx_key-injective :
    (i j : ℕ) {key : Bytes}
    → mpt_key_from_tx_index i ≡ ok key
    → mpt_key_from_tx_index j ≡ ok key
    → i ≡ j
tx_key-injective i j e f =
    ground (arith, index_of_tx_key i, index_of_tx_key j, tx_key_range i e, tx_key_range j f)
