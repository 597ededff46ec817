-- ===== src/StateAnchor/Record.antt =====
-- contracts/state_anchor/record.py and constants.py: the anchor record, 154 bytes.
pub mod Fields
use eth_avm_light_client.Prelude.{
  ℕ, ◌+◌, ◌-◌, ◌*◌, ◌/◌, ◌%◌, ◌++◌, Bool, true, false, not, if◌then◌else◌, ◌==◌, length, bytes_eq,
}
use eth_avm_light_client.Avm.{
  Bytes, Result, ok, ◌>>=◌, ◌>>◌, assert, getbyte, extract, itob, btoi, byte1,
}

abbrev pub record_len : ℕ
record_len = 154

abbrev pub off_version : ℕ
off_version = 0

abbrev pub off_flags : ℕ
off_flags = 1

abbrev pub off_block_number : ℕ
off_block_number = 2

abbrev pub off_beacon_slot : ℕ
off_beacon_slot = 10

abbrev pub off_state_root : ℕ
off_state_root = 18

abbrev pub off_receipts_root : ℕ
off_receipts_root = 50

abbrev pub off_beacon_block_root : ℕ
off_beacon_block_root = 82

abbrev pub off_finality_root : ℕ
off_finality_root = 114

abbrev pub off_anchored_round : ℕ
off_anchored_round = 146

abbrev pub version_1 : ℕ
version_1 = 1

abbrev pub flag_historical : ℕ
flag_historical = 2

unfoldable pub a_version : Bytes → Result ℕ
a_version a = getbyte a off_version

unfoldable pub a_flags : Bytes → Result ℕ
a_flags a = getbyte a off_flags

-- `flags & 1 != 0`: the lowest bit
unfoldable pub a_is_revoked : Bytes → Result Bool
a_is_revoked a = do flags ← a_flags a; ok (flags % 2 == 1)

-- `flags & 2 != 0`: the second bit
unfoldable pub a_is_historical : Bytes → Result Bool
a_is_historical a = do flags ← a_flags a; ok (flags / 2 % 2 == 1)

unfoldable pub a_block_number : Bytes → Result ℕ
a_block_number a = extract a off_block_number 8 >>= btoi

unfoldable pub a_beacon_slot : Bytes → Result ℕ
a_beacon_slot a = extract a off_beacon_slot 8 >>= btoi

unfoldable pub a_state_root : Bytes → Result Bytes
a_state_root a = extract a off_state_root 32

unfoldable pub a_receipts_root : Bytes → Result Bytes
a_receipts_root a = extract a off_receipts_root 32

unfoldable pub a_beacon_block_root : Bytes → Result Bytes
a_beacon_block_root a = extract a off_beacon_block_root 32

unfoldable pub a_finality_root : Bytes → Result Bytes
a_finality_root a = extract a off_finality_root 32

unfoldable pub a_anchored_round : Bytes → Result ℕ
a_anchored_round a = extract a off_anchored_round 8 >>= btoi

unfoldable pub build_record : Bool → ℕ → ℕ → Bytes → Bytes → Bytes → Bytes → ℕ → Result Bytes
build_record historical block_number beacon_slot state_root receipts_root beacon_block_root
      finality_root anchored_round =
    do
      assert (length state_root == 32) "N20-shape"
      assert (length receipts_root == 32) "N20-shape"
      assert (length beacon_block_root == 32) "N20-shape"
      assert (length finality_root == 32) "N20-shape"
      let flags : ℕ = if historical then flag_historical else 0 in
          ok (
            byte1 version_1
            ++ (byte1 flags
                ++ (itob block_number
                    ++ (itob beacon_slot
                        ++ (state_root
                            ++ (receipts_root
                                ++ (beacon_block_root
                                    ++ (finality_root ++ itob anchored_round))))))))

-- `flags & ~1` clears the lowest bit.
unfoldable pub record_content_matches : Bytes → Bytes → Result Bool
record_content_matches existing candidate = do
  e_flags ← a_flags existing
  c_flags ← a_flags candidate
  if not (e_flags / 2 * 2 == c_flags / 2 * 2) then ok false else (do
    e_version ← a_version existing
    c_version ← a_version candidate
    if not (e_version == c_version) then ok false else (do
      e_rest ← extract existing 2 144
      c_rest ← extract candidate 2 144
      ok (bytes_eq e_rest c_rest)))

unfoldable pub a_matches_block_number : Bytes → ℕ → Result Bool
a_matches_block_number a block_number = do n ← a_block_number a; ok (n == block_number)
