-- ===== src/Receipt/State.antt =====
-- contracts/receipt/state.py: the result R, a buffer of 240 bytes.
pub mod Fields
use eth_avm_light_client.Prelude.{ℕ, ◌++◌, leb, ◌==◌, length}
use eth_avm_light_client.Avm.{
  Bytes, Result, ok, ◌>>=◌, ◌>>◌, assert, getbyte, extract, replace, extract_uint16, bzero, byte1,
  be2, be, itob, btoi,
}

abbrev pub r_incomplete : ℕ
r_incomplete = 0

abbrev pub r_included : ℕ
r_included = 1

abbrev pub r_absent : ℕ
r_absent = 2

abbrev pub r_no_such_log : ℕ
r_no_such_log = 3

abbrev pub r_zero_logs : ℕ
r_zero_logs = 4

abbrev pub r_len : ℕ
r_len = 240

unfoldable pub r_rstatus : Bytes → Result ℕ
r_rstatus r = getbyte r 0

unfoldable pub r_receipts_root : Bytes → Result Bytes
r_receipts_root r = extract r 1 32

unfoldable pub r_tx_index : Bytes → Result ℕ
r_tx_index r = extract r 33 8 >>= btoi

unfoldable pub r_log_index : Bytes → Result ℕ
r_log_index r = extract_uint16 r 41

unfoldable pub r_tx_type : Bytes → Result ℕ
r_tx_type r = getbyte r 43

unfoldable pub r_status : Bytes → Result ℕ
r_status r = getbyte r 44

unfoldable pub r_cumulative_gas_used : Bytes → Result ℕ
r_cumulative_gas_used r = extract r 45 8 >>= btoi

unfoldable pub r_address : Bytes → Result Bytes
r_address r = extract r 53 20

unfoldable pub r_n_topics : Bytes → Result ℕ
r_n_topics r = getbyte r 73

unfoldable pub r_topics : Bytes → Result Bytes
r_topics r = extract r 74 128

unfoldable pub r_data_hash : Bytes → Result Bytes
r_data_hash r = extract r 202 32

unfoldable pub r_data_len : Bytes → Result ℕ
r_data_len r = extract r 234 4 >>= btoi

unfoldable pub r_wstatus : Bytes → Result ℕ
r_wstatus r = getbyte r 238

unfoldable pub r_n_logs : Bytes → Result ℕ
r_n_logs r = getbyte r 239

unfoldable pub mpt7_init_result : Bytes → ℕ → ℕ → Result Bytes
mpt7_init_result receipts_root tx_index log_index = do
  assert (length receipts_root == 32) "L20"
  assert (leb tx_index 0xFFFFFF) "L20"
  assert (leb log_index 0xFFFF) "L20"
  ok (
      byte1 r_incomplete
      ++ (receipts_root
          ++ (itob tx_index
              ++ (be2 log_index
                  ++ (byte1 0
                      ++ (byte1 0
                          ++ (bzero 8
                              ++ (bzero 20
                                  ++ (byte1 0
                                      ++ (bzero 128
                                          ++ (bzero 32
                                              ++ (bzero 4 ++ (byte1 0 ++ byte1 0)))))))))))))

unfoldable pub r_with_rstatus : Bytes → ℕ → Result Bytes
r_with_rstatus r rstatus = replace r 0 (byte1 rstatus)

-- The fields that are written once, when the result becomes final. `be 4` is the lower half of itob.
pub record Terminal : Type 0 where
  pub rstatus : ℕ
  pub wstatus : ℕ
  pub tx_type : ℕ
  pub status : ℕ
  pub cum_gas : Bytes
  pub address : Bytes
  pub n_topics : ℕ
  pub topics : Bytes
  pub data_hash : Bytes
  pub data_len : ℕ
  pub n_logs : ℕ

unfoldable pub r_with_terminal : Bytes → Terminal → Result Bytes
r_with_terminal r t = do
  assert (length (t.cum_gas) == 8) "L20"
  assert (length (t.address) == 20) "L20"
  assert (length (t.topics) == 128) "L20"
  assert (length (t.data_hash) == 32) "L20"
  r1 ← replace r 0 (byte1 (t.rstatus))
  r2 ← replace r1 43 (byte1 (t.tx_type))
  r3 ← replace r2 44 (byte1 (t.status))
  r4 ← replace r3 45 (t.cum_gas)
  r5 ← replace r4 53 (t.address)
  r6 ← replace r5 73 (byte1 (t.n_topics))
  r7 ← replace r6 74 (t.topics)
  r8 ← replace r7 202 (t.data_hash)
  r9 ← replace r8 234 (be 4 (t.data_len))
  r10 ← replace r9 238 (byte1 (t.wstatus))
  replace r10 239 (byte1 (t.n_logs))
