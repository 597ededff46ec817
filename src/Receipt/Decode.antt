-- ===== src/Receipt/Decode.antt =====
-- contracts/receipt/decode.py: the body of a receipt, and one of its logs.
use eth_avm_light_client.Prelude.{ℕ, zero, suc, ◌+◌, ◌-◌, ◌++◌, [], leb, ltb, ◌==◌, if◌then◌else◌}
use eth_avm_light_client.Avm.{Bytes, Result, ok, ◌>>=◌, ◌>>◌, assert, u64, btoi, bzero, Hashes}
use eth_avm_light_client.Rlp.Core.{rlp_item_header, rlp_list_header}
use eth_avm_light_client.Rlp.Scan.{rlp_bytes, rlp_scan, rlp_scan_n, rlp_table_item}
use eth_avm_light_client.Rlp.Envelope.{receipt_envelope}

abbrev pub max_logs_t1t2 : ℕ
max_logs_t1t2 = 64

-- The type, the status, the gas used in 8 bytes, the table of the logs and their number.
unfoldable pub mpt7_receipt_body : Bytes → ℕ → ℕ → Result (ℕ × ℕ × Bytes × Bytes × ℕ)
mpt7_receipt_body node value_off value_len = do
  assert (leb 1 value_len) "L1"
  (tx_type, p_off, _) ← receipt_envelope node value_off value_len
  (payload_off, payload_end) ← rlp_list_header node p_off
  (o0, l0, _) ← rlp_item_header node payload_off
  e0 ← u64 (o0 + l0)
  (o1, l1, _) ← rlp_item_header node e0
  e1 ← u64 (o1 + l1)
  (o2, l2, _) ← rlp_item_header node e1
  e2 ← u64 (o2 + l2)
  (o3, l3, _) ← rlp_item_header node e2
  e3 ← u64 (o3 + l3)
  assert (e3 == payload_end) "L2"
  assert (leb l1 8) "L21"
  status ← (if l0 == 0 then ok 0 else (rlp_bytes node o0 l0 >>= btoi))
  gas ← rlp_bytes node o1 l1
  (logs_table, n_logs) ← rlp_scan_n node o3 max_logs_t1t2
  ok (tx_type, status, bzero (8 - l1) ++ gas, logs_table, n_logs)

-- The topics left, from topic `i` on, behind those found.
unfoldable pub topics_loop : ℕ → ℕ → Bytes → Bytes → ℕ → Bytes → Result Bytes
topics_loop zero i node topics_table n_topics topics = ok topics
topics_loop (suc m) i node topics_table n_topics topics = do
  topic ←
      (if ltb i n_topics
        then (do
          (to, tl, _) ← rlp_table_item node topics_table i
          assert (tl == 32) "L6"
          rlp_bytes node to 32)
        else ok (bzero 32))
  topics_loop m (i + 1) node topics_table n_topics (topics ++ topic)

-- The address, the number of topics, the topics in 128 bytes, the hash of the data and its length.
unfoldable pub mpt7_log_at : Hashes → Bytes → Bytes → ℕ → Result (Bytes × ℕ × Bytes × Bytes × ℕ)
mpt7_log_at h node logs_table log_index = do
  (log_off, _, _) ← rlp_table_item node logs_table log_index
  (log_table, log_n) ← rlp_scan node log_off
  assert (log_n == 3) "L3"
  (a_off, a_len, _) ← rlp_table_item node log_table 0
  assert (a_len == 20) "L4"
  address ← rlp_bytes node a_off 20
  (t_off, _, _) ← rlp_table_item node log_table 1
  (topics_table, n_topics) ← rlp_scan node t_off
  assert (leb n_topics 4) "L5"
  topics128 ← topics_loop 4 0 node topics_table n_topics []
  (d_off, d_len, _) ← rlp_table_item node log_table 2
  bytes ← rlp_bytes node d_off d_len
  ok (address, n_topics, topics128, h.keccak256 bytes, d_len)
