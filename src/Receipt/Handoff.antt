-- ===== src/Receipt/Handoff.antt =====
-- contracts/receipt/handoff.py: the walk state and the result, from an earlier call of the group.
pub mod Results
use eth_avm_light_client.Prelude.{
  ℕ, List, ltb, not, ◌==◌, ◌++◌, [], ◌∷◌, length, bytes_eq, get_elem?,
}
use eth_avm_light_client.Avm.{Bytes, Result, ok, ◌>>=◌, ◌>>◌, assert, extract, be2}
use eth_avm_light_client.Avm.Group.{Call, call_or_panic}
use eth_avm_light_client.Mpt.State.{w_len}
use eth_avm_light_client.Mpt.Handoff.{arc4_return_prefix}
use eth_avm_light_client.Receipt.State.{
  r_len, r_incomplete, r_rstatus, r_receipts_root, r_tx_index, r_log_index, r_address, r_n_topics,
  r_topics, r_data_hash, r_data_len, r_status, r_tx_type,
}

-- "RCP1"
abbrev pub segment_selector : Bytes
segment_selector = 82 ∷ 67 ∷ 80 ∷ 49 ∷ []

abbrev pub log_len_m7 : ℕ
log_len_m7 = 347

unfoldable pub mpt7_log_state : Bytes → Bytes → Result Bytes
mpt7_log_state w r = do
  assert (length w == w_len) "L19"
  assert (length r == r_len) "L19"
  ok (arc4_return_prefix ++ (be2 341 ++ (w ++ r)))

-- What a consumer reads of a final result.
pub record Verdict : Type 0 where
  pub rstatus : ℕ
  pub address : Bytes
  pub n_topics : ℕ
  pub topics : Bytes
  pub data_hash : Bytes
  pub data_len : ℕ
  pub status : ℕ
  pub tx_type : ℕ

-- `group` holds the calls of the group, `group_index` and `app_id` are the caller's own.
module _ (group : List Call) (group_index app_id : ℕ) where
  unfoldable pub mpt7_state_from_prev : ℕ → Result (Bytes × Bytes)
  mpt7_state_from_prev gi = do
    assert (ltb gi group_index) "L11"
    prev ← call_or_panic (get_elem? group gi)
    assert (prev.app_id == app_id) "L11"
    assert (bytes_eq (prev.app_arg_0) segment_selector) "L11"
    assert (length (prev.last_log) == log_len_m7) "L19"
    prefix ← extract (prev.last_log) 0 4
    assert (bytes_eq prefix arc4_return_prefix) "L19"
    w ← extract (prev.last_log) 6 w_len
    r ← extract (prev.last_log) 107 r_len
    ok (w, r)

  unfoldable pub read_verdict : Bytes → Result Verdict
  read_verdict r = do
    rstatus ← r_rstatus r
    address ← r_address r
    n_topics ← r_n_topics r
    topics ← r_topics r
    data_hash ← r_data_hash r
    data_len ← r_data_len r
    status ← r_status r
    tx_type ← r_tx_type r
    ok (record {
      rstatus = rstatus;
      address = address;
      n_topics = n_topics;
      topics = topics;
      data_hash = data_hash;
      data_len = data_len;
      status = status;
      tx_type = tx_type;
    })

  unfoldable pub mpt7_result_from_group : ℕ → Bytes → ℕ → ℕ → Result Verdict
  mpt7_result_from_group gi want_receipts_root want_tx_index want_log_index = do
    (w, r) ← mpt7_state_from_prev gi
    rstatus ← r_rstatus r
    assert (not (rstatus == r_incomplete)) "L10"
    receipts_root ← r_receipts_root r
    assert (bytes_eq receipts_root want_receipts_root) "L11"
    tx_index ← r_tx_index r
    assert (tx_index == want_tx_index) "L11"
    log_index ← r_log_index r
    assert (log_index == want_log_index) "L11"
    read_verdict r
