-- ===== src/Receipt/App.antt =====
-- contracts/receipt/bench_app.py: the driver of a receipt walk over the calls of a group.
pub mod Walks
use eth_avm_light_client.Prelude.{
  ℕ, List, [], ◌∷◌, ◌*◌, Bool, Option, none, some, ◌==◌, ◌||◌, leb, length, bytes_eq, get_elem?,
  drop, if◌then◌else◌,
}
use eth_avm_light_client.Avm.{
  Bytes, Result, ok, ◌>>=◌, ◌>>◌, assert, btoi, bzero, extract, extract_uint16, Hashes,
}
use eth_avm_light_client.Avm.Group.{Call}
use eth_avm_light_client.Avm.Store.{Store, value_or_panic}
use eth_avm_light_client.Mpt.State.{
  walk_continue, walk_included, walk_absent_empty_slot, walk_absent_ext_diverge,
  walk_absent_leaf_diverge, walk_absent_branch_term, w_status, mpt_init_state,
}
use eth_avm_light_client.Mpt.Keys.{mpt_key_from_tx_index}
use eth_avm_light_client.Mpt.Walk.{mpt_walk_node}
use eth_avm_light_client.Receipt.State.{
  Terminal, r_included, r_absent, r_no_such_log, r_zero_logs, r_incomplete, r_rstatus, r_log_index,
  mpt7_init_result, r_with_terminal,
}
use eth_avm_light_client.Receipt.Decode.{mpt7_receipt_body, mpt7_log_at}
use eth_avm_light_client.Receipt.Box.{
  mpt7_stage_open, mpt7_stage_write, mpt7_stage_read, mpt7_stage_close,
}
use eth_avm_light_client.Receipt.Handoff.{segment_selector, mpt7_log_state, mpt7_state_from_prev}

-- A final result without a log.
unfoldable pub without_log : ℕ → ℕ → ℕ → ℕ → Bytes → ℕ → Terminal
without_log rstatus wstatus tx_type status cum_gas n_logs = record {
  rstatus = rstatus;
  wstatus = wstatus;
  tx_type = tx_type;
  status = status;
  cum_gas = cum_gas;
  address = bzero 20;
  n_topics = 0;
  topics = bzero 128;
  data_hash = bzero 32;
  data_len = 0;
  n_logs = n_logs;
}

unfoldable pub is_absent : ℕ → Bool
is_absent status =
    status == walk_absent_empty_slot
    || (status == walk_absent_ext_diverge
        || (status == walk_absent_leaf_diverge || status == walk_absent_branch_term))

module _ (h : Hashes) where
  -- The arm of an included leaf.
  unfoldable pub finalize_included : ℕ → Bytes → Bytes → ℕ → ℕ → Result Bytes
  finalize_included status r node value_off value_len = do
    (tx_type, rstat, cum_gas8, logs_table, n_logs) ← mpt7_receipt_body node value_off value_len
    log_index ← r_log_index r
    if n_logs == 0
        then r_with_terminal r (without_log r_zero_logs status tx_type rstat cum_gas8 n_logs)
        else if leb n_logs log_index
        then r_with_terminal r (without_log r_no_such_log status tx_type rstat cum_gas8 n_logs)
        else (do
          (address, n_topics, topics128, data_hash, data_len) ←
              mpt7_log_at h node logs_table log_index
          r_with_terminal r (record {
            rstatus = r_included;
            wstatus = status;
            tx_type = tx_type;
            status = rstat;
            cum_gas = cum_gas8;
            address = address;
            n_topics = n_topics;
            topics = topics128;
            data_hash = data_hash;
            data_len = data_len;
            n_logs = n_logs;
          }))

  unfoldable pub finalize_if_terminal : Bytes → Bytes → Bytes → ℕ → ℕ → Result Bytes
  finalize_if_terminal w r node value_off value_len = do
    status ← w_status w
    if status == walk_continue
        then ok r
        else if status == walk_included
        then finalize_included status r node value_off value_len
        else (do
          assert (is_absent status) "L23"
          r_with_terminal r (without_log r_absent status 0 0 (bzero 8) 0))

  -- The nodes are the application arguments from the first node on.
  unfoldable pub walk7 : List Bytes → Bytes → Bytes → Result (Bytes × Bytes)
  walk7 [] r w = ok (w, r)
  walk7 (node ∷ nodes) r w = do
    status ← w_status w
    assert (status == walk_continue) "L12"
    (w', voff, vlen) ← mpt_walk_node h node w
    r' ← finalize_if_terminal w' r node voff vlen
    walk7 nodes r' w'

  unfoldable pub walk_and_log : List Bytes → Bytes → Bytes → Result Bytes
  walk_and_log nodes r w = do (final_w, final_r) ← walk7 nodes r w; mpt7_log_state final_w final_r

  unfoldable pub mode_init : List Bytes → Bytes → Result Bytes
  mode_init nodes fixed = do
    assert (length fixed == 42) "L20"
    receipts_root ← extract fixed 0 32
    tx_index ← extract fixed 32 8 >>= btoi
    log_index ← extract_uint16 fixed 40
    key ← mpt_key_from_tx_index tx_index
    w ← mpt_init_state receipts_root key (length key * 2)
    r ← mpt7_init_result receipts_root tx_index log_index
    walk_and_log nodes r w

  module _ (group : List Call) (group_index app_id : ℕ) where
    unfoldable pub mode_next : List Bytes → ℕ → Result Bytes
    mode_next nodes prev_gi = do
      (w, r) ← mpt7_state_from_prev group group_index app_id prev_gi
      rstatus ← r_rstatus r
      assert (rstatus == r_incomplete) "L22"
      walk_and_log nodes r w

    unfoldable pub mode_stage_walk : Bytes → ℕ → Store → Result (Bytes × Store)
    mode_stage_walk fixed prev_gi boxes = do
      assert (length fixed == 10) "L20"
      name ← extract fixed 0 8
      leaf_len ← extract_uint16 fixed 8
      (w, r) ← mpt7_state_from_prev group group_index app_id prev_gi
      rstatus ← r_rstatus r
      assert (rstatus == r_incomplete) "L22"
      node ← mpt7_stage_read name leaf_len boxes
      (w2, voff, vlen) ← mpt_walk_node h node w
      r2 ← finalize_if_terminal w2 r node voff vlen
      logged ← mpt7_log_state w2 r2
      ok (logged, mpt7_stage_close name boxes)

unfoldable pub mode_stage_open : Bytes → Store → Result Store
mode_stage_open fixed boxes = do
  assert (length fixed == 10) "L20"
  name ← extract fixed 0 8
  leaf_len ← extract_uint16 fixed 8
  mpt7_stage_open name leaf_len boxes

-- The chunk is an application argument.
unfoldable pub mode_stage_write : Bytes → Option Bytes → Store → Result Store
mode_stage_write fixed chunk_arg boxes = do
  assert (length fixed == 10) "L20"
  name ← extract fixed 0 8
  offset ← extract_uint16 fixed 8
  chunk ← value_or_panic chunk_arg
  mpt7_stage_write name offset chunk boxes

-- A call with its application arguments, in an existing application: what it logs, and the boxes
-- after it.
unfoldable pub run_mode :
    Hashes → List Call → ℕ → ℕ → List Bytes → Store → Result (Option Bytes × Store)
run_mode h group group_index app_id [] boxes = ok (none, boxes)
run_mode h group group_index app_id (selector ∷ args) boxes = do
  assert (bytes_eq selector segment_selector) "L11"
  mode ← value_or_panic (get_elem? args 0) >>= btoi
  prev_gi ← value_or_panic (get_elem? args 1) >>= btoi
  if mode == 0
      then (do
        fixed ← value_or_panic (get_elem? args 2)
        logged ← mode_init h (drop 3 args) fixed
        ok (some logged, boxes))
      else if mode == 1
      then (do
        logged ← mode_next h group group_index app_id (drop 3 args) prev_gi
        ok (some logged, boxes))
      else if mode == 2
      then (do
        fixed ← value_or_panic (get_elem? args 2)
        boxes' ← mode_stage_open fixed boxes
        ok (none, boxes'))
      else if mode == 3
      then (do
        fixed ← value_or_panic (get_elem? args 2)
        boxes' ← mode_stage_write fixed (get_elem? args 3) boxes
        ok (none, boxes'))
      else (do
        assert (mode == 4) "L20"
        fixed ← value_or_panic (get_elem? args 2)
        (logged, boxes') ← mode_stage_walk h group group_index app_id fixed prev_gi boxes
        ok (some logged, boxes'))

-- An application that is being created has the id 0.
unfoldable pub approval_program :
    Hashes → Bool → List Call → ℕ → ℕ → List Bytes → Store → Result (Option Bytes × Store)
approval_program h no_op group group_index app_id args boxes = do
  assert no_op "L1"
  if app_id == 0 then ok (none, boxes) else run_mode h group group_index app_id args boxes
