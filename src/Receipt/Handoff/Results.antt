-- ===== src/Receipt/Handoff/Results.antt =====
-- The results that a consumer takes from its group.
use eth_avm_light_client.Prelude.{
  ℕ, ◌<◌, ◌≡◌, ◌≢◌, ap, ◌∙◌, List, true, not, ltb, ltb→lt, ◌==◌, ==_iff, length, bytes_eq,
  bytes_eq_sound, get_elem?, some, arith,
}
use eth_avm_light_client.Avm.{Bytes, ok, extract}
use eth_avm_light_client.Avm.Results.{assert-eq-ok, >>=-eq-ok, ok_inj}
use eth_avm_light_client.Avm.Group.{Call, call_or_panic, call_or_panic-eq-ok}
use eth_avm_light_client.Mpt.State.{w_len}
use eth_avm_light_client.Mpt.Handoff.{arc4_return_prefix}
use eth_avm_light_client.Receipt.State.{
  r_len, r_incomplete, r_rstatus, r_receipts_root, r_tx_index, r_log_index,
}
use eth_avm_light_client.Receipt.Handoff.{
  segment_selector, log_len_m7, Verdict, mpt7_state_from_prev, read_verdict, mpt7_result_from_group,
}

module _ (group : List Call) (group_index app_id : ℕ) where
  -- What the pair of a walk state and a result comes from.
  pub record Handed (gi : ℕ) (w r : Bytes) : Type 0 where
    pub earlier : gi < group_index
    pub call : Call
    pub from : get_elem? group gi ≡ some call
    pub app : call.app_id ≡ app_id
    pub selector : call.app_arg_0 ≡ segment_selector
    pub state : extract call.last_log 6 w_len ≡ ok w
    pub logged : extract call.last_log 107 r_len ≡ ok r

  state_from_prev-Handed :
      (gi : ℕ) {w r : Bytes}
      → mpt7_state_from_prev group group_index app_id gi ≡ ok (w, r)
      → Handed gi w r
  unfolding mpt7_state_from_prev
  state_from_prev-Handed gi e =
      let (t, e1) = assert-eq-ok (ltb gi group_index) "L11" _ e in
      let (prev, p, e2) = >>=-eq-ok (call_or_panic (get_elem? group gi)) _ e1 in
      let (t2, e3) = assert-eq-ok (prev.app_id == app_id) "L11" _ e2 in
      let (t3, e4) = assert-eq-ok (bytes_eq prev.app_arg_0 segment_selector) "L11" _ e3 in
      let (_, e5) = assert-eq-ok (length prev.last_log == log_len_m7) "L19" _ e4 in
      let (prefix, _, e6) = >>=-eq-ok (extract prev.last_log 0 4) _ e5 in
      let (_, e7) = assert-eq-ok (bytes_eq prefix arc4_return_prefix) "L19" _ e6 in
      let (w, x, e8) = >>=-eq-ok (extract prev.last_log 6 w_len) _ e7 in
      let (r, y, e9) = >>=-eq-ok (extract prev.last_log 107 r_len) _ e8 in
      let same = ok_inj e9 in
      record {
        earlier = ltb→lt gi group_index t;
        call = prev;
        from = call_or_panic-eq-ok (get_elem? group gi) p;
        app = (==_iff prev.app_id app_id).0 t2;
        selector = bytes_eq_sound prev.app_arg_0 segment_selector t3;
        state = x ∙ ap (λ z. ok (z.0)) same;
        logged = y ∙ ap (λ z. ok (z.1)) same;
      }

  -- A result that a consumer accepts: an earlier call has logged it, it is final, and it is about the
  -- receipt and the log that the consumer wants.
  pub record Answered (gi : ℕ) (root : Bytes) (tx_index log_index : ℕ) (v : Verdict) : Type 0 where
    pub walk : Bytes
    pub result : Bytes
    pub handed : Handed gi walk result
    pub rstatus : ℕ
    pub rstatus_is : r_rstatus result ≡ ok rstatus
    pub final : rstatus ≢ 0
    pub root_is : r_receipts_root result ≡ ok root
    pub tx_index_is : r_tx_index result ≡ ok tx_index
    pub log_index_is : r_log_index result ≡ ok log_index
    pub read : read_verdict group group_index app_id result ≡ ok v

  not_zero : (n : ℕ) → not (n == 0) ≡ true → n ≢ 0
  not_zero n t = ground arith

  -- A result that a consumer takes from its group is logged by an earlier call of the group, to the
  -- same application and by the segment selector; it is final, and it is about the root, the
  -- transaction and the log that the consumer wants.
  pub result_from_group-Answered :
      (gi : ℕ) (root : Bytes) (tx_index log_index : ℕ) {v : Verdict}
      → mpt7_result_from_group group group_index app_id gi root tx_index log_index ≡ ok v
      → Answered gi root tx_index log_index v
  unfolding mpt7_result_from_group
  result_from_group-Answered gi root tx_index log_index e =
      let ((w, r), p, e1) = >>=-eq-ok (mpt7_state_from_prev group group_index app_id gi) _ e in
      let (s, q, e2) = >>=-eq-ok (r_rstatus r) _ e1 in
      let (t, e3) = assert-eq-ok (not (s == r_incomplete)) "L10" _ e2 in
      let (root', x, e4) = >>=-eq-ok (r_receipts_root r) _ e3 in
      let (t1, e5) = assert-eq-ok (bytes_eq root' root) "L11" _ e4 in
      let (tx', y, e6) = >>=-eq-ok (r_tx_index r) _ e5 in
      let (t2, e7) = assert-eq-ok (tx' == tx_index) "L11" _ e6 in
      let (log', z, e8) = >>=-eq-ok (r_log_index r) _ e7 in
      let (t3, e9) = assert-eq-ok (log' == log_index) "L11" _ e8 in
      record {
        walk = w;
        result = r;
        handed = state_from_prev-Handed gi p;
        rstatus = s;
        rstatus_is = q;
        final = not_zero s t;
        root_is = x ∙ ap ok (bytes_eq_sound root' root t1);
        tx_index_is = y ∙ ap ok ((==_iff tx' tx_index).0 t2);
        log_index_is = z ∙ ap ok ((==_iff log' log_index).0 t3);
        read = e9;
      }
