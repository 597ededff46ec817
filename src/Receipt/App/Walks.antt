-- ===== src/Receipt/App/Walks.antt =====
-- The walk of contracts/receipt/bench_app.py, with its result.
use eth_avm_light_client.Prelude.{
  ℕ, ◌%◌, ◌≤◌, ◌<◌, ◌≡◌, ◌⊎◌, inl, inr, refl, sym, ap, subst, ◌∙◌, List, [], ◌∷◌, false, ◌==◌,
  ==_iff, leb, arith,
}
use eth_avm_light_client.Avm.{Bytes, ok, Hashes}
use eth_avm_light_client.Avm.Results.{assert-eq-ok, >>=-eq-ok, if-eq-ok, ok_inj}
use eth_avm_light_client.Mpt.State.{w_status}
use eth_avm_light_client.Mpt.Walk.{mpt_walk_node}
use eth_avm_light_client.Receipt.State.{Terminal, r_rstatus, r_log_index, r_with_terminal}
use eth_avm_light_client.Receipt.State.Fields.{Kept, Kept-refl, r_with_terminal-Ended}
use eth_avm_light_client.Receipt.Decode.{mpt7_receipt_body, mpt7_log_at}
use eth_avm_light_client.Receipt.App.{
  without_log, is_absent, finalize_included, finalize_if_terminal, walk7,
}

-- A final result: included, absent, no such log or no logs.
pub record IsFinal (r : Bytes) : Type 0 where
  pub rstatus : ℕ
  pub is : r_rstatus r ≡ ok rstatus
  pub low : 1 ≤ rstatus
  pub high : rstatus ≤ 4

-- The result goes with the status of the walk: final if the walk has ended, else untouched.
pub record Matches (w r r' : Bytes) : Type 0 where
  pub status : ℕ
  pub status_is : w_status w ≡ ok status
  pub kept : Kept r r'
  pub verdict : ((status ≡ 0) × (r' ≡ r)) ⊎ ((0 < status) × IsFinal r')

record Closed (r r' : Bytes) : Type 0 where
  kept : Kept r r'
  final : IsFinal r'

terminal-Closed :
    (r : Bytes) (t : Terminal) {r' : Bytes}
    → 1 ≤ t.rstatus
    → t.rstatus ≤ 4
    → r_with_terminal r t ≡ ok r'
    → Closed r r'
terminal-Closed r t lo hi e =
    let d = r_with_terminal-Ended r t e in
    record {
      kept = d.kept;
      final = record {
        rstatus = t.rstatus % 256;
        is = d.rstatus;
        low = omega arith;
        high = omega arith;
      };
    }

positive : (n : ℕ) → (n == 0) ≡ false → 0 < n
positive n e = ground arith

module _ (h : Hashes) where
  included-Closed :
      (status : ℕ) (r node : Bytes) (off len : ℕ) {r' : Bytes}
      → finalize_included h status r node off len ≡ ok r'
      → Closed r r'
  unfolding finalize_included without_log
  included-Closed status r node off len {r'} e =
      let ((tx_type, rstat, gas, table, n_logs), _, e1) =
        >>=-eq-ok (mpt7_receipt_body node off len) _ e in
      let (log_index, _, e2) = >>=-eq-ok (r_log_index r) _ e1 in
      elim (if-eq-ok (n_logs == 0) _ _ e2) [
        | inl (_, e3) ↦ terminal-Closed r _ (omega arith) (omega arith) e3
        | inr (_, e3) ↦ elim (if-eq-ok (leb n_logs log_index) _ _ e3) [
          | inl (_, e4) ↦ terminal-Closed r _ (omega arith) (omega arith) e4
          | inr (_, e4) ↦
              let ((address, n, topics, hash, len'), _, e5) =
                >>=-eq-ok (mpt7_log_at h node table log_index) _ e4 in
              terminal-Closed r _ (omega arith) (omega arith) e5
        ]
      ]

  finalize-Matches :
      (w r node : Bytes) (off len : ℕ) {r' : Bytes}
      → finalize_if_terminal h w r node off len ≡ ok r'
      → Matches w r r'
  unfolding finalize_if_terminal without_log
  finalize-Matches w r node off len {r'} e =
      let (status, p, e1) = >>=-eq-ok (w_status w) _ e in
      elim (if-eq-ok (status == 0) _ _ e1) [
        | inl (t, e2) ↦
            let same : r' ≡ r = sym (ok_inj e2) in
            record {
              status = status;
              status_is = p;
              kept = subst (Kept r) (sym same) (Kept-refl r);
              verdict = inl ((==_iff status 0).0 t, same);
            }
        | inr (f, e2) ↦
            let c : Closed r r' = elim (if-eq-ok (status == 1) _ _ e2) [
              | inl (_, e3) ↦ included-Closed status r node off len e3
              | inr (_, e3) ↦
                  let (_, e4) = assert-eq-ok (is_absent status) "L23" _ e3 in
                  terminal-Closed r _ (omega arith) (omega arith) e4
            ] in
            record {
              status = status;
              status_is = p;
              kept = c.kept;
              verdict = inr (positive status f, c.final);
            }
      ]

  -- A walk that has ended takes no further node.
  ended-Matches :
      (nodes : List Bytes) (r w1 r1 : Bytes) {r' w' : Bytes}
      → (m : Matches w1 r r1) → walk7 h nodes r1 w1 ≡ ok (w', r')
      → 0 < m.status
      → Matches w' r r'
  unfolding walk7
  ended-Matches [] r w1 r1 {r'} {w'} m e up =
      let same = ok_inj e in subst (λ x. Matches (x.0) r (x.1)) same m
  ended-Matches (node ∷ nodes) r w1 r1 m e up =
      let (status, p, e1) = >>=-eq-ok (w_status w1) _ e in
      let (t, _) = assert-eq-ok (status == 0) "L12" _ e1 in
      let zero : status ≡ 0 = (==_iff status 0).0 t in
      let same : m.status ≡ status = ok_inj (sym m.status_is ∙ p) in absurd (omega arith)

  -- A walk over nodes that succeeds from a walk state of status 0 keeps, in the result, its length,
  -- the root of the receipts and the indices of the transaction and the log. The result is final,
  -- with a status from 1 to 4, where the walk has ended, and untouched where the walk is still
  -- going on.
  pub walk7-Matches :
      (nodes : List Bytes) (r w : Bytes) {r' w' : Bytes}
      → w_status w ≡ ok 0
      → walk7 h nodes r w ≡ ok (w', r')
      → Matches w' r r'
  unfolding walk7
  walk7-Matches [] r w {r'} {w'} going e =
      let same = ok_inj e in
      let is : r' ≡ r = sym (ap (λ x. x.1) same) in
      record {
        status = 0;
        status_is = ap w_status (sym (ap (λ x. x.0) same)) ∙ going;
        kept = subst (Kept r) (sym is) (Kept-refl r);
        verdict = inl (refl, is);
      }
  walk7-Matches (node ∷ nodes) r w {r'} {w'} going e =
      let (status, p, e1) = >>=-eq-ok (w_status w) _ e in
      let (_, e2) = assert-eq-ok (status == 0) "L12" _ e1 in
      let ((w1, off, len), q, e3) = >>=-eq-ok (mpt_walk_node h node w) _ e2 in
      let (r1, f, e4) = >>=-eq-ok (finalize_if_terminal h w1 r node off len) _ e3 in
      let m = finalize-Matches w1 r node off len f in
      elim m.verdict [
        | inl (on, same) ↦
            let rest = walk7-Matches nodes r1 w1 (m.status_is ∙ ap ok on) e4 in
            subst (λ x. Matches w' x r') same rest
        | inr (off', final) ↦ ended-Matches nodes r w1 r1 m e4 off'
      ]
