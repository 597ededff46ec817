-- ===== src/Receipt/State/Fields.antt =====
-- What a result keeps when it becomes final.
use eth_avm_light_client.Prelude.{
  ℕ, suc, ◌%◌, ◌≤◌, ◌≡◌, refl, sym, ap, subst, ◌∙◌, length, ◌==◌, arith,
}
use eth_avm_light_client.Prelude.Slices.{
  slice, splice, length-splice, slice-splice_before, slice-splice_after,
}
use eth_avm_light_client.Avm.{Bytes, ok, replace, getbyte, byte1, be}
use eth_avm_light_client.Avm.Results.{assert-eq-ok, >>=-eq-ok}
use eth_avm_light_client.Mpt.State.Fields.{
  replace-eq-ok, getbyte-splice_front, getbyte-splice_later,
}
use eth_avm_light_client.Receipt.State.{Terminal, r_rstatus, r_with_terminal}

-- The root of the receipts, the index of the transaction and that of the log.
pub record Kept (r r' : Bytes) : Type 0 where
  pub size : length r' ≡ length r
  pub receipts_root : slice r' 1 32 ≡ slice r 1 32
  pub tx_index : slice r' 33 8 ≡ slice r 33 8
  pub log_index : slice r' 41 2 ≡ slice r 41 2

pub Kept-refl : (r : Bytes) → Kept r r
Kept-refl r = record { size = refl; receipts_root = refl; tx_index = refl; log_index = refl }

pub Kept-trans : {a b c : Bytes} → Kept a b → Kept b c → Kept a c
Kept-trans f g = record {
  size = g.size ∙ f.size;
  receipts_root = g.receipts_root ∙ f.receipts_root;
  tx_index = g.tx_index ∙ f.tx_index;
  log_index = g.log_index ∙ f.log_index;
}

front-Kept : (r : Bytes) (s : ℕ) → Kept r (splice r 0 (byte1 s))
front-Kept r s = record {
  size = length-splice r 0 (byte1 s);
  receipts_root = slice-splice_after r 0 1 32 (byte1 s) (omega arith);
  tx_index = slice-splice_after r 0 33 8 (byte1 s) (omega arith);
  log_index = slice-splice_after r 0 41 2 (byte1 s) (omega arith);
}

-- A write behind the three, which also keeps the status.
record Behind (r r' : Bytes) : Type 0 where
  kept : Kept r r'
  rstatus : r_rstatus r' ≡ r_rstatus r

Behind-then : {a b c : Bytes} → Behind a b → Behind b c → Behind a c
Behind-then f g = record { kept = Kept-trans f.kept g.kept; rstatus = g.rstatus ∙ f.rstatus }

replace-Behind :
    (r : Bytes) (i : ℕ) (b : Bytes) {r' : Bytes}
    → 43 ≤ suc i
    → replace r (suc i) b ≡ ok r'
    → Behind r r'
unfolding r_rstatus
replace-Behind r i b {r'} lo e =
    let is : r' ≡ splice r (suc i) b = (replace-eq-ok r (suc i) b e).1 in
    record {
      kept = record {
        size = ap length is ∙ length-splice r (suc i) b;
        receipts_root =
            ap (λ x. slice x 1 32) is ∙ slice-splice_before r (suc i) 1 32 b (omega arith);
        tx_index = ap (λ x. slice x 33 8) is ∙ slice-splice_before r (suc i) 33 8 b (omega arith);
        log_index = ap (λ x. slice x 41 2) is ∙ slice-splice_before r (suc i) 41 2 b (omega arith);
      };
      rstatus = ap (λ x. getbyte x 0) is ∙ getbyte-splice_later r i b;
    }

pub record Ended (r r' : Bytes) (t : Terminal) : Type 0 where
  pub kept : Kept r r'
  pub rstatus : r_rstatus r' ≡ ok (t.rstatus % 256)

pub r_with_terminal-Ended :
    (r : Bytes) (t : Terminal) {r' : Bytes} → r_with_terminal r t ≡ ok r' → Ended r r' t
unfolding r_with_terminal r_rstatus
r_with_terminal-Ended r t {r'} e =
    let (_, e1) = assert-eq-ok (length t.cum_gas == 8) "L20" _ e in
    let (_, e2) = assert-eq-ok (length t.address == 20) "L20" _ e1 in
    let (_, e3) = assert-eq-ok (length t.topics == 128) "L20" _ e2 in
    let (_, e4) = assert-eq-ok (length t.data_hash == 32) "L20" _ e3 in
    let (r1, p1, f1) = >>=-eq-ok (replace r 0 (byte1 t.rstatus)) _ e4 in
    let (r2, p2, f2) = >>=-eq-ok (replace r1 43 (byte1 t.tx_type)) _ f1 in
    let (r3, p3, f3) = >>=-eq-ok (replace r2 44 (byte1 t.status)) _ f2 in
    let (r4, p4, f4) = >>=-eq-ok (replace r3 45 t.cum_gas) _ f3 in
    let (r5, p5, f5) = >>=-eq-ok (replace r4 53 t.address) _ f4 in
    let (r6, p6, f6) = >>=-eq-ok (replace r5 73 (byte1 t.n_topics)) _ f5 in
    let (r7, p7, f7) = >>=-eq-ok (replace r6 74 t.topics) _ f6 in
    let (r8, p8, f8) = >>=-eq-ok (replace r7 202 t.data_hash) _ f7 in
    let (r9, p9, f9) = >>=-eq-ok (replace r8 234 (be 4 t.data_len)) _ f8 in
    let (r10, p10, f10) = >>=-eq-ok (replace r9 238 (byte1 t.wstatus)) _ f9 in
    let (fits, is) = replace-eq-ok r 0 (byte1 t.rstatus) p1 in
    let first : Kept r r1 = subst (Kept r) (sym is) (front-Kept r t.rstatus) in
    let b : Behind r1 r' = Behind-then (replace-Behind r1 42 (byte1 t.tx_type) (omega arith) p2) (
      Behind-then (replace-Behind r2 43 (byte1 t.status) (omega arith) p3) (
        Behind-then (replace-Behind r3 44 t.cum_gas (omega arith) p4) (
          Behind-then (replace-Behind r4 52 t.address (omega arith) p5) (
            Behind-then (replace-Behind r5 72 (byte1 t.n_topics) (omega arith) p6) (
              Behind-then (replace-Behind r6 73 t.topics (omega arith) p7) (
                Behind-then (replace-Behind r7 201 t.data_hash (omega arith) p8) (
                  Behind-then (replace-Behind r8 233 (be 4 t.data_len) (omega arith) p9) (
                    Behind-then (replace-Behind r9 237 (byte1 t.wstatus) (omega arith) p10)
                      (replace-Behind r10 238 (byte1 t.n_logs) (omega arith) f10))))))))) in
    record {
      kept = Kept-trans first b.kept;
      rstatus =
          b.rstatus ∙ ap (λ x. getbyte x 0) is ∙ getbyte-splice_front r t.rstatus (omega arith);
    }
