-- ===== src/SyncCommittee/Verifier/Sessions/Opening.antt =====
-- The calls that open an installation session and fill it (contracts/sync_committee/verifier.py).
use eth_avm_light_client.Prelude.{ℕ, ◌≡◌, sym, ap, subst, ◌∙◌, arith, ◌==◌, ==_iff}
use eth_avm_light_client.Avm.{Bytes, ok, Hashes}
use eth_avm_light_client.Avm.Results.{assert-eq-ok, >>=-eq-ok, ok_inj}
use eth_avm_light_client.Avm.Store.{box_create-other}
use eth_avm_light_client.Bls.Curve.{Curve}
use eth_avm_light_client.SyncCommittee.Install.{
  session_box_name, install_open_key_boxes, install_open_session_box, install_process_chunk,
}
use eth_avm_light_client.SyncCommittee.Install.Names.{
  session_box_name-apart, session_box_name-key, create_key_boxes-other, install_process_chunk-other,
}
use eth_avm_light_client.SyncCommittee.Install.Committee.Held.{Holds, opened-Holds, chunk-Holds}
use eth_avm_light_client.SyncCommittee.Verifier.{
  Verifier, install_open_keys, install_open_session, install_chunk,
}
use eth_avm_light_client.SyncCommittee.Verifier.Generations.{Ordered}
use eth_avm_light_client.SyncCommittee.Verifier.Sessions.Sound.{IsSound}

module _ (h : Hashes) (c : Curve) where
  pub keys-IsSound :
      (s : Verifier) {t : Verifier}
      → Ordered t
      → IsSound h c s
      → install_open_keys s ≡ ok t
      → IsSound h c t
  unfolding install_open_keys install_open_key_boxes
  keys-IsSound s {t} o i e =
      let (now, e1) =
        assert-eq-ok (s.inst_state == 1) "no validated install session in flight" _ e in
      let (b, made, e2) = >>=-eq-ok (install_open_key_boxes s.inst_gen s.boxes) _ e1 in
      let state : s.inst_state ≡ 1 = (==_iff s.inst_state 1).0 now in
      let same : (g : ℕ) → b (session_box_name g) ≡ s.boxes (session_box_name g) = λ g.
        create_key_boxes-other s.inst_gen (session_box_name g) (session_box_name-key g s.inst_gen) 8
          0 s.boxes made in
      let (none_yet, zero_cursor) = i.waiting (omega arith) (omega arith) in
      let q = ok_inj e2 in
      let n : s.gen_counter ≡ t.gen_counter = ap (λ x. x.gen_counter) q in
      record {
        ordered = o;
        unopened = λ g above fits.
            ap (λ x. x.boxes (session_box_name g)) (sym q)
            ∙ same g
            ∙ i.unopened g (omega arith) fits;
        waiting = λ lo hi. (
          ap (λ x. x.boxes (session_box_name x.inst_gen)) (sym q) ∙ same s.inst_gen ∙ none_yet,
          ap (λ x. x.inst_cursor) (sym q) ∙ zero_cursor,
        );
        filling =
            λ three. let two : 2 ≡ t.inst_state = ap (λ x. x.inst_state) q in absurd (omega arith);
      }

  pub session-IsSound :
      (s : Verifier) {t : Verifier}
      → Ordered t
      → IsSound h c s
      → install_open_session s ≡ ok t
      → IsSound h c t
  unfolding install_open_session install_open_session_box
  session-IsSound s {t} o i e =
      let (now, e1) = assert-eq-ok (s.inst_state == 2) "no box-opening phase in flight" _ e in
      let (b, made, e2) = >>=-eq-ok (install_open_session_box s.inst_gen s.boxes) _ e1 in
      let state : s.inst_state ≡ 2 = (==_iff s.inst_state 2).0 now in
      let (none_yet, zero_cursor) = i.waiting (omega arith) (omega arith) in
      let q = ok_inj e2 in
      let n : s.gen_counter ≡ t.gen_counter = ap (λ x. x.gen_counter) q in
      let old = i.ordered in
      record {
        ordered = o;
        unopened = λ g above fits.
            ap (λ x. x.boxes (session_box_name g)) (sym q)
            ∙ box_create-other (session_box_name s.inst_gen) 424 s.boxes (session_box_name g)
                (session_box_name-apart g s.inst_gen fits
                  (omega (arith, old.counter, old.inst_below))
                  (λ w. let below = old.inst_below in absurd (omega arith)))
                made
            ∙ i.unopened g (omega arith) fits;
        waiting = λ lo hi.
            let three : 3 ≡ t.inst_state = ap (λ x. x.inst_state) q in absurd (omega arith);
        filling = λ three.
            subst (λ x. Holds h c x.inst_gen x.inst_cursor x.boxes) q
              (subst (λ k. Holds h c s.inst_gen k b) (sym zero_cursor)
                (opened-Holds h c s.inst_gen s.boxes none_yet made));
      }

  pub chunk-IsSound :
      (k : ℕ) (a b : Bytes) (s : Verifier) {t : Verifier}
      → Ordered t
      → IsSound h c s
      → install_chunk h c k a b s ≡ ok t
      → IsSound h c t
  unfolding install_chunk
  chunk-IsSound k a b s {t} o i e =
      let (now, e1) = assert-eq-ok (s.inst_state == 3) "no install session in flight" _ e in
      let (_, e2) = assert-eq-ok (k == s.inst_cursor) "index must equal the session cursor" _ e1 in
      let ((end, b'), done, e3) =
        >>=-eq-ok (install_process_chunk h c s.inst_gen s.inst_cursor a b s.boxes) _ e2 in
      let state : s.inst_state ≡ 3 = (==_iff s.inst_state 3).0 now in
      let q = ok_inj e3 in
      let n : s.gen_counter ≡ t.gen_counter = ap (λ x. x.gen_counter) q in
      let same : s.inst_state ≡ t.inst_state = ap (λ x. x.inst_state) q in
      let old = i.ordered in
      record {
        ordered = o;
        unopened = λ g above fits.
            ap (λ x. x.boxes (session_box_name g)) (sym q)
            ∙ install_process_chunk-other s.inst_gen (session_box_name g)
                (session_box_name-key g s.inst_gen) h c s.inst_cursor a b s.boxes
                (session_box_name-apart g s.inst_gen fits
                  (omega (arith, old.counter, old.inst_below))
                  (λ w. let below = old.inst_below in absurd (omega arith)))
                done
            ∙ i.unopened g (omega arith) fits;
        waiting = λ lo hi. absurd (omega arith);
        filling = λ three.
            subst (λ x. Holds h c x.inst_gen x.inst_cursor x.boxes) q
              (chunk-Holds h c s.inst_gen s.inst_cursor a b s.boxes (i.filling state) done);
      }
