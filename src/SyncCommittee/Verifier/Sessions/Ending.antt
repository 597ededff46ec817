-- ===== src/SyncCommittee/Verifier/Sessions/Ending.antt =====
-- The calls that end an installation session, and retire (contracts/sync_committee/verifier.py).
use eth_avm_light_client.Prelude.{
  ℕ, ◌<◌, ◌≡◌, ◌≢◌, refl, sym, ap, subst, ◌∙◌, inl, inr, Bool-cases, arith, ◌==◌,
}
use eth_avm_light_client.Avm.{Bytes, ok, Hashes, u64_mod}
use eth_avm_light_client.Avm.Results.{assert-eq-ok, >>=-eq-ok, ok_inj}
use eth_avm_light_client.Avm.Store.{
  Store, remove-other, box_create, box_create-other, box_replace, box_replace-other,
}
use eth_avm_light_client.Bls.Curve.{Curve}
use eth_avm_light_client.SyncCommittee.Bitfield.{total_box_name}
use eth_avm_light_client.SyncCommittee.Install.{
  session_box_name, install_abort_key_boxes, install_abort_boxes, install_delete_committee_boxes,
  install_process_finalize, delete_key_boxes,
}
use eth_avm_light_client.SyncCommittee.Install.Names.{
  session_box_name-apart, session_box_name-total, session_box_name-key, delete_key_boxes-other,
  install_process_finalize-other,
}
use eth_avm_light_client.SyncCommittee.Install.Committee.Held.{Holds, Holds-boxes}
use eth_avm_light_client.SyncCommittee.Verifier.{
  Verifier, install_finalize, install_abort, abort_boxes, retire, activate, close,
}
use eth_avm_light_client.SyncCommittee.Verifier.Generations.{Ordered}
use eth_avm_light_client.SyncCommittee.Verifier.Keys.{retire-same, activate_boxes}
use eth_avm_light_client.SyncCommittee.Verifier.Sessions.Sound.{IsSound}

module _ (h : Hashes) (c : Curve) where
  -- A call that ends a session.
  pub idle-IsSound :
      (s t : Verifier)
      → Ordered t
      → IsSound h c s
      → t.inst_state ≡ 0
      → t.gen_counter ≡ s.gen_counter
      → ((g : ℕ)
          → s.inst_gen < g
          → g < u64_mod
          → t.boxes (session_box_name g) ≡ s.boxes (session_box_name g))
      → IsSound h c t
  idle-IsSound s t o i idle n same =
      let old = i.ordered in
      record {
        ordered = o;
        unopened = λ g above fits.
            same g (omega (arith, old.inst_below)) fits ∙ i.unopened g (omega arith) fits;
        waiting = λ lo hi. absurd (omega arith);
        filling = λ three. absurd (omega arith);
      }

  pub finalize-idle :
      (a b : Bytes) (s : Verifier) {t : Verifier}
      → install_finalize h c a b s ≡ ok t
      → (t.inst_state ≡ 0) × (t.gen_counter ≡ s.gen_counter)
  unfolding install_finalize close activate
  finalize-idle a b s e = ground arith

  pub finalize-session :
      (a b : Bytes) (s : Verifier) {t : Verifier} (g : ℕ)
      → s.inst_gen < u64_mod
      → install_finalize h c a b s ≡ ok t
      → s.inst_gen < g
      → g < u64_mod
      → t.boxes (session_box_name g) ≡ s.boxes (session_box_name g)
  unfolding install_finalize
  finalize-session a b s g small e above fits =
      let name = total_box_name s.inst_gen in
      let (_, e1) = assert-eq-ok (s.inst_state == 3) "no install session in flight" _ e in
      let ((total, b1), done, e2) =
        >>=-eq-ok (install_process_finalize h c s.inst_gen s.inst_cursor s.inst_root a b s.boxes) _
          e1 in
      let (b2, made, e3) = >>=-eq-ok (box_create name 96 b1) _ e2 in
      let (b3, put_in, e4) = >>=-eq-ok (box_replace name 0 total b2) _ e3 in
      ap (λ x. x.boxes (session_box_name g)) (sym (ok_inj e4))
      ∙ ap (λ x. x (session_box_name g)) (activate_boxes (record s { boxes = b3 }))
      ∙ box_replace-other name 0 total b2 (session_box_name g) (session_box_name-total g s.inst_gen)
          put_in
      ∙ box_create-other name 96 b1 (session_box_name g) (session_box_name-total g s.inst_gen) made
      ∙ install_process_finalize-other h c s.inst_gen (session_box_name g) s.inst_cursor s.inst_root
          a b s.boxes (session_box_name-apart g s.inst_gen fits small (λ w. absurd (omega arith)))
          done

  pub abort-idle :
      (sender : Bytes) (s : Verifier) {t : Verifier}
      → install_abort sender s ≡ ok t
      → (t.inst_state ≡ 0) × (t.gen_counter ≡ s.gen_counter) × (t.boxes ≡ abort_boxes s)
  unfolding install_abort close
  abort-idle sender s e = ground arith

  pub abort-session :
      (s : Verifier) (g : ℕ)
      → s.inst_gen < u64_mod
      → s.inst_gen < g
      → g < u64_mod
      → abort_boxes s (session_box_name g) ≡ s.boxes (session_box_name g)
  unfolding abort_boxes install_abort_key_boxes install_abort_boxes
  abort-session s g small above fits =
      let kept_keys =
        delete_key_boxes-other s.inst_gen (session_box_name g) (session_box_name-key g s.inst_gen) 8
          0 s.boxes in
      elim (Bool-cases (s.inst_state == 2)) [
        | inl opening ↦ rw opening kept_keys
        | inr other ↦ elim (Bool-cases (s.inst_state == 3)) [
          | inl installing ↦
              rw (other, installing)
                (remove-other (session_box_name s.inst_gen)
                    (delete_key_boxes 8 0 s.inst_gen s.boxes) (session_box_name g)
                    (session_box_name-apart g s.inst_gen fits small (λ w. absurd (omega arith)))
                  ∙ kept_keys)
          | inr validated ↦ rw (other, validated) refl
        ]
      ]

  retire-kept :
      (k : ℕ) (s : Verifier) {t : Verifier}
      → retire k s ≡ ok t
      → (t.inst_state ≡ s.inst_state)
        × (t.inst_gen ≡ s.inst_gen)
        × (t.inst_cursor ≡ s.inst_cursor)
        × (t.gen_counter ≡ s.gen_counter)
        × (s.inst_gen ≢ k)
        × (t.boxes ≡ install_delete_committee_boxes k s.boxes)
  unfolding retire
  retire-kept k s e = (
    ground arith,
    ground arith,
    ground arith,
    ground arith,
    λ q. absurd (ground arith),
    ground arith,
  )

  retire-session :
      (k g : ℕ) (boxes : Store)
      → install_delete_committee_boxes k boxes (session_box_name g) ≡ boxes (session_box_name g)
  unfolding install_delete_committee_boxes
  retire-session k g boxes =
      remove-other (total_box_name k) (delete_key_boxes 8 0 k boxes) (session_box_name g)
        (session_box_name-total g k)
      ∙ delete_key_boxes-other k (session_box_name g) (session_box_name-key g k) 8 0 boxes

  pub retire-IsSound :
      (k : ℕ) (s : Verifier) {t : Verifier}
      → k < u64_mod
      → Ordered t
      → IsSound h c s
      → retire k s ≡ ok t
      → IsSound h c t
  retire-IsSound k s {t} small o i e =
      let (state, gen, cursor, counter, ne, b) = retire-kept k s e in
      let old = i.ordered in
      let sess : (g : ℕ) → t.boxes (session_box_name g) ≡ s.boxes (session_box_name g) =
        λ g. ap (λ x. x (session_box_name g)) b ∙ retire-session k g s.boxes in
      record {
        ordered = o;
        unopened = λ g above fits. sess g ∙ i.unopened g (omega arith) fits;
        waiting = λ lo hi.
            let (none_yet, zero_cursor) = i.waiting (omega arith) (omega arith) in
            (
              sess t.inst_gen ∙ ap (λ g. s.boxes (session_box_name g)) gen ∙ none_yet,
              cursor ∙ zero_cursor,
            );
        filling = λ three.
            subst (λ g. Holds h c g t.inst_cursor t.boxes) (sym gen)
              (subst (λ n. Holds h c s.inst_gen n t.boxes) (sym cursor)
                (Holds-boxes h c s.inst_gen s.inst_cursor s.boxes t.boxes
                  (retire-same s.inst_gen s (omega (arith, old.counter, old.inst_below)) k small ne
                    e)
                  (sess s.inst_gen) (i.filling (sym state ∙ three))));
      }
