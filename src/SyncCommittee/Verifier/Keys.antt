-- ===== src/SyncCommittee/Verifier/Keys.antt =====
-- The keys of the committee in use do not change (contracts/sync_committee/verifier.py).
pub mod Untouched
use eth_avm_light_client.Prelude.{
  ℕ, ◌<◌, ◌≡◌, ◌≢◌, refl, sym, ap, subst, ◌∙◌, inl, inr, Bool, Bool-cases, true, false, not, Option,
  arith, bytes_eq, ◌==◌, ◌||◌, if◌then◌else◌,
}
use eth_avm_light_client.Avm.{Bytes, ok, Hashes, u64_mod}
use eth_avm_light_client.Avm.Results.{assert-eq-ok, >>=-eq-ok, ok_inj}
use eth_avm_light_client.Avm.Store.{
  remove-other, box_create, box_create-other, box_replace, box_replace-other,
}
use eth_avm_light_client.Bls.Curve.{Curve}
use eth_avm_light_client.SyncCommittee.Bitfield.{key_box_name, total_box_name}
use eth_avm_light_client.SyncCommittee.Install.{
  session_box_name, install_open_key_boxes, install_open_session_box, install_abort_key_boxes,
  install_abort_boxes, install_delete_committee_boxes, install_process_chunk,
  install_process_finalize, delete_key_boxes,
}
use eth_avm_light_client.SyncCommittee.Install.Names.{
  key_box_name-apart, key_box_name-session, key_box_name-total, create_key_boxes-other,
  delete_key_boxes-other, install_process_chunk-other, install_process_finalize-other,
}
use eth_avm_light_client.SyncCommittee.Verifier.{
  Verifier, append_fork_row, bootstrap, install_begin, install_open_keys, install_open_session,
  install_chunk, install_finalize, install_abort, abort_boxes, retire, reserve, activate, close,
}
use eth_avm_light_client.SyncCommittee.Verifier.Update.{
  Arguments, Checked, UpdateVerified, rollover,
}
use eth_avm_light_client.SyncCommittee.Verifier.Effects.{
  Discovered, kept, found, Applied, stays, advanced, submit_update-Accepted,
}
use eth_avm_light_client.SyncCommittee.Verifier.Generations.{Ordered}
use eth_avm_light_client.SyncCommittee.Verifier.Steps.{
  Step, appends, bootstraps, begins, opens_keys, opens_session, chunks, finalizes, aborts, retires,
  updates,
}
use eth_avm_light_client.SyncCommittee.Verifier.Keys.Untouched.{
  SameKeys, append-boxes, bootstrap-boxes, begin-boxes, Discovered-boxes, Applied-boxes, keys-same,
  session-same, chunk-same, abort-same,
}

module _ (g : ℕ) (s : Verifier) (fits : g < u64_mod) where
  pub retire-same :
      (k : ℕ) {t : Verifier} → k < u64_mod → g ≢ k → retire k s ≡ ok t → SameKeys g s t
  unfolding retire install_delete_committee_boxes
  retire-same k small ne e i =
      let (_, e1) = assert-eq-ok (not (k == 0)) "generation 0 is never a real committee" _ e in
      let (_, e2) = assert-eq-ok (not (k == s.cur_gen)) "generation is the active committee" _ e1 in
      let (_, e3) =
        assert-eq-ok (not (k == s.next_gen)) "generation is the staged next committee" _ e2 in
      let (_, e4) =
        assert-eq-ok (not (k == s.inst_gen)) "generation has an install session in flight" _ e3 in
      ap (λ x. x.boxes (key_box_name g i)) (sym (ok_inj e4))
      ∙ remove-other (total_box_name k) (delete_key_boxes 8 0 k s.boxes) (key_box_name g i)
          (key_box_name-total g k i)
      ∙ delete_key_boxes-other k (key_box_name g i) (λ j. key_box_name-apart g k i j fits small ne)
          8 0 s.boxes

pub activate_boxes : (s : Verifier) → (close (activate s)).boxes ≡ s.boxes
unfolding close activate
activate_boxes s = ground arith

-- A finalize writes no key.
pub finalize-same :
    (h : Hashes) (c : Curve) (g : ℕ) (a b : Bytes) (s : Verifier) {t : Verifier}
    → install_finalize h c a b s ≡ ok t
    → SameKeys g s t
unfolding install_finalize
finalize-same h c g a b s e i =
    let name = total_box_name s.inst_gen in
    let (_, e1) = assert-eq-ok (s.inst_state == 3) "no install session in flight" _ e in
    let ((total, b1), done, e2) =
      >>=-eq-ok (install_process_finalize h c s.inst_gen s.inst_cursor s.inst_root a b s.boxes) _
        e1 in
    let (b2, made, e3) = >>=-eq-ok (box_create name 96 b1) _ e2 in
    let (b3, put_in, e4) = >>=-eq-ok (box_replace name 0 total b2) _ e3 in
    ap (λ x. x.boxes (key_box_name g i)) (sym (ok_inj e4))
    ∙ ap (λ x. x (key_box_name g i)) (activate_boxes (record s { boxes = b3 }))
    ∙ box_replace-other name 0 total b2 (key_box_name g i) (key_box_name-total g s.inst_gen i)
        put_in
    ∙ box_create-other name 96 b1 (key_box_name g i) (key_box_name-total g s.inst_gen i) made
    ∙ install_process_finalize-other h c s.inst_gen (key_box_name g i) s.inst_cursor s.inst_root a b
        s.boxes (key_box_name-session g s.inst_gen i) done

busy : (s : Verifier) → Ordered s → 0 < s.inst_state → s.cur_gen ≢ s.inst_gen
busy s o working e = absurd (ground arith)

keys-cur :
    (s : Verifier) {t : Verifier}
    → install_open_keys s ≡ ok t
    → (t.cur_gen ≡ s.cur_gen) × (0 < s.inst_state)
unfolding install_open_keys
keys-cur s e = ground arith

session-cur :
    (s : Verifier) {t : Verifier}
    → install_open_session s ≡ ok t
    → (t.cur_gen ≡ s.cur_gen) × (0 < s.inst_state)
unfolding install_open_session
session-cur s e = ground arith

abort-cur :
    (sender : Bytes) (s : Verifier) {t : Verifier}
    → install_abort sender s ≡ ok t
    → (t.cur_gen ≡ s.cur_gen) × (0 < s.inst_state)
unfolding install_abort close
abort-cur sender s e = ground arith

retire-cur :
    (g : ℕ) (s : Verifier) {t : Verifier}
    → retire g s ≡ ok t
    → (t.cur_gen ≡ s.cur_gen) × (s.cur_gen ≢ g)
unfolding retire
retire-cur g s e = (ground arith, λ q. absurd (ground arith))

module _ (h : Hashes) (c : Curve) where
  chunk-cur :
      (k : ℕ) (a b : Bytes) (s : Verifier) {t : Verifier}
      → install_chunk h c k a b s ≡ ok t
      → (t.cur_gen ≡ s.cur_gen) × (0 < s.inst_state)
  unfolding install_chunk
  chunk-cur k a b s e = ground arith

  -- The keys of a generation under which the current committee stays.
  stay : (s t : Verifier) → t.cur_gen ≡ s.cur_gen → SameKeys s.cur_gen s t → SameKeys t.cur_gen s t
  stay s t e k = subst (λ g. SameKeys g s t) (sym e) k

  -- In a state with its generations in order, no call that succeeds changes a key of the committee
  -- that is the current one after it: the boxes of its keys are as before the call.
  pub step-SameKeys : {s t : Verifier} → Ordered s → Step h c s t → SameKeys t.cur_gen s t
  step-SameKeys {s} {t} o (appends sender ep v f cur n e) =
      λ j. ap (λ b. b (key_box_name t.cur_gen j)) (append-boxes sender ep v f cur n s e).0
  step-SameKeys {s} {t} o (bootstraps sender header root branch trusted e) = λ j.
      ap (λ b. b (key_box_name t.cur_gen j))
        (bootstrap-boxes h sender header root branch trusted s e).0
  step-SameKeys {s} {t} o (begins q e) =
      λ j. ap (λ b. b (key_box_name t.cur_gen j)) (begin-boxes q s e).0
  step-SameKeys {s} {t} o (opens_keys e) =
      let (cur, working) = keys-cur s e in
      stay s t cur (
        keys-same s.cur_gen s (omega (arith, o.counter, o.cur_below))
          (omega (arith, o.counter, o.inst_below)) (busy s o working) e)
  step-SameKeys {s} {t} o (opens_session e) =
      let (cur, working) = session-cur s e in
      stay s t cur (
        session-same s.cur_gen s (omega (arith, o.counter, o.cur_below))
          (omega (arith, o.counter, o.inst_below)) (busy s o working) e)
  step-SameKeys {s} {t} o (chunks k a b e) =
      let (cur, working) = chunk-cur k a b s e in
      stay s t cur (
        chunk-same s.cur_gen s (omega (arith, o.counter, o.cur_below))
          (omega (arith, o.counter, o.inst_below)) (busy s o working) h c k a b e)
  step-SameKeys {s} {t} o (finalizes a b e) = finalize-same h c t.cur_gen a b s e
  step-SameKeys {s} {t} o (aborts sender e) =
      let (cur, working) = abort-cur sender s e in
      stay s t cur (
        abort-same s.cur_gen s (omega (arith, o.counter, o.cur_below))
          (omega (arith, o.counter, o.inst_below)) (busy s o working) sender e)
  step-SameKeys {s} {t} o (retires g fits e) =
      let (cur, ne) = retire-cur g s e in
      stay s t cur (retire-same s.cur_gen s (omega (arith, o.counter, o.cur_below)) g fits ne e)
  step-SameKeys {s} {t} o (updates u event e) =
      let a = submit_update-Accepted h c u s e in
      λ j.
        ap (λ b. b (key_box_name t.cur_gen j))
          (Applied-boxes a.applied ∙ Discovered-boxes a.discovered)
