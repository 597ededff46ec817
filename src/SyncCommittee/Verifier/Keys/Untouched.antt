-- ===== src/SyncCommittee/Verifier/Keys/Untouched.antt =====
-- The calls that leave the boxes of a generation alone
-- (contracts/sync_committee/verifier.py).
use eth_avm_light_client.Prelude.{
  ℕ, ◌<◌, ◌≡◌, ◌≢◌, refl, sym, ap, ◌∙◌, inl, inr, Bool, Bool-cases, true, false, Option, arith,
  bytes_eq, ◌==◌, ◌||◌, if◌then◌else◌,
}
use eth_avm_light_client.Avm.{Bytes, ok, Hashes, u64_mod}
use eth_avm_light_client.Avm.Results.{assert-eq-ok, >>=-eq-ok, ok_inj}
use eth_avm_light_client.Avm.Store.{remove-other, box_create-other}
use eth_avm_light_client.Bls.Curve.{Curve}
use eth_avm_light_client.SyncCommittee.Bitfield.{key_box_name}
use eth_avm_light_client.SyncCommittee.Install.{
  session_box_name, install_open_key_boxes, install_open_session_box, install_abort_key_boxes,
  install_abort_boxes, install_process_chunk, delete_key_boxes,
}
use eth_avm_light_client.SyncCommittee.Install.Names.{
  key_box_name-apart, key_box_name-session, create_key_boxes-other, delete_key_boxes-other,
  install_process_chunk-other,
}
use eth_avm_light_client.SyncCommittee.Verifier.{
  Verifier, append_fork_row, bootstrap, install_begin, install_open_keys, install_open_session,
  install_chunk, install_abort, abort_boxes, reserve, close,
}
use eth_avm_light_client.SyncCommittee.Verifier.Update.{
  Arguments, Checked, UpdateVerified, rollover,
}
use eth_avm_light_client.SyncCommittee.Verifier.Effects.{
  Discovered, kept, found, Applied, stays, advanced,
}

-- `s` and `t` hold the same keys for the generation `g`.
abbrev pub SameKeys : ℕ → Verifier → Verifier → Type 0
SameKeys g s t = (j : ℕ) → t.boxes (key_box_name g j) ≡ s.boxes (key_box_name g j)

pub append-boxes :
    (sender : Bytes) (ep : ℕ) (v : Bytes) (f cur n : ℕ) (s : Verifier) {t : Verifier}
    → append_fork_row sender ep v f cur n s ≡ ok t
    → (t.boxes ≡ s.boxes) × (t.cur_gen ≡ s.cur_gen)
unfolding append_fork_row
append-boxes sender ep v f cur n s h = ground arith

pub bootstrap-boxes :
    (h : Hashes) (sender header root branch trusted : Bytes) (s : Verifier) {t : Verifier}
    → bootstrap h sender header root branch trusted s ≡ ok t
    → (t.boxes ≡ s.boxes) × (t.cur_gen ≡ s.cur_gen)
unfolding bootstrap reserve
bootstrap-boxes h sender header root branch trusted s e = ground arith

pub begin-boxes :
    (q : ℕ) (s : Verifier) {t : Verifier}
    → install_begin q s ≡ ok t
    → (t.boxes ≡ s.boxes) × (t.cur_gen ≡ s.cur_gen)
unfolding install_begin reserve
begin-boxes q s e = ground arith

pub Discovered-boxes :
    {u : Arguments} {k : Checked} {s s' : Verifier} → Discovered u k s s' → s'.boxes ≡ s.boxes
Discovered-boxes (kept e) = ap (λ x. x.boxes) e
Discovered-boxes (found now near proof e) = ap (λ x. x.boxes) e

rolled_boxes : (n : Bool) (s : Verifier) → (if n then rollover s else s).boxes ≡ s.boxes
unfolding rollover
rolled_boxes true s = refl
rolled_boxes false s = refl

pub Applied-boxes :
    {u : Arguments} {k : Checked} {s t : Verifier} {event : Option UpdateVerified}
    → Applied u k s t event
    → t.boxes ≡ s.boxes
Applied-boxes (stays e _) = ap (λ x. x.boxes) e
Applied-boxes {k = k} {s = s} (advanced many lo e _) =
    ap (λ x. x.boxes) e ∙ rolled_boxes k.using_next s

-- What only the installed generation's boxes feel.
module _ (g : ℕ) (s : Verifier) (fits : g < u64_mod) (inst_fits : s.inst_gen < u64_mod)
    (apart : g ≢ s.inst_gen) where
  away : (i j : ℕ) → key_box_name g i ≢ key_box_name s.inst_gen j
  away i j = key_box_name-apart g s.inst_gen i j fits inst_fits apart

  pub keys-same : {t : Verifier} → install_open_keys s ≡ ok t → SameKeys g s t
  unfolding install_open_keys install_open_key_boxes
  keys-same e i =
      let (_, e1) = assert-eq-ok (s.inst_state == 1) "no validated install session in flight" _ e in
      let (b, made, e2) = >>=-eq-ok (install_open_key_boxes s.inst_gen s.boxes) _ e1 in
      ap (λ x. x.boxes (key_box_name g i)) (sym (ok_inj e2))
      ∙ create_key_boxes-other s.inst_gen (key_box_name g i) (away i) 8 0 s.boxes made

  pub session-same : {t : Verifier} → install_open_session s ≡ ok t → SameKeys g s t
  unfolding install_open_session install_open_session_box
  session-same e i =
      let (_, e1) = assert-eq-ok (s.inst_state == 2) "no box-opening phase in flight" _ e in
      let (b, made, e2) = >>=-eq-ok (install_open_session_box s.inst_gen s.boxes) _ e1 in
      ap (λ x. x.boxes (key_box_name g i)) (sym (ok_inj e2))
      ∙ box_create-other (session_box_name s.inst_gen) 424 s.boxes (key_box_name g i)
          (key_box_name-session g s.inst_gen i) made

  pub chunk-same :
      (h : Hashes) (c : Curve) (k : ℕ) (a b : Bytes) {t : Verifier}
      → install_chunk h c k a b s ≡ ok t
      → SameKeys g s t
  unfolding install_chunk
  chunk-same h c k a b e i =
      let (_, e1) = assert-eq-ok (s.inst_state == 3) "no install session in flight" _ e in
      let (_, e2) = assert-eq-ok (k == s.inst_cursor) "index must equal the session cursor" _ e1 in
      let ((end, b'), done, e3) =
        >>=-eq-ok (install_process_chunk h c s.inst_gen s.inst_cursor a b s.boxes) _ e2 in
      ap (λ x. x.boxes (key_box_name g i)) (sym (ok_inj e3))
      ∙ install_process_chunk-other s.inst_gen (key_box_name g i) (away i) h c s.inst_cursor a b
          s.boxes (key_box_name-session g s.inst_gen i) done

  delete-same :
      (i : ℕ)
      → delete_key_boxes 8 0 s.inst_gen s.boxes (key_box_name g i) ≡ s.boxes (key_box_name g i)
  delete-same i = delete_key_boxes-other s.inst_gen (key_box_name g i) (away i) 8 0 s.boxes

  aborted-same : (i : ℕ) → abort_boxes s (key_box_name g i) ≡ s.boxes (key_box_name g i)
  unfolding abort_boxes install_abort_key_boxes install_abort_boxes
  aborted-same i = elim (Bool-cases (s.inst_state == 2)) [
    | inl opening ↦ rw opening (delete-same i)
    | inr other ↦ elim (Bool-cases (s.inst_state == 3)) [
      | inl installing ↦
          rw (other, installing)
            (remove-other (session_box_name s.inst_gen) (delete_key_boxes 8 0 s.inst_gen s.boxes)
                (key_box_name g i) (key_box_name-session g s.inst_gen i)
              ∙ delete-same i)
      | inr validated ↦ rw (other, validated) refl
    ]
  ]

  pub abort-same : (sender : Bytes) {t : Verifier} → install_abort sender s ≡ ok t → SameKeys g s t
  unfolding install_abort close
  abort-same sender e i =
      let (_, e1) = assert-eq-ok (bytes_eq sender s.gov) "governance only" _ e in
      let (_, e2) =
        assert-eq-ok (s.inst_state == 1 || (s.inst_state == 2 || s.inst_state == 3))
          "no install session in flight" _ e1 in
      ap (λ x. x.boxes (key_box_name g i)) (sym (ok_inj e2)) ∙ aborted-same i
