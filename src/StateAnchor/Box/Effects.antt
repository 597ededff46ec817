-- ===== src/StateAnchor/Box/Effects.antt =====
-- The end of an anchoring call, for contracts/state_anchor/box.py: marks, latch and boxes.
pub mod Marks
use eth_avm_light_client.Prelude.{
  ℕ, ◌≤◌, ◌<◌, ◌≡◌, ◌≢◌, refl, sym, ap, subst, ◌∙◌, inl, inr, ltb→lt, ltb, length, arith,
}
use eth_avm_light_client.Prelude.Slices.{splice, slice-splice_self, length-splice}
use eth_avm_light_client.Avm.{Bytes, ok, extract, replace}
use eth_avm_light_client.Avm.Words.{extract-slice}
use eth_avm_light_client.Avm.Results.{>>=-eq-ok, assert-eq-ok, ok_inj, if-eq-ok, extract-eq-ok}
use eth_avm_light_client.Avm.Store.{
  Store, put, put-other, box_extract, box_extract-put, box_replace, box_value,
}
use eth_avm_light_client.StateAnchor.Record.{record_len, a_block_number, a_beacon_slot}
use eth_avm_light_client.StateAnchor.Box.{
  WriteOutcome, ring_write_ok, ring_write_idempotent, ring_write_equivocation,
  ring_write_regression, Finished, finish_outcome, finish_anchor_flow, ring_box_name,
  read_ring_slot,
}
use eth_avm_light_client.StateAnchor.Box.Admit.{
  finish-Flow, written, repeated, clashed, regressed, admit-Admitted,
}
use eth_avm_light_client.StateAnchor.Box.Effects.Marks.{Rises, outcome-Rises}

-- The latch is set only where other content of the same block is in the slot, and then nothing else
-- changes; or it is not set.
pub data Latched (boxes : Store) (hi_block hi_slot : ℕ) (f : Finished) : Type 0 where
  calm : f.new_conflict ≡ 0 → Latched boxes hi_block hi_slot f
  latched :
      f.new_conflict ≡ 1
      → f.boxes ≡ boxes
      → f.new_hi_block ≡ hi_block
      → f.new_hi_slot ≡ hi_slot
      → f.wrote_new ≡ 0
      → Latched boxes hi_block hi_slot f

not_both : (n : ℕ) → 0 ≡ n → n ≡ 1 → ⊥
not_both n a b = omega arith

-- What a call that wrote has written.
pub record Wrote (ring_n : ℕ) (candidate : Bytes) (boxes : Store) (f : Finished) : Type 0 where
  pub number : ℕ
  pub has_number : a_block_number candidate ≡ ok number
  pub returned : f.result_record ≡ candidate
  pub calm : f.new_conflict ≡ 0
  pub name : Bytes
  pub read : read_ring_slot ring_n number (f.boxes) ≡ ok candidate
  pub others : (key : Bytes) → key ≢ name → f.boxes key ≡ boxes key

-- A box that is long enough gives back what is written to its front.
box_replace-extract :
    (name candidate existing : Bytes) (boxes : Store) {after : Store}
    → length candidate ≡ record_len
    → box_extract name 0 record_len boxes ≡ ok existing
    → box_replace name 0 candidate boxes ≡ ok after
    → (box_extract name 0 record_len after ≡ ok candidate)
      × ((key : Bytes) → key ≢ name → after key ≡ boxes key)
box_replace-extract name candidate existing boxes {after} len x e =
    let (b, v, x') = >>=-eq-ok (box_value name boxes) _ x in
    let (fits, _) = extract-eq-ok b 0 record_len x' in
    let (b1, v1, e1) = >>=-eq-ok (box_value name boxes) _ e in
    let same : b1 ≡ b = ok_inj (sym v1 ∙ v) in
    let (b', r, e2) = >>=-eq-ok (replace b1 0 candidate) _ e1 in
    let spliced : b' ≡ splice b 0 candidate = replaced b1 b b' candidate same r in
    let put_in : put name b' boxes ≡ after = ok_inj e2 in
    (
      subst (λ t. box_extract name 0 record_len t ≡ ok candidate) put_in
          (box_extract-put name b' 0 record_len boxes
            ∙ ap (λ t. extract t 0 record_len) spliced
            ∙ extract-slice (splice b 0 candidate) 0 record_len
                (omega (arith, length-splice b 0 candidate))
                (slice-splice_self b 0 record_len candidate len fits)),
      λ key ne. ap (λ t. t key) (sym put_in) ∙ put-other name b' boxes key ne,
    )
  where
    replaced : (b1 b b' c : Bytes) → b1 ≡ b → replace b1 0 c ≡ ok b' → b' ≡ splice b 0 c
    replaced b1 b b' c same r = ground arith

module _ (ring_cursor ring_n frozen conflict hi_block hi_slot : ℕ) (candidate : Bytes)
    (boxes : Store) {f : Finished}
    (done : finish_anchor_flow ring_cursor ring_n frozen conflict hi_block hi_slot candidate boxes
      ≡ ok f) where
  pub finish-Rises : Rises hi_block hi_slot f
  finish-Rises =
      let flow =
        finish-Flow ring_cursor ring_n frozen conflict hi_block hi_slot candidate boxes done in
      outcome-Rises flow.outcome flow.result conflict hi_block hi_slot flow.after flow.finished

  outcome-Latched :
      (outcome : WriteOutcome) (result : Bytes) (after : Store)
      → conflict ≡ 0
      → finish_outcome outcome result conflict hi_block hi_slot after ≡ ok f
      → (outcome ≡ ring_write_equivocation → after ≡ boxes)
      → Latched boxes hi_block hi_slot f
  unfolding finish_outcome
  outcome-Latched ring_write_equivocation result after c e same =
      let q = ok_inj e in
      latched (sym (ap (λ t. t.new_conflict) q)) (sym (ap (λ t. t.boxes) q) ∙ same refl)
        (sym (ap (λ t. t.new_hi_block) q)) (sym (ap (λ t. t.new_hi_slot) q))
        (sym (ap (λ t. t.wrote_new) q))
  outcome-Latched ring_write_regression result after c e same = cc
  outcome-Latched ring_write_idempotent result after c e same =
      calm (sym (ap (λ t. t.new_conflict) (ok_inj e)) ∙ c)
  outcome-Latched ring_write_ok result after c e same =
      let (new_block, n, e1) = >>=-eq-ok (a_block_number result) _ e in
      let (new_slot, s, e2) = >>=-eq-ok (a_beacon_slot result) _ e1 in
      elim (if-eq-ok (ltb hi_block new_block) _ _ e2) [
        | inl (up, e3) ↦
            let (t, e4) = assert-eq-ok (ltb hi_slot new_slot) "N-ADMIT-monotonic" _ e3 in
            calm (sym (ap (λ t. t.new_conflict) (ok_inj e4)) ∙ c)
        | inr (not_up, e3) ↦ calm (sym (ap (λ t. t.new_conflict) (ok_inj e3)) ∙ c)
      ]

  pub finish-Latched : Latched boxes hi_block hi_slot f
  finish-Latched =
      let flow =
        finish-Flow ring_cursor ring_n frozen conflict hi_block hi_slot candidate boxes done in
      let a = admit-Admitted ring_n hi_block candidate boxes flow.admitted in
      outcome-Latched flow.outcome flow.result flow.after flow.calm flow.finished (λ q.
        elim a.decision [
          | written o r w e ↦ absurd (ok_is_not (sym o ∙ q))
          | repeated o r s m e ↦ e
          | clashed o r s m e ↦ e
          | regressed o lt ↦ absurd (regression_is_not (sym o ∙ q))
        ])
    where
      ok_is_not : ring_write_ok ≡ ring_write_equivocation → ⊥
      ok_is_not e = cc

      regression_is_not : ring_write_regression ≡ ring_write_equivocation → ⊥
      regression_is_not e = cc

  outcome_wrote :
      (outcome : WriteOutcome) (result : Bytes) (after : Store)
      → conflict ≡ 0
      → finish_outcome outcome result conflict hi_block hi_slot after ≡ ok f
      → f.wrote_new ≡ 1
      → (outcome ≡ ring_write_ok)
        × (f.result_record ≡ result)
        × (f.boxes ≡ after)
        × (f.new_conflict ≡ 0)
  unfolding finish_outcome
  outcome_wrote ring_write_equivocation result after c e w =
      absurd (not_both (f.wrote_new) (ap (λ t. t.wrote_new) (ok_inj e)) w)
  outcome_wrote ring_write_regression result after c e w = cc
  outcome_wrote ring_write_idempotent result after c e w =
      absurd (not_both (f.wrote_new) (ap (λ t. t.wrote_new) (ok_inj e)) w)
  outcome_wrote ring_write_ok result after c e w =
      let (new_block, n, e1) = >>=-eq-ok (a_block_number result) _ e in
      let (new_slot, s, e2) = >>=-eq-ok (a_beacon_slot result) _ e1 in
      elim (if-eq-ok (ltb hi_block new_block) _ _ e2) [
        | inl (up, e3) ↦
            let (t, e4) = assert-eq-ok (ltb hi_slot new_slot) "N-ADMIT-monotonic" _ e3 in
            let q = ok_inj e4 in
            (
              refl,
              sym (ap (λ t. t.result_record) q),
              sym (ap (λ t. t.boxes) q),
              sym (ap (λ t. t.new_conflict) q) ∙ c,
            )
        | inr (not_up, e3) ↦
            let q = ok_inj e3 in
            (
              refl,
              sym (ap (λ t. t.result_record) q),
              sym (ap (λ t. t.boxes) q),
              sym (ap (λ t. t.new_conflict) q) ∙ c,
            )
      ]

  pub finish-Wrote :
      length candidate ≡ record_len → f.wrote_new ≡ 1 → Wrote ring_n candidate boxes f
  unfolding read_ring_slot
  finish-Wrote len w =
      let flow =
        finish-Flow ring_cursor ring_n frozen conflict hi_block hi_slot candidate boxes done in
      let a = admit-Admitted ring_n hi_block candidate boxes flow.admitted in
      let (o, r, b, c) =
        outcome_wrote flow.outcome flow.result flow.after flow.calm flow.finished w in
      elim a.decision [
        | repeated o' r' s m e ↦ absurd (not_idempotent (sym o ∙ o'))
        | clashed o' r' s m e ↦ absurd (not_equivocation (sym o ∙ o'))
        | regressed o' lt ↦ absurd (not_regression (sym o ∙ o'))
        | written o' r' why put_in ↦
            let (read, others) =
              box_replace-extract (ring_box_name a.residue) candidate a.existing boxes len a.slot
                put_in in
            record {
              number = a.new_block;
              has_number = a.number;
              returned = r ∙ r';
              calm = c;
              name = ring_box_name a.residue;
              read =
                  rw (a.has_residue)
                    (ap (λ t. box_extract (ring_box_name a.residue) 0 record_len t) b ∙ read);
              others = λ key ne. ap (λ t. t key) b ∙ others key ne;
            }
      ]
    where
      not_idempotent : ring_write_ok ≡ ring_write_idempotent → ⊥
      not_idempotent e = cc

      not_equivocation : ring_write_ok ≡ ring_write_equivocation → ⊥
      not_equivocation e = cc

      not_regression : ring_write_ok ≡ ring_write_regression → ⊥
      not_regression e = cc
