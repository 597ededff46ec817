-- ===== src/StateAnchor/App/Anchoring.antt =====
-- The end that both anchoring methods of contracts/state_anchor/anchor_app.py share.
use eth_avm_light_client.Prelude.{
  ℕ, ◌+◌, ◌<◌, ◌≤◌, ◌≡◌, ◌≢◌, refl, sym, ap, ◌∙◌, ◌⊎◌, inl, inr, Bool, false, if◌then◌else◌, ◌==◌,
  ==_iff, ==_refl, arith,
}
use eth_avm_light_client.Avm.{Bytes, ok, u64}
use eth_avm_light_client.Avm.Results.{>>=-eq-ok, ok_inj, if-eq-ok}
use eth_avm_light_client.StateAnchor.Record.{
  a_version, a_is_revoked, a_block_number, a_matches_block_number,
}
use eth_avm_light_client.StateAnchor.Record.Fields.{Says}
use eth_avm_light_client.StateAnchor.Box.{Finished, finish_anchor_flow, read_ring_slot}
use eth_avm_light_client.StateAnchor.Box.Effects.{finish-Rises, finish-Wrote}
use eth_avm_light_client.StateAnchor.App.{
  Anchor, write_back, finish_anchor, attest, is_record_of, unless_revoked,
}

-- The parts of `finish_anchor`.
pub record Anchored (candidate : Bytes) (s s' : Anchor) (a : Bytes) : Type 0 where
  pub flow : Finished
  pub flows :
      finish_anchor_flow s.ring_cursor s.ring_size s.frozen s.conflict s.hi_block s.hi_slot
        candidate s.boxes
      ≡ ok flow
  pub returned : a ≡ flow.result_record
  pub size : s'.ring_size ≡ s.ring_size
  pub conflict : s'.conflict ≡ flow.new_conflict
  pub hi_block : s'.hi_block ≡ flow.new_hi_block
  pub hi_slot : s'.hi_slot ≡ flow.new_hi_slot
  pub boxes : s'.boxes ≡ flow.boxes
  pub count : (flow.wrote_new ≡ 1) ⊎ (s'.n_anchored ≡ s.n_anchored)

pub finish_anchor-Anchored :
    (candidate : Bytes) (s : Anchor) {a : Bytes} {s' : Anchor}
    → finish_anchor candidate s ≡ ok (a, s')
    → Anchored candidate s s' a
unfolding finish_anchor write_back
finish_anchor-Anchored candidate s {a} {s'} e =
    let (f, flows, e1) =
      >>=-eq-ok
        (finish_anchor_flow s.ring_cursor s.ring_size s.frozen s.conflict s.hi_block s.hi_slot
          candidate s.boxes)
        _ e in
    let (n, c, e2) =
      >>=-eq-ok (if f.wrote_new == 1 then u64 (s.n_anchored + 1) else ok (s.n_anchored)) _ e1 in
    let q = ok_inj e2 in
    record {
      flow = f;
      flows = flows;
      returned = sym (ap (λ t. t.0) q);
      size = sym (ap (λ t. t.1.ring_size) q);
      conflict = sym (ap (λ t. t.1.conflict) q);
      hi_block = sym (ap (λ t. t.1.hi_block) q);
      hi_slot = sym (ap (λ t. t.1.hi_slot) q);
      boxes = sym (ap (λ t. t.1.boxes) q);
      count = elim (if-eq-ok (f.wrote_new == 1) (u64 (s.n_anchored + 1)) (ok (s.n_anchored)) c) [
        | inl (t, _) ↦ inl ((==_iff (f.wrote_new) 1).0 t)
        | inr (_, k) ↦ inr (sym (ap (λ t. t.1.n_anchored) q) ∙ sym (ok_inj k))
      ];
    }

-- The marks of the state before and after.
pub record Advances (s s' : Anchor) : Type 0 where
  pub block : s.hi_block ≤ s'.hi_block
  pub slot : s.hi_slot ≤ s'.hi_slot
  pub together : s.hi_block < s'.hi_block → s.hi_slot < s'.hi_slot

-- The end of an anchoring call that succeeds lowers neither hi_block nor hi_slot, and raises
-- hi_slot whenever it raises hi_block.
pub finish_anchor-Advances :
    (candidate : Bytes) (s : Anchor) {a : Bytes} {s' : Anchor}
    → finish_anchor candidate s ≡ ok (a, s')
    → Advances s s'
finish_anchor-Advances candidate s {a} {s'} e =
    let an = finish_anchor-Anchored candidate s e in
    let r =
      finish-Rises s.ring_cursor s.ring_size s.frozen s.conflict s.hi_block s.hi_slot candidate
        s.boxes {f = an.flow} an.flows in
    record {
      block = omega (arith, r.block, an.hi_block);
      slot = omega (arith, r.slot, an.hi_slot);
      together =
          λ lt. let lt' = r.together (omega (arith, an.hi_block)) in omega (arith, an.hi_slot);
    }

-- A record that says the block is served from the ring.
serve :
    (s : Anchor) (bn : ℕ) {b : Bytes}
    → s.conflict ≡ 0
    → read_ring_slot s.ring_size bn s.boxes ≡ ok b
    → a_version b ≡ ok 1
    → a_block_number b ≡ ok bn
    → a_is_revoked b ≡ ok false
    → attest bn s ≡ ok b
unfolding attest is_record_of a_matches_block_number unless_revoked
serve s bn c r v n q = rw (c, r, v, n, ==_refl, q) refl

-- A record that was written is what `attest` returns.
pub finish_anchor-attest :
    (historical : Bool) (bn slot : ℕ) (sr rr br fr : Bytes) (round : ℕ) (candidate : Bytes)
    (s : Anchor) {a : Bytes} {s' : Anchor}
    → Says candidate historical bn slot sr rr br fr round
    → finish_anchor candidate s ≡ ok (a, s')
    → s'.n_anchored ≢ s.n_anchored
    → (attest bn s' ≡ ok a) × (a ≡ candidate)
finish_anchor-attest historical bn slot sr rr br fr round candidate s {a} {s'} says e grew =
    let an = finish_anchor-Anchored candidate s e in
    let wrote : an.flow.wrote_new ≡ 1 = elim an.count [
      | inl w ↦ w
      | inr same ↦ absurd (grew same)
    ] in
    let w =
      finish-Wrote s.ring_cursor s.ring_size s.frozen s.conflict s.hi_block s.hi_slot candidate
        s.boxes {f = an.flow} an.flows says.size wrote in
    let same : a ≡ candidate = an.returned ∙ w.returned in
    let number : w.number ≡ bn = ok_inj (sym w.has_number ∙ says.number) in
    let read : read_ring_slot s'.ring_size bn s'.boxes ≡ ok candidate =
      ap (λ t. read_ring_slot t bn s'.boxes) an.size
      ∙ ap (λ t. read_ring_slot s.ring_size bn t) an.boxes
      ∙ ap (λ t. read_ring_slot s.ring_size t an.flow.boxes) (sym number)
      ∙ w.read in
    (
      serve s' bn (an.conflict ∙ w.calm) read says.version says.number says.fresh
          ∙ ap ok (sym same),
      same,
    )
