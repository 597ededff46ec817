-- ===== src/StateAnchor/Box/Effects/Marks.antt =====
-- The marks after an anchoring call (contracts/state_anchor/box.py).
use eth_avm_light_client.Prelude.{ℕ, ◌≤◌, ◌<◌, ◌≡◌, sym, ap, inl, inr, ltb→lt, ltb, arith}
use eth_avm_light_client.Avm.{Bytes, ok}
use eth_avm_light_client.Avm.Results.{>>=-eq-ok, assert-eq-ok, ok_inj, if-eq-ok}
use eth_avm_light_client.Avm.Store.{Store}
use eth_avm_light_client.StateAnchor.Record.{a_block_number, a_beacon_slot}
use eth_avm_light_client.StateAnchor.Box.{
  WriteOutcome, ring_write_ok, ring_write_idempotent, ring_write_equivocation,
  ring_write_regression, Finished, finish_outcome,
}

-- The marks never fall, and the mark of the slot rises whenever that of the block does.
pub record Rises (hi_block hi_slot : ℕ) (f : Finished) : Type 0 where
  pub block : hi_block ≤ f.new_hi_block
  pub slot : hi_slot ≤ f.new_hi_slot
  pub together : hi_block < f.new_hi_block → hi_slot < f.new_hi_slot

Rises-still :
    (hi_block hi_slot : ℕ) (f : Finished)
    → f.new_hi_block ≡ hi_block
    → f.new_hi_slot ≡ hi_slot
    → Rises hi_block hi_slot f
Rises-still hi_block hi_slot f b s = record {
  block = omega arith;
  slot = omega arith;
  together = λ lt. absurd (omega arith);
}

Rises-both :
    (hi_block hi_slot new_block new_slot : ℕ) (f : Finished)
    → hi_block < new_block
    → hi_slot < new_slot
    → f.new_hi_block ≡ new_block
    → f.new_hi_slot ≡ new_slot
    → Rises hi_block hi_slot f
Rises-both hi_block hi_slot new_block new_slot f lb ls b s = record {
  block = omega arith;
  slot = omega arith;
  together = λ lt. omega arith;
}

pub outcome-Rises :
    (outcome : WriteOutcome) (result : Bytes) (conflict hi_block hi_slot : ℕ) (boxes : Store)
    {f : Finished}
    → finish_outcome outcome result conflict hi_block hi_slot boxes ≡ ok f
    → Rises hi_block hi_slot f
unfolding finish_outcome
outcome-Rises ring_write_equivocation result conflict hb hs boxes {f} e =
    Rises-still hb hs f (ap (λ t. t.new_hi_block) (sym (ok_inj e)))
      (ap (λ t. t.new_hi_slot) (sym (ok_inj e)))
outcome-Rises ring_write_idempotent result conflict hb hs boxes {f} e =
    Rises-still hb hs f (ap (λ t. t.new_hi_block) (sym (ok_inj e)))
      (ap (λ t. t.new_hi_slot) (sym (ok_inj e)))
outcome-Rises ring_write_regression result conflict hb hs boxes e = cc
outcome-Rises ring_write_ok result conflict hb hs boxes {f} e =
    let (new_block, n, e1) = >>=-eq-ok (a_block_number result) _ e in
    let (new_slot, s, e2) = >>=-eq-ok (a_beacon_slot result) _ e1 in
    elim (if-eq-ok (ltb hb new_block) _ _ e2) [
      | inl (up, e3) ↦
          let (t, e4) = assert-eq-ok (ltb hs new_slot) "N-ADMIT-monotonic" _ e3 in
          Rises-both hb hs new_block new_slot f (ltb→lt hb new_block up) (ltb→lt hs new_slot t)
            (ap (λ t. t.new_hi_block) (sym (ok_inj e4))) (ap (λ t. t.new_hi_slot) (sym (ok_inj e4)))
      | inr (not_up, e3) ↦
          Rises-still hb hs f (ap (λ t. t.new_hi_block) (sym (ok_inj e3)))
            (ap (λ t. t.new_hi_slot) (sym (ok_inj e3)))
    ]
