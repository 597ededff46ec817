-- ===== src/SyncCommittee/Verifier/Sources/Keeping.antt =====
-- The calls that leave the finalized header alone (contracts/sync_committee/verifier.py).
use eth_avm_light_client.Prelude.{
  ℕ, ◌≡◌, Option, none, arith, ap, ◌∙◌, Bool, true, false, refl, if◌then◌else◌,
}
use eth_avm_light_client.Avm.{Bytes, ok, Hashes}
use eth_avm_light_client.Bls.Curve.{Curve}
use eth_avm_light_client.SyncCommittee.Verifier.{
  Verifier, append_fork_row, reserve, close, activate, install_begin, install_open_keys,
  install_open_session, install_chunk, install_finalize, install_abort, retire,
}
use eth_avm_light_client.SyncCommittee.Verifier.Update.{
  Arguments, UpdateVerified, Checked, rollover, submit_update,
}
use eth_avm_light_client.SyncCommittee.Verifier.Effects.{
  submit_update-Accepted, Discovered, kept, found, Applied, stays, advanced,
}

-- A call between the two states leaves the finalized header and the governance address alone.
pub record Keeps (s t : Verifier) : Type 0 where
  pub gov : t.gov ≡ s.gov
  pub slot : t.fin_slot ≡ s.fin_slot
  pub root : t.fin_root ≡ s.fin_root

pub append-Keeps :
    (sender : Bytes) (e : ℕ) (v : Bytes) (f cur n : ℕ) (s : Verifier) {t : Verifier}
    → append_fork_row sender e v f cur n s ≡ ok t
    → Keeps s t
unfolding append_fork_row
append-Keeps sender e v f cur n s h = ground arith

pub begin-Keeps : (q : ℕ) (s : Verifier) {t : Verifier} → install_begin q s ≡ ok t → Keeps s t
unfolding install_begin reserve
begin-Keeps q s h = ground arith

pub keys-Keeps : (s : Verifier) {t : Verifier} → install_open_keys s ≡ ok t → Keeps s t
unfolding install_open_keys
keys-Keeps s h = ground arith

pub session-Keeps : (s : Verifier) {t : Verifier} → install_open_session s ≡ ok t → Keeps s t
unfolding install_open_session
session-Keeps s h = ground arith

pub abort-Keeps :
    (sender : Bytes) (s : Verifier) {t : Verifier} → install_abort sender s ≡ ok t → Keeps s t
unfolding install_abort close
abort-Keeps sender s h = ground arith

pub retire-Keeps : (g : ℕ) (s : Verifier) {t : Verifier} → retire g s ≡ ok t → Keeps s t
unfolding retire
retire-Keeps g s h = ground arith

rollover_gov : (b : Bool) (s : Verifier) → (if b then rollover s else s).gov ≡ s.gov
unfolding rollover
rollover_gov true s = refl
rollover_gov false s = refl

Discovered-Keeps : {u : Arguments} {k : Checked} {s t : Verifier} → Discovered u k s t → Keeps s t
Discovered-Keeps (kept e) = record {
  gov = ap (λ x. x.gov) e;
  slot = ap (λ x. x.fin_slot) e;
  root = ap (λ x. x.fin_root) e;
}
Discovered-Keeps (found now near proof e) = record {
  gov = ap (λ x. x.gov) e;
  slot = ap (λ x. x.fin_slot) e;
  root = ap (λ x. x.fin_root) e;
}

Keeps-then : {s m t : Verifier} → Keeps s m → Keeps m t → Keeps s t
Keeps-then k l = record { gov = l.gov ∙ k.gov; slot = l.slot ∙ k.slot; root = l.root ∙ k.root }

module _ (h : Hashes) (c : Curve) where
  pub chunk-Keeps :
      (i : ℕ) (a b : Bytes) (s : Verifier) {t : Verifier}
      → install_chunk h c i a b s ≡ ok t
      → Keeps s t
  unfolding install_chunk
  chunk-Keeps i a b s e = ground arith

  pub finalize-Keeps :
      (a b : Bytes) (s : Verifier) {t : Verifier} → install_finalize h c a b s ≡ ok t → Keeps s t
  unfolding install_finalize close activate
  finalize-Keeps a b s e = ground arith

  Applied-none : {u : Arguments} {k : Checked} {s t : Verifier} → Applied u k s t none → Keeps s t
  Applied-none (stays e _) = record {
    gov = ap (λ x. x.gov) e;
    slot = ap (λ x. x.fin_slot) e;
    root = ap (λ x. x.fin_root) e;
  }
  Applied-none (advanced _ _ _ e) = absurd (cc)

  Applied-gov :
      {u : Arguments} {k : Checked} {s t : Verifier} {event : Option UpdateVerified}
      → Applied u k s t event
      → t.gov ≡ s.gov
  Applied-gov (stays e _) = ap (λ x. x.gov) e
  Applied-gov {u} {k} {s} (advanced _ _ e _) = ap (λ x. x.gov) e ∙ rollover_gov k.using_next s

  pub update-Keeps :
      (u : Arguments) (s : Verifier) {t : Verifier}
      → submit_update h c u s ≡ ok (t, none)
      → Keeps s t
  update-Keeps u s e =
      let a = submit_update-Accepted h c u s e in
      Keeps-then (Discovered-Keeps a.discovered) (Applied-none a.applied)

  pub update_gov :
      (u : Arguments) (s : Verifier) {t : Verifier} {event : Option UpdateVerified}
      → submit_update h c u s ≡ ok (t, event)
      → t.gov ≡ s.gov
  update_gov u s e =
      let a = submit_update-Accepted h c u s e in
      Applied-gov a.applied ∙ (Discovered-Keeps a.discovered).gov
