-- ===== src/SyncCommittee/Verifier/Stuck.antt =====
-- The verifier after a rollover whose finalized header lies in the period before
-- (contracts/sync_committee/verifier.py).
pub mod Calls
use eth_avm_light_client.Prelude.{
  ℕ, ◌+◌, ◌≤◌, ◌<◌, ◌≡◌, sym, ap, ◌∙◌, Bool, true, false, Option, some, none, subst, arith,
}
use eth_avm_light_client.Avm.{Bytes, ok, Hashes}
use eth_avm_light_client.Bls.Curve.{Curve}
use eth_avm_light_client.SyncCommittee.Period.{period_at_slot}
use eth_avm_light_client.SyncCommittee.Verifier.{
  Verifier, append_fork_row, bootstrap, install_begin, install_open_keys, install_open_session,
  install_chunk, install_finalize, install_abort, retire,
}
use eth_avm_light_client.SyncCommittee.Verifier.Update.{
  Arguments, Checked, UpdateVerified, rollover, submit_update,
}
use eth_avm_light_client.SyncCommittee.Verifier.Checks.{Signs, current, following}
use eth_avm_light_client.SyncCommittee.Verifier.Effects.{
  Discovered, kept, found, Applied, stays, advanced, submit_update-Accepted,
}
use eth_avm_light_client.SyncCommittee.Verifier.Steps.{
  Step, appends, bootstraps, begins, opens_keys, opens_session, chunks, finalizes, aborts, retires,
  updates, Reach, here, next,
}
use eth_avm_light_client.SyncCommittee.Verifier.Stuck.Calls.{
  IsStuck, begin-IsStuck, keys-IsStuck, session-IsStuck, abort-IsStuck, retire-IsStuck,
  append-IsStuck, bootstrap-IsStuck, chunk-IsStuck, finalize-IsStuck,
}

-- A slot between two slots of one period lies in the period.
between :
    (a b c p : ℕ)
    → a ≤ b
    → b ≤ c
    → period_at_slot a ≡ p
    → period_at_slot c ≡ p
    → period_at_slot b ≡ p
unfolding period_at_slot
between a b c p lo hi e f = omega arith

Discovered-IsStuck :
    {u : Arguments} {k : Checked} {s s' : Verifier} (p : ℕ)
    → IsStuck p s
    → Discovered u k s s'
    → IsStuck p s'
Discovered-IsStuck p i (kept e) = subst (IsStuck p) (sym e) i
Discovered-IsStuck p i (found now near proof e) = subst (IsStuck p) (sym e) (record {
  slot = i.slot;
  installed = i.installed;
  ahead = i.ahead;
  no_next = i.no_next;
  idle = i.idle;
  root = omega (arith, near, i.slot);
})

-- The next committee cannot sign, so the signature's period is that of the finalized header.
signed_within :
    {sig_slot gen : ℕ} {using_next : Bool} (p : ℕ) (s : Verifier)
    → IsStuck p s
    → Signs sig_slot s using_next gen
    → (using_next ≡ false) × (period_at_slot sig_slot ≡ p)
signed_within p s i (current now same g some_gen) = (now, same ∙ i.slot)
signed_within p s i (following now after g some_gen) =
    absurd (let zero_gen = i.no_next in omega (arith, g))

Applied-IsStuck :
    {u : Arguments} {k : Checked} {s t : Verifier} {event : Option UpdateVerified} (p : ℕ)
    → IsStuck p s
    → k.using_next ≡ false
    → k.finalized_slot ≤ u.signature_slot
    → period_at_slot u.signature_slot ≡ p
    → Applied u k s t event
    → IsStuck p t
Applied-IsStuck p i now hi sig (stays e _) = subst (IsStuck p) (sym e) i
Applied-IsStuck {u} {k} {s} p i now hi sig (advanced many lo e _) = subst (IsStuck p) (sym e) (
    rw now (record {
      slot = between s.fin_slot k.finalized_slot u.signature_slot p (omega arith) hi i.slot sig;
      installed = i.installed;
      ahead = i.ahead;
      no_next = i.no_next;
      idle = i.idle;
      root = i.root;
    }))

-- A signature of the period after the finalized header's is the next committee's.
signed_after :
    {using_next : Bool} {gen : ℕ} (u : Arguments) (s : Verifier)
    → Signs u.signature_slot s using_next gen
    → period_at_slot u.signature_slot ≡ period_at_slot s.fin_slot + 1
    → (using_next ≡ true) × (0 < s.next_gen)
signed_after u s (current now same g some_gen) sig = absurd (omega arith)
signed_after u s (following now after g some_gen) sig = (now, omega arith)

unchanged :
    {u : Arguments} {k : Checked} {s s' : Verifier}
    → Discovered u k s s'
    → k.using_next ≡ true
    → s' ≡ s
unchanged (kept e) now = e
unchanged (found not_now near proof e) now = cc

rolled-IsStuck :
    {u : Arguments} {k : Checked} {s t : Verifier} {event : UpdateVerified} {p : ℕ}
    → k.using_next ≡ true
    → Applied u k s t (some event)
    → period_at_slot s.fin_slot ≡ p
    → 0 < s.next_gen
    → period_at_slot event.finalized_slot ≡ p
    → s.next_period ≡ p + 1
    → s.inst_state ≡ 0
    → s.next_committee_root_period ≤ p + 1
    → IsStuck p t
unfolding rollover
rolled-IsStuck now (stays e none_there) old gen fin np idle root = cc
rolled-IsStuck {u} {k} {s} {event = event} {p = p} now (advanced many lo e sent) old gen fin np idle
      root =
    subst (IsStuck p) (sym e) (
      rw now (record {
        slot = ap (λ o. period_at_slot (slot_of o)) (sym sent) ∙ fin;
        installed = gen;
        ahead = np;
        no_next = zero_is;
        idle = idle;
        root = root;
      }))
  where
    slot_of : Option UpdateVerified → ℕ
    slot_of none = 0
    slot_of (some x) = x.finalized_slot

    zero_is : ◌≡◌ {A = ℕ} 0 0
    zero_is = omega arith

module _ (h : Hashes) (c : Curve) where
  update-IsStuck :
      (p : ℕ) (u : Arguments) (s : Verifier) {t : Verifier} {event : Option UpdateVerified}
      → IsStuck p s
      → submit_update h c u s ≡ ok (t, event)
      → IsStuck p t
  update-IsStuck p u s i e =
      let a = submit_update-Accepted h c u s e in
      let v = a.verified in
      let (now, sig) = signed_within p s i v.signs in
      let hi : a.checked.finalized_slot ≤ u.signature_slot = omega (arith, v.before, v.within) in
      Applied-IsStuck p (Discovered-IsStuck p i a.discovered) now hi sig a.applied

  step-IsStuck : (p : ℕ) {s t : Verifier} → IsStuck p s → Step h c s t → IsStuck p t
  step-IsStuck p {s} i (appends sender ep v f cur n e) = append-IsStuck p sender ep v f cur n s i e
  step-IsStuck p {s} i (bootstraps sender header root branch trusted e) =
      bootstrap-IsStuck h c p sender header root branch trusted s i e
  step-IsStuck p {s} i (begins q e) = begin-IsStuck p q s i e
  step-IsStuck p {s} i (opens_keys e) = keys-IsStuck p s i e
  step-IsStuck p {s} i (opens_session e) = session-IsStuck p s i e
  step-IsStuck p {s} i (chunks k a b e) = chunk-IsStuck h c p k a b s i e
  step-IsStuck p {s} i (finalizes a b e) = finalize-IsStuck h c p a b s i e
  step-IsStuck p {s} i (aborts sender e) = abort-IsStuck p sender s i e
  step-IsStuck p {s} i (retires g fits e) = retire-IsStuck p g s i e
  step-IsStuck p {s} i (updates u event e) = update-IsStuck p u s i e

  reach-IsStuck : (p : ℕ) {s t : Verifier} → IsStuck p s → Reach h c s t → IsStuck p t
  reach-IsStuck p i here = i
  reach-IsStuck p i (next r st) = step-IsStuck p (reach-IsStuck p i r) st

  -- After an update that rolls over to the next committee, that of the period after the finalized
  -- header's, with a finalized header that is still in the old header's period, while no session is
  -- in flight and no root of a later period is trusted: in every state that calls reach from there,
  -- the finalized header is still in that period.
  pub rollover-stays :
      (u : Arguments) (s : Verifier) {t : Verifier} {event : UpdateVerified} {t' : Verifier}
      → submit_update h c u s ≡ ok (t, some event)
      → period_at_slot u.signature_slot ≡ period_at_slot s.fin_slot + 1
      → period_at_slot event.finalized_slot ≡ period_at_slot s.fin_slot
      → s.next_period ≡ period_at_slot s.fin_slot + 1
      → s.inst_state ≡ 0
      → s.next_committee_root_period ≤ period_at_slot s.fin_slot + 1
      → Reach h c t t'
      → period_at_slot t'.fin_slot ≡ period_at_slot s.fin_slot
  rollover-stays u s e sig fin np idle root r =
      let a = submit_update-Accepted h c u s e in
      let (now, gen) = signed_after u s a.verified.signs sig in
      let m = unchanged a.discovered now in
      let i =
        rolled-IsStuck now a.applied (ap (λ x. period_at_slot x.fin_slot) m)
          (subst (λ x. 0 < x.next_gen) (sym m) gen) fin (ap (λ x. x.next_period) m ∙ np)
          (ap (λ x. x.inst_state) m ∙ idle)
          (subst (λ x. x.next_committee_root_period ≤ period_at_slot s.fin_slot + 1) (sym m)
            root) in
      (reach-IsStuck (period_at_slot s.fin_slot) i r).slot
