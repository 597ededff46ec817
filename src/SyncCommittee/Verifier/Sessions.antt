-- ===== src/SyncCommittee/Verifier/Sessions.antt =====
-- The installation sessions of the verifier (contracts/sync_committee/verifier.py).
pub mod Sound
pub mod Opening
pub mod Ending
use eth_avm_light_client.Prelude.{
  ℕ, ◌+◌, ◌<◌, ◌≡◌, ◌≢◌, refl, sym, ap, subst, ◌∙◌, inl, inr, Bool, Bool-cases, true, false, Option,
  none, arith, ◌==◌, if◌then◌else◌, ==_iff,
}
use eth_avm_light_client.Avm.{Bytes, ok, Hashes, u64_mod}
use eth_avm_light_client.Avm.Results.{assert-eq-ok, >>=-eq-ok, ok_inj}
use eth_avm_light_client.Avm.Store.{
  Store, remove-other, box_create, box_create-other, box_replace, box_replace-other,
}
use eth_avm_light_client.Bls.Curve.{Curve}
use eth_avm_light_client.SyncCommittee.Bitfield.{total_box_name}
use eth_avm_light_client.SyncCommittee.Install.{
  session_box_name, install_open_key_boxes, install_open_session_box, install_abort_key_boxes,
  install_abort_boxes, install_delete_committee_boxes, install_process_chunk,
  install_process_finalize, delete_key_boxes,
}
use eth_avm_light_client.SyncCommittee.Install.Names.{
  session_box_name-apart, session_box_name-total, session_box_name-key, create_key_boxes-other,
  delete_key_boxes-other, install_process_chunk-other, install_process_finalize-other,
}
use eth_avm_light_client.SyncCommittee.Install.Committee.Held.{
  Holds, Holds-boxes, opened-Holds, chunk-Holds,
}
use eth_avm_light_client.SyncCommittee.Verifier.{
  Verifier, append_fork_row, bootstrap, install_begin, install_open_keys, install_open_session,
  install_chunk, install_finalize, install_abort, abort_boxes, retire, reserve, activate, close,
  create,
}
use eth_avm_light_client.SyncCommittee.Verifier.Update.{
  Arguments, Checked, UpdateVerified, rollover,
}
use eth_avm_light_client.SyncCommittee.Verifier.Effects.{
  Discovered, kept, found, Applied, stays, advanced, submit_update-Accepted,
}
use eth_avm_light_client.SyncCommittee.Verifier.Generations.{
  Ordered, step-Ordered, Discovered-Ordered, created-Ordered,
}
use eth_avm_light_client.SyncCommittee.Verifier.Keys.{retire-same, activate_boxes}
use eth_avm_light_client.SyncCommittee.Verifier.Steps.{
  Step, appends, bootstraps, begins, opens_keys, opens_session, chunks, finalizes, aborts, retires,
  updates, Reach, here, next,
}
use eth_avm_light_client.SyncCommittee.Verifier.Sessions.Sound.{
  IsSound, append-Same, Discovered-Same, Applied-Same, bootstrap-Fresh, begin-Fresh, Same-IsSound,
  Fresh-IsSound,
}
use eth_avm_light_client.SyncCommittee.Verifier.Sessions.Opening.{
  keys-IsSound, session-IsSound, chunk-IsSound,
}
use eth_avm_light_client.SyncCommittee.Verifier.Sessions.Ending.{
  idle-IsSound, finalize-idle, finalize-session, abort-idle, abort-session, retire-IsSound,
}

module _ (h : Hashes) (c : Curve) where
  step-IsSound : {s t : Verifier} → IsSound h c s → Step h c s t → IsSound h c t
  step-IsSound {s} i st = dispatch i st (step-Ordered h c i.ordered st)
    where
      dispatch : {s t : Verifier} → IsSound h c s → Step h c s t → Ordered t → IsSound h c t
      dispatch {s} i (appends sender ep v f cur n e) o =
          Same-IsSound h c o i (append-Same sender ep v f cur n s e)
      dispatch {s} i (bootstraps sender header root branch trusted e) o =
          Fresh-IsSound h c o i (bootstrap-Fresh h sender header root branch trusted s e)
      dispatch {s} i (begins q e) o = Fresh-IsSound h c o i (begin-Fresh q s e)
      dispatch {s} i (opens_keys e) o = keys-IsSound h c s o i e
      dispatch {s} i (opens_session e) o = session-IsSound h c s o i e
      dispatch {s} i (chunks k a b e) o = chunk-IsSound h c k a b s o i e
      dispatch {s} {t} i (finalizes a b e) o =
          let (idle, counter) = finalize-idle h c a b s e in
          let old = i.ordered in
          idle-IsSound h c s t o i idle counter (λ g above fits.
            finalize-session h c a b s g (omega (arith, old.counter, old.inst_below)) e above fits)
      dispatch {s} {t} i (aborts sender e) o =
          let (idle, counter, b) = abort-idle h c sender s e in
          let old = i.ordered in
          idle-IsSound h c s t o i idle counter (λ g above fits.
            ap (λ x. x (session_box_name g)) b
            ∙ abort-session h c s g (omega (arith, old.counter, old.inst_below)) above fits)
      dispatch {s} i (retires g fits e) o = retire-IsSound h c g s fits o i e
      dispatch {s} i (updates u event e) o =
          let a = submit_update-Accepted h c u s e in
          let m =
            Same-IsSound h c (Discovered-Ordered i.ordered a.discovered) i
              (Discovered-Same a.discovered) in
          Same-IsSound h c o m (Applied-Same a.applied)

  created-IsSound : (governance gvr : Bytes) → IsSound h c (create governance gvr)
  unfolding create
  created-IsSound governance gvr = record {
    ordered = created-Ordered h c governance gvr;
    unopened = λ g above fits. refl;
    waiting = λ lo hi. absurd (omega arith);
    filling = λ three. absurd (omega arith);
  }

  pub reach-IsSound :
      (governance gvr : Bytes) {t : Verifier} → Reach h c (create governance gvr) t → IsSound h c t
  reach-IsSound governance gvr here = created-IsSound governance gvr
  reach-IsSound governance gvr (next r st) = step-IsSound (reach-IsSound governance gvr r) st
