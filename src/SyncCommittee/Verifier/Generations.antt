-- ===== src/SyncCommittee/Verifier/Generations.antt =====
-- The generations of committees in the verifier (contracts/sync_committee/verifier.py).
use eth_avm_light_client.Prelude.{
  ℕ, ◌≤◌, ◌<◌, ◌≡◌, refl, sym, ap, subst, ◌⊎◌, inl, Bool, true, false, Option, arith, if◌then◌else◌,
}
use eth_avm_light_client.Avm.{Bytes, ok, Hashes, u64_mod}
use eth_avm_light_client.Bls.Curve.{Curve}
use eth_avm_light_client.SyncCommittee.Verifier.{
  Verifier, create, append_fork_row, bootstrap, install_begin, install_open_keys,
  install_open_session, install_chunk, install_finalize, install_abort, retire, reserve, activate,
  close,
}
use eth_avm_light_client.SyncCommittee.Verifier.Update.{
  Arguments, Checked, UpdateVerified, submit_update, rollover,
}
use eth_avm_light_client.SyncCommittee.Verifier.Checks.{Signs, current, following}
use eth_avm_light_client.SyncCommittee.Verifier.Effects.{
  Discovered, kept, found, Applied, stays, advanced, submit_update-Accepted,
}
use eth_avm_light_client.SyncCommittee.Verifier.Steps.{
  Step, appends, bootstraps, begins, opens_keys, opens_session, chunks, finalizes, aborts, retires,
  updates, Reach, here, next,
}

-- A later generation has a larger number, and none is above the counter. There is no next
-- committee before there is a current one, and a session has a generation exactly when it is not
-- idle.
pub record Ordered (s : Verifier) : Type 0 where
  pub counter : s.gen_counter < u64_mod
  pub cur_below : s.cur_gen ≤ s.gen_counter
  pub next_below : s.next_gen ≤ s.gen_counter
  pub inst_below : s.inst_gen ≤ s.gen_counter
  pub next_above : (s.next_gen ≡ 0) ⊎ ((0 < s.cur_gen) × (s.cur_gen < s.next_gen))
  pub inst_above :
      ((s.inst_state ≡ 0) × (s.inst_gen ≡ 0))
      ⊎ ((0 < s.inst_state) × (s.cur_gen < s.inst_gen) × (s.next_gen < s.inst_gen))

begin-Ordered :
    (q : ℕ) (s : Verifier) {t : Verifier} → Ordered s → install_begin q s ≡ ok t → Ordered t
unfolding install_begin reserve
begin-Ordered q s i h = ground arith

keys-Ordered : (s : Verifier) {t : Verifier} → Ordered s → install_open_keys s ≡ ok t → Ordered t
unfolding install_open_keys
keys-Ordered s i h = ground arith

session-Ordered :
    (s : Verifier) {t : Verifier} → Ordered s → install_open_session s ≡ ok t → Ordered t
unfolding install_open_session
session-Ordered s i h = ground arith

abort-Ordered :
    (sender : Bytes) (s : Verifier) {t : Verifier}
    → Ordered s
    → install_abort sender s ≡ ok t
    → Ordered t
unfolding install_abort close
abort-Ordered sender s i h = ground arith

retire-Ordered : (g : ℕ) (s : Verifier) {t : Verifier} → Ordered s → retire g s ≡ ok t → Ordered t
unfolding retire
retire-Ordered g s i h = ground arith

append-Ordered :
    (sender : Bytes) (e : ℕ) (v : Bytes) (f cur n : ℕ) (s : Verifier) {t : Verifier}
    → Ordered s
    → append_fork_row sender e v f cur n s ≡ ok t
    → Ordered t
unfolding append_fork_row
append-Ordered sender e v f cur n s i h = ground arith

module _ (h : Hashes) (c : Curve) where
  bootstrap-Ordered :
      (sender header root branch trusted : Bytes) (s : Verifier) {t : Verifier}
      → Ordered s
      → bootstrap h sender header root branch trusted s ≡ ok t
      → Ordered t
  unfolding bootstrap reserve
  bootstrap-Ordered sender header root branch trusted s i e = ground arith

  chunk-Ordered :
      (k : ℕ) (a b : Bytes) (s : Verifier) {t : Verifier}
      → Ordered s
      → install_chunk h c k a b s ≡ ok t
      → Ordered t
  unfolding install_chunk
  chunk-Ordered k a b s i e = ground arith

  finalize-Ordered :
      (a b : Bytes) (s : Verifier) {t : Verifier}
      → Ordered s
      → install_finalize h c a b s ≡ ok t
      → Ordered t
  unfolding install_finalize activate close
  finalize-Ordered a b s i e = ground arith

pub Discovered-Ordered :
    {u : Arguments} {k : Checked} {s s' : Verifier} → Ordered s → Discovered u k s s' → Ordered s'
Discovered-Ordered i (kept e) = subst Ordered (sym e) i
Discovered-Ordered i (found now near proof e) = subst Ordered (sym e) (record {
  counter = i.counter;
  cur_below = i.cur_below;
  next_below = i.next_below;
  inst_below = i.inst_below;
  next_above = i.next_above;
  inst_above = i.inst_above;
})

-- A rollover needs a next committee.
rollover-Ordered : (s : Verifier) → 0 < s.next_gen → Ordered s → Ordered (rollover s)
unfolding rollover
rollover-Ordered s known i = ground arith

advanced-Ordered :
    (n : Bool) (s : Verifier) (slot : ℕ) (root state_root : Bytes) (att : ℕ) (att_root : Bytes)
    → (n ≡ true → 0 < s.next_gen)
    → Ordered s
    → Ordered (record (if n then rollover s else s) {
      fin_slot = slot;
      fin_root = root;
      fin_state_root = state_root;
      att_slot = att;
      att_state_root = att_root;
    })
advanced-Ordered true s slot root state_root att att_root known i =
    let j = rollover-Ordered s (known refl) i in
    record {
      counter = j.counter;
      cur_below = j.cur_below;
      next_below = j.next_below;
      inst_below = j.inst_below;
      next_above = j.next_above;
      inst_above = j.inst_above;
    }
advanced-Ordered false s slot root state_root att att_root known i = record {
  counter = i.counter;
  cur_below = i.cur_below;
  next_below = i.next_below;
  inst_below = i.inst_below;
  next_above = i.next_above;
  inst_above = i.inst_above;
}

Applied-Ordered :
    {u : Arguments} {k : Checked} {s t : Verifier} {event : Option UpdateVerified}
    → (k.using_next ≡ true → 0 < s.next_gen)
    → Ordered s
    → Applied u k s t event
    → Ordered t
Applied-Ordered known i (stays e _) = subst Ordered (sym e) i
Applied-Ordered {u} {k} {s} known i (advanced many lo e _) =
    subst Ordered (sym e) (advanced-Ordered k.using_next s _ _ _ _ _ known i)

pub Signs-known :
    {sig_slot gen : ℕ} {using_next : Bool} {s : Verifier}
    → Signs sig_slot s using_next gen
    → using_next ≡ true
    → 0 < s.next_gen
Signs-known (current now same g some_gen) t = cc
Signs-known (following now after g some_gen) t = omega (arith, g)

pub Discovered-gen :
    {u : Arguments} {k : Checked} {s s' : Verifier} → Discovered u k s s' → s'.next_gen ≡ s.next_gen
Discovered-gen (kept e) = ap (λ x. x.next_gen) e
Discovered-gen (found now near proof e) = ap (λ x. x.next_gen) e

module _ (h : Hashes) (c : Curve) where
  update-Ordered :
      (u : Arguments) (s : Verifier) {t : Verifier} {event : Option UpdateVerified}
      → Ordered s
      → submit_update h c u s ≡ ok (t, event)
      → Ordered t
  update-Ordered u s i e =
      let a = submit_update-Accepted h c u s e in
      Applied-Ordered
        (λ n.
          subst (λ g. 0 < g) (sym (Discovered-gen a.discovered)) (Signs-known a.verified.signs n))
        (Discovered-Ordered i a.discovered) a.applied

  pub step-Ordered : {s t : Verifier} → Ordered s → Step h c s t → Ordered t
  step-Ordered {s} i (appends sender ep v f cur n e) = append-Ordered sender ep v f cur n s i e
  step-Ordered {s} i (bootstraps sender header root branch trusted e) =
      bootstrap-Ordered h c sender header root branch trusted s i e
  step-Ordered {s} i (begins q e) = begin-Ordered q s i e
  step-Ordered {s} i (opens_keys e) = keys-Ordered s i e
  step-Ordered {s} i (opens_session e) = session-Ordered s i e
  step-Ordered {s} i (chunks k a b e) = chunk-Ordered h c k a b s i e
  step-Ordered {s} i (finalizes a b e) = finalize-Ordered h c a b s i e
  step-Ordered {s} i (aborts sender e) = abort-Ordered sender s i e
  step-Ordered {s} i (retires g fits e) = retire-Ordered g s i e
  step-Ordered {s} i (updates u event e) = update-Ordered u s i e

  pub created-Ordered : (governance gvr : Bytes) → Ordered (create governance gvr)
  unfolding create
  created-Ordered governance gvr = record {
    counter = omega arith;
    cur_below = omega arith;
    next_below = omega arith;
    inst_below = omega arith;
    next_above = inl refl;
    inst_above = inl (refl, refl);
  }

  -- In every state that calls reach from a created contract, the generations are in order: none is
  -- above the counter, which is a uint64, a next committee is above the current one, and a session
  -- in flight is above both.
  pub reach-Ordered :
      (governance gvr : Bytes) {t : Verifier} → Reach h c (create governance gvr) t → Ordered t
  reach-Ordered governance gvr here = created-Ordered governance gvr
  reach-Ordered governance gvr (next r st) = step-Ordered (reach-Ordered governance gvr r) st
