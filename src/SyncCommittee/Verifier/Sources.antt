-- ===== src/SyncCommittee/Verifier/Sources.antt =====
-- Where the finalized header of the verifier comes from (contracts/sync_committee/verifier.py).
pub mod Keeping
use eth_avm_light_client.Prelude.{
  ℕ, ◌≡◌, ◌⊎◌, inl, inr, Option, none, some, arith, sym, ap, ◌∙◌, bytes_eq, bytes_eq_sound, ◌==◌,
  Bool, true, false, refl, if◌then◌else◌,
}
use eth_avm_light_client.Prelude.Slices.{slice}
use eth_avm_light_client.Avm.{Bytes, ok, Hashes}
use eth_avm_light_client.Avm.Results.{assert-eq-ok, >>=-eq-ok, ok_inj}
use eth_avm_light_client.Bls.Curve.{Curve}
use eth_avm_light_client.Ssz.Branch.{assert_valid_normalized_merkle_branch}
use eth_avm_light_client.SyncCommittee.Period.{period_at_slot}
use eth_avm_light_client.SyncCommittee.Forks.{lookup_gindices}
use eth_avm_light_client.SyncCommittee.Header.{
  epoch_at_slot, header_slot, hash_tree_root_beacon_block_header,
}
use eth_avm_light_client.SyncCommittee.Verifier.{
  Verifier, create, append_fork_row, bootstrap, reserve, close, activate, install_begin,
  install_open_keys, install_open_session, install_chunk, install_finalize, install_abort, retire,
  zero32,
}
use eth_avm_light_client.SyncCommittee.Verifier.Update.{
  Arguments, UpdateVerified, Checked, rollover, submit_update,
}
use eth_avm_light_client.SyncCommittee.Verifier.Steps.{
  Step, appends, bootstraps, begins, opens_keys, opens_session, chunks, finalizes, aborts, retires,
  updates, Reach, here, next,
}
use eth_avm_light_client.SyncCommittee.Verifier.Effects.{
  submit_update-Accepted, Discovered, kept, found, Applied, stays, advanced,
}
use eth_avm_light_client.SyncCommittee.Verifier.Finality.{Finalizes, submit_update-Finalizes}
use eth_avm_light_client.SyncCommittee.Verifier.Sources.Keeping.{
  Keeps, append-Keeps, begin-Keeps, keys-Keeps, session-Keeps, abort-Keeps, retire-Keeps,
  chunk-Keeps, finalize-Keeps, update-Keeps, update_gov,
}

reserve_gov :
    (p : ℕ) (root : Bytes) (s : Verifier) {t : Verifier} → reserve p root s ≡ ok t → t.gov ≡ s.gov
unfolding reserve
reserve_gov p root s e = ground arith

module _ (h : Hashes) (c : Curve) where
  -- Where a header comes from: at a call on the way from the creation of the contract to the state
  -- `v`, the governance has given it to `bootstrap`, with its root, or an update has finalized it.
  pub data Source (governance gvr : Bytes) (v : Verifier) : Bytes → Type 0 where
    bootstrapped :
        (header committee branch root : Bytes) (s t : Verifier)
        → Reach h c (create governance gvr) s
        → bootstrap h governance header committee branch root s ≡ ok t
        → Reach h c t v
        → hash_tree_root_beacon_block_header h header ≡ ok root
        → Source governance gvr v header
    finalized :
        (u : Arguments) (event : UpdateVerified) (s t : Verifier)
        → Reach h c (create governance gvr) s
        → submit_update h c u s ≡ ok (t, some event)
        → Reach h c t v
        → Finalizes h c u s t
        → Source governance gvr v u.finalized_header

  -- One more call.
  Source-Step :
      {governance gvr header : Bytes} {s t : Verifier}
      → Step h c s t
      → Source governance gvr s header
      → Source governance gvr t header
  Source-Step st (bootstrapped header committee branch root a b before call after rooted) =
      bootstrapped header committee branch root a b before call (next after st) rooted
  Source-Step st (finalized u event a b before call after f) =
      finalized u event a b before call (next after st) f

  -- The finalized header of a state, where it has one.
  pub record Sourced (governance gvr : Bytes) (s : Verifier) : Type 0 where
    pub header : Bytes
    pub source : Source governance gvr s header
    pub root : hash_tree_root_beacon_block_header h header ≡ ok s.fin_root
    pub slot : header_slot header ≡ ok s.fin_slot

  record Booted (sender header root : Bytes) (s t : Verifier) : Type 0 where
    by : sender ≡ s.gov
    gov : t.gov ≡ s.gov
    rooted : hash_tree_root_beacon_block_header h header ≡ ok root
    root_is : t.fin_root ≡ root
    slot : header_slot header ≡ ok t.fin_slot

  bootstrap-Booted :
      (sender header committee branch root : Bytes) (s : Verifier) {t : Verifier}
      → bootstrap h sender header committee branch root s ≡ ok t
      → Booted sender header root s t
  unfolding bootstrap
  bootstrap-Booted sender header committee branch root s {t} e =
      let (by, e1) = assert-eq-ok (bytes_eq sender s.gov) "governance only" _ e in
      let (_, e2) = assert-eq-ok (s.cur_gen == 0) "already bootstrapped" _ e1 in
      let (_, e3) = assert-eq-ok (s.inst_state == 0) "install session in progress" _ e2 in
      let (computed, rooted, e4) = >>=-eq-ok (hash_tree_root_beacon_block_header h header) _ e3 in
      let (same, e5) = assert-eq-ok (bytes_eq computed root) "header != trusted_block_root" _ e4 in
      let (slot, at, e6) = >>=-eq-ok (header_slot header) _ e5 in
      let ((f, gindex, n), _, e7) =
        >>=-eq-ok (lookup_gindices s.fork_count (epoch_at_slot slot) s.rows) _ e6 in
      let (_, _, e8) =
        >>=-eq-ok
          (assert_valid_normalized_merkle_branch h committee branch gindex (slice header 48 32)) _
          e7 in
      let (s', made, e9) = >>=-eq-ok (reserve (period_at_slot slot) committee s) _ e8 in
      let is = ok_inj e9 in
      record {
        by = bytes_eq_sound sender s.gov by;
        gov = ap (λ x. x.gov) (sym is) ∙ reserve_gov (period_at_slot slot) committee s made;
        rooted = rooted ∙ ap ok (bytes_eq_sound computed root same);
        root_is = ap (λ x. x.fin_root) (sym is) ∙ bytes_eq_sound computed root same;
        slot = at ∙ ap (λ x. ok x.fin_slot) is;
      }

  -- No finalized header yet, or one with a source.
  abbrev pub HasSource : Bytes → Bytes → Verifier → Type 0
  HasSource governance gvr s = (s.fin_root ≡ zero32) ⊎ Sourced governance gvr s

  keep :
      {governance gvr : Bytes} {s t : Verifier}
      → Step h c s t
      → Keeps s t
      → (s.gov ≡ governance) × HasSource governance gvr s
      → (t.gov ≡ governance) × HasSource governance gvr t
  keep st k (g, inl e) = (k.gov ∙ g, inl (k.root ∙ e))
  keep st k (g, inr i) = (
    k.gov ∙ g,
    inr (record {
      header = i.header;
      source = Source-Step st i.source;
      root = i.root ∙ ap ok (sym k.root);
      slot = i.slot ∙ ap ok (sym k.slot);
    }),
  )

  step-HasSource :
      {governance gvr : Bytes} {s t : Verifier}
      → Reach h c (create governance gvr) s
      → (s.gov ≡ governance) × HasSource governance gvr s
      → Step h c s t
      → (t.gov ≡ governance) × HasSource governance gvr t
  step-HasSource {governance} {gvr} {s} {t} r i (appends sender ep v f cur n e) =
      keep (appends sender ep v f cur n e) (append-Keeps sender ep v f cur n s e) i
  step-HasSource {governance} {gvr} {s} {t} r (g, i)
        (bootstraps sender header committee branch root e) =
      let b = bootstrap-Booted sender header committee branch root s e in
      (
        b.gov ∙ g,
        inr (record {
          header = header;
          source =
              bootstrapped header committee branch root s t r
                (ap (λ x. bootstrap h x header committee branch root s) (sym (b.by ∙ g)) ∙ e) here
                b.rooted;
          root = b.rooted ∙ ap ok (sym b.root_is);
          slot = b.slot;
        }),
      )
  step-HasSource {s = s} r i (begins q e) = keep (begins q e) (begin-Keeps q s e) i
  step-HasSource {s = s} r i (opens_keys e) = keep (opens_keys e) (keys-Keeps s e) i
  step-HasSource {s = s} r i (opens_session e) = keep (opens_session e) (session-Keeps s e) i
  step-HasSource {s = s} r i (chunks k a b e) = keep (chunks k a b e) (chunk-Keeps h c k a b s e) i
  step-HasSource {s = s} r i (finalizes a b e) =
      keep (finalizes a b e) (finalize-Keeps h c a b s e) i
  step-HasSource {s = s} r i (aborts sender e) = keep (aborts sender e) (abort-Keeps sender s e) i
  step-HasSource {s = s} r i (retires g fits e) = keep (retires g fits e) (retire-Keeps g s e) i
  step-HasSource {s = s} r i (updates u none e) = keep (updates u none e) (update-Keeps h c u s e) i
  step-HasSource {s = s} {t = t} r (g, i) (updates u (some event) e) =
      let f = submit_update-Finalizes h c u s {event = event} e in
      (
        update_gov h c u s e ∙ g,
        inr (record {
          header = u.finalized_header;
          source = finalized u event s t r e here f;
          root = f.root;
          slot = f.slot;
        }),
      )

  reach_both :
      (governance gvr : Bytes) {t : Verifier}
      → Reach h c (create governance gvr) t
      → (t.gov ≡ governance) × HasSource governance gvr t
  unfolding create
  reach_both governance gvr here = (refl, inl refl)
  reach_both governance gvr (next r st) = step-HasSource r (reach_both governance gvr r) st

  pub reach-HasSource :
      (governance gvr : Bytes) {t : Verifier}
      → Reach h c (create governance gvr) t
      → HasSource governance gvr t
  reach-HasSource governance gvr r = (reach_both governance gvr r).1
