-- ===== src/SyncCommittee/Verifier/Finality.antt =====
-- What an update that advances the verifier rests on, and that the finalized slot never falls
-- (contracts/sync_committee/verifier.py).
use eth_avm_light_client.Prelude.{
  ℕ, ◌*◌, ◌≤◌, ◌<◌, ◌≡◌, sym, ap, subst, ◌∙◌, Bool, some, arith, if◌then◌else◌, ◌==◌,
}
use eth_avm_light_client.Prelude.Slices.{slice}
use eth_avm_light_client.Avm.{Bytes, Result, ok, Hashes}
use eth_avm_light_client.Bls.Curve.{Curve}
use eth_avm_light_client.Ssz.Branch.{assert_valid_normalized_merkle_branch}
use eth_avm_light_client.SyncCommittee.Header.{
  epoch_at_slot, header_slot, hash_tree_root_beacon_block_header,
}
use eth_avm_light_client.SyncCommittee.Period.{fork_version_epoch_for_signature_slot}
use eth_avm_light_client.SyncCommittee.Forks.{lookup_fork_version, lookup_gindices}
use eth_avm_light_client.SyncCommittee.Bitfield.{aggregate_participants}
use eth_avm_light_client.SyncCommittee.Bitfield.Order.{member}
use eth_avm_light_client.SyncCommittee.Bitfield.Count.{count, aggregate_participants-count}
use eth_avm_light_client.SyncCommittee.Verifier.{Verifier, zero32}
use eth_avm_light_client.SyncCommittee.Verifier.Update.{
  Arguments, Checked, UpdateVerified, submit_update,
}
use eth_avm_light_client.SyncCommittee.Verifier.Checks.{Signs}
use eth_avm_light_client.SyncCommittee.Verifier.Signature.{Signed, assert_signed-Signed}
use eth_avm_light_client.SyncCommittee.Verifier.Effects.{
  Discovered, kept, found, Applied, stays, advanced, submit_update-Accepted,
}

-- The header `u.finalized_header` is finalized in `t`: its slot is above the last one's, its root
-- and state root are those of `t`, and it is proved under the state root of a header that two
-- thirds of a committee of `s` have signed.
pub record Finalizes (h : Hashes) (c : Curve) (u : Arguments) (s t : Verifier) : Type 0 where
  pub using_next : Bool
  pub gen : ℕ
  pub version : Bytes
  pub attested_slot : ℕ
  pub finality_gindex : ℕ
  pub current_sc_gindex : ℕ
  pub next_sc_gindex : ℕ
  pub agg_pubkey : Bytes
  pub slot : header_slot u.finalized_header ≡ ok t.fin_slot
  pub rises : s.fin_slot < t.fin_slot
  pub root : hash_tree_root_beacon_block_header h u.finalized_header ≡ ok t.fin_root
  pub state_root : t.fin_state_root ≡ slice u.finalized_header 48 32
  pub attested : header_slot u.attested_header ≡ ok attested_slot
  pub order : (t.fin_slot ≤ attested_slot) × (attested_slot < u.signature_slot)
  pub gindices :
      lookup_gindices s.fork_count (epoch_at_slot attested_slot) s.rows
      ≡ ok (finality_gindex, current_sc_gindex, next_sc_gindex)
  pub proved :
      assert_valid_normalized_merkle_branch h t.fin_root u.finality_branch finality_gindex
        (slice u.attested_header 48 32)
      ≡ ok tt
  pub signs : Signs u.signature_slot s using_next gen
  pub fork :
      lookup_fork_version s.fork_count
        (fork_version_epoch_for_signature_slot u.signature_slot)
        s.rows
      ≡ ok version
  pub majority : 1024 ≤ count (member u.sync_committee_bits) 512 0 * 3
  pub aggregate :
      aggregate_participants c.g1_add s.boxes u.sync_committee_bits gen u.mode
      ≡ ok (agg_pubkey, count (member u.sync_committee_bits) 512 0)
  pub signed : Signed h c agg_pubkey version s.gvr u.attested_header u.signature

Discovered-slot :
    {u : Arguments} {k : Checked} {s s' : Verifier} → Discovered u k s s' → s'.fin_slot ≡ s.fin_slot
Discovered-slot (kept e) = ap (λ x. x.fin_slot) e
Discovered-slot (found now near proof e) = ap (λ x. x.fin_slot) e

-- What an update writes of the finalized header when it sends an event.
record Written (u : Arguments) (k : Checked) (s t : Verifier) : Type 0 where
  many : 1024 ≤ k.popcount * 3
  slot : t.fin_slot ≡ k.finalized_slot
  rises : s.fin_slot < k.finalized_slot
  root : t.fin_root ≡ k.finalized_leaf
  state_root : t.fin_state_root ≡ slice u.finalized_header 48 32

Applied-Written :
    {u : Arguments} {k : Checked} {s t : Verifier} {event : UpdateVerified}
    → Applied u k s t (some event)
    → Written u k s t
Applied-Written (stays e none_there) = cc
Applied-Written (advanced many lo e sent) = record {
  many = many;
  slot = ap (λ x. x.fin_slot) e;
  rises = lo;
  root = ap (λ x. x.fin_root) e;
  state_root = ap (λ x. x.fin_state_root) e;
}

leaf_is_root :
    (n m : ℕ) (a b : Result Bytes) {l : Bytes} → m < n → (if n == 0 then a else b) ≡ ok l → b ≡ ok l
leaf_is_root n m a b lo e = ground arith

module _ (h : Hashes) (c : Curve) where
  -- An update that sends its event finalizes its header: the slot rises, the root and the state
  -- root kept are the header's, and the root is proved under the state root of the attested header,
  -- at the index of the fork of that header's slot. The attested header's slot is not below the
  -- finalized one and is below the signature's. The key that aggregate_participants gives for the
  -- committee that the signature's period selects, where at least two thirds of 512 bits are set,
  -- has signed the attested header: the pairing check of the key with the hashed signing root of
  -- that header, under the domain of sync committees for the fork's version and the root of the
  -- genesis validators, and of the negative generator with the signature holds, the subgroup check
  -- of the signature holds, and none of the three points is at infinity.
  pub submit_update-Finalizes :
      (u : Arguments) (s : Verifier) {t : Verifier} {event : UpdateVerified}
      → submit_update h c u s ≡ ok (t, some event)
      → Finalizes h c u s t
  submit_update-Finalizes u s {t} e =
      let a = submit_update-Accepted h c u s e in
      let k = a.checked in
      let v = a.verified in
      let w = Applied-Written a.applied in
      let same =
        aggregate_participants-count c.g1_add s.boxes v.gen u.sync_committee_bits u.mode
          v.aggregate in
      let rises : s.fin_slot < k.finalized_slot =
        subst (λ n. n < k.finalized_slot) (Discovered-slot a.discovered) w.rises in
      record {
        using_next = k.using_next;
        gen = v.gen;
        version = v.version;
        attested_slot = k.attested_slot;
        finality_gindex = v.finality_gindex;
        current_sc_gindex = v.current_sc_gindex;
        next_sc_gindex = v.next_sc_gindex;
        agg_pubkey = v.agg_pubkey;
        slot = v.finalized ∙ ap ok (sym w.slot);
        rises = subst (λ n. s.fin_slot < n) (sym w.slot) rises;
        root =
            leaf_is_root k.finalized_slot s.fin_slot (ok zero32) _ rises v.leaf
            ∙ ap ok (sym w.root);
        state_root = w.state_root;
        attested = v.attested;
        order = (subst (λ n. n ≤ k.attested_slot) (sym w.slot) v.within, v.before);
        gindices = v.gindices;
        proved =
            subst
              (λ r.
                assert_valid_normalized_merkle_branch h r u.finality_branch v.finality_gindex
                  (slice u.attested_header 48 32)
                ≡ ok tt)
              (sym w.root) v.finality;
        signs = v.signs;
        fork = v.fork;
        majority = subst (λ n. 1024 ≤ n * 3) same w.many;
        aggregate = v.aggregate ∙ ap (λ n. ok (v.agg_pubkey, n)) same;
        signed = assert_signed-Signed h c v.agg_pubkey v.version u s v.signed;
      }
