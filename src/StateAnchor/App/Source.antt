-- ===== src/StateAnchor/App/Source.antt =====
-- The anchor on top of the verifier: what anchor_direct of contracts/state_anchor/anchor_app.py
-- anchors comes from a header that contracts/sync_committee/verifier.py has finalized.
use eth_avm_light_client.Prelude.{ℕ, ◌≡◌, sym, ap, subst, ◌∙◌, ◌⊎◌, inl, inr, some}
use eth_avm_light_client.Prelude.Slices.{slice}
use eth_avm_light_client.Avm.{Bytes, ok, Hashes, Collision}
use eth_avm_light_client.Bls.Curve.{Curve}
use eth_avm_light_client.SyncCommittee.Header.{
  epoch_at_slot, header_slot, hash_tree_root_beacon_block_header,
}
use eth_avm_light_client.SyncCommittee.Header.Binding.{header_root-body}
use eth_avm_light_client.SyncCommittee.Verifier.{Verifier, create}
use eth_avm_light_client.SyncCommittee.Verifier.Steps.{Reach}
use eth_avm_light_client.SyncCommittee.Verifier.Sources.{Source, reach-HasSource}
use eth_avm_light_client.StateAnchor.Forks as Forks
use eth_avm_light_client.StateAnchor.Bridge.{M4}
use eth_avm_light_client.StateAnchor.Bridge.Bound.{Folded}
use eth_avm_light_client.StateAnchor.App.{Anchor, Txn, anchor_direct}
use eth_avm_light_client.StateAnchor.App.Direct.{some_inj, anchor_direct-Checked}

-- The verifier as the anchor sees it: the application with this id, and its global state.
unfoldable pub verifier_app : ℕ → Verifier → M4
verifier_app id v = record {
  id = id;
  fin_slot = some v.fin_slot;
  fin_root = some v.fin_root;
  fin_state_root = some v.fin_state_root;
}

-- The roots and the block number fold to the body root of the verifier's finalized header, which
-- has a source among the calls that led to the verifier's state.
pub record Attested (h : Hashes) (c : Curve) (governance gvr : Bytes) (s : Anchor) (sr rr : Bytes)
    (n : ℕ) (sb rb nb : Bytes) (v : Verifier) : Type 0 where
  pub header : Bytes
  pub source : Source h c governance gvr v header
  pub rooted : hash_tree_root_beacon_block_header h header ≡ ok v.fin_root
  pub at : header_slot header ≡ ok v.fin_slot
  pub gindices : ℕ × ℕ × ℕ × ℕ
  pub row : Forks.lookup_row s.fork_count (epoch_at_slot v.fin_slot) s.rows ≡ ok gindices
  pub folded : Folded h (slice header 80 32) (gindices.0) (gindices.1) (gindices.2) sr rr n sb rb nb

module _ (h : Hashes) (c : Curve) (governance gvr : Bytes) where
  -- When anchor_direct succeeds on top of a verifier in a state that calls reach from its creation,
  -- the state root, the receipts root and the block number fold, at the indices of the fork of the
  -- verifier's finalized slot, to the body root of a header whose root and slot are the verifier's
  -- finalized ones and which, at a call on the way from the creation to this state, the governance
  -- has given to bootstrap or an update has finalized, or two inputs of sha256 that collide are
  -- given.
  pub anchor_direct-Attested :
      (id : ℕ) (v : Verifier) (txn : Txn) (header sr rr : Bytes) (n : ℕ) (sb rb nb : Bytes)
      (s : Anchor) {a : Bytes} {s' : Anchor}
      → Reach h c (create governance gvr) v
      → anchor_direct h txn (verifier_app id v) header sr rr n sb rb nb s ≡ ok (a, s')
      → Attested h c governance gvr s sr rr n sb rb nb v ⊎ Collision (h.sha256)
  unfolding verifier_app
  anchor_direct-Attested id v txn header sr rr n sb rb nb s r done =
      let k = anchor_direct-Checked h txn (verifier_app id v) header sr rr n sb rb nb s done in
      let root : v.fin_root ≡ k.root = some_inj k.root_is in
      let slot : v.fin_slot ≡ k.slot = some_inj k.slot_is in
      elim (reach-HasSource h c governance gvr r) [
        | inl zero ↦ absurd (k.nonzero (sym root ∙ zero))
        | inr i ↦ elim (header_root-body h header i.header k.rooted (i.root ∙ ap ok root)) [
          | inr clash ↦ inr clash
          | inl body ↦ inl (record {
            header = i.header;
            source = i.source;
            rooted = i.root;
            at = i.slot;
            gindices = k.gindices;
            row = ap (λ x. Forks.lookup_row s.fork_count (epoch_at_slot x) s.rows) slot ∙ k.row;
            folded =
                subst
                  (λ b. Folded h b (k.gindices.0) (k.gindices.1) (k.gindices.2) sr rr n sb rb nb)
                  body k.folded;
          })
        ]
      ]
