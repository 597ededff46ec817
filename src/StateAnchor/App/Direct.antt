-- ===== src/StateAnchor/App/Direct.antt =====
-- The method anchor_direct of contracts/state_anchor/anchor_app.py.
use eth_avm_light_client.Prelude.{
  ℕ, ◌^◌, ◌<◌, ◌≡◌, ◌≢◌, sym, ap, subst, ◌∙◌, ◌⊎◌, inl, inr, false, not, Option, none, some, ◌==◌,
  ==_iff, bytes_eq, bytes_eq_complete, true,
}
use eth_avm_light_client.Prelude.Slices.{slice}
use eth_avm_light_client.Avm.{Bytes, ok, Hashes, Collision}
use eth_avm_light_client.Avm.Results.{assert-eq-ok, >>=-eq-ok, ok_inj}
use eth_avm_light_client.SyncCommittee.Header.{
  epoch_at_slot, header_slot, hash_tree_root_beacon_block_header,
}
use eth_avm_light_client.SyncCommittee.Header.Binding.{header_root-body}
use eth_avm_light_client.StateAnchor.Record.{build_record}
use eth_avm_light_client.StateAnchor.Record.Fields.{Says, build_record-Says}
use eth_avm_light_client.StateAnchor.Forks as Forks
use eth_avm_light_client.StateAnchor.Bridge.{
  M4, read_m4_finalized, present, assert_fin_header_matches, assert_fin_state_root_cross_check,
  fold_execution_fields,
}
use eth_avm_light_client.StateAnchor.Bridge.Bound.{
  Folded, fold_fields-Folded, Folded-binding, fin_header-root,
}
use eth_avm_light_client.StateAnchor.App.{Anchor, Txn, zero32, finish_anchor, anchor_direct, attest}
use eth_avm_light_client.StateAnchor.App.Anchoring.{
  Advances, finish_anchor-Advances, finish_anchor-attest,
}

pub some_inj {ℓ} : {A : Type ℓ} {x y : A} → some x ≡ some y → x ≡ y
some_inj e = cc

-- What the anchor has read of the verifier.
pub record Finalized (m4 : M4) (id slot : ℕ) (root state_root : Bytes) : Type 0 where
  pub slot_is : m4.fin_slot ≡ some slot
  pub root_is : m4.fin_root ≡ some root

present-eq-ok {ℓ} : {A : Type ℓ} (o : Option A) {a : A} → present o ≡ ok a → o ≡ some a
present-eq-ok none e = cc
present-eq-ok (some x) e = ap some (ok_inj e)

read_m4-Finalized :
    (m4 : M4) (id : ℕ) {slot : ℕ} {root state_root : Bytes}
    → read_m4_finalized m4 id ≡ ok (slot, root, state_root)
    → Finalized m4 id slot root state_root
unfolding read_m4_finalized
read_m4-Finalized m4 id e =
    let (_, e1) = assert-eq-ok (m4.id == id) "N4" _ e in
    let (s, p, e2) = >>=-eq-ok (present m4.fin_slot) _ e1 in
    let (r, q, e3) = >>=-eq-ok (present m4.fin_root) _ e2 in
    let (t, _, e4) = >>=-eq-ok (present m4.fin_state_root) _ e3 in
    let same = ok_inj e4 in
    record {
      slot_is = present-eq-ok m4.fin_slot p ∙ ap (λ x. some (x.0)) same;
      root_is = present-eq-ok m4.fin_root q ∙ ap (λ x. some (x.1)) same;
    }

bytes_eq_apart : (x y : Bytes) → not (bytes_eq x y) ≡ true → x ≢ y
bytes_eq_apart x y ne e = let same = bytes_eq_complete x y e in absurd (cc)

module _ (h : Hashes) where
  pub record Checked (m4 : M4) (header sr rr : Bytes) (n : ℕ) (sb rb nb : Bytes) (round : ℕ)
      (s s' : Anchor) (a : Bytes) : Type 0 where
    pub slot : ℕ
    pub root : Bytes
    pub slot_is : m4.fin_slot ≡ some slot
    pub root_is : m4.fin_root ≡ some root
    pub nonzero : root ≢ zero32
    pub rooted : hash_tree_root_beacon_block_header h header ≡ ok root
    pub at : header_slot header ≡ ok slot
    pub gindices : ℕ × ℕ × ℕ × ℕ
    pub row : Forks.lookup_row s.fork_count (epoch_at_slot slot) s.rows ≡ ok gindices
    pub folded :
        Folded h (slice header 80 32) (gindices.0) (gindices.1) (gindices.2) sr rr n sb rb nb
    pub candidate : Bytes
    pub built : build_record false n slot sr rr root root round ≡ ok candidate
    pub finished : finish_anchor candidate s ≡ ok (a, s')

  module _ (txn : Txn) (m4 : M4) (header sr rr : Bytes) (n : ℕ) (sb rb nb : Bytes) (s : Anchor)
      {a : Bytes} {s' : Anchor}
      (done : anchor_direct h txn m4 header sr rr n sb rb nb s ≡ ok (a, s')) where
    pub anchor_direct-Checked : Checked m4 header sr rr n sb rb nb txn.round s s' a
    unfolding anchor_direct
    anchor_direct-Checked =
        let ((fin_slot, fin_root, fin_state_root), m, e1) =
          >>=-eq-ok (read_m4_finalized m4 s.m4_app) _ done in
        let (set, e2) = assert-eq-ok (not (bytes_eq fin_root zero32)) "N5" _ e1 in
        let (hs, x, e3) = >>=-eq-ok (assert_fin_header_matches h header fin_root) _ e2 in
        let (_, _, e4) = >>=-eq-ok (assert_fin_state_root_cross_check hs fin_state_root) _ e3 in
        let (t_slot, at, e5) = >>=-eq-ok (header_slot header) _ e4 in
        let (t, e6) = assert-eq-ok (t_slot == fin_slot) "DIRECT requires t_slot == fin_slot" _ e5 in
        let ((gs, gr, gn, gb), row, e7) =
          >>=-eq-ok (Forks.lookup_row s.fork_count (epoch_at_slot t_slot) s.rows) _ e6 in
        let (_, fold, e8) =
          >>=-eq-ok (fold_execution_fields h (slice header 80 32) gs gr gn sr rr n sb rb nb) _ e7 in
        let (candidate, built, e9) =
          >>=-eq-ok (build_record false n t_slot sr rr fin_root fin_root txn.round) _ e8 in
        let f = read_m4-Finalized m4 s.m4_app m in
        record {
          slot = t_slot;
          root = fin_root;
          slot_is = f.slot_is ∙ ap some (sym ((==_iff t_slot fin_slot).0 t));
          root_is = f.root_is;
          nonzero = bytes_eq_apart fin_root zero32 set;
          rooted = fin_header-root h header fin_root x;
          at = at;
          gindices = (gs, gr, gn, gb);
          row = row;
          folded = fold_fields-Folded h (slice header 80 32) gs gr gn sr rr n sb rb nb fold;
          candidate = candidate;
          built = built;
          finished = e9;
        }

    -- The marks never fall, and rise together.
    pub anchor_direct-Advances : Advances s s'
    anchor_direct-Advances =
        finish_anchor-Advances anchor_direct-Checked.candidate s anchor_direct-Checked.finished

    -- When anchor_direct succeeds and n_anchored changes, where the verifier's slot, the block
    -- number and the round are below 2^64, attest of that block number in the state after returns
    -- the record that the call returned, and that record reads back the block number, the slot,
    -- both roots and the round, is not revoked and not historical, and names the verifier's
    -- finalized root both as the block's header root and as the finalized one.
    pub anchor_direct-attest :
        (slot : ℕ)
        → m4.fin_slot ≡ some slot
        → slot < 2 ^ 64
        → n < 2 ^ 64
        → txn.round < 2 ^ 64
        → s'.n_anchored ≢ s.n_anchored
        → (attest n s' ≡ ok a)
          × ((root : Bytes) × (m4.fin_root ≡ some root)
              × Says a false n slot sr rr root root txn.round)
    anchor_direct-attest slot is small_slot small_n small_round grew =
        let c = anchor_direct-Checked in
        let same : c.slot ≡ slot = some_inj (sym c.slot_is ∙ is) in
        let says =
          build_record-Says false n slot sr rr c.root c.root txn.round small_n small_slot
            small_round
            (ap (λ t. build_record false n t sr rr c.root c.root txn.round) (sym same) ∙ c.built) in
        let (read, returned) =
          finish_anchor-attest false n slot sr rr c.root c.root txn.round c.candidate s says
            c.finished grew in
        (
          read,
          (
            c.root,
            c.root_is,
            subst (λ t. Says t false n slot sr rr c.root c.root txn.round) (sym returned) says,
          ),
        )

  -- Two calls of anchor_direct that succeed against the same finalized slot and root of the
  -- verifier, in states with the same fork count and fork rows and with block numbers below 2^64,
  -- anchor the same state root, receipts root and block number, or two inputs of sha256 that
  -- collide are given.
  pub anchor_direct-binding :
      (txn txn' : Txn) (m4 : M4) (header header' sr sr' rr rr' : Bytes) (n n' : ℕ)
      (sb rb nb sb' rb' nb' : Bytes) (s t : Anchor) {a b : Bytes} {s' t' : Anchor}
      → anchor_direct h txn m4 header sr rr n sb rb nb s ≡ ok (a, s')
      → anchor_direct h txn' m4 header' sr' rr' n' sb' rb' nb' t ≡ ok (b, t')
      → s.fork_count ≡ t.fork_count
      → s.rows ≡ t.rows
      → n < 2 ^ 64
      → n' < 2 ^ 64
      → ((sr ≡ sr') × (rr ≡ rr') × (n ≡ n')) ⊎ Collision (h.sha256)
  anchor_direct-binding txn txn' m4 header header' sr sr' rr rr' n n' sb rb nb sb' rb' nb' s t {a}
        {b} {s'} {t'} p q counts rows ln ln' =
      let c = anchor_direct-Checked txn m4 header sr rr n sb rb nb s p in
      let d = anchor_direct-Checked txn' m4 header' sr' rr' n' sb' rb' nb' t q in
      let slots : c.slot ≡ d.slot = some_inj (sym c.slot_is ∙ d.slot_is) in
      let roots : c.root ≡ d.root = some_inj (sym c.root_is ∙ d.root_is) in
      elim (header_root-body h header header' c.rooted (d.rooted ∙ ap ok (sym roots))) [
        | inr clash ↦ inr clash
        | inl bodies ↦
            let table : c.gindices ≡ d.gindices = ok_inj (
              sym c.row
              ∙ ap (λ x. Forks.lookup_row x (epoch_at_slot c.slot) s.rows) counts
              ∙ ap (λ x. Forks.lookup_row t.fork_count (epoch_at_slot x) s.rows) slots
              ∙ ap (λ x. Forks.lookup_row t.fork_count (epoch_at_slot d.slot) x) rows
              ∙ d.row) in
            Folded-binding h ln ln' c.folded (
              subst (λ g. Folded h (slice header 80 32) (g.0) (g.1) (g.2) sr' rr' n' sb' rb' nb')
                (sym table)
                (subst
                  (λ x.
                    Folded h x (d.gindices.0) (d.gindices.1) (d.gindices.2) sr' rr' n' sb' rb' nb')
                  (sym bodies) d.folded))
      ]
