-- ===== src/SyncCommittee/Verifier/Checks.antt =====
-- What submit_update (contracts/sync_committee/verifier.py) has checked when its checks pass.
use eth_avm_light_client.Prelude.{
  ℕ, ◌+◌, ◌≤◌, ◌<◌, ◌≡◌, sym, ap, subst, inl, inr, Bool, true, false, not, ltb→lt, leb→le, arith,
  ltb, leb, ◌==◌, ◌||◌, if◌then◌else◌, ==_iff,
}
use eth_avm_light_client.Prelude.Slices.{slice}
use eth_avm_light_client.Avm.{Bytes, Result, ok, Hashes}
use eth_avm_light_client.Avm.Results.{assert-eq-ok, >>=-eq-ok, ok_inj, if-eq-ok}
use eth_avm_light_client.Bls.Curve.{Curve}
use eth_avm_light_client.Ssz.Branch.{assert_valid_normalized_merkle_branch}
use eth_avm_light_client.SyncCommittee.Period.{
  period_at_slot, fork_version_epoch_for_signature_slot,
}
use eth_avm_light_client.SyncCommittee.Header.{
  header_slot, epoch_at_slot, hash_tree_root_beacon_block_header,
}
use eth_avm_light_client.SyncCommittee.Forks.{lookup_fork_version, lookup_gindices}
use eth_avm_light_client.SyncCommittee.Bitfield.{aggregate_participants}
use eth_avm_light_client.SyncCommittee.Verifier.{Verifier, zero32}
use eth_avm_light_client.SyncCommittee.Verifier.Update.{
  Arguments, Checked, check_update, select_committee, assert_signed, has_next_proof,
}

-- The committee that signs, by the period of the signature.
pub data Signs (sig_slot : ℕ) (s : Verifier) (using_next : Bool) (gen : ℕ) : Type 0 where
  current :
      using_next ≡ false
      → period_at_slot sig_slot ≡ period_at_slot s.fin_slot
      → gen ≡ s.cur_gen
      → 0 < gen
      → Signs sig_slot s using_next gen
  following :
      using_next ≡ true
      → period_at_slot sig_slot ≡ period_at_slot s.fin_slot + 1
      → gen ≡ s.next_gen
      → 0 < gen
      → Signs sig_slot s using_next gen

nonzero : (g : ℕ) → not (g == 0) ≡ true → 0 < g
nonzero g h = ground arith

same_period : (a b : ℕ) (n : Bool) → (a == b || n) ≡ true → n ≡ false → a ≡ b
same_period a b n h e = ground arith

pub select-Signs :
    (sig_slot : ℕ) (s : Verifier) {using_next : Bool} {gen : ℕ}
    → select_committee sig_slot s ≡ ok (using_next, gen)
    → Signs sig_slot s using_next gen
unfolding select_committee
select-Signs sig_slot s {using_next} {gen} h =
    let p : ℕ = period_at_slot sig_slot in
    let q : ℕ = period_at_slot s.fin_slot in
    let (near, h1) =
      assert-eq-ok (p == q || p == q + 1) "signature period skips a sync-committee period" _ h in
    elim (if-eq-ok (p == q + 1) _ _ h1) [
      | inl (after, h2) ↦
          let (known, h3) =
            assert-eq-ok (not (s.next_gen == 0)) "next committee is not known" _ h2 in
          let e = ok_inj h3 in
          let g : s.next_gen ≡ gen = ap (λ x. x.1) e in
          following (sym (ap (λ x. x.0) e)) ((==_iff p (q + 1)).0 after) (sym g)
            (subst (λ n. 0 < n) g (nonzero s.next_gen known))
      | inr (within, h2) ↦
          let (known, h3) = assert-eq-ok (not (s.cur_gen == 0)) "no committee installed" _ h2 in
          let e = ok_inj h3 in
          let g : s.cur_gen ≡ gen = ap (λ x. x.1) e in
          current (sym (ap (λ x. x.0) e)) (same_period p q (p == q + 1) near within) (sym g)
            (subst (λ n. 0 < n) g (nonzero s.cur_gen known))
    ]

-- The facts behind a checked update.
pub record Verified (h : Hashes) (c : Curve) (u : Arguments) (s : Verifier) (k : Checked)
    : Type 0 where
  pub gen : ℕ
  pub version : Bytes
  pub finality_gindex : ℕ
  pub current_sc_gindex : ℕ
  pub next_sc_gindex : ℕ
  pub agg_pubkey : Bytes
  pub attested : header_slot u.attested_header ≡ ok k.attested_slot
  pub finalized : header_slot u.finalized_header ≡ ok k.finalized_slot
  pub before : k.attested_slot < u.signature_slot
  pub within : k.finalized_slot ≤ k.attested_slot
  pub signs : Signs u.signature_slot s k.using_next gen
  pub fork :
      lookup_fork_version s.fork_count
        (fork_version_epoch_for_signature_slot u.signature_slot)
        s.rows
      ≡ ok version
  pub gindices :
      lookup_gindices s.fork_count (epoch_at_slot k.attested_slot) s.rows
      ≡ ok (finality_gindex, current_sc_gindex, next_sc_gindex)
  pub leaf :
      (if k.finalized_slot == 0
        then ok zero32
        else hash_tree_root_beacon_block_header h u.finalized_header)
      ≡ ok k.finalized_leaf
  pub finality :
      assert_valid_normalized_merkle_branch h k.finalized_leaf u.finality_branch finality_gindex
        (slice u.attested_header 48 32)
      ≡ ok tt
  pub committee :
      has_next_proof u ≡ true
      → assert_valid_normalized_merkle_branch h u.next_committee_root u.next_committee_branch
          next_sc_gindex
          (slice u.attested_header 48 32)
        ≡ ok tt
  pub aggregate :
      aggregate_participants c.g1_add s.boxes u.sync_committee_bits gen u.mode
      ≡ ok (agg_pubkey, k.popcount)
  pub some_sign : 1 ≤ k.popcount
  pub signed : assert_signed h c agg_pubkey version u s ≡ ok tt

branch_taken :
    (t : Bool) (r : Result (Unit {0})) → (if t then r else ok tt) ≡ ok tt → t ≡ true → r ≡ ok tt
branch_taken true r h e = h
branch_taken false r h e = cc

module _ (h : Hashes) (c : Curve) where
  pub check_update-Verified :
      (u : Arguments) (s : Verifier) {k : Checked}
      → check_update h c u s ≡ ok k
      → Verified h c u s k
  unfolding check_update
  check_update-Verified u s {k} e =
      let (a, at, e1) = >>=-eq-ok (header_slot u.attested_header) _ e in
      let (f, fin, e2) = >>=-eq-ok (header_slot u.finalized_header) _ e1 in
      let (t1, e3) =
        assert-eq-ok (ltb a u.signature_slot) "signature_slot must exceed attested_slot" _ e2 in
      let (t2, e4) = assert-eq-ok (leb f a) "attested_slot must be >= finalized_slot" _ e3 in
      let ((n, g), sel, e5) = >>=-eq-ok (select_committee u.signature_slot s) _ e4 in
      let (v, fk, e6) =
        >>=-eq-ok
          (lookup_fork_version s.fork_count (fork_version_epoch_for_signature_slot u.signature_slot)
            s.rows)
          _ e5 in
      let ((fg, cg, ng), gi, e7) =
        >>=-eq-ok (lookup_gindices s.fork_count (epoch_at_slot a) s.rows) _ e6 in
      let (l, lf, e8) =
        >>=-eq-ok
          (if f == 0 then ok zero32 else hash_tree_root_beacon_block_header h u.finalized_header) _
          e7 in
      let (_, br, e9) =
        >>=-eq-ok
          (assert_valid_normalized_merkle_branch h l u.finality_branch fg
            (slice u.attested_header 48 32))
          _ e8 in
      let (_, nb, e10) =
        >>=-eq-ok
          (if has_next_proof u
            then assert_valid_normalized_merkle_branch h u.next_committee_root
                u.next_committee_branch ng (slice u.attested_header 48 32)
            else ok tt)
          _ e9 in
      let ((agg, pop), ag, e11) =
        >>=-eq-ok (aggregate_participants c.g1_add s.boxes u.sync_committee_bits g u.mode) _ e10 in
      let (t3, e12) = assert-eq-ok (leb 1 pop) "insufficient participation" _ e11 in
      let (_, sg, e13) = >>=-eq-ok (assert_signed h c agg v u s) _ e12 in
      let q = ok_inj e13 in
      subst (Verified h c u s) q (record {
        gen = g;
        version = v;
        finality_gindex = fg;
        current_sc_gindex = cg;
        next_sc_gindex = ng;
        agg_pubkey = agg;
        attested = at;
        finalized = fin;
        before = ltb→lt a u.signature_slot t1;
        within = leb→le f a t2;
        signs = select-Signs u.signature_slot s sel;
        fork = fk;
        gindices = gi;
        leaf = lf;
        finality = br;
        committee = branch_taken (has_next_proof u) _ nb;
        aggregate = ag;
        some_sign = leb→le 1 pop t3;
        signed = sg;
      })
