-- ===== src/SyncCommittee/Verifier/Installed.antt =====
-- The committees that the verifier installs (contracts/sync_committee/verifier.py).
use eth_avm_light_client.Prelude.{
  ℕ, ◌<◌, ◌≡◌, sym, ap, ◌∙◌, ◌⊎◌, inl, inr, arith, ◌==◌, ==_iff, length,
}
use eth_avm_light_client.Avm.{Bytes, ok, Hashes}
use eth_avm_light_client.Avm.Results.{assert-eq-ok, >>=-eq-ok, ok_inj}
use eth_avm_light_client.Avm.Store.{box_create, box_extract, box_replace}
use eth_avm_light_client.Avm.Store.Ranges.{box_extract-replace_self}
use eth_avm_light_client.Bls.Curve.{Curve}
use eth_avm_light_client.SyncCommittee.Bitfield.{total_box_name}
use eth_avm_light_client.SyncCommittee.Install.{install_process_finalize}
use eth_avm_light_client.SyncCommittee.Install.Committee.{
  IsCommittee, IsCommittee-boxes, finalize-IsCommittee, finalize_sum,
}
use eth_avm_light_client.SyncCommittee.Verifier.{
  Verifier, create, install_finalize, activate, close,
}
use eth_avm_light_client.SyncCommittee.Verifier.Keys.{finalize-same, activate_boxes}
use eth_avm_light_client.SyncCommittee.Verifier.Sessions.{reach-IsSound}
use eth_avm_light_client.SyncCommittee.Verifier.Steps.{Reach}

-- The committee of the session of `s` is installed in `t`: the boxes of its generation hold its
-- keys and the sum of them, it folds to the root of the session, and it is the current committee if
-- there was none, else the next one.
pub record Installed (h : Hashes) (c : Curve) (s t : Verifier) : Type 0 where
  pub sum : Bytes
  pub committee : IsCommittee h c s.inst_gen s.inst_root sum t.boxes
  pub total : box_extract (total_box_name s.inst_gen) 0 96 t.boxes ≡ ok sum
  pub place :
      ((s.cur_gen ≡ 0) × (t.cur_gen ≡ s.inst_gen))
      ⊎ ((0 < s.cur_gen) × (t.cur_gen ≡ s.cur_gen) × (t.next_gen ≡ s.inst_gen))
  pub idle : t.inst_state ≡ 0

module _ (h : Hashes) (c : Curve) where
  finalize_idle :
      (a b : Bytes) (s : Verifier) {t : Verifier}
      → install_finalize h c a b s ≡ ok t
      → t.inst_state ≡ 0
  unfolding install_finalize close
  finalize_idle a b s e = ground arith

  finalize_first :
      (a b : Bytes) (s : Verifier) {t : Verifier}
      → install_finalize h c a b s ≡ ok t
      → s.cur_gen ≡ 0
      → t.cur_gen ≡ s.inst_gen
  unfolding install_finalize close activate
  finalize_first a b s e z = ground arith

  finalize_later :
      (a b : Bytes) (s : Verifier) {t : Verifier}
      → install_finalize h c a b s ≡ ok t
      → 0 < s.cur_gen
      → (t.cur_gen ≡ s.cur_gen) × (t.next_gen ≡ s.inst_gen)
  unfolding install_finalize close activate
  finalize_later a b s e z = ground arith

  zero_or : (n : ℕ) → (n ≡ 0) ⊎ (0 < n)
  zero_or n = ground arith

  place_of :
      (a b : Bytes) (s : Verifier) {t : Verifier}
      → install_finalize h c a b s ≡ ok t
      → ((s.cur_gen ≡ 0) × (t.cur_gen ≡ s.inst_gen))
        ⊎ ((0 < s.cur_gen) × (t.cur_gen ≡ s.cur_gen) × (t.next_gen ≡ s.inst_gen))
  place_of a b s e = elim (zero_or s.cur_gen) [
    | inl z ↦ inl (z, finalize_first a b s e z)
    | inr p ↦ let (cur, nxt) = finalize_later a b s e p in inr (p, cur, nxt)
  ]

  -- An install_finalize that succeeds in a state that calls reach from a created contract installs
  -- the committee of the session: each of the 512 slots of its key boxes holds a point that is
  -- bound to a compressed key, the Merkle root of the compressed keys' leaves with the leaf of an
  -- aggregate key hashes to the session's root, and the box of the sum holds a point that is bound
  -- to that aggregate key. It becomes the current committee if there was none, else the next one,
  -- and no session is in flight.
  pub install_finalize-Installed :
      (governance gvr comp uncomp : Bytes) (s : Verifier) {t : Verifier}
      → Reach h c (create governance gvr) s
      → install_finalize h c comp uncomp s ≡ ok t
      → Installed h c s t
  unfolding install_finalize
  install_finalize-Installed governance gvr comp uncomp s {t} r e =
      let i = reach-IsSound h c governance gvr r in
      let name = total_box_name s.inst_gen in
      let (now, e1) = assert-eq-ok (s.inst_state == 3) "no install session in flight" _ e in
      let ((sum, b1), done, e2) =
        >>=-eq-ok
          (install_process_finalize h c s.inst_gen s.inst_cursor s.inst_root comp uncomp s.boxes) _
          e1 in
      let (b2, made, e3) = >>=-eq-ok (box_create name 96 b1) _ e2 in
      let (b3, put_in, e4) = >>=-eq-ok (box_replace name 0 sum b2) _ e3 in
      let state = (==_iff s.inst_state 3).0 now in
      let size : length sum ≡ 96 =
        finalize_sum h c s.inst_gen s.inst_cursor s.inst_root comp uncomp s.boxes done in
      record {
        sum = sum;
        committee =
            IsCommittee-boxes h c s.inst_gen s.boxes t.boxes
              (finalize-same h c s.inst_gen comp uncomp s e)
              (finalize-IsCommittee h c s.inst_gen s.inst_cursor s.inst_root comp uncomp s.boxes
                (i.filling state) done);
        total =
            ap (λ x. box_extract name 0 96 x.boxes) (sym (ok_inj e4))
            ∙ ap (box_extract name 0 96) (activate_boxes (record s { boxes = b3 }))
            ∙ box_extract-replace_self name 0 96 sum b2 size put_in;
        place = place_of comp uncomp s e;
        idle = finalize_idle comp uncomp s e;
      }
