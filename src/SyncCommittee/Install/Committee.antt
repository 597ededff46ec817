-- ===== src/SyncCommittee/Install/Committee.antt =====
-- From a session to a committee (contracts/sync_committee/install.py).
pub mod Held
use eth_avm_light_client.Prelude.{
  [], ℕ, ◌+◌, ◌*◌, ◌/◌, ◌%◌, ◌^◌, ◌≤◌, ◌<◌, ◌≡◌, refl, sym, ap, ap₂, subst, ◌∙◌, arith, length, leb,
  ◌==◌, bytes_eq, bytes_eq_sound, ◌++◌, if◌then◌else◌, leb→le, ltb, ==_iff, length-append, none,
}
use eth_avm_light_client.Prelude.Slices.{
  slice, slice-middle, slice-append_skip, slice-append_within, slice_all,
}
use eth_avm_light_client.Avm.{Bytes, ok, ◌>>=◌, u64, btoi, itob, bzero, Hashes}
use eth_avm_light_client.Avm.Words.{btoi-itob, length-be}
use eth_avm_light_client.Avm.Results.{assert-eq-ok, >>=-eq-ok, ok_inj, u64-eq-ok}
use eth_avm_light_client.Avm.Store.{
  Store, box_create_new, box_extract-put, box_replace, box_replace-other,
}
use eth_avm_light_client.Avm.Store.Ranges.{box_extract-same, box_extract-replace_self}
use eth_avm_light_client.Bls.Curve.{Curve}
use eth_avm_light_client.Bls.Codec.{g1_bind}
use eth_avm_light_client.Ssz.Powers.{div_small_pow, pow_pos}
use eth_avm_light_client.Ssz.Branch.Tree.{merkle_node}
use eth_avm_light_client.Ssz.Merkleize.{merkleize_stack_finalize}
use eth_avm_light_client.Ssz.Merkleize.Push.{Accumulated}
use eth_avm_light_client.Ssz.Merkleize.Finalize.{merkleize_stack_finalize-root}
use eth_avm_light_client.Ssz.Merkleize.Change.{Accumulated-cong, merkle_node_cong}
use eth_avm_light_client.SyncCommittee.Bitfield.{key_box_name}
use eth_avm_light_client.SyncCommittee.Install.{
  Session, key_leaf, session_box_name, read_session, parse_session, install_members,
  install_process_chunk, install_process_finalize, install_open_session_box,
}
use eth_avm_light_client.SyncCommittee.Install.Names.{key_box_name-session}
use eth_avm_light_client.SyncCommittee.Install.Filling.{key_at, Filled, install_members-Filled}
use eth_avm_light_client.SyncCommittee.Install.Committee.Held.{
  padded, padded_front, padded_past, Holds,
}

module _ (h : Hashes) (c : Curve) (gen : ℕ) where
  -- The boxes of a generation hold the 512 keys of a committee with the root `root` and the sum
  -- `sum`.
  pub record IsCommittee (root sum : Bytes) (boxes : Store) : Type 0 where
    pub comps : ℕ → Bytes
    pub aggregate : Bytes
    pub keys :
        (i : ℕ)
        → i < 512
        → (key : Bytes) × (key_at gen i boxes ≡ ok key) × (g1_bind c key (comps i) ≡ ok tt)
    pub total : g1_bind c sum aggregate ≡ ok tt
    pub folds :
        h.sha256 (merkle_node h 9 (λ i. key_leaf h (comps i)) 0 ++ key_leaf h aggregate) ≡ root

  -- The root of 512 chunks, whatever a function says of the chunks behind them.
  pub full_root :
      (leaf : ℕ → Bytes) (state : Bytes)
      → Accumulated h leaf 512 state
      → merkleize_stack_finalize h state 512 9 ≡ ok (merkle_node h 9 leaf 0)
  full_root leaf state st =
      merkleize_stack_finalize-root h (padded leaf) 512 (λ j lo. padded_past leaf j lo) 9 state
        (Accumulated-cong h leaf (padded leaf) 512 state (λ j lo. sym (padded_front leaf j lo)) st)
        (omega arith) (omega arith)
      ∙ ap ok (merkle_node_cong h (padded leaf) leaf 9 0 (λ j e. padded_front leaf j (omega arith)))

  pub finalize-IsCommittee :
      (cursor : ℕ) (root comp uncomp : Bytes) (boxes : Store) {sum : Bytes} {boxes' : Store}
      → Holds h c gen cursor boxes
      → install_process_finalize h c gen cursor root comp uncomp boxes ≡ ok (sum, boxes')
      → IsCommittee root sum boxes
  unfolding install_process_finalize Filled
  finalize-IsCommittee cursor root comp uncomp boxes m e =
      let (done, e1) = assert-eq-ok (cursor == 512) "install session incomplete" _ e in
      let (_, e2) = assert-eq-ok (length root == 32) "" _ e1 in
      let (_, e3) = assert-eq-ok (length comp == 48) "" _ e2 in
      let (_, e4) = assert-eq-ok (length uncomp == 96) "" _ e3 in
      let (session, rd, e5) = >>=-eq-ok (read_session gen boxes) _ e4 in
      let (vector_root, vr, e6) =
        >>=-eq-ok (merkleize_stack_finalize h session.stack session.filled 9) _ e5 in
      let (fold, e7) =
        assert-eq-ok (bytes_eq (h.sha256 (vector_root ++ key_leaf h comp)) root)
          "committee does not fold to the trusted root" _ e6 in
      let (_, tied, e8) = >>=-eq-ok (g1_bind c uncomp comp) _ e7 in
      let (agree, e9) =
        assert-eq-ok (bytes_eq uncomp session.running_sum)
          "aggregate_pubkey != sum of installed keys" _ e8 in
      let all : cursor ≡ 512 = (==_iff cursor 512).0 done in
      let here : m.session ≡ session = ok_inj (sym m.read ∙ rd) in
      let (comps, f) = subst (λ s. Filled h c gen cursor s boxes) here m.filled in
      let leaf : ℕ → Bytes = λ i. key_leaf h (comps i) in
      let count : session.filled ≡ 512 = f.filled ∙ all in
      let root_is : vector_root ≡ merkle_node h 9 leaf 0 = ok_inj (
        sym vr
        ∙ ap (λ n. merkleize_stack_finalize h session.stack n 9) count
        ∙ full_root leaf session.stack
            (subst (λ n. Accumulated h leaf n session.stack) all f.stack)) in
      record {
        comps = comps;
        aggregate = comp;
        keys = λ i lo. f.bound i (omega (arith, all));
        total =
            ap (λ k. g1_bind c k comp)
              (sym (ap (λ x. x.0) (ok_inj e9))
                ∙ sym (bytes_eq_sound uncomp session.running_sum agree))
            ∙ tied;
        folds =
            ap (λ r. h.sha256 (r ++ key_leaf h comp)) (sym root_is)
            ∙ bytes_eq_sound (h.sha256 (vector_root ++ key_leaf h comp)) root fold;
      }

  -- The sum has 96 bytes, as the aggregate key has.
  pub finalize_sum :
      (cursor : ℕ) (root comp uncomp : Bytes) (boxes : Store) {sum : Bytes} {boxes' : Store}
      → install_process_finalize h c gen cursor root comp uncomp boxes ≡ ok (sum, boxes')
      → length sum ≡ 96
  unfolding install_process_finalize
  finalize_sum cursor root comp uncomp boxes e =
      let (_, e1) = assert-eq-ok (cursor == 512) "install session incomplete" _ e in
      let (_, e2) = assert-eq-ok (length root == 32) "" _ e1 in
      let (_, e3) = assert-eq-ok (length comp == 48) "" _ e2 in
      let (wide, e4) = assert-eq-ok (length uncomp == 96) "" _ e3 in
      let (session, _, e5) = >>=-eq-ok (read_session gen boxes) _ e4 in
      let (vector_root, _, e6) =
        >>=-eq-ok (merkleize_stack_finalize h session.stack session.filled 9) _ e5 in
      let (_, e7) =
        assert-eq-ok (bytes_eq (h.sha256 (vector_root ++ key_leaf h comp)) root)
          "committee does not fold to the trusted root" _ e6 in
      let (_, _, e8) = >>=-eq-ok (g1_bind c uncomp comp) _ e7 in
      let (agree, e9) =
        assert-eq-ok (bytes_eq uncomp session.running_sum)
          "aggregate_pubkey != sum of installed keys" _ e8 in
      ap length
        (sym (ap (λ x. x.0) (ok_inj e9)) ∙ sym (bytes_eq_sound uncomp session.running_sum agree))
      ∙ (==_iff (length uncomp) 96).0 wide

  pub IsCommittee-boxes :
      {root sum : Bytes} (boxes boxes' : Store)
      → ((j : ℕ) → boxes' (key_box_name gen j) ≡ boxes (key_box_name gen j))
      → IsCommittee root sum boxes
      → IsCommittee root sum boxes'
  IsCommittee-boxes boxes boxes' same m = record {
    comps = m.comps;
    aggregate = m.aggregate;
    keys = λ i lo.
        let (k, there, tied) = m.keys i lo in
        (
          k,
          box_extract-same (key_box_name gen (i / 64)) (i % 64 * 96) 96 boxes boxes' (same (i / 64))
              ∙ there,
          tied,
        );
    total = m.total;
    folds = m.folds;
  }
