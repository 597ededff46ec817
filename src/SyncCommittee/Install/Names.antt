-- ===== src/SyncCommittee/Install/Names.antt =====
-- The boxes that the routines of contracts/sync_committee/install.py leave alone.
use eth_avm_light_client.Prelude.{
  ℕ, zero, suc, ◌+◌, ◌*◌, ◌/◌, ◌%◌, ◌<◌, ◌≡◌, ◌≢◌, refl, sym, ap, ◌∙◌, some, get_elem?, arith,
  length, leb, ◌==◌, bytes_eq, ◌++◌,
}
use eth_avm_light_client.Prelude.Slices.{slice}
use eth_avm_light_client.Avm.{Bytes, ok, u64, u64_mod, from_be, itob, Hashes}
use eth_avm_light_client.Avm.Words.{from_be-itob}
use eth_avm_light_client.Avm.Results.{assert-eq-ok, >>=-eq-ok, ok_inj}
use eth_avm_light_client.Avm.Store.{
  Store, remove, remove-other, box_create, box_create-other, box_replace, box_replace-other,
}
use eth_avm_light_client.Bls.Curve.{Curve}
use eth_avm_light_client.Bls.Codec.{g1_bind}
use eth_avm_light_client.Ssz.Merkleize.{merkleize_stack_push, merkleize_stack_finalize}
use eth_avm_light_client.SyncCommittee.Bitfield.{
  key_box_name, total_box_name, keys_per_box, g1_uncompressed_bytes,
}
use eth_avm_light_client.SyncCommittee.Install.{
  session_box_name, key_box_bytes, create_key_boxes, delete_key_boxes, Session, key_leaf,
  install_member, read_session, install_members, install_process_chunk, install_process_finalize,
}

pub key_box_name-apart :
    (g k i j : ℕ) → g < u64_mod → k < u64_mod → g ≢ k → key_box_name g i ≢ key_box_name k j
unfolding key_box_name
key_box_name-apart g k i j lg lk ne e =
    ne (sym (from_be-itob g lg) ∙ ap (λ b. from_be (slice b 2 8)) e ∙ from_be-itob k lk)

some_apart : {a b : ℕ} → a ≢ b → some a ≢ some b
some_apart ne e = ne (ground arith)

pub key_box_name-session : (g k i : ℕ) → key_box_name g i ≢ session_box_name k
unfolding key_box_name session_box_name
key_box_name-session g k i e =
    some_apart {a = 107} {b = 115} (λ q. absurd (omega arith)) (ap (λ b. get_elem? b 0) e)

pub key_box_name-total : (g k i : ℕ) → key_box_name g i ≢ total_box_name k
unfolding key_box_name total_box_name
key_box_name-total g k i e =
    some_apart {a = 107} {b = 97} (λ q. absurd (omega arith)) (ap (λ b. get_elem? b 0) e)

-- A box that is no key box of the generation `gen` stays as it is.
module _ (gen : ℕ) (key : Bytes) (apart : (j : ℕ) → key ≢ key_box_name gen j) where
  pub create_key_boxes-other :
      (m j : ℕ) (boxes : Store) {boxes' : Store}
      → create_key_boxes m j gen boxes ≡ ok boxes'
      → boxes' key ≡ boxes key
  unfolding create_key_boxes
  create_key_boxes-other zero j boxes h = ap (λ c. c key) (sym (ok_inj h))
  create_key_boxes-other (suc m) j boxes h =
      let (made, e, h1) = >>=-eq-ok (box_create (key_box_name gen j) key_box_bytes boxes) _ h in
      create_key_boxes-other m (j + 1) made h1
      ∙ box_create-other (key_box_name gen j) key_box_bytes boxes key (apart j) e

  pub delete_key_boxes-other :
      (m j : ℕ) (boxes : Store) → delete_key_boxes m j gen boxes key ≡ boxes key
  unfolding delete_key_boxes
  delete_key_boxes-other zero j boxes = refl
  delete_key_boxes-other (suc m) j boxes =
      delete_key_boxes-other m (j + 1) (remove (key_box_name gen j) boxes)
      ∙ remove-other (key_box_name gen j) boxes key (apart j)

  module _ (h : Hashes) (c : Curve) where
    install_member-other :
        (i : ℕ) (comp uncomp : Bytes) (session : Session) (boxes : Store) {session' : Session}
        {boxes' : Store}
        → install_member h c gen i comp uncomp session boxes ≡ ok (session', boxes')
        → boxes' key ≡ boxes key
    unfolding install_member
    install_member-other i comp uncomp session boxes e =
        let (_, _, e1) = >>=-eq-ok (g1_bind c uncomp comp) _ e in
        let name = key_box_name gen (i / keys_per_box) in
        let at = i % keys_per_box * g1_uncompressed_bytes in
        let (stored, r, e2) = >>=-eq-ok (box_replace name at uncomp boxes) _ e1 in
        let (_, _, e3) =
          >>=-eq-ok (merkleize_stack_push h session.stack session.filled (key_leaf h comp)) _ e2 in
        let (_, _, e4) = >>=-eq-ok (c.g1_add session.running_sum uncomp) _ e3 in
        ap (λ x. x.1 key) (sym (ok_inj e4))
        ∙ box_replace-other name at uncomp boxes key (apart (i / keys_per_box)) r

    install_members-other :
        (k m cursor : ℕ) (comps uncomps : Bytes) (session : Session) (boxes : Store)
        {session' : Session} {boxes' : Store}
        → install_members h c k m gen cursor comps uncomps session boxes ≡ ok (session', boxes')
        → boxes' key ≡ boxes key
    unfolding install_members
    install_members-other zero m cursor comps uncomps session boxes e =
        ap (λ x. x.1 key) (sym (ok_inj e))
    install_members-other (suc k) m cursor comps uncomps session boxes e =
        let ((s1, b1), one, e1) =
          >>=-eq-ok
            (install_member h c gen (cursor + m) (slice comps (m * 48) 48)
              (slice uncomps (m * 96) 96) session boxes)
            _ e in
        install_members-other k (m + 1) cursor comps uncomps s1 b1 e1
        ∙ install_member-other (cursor + m) (slice comps (m * 48) 48) (slice uncomps (m * 96) 96)
            session boxes one

    pub install_process_chunk-other :
        (cursor : ℕ) (comps uncomps : Bytes) (boxes : Store) {end : ℕ} {boxes' : Store}
        → key ≢ session_box_name gen
        → install_process_chunk h c gen cursor comps uncomps boxes ≡ ok (end, boxes')
        → boxes' key ≡ boxes key
    unfolding install_process_chunk
    install_process_chunk-other cursor comps uncomps boxes ne e =
        let k : ℕ = length comps / 48 in
        let (_, e1) =
          assert-eq-ok (length comps % 48 == 0) "compressed blob not a multiple of 48" _ e in
        let (_, e2) =
          assert-eq-ok (length uncomps == k * 96) "uncompressed blob length mismatch" _ e1 in
        let (end, _, e3) = >>=-eq-ok (u64 (cursor + k)) _ e2 in
        let (_, e4) = assert-eq-ok (leb end 512) "chunk would overflow the committee" _ e3 in
        let (session, _, e5) = >>=-eq-ok (read_session gen boxes) _ e4 in
        let ((s1, b1), all, e6) =
          >>=-eq-ok (install_members h c k 0 gen cursor comps uncomps session boxes) _ e5 in
        let packed : Bytes = s1.stack ++ (itob s1.filled ++ s1.running_sum) in
        let (b2, r, e7) = >>=-eq-ok (box_replace (session_box_name gen) 0 packed b1) _ e6 in
        ap (λ x. x.1 key) (sym (ok_inj e7))
        ∙ box_replace-other (session_box_name gen) 0 packed b1 key ne r
        ∙ install_members-other k 0 cursor comps uncomps session boxes all

pub install_process_finalize-other :
    (h : Hashes) (c : Curve) (gen : ℕ) (key : Bytes) (cursor : ℕ) (root comp uncomp : Bytes)
    (boxes : Store) {sum : Bytes} {boxes' : Store}
    → key ≢ session_box_name gen
    → install_process_finalize h c gen cursor root comp uncomp boxes ≡ ok (sum, boxes')
    → boxes' key ≡ boxes key
unfolding install_process_finalize
install_process_finalize-other h c gen key cursor root comp uncomp boxes ne e =
    let (_, e1) = assert-eq-ok (cursor == 512) "install session incomplete" _ e in
    let (_, e2) = assert-eq-ok (length root == 32) "" _ e1 in
    let (_, e3) = assert-eq-ok (length comp == 48) "" _ e2 in
    let (_, e4) = assert-eq-ok (length uncomp == 96) "" _ e3 in
    let (session, _, e5) = >>=-eq-ok (read_session gen boxes) _ e4 in
    let (vector_root, _, e6) =
      >>=-eq-ok (merkleize_stack_finalize h session.stack session.filled 9) _ e5 in
    let (_, e7) =
      assert-eq-ok (bytes_eq (h.sha256 (vector_root ++ key_leaf h comp)) root)
        "committee does not fold to the trusted root" _ e6 in
    let (_, _, e8) = >>=-eq-ok (g1_bind c uncomp comp) _ e7 in
    let (_, e9) =
      assert-eq-ok (bytes_eq uncomp session.running_sum) "aggregate_pubkey != sum of installed keys"
        _ e8 in
    ap (λ x. x.1 key) (sym (ok_inj e9)) ∙ remove-other (session_box_name gen) boxes key ne

pub session_box_name-apart :
    (g k : ℕ) → g < u64_mod → k < u64_mod → g ≢ k → session_box_name g ≢ session_box_name k
unfolding session_box_name
session_box_name-apart g k lg lk ne e =
    ne (sym (from_be-itob g lg) ∙ ap (λ b. from_be (slice b 2 8)) e ∙ from_be-itob k lk)

pub session_box_name-total : (g k : ℕ) → session_box_name g ≢ total_box_name k
unfolding session_box_name total_box_name
session_box_name-total g k e =
    some_apart {a = 115} {b = 97} (λ q. absurd (omega arith)) (ap (λ b. get_elem? b 0) e)

pub session_box_name-key : (g k i : ℕ) → session_box_name g ≢ key_box_name k i
session_box_name-key g k i e = key_box_name-session k g i (sym e)
