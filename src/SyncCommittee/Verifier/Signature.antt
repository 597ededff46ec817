-- ===== src/SyncCommittee/Verifier/Signature.antt =====
-- What the signature check of submit_update (contracts/sync_committee/verifier.py) comes down to:
-- the message that is signed and the pairing that is checked.
use eth_avm_light_client.Prelude.{
  ◌≡◌, refl, sym, ap, ◌∙◌, Bool, true, false, not, ◌∷◌, ◌++◌, ◌==◌, length, bytes_eq, String,
  ==_iff,
}
use eth_avm_light_client.Prelude.Slices.{slice}
use eth_avm_light_client.Avm.{Bytes, ok, assert, bzero, Hashes}
use eth_avm_light_client.Avm.Results.{assert-eq-ok, >>=-eq-ok, ok_inj}
use eth_avm_light_client.Bls.Curve.{Curve}
use eth_avm_light_client.Bls.Codec.{
  g1_bytes, g2_bytes, g1_is_infinity, g2_is_infinity, neg_g1_generator,
}
use eth_avm_light_client.Bls.HashToCurve.{hash_to_g2}
use eth_avm_light_client.Bls.Pairing.{pairing_check_2, verify_aggregate_signature}
use eth_avm_light_client.SyncCommittee.Period.{domain_sync_committee, eth_dst}
use eth_avm_light_client.SyncCommittee.Header.{
  hash_tree_root_beacon_block_header, compute_fork_data_root, compute_domain, compute_signing_root,
}
use eth_avm_light_client.SyncCommittee.Verifier.{Verifier}
use eth_avm_light_client.SyncCommittee.Verifier.Update.{Arguments, assert_signed}

-- The bytes of the domain of a sync committee, 0x07000000, for a fork version and the root of the
-- genesis validators.
abbrev pub committee_domain : Hashes → Bytes → Bytes → Bytes
committee_domain h version gvr =
    7 ∷ (0 ∷ (0 ∷ (0 ∷ slice (h.sha256 (version ++ bzero 28 ++ gvr)) 0 28)))

-- The key `agg` has signed `header`: the pairing check of the key with the hashed signing root and of
-- the negative generator with the signature holds, the subgroup check of the signature holds, and
-- none of the three points is the point at infinity.
pub record Signed (h : Hashes) (c : Curve) (agg version gvr header signature : Bytes) : Type 0 where
  pub object_root : Bytes
  pub msg_point : Bytes
  pub four : length version ≡ 4
  pub whole : length gvr ≡ 32
  pub rooted : hash_tree_root_beacon_block_header h header ≡ ok object_root
  pub hashed :
      hash_to_g2 h c (h.sha256 (object_root ++ committee_domain h version gvr)) eth_dst
      ≡ ok msg_point
  pub key : length agg ≡ 96
  pub key_finite : bytes_eq agg (bzero 96) ≡ false
  pub message_finite : bytes_eq msg_point (bzero 192) ≡ false
  pub signature_finite : bytes_eq signature (bzero 192) ≡ false
  pub inside : c.g2_subgroup_check signature ≡ ok true
  pub paired : c.pairing_check (agg ++ neg_g1_generator) (msg_point ++ signature) ≡ ok true

false_of_not : (b : Bool) → not b ≡ true → b ≡ false
false_of_not true e = cc
false_of_not false e = refl

asserted : (b : Bool) (message : String) → assert b message ≡ ok tt → b ≡ true
asserted true message e = refl
asserted false message e = cc

-- A test for infinity that has said no: the length is right and the bytes differ.
g1_finite :
    (p : Bytes) {b : Bool}
    → g1_is_infinity p ≡ ok b
    → not b ≡ true
    → (length p ≡ 96) × (bytes_eq p (bzero 96) ≡ false)
unfolding g1_is_infinity
g1_finite p {b} e finite =
    let (size, e1) = assert-eq-ok (length p == g1_bytes) "" _ e in
    ((==_iff (length p) 96).0 size, ok_inj e1 ∙ false_of_not b finite)

g2_finite :
    (p : Bytes) {b : Bool} → g2_is_infinity p ≡ ok b → not b ≡ true → bytes_eq p (bzero 192) ≡ false
unfolding g2_is_infinity
g2_finite p {b} e finite =
    let (_, e1) = assert-eq-ok (length p == g2_bytes) "" _ e in ok_inj e1 ∙ false_of_not b finite

-- What the domain is, where it is computed.
domain_bytes :
    (h : Hashes) (version gvr : Bytes) {domain : Bytes}
    → compute_domain h domain_sync_committee version gvr ≡ ok domain
    → (length version ≡ 4) × (length gvr ≡ 32) × (domain ≡ committee_domain h version gvr)
unfolding compute_domain compute_fork_data_root
domain_bytes h version gvr {domain} e =
    let (root, made, e1) = >>=-eq-ok (compute_fork_data_root h version gvr) _ e in
    let (four, m1) = assert-eq-ok (length version == 4) "" _ made in
    let (whole, m2) = assert-eq-ok (length gvr == 32) "" _ m1 in
    (
      (==_iff (length version) 4).0 four,
      (==_iff (length gvr) 32).0 whole,
      sym (ok_inj e1) ∙ ap (λ r. 7 ∷ (0 ∷ (0 ∷ (0 ∷ slice r 0 28)))) (sym (ok_inj m2)),
    )

module _ (h : Hashes) (c : Curve) where
  paired_bytes :
      (a0 b0 a1 b1 : Bytes) {r : Bool}
      → pairing_check_2 c a0 b0 a1 b1 ≡ ok r
      → c.pairing_check (a0 ++ a1) (b0 ++ b1) ≡ ok r
  unfolding pairing_check_2
  paired_bytes a0 b0 a1 b1 e =
      let (_, e1) = assert-eq-ok (length a0 == g1_bytes) "" _ e in
      let (_, e2) = assert-eq-ok (length a1 == g1_bytes) "" _ e1 in
      let (_, e3) = assert-eq-ok (length b0 == g2_bytes) "" _ e2 in
      let (_, e4) = assert-eq-ok (length b1 == g2_bytes) "" _ e3 in e4

  pub assert_signed-Signed :
      (agg version : Bytes) (u : Arguments) (s : Verifier)
      → assert_signed h c agg version u s ≡ ok tt
      → Signed h c agg version s.gvr u.attested_header u.signature
  unfolding assert_signed compute_signing_root verify_aggregate_signature
  assert_signed-Signed agg version u s e =
      let (domain, d, e1) = >>=-eq-ok (compute_domain h domain_sync_committee version s.gvr) _ e in
      let (four, whole, is) = domain_bytes h version s.gvr d in
      let (signing_root, r, e2) =
        >>=-eq-ok (compute_signing_root h u.attested_header domain) _ e1 in
      let (_, r1) = assert-eq-ok (length domain == 32) "" _ r in
      let (object_root, rooted, r2) =
        >>=-eq-ok (hash_tree_root_beacon_block_header h u.attested_header) _ r1 in
      let (point, hashed, e3) = >>=-eq-ok (hash_to_g2 h c signing_root eth_dst) _ e2 in
      let (verified, v, e4) = >>=-eq-ok (verify_aggregate_signature c agg point u.signature) _ e3 in
      let (no_key, k, v1) = >>=-eq-ok (g1_is_infinity agg) _ v in
      let (t1, v2) = assert-eq-ok (not no_key) "" _ v1 in
      let (no_message, m, v3) = >>=-eq-ok (g2_is_infinity point) _ v2 in
      let (t2, v4) = assert-eq-ok (not no_message) "" _ v3 in
      let (no_signature, g, v5) = >>=-eq-ok (g2_is_infinity u.signature) _ v4 in
      let (t3, v6) = assert-eq-ok (not no_signature) "" _ v5 in
      let (inside, i, v7) = >>=-eq-ok (c.g2_subgroup_check u.signature) _ v6 in
      let (t4, v8) = assert-eq-ok inside "" _ v7 in
      let true_is : verified ≡ true =
        asserted verified "aggregate signature verification failed" e4 in
      let (size, finite) = g1_finite agg k t1 in
      record {
        object_root = object_root;
        msg_point = point;
        four = four;
        whole = whole;
        rooted = rooted;
        hashed =
            ap (λ d. hash_to_g2 h c (h.sha256 (object_root ++ d)) eth_dst) (sym is)
            ∙ ap (λ m. hash_to_g2 h c m eth_dst) (ok_inj r2)
            ∙ hashed;
        key = size;
        key_finite = finite;
        message_finite = g2_finite point m t2;
        signature_finite = g2_finite u.signature g t3;
        inside = i ∙ ap ok t4;
        paired = paired_bytes agg point neg_g1_generator u.signature v8 ∙ ap ok true_is;
      }
