-- ===== src/SyncCommittee/Header/Binding.antt =====
-- The root of a beacon header, and the body root under it.
use eth_avm_light_client.Prelude.{
  ◌≡◌, sym, subst, ◌∙◌, ◌⊎◌, inl, inr, ◌++◌, ◌==◌, ==_iff, length, arith, List-append_cancel,
}
use eth_avm_light_client.Prelude.Slices.{slice, length-slice}
use eth_avm_light_client.Avm.{Bytes, Result, ok, bzero, Hashes, Collision}
use eth_avm_light_client.Avm.Results.{assert-eq-ok, >>=-eq-ok, ok_inj}
use eth_avm_light_client.Ssz.Branch.Binding.{hash_same}
use eth_avm_light_client.Ssz.Merkleize.{zero_hash}
use eth_avm_light_client.SyncCommittee.Header.{
  beacon_header_bytes, hash_tree_root_beacon_block_header,
}

module _ (h : Hashes) where
  -- The two halves of a hashed pair, where the first halves have one length.
  pair_same :
      (a b a' b' : Bytes)
      → length a ≡ length a'
      → h.sha256 (a ++ b) ≡ h.sha256 (a' ++ b')
      → ((a ≡ a') × (b ≡ b')) ⊎ Collision (h.sha256)
  pair_same a b a' b' len e = elim (hash_same (h.sha256) (a ++ b) (a' ++ b') e) [
    | inl same ↦ inl (List-append_cancel a b a' b' len same)
    | inr c ↦ inr c
  ]

  sizes : (x y : Bytes) → length (h.sha256 x) ≡ length (h.sha256 y)
  sizes x y = h.length-sha256 x ∙ sym (h.length-sha256 y)

  -- The way from the root down to the body root, the first node of the right half.
  descend :
      (n0 l3 body zero_leaf n0' l3' body' : Bytes)
      → length n0 ≡ length n0'
      → length body ≡ length body'
      → h.sha256 (n0 ++ h.sha256 (h.sha256 (body ++ zero_leaf) ++ l3))
        ≡ h.sha256 (n0' ++ h.sha256 (h.sha256 (body' ++ zero_leaf) ++ l3'))
      → (body ≡ body') ⊎ Collision (h.sha256)
  descend n0 l3 body z n0' l3' body' ln lb e = elim (pair_same n0 _ n0' _ ln e) [
    | inr c ↦ inr c
    | inl (_, right) ↦
        elim (pair_same (h.sha256 (body ++ z)) l3 (h.sha256 (body' ++ z)) l3'
          (sizes (body ++ z) (body' ++ z)) right) [
            | inr c ↦ inr c
            | inl (l2, _) ↦ elim (pair_same body z body' z lb l2) [
              | inr c ↦ inr c
              | inl (same, _) ↦ inl same
            ]
          ]
  ]

  pub header_root-body :
      (header header' : Bytes) {root : Bytes}
      → hash_tree_root_beacon_block_header h header ≡ ok root
      → hash_tree_root_beacon_block_header h header' ≡ ok root
      → (slice header 80 32 ≡ slice header' 80 32) ⊎ Collision (h.sha256)
  unfolding hash_tree_root_beacon_block_header
  header_root-body header header' {root} p q =
      let (t, p1) = assert-eq-ok (length header == beacon_header_bytes) "" _ p in
      let (t', q1) = assert-eq-ok (length header' == beacon_header_bytes) "" _ q in
      let (z, ez, p2) = >>=-eq-ok (zero_hash h 0) _ p1 in
      let (z', ez', q2) = >>=-eq-ok (zero_hash h 0) _ q1 in
      let size : length header ≡ 112 = (==_iff (length header) 112).0 t in
      let size' : length header' ≡ 112 = (==_iff (length header') 112).0 t' in
      let zz : z' ≡ z = ok_inj (sym ez' ∙ ez) in
      let q3 = subst (λ w. root_with header' w ≡ ok root) zz q2 in
      descend _ _ (slice header 80 32) z _ _ (slice header' 80 32) (sizes _ _)
        (length-slice header 80 32 (omega arith) ∙ sym (length-slice header' 80 32 (omega arith)))
        (ok_inj (p2 ∙ sym q3))
    where
      root_with : Bytes → Bytes → Result Bytes
      root_with header z = ok (
          h.sha256 (
            h.sha256 (
              h.sha256 ((slice header 0 8 ++ bzero 24) ++ (slice header 8 8 ++ bzero 24))
              ++ h.sha256 (slice header 16 32 ++ slice header 48 32))
            ++ h.sha256 (h.sha256 (slice header 80 32 ++ z) ++ h.sha256 (z ++ z))))
