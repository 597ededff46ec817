-- ===== src/Ssz/Branch/Padding.antt =====
-- The padding of a normalized branch, for contracts/primitives/ssz/merkle.py.
use eth_avm_light_client.Prelude.{
  ℕ, zero, suc, ◌+◌, ◌-◌, ◌*◌, ◌/◌, ◌%◌, ◌≡◌, refl, sym, ap, ap₂, ◌∙◌, ◌⊎◌, inl, inr, ◌++◌, ◌∷◌,
  ◌==◌, length, arith, leb, bytes_eq, bytes_eq_sound, replicate,
}
use eth_avm_light_client.Prelude.Slices.{slice, slice_split, slice_all}
use eth_avm_light_client.Avm.{Bytes, ok, bitlen, bzero, Hashes, Collision}
use eth_avm_light_client.Avm.Results.{assert-eq-ok, >>=-eq-ok}
use eth_avm_light_client.Ssz.Branch.{
  padding_loop, assert_valid_merkle_branch, assert_valid_normalized_merkle_branch,
}
use eth_avm_light_client.Ssz.Branch.Binding.{valid_branch-binding}

replicate-append : (m n x : ℕ) → replicate (m + n) x ≡ replicate m x ++ replicate n x
replicate-append zero n x = let e : 0 + n ≡ n = omega arith in ap (λ t. replicate t x) e
replicate-append (suc m) n x =
    let e : suc m + n ≡ suc (m + n) = omega arith in rw e (ap (λ t. x ∷ t) (replicate-append m n x))

-- The padding that the loop accepts is zero.
padding-zero :
    (h : Hashes) (m i : ℕ) (branch : Bytes)
    → padding_loop h m i branch ≡ ok tt
    → slice branch (i * 32) (m * 32) ≡ bzero (m * 32)
unfolding padding_loop
padding-zero h zero i branch e = refl
padding-zero h (suc m) i branch e =
    let (t, e') = assert-eq-ok (bytes_eq (slice branch (i * 32) 32) (bzero 32)) _ _ e in
    let here = bytes_eq_sound (slice branch (i * 32) 32) (bzero 32) t in
    let rest = padding-zero h m (i + 1) branch e' in
    let size : suc m * 32 ≡ 32 + m * 32 = omega arith in
    let next : i * 32 + 32 ≡ (i + 1) * 32 = omega arith in
    ap (slice branch (i * 32)) size
    ∙ slice_split branch (i * 32) 32 (m * 32)
    ∙ ap₂ (λ x y. x ++ y) here (ap (λ o. slice branch o (m * 32)) next ∙ rest)
    ∙ sym (replicate-append 32 (m * 32) 0)
    ∙ ap bzero (sym size)

module _ (h : Hashes) where
  -- A normalized branch is zero padding in front of a branch that verifies.
  pub record Normalized (leaf branch : Bytes) (gindex : ℕ) (root : Bytes) : Type 0 where
    pub real : Bytes
    pub padding : branch ≡ bzero ((length branch / 32 - (bitlen gindex - 1)) * 32) ++ real
    pub valid : assert_valid_merkle_branch h leaf real gindex root ≡ ok tt

  pub assert_valid_normalized_merkle_branch-Normalized :
      (leaf branch : Bytes) (gindex : ℕ) (root : Bytes)
      → assert_valid_normalized_merkle_branch h leaf branch gindex root ≡ ok tt
      → Normalized leaf branch gindex root
  unfolding assert_valid_normalized_merkle_branch
  assert_valid_normalized_merkle_branch-Normalized leaf branch gindex root e =
      let extra : ℕ = length branch / 32 - (bitlen gindex - 1) in
      let (_, e1) = assert-eq-ok (leb 1 gindex) _ _ e in
      let (_, e2) = assert-eq-ok (leb (bitlen gindex) 62) _ _ e1 in
      let (_, e3) = assert-eq-ok (length branch % 32 == 0) _ _ e2 in
      let (deep, e4) = assert-eq-ok (leb (bitlen gindex - 1) (length branch / 32)) _ _ e3 in
      let (_, pad, e5) = >>=-eq-ok (padding_loop h extra 0 branch) _ e4 in
      let zeros = padding-zero h extra 0 branch pad in
      let size : length branch ≡ extra * 32 + (length branch - extra * 32) = omega arith in
      record {
        real = slice branch (extra * 32) (length branch - extra * 32);
        padding =
            sym (slice_all branch (extra * 32 + (length branch - extra * 32)) (omega arith))
            ∙ slice_split branch 0 (extra * 32) (length branch - extra * 32)
            ∙ ap₂ (λ x y. x ++ y) zeros
                (ap (λ o. slice branch o (length branch - extra * 32)) (omega arith));
        valid = e5;
      }

  -- Two pairs of a leaf and a normalized branch, the branches of one length, that are accepted at
  -- one generalized index under one root are equal, leaf and padded branch, or two inputs of sha256
  -- that collide are given.
  pub normalized_branch_unique :
      (leaf leaf' branch branch' : Bytes) (gindex : ℕ) (root : Bytes)
      → length branch ≡ length branch'
      → assert_valid_normalized_merkle_branch h leaf branch gindex root ≡ ok tt
      → assert_valid_normalized_merkle_branch h leaf' branch' gindex root ≡ ok tt
      → ((leaf ≡ leaf') × (branch ≡ branch')) ⊎ Collision (h.sha256)
  normalized_branch_unique leaf leaf' branch branch' gindex root size p q =
      let a = assert_valid_normalized_merkle_branch-Normalized leaf branch gindex root p in
      let b = assert_valid_normalized_merkle_branch-Normalized leaf' branch' gindex root q in
      elim (valid_branch-binding h leaf leaf' a.real b.real gindex root a.valid b.valid) [
        | inr c ↦ inr c
        | inl (same, real) ↦ inl (
          same,
          a.padding
              ∙ ap₂ (λ n r. bzero ((n / 32 - (bitlen gindex - 1)) * 32) ++ r) size real
              ∙ sym b.padding,
        )
      ]
