-- ===== src/Ssz/Branch/Binding.antt =====
-- The leaf and the branch under a root, for contracts/primitives/ssz/merkle.py.
use eth_avm_light_client.Prelude.{
  ℕ, zero, suc, ◌+◌, ◌-◌, ◌*◌, ◌/◌, ◌%◌, ◌≤◌, ◌≡◌, refl, sym, ap, ap₂, ◌∙◌, ◌⊎◌, inl, inr, Bool,
  true, false, ◌++◌, if◌then◌else◌, leb, ◌==◌, ==_iff, length, arith, bytes_eq, bytes_eq_sound,
  Bool-cases, List-append_cancel,
}
use eth_avm_light_client.Prelude.Slices.{slice, length-slice, slice_split, slice_all}
use eth_avm_light_client.Avm.{Bytes, ok, bitlen, getbit, Hashes, Collision}
use eth_avm_light_client.Avm.Results.{assert-eq-ok, >>=-eq-ok, ok_inj}
use eth_avm_light_client.Ssz.Branch.{
  branch_fold, compute_merkle_branch_root, assert_valid_merkle_branch,
}

pub hash_same : (f : Bytes → Bytes) (x y : Bytes) → f x ≡ f y → (x ≡ y) ⊎ Collision f
hash_same f x y e = elim (Bool-cases (bytes_eq x y)) [
  | inl same ↦ inl (bytes_eq_sound x y same)
  | inr differ ↦ inr (record { left = x; right = y; differ = differ; same = e })
]

module _ (h : Hashes) where
  parent : Bool → Bytes → Bytes → Bytes
  parent t s a = if t then h.sha256 (s ++ a) else h.sha256 (a ++ s)

  length-parent : (t : Bool) (s a : Bytes) → length (parent t s a) ≡ 32
  unfolding parent
  length-parent true s a = h.length-sha256 (s ++ a)
  length-parent false s a = h.length-sha256 (a ++ s)

  parent-binding :
      (t : Bool) (s a s' a' : Bytes)
      → length s ≡ 32
      → length a ≡ 32
      → length s' ≡ 32
      → length a' ≡ 32
      → parent t s a ≡ parent t s' a'
      → ((a ≡ a') × (s ≡ s')) ⊎ Collision (h.sha256)
  unfolding parent
  parent-binding true s a s' a' ls la ls' la' e =
      elim (hash_same (h.sha256) (s ++ a) (s' ++ a') e) [
        | inl same ↦ let (p, q) = List-append_cancel s a s' a' (ls ∙ sym ls') same in inl (q, p)
        | inr c ↦ inr c
      ]
  parent-binding false s a s' a' ls la ls' la' e =
      elim (hash_same (h.sha256) (a ++ s) (a' ++ s') e) [
        | inl same ↦ let (p, q) = List-append_cancel a s a' s' (la ∙ sym la') same in inl (p, q)
        | inr c ↦ inr c
      ]

  fold-binding :
      (m i : ℕ) (a a' b b' : Bytes) (gindex : ℕ)
      → length a ≡ 32
      → length a' ≡ 32
      → (i + m) * 32 ≤ length b
      → (i + m) * 32 ≤ length b'
      → branch_fold h m i a b gindex ≡ branch_fold h m i a' b' gindex
      → ((a ≡ a') × (slice b (i * 32) (m * 32) ≡ slice b' (i * 32) (m * 32))) ⊎ Collision (h.sha256)
  unfolding branch_fold parent
  fold-binding zero i a a' b b' gindex la la' lb lb' e = inl (e, refl)
  fold-binding (suc m) i a a' b b' gindex la la' lb lb' e =
      let t : Bool = getbit gindex i in
      let s : Bytes = slice b (i * 32) 32 in
      let s' : Bytes = slice b' (i * 32) 32 in
      elim (fold-binding m (i + 1) (parent t s a) (parent t s' a') b b' gindex (length-parent t s a)
        (length-parent t s' a') (omega arith) (omega arith) e) [
          | inr c ↦ inr c
          | inl (up, rest) ↦
              elim (parent-binding t s a s' a' (length-slice b (i * 32) 32 (omega arith)) la
                (length-slice b' (i * 32) 32 (omega arith)) la' up) [
                  | inr c ↦ inr c
                  | inl (same, sib) ↦ inl (same, join sib rest)
                ]
        ]
    where
      join :
          slice b (i * 32) 32 ≡ slice b' (i * 32) 32
          → slice b ((i + 1) * 32) (m * 32) ≡ slice b' ((i + 1) * 32) (m * 32)
          → slice b (i * 32) (suc m * 32) ≡ slice b' (i * 32) (suc m * 32)
      join sib rest =
          let size : suc m * 32 ≡ 32 + m * 32 = omega arith in
          let next : i * 32 + 32 ≡ (i + 1) * 32 = omega arith in
          ap (slice b (i * 32)) size
          ∙ slice_split b (i * 32) 32 (m * 32)
          ∙ ap₂ (λ x y. x ++ y) sib
              (ap (λ o. slice b o (m * 32)) next ∙ rest ∙ ap (λ o. slice b' o (m * 32)) (sym next))
          ∙ sym (slice_split b' (i * 32) 32 (m * 32))
          ∙ ap (slice b' (i * 32)) (sym size)

  -- What a branch that is accepted has passed.
  pub record Accepted (leaf branch : Bytes) (gindex : ℕ) (root : Bytes) : Type 0 where
    pub leaf_size : length leaf ≡ 32
    pub depth : length branch ≡ (bitlen gindex - 1) * 32
    pub folds : branch_fold h (bitlen gindex - 1) 0 leaf branch gindex ≡ root

  pub valid_branch-Accepted :
      (leaf branch : Bytes) (gindex : ℕ) (root : Bytes)
      → assert_valid_merkle_branch h leaf branch gindex root ≡ ok tt
      → Accepted leaf branch gindex root
  unfolding assert_valid_merkle_branch compute_merkle_branch_root
  valid_branch-Accepted leaf branch gindex root e =
      let (_, e1) = assert-eq-ok (length root == 32) _ _ e in
      let (r, c, e2) = >>=-eq-ok (compute_merkle_branch_root h leaf branch gindex) _ e1 in
      let (size, c1) = assert-eq-ok (length leaf == 32) _ _ c in
      let (_, c2) = assert-eq-ok (leb 1 gindex) _ _ c1 in
      let (_, c3) = assert-eq-ok (leb (bitlen gindex) 62) _ _ c2 in
      let (even, c4) = assert-eq-ok (length branch % 32 == 0) _ _ c3 in
      let (deep, c5) = assert-eq-ok (length branch / 32 == bitlen gindex - 1) _ _ c4 in
      let whole : length branch % 32 ≡ 0 = (==_iff (length branch % 32) 0).0 even in
      let slots : length branch / 32 ≡ bitlen gindex - 1 =
        (==_iff (length branch / 32) (bitlen gindex - 1)).0 deep in
      record {
        leaf_size = (==_iff (length leaf) 32).0 size;
        depth = omega arith;
        folds = ok_inj c5 ∙ bytes_eq_sound r root (ground arith);
      }

  -- Two pairs of a leaf and a branch that assert_valid_merkle_branch accepts at one generalized
  -- index under one root are equal, leaf and branch, or two inputs of sha256 that collide are
  -- given.
  pub valid_branch-binding :
      (leaf leaf' branch branch' : Bytes) (gindex : ℕ) (root : Bytes)
      → assert_valid_merkle_branch h leaf branch gindex root ≡ ok tt
      → assert_valid_merkle_branch h leaf' branch' gindex root ≡ ok tt
      → ((leaf ≡ leaf') × (branch ≡ branch')) ⊎ Collision (h.sha256)
  valid_branch-binding leaf leaf' branch branch' gindex root p q =
      let a = valid_branch-Accepted leaf branch gindex root p in
      let b = valid_branch-Accepted leaf' branch' gindex root q in
      elim (fold-binding (bitlen gindex - 1) 0 leaf leaf' branch branch' gindex a.leaf_size
        b.leaf_size (omega (arith, a.depth)) (omega (arith, b.depth)) (a.folds ∙ sym b.folds)) [
          | inr c ↦ inr c
          | inl (same, all) ↦ inl (
            same,
            sym (slice_all branch ((bitlen gindex - 1) * 32) (omega (arith, a.depth)))
                ∙ all
                ∙ slice_all branch' ((bitlen gindex - 1) * 32) (omega (arith, b.depth)),
          )
        ]
