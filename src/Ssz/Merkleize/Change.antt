-- ===== src/Ssz/Merkleize/Change.antt =====
-- Chunks that come later do not change the accumulator of contracts/primitives/ssz/merkleize.py.
use eth_avm_light_client.Prelude.{
  ℕ, zero, suc, ◌+◌, ◌-◌, ◌*◌, ◌/◌, ◌^◌, ◌≤◌, ◌<◌, ◌≡◌, sym, ap, ap₂, ◌∙◌, ◌⊎◌, inl, inr, ◌++◌,
  arith,
}
use eth_avm_light_client.Avm.{Bytes, Hashes}
use eth_avm_light_client.Ssz.Powers.{div_pow_suc, pow_pos}
use eth_avm_light_client.Ssz.Branch.Tree.{merkle_node}
use eth_avm_light_client.Ssz.Merkleize.Push.{Accumulated}

module _ (h : Hashes) (f g : ℕ → Bytes) where
  -- A node depends on the leaves below it.
  pub merkle_node_cong :
      (d k : ℕ) → ((j : ℕ) → j / 2 ^ d ≡ k → f j ≡ g j) → merkle_node h d f k ≡ merkle_node h d g k
  unfolding merkle_node
  merkle_node_cong zero k same = same k (omega arith)
  merkle_node_cong (suc d) k same =
      let s : d + 1 ≡ suc d = omega arith in
      let half : (j : ℕ) → j / 2 ^ suc d ≡ j / 2 ^ d / 2 =
        λ j. ap (λ t. j / 2 ^ t) (sym s) ∙ div_pow_suc j d in
      ap₂ (λ x y. h.sha256 (x ++ y))
        (merkle_node_cong d (2 * k) (λ j e. same j (half j ∙ ap (λ t. t / 2) e ∙ omega arith)))
        (merkle_node_cong d (2 * k + 1) (λ j e. same j (half j ∙ ap (λ t. t / 2) e ∙ omega arith)))

  order : (a b : ℕ) → (a < b) ⊎ (b ≤ a)
  order a b = ground arith

  below : (i n p : ℕ) → 0 < p → i / p < n / p → i < n
  below i n p pos lo = elim (order i n) [ inl e ↦ e | inr e ↦ absurd (grind arith) ]

  pub Accumulated-cong :
      (n : ℕ) (state : Bytes)
      → ((j : ℕ) → j < n → f j ≡ g j)
      → Accumulated h f n state
      → Accumulated h g n state
  Accumulated-cong n state same st = record {
    slot = λ j odd.
        st.slot j odd
        ∙ merkle_node_cong j (n / 2 ^ j - 1)
            (λ i e. same i (below i n (2 ^ j) (pow_pos j) (omega arith)));
  }
