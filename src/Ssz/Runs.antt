-- ===== src/Ssz/Runs.antt =====
-- The SSZ routines on small trees, with the hash of the tests.
use eth_avm_light_client.Prelude.{
  ℕ, ◌+◌, ◌^◌, ◌≤◌, ◌≡◌, refl, ◌⊎◌, [], ◌∷◌, ◌++◌, if◌then◌else◌, ltb, false, arith, bytes_eq,
}
use eth_avm_light_client.Avm.{Bytes, ok, ◌>>=◌, bzero, bitlen, bitlen_fuel, Collision}
use eth_avm_light_client.Toy.{digest, toy}
use eth_avm_light_client.Ssz.Branch.{
  branch_fold, padding_loop, compute_merkle_branch_root, assert_valid_merkle_branch,
  assert_valid_normalized_merkle_branch,
}
use eth_avm_light_client.Ssz.Branch.Tree.{merkle_node, siblings, branch_root-siblings}
use eth_avm_light_client.Ssz.Branch.Binding.{valid_branch-binding}
use eth_avm_light_client.Ssz.Branch.Padding.{normalized_branch_unique}
use eth_avm_light_client.Ssz.Merkleize.{merkleize_stack_finalize}
use eth_avm_light_client.Ssz.Merkleize.Finalize.{push_chunks, merkleize-root}

abbrev chunks : ℕ → Bytes
chunks j = digest (if ltb j 3 then (j + 1) ∷ [] else [])

abbrev sibling : Bytes
sibling = digest (9 ∷ [])

abbrev root : Bytes
root = digest (chunks 0 ++ sibling)

sibling_valid : assert_valid_merkle_branch toy (chunks 0) sibling 2 root ≡ ok tt
unfolding assert_valid_merkle_branch compute_merkle_branch_root branch_fold bitlen bitlen_fuel
    bytes_eq
sibling_valid = refl

padded_valid :
    assert_valid_normalized_merkle_branch toy (chunks 0) (bzero 32 ++ sibling) 2 root ≡ ok tt
unfolding assert_valid_normalized_merkle_branch assert_valid_merkle_branch
    compute_merkle_branch_root branch_fold padding_loop bitlen bitlen_fuel bytes_eq
padded_valid = refl

no_chunk : (j : ℕ) → 3 ≤ j → chunks j ≡ bzero 32
no_chunk j h = let e : ltb j 3 ≡ false = ground arith in rw e refl

valid_branch-binding_example : ((chunks 0 ≡ chunks 0) × (sibling ≡ sibling)) ⊎ Collision digest
valid_branch-binding_example =
    valid_branch-binding toy (chunks 0) (chunks 0) sibling sibling 2 root sibling_valid
      sibling_valid

branch_root-siblings_example :
    compute_merkle_branch_root toy (chunks 1) (siblings toy 2 0 chunks 1) (2 ^ 2 + 1)
    ≡ ok (merkle_node toy 2 chunks 0)
branch_root-siblings_example =
    branch_root-siblings toy 2 1 chunks (omega arith) (omega arith) (λ j. refl)

normalized_branch_unique_example :
    ((chunks 0 ≡ chunks 0) × (bzero 32 ++ sibling ≡ bzero 32 ++ sibling)) ⊎ Collision digest
normalized_branch_unique_example =
    normalized_branch_unique toy (chunks 0) (chunks 0) (bzero 32 ++ sibling) (bzero 32 ++ sibling) 2
      root refl padded_valid padded_valid

merkleize-root_example :
    (do
      (state', filled) ← push_chunks toy 3 chunks (bzero 96)
      merkleize_stack_finalize toy state' filled 2)
    ≡ ok (merkle_node toy 2 chunks 0)
merkleize-root_example =
    merkleize-root toy chunks 3 2 (bzero 96) (λ j. refl) no_chunk (omega arith) (omega arith)
      (omega arith)
