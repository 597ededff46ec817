-- ===== src/Ssz/Branch.antt =====
-- contracts/primitives/ssz/merkle.py: the fold of a Merkle branch, strict and with zero padding.
pub mod Tree
pub mod Binding
pub mod Padding
use eth_avm_light_client.Prelude.{
  ℕ, zero, suc, ◌+◌, ◌-◌, ◌*◌, ◌/◌, ◌%◌, ◌++◌, if◌then◌else◌, leb, ◌==◌, length, bytes_eq,
}
use eth_avm_light_client.Prelude.Slices.{slice}
use eth_avm_light_client.Avm.{Bytes, Result, ok, ◌>>=◌, ◌>>◌, assert, bitlen, getbit, bzero, Hashes}

module _ (h : Hashes) where
  -- The rounds left, the round, and the node so far.
  unfoldable pub branch_fold : ℕ → ℕ → Bytes → Bytes → ℕ → Bytes
  branch_fold zero i node branch gindex = node
  branch_fold (suc m) i node branch gindex =
      let sibling : Bytes = slice branch (i * 32) 32 in
      branch_fold m (i + 1)
        (if getbit gindex i then h.sha256 (sibling ++ node) else h.sha256 (node ++ sibling)) branch
        gindex

  unfoldable pub compute_merkle_branch_root : Bytes → Bytes → ℕ → Result Bytes
  compute_merkle_branch_root leaf branch gindex = do
    assert (length leaf == 32) "leaf must be 32 bytes"
    assert (leb 1 gindex) "gindex must be >= 1 (gindex == 0 is invalid)"
    assert (leb (bitlen gindex) 62) "gindex exceeds supported depth (depth <= 61)"
    assert (length branch % 32 == 0) "branch length must be a multiple of 32"
    assert (length branch / 32 == bitlen gindex - 1) "branch length must equal depth exactly"
    ok (branch_fold (bitlen gindex - 1) 0 leaf branch gindex)

  unfoldable pub assert_valid_merkle_branch : Bytes → Bytes → ℕ → Bytes → Result (Unit {0})
  assert_valid_merkle_branch leaf branch gindex expected_root = do
    assert (length expected_root == 32) "expected_root must be 32 bytes"
    root ← compute_merkle_branch_root leaf branch gindex
    assert (bytes_eq root expected_root) "merkle branch does not fold to expected root"

  -- The padding slots left, and the slot.
  unfoldable pub padding_loop : ℕ → ℕ → Bytes → Result (Unit {0})
  padding_loop zero i branch = ok tt
  padding_loop (suc m) i branch = do
    assert (bytes_eq (slice branch (i * 32) 32) (bzero 32))
        "non-zero byte in normalized-branch padding slot"
    padding_loop m (i + 1) branch

  unfoldable pub assert_valid_normalized_merkle_branch :
      Bytes → Bytes → ℕ → Bytes → Result (Unit {0})
  assert_valid_normalized_merkle_branch leaf branch gindex expected_root = do
    assert (leb 1 gindex) "gindex must be >= 1 (gindex == 0 is invalid)"
    assert (leb (bitlen gindex) 62) "gindex exceeds supported depth (depth <= 61)"
    assert (length branch % 32 == 0) "branch length must be a multiple of 32"
    assert (leb (bitlen gindex - 1) (length branch / 32)) "branch shorter than depth"
    let num_extra : ℕ = length branch / 32 - (bitlen gindex - 1) in
        (do
          padding_loop num_extra 0 branch
          let real_branch : Bytes =
                slice branch (num_extra * 32) (length branch - num_extra * 32) in
              assert_valid_merkle_branch leaf real_branch gindex expected_root)
