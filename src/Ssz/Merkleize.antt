-- ===== src/Ssz/Merkleize.antt =====
-- contracts/primitives/ssz/merkleize.py: the roots of zero subtrees, the accumulator of chunks and
-- the length that ends a list.
pub mod Push
pub mod Finalize
pub mod Change
use eth_avm_light_client.Prelude.{
  ℕ, zero, suc, ◌+◌, ◌-◌, ◌*◌, ◌^◌, Bool, List, [], ◌∷◌, ◌++◌, true, false, if◌then◌else◌, leb, ltb,
  ◌==◌, length,
}
use eth_avm_light_client.Prelude.Slices.{slice}
use eth_avm_light_client.Avm.{
  Bytes, Result, ok, err, panic, out_of_fuel, ◌>>=◌, ◌>>◌, assert, getbit, bzero, itob, u64, Hashes,
}

-- `for one_byte in reversed(b): out += one_byte`
abbrev pub reversed_onto : Bytes → Bytes → Bytes
reversed_onto [] out = out
reversed_onto (b ∷ bs) out = reversed_onto bs (b ∷ out)

-- op.getbit on a uint64 panics from bit 64 on.
abbrev pub getbit_op : ℕ → ℕ → Result Bool
getbit_op n i = if ltb i 64 then ok (getbit n i) else err panic

module _ (h : Hashes) where
  -- The table in the source holds these 64 values, which the source generates by this recursion.
  unfoldable pub zero_hash_table : ℕ → Bytes
  zero_hash_table zero = bzero 32
  zero_hash_table (suc i) = h.sha256 (zero_hash_table i ++ zero_hash_table i)

  unfoldable pub zero_hash : ℕ → Result Bytes
  zero_hash depth = do
    assert (ltb depth 64) "zero_hash: depth exceeds precomputed table size (64)"
    ok (zero_hash_table depth)

  -- The carry of a push: (node, f, level). A bit that is set is cleared by `f ^ (1 << level)`.
  unfoldable pub push_carry : ℕ → Bytes → Bytes → ℕ → ℕ → Result (Bytes × ℕ × ℕ)
  push_carry zero state node f level = err out_of_fuel
  push_carry (suc m) state node f level = do
    occupied ← getbit_op f level
    elim occupied [
      | true ↦
          push_carry m state (h.sha256 (slice state (level * 32) 32 ++ node)) (f - 2 ^ level)
            (level + 1)
      | false ↦ ok (node, f, level)
    ]

  -- `getbit` panics at level 64, so 65 rounds are enough. The bit of the level is clear at the end,
  -- so `f | (1 << level)` is a sum.
  unfoldable pub merkleize_stack_push : Bytes → ℕ → Bytes → Result (Bytes × ℕ)
  merkleize_stack_push state filled chunk = do
    (node, f, level) ← push_carry 65 state chunk filled 0
    let write_offset : ℕ = level * 32 in
        (do
          assert (leb (write_offset + 32) (length state))
              "merkleize_stack_push: state too small for this many chunks"
          ok (
            slice state 0 write_offset
                ++ (node ++ slice state (write_offset + 32) (length state - (write_offset + 32))),
            f + 2 ^ level,
          ))

  -- The levels left, the level and the node so far.
  unfoldable pub finalize_loop : ℕ → ℕ → Bytes → ℕ → Bytes → Result Bytes
  finalize_loop zero level state filled node = ok node
  finalize_loop (suc m) level state filled node = do
    occupied ← getbit_op filled level
    node' ←
        (if occupied
          then ok (h.sha256 (slice state (level * 32) 32 ++ node))
          else (do z ← zero_hash level; ok (h.sha256 (node ++ z))))
    finalize_loop m (level + 1) state filled node'

  unfoldable pub merkleize_stack_finalize : Bytes → ℕ → ℕ → Result Bytes
  merkleize_stack_finalize state filled depth =
      if depth == 0
      then (do first ← getbit_op filled 0; if first then ok (slice state 0 32) else zero_hash 0)
      else (do
        complete ← getbit_op filled depth
        if complete
            then ok (slice state (depth * 32) 32)
            else (do node ← zero_hash 0; finalize_loop depth 0 state filled node))

  unfoldable pub mix_in_length : Bytes → ℕ → Bytes
  mix_in_length root len = h.sha256 (root ++ (reversed_onto (itob len) [] ++ bzero 24))
