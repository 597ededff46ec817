-- ===== src/Mpt/Walk/Match.antt =====
-- The leaf and extension handlers of contracts/mpt/walk.py, by the nibbles of the path and of the key.
use eth_avm_light_client.Prelude.{
  ℕ, ◌+◌, ◌-◌, ◌≤◌, ◌<◌, ◌≡◌, inl, inr, Bool, false, if◌then◌else◌, arith, ◌==◌, leb, length,
  Bool-cases, bytes_eq, bytes_eq-ne, ==_iff, ap, sym, ◌∙◌, leb→le, ◌≢◌,
}
use eth_avm_light_client.Prelude.Slices.{slice, length-slice}
use eth_avm_light_client.Avm.{Bytes, ok, u64_mod, ◌>>=◌, Result}
use eth_avm_light_client.Rlp.Nibbles.{hp_decode}
use eth_avm_light_client.Rlp.Nibbles.Range.{nibs, nibbles_equal_lem}
use eth_avm_light_client.Mpt.State.{
  w_depth, w_key_nibs, w_key, w_with_terminal, walk_included, walk_absent_leaf_diverge,
  walk_absent_ext_diverge,
}
use eth_avm_light_client.Mpt.Walk.{
  Hop, stop, hop_terminal, extension_child, mpt_extension_hop, mpt_leaf_hop,
}

-- Ranges of different lengths differ.
slices_apart :
    (a b : Bytes) (i j m n : ℕ)
    → i + m ≤ length a
    → j + n ≤ length b
    → m ≢ n
    → bytes_eq (slice a i m) (slice b j n) ≡ false
slices_apart a b i j m n ha hb ne =
    bytes_eq-ne (slice a i m) (slice b j n)
      (λ e. ne (sym (length-slice a i m ha) ∙ ap length e ∙ length-slice b j n hb))

included : Bytes → ℕ → ℕ → Result Hop
included w o1 l1 = do w' ← w_with_terminal w walk_included; ok (hop_terminal, w', o1, l1, 0)

module _ (node w key : Bytes) (o0 l0 n_path index d n : ℕ) (leaf : Bool) (at : w_depth w ≡ ok d)
    (of : w_key_nibs w ≡ ok n) (k : w_key w ≡ ok key)
    (path : hp_decode node o0 l0 ≡ ok (leaf, n_path, index))
    (inside : index + n_path ≤ length (nibs node)) (le : d ≤ n) (whole : n ≤ length (nibs key))
    (small : d + n_path < u64_mod) where
  -- For a W at depth d of a key of n nibbles, d <= n, and a node whose first item decodes to a
  -- path, where the path and the key's nibbles lie in their buffers and d plus the path's length
  -- fits a uint64, the leaf handler ends the walk as included, with the second item as the value,
  -- if the path's nibbles are exactly the key's nibbles from d to n, and as absent by a diverging
  -- leaf otherwise.
  pub leaf_hop-nibs :
      (o1 l1 : ℕ)
      → mpt_leaf_hop node o0 l0 o1 l1 w ≡ (
          if bytes_eq (slice (nibs node) index n_path) (slice (nibs key) d (n - d))
          then (do w' ← w_with_terminal w walk_included; ok (hop_terminal, w', o1, l1, 0))
          else stop w walk_absent_leaf_diverge)
  unfolding mpt_leaf_hop
  leaf_hop-nibs o1 l1 = elim (Bool-cases (d + n_path == n)) [
    | inr off ↦
        let ne : n_path ≢ n - d = ground arith in
        let apart =
          slices_apart (nibs node) (nibs key) index d n_path (n - d) inside (omega arith) ne in
        ground arith
    | inl on ↦
        let sum : d + n_path ≡ n = (==_iff (d + n_path) n).0 on in
        let size : n - d ≡ n_path = omega arith in
        let same = nibbles_equal_lem node index key d n_path inside (omega arith) in
        rw size (ground arith)
  ]

  -- The extension handler with the comparison of the nibbles as one of lists.
  pub extension_hop-nibs :
      (o1 l1 k1 : ℕ)
      → mpt_extension_hop node o0 l0 o1 l1 k1 w ≡ (
          if leb (d + n_path) n
          then (if bytes_eq (slice (nibs node) index n_path) (slice (nibs key) d n_path)
              then extension_child node w (d + n_path) o1 l1 k1
              else stop w walk_absent_ext_diverge)
          else stop w walk_absent_ext_diverge)
  unfolding mpt_extension_hop
  extension_hop-nibs o1 l1 k1 = elim (Bool-cases (leb (d + n_path) n)) [
    | inr off ↦ ground arith
    | inl room ↦
        let le' : d + n_path ≤ n = leb→le _ _ room in
        let same = nibbles_equal_lem node index key d n_path inside (omega arith) in ground arith
  ]
