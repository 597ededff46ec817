-- ===== src/Ssz/Branch/Tree.antt =====
-- Merkle trees over chunks and their branches, for contracts/primitives/ssz/merkle.py.
use eth_avm_light_client.Prelude.{
  ℕ, zero, suc, ◌+◌, ◌-◌, ◌*◌, ◌/◌, ◌%◌, ◌^◌, ◌≤◌, ◌<◌, ◌≡◌, refl, sym, ap, ap₂, ◌∙◌, inl, inr, [],
  ◌++◌, append_assoc, if◌then◌else◌, ◌==◌, ==_iff, length, length-append, arith, Bool-cases,
}
use eth_avm_light_client.Ssz.Powers.{pow_pos, div_pow_suc}
use eth_avm_light_client.Prelude.Slices.{slice, slice-middle}
use eth_avm_light_client.Avm.{Bytes, ok, bitlen, bitlen_fuel, getbit, Hashes}
use eth_avm_light_client.Ssz.Branch.{branch_fold, compute_merkle_branch_root}

bitlen_fuel_pow : (d k n : ℕ) → 2 ^ d ≤ n → n < 2 ^ (suc d) → d < k → bitlen_fuel k n ≡ suc d
unfolding bitlen_fuel
bitlen_fuel_pow d zero n lo hi small = absurd (omega arith)
bitlen_fuel_pow d (suc k) zero lo hi small = absurd (omega (arith, pow_pos d))
bitlen_fuel_pow zero (suc zero) (suc zero) lo hi small = refl
bitlen_fuel_pow zero (suc (suc k)) (suc zero) lo hi small = refl
bitlen_fuel_pow zero (suc k) (suc (suc n)) lo hi small = absurd (omega arith)
bitlen_fuel_pow (suc d) (suc k) (suc n) lo hi small =
    ap suc (bitlen_fuel_pow d k (suc n / 2) (omega arith) (omega arith) (omega arith))

bitlen_pow : (d n : ℕ) → 2 ^ d ≤ n → n < 2 ^ (suc d) → d < 64 → bitlen n ≡ suc d
unfolding bitlen
bitlen_pow d n lo hi small = bitlen_fuel_pow d 64 n lo hi small

halves : (g i m k : ℕ) → g / 2 ^ i ≡ 2 ^ suc m + k → g / 2 ^ i / 2 ≡ 2 ^ m + k / 2
halves g i m k e = omega arith

parity : (g i m k : ℕ) → g / 2 ^ i ≡ 2 ^ suc m + k → getbit g i ≡ (k % 2 == 1)
parity g i m k e = let p : g / 2 ^ i % 2 ≡ k % 2 = omega arith in ap (λ t. t == 1) p

-- The specification: the node at height `d` and position `k` over the chunks `f`.
module _ (h : Hashes) where
  unfoldable pub merkle_node : ℕ → (ℕ → Bytes) → ℕ → Bytes
  merkle_node zero f k = f k
  merkle_node (suc d) f k = h.sha256 (merkle_node d f (2 * k) ++ merkle_node d f (2 * k + 1))

  -- The siblings on the way up from position `k` at height `i`, for `m` levels.
  unfoldable pub siblings : ℕ → ℕ → (ℕ → Bytes) → ℕ → Bytes
  siblings zero i f k = []
  siblings (suc m) i f k =
      merkle_node i f (if k % 2 == 1 then k - 1 else k + 1) ++ siblings m (i + 1) f (k / 2)

  pub length-merkle_node :
      (d : ℕ) (f : ℕ → Bytes) (k : ℕ)
      → ((j : ℕ) → length (f j) ≡ 32)
      → length (merkle_node d f k) ≡ 32
  unfolding merkle_node
  length-merkle_node zero f k size = size k
  length-merkle_node (suc d) f k size = h.length-sha256 _

  length-siblings :
      (m i : ℕ) (f : ℕ → Bytes) (k : ℕ)
      → ((j : ℕ) → length (f j) ≡ 32)
      → length (siblings m i f k) ≡ m * 32
  unfolding siblings
  length-siblings zero i f k size = refl
  length-siblings (suc m) i f k size =
      let rest = length-siblings m (i + 1) f (k / 2) size in
      let node = length-merkle_node i f (if k % 2 == 1 then k - 1 else k + 1) size in
      length-append (merkle_node i f (if k % 2 == 1 then k - 1 else k + 1))
        (siblings m (i + 1) f (k / 2))
      ∙ omega arith

  merkle_node-suc :
      (d k : ℕ) (f : ℕ → Bytes)
      → h.sha256 (merkle_node d f (2 * k) ++ merkle_node d f (2 * k + 1)) ≡ merkle_node (suc d) f k
  unfolding merkle_node
  merkle_node-suc d k f = refl

  -- A node is the hash of an odd node behind its sibling, or of an even one before it.
  pub merkle_node-odd :
      (i k : ℕ) (f : ℕ → Bytes)
      → k % 2 ≡ 1
      → h.sha256 (merkle_node i f (k - 1) ++ merkle_node i f k) ≡ merkle_node (i + 1) f (k / 2)
  merkle_node-odd i k f odd =
      let s : i + 1 ≡ suc i = omega arith in
      let l : k - 1 ≡ 2 * (k / 2) = omega arith in
      let r : k ≡ 2 * (k / 2) + 1 = omega arith in
      ap₂ (λ x y. h.sha256 (x ++ y)) (ap (merkle_node i f) l) (ap (merkle_node i f) r)
      ∙ merkle_node-suc i (k / 2) f
      ∙ ap (λ d. merkle_node d f (k / 2)) (sym s)

  pub merkle_node-even :
      (i k : ℕ) (f : ℕ → Bytes)
      → k % 2 ≡ 0
      → h.sha256 (merkle_node i f k ++ merkle_node i f (k + 1)) ≡ merkle_node (i + 1) f (k / 2)
  merkle_node-even i k f even =
      let odd : (k + 1) % 2 ≡ 1 = omega arith in
      let half : (k + 1) / 2 ≡ k / 2 = omega arith in
      let back : k + 1 - 1 ≡ k = omega arith in
      ap (λ j. h.sha256 (merkle_node i f j ++ merkle_node i f (k + 1))) (sym back)
      ∙ merkle_node-odd i (k + 1) f odd
      ∙ ap (merkle_node (i + 1) f) half

  parent_node :
      (i k gindex : ℕ) (f : ℕ → Bytes)
      → getbit gindex i ≡ (k % 2 == 1)
      → (if getbit gindex i
          then h.sha256 (merkle_node i f (if k % 2 == 1 then k - 1 else k + 1) ++ merkle_node i f k)
          else h.sha256
              (merkle_node i f k ++ merkle_node i f (if k % 2 == 1 then k - 1 else k + 1)))
        ≡ merkle_node (i + 1) f (k / 2)
  parent_node i k gindex f e = elim (Bool-cases (k % 2 == 1)) [
    | inl odd ↦ rw (e, odd) (merkle_node-odd i k f ((==_iff (k % 2) 1).0 odd))
    | inr even ↦ let z : k % 2 ≡ 0 = ground arith in rw (e, even) (merkle_node-even i k f z)
  ]

  fold-siblings :
      (m i k gindex : ℕ) (f : ℕ → Bytes) (below : Bytes)
      → ((j : ℕ) → length (f j) ≡ 32)
      → gindex / 2 ^ i ≡ 2 ^ m + k
      → k < 2 ^ m
      → length below ≡ i * 32
      → branch_fold h m i (merkle_node i f k) (below ++ siblings m i f k) gindex
        ≡ merkle_node (i + m) f 0
  unfolding branch_fold siblings
  fold-siblings zero i k gindex f below size g lo len =
      let k0 : k ≡ 0 = omega arith in
      let i0 : i ≡ i + 0 = omega arith in ap₂ (λ d j. merkle_node d f j) i0 k0
  fold-siblings (suc m) i k gindex f below size g lo len =
      let sib : ℕ = if k % 2 == 1 then k - 1 else k + 1 in
      let node = length-merkle_node i f sib size in
      let read : slice (below ++ (merkle_node i f sib ++ siblings m (i + 1) f (k / 2))) (i * 32) 32
          ≡ merkle_node i f sib =
        slice-middle below (merkle_node i f sib) (siblings m (i + 1) f (k / 2)) (i * 32) 32 len
          node in
      let up : (if getbit gindex i
            then h.sha256 (
                slice (below ++ (merkle_node i f sib ++ siblings m (i + 1) f (k / 2))) (i * 32) 32
                ++ merkle_node i f k)
            else h.sha256 (
                merkle_node i f k
                ++ slice (below ++ (merkle_node i f sib ++ siblings m (i + 1) f (k / 2))) (i * 32)
                    32))
          ≡ merkle_node (i + 1) f (k / 2) =
        rw read (parent_node i k gindex f (parity gindex i m k g)) in
      let next =
        fold-siblings m (i + 1) (k / 2) gindex f (below ++ merkle_node i f sib) size
          (div_pow_suc gindex i ∙ halves gindex i m k g) (omega arith)
          (length-append below (merkle_node i f sib) ∙ omega (arith, len, node)) in
      let reach : i + 1 + m ≡ i + suc m = omega arith in
      rw (up, ← append_assoc below (merkle_node i f sib) (siblings m (i + 1) f (k / 2)), ← reach)
        next

  leaf_fold :
      (d p : ℕ) (f : ℕ → Bytes)
      → branch_fold h d 0 (f p) (siblings d 0 f p) (2 ^ d + p)
        ≡ branch_fold h d 0 (merkle_node 0 f p) ([] ++ siblings d 0 f p) (2 ^ d + p)
  unfolding merkle_node
  leaf_fold d p f = refl

  -- For a tree of depth d <= 61 over chunks of 32 bytes, the siblings on the way up from position p
  -- < 2^d, as the branch at generalized index 2^d + p, fold the chunk at p to the root of the tree.
  pub branch_root-siblings :
      (d p : ℕ) (f : ℕ → Bytes)
      → d ≤ 61
      → p < 2 ^ d
      → ((j : ℕ) → length (f j) ≡ 32)
      → compute_merkle_branch_root h (f p) (siblings d 0 f p) (2 ^ d + p) ≡ ok (merkle_node d f 0)
  unfolding compute_merkle_branch_root
  branch_root-siblings d p f deep inside size =
      let pos = pow_pos d in
      let bits : bitlen (2 ^ d + p) ≡ suc d =
        bitlen_pow d (2 ^ d + p) (omega arith) (omega arith) (omega arith) in
      let len = length-siblings d 0 f p size in
      let leaf = size p in
      let pred : suc d - 1 ≡ d = omega arith in
      let start : (2 ^ d + p) / 2 ^ 0 ≡ 2 ^ d + p = omega arith in
      let fold = fold-siblings d 0 p (2 ^ d + p) f [] size start inside refl in
      let root : branch_fold h d 0 (f p) (siblings d 0 f p) (2 ^ d + p) ≡ merkle_node d f 0 =
        leaf_fold d p f ∙ fold ∙ ap (λ t. merkle_node t f 0) (omega arith) in
      let whole : length (siblings d 0 f p) % 32 ≡ 0 = omega arith in
      let slots : length (siblings d 0 f p) / 32 ≡ d = omega arith in rw (bits, pred) (ground arith)
