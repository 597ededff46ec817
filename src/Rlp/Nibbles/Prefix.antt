-- ===== src/Rlp/Nibbles/Prefix.antt =====
-- `hp_decode` against the hex-prefix encoding of a path.
use eth_avm_light_client.Prelude.{
  ℕ, zero, suc, ◌+◌, ◌-◌, ◌*◌, ◌/◌, ◌%◌, ◌≤◌, ◌<◌, ◌≡◌, refl, ◌∙◌, ap, Bool, true, false, List, [],
  ◌∷◌, ◌++◌, length, arith, if◌then◌else◌, ◌⊎◌,
}
use eth_avm_light_client.Avm.{Bytes, ok, u64_mod, getbyte}
use eth_avm_light_client.Prelude.Slices.{slice, slice-append_skip, slice-append_within, slice_all}
use eth_avm_light_client.Rlp.Nibbles.{hp_decode}
use eth_avm_light_client.Rlp.Nibbles.Range.{nibs, length-nibs}

-- Two nibbles to a byte; an odd nibble at the end is dropped, and does not occur below.
pub pack : List ℕ → Bytes
pack [] = []
pack (x ∷ []) = []
pack (x ∷ y ∷ path) = (x * 16 + y) ∷ pack path

abbrev pub IsNibbles : List ℕ → Type 0
IsNibbles [] = Unit
IsNibbles (x ∷ xs) = (x < 16) × IsNibbles xs

abbrev pub leaf_flag : Bool → ℕ
leaf_flag leaf = if leaf then 2 else 0

-- Hex-prefix encoding (Ethereum's yellow paper, appendix C), of a path of even and of odd length.
unfoldable pub compact_even : Bool → List ℕ → Bytes
unfolding pack
compact_even leaf path = leaf_flag leaf * 16 ∷ pack path

unfoldable pub compact_odd : Bool → ℕ → List ℕ → Bytes
unfolding pack
compact_odd leaf x path = ((leaf_flag leaf + 1) * 16 + x) ∷ pack path

nibs-pack : (n : ℕ) (path : List ℕ) → length path ≡ 2 * n → IsNibbles path → nibs (pack path) ≡ path
unfolding nibs pack
nibs-pack n [] e h = refl
nibs-pack zero (x ∷ path) e h = absurd (omega arith)
nibs-pack (suc n) (x ∷ []) e h = absurd (omega arith)
nibs-pack (suc n) (x ∷ y ∷ path) e (hx, (hy, h)) =
    let hi : (x * 16 + y) / 16 ≡ x = omega arith in
    let lo : (x * 16 + y) % 16 ≡ y = omega arith in rw (hi, lo, nibs-pack n path (omega arith) h)

length-pack : (n : ℕ) (path : List ℕ) → length path ≡ 2 * n → length (pack path) ≡ n
unfolding pack
length-pack zero [] e = refl
length-pack (suc n) [] e = absurd (omega arith)
length-pack zero (x ∷ path) e = absurd (omega arith)
length-pack (suc n) (x ∷ []) e = absurd (omega arith)
length-pack (suc n) (x ∷ y ∷ path) e = ap suc (length-pack n path (omega arith))

pub nibs-append : (a b : Bytes) → nibs (a ++ b) ≡ nibs a ++ nibs b
unfolding nibs
nibs-append [] b = refl
nibs-append (x ∷ a) b = ap (λ t. x / 16 ∷ x % 16 ∷ t) (nibs-append a b)

getbyte-head : (pre : Bytes) (c : ℕ) (post : Bytes) → getbyte (pre ++ c ∷ post) (length pre) ≡ ok c
getbyte-head [] c post = refl
getbyte-head (x ∷ pre) c post = getbyte-head pre c post

-- A path that begins `skip` nibbles into the nibbles of `c`.
path_range :
    (pre c post : Bytes) (skip n : ℕ) (path : List ℕ)
    → slice (nibs c) skip n ≡ path
    → skip + n ≤ length (nibs c)
    → slice (nibs (pre ++ (c ++ post))) (2 * length pre + skip) n ≡ path
path_range pre c post skip n path e h =
    rw (nibs-append pre (c ++ post), nibs-append c post, ← length-nibs)
      (slice-append_skip (nibs pre) (nibs c ++ nibs post) skip n
        ∙ slice-append_within (nibs c) (nibs post) skip n h
        ∙ e)

odd_low : (leaf : Bool) (x : ℕ) → x < 16 → ((leaf_flag leaf + 1) * 16 + x) % 16 ≡ x
odd_low true x h = omega arith
odd_low false x h = omega arith

-- `hp_decode` on the first byte of an encoding: even, and odd.
hp_even :
    (leaf : Bool) (buf : Bytes) (off len : ℕ)
    → getbyte buf off ≡ ok (leaf_flag leaf * 16)
    → 1 ≤ len
    → ((leaf ≡ true) ⊎ (1 < len))
    → 2 * (off + len) < u64_mod
    → hp_decode buf off len ≡ ok (leaf, 2 * len - 2, 2 * off + 2)
unfolding hp_decode
hp_even true buf off len e l s f = rw e (ground arith)
hp_even false buf off len e l s f = rw e (ground arith)

odd_high :
    (leaf : Bool) (x : ℕ) → x < 16 → ((leaf_flag leaf + 1) * 16 + x) / 16 ≡ leaf_flag leaf + 1
odd_high true x h = omega arith
odd_high false x h = omega arith

hp_odd :
    (leaf : Bool) (x : ℕ) (buf : Bytes) (off len : ℕ)
    → getbyte buf off ≡ ok ((leaf_flag leaf + 1) * 16 + x)
    → x < 16
    → 1 ≤ len
    → 2 * (off + len) < u64_mod
    → hp_decode buf off len ≡ ok (leaf, 2 * len - 1, 2 * off + 1)
unfolding hp_decode
hp_odd true x buf off len e h l f = rw e (rw (odd_high true x h) (ground arith))
hp_odd false x buf off len e h l f = rw e (rw (odd_high false x h) (ground arith))

-- What is said of a decoded path: its kind, its length, and that its nibbles are `path`.
abbrev pub Decodes : Bytes → Bytes → Bytes → Bool → List ℕ → Type 0
Decodes pre c post leaf path =
    (index : ℕ) × (hp_decode (pre ++ (c ++ post)) (length pre) (length c)
      ≡ ok (leaf, length path, index))
    × (slice (nibs (pre ++ (c ++ post))) index (length path) ≡ path)

module _ (pre post : Bytes) (leaf : Bool) (n : ℕ) (path : List ℕ) where
  -- A path of even length is read back from its encoding, wherever that stands; an extension's path
  -- is not empty.
  pub hp_decode-compact_even :
      length path ≡ 2 * n
      → IsNibbles path
      → ((leaf ≡ true) ⊎ (0 < n))
      → 2 * (length pre + length path + 2) < u64_mod
      → Decodes pre (compact_even leaf path) post leaf path
  unfolding compact_even
  hp_decode-compact_even e h some_nibble fits = (
    2 * length pre + 2,
    hp_even leaf _ _ _ (getbyte-head pre (leaf_flag leaf * 16) (pack path ++ post)) (omega arith)
          (ground (arith, length-pack n path e)) (omega (arith, length-pack n path e))
        ∙ ap (λ (t : ℕ). ok (leaf, t, 2 * length pre + 2)) (omega (arith, length-pack n path e)),
    path_range pre (compact_even leaf path) post 2 (length path) path
        (unfold nibs in rw (nibs-pack n path e h) (slice_all path (length path) (omega arith)))
        (omega (arith, length-nibs (compact_even leaf path), length-pack n path e)),
  )

  -- The hex-prefix encoding of a path of odd length, for a leaf or an extension and at any place in
  -- a buffer whose nibble positions fit a uint64, decodes to its kind, its length and an index
  -- where the buffer's nibbles are the path.
  pub hp_decode-compact_odd :
      (x : ℕ)
      → length path ≡ 2 * n
      → IsNibbles (x ∷ path)
      → 2 * (length pre + length path + 2) < u64_mod
      → Decodes pre (compact_odd leaf x path) post leaf (x ∷ path)
  unfolding compact_odd
  hp_decode-compact_odd x e h fits =
      let f : ℕ = (leaf_flag leaf + 1) * 16 + x in
      let low : f % 16 ≡ x = odd_low leaf x h.0 in
      (
        2 * length pre + 1,
        hp_odd leaf x _ _ _ (getbyte-head pre f (pack path ++ post)) h.0 (omega arith)
              (omega (arith, length-pack n path e))
            ∙ ap (λ (t : ℕ). ok (leaf, t, 2 * length pre + 1))
                (omega (arith, length-pack n path e)),
        path_range pre (compact_odd leaf x path) post 1 (suc (length path)) (x ∷ path)
            (unfold nibs in
              rw (nibs-pack n path e h.1)
                (rw low (ap (λ t. x ∷ t) (slice_all path (length path) (omega arith)))))
            (omega (arith, length-nibs (compact_odd leaf x path), length-pack n path e)),
      )
