-- ===== src/Mpt/Walk/Extension.antt =====
-- The extension handler of contracts/mpt/walk.py by what becomes of W and which child comes next.
use eth_avm_light_client.Prelude.{
  ℕ, ◌+◌, ◌≤◌, ◌<◌, ◌^◌, ◌≡◌, ◌≢◌, refl, ◌⊎◌, inl, inr, sym, ap, ◌∙◌, Bool, true, false,
  if◌then◌else◌, arith, ◌==◌, leb, length, Bool-cases, bytes_eq, bytes_eq_sound, bytes_eq_complete,
  ==_iff, leb→le,
}
use eth_avm_light_client.Prelude.Slices.{slice, splice, length-slice, length-splice}
use eth_avm_light_client.Avm.{Bytes, Result, ok, err, code, panic, u64_mod, replace, be2, byte1}
use eth_avm_light_client.Avm.Results.{extract-eq-ok}
use eth_avm_light_client.Rlp.Core.{kind_list, kind_str}
use eth_avm_light_client.Rlp.Nibbles.{hp_decode}
use eth_avm_light_client.Rlp.Nibbles.Range.{nibs, length-nibs}
use eth_avm_light_client.Mpt.State.{
  w_len, w_status, w_expected, w_depth, w_key_nibs, w_key, w_with_continue,
  w_with_continue_depth_only, w_with_terminal, walk_continue, walk_absent_ext_diverge,
}
use eth_avm_light_client.Mpt.State.Fields.{
  Keeps, depth_only_lem, continue_lem, terminal-Keeps, terminal_status, w_depth-be2,
  w_expected-slice,
}
use eth_avm_light_client.Mpt.Walk.{
  Hop, stop, hop_terminal, hop_inline, hop_next_node, extension_child, mpt_extension_hop,
}
use eth_avm_light_client.Mpt.Walk.Match.{extension_hop-nibs}

-- What an extension makes of W, for the nibbles `path` of its first item, the nibbles `wanted` of
-- the key, the depth `d'` behind them in a key of `n` nibbles, and its second item at `o1`.
pub data Follows (node w path wanted : Bytes) (n d' o1 l1 k1 : ℕ) (hop : Result Hop) : Type 0 where
  -- The path leaves the key: the walk ends as absent by a diverging extension.
  leaves :
      (d' ≤ n → path ≢ wanted)
      → (w' : Bytes) → hop ≡ ok (hop_terminal, w', 0, 0, 0)
      → w_status w' ≡ ok walk_absent_ext_diverge
      → Keeps w w'
      → Follows node w path wanted n d' o1 l1 k1 hop
  -- The child is a list in this node: the walk goes on at the list, under the same hash.
  embedded :
      d' ≤ n
      → path ≡ wanted
      → k1 ≡ kind_list
      → (w' : Bytes) → hop ≡ ok (hop_inline, w', 0, 0, o1)
      → w_status w' ≡ ok walk_continue
      → w_depth w' ≡ ok d'
      → w_expected w' ≡ w_expected w
      → Keeps w w'
      → Follows node w path wanted n d' o1 l1 k1 hop
  -- The child is a hash: the walk goes on in the node that has it.
  referenced :
      d' ≤ n
      → path ≡ wanted
      → k1 ≡ kind_str
      → l1 ≡ 32
      → o1 + 32 ≤ length node
      → (w' : Bytes) → hop ≡ ok (hop_next_node, w', 0, 0, 0)
      → w_status w' ≡ ok walk_continue
      → w_depth w' ≡ ok d'
      → w_expected w' ≡ ok (slice node o1 32)
      → Keeps w w'
      → Follows node w path wanted n d' o1 l1 k1 hop
  -- The child is empty.
  empty :
      d' ≤ n
      → path ≡ wanted
      → k1 ≡ kind_str
      → l1 ≡ 0
      → hop ≡ err (code "W7")
      → Follows node w path wanted n d' o1 l1 k1 hop
  -- The child is neither a list nor a string of 32 bytes nor empty.
  refused :
      d' ≤ n
      → path ≡ wanted
      → k1 ≢ kind_list
      → (k1 ≢ kind_str) ⊎ ((l1 ≢ 0) × (l1 ≢ 32))
      → hop ≡ err (code "W6")
      → Follows node w path wanted n d' o1 l1 k1 hop
  -- The node ends before the hash does.
  cut :
      d' ≤ n
      → path ≡ wanted
      → k1 ≡ kind_str
      → l1 ≡ 32
      → length node < o1 + 32
      → hop ≡ err panic
      → Follows node w path wanted n d' o1 l1 k1 hop

differ : (a b : ℕ) → (a == b) ≡ false → a ≢ b
differ a b unequal e = ground arith

differ_not : true ≡ false → ⊥
differ_not e = cc

replace_made :
    (b : Bytes) (i : ℕ) (c : Bytes) → i + length c ≤ length b → replace b i c ≡ ok (splice b i c)
replace_made b i c room = ground arith

module _ (w : Bytes) (full : length w ≡ w_len) where
  -- The updates of a full W succeed.
  terminal_made : (status : ℕ) → (w' : Bytes) × (w_with_terminal w status ≡ ok w')
  unfolding w_with_terminal
  terminal_made status = (splice w 0 (byte1 status), replace_made w 0 (byte1 status) (omega arith))

  depth_only_made : (d : ℕ) → (w' : Bytes) × (w_with_continue_depth_only w d ≡ ok w')
  unfolding w_with_continue_depth_only
  depth_only_made d =
      let w1 : Bytes = splice w 0 (byte1 walk_continue) in
      (
        splice w1 65 (be2 d),
        rw
            (
              replace_made w 0 (byte1 walk_continue) (omega arith),
              replace_made w1 65 (be2 d) (omega (arith, length-splice w 0 (byte1 walk_continue))),
            )
            refl,
      )

  continue_made :
      (e : Bytes) (d : ℕ) → length e ≡ 32 → (w' : Bytes) × (w_with_continue w e d ≡ ok w')
  unfolding w_with_continue
  continue_made e d size =
      let w1 : Bytes = splice w 0 (byte1 walk_continue) in
      let w2 : Bytes = splice w1 33 e in
      let size1 : length w1 ≡ w_len = length-splice w 0 (byte1 walk_continue) ∙ full in
      let size2 : length w2 ≡ w_len = length-splice w1 33 e ∙ size1 in
      (
        splice w2 65 (be2 d),
        rw
            (
              (==_iff (length e) 32).1 size,
              replace_made w 0 (byte1 walk_continue) (omega arith),
              replace_made w1 33 e (omega arith),
              replace_made w2 65 (be2 d) (omega arith),
            )
            refl,
      )

  module _ (node path wanted : Bytes) (n d' o1 l1 k1 : ℕ) where
    stop-Follows :
        (d' ≤ n → path ≢ wanted)
        → Follows node w path wanted n d' o1 l1 k1 (stop w walk_absent_ext_diverge)
    stop-Follows apart =
        let (w', made) = terminal_made walk_absent_ext_diverge in
        leaves apart w' (rw made refl)
          (terminal_status w {w' = w'} walk_absent_ext_diverge (omega arith) made).0
          (terminal-Keeps w walk_absent_ext_diverge made)

    child-Follows :
        d' ≤ n
        → d' < 2 ^ 16
        → path ≡ wanted
        → Follows node w path wanted n d' o1 l1 k1 (extension_child node w d' o1 l1 k1)
    unfolding extension_child
    child-Follows room small same = elim (Bool-cases (k1 == kind_list)) [
      | inl a_list ↦
          let (w', made) = depth_only_made d' in
          let (keeps, depth, status, hash) = depth_only_lem w {w' = w'} d' made in
          let size : length w' ≡ w_len = keeps.size ∙ full in
          embedded room same ((==_iff k1 kind_list).0 a_list) w' (rw (a_list, made) refl) status
            (w_depth-be2 w' size d' depth small)
            (w_expected-slice w' size ∙ ap ok hash ∙ sym (w_expected-slice w full)) keeps
      | inr no_list ↦ elim (Bool-cases (k1 == kind_str)) [
        | inr no_str ↦
            refused room same (differ k1 kind_list no_list) (inl (differ k1 kind_str no_str))
              (rw (no_list, no_str) refl)
        | inl a_str ↦ elim (Bool-cases (l1 == 0)) [
          | inl none_there ↦
              empty room same ((==_iff k1 kind_str).0 a_str) ((==_iff l1 0).0 none_there)
                (rw (no_list, a_str, none_there) refl)
          | inr some_there ↦ elim (Bool-cases (l1 == 32)) [
            | inr other ↦
                refused room same (differ k1 kind_list no_list)
                  (inr (differ l1 0 some_there, differ l1 32 other))
                  (rw (no_list, a_str, some_there, other) refl)
            | inl hash_sized ↦ elim (Bool-cases (leb (o1 + 32) (length node))) [
              | inr short ↦
                  cut room same ((==_iff k1 kind_str).0 a_str) ((==_iff l1 32).0 hash_sized)
                    (ground arith) (rw (no_list, a_str, some_there, hash_sized, short) refl)
              | inl fits ↦
                  let within : o1 + 32 ≤ length node = leb→le _ _ fits in
                  let (w', made) =
                    continue_made (slice node o1 32) d' (length-slice node o1 32 within) in
                  let (keeps, depth, status, hash) =
                    continue_lem w {w' = w'} (slice node o1 32) d' made in
                  let size : length w' ≡ w_len = keeps.size ∙ full in
                  referenced room same ((==_iff k1 kind_str).0 a_str) ((==_iff l1 32).0 hash_sized)
                    within w' (rw (no_list, a_str, some_there, hash_sized, fits, made) refl) status
                    (w_depth-be2 w' size d' depth small) (w_expected-slice w' size ∙ ap ok hash)
                    keeps
            ]
          ]
        ]
      ]
    ]

    either-Follows :
        n < 2 ^ 16
        → Follows node w path wanted n d' o1 l1 k1 (
            if leb d' n
            then (if bytes_eq path wanted
                then extension_child node w d' o1 l1 k1
                else stop w walk_absent_ext_diverge)
            else stop w walk_absent_ext_diverge)
    either-Follows small = elim (Bool-cases (leb d' n)) [
      | inr past ↦
          let beyond : n < d' = ground arith in
          rw past (stop-Follows (λ room. absurd (omega arith)))
      | inl within ↦ elim (Bool-cases (bytes_eq path wanted)) [
        | inr apart ↦
            rw (within, apart)
              (stop-Follows (λ _ e. differ_not (sym (bytes_eq_complete path wanted e) ∙ apart)))
        | inl alike ↦
            let room : d' ≤ n = leb→le _ _ within in
            rw (within, alike) (child-Follows room (omega arith) (bytes_eq_sound path wanted alike))
      ]
    ]

-- A key has at most 64 nibbles.
key_small : (w key : Bytes) (n : ℕ) → w_key w ≡ ok key → n ≤ length (nibs key) → n < 2 ^ 16
unfolding w_key
key_small w key n k whole =
    let (inside, is) = extract-eq-ok w 69 32 k in
    omega (arith, length-nibs key, ap length is, length-slice w 69 32 inside)

-- For a W of its full length, at depth d of a key of n nibbles, d <= n, and a node whose first item
-- decodes to a path, where the path and the key's nibbles lie in their buffers and d plus the
-- path's length fits a uint64, the extension handler does one of six things. Where the path ends
-- behind the key or its nibbles are not the key's from d on, it ends the walk as absent by a
-- diverging extension. Otherwise the depth is d plus the path's length: a list as second item makes
-- the walk go on at the item's offset in the same node, with the expected hash kept; a string of 32
-- bytes makes it go on in another node, with these bytes as the expected hash, or fails by a panic
-- where the node ends before them; an empty string fails with W7, and any other item with W6. Where
-- it does not fail, W keeps its length, its root, its key and the key's nibble count.
pub extension_hop-Follows :
    (node w key : Bytes) (o0 l0 n_path index d n : ℕ) (leaf : Bool) (o1 l1 k1 : ℕ)
    → length w ≡ w_len
    → w_depth w ≡ ok d
    → w_key_nibs w ≡ ok n
    → w_key w ≡ ok key
    → hp_decode node o0 l0 ≡ ok (leaf, n_path, index)
    → index + n_path ≤ length (nibs node)
    → d ≤ n
    → n ≤ length (nibs key)
    → d + n_path < u64_mod
    → Follows node w
        (slice (nibs node) index n_path)
        (slice (nibs key) d n_path)
        n
        (d + n_path)
        o1
        l1
        k1
        (mpt_extension_hop node o0 l0 o1 l1 k1 w)
extension_hop-Follows node w key o0 l0 n_path index d n leaf o1 l1 k1 full at of k path inside le
      whole small =
    rw
      (extension_hop-nibs node w key o0 l0 n_path index d n leaf at of k path inside le whole small
        o1 l1 k1)
      (either-Follows w full node (slice (nibs node) index n_path) (slice (nibs key) d n_path) n
        (d + n_path) o1 l1 k1 (key_small w key n k whole))
