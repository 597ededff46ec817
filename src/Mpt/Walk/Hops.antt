-- ===== src/Mpt/Walk/Hops.antt =====
-- What a hop of contracts/mpt/walk.py may do to W.
use eth_avm_light_client.Prelude.{
  ℕ, ◌+◌, ◌≤◌, ◌<◌, ◌≡◌, ◌⊎◌, inl, inr, true, false, arith, ◌==◌, leb, Bool-cases,
}
use eth_avm_light_client.Prelude.Slices.{slice}
use eth_avm_light_client.Avm.{Bytes, ok, be2, extract}
use eth_avm_light_client.Rlp.Core.{kind_list}
use eth_avm_light_client.Rlp.Nibbles.{hp_decode, nibble_at, nibbles_equal}
use eth_avm_light_client.Mpt.Descend.{mpt_arity_discriminate, mpt_branch_item_at}
use eth_avm_light_client.Avm.Results.{Result-cases}
use eth_avm_light_client.Mpt.State.{
  w_status, w_depth, w_key_nibs, w_with_continue, w_with_continue_depth_only, w_with_terminal,
  walk_continue, walk_included, w_key, walk_absent_empty_slot, walk_absent_ext_diverge,
  walk_absent_leaf_diverge, walk_absent_branch_term,
}
use eth_avm_light_client.Mpt.State.Fields.{Keeps, depth_only_lem, continue_lem}
use eth_avm_light_client.Mpt.Walk.{
  hop_terminal, hop_next_node, hop_inline, stop, branch_child, mpt_branch_hop, extension_child,
  mpt_extension_hop, mpt_leaf_hop, mpt_hop,
}

-- What a hop from `w`, at depth `d` of a key of `n` nibbles, may return.
pub data Outcome (w : Bytes) (d n kind : ℕ) (w' : Bytes) : Type 0 where
  -- The walk ends, at the same depth, with a status that is not `walk_continue`.
  terminal :
      kind ≡ hop_terminal
      → (status : ℕ) → 1 ≤ status
      → status < 256
      → w_with_terminal w status ≡ ok w'
      → Outcome w d n kind w'
  -- It goes on, in this node or the next, at a greater depth that the key still has.
  deeper :
      (kind ≡ hop_inline) ⊎ (kind ≡ hop_next_node)
      → (d' : ℕ) → d < d'
      → d' ≤ n
      → Keeps w w'
      → slice w' 65 2 ≡ be2 d'
      → w_status w' ≡ ok walk_continue
      → Outcome w d n kind w'

module _ (node w : Bytes) {d n : ℕ} where
  stop-Outcome :
      (status : ℕ) {kind vo vl child : ℕ} {w' : Bytes}
      → 1 ≤ status
      → status < 256
      → stop w status ≡ ok (kind, w', vo, vl, child)
      → Outcome w d n kind w'
  stop-Outcome s lo hi h = terminal (ground arith) s lo hi (ground arith)

  inline-Outcome :
      (d' : ℕ) {kind : ℕ} {w' : Bytes}
      → kind ≡ hop_inline
      → d < d'
      → d' ≤ n
      → w_with_continue_depth_only w d' ≡ ok w'
      → Outcome w d n kind w'
  inline-Outcome d' k lo hi e =
      let (keeps, depth, status, same) = depth_only_lem w d' e in
      deeper (inl k) d' lo hi keeps depth status

  next-Outcome :
      (d' : ℕ) (next : Bytes) {kind : ℕ} {w' : Bytes}
      → kind ≡ hop_next_node
      → d < d'
      → d' ≤ n
      → w_with_continue w next d' ≡ ok w'
      → Outcome w d n kind w'
  next-Outcome d' next k lo hi e =
      let (keeps, depth, status, same) = continue_lem w next d' e in
      deeper (inr k) d' lo hi keeps depth status

  branch_child-Outcome :
      (oc lc kc : ℕ) {kind vo vl child : ℕ} {w' : Bytes}
      → d < n
      → branch_child node w d oc lc kc ≡ ok (kind, w', vo, vl, child)
      → Outcome w d n kind w'
  unfolding branch_child
  branch_child-Outcome oc lc kc {kind} {vo} {vl} {child} {w'} room h =
      elim (Bool-cases (kc == kind_list)) [
        | inl embedded ↦
            inline-Outcome (d + 1) (ground arith) (omega arith) (omega arith) (ground arith)
        | inr reference ↦ elim (Bool-cases (lc == 0)) [
          | inl empty ↦
              stop-Outcome walk_absent_empty_slot {vo = vo} {vl = vl} {child = child} (omega arith)
                (omega arith) (ground arith)
          | inr full ↦ elim (Result-cases (extract node oc 32)) [
            | inr (f, e) ↦ ground arith
            | inl (b, e) ↦
                next-Outcome (d + 1) b (ground arith) (omega arith) (omega arith) (ground arith)
          ]
        ]
      ]

  extension_child-Outcome :
      (d' o1 l1 k1 : ℕ) {kind vo vl child : ℕ} {w' : Bytes}
      → d < d'
      → d' ≤ n
      → extension_child node w d' o1 l1 k1 ≡ ok (kind, w', vo, vl, child)
      → Outcome w d n kind w'
  unfolding extension_child
  extension_child-Outcome d' o1 l1 k1 lo hi h = elim (Bool-cases (k1 == kind_list)) [
    | inl embedded ↦ inline-Outcome d' (ground arith) lo hi (ground arith)
    | inr reference ↦ elim (Result-cases (extract node o1 32)) [
      | inr (f, e) ↦ ground arith
      | inl (b, e) ↦ next-Outcome d' b (ground arith) lo hi (ground arith)
    ]
  ]

-- The path of an extension has a nibble or more ("H4").
extension_path :
    (node : Bytes) (off len : ℕ) {n_path index : ℕ}
    → hp_decode node off len ≡ ok (false, n_path, index)
    → 1 ≤ n_path
unfolding hp_decode
extension_path node off len h = ground arith

module _ (node w : Bytes) {d n : ℕ} (at : w_depth w ≡ ok d) (of : w_key_nibs w ≡ ok n) where
  branch-Outcome :
      (o0 l0 k0 o1 l1 k1 end : ℕ) {kind vo vl child : ℕ} {w' : Bytes}
      → mpt_branch_hop node o0 l0 k0 o1 l1 k1 end w ≡ ok (kind, w', vo, vl, child)
      → Outcome w d n kind w'
  unfolding mpt_branch_hop
  branch-Outcome o0 l0 k0 o1 l1 k1 end {kind} {vo} {vl} {child} {w'} h =
      elim (Result-cases (w_key w)) [
        | inr (f, ek) ↦ ground arith
        | inl (key, ek) ↦ elim (Bool-cases (d == n)) [
          | inl ended ↦ elim (Result-cases (mpt_branch_item_at node o0 l0 k0 o1 l1 k1 end 16)) [
            | inr (f, e) ↦ ground arith
            | inl ((ov, lv, kv), e) ↦ elim (Bool-cases (lv == 0)) [
              | inl empty ↦
                  terminal (ground arith) walk_absent_branch_term (omega arith) (omega arith)
                    (ground arith)
              | inr value ↦
                  terminal (ground arith) walk_included (omega arith) (omega arith) (ground arith)
            ]
          ]
          | inr goes_on ↦ elim (Result-cases (nibble_at key d)) [
            | inr (f, e) ↦ ground arith
            | inl (nib, e) ↦
                elim (Result-cases (mpt_branch_item_at node o0 l0 k0 o1 l1 k1 end nib)) [
                  | inr (f, e') ↦ ground arith
                  | inl ((oc, lc, kc), e') ↦
                      branch_child-Outcome node w oc lc kc {kind = kind} {vo = vo} {vl = vl}
                        {child = child} {w' = w'} (ground arith) (ground arith)
                ]
          ]
        ]
      ]

  leaf-Outcome :
      (o0 l0 o1 l1 : ℕ) {kind vo vl child : ℕ} {w' : Bytes}
      → mpt_leaf_hop node o0 l0 o1 l1 w ≡ ok (kind, w', vo, vl, child)
      → Outcome w d n kind w'
  unfolding mpt_leaf_hop
  leaf-Outcome o0 l0 o1 l1 {kind} {vo} {vl} {child} {w'} h = elim (Result-cases (w_key w)) [
    | inr (f, ek) ↦ ground arith
    | inl (key, ek) ↦ elim (Result-cases (hp_decode node o0 l0)) [
      | inr (f, e) ↦ ground arith
      | inl ((is_leaf, n_path, index), e) ↦ elim (Bool-cases (d + n_path == n)) [
        | inr off ↦
            terminal (ground arith) walk_absent_leaf_diverge (omega arith) (omega arith)
              (ground arith)
        | inl whole ↦ elim (Result-cases (nibbles_equal node index key d n_path)) [
          | inr (f, e') ↦ ground arith
          | inl (true, e') ↦
              terminal (ground arith) walk_included (omega arith) (omega arith) (ground arith)
          | inl (false, e') ↦
              terminal (ground arith) walk_absent_leaf_diverge (omega arith) (omega arith)
                (ground arith)
        ]
      ]
    ]
  ]

  extension-Outcome :
      (o0 l0 o1 l1 k1 n_path index : ℕ) {kind vo vl child : ℕ} {w' : Bytes}
      → hp_decode node o0 l0 ≡ ok (false, n_path, index)
      → mpt_extension_hop node o0 l0 o1 l1 k1 w ≡ ok (kind, w', vo, vl, child)
      → Outcome w d n kind w'
  unfolding mpt_extension_hop
  extension-Outcome o0 l0 o1 l1 k1 n_path index {kind} {vo} {vl} {child} {w'} e h =
      elim (Result-cases (w_key w)) [
        | inr (f, ek) ↦ ground arith
        | inl (key, ek) ↦ elim (Bool-cases (leb (d + n_path) n)) [
          | inr off ↦
              terminal (ground arith) walk_absent_ext_diverge (omega arith) (omega arith)
                (ground arith)
          | inl room ↦ elim (Result-cases (nibbles_equal node index key d n_path)) [
            | inr (f, e') ↦ ground arith
            | inl (false, e') ↦
                terminal (ground arith) walk_absent_ext_diverge (omega arith) (omega arith)
                  (ground arith)
            | inl (true, e') ↦
                extension_child-Outcome node w (d + n_path) o1 l1 k1 {kind = kind} {vo = vo}
                  {vl = vl} {child = child} {w' = w'} (omega (arith, extension_path node o0 l0 e))
                  (ground arith) (ground arith)
          ]
        ]
      ]

  -- One round of the walk, on a node of any kind.
  pub hop-Outcome :
      (start : ℕ) {kind vo vl child : ℕ} {w' : Bytes}
      → mpt_hop node start w ≡ ok (kind, w', vo, vl, child)
      → Outcome w d n kind w'
  unfolding mpt_hop
  hop-Outcome start {kind} {vo} {vl} {child} {w'} h =
      elim (Result-cases (mpt_arity_discriminate node start)) [
        | inr (f, e) ↦ ground arith
        | inl ((arity, end, o0, l0, k0, o1, l1, k1), e) ↦ elim (Bool-cases (arity == 17)) [
          | inl branch ↦
              branch-Outcome o0 l0 k0 o1 l1 k1 end {kind = kind} {vo = vo} {vl = vl} {child = child}
                {w' = w'} (ground arith)
          | inr two ↦ elim (Result-cases (hp_decode node o0 l0)) [
            | inr (f, e') ↦ ground arith
            | inl ((true, n_path, index), e') ↦
                leaf-Outcome o0 l0 o1 l1 {kind = kind} {vo = vo} {vl = vl} {child = child} {w' = w'}
                  (ground arith)
            | inl ((false, n_path, index), e') ↦
                extension-Outcome o0 l0 o1 l1 k1 n_path index {kind = kind} {vo = vo} {vl = vl}
                  {child = child} {w' = w'} e' (ground arith)
          ]
        ]
      ]
