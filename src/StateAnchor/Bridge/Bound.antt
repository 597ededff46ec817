-- ===== src/StateAnchor/Bridge/Bound.antt =====
-- The fields of the execution block under a body root, for contracts/state_anchor/bridge.py.
use eth_avm_light_client.Prelude.{
  ℕ, ◌^◌, ◌<◌, ◌≡◌, refl, sym, ap, ◌∙◌, ◌⊎◌, inl, inr, [], ◌==◌, length, bytes_eq, bytes_eq_sound,
  List-append_cancel,
}
use eth_avm_light_client.Avm.{Bytes, ok, bzero, itob, from_be, Hashes, Collision}
use eth_avm_light_client.Avm.Words.{from_be-itob}
use eth_avm_light_client.Avm.Results.{assert-eq-ok, >>=-eq-ok}
use eth_avm_light_client.Ssz.Branch.{assert_valid_merkle_branch}
use eth_avm_light_client.Ssz.Branch.Binding.{valid_branch-binding}
use eth_avm_light_client.Ssz.Merkleize.{reversed_onto}
use eth_avm_light_client.SyncCommittee.Header.{hash_tree_root_beacon_block_header, le64}
use eth_avm_light_client.StateAnchor.Bridge.{
  assert_header_shape, assert_branch_depth, assert_fin_header_matches, block_number_leaf,
  fold_execution_fields,
}

-- The little-endian bytes of a number, read backwards, are its big-endian bytes.
reversed_le64 : (v : ℕ) → reversed_onto (le64 v) [] ≡ itob v
unfolding le64
reversed_le64 v = refl

pub block_number_leaf-injective :
    (m n : ℕ) → m < 2 ^ 64 → n < 2 ^ 64 → block_number_leaf m ≡ block_number_leaf n → m ≡ n
unfolding block_number_leaf
block_number_leaf-injective m n lm ln e =
    let (le, _) = List-append_cancel (le64 m) (bzero 24) (le64 n) (bzero 24) (sizes m n) e in
    sym (from_be-itob m lm)
    ∙ ap from_be (sym (reversed_le64 m) ∙ ap (λ t. reversed_onto t []) le ∙ reversed_le64 n)
    ∙ from_be-itob n ln
  where
    sizes : (m n : ℕ) → length (le64 m) ≡ length (le64 n)
    sizes m n = unfold le64 in refl

module _ (h : Hashes) where
  -- The three branches of an execution block that folds to `body_root`.
  pub record Folded (body_root : Bytes) (gs gr gn : ℕ) (state_root receipts_root : Bytes)
      (number : ℕ) (state_branch receipts_branch number_branch : Bytes) : Type 0 where
    pub state : assert_valid_merkle_branch h state_root state_branch gs body_root ≡ ok tt
    pub receipts : assert_valid_merkle_branch h receipts_root receipts_branch gr body_root ≡ ok tt
    pub numbered :
        assert_valid_merkle_branch h (block_number_leaf number) number_branch gn body_root ≡ ok tt

  pub fold_fields-Folded :
      (body_root : Bytes) (gs gr gn : ℕ) (sr rr : Bytes) (n : ℕ) (sb rb nb : Bytes)
      → fold_execution_fields h body_root gs gr gn sr rr n sb rb nb ≡ ok tt
      → Folded body_root gs gr gn sr rr n sb rb nb
  unfolding fold_execution_fields
  fold_fields-Folded body gs gr gn sr rr n sb rb nb e =
      let (_, e1) = assert-eq-ok (length sr == 32) "N20-shape" _ e in
      let (_, e2) = assert-eq-ok (length rr == 32) "N20-shape" _ e1 in
      let (_, _, e3) = >>=-eq-ok (assert_branch_depth sb gs) _ e2 in
      let (_, _, e4) = >>=-eq-ok (assert_branch_depth rb gr) _ e3 in
      let (_, _, e5) = >>=-eq-ok (assert_branch_depth nb gn) _ e4 in
      let (_, s, e6) = >>=-eq-ok (assert_valid_merkle_branch h sr sb gs body) _ e5 in
      let (_, r, e7) = >>=-eq-ok (assert_valid_merkle_branch h rr rb gr body) _ e6 in
      record { state = s; receipts = r; numbered = e7 }

  -- One body root has one state root, one receipts root and one number, or names a collision.
  pub Folded-binding :
      {body : Bytes} {gs gr gn n n' : ℕ} {sr rr sb rb nb sr' rr' sb' rb' nb' : Bytes}
      → n < 2 ^ 64
      → n' < 2 ^ 64
      → Folded body gs gr gn sr rr n sb rb nb
      → Folded body gs gr gn sr' rr' n' sb' rb' nb'
      → ((sr ≡ sr') × (rr ≡ rr') × (n ≡ n')) ⊎ Collision (h.sha256)
  Folded-binding {body} {gs} {gr} {gn} {n} {n'} {sr} {rr} {sb} {rb} {nb} {sr'} {rr'} {sb'} {rb'}
        {nb'} ln ln' p q =
      elim (valid_branch-binding h sr sr' sb sb' gs body p.state q.state) [
        | inr c ↦ inr c
        | inl (s, _) ↦ elim (valid_branch-binding h rr rr' rb rb' gr body p.receipts q.receipts) [
          | inr c ↦ inr c
          | inl (r, _) ↦
              elim (valid_branch-binding h (block_number_leaf n) (block_number_leaf n') nb nb' gn
                body p.numbered q.numbered) [
                  | inr c ↦ inr c
                  | inl (k, _) ↦ inl (s, r, block_number_leaf-injective n n' ln ln' k)
                ]
        ]
      ]

  -- A header that matches has the root that it is checked against.
  pub fin_header-root :
      (header fin_root : Bytes) {r : Bytes}
      → assert_fin_header_matches h header fin_root ≡ ok r
      → hash_tree_root_beacon_block_header h header ≡ ok fin_root
  unfolding assert_fin_header_matches
  fin_header-root header fin_root e =
      let (_, _, e1) = >>=-eq-ok (assert_header_shape header) _ e in
      let (root, x, e2) = >>=-eq-ok (hash_tree_root_beacon_block_header h header) _ e1 in
      let (t, _) = assert-eq-ok (bytes_eq root fin_root) "N6" _ e2 in
      x ∙ ap ok (bytes_eq_sound root fin_root t)
