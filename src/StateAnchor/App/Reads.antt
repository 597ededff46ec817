-- ===== src/StateAnchor/App/Reads.antt =====
-- The readers of contracts/state_anchor/anchor_app.py.
use eth_avm_light_client.Prelude.{
  ℕ, ◌≡◌, ◌≢◌, refl, sym, ap, ◌∙◌, inl, inr, Bool, true, false, not, Option, none, some, ◌==◌,
  ==_iff, arith, Bool-cases,
}
use eth_avm_light_client.Avm.{Bytes, ok, err, code}
use eth_avm_light_client.Avm.Results.{>>=-eq-ok, assert-eq-ok, ok_inj, if-eq-ok, Result-cases}
use eth_avm_light_client.StateAnchor.Record.{
  a_version, a_is_revoked, a_block_number, a_matches_block_number,
}
use eth_avm_light_client.StateAnchor.Box.{read_ring_slot, pin_read_maybe}
use eth_avm_light_client.StateAnchor.App.{
  Anchor, is_record_of, unless_revoked, pinned_or_none, attest, get_anchor,
}

-- A record that `attest` may return for block `bn`.
pub data Attested (s : Anchor) (bn : ℕ) (a : Bytes) : Type 0 where
  in_ring :
      read_ring_slot (s.ring_size) bn (s.boxes) ≡ ok a
      → a_block_number a ≡ ok bn
      → a_version a ≢ ok 0
      → Attested s bn a
  in_pin :
      (payer : Bytes)
      → pin_read_maybe bn (s.boxes) ≡ ok (some (a, payer))
      → a_version a ≡ ok 1
      → Attested s bn a

pub record Serves (s : Anchor) (bn : ℕ) (a : Bytes) : Type 0 where
  pub calm : s.conflict ≡ 0
  pub standing : a_is_revoked a ≡ ok false
  pub from : Attested s bn a

unless_revoked-eq-ok :
    (b : Bytes) {a : Bytes} → unless_revoked b ≡ ok a → (b ≡ a) × (a_is_revoked a ≡ ok false)
unfolding unless_revoked
unless_revoked-eq-ok b e =
    let (r, q, e1) = >>=-eq-ok (a_is_revoked b) _ e in
    let (t, e2) = assert-eq-ok (not r) "N13" _ e1 in
    let same = ok_inj e2 in (same, ap a_is_revoked (sym same) ∙ q ∙ ap ok (down r t))
  where
    down : (r : Bool) → not r ≡ true → r ≡ false
    down true t = sym t
    down false t = refl

is_record_of-true :
    (a : Bytes) (bn : ℕ)
    → is_record_of a bn ≡ ok true
    → (a_block_number a ≡ ok bn) × (a_version a ≢ ok 0)
unfolding is_record_of a_matches_block_number
is_record_of-true a bn e = elim (Result-cases (a_version a)) [
  | inr (f, v) ↦ ground arith
  | inl (v, q) ↦ elim (Result-cases (a_block_number a)) [
    | inr (f, n) ↦ ground arith
    | inl (n, m) ↦ (ground arith, λ z. ground arith)
  ]
]

pinned_or_none-eq-ok :
    (o : Option (Bytes × Bytes)) {a : Bytes}
    → pinned_or_none o ≡ ok a
    → (payer : Bytes) × (o ≡ some (a, payer))
pinned_or_none-eq-ok none e = cc
pinned_or_none-eq-ok (some (pinned, payer)) e = (payer, ap (λ t. some (t, payer)) (ok_inj e))

-- When attest returns a record, the latch is clear, the record is not revoked, and it is either the
-- record of the block's ring slot, with that block number and a version other than 0, or the record
-- of the box pinned for the block, with version 1.
pub attest-Serves : (s : Anchor) (bn : ℕ) {a : Bytes} → attest bn s ≡ ok a → Serves s bn a
unfolding attest
attest-Serves s bn {a} e =
    let (t, e1) = assert-eq-ok (s.conflict == 0) "N22" _ e in
    let calm = (==_iff (s.conflict) 0).0 t in
    let (b, r, e2) = >>=-eq-ok (read_ring_slot (s.ring_size) bn (s.boxes)) _ e1 in
    let (here, i, e3) = >>=-eq-ok (is_record_of b bn) _ e2 in
    elim (if-eq-ok here _ _ e3) [
      | inl (hit, e4) ↦
          let (same, standing) = unless_revoked-eq-ok b e4 in
          let (n, v) = is_record_of-true b bn (i ∙ ap ok hit) in
          record {
            calm = calm;
            standing = standing;
            from =
                in_ring (r ∙ ap ok same) (ap a_block_number (sym same) ∙ n)
                  (λ z. v (ap a_version same ∙ z));
          }
      | inr (miss, e4) ↦
          let (o, p, e5) = >>=-eq-ok (pin_read_maybe bn (s.boxes)) _ e4 in
          let (c, q, e6) = >>=-eq-ok (pinned_or_none o) _ e5 in
          let (payer, some_c) = pinned_or_none-eq-ok o q in
          let (version, v, e7) = >>=-eq-ok (a_version c) _ e6 in
          let (t', e8) = assert-eq-ok (version == 1) "N14" _ e7 in
          let (same, standing) = unless_revoked-eq-ok c e8 in
          record {
            calm = calm;
            standing = standing;
            from =
                in_pin payer (p ∙ ap ok (some_c ∙ ap (λ t. some (t, payer)) same))
                  (ap a_version (sym same) ∙ v ∙ ap ok ((==_iff version 1).0 t'));
          }
    ]

-- While the latch is set, attest and get_anchor of any block fail with N22.
pub conflict-blocks :
    (s : Anchor) (bn : ℕ)
    → s.conflict ≢ 0
    → (attest bn s ≡ err (code "N22")) × (get_anchor bn s ≡ err (code "N22"))
unfolding attest get_anchor
conflict-blocks s bn ne = elim (Bool-cases (s.conflict == 0)) [
  | inl zero_ ↦ absurd (ne ((==_iff (s.conflict) 0).0 zero_))
  | inr set ↦ (rw set refl, rw set refl)
]
