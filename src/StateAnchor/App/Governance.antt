-- ===== src/StateAnchor/App/Governance.antt =====
-- The methods of governance of contracts/state_anchor/anchor_app.py.
use eth_avm_light_client.Prelude.{
  ℕ, ◌+◌, ◌*◌, ◌/◌, ◌%◌, ◌≤◌, ◌≡◌, refl, sym, ap, ◌∙◌, true, [], ◌∷◌, length, arith, bytes_eq,
}
use eth_avm_light_client.Prelude.Slices.{
  slice, length-slice, splice, length-splice, slice-splice_after,
}
use eth_avm_light_client.Avm.{Bytes, ok, err, code, ◌>>=◌, byte1, extract, replace, btoi}
use eth_avm_light_client.Avm.Results.{assert-eq-ok, >>=-eq-ok, ok_inj, extract-eq-ok}
use eth_avm_light_client.Avm.Words.{extract-slice}
use eth_avm_light_client.Avm.Store.{put, box_extract, box_extract-put, box_replace, box_value}
use eth_avm_light_client.StateAnchor.Record.{
  record_len, a_version, a_flags, a_is_revoked, a_block_number, a_matches_block_number,
}
use eth_avm_light_client.StateAnchor.Box.{ring_residue, ring_box_name, read_ring_slot}
use eth_avm_light_client.StateAnchor.App.{
  Anchor, Txn, revoke, is_record_of, unless_revoked, attest, get_anchor,
}

-- What the flag byte of a record becomes when its lowest bit is set, and what stays.
flag_odd : (flags : ℕ) → (flags / 2 * 2 + 1) % 256 % 2 ≡ 1
flag_odd flags = omega arith

number_kept :
    (b : Bytes) (v : ℕ)
    → record_len ≤ length b
    → a_block_number (splice b 1 (byte1 v)) ≡ a_block_number b
unfolding a_block_number
number_kept b v full =
    ap (λ r. r >>= btoi)
      (extract-slice (splice b 1 (byte1 v)) 2 8 (omega (arith, length-splice b 1 (byte1 v)))
          (slice-splice_after b 1 2 8 (byte1 v) (omega arith))
        ∙ sym (extract-slice b 2 8 (omega arith) refl))

version_kept : (b : Bytes) (v : ℕ) → a_version (splice b 1 (byte1 v)) ≡ a_version b
unfolding a_version
version_kept [] v = refl
version_kept (x ∷ b) v = refl

flag_set : (b : Bytes) (v : ℕ) → 2 ≤ length b → a_flags (splice b 1 (byte1 v)) ≡ ok (v % 256)
unfolding a_flags
flag_set [] v full = absurd (omega arith)
flag_set (x ∷ []) v full = absurd (omega arith)
flag_set (x ∷ (y ∷ b)) v full = refl

splice_front :
    (b : Bytes) (v : ℕ)
    → 2 ≤ length b
    → slice (splice b 1 (byte1 v)) 0 record_len ≡ splice (slice b 0 record_len) 1 (byte1 v)
splice_front [] v full = absurd (omega arith)
splice_front (x ∷ []) v full = absurd (omega arith)
splice_front (x ∷ (y ∷ b)) v full = refl

marked :
    (b : Bytes) (bn flags : ℕ)
    → record_len ≤ length b
    → is_record_of b bn ≡ ok true
    → (is_record_of (splice b 1 (byte1 (flags / 2 * 2 + 1))) bn ≡ ok true)
      × (unless_revoked (splice b 1 (byte1 (flags / 2 * 2 + 1))) ≡ err (code "N13"))
unfolding is_record_of a_matches_block_number unless_revoked a_is_revoked
marked b bn flags full here = (
  rw (version_kept b (flags / 2 * 2 + 1), number_kept b (flags / 2 * 2 + 1) full) here,
  rw (flag_set b (flags / 2 * 2 + 1) (omega arith), flag_odd flags) refl,
)

-- What a revocation has read and written.
record Revoked (txn : Txn) (bn : ℕ) (s s' : Anchor) : Type 0 where
  b : Bytes
  flags : ℕ
  full : record_len ≤ length b
  here : is_record_of (slice b 0 record_len) bn ≡ ok true
  conflict : s'.conflict ≡ s.conflict
  read :
      read_ring_slot s'.ring_size bn s'.boxes
      ≡ ok (splice (slice b 0 record_len) 1 (byte1 (flags / 2 * 2 + 1)))

replaced_byte :
    (b1 b b' : Bytes) (v : ℕ) → b1 ≡ b → replace b1 1 (byte1 v) ≡ ok b' → b' ≡ splice b 1 (byte1 v)
replaced_byte b1 b b' v same r = ground arith

revoke-Revoked :
    (txn : Txn) (bn : ℕ) (s : Anchor) {s' : Anchor} → revoke txn bn s ≡ ok s' → Revoked txn bn s s'
unfolding revoke read_ring_slot
revoke-Revoked txn bn s {s'} e =
    let (_, e1) = assert-eq-ok (bytes_eq txn.sender s.gov) "N23" _ e in
    let (residue, r, e2) = >>=-eq-ok (ring_residue bn s.ring_size) _ e1 in
    let (a, x, e3) = >>=-eq-ok (box_extract (ring_box_name residue) 0 record_len s.boxes) _ e2 in
    let (here, i, e4) = >>=-eq-ok (is_record_of a bn) _ e3 in
    let (t, e5) = assert-eq-ok here "N12" _ e4 in
    let (flags, _, e6) = >>=-eq-ok (a_flags a) _ e5 in
    let v : ℕ = flags / 2 * 2 + 1 in
    let (boxes', w, e7) =
      >>=-eq-ok (box_replace (ring_box_name residue) 1 (byte1 v) s.boxes) _ e6 in
    let (b, bv, x') = >>=-eq-ok (box_value (ring_box_name residue) s.boxes) _ x in
    let (full, slice_a) = extract-eq-ok b 0 record_len x' in
    let (b1, bv1, w1) = >>=-eq-ok (box_value (ring_box_name residue) s.boxes) _ w in
    let (b2, rep, w2) = >>=-eq-ok (replace b1 1 (byte1 v)) _ w1 in
    let spliced : b2 ≡ splice b 1 (byte1 v) = replaced_byte b1 b b2 v (ok_inj (sym bv1 ∙ bv)) rep in
    let put_in : put (ring_box_name residue) b2 s.boxes ≡ boxes' = ok_inj w2 in
    let q = ok_inj e7 in
    record {
      b = b;
      flags = flags;
      full = omega arith;
      here = ap (λ c. is_record_of c bn) (sym slice_a) ∙ i ∙ ap ok t;
      conflict = sym (ap (λ c. c.conflict) q);
      read =
          ap (λ c. read_ring_slot c.ring_size bn c.boxes) (sym q)
          ∙ ap (λ c. c >>= λ y. box_extract (ring_box_name y) 0 record_len boxes') r
          ∙ ap (λ c. box_extract (ring_box_name residue) 0 record_len c) (sym put_in)
          ∙ box_extract-put (ring_box_name residue) b2 0 record_len s.boxes
          ∙ ap (λ c. extract c 0 record_len) spliced
          ∙ extract-slice (splice b 1 (byte1 v)) 0 record_len
              (omega (arith, length-splice b 1 (byte1 v))) (splice_front b v (omega arith));
    }

-- After a revoke of a block that succeeds in a state whose latch is clear, attest and get_anchor of
-- the block both fail with N13.
pub revoke-blocks :
    (txn : Txn) (bn : ℕ) (s : Anchor) {s' : Anchor}
    → revoke txn bn s ≡ ok s'
    → s.conflict ≡ 0
    → (attest bn s' ≡ err (code "N13")) × (get_anchor bn s' ≡ err (code "N13"))
unfolding attest get_anchor
revoke-blocks txn bn s {s'} e c =
    let r = revoke-Revoked txn bn s {s' = s'} e in
    let full : record_len ≤ length (slice r.b 0 record_len) =
      omega (arith, length-slice r.b 0 record_len r.full) in
    let (here, refused) = marked (slice r.b 0 record_len) bn r.flags full r.here in
    (
      rw (r.conflict ∙ c, r.read, here, refused) refl,
      rw (r.conflict ∙ c, r.read, here, refused) refl,
    )
