-- ===== src/StateAnchor/App/Pins.antt =====
-- Pinning a record and taking it back (contracts/state_anchor/anchor_app.py).
use eth_avm_light_client.Prelude.{
  ℕ, ◌+◌, ◌≡◌, refl, sym, ap, ◌∙◌, inl, inr, Option, none, some, Option-cases, ap₂, if◌then◌else◌,
  length-replicate, ◌++◌, length, leb, bytes_eq, ==_iff, ◌==◌, arith, length-append,
}
use eth_avm_light_client.Prelude.Slices.{
  slice, splice, slice-splice_self, slice_all, slice-append_skip, slice-append_within,
  length-splice, length-slice,
}
use eth_avm_light_client.Avm.{Bytes, Result, ok, err, ◌>>=◌, bzero, extract, replace, panic}
use eth_avm_light_client.Avm.Results.{assert-eq-ok, >>=-eq-ok, ok_inj, extract-eq-ok, if-eq-ok}
use eth_avm_light_client.Avm.Words.{extract-slice}
use eth_avm_light_client.Avm.Store.{
  Store, put, put-same, remove, remove-same, box_create, box_create_new, box_create_old, box_value,
  value_or_panic, box_extract,
}
use eth_avm_light_client.StateAnchor.Record.{record_len}
use eth_avm_light_client.StateAnchor.Box.{
  pin_box_name, pinned_record_len, pin_write, pin_read_maybe, pin_delete, read_ring_slot,
  ring_residue, ring_box_name,
}
use eth_avm_light_client.StateAnchor.App.{Anchor, Txn, Payment, pin, unpin, is_record_of}

overwritten : (b c d : Bytes) → length b ≡ length c → replace b 0 c ≡ ok d → d ≡ c
overwritten b c d same r =
    let spliced : splice b 0 c ≡ d = replaced b c d r in
    sym spliced
    ∙ sym (slice_all (splice b 0 c) (length c) (omega (arith, length-splice b 0 c)))
    ∙ slice-splice_self b 0 (length c) c refl (omega arith)
  where
    replaced : (b c d : Bytes) → replace b 0 c ≡ ok d → splice b 0 c ≡ d
    replaced b c d r = ground arith

kept :
    (n size : ℕ) (store : Store) {store' : Store}
    → ◌≡◌ {A = Result Store} (if n == size then ok store else err panic) (ok store')
    → (n ≡ size) × (store ≡ store')
kept n size store h = elim (if-eq-ok (n == size) _ _ h) [
  | inl (t, e) ↦ (let (to, _) = ==_iff n size in to t, ok_inj e)
  | inr (_, e) ↦ cc
]

created :
    (name : Bytes) (size : ℕ) (store : Store) {store' : Store}
    → box_create name size store ≡ ok store'
    → (b : Bytes) × (store' name ≡ some b) × (length b ≡ size)
created name size store {store'} h = elim (Option-cases (store name)) [
  | inl absent ↦
      let e : put name (bzero size) store ≡ store' =
        ok_inj (sym (box_create_new name size store absent) ∙ h) in
      (
        bzero size,
        ap (λ c. c name) (sym e) ∙ put-same name (bzero size) store,
        length-replicate size 0,
      )
  | inr (b, there) ↦
      let (same, e) =
        kept (length b) size store (sym (box_create_old name size store b there) ∙ h) in
      (b, ap (λ c. c name) (sym e) ∙ there, same)
]

record_sized :
    (name : Bytes) (store : Store) {a : Bytes}
    → box_extract name 0 record_len store ≡ ok a
    → length a ≡ record_len
record_sized name store h =
    let (b, _, h1) = >>=-eq-ok (box_value name store) _ h in
    let (full, sliced) = extract-eq-ok b 0 record_len h1 in
    ap length sliced ∙ length-slice b 0 record_len full

pin_write-stored :
    (bn : ℕ) (a payer : Bytes) (boxes : Store) {boxes' : Store}
    → length a ≡ record_len
    → pin_write bn a payer boxes ≡ ok boxes'
    → (length payer ≡ 32) × (boxes' (pin_box_name bn) ≡ some (a ++ payer))
unfolding pin_write
pin_write-stored bn a payer boxes {boxes'} full h =
    let (t, h1) = assert-eq-ok (length payer == 32) "N24" _ h in
    let (made, m, h2) = >>=-eq-ok (box_create (pin_box_name bn) pinned_record_len boxes) _ h1 in
    let (b, there, size) = created (pin_box_name bn) pinned_record_len boxes m in
    let (b1, v, h3) = >>=-eq-ok (box_value (pin_box_name bn) made) _ h2 in
    let (b2, r, h4) = >>=-eq-ok (replace b1 0 (a ++ payer)) _ h3 in
    let wide : length payer ≡ 32 = ground arith in
    let same : b1 ≡ b = ok_inj (sym v ∙ ap value_or_panic there) in
    let sized : length b1 ≡ length (a ++ payer) =
      ap length same ∙ size ∙ omega (arith, length-append a payer, full, wide) in
    let put_in : put (pin_box_name bn) b2 made ≡ boxes' = ok_inj h4 in
    (
      wide,
      ap (λ c. c (pin_box_name bn)) (sym put_in)
          ∙ put-same (pin_box_name bn) b2 made
          ∙ ap some (overwritten b1 (a ++ payer) b2 sized r),
    )

opened : Bytes → Result (Option (Bytes × Bytes))
opened b = do
  raw ← extract b 0 pinned_record_len
  ok (some (slice raw 0 record_len, slice raw 154 32))

pin_read_there :
    (bn : ℕ) (boxes : Store) (b : Bytes)
    → boxes (pin_box_name bn) ≡ some b
    → pin_read_maybe bn boxes ≡ opened b
unfolding pin_read_maybe opened
pin_read_there bn boxes b there = rw (there, pin_read_maybe) refl

pin_read_absent :
    (bn : ℕ) (boxes : Store) → boxes (pin_box_name bn) ≡ none → pin_read_maybe bn boxes ≡ ok none
unfolding pin_read_maybe
pin_read_absent bn boxes absent = rw (absent, pin_read_maybe) refl

opened_back :
    (a payer : Bytes)
    → length a ≡ record_len
    → length payer ≡ 32
    → opened (a ++ payer) ≡ ok (some (a, payer))
unfolding opened
opened_back a payer full wide =
    let sized : length (a ++ payer) ≡ 186 = omega (arith, length-append a payer) in
    let whole : extract (a ++ payer) 0 186 ≡ ok (a ++ payer) =
      extract-slice (a ++ payer) 0 186 (omega arith) (slice_all (a ++ payer) 186 (omega arith)) in
    let front : slice (a ++ payer) 0 154 ≡ a =
      slice-append_within a payer 0 154 (omega arith) ∙ slice_all a 154 (omega arith) in
    let at : 154 ≡ length a + 0 = omega arith in
    let back : slice (a ++ payer) 154 32 ≡ payer =
      ap (λ i. slice (a ++ payer) i 32) at
      ∙ slice-append_skip a payer 0 32
      ∙ slice_all payer 32 (omega arith) in
    ap (λ r. r >>= λ raw. ok (some (slice raw 0 record_len, slice raw 154 32))) whole
    ∙ ap₂ (λ x y. ok (some (x, y))) front back

-- What taking back a pinned record gives.
pub record Refunded (payer : Bytes) (bn : ℕ) (s' : Anchor) : Type 0 where
  pub last : Anchor
  pub paid : unpin bn s' ≡ ok (record { receiver = payer; amount = 80900 }, last)
  pub gone : pin_read_maybe bn last.boxes ≡ ok none

-- After a pin that succeeds, whoever had pinned the block before, an unpin succeeds, pays 80900 to
-- the sender of that pin and leaves no pinned record of the block.
pub pin-unpin :
    (txn : Txn) (bn : ℕ) (payment : Payment) (s : Anchor) {s' : Anchor}
    → pin txn bn payment s ≡ ok s'
    → Refunded txn.sender bn s'
unfolding pin unpin read_ring_slot pin_delete
pin-unpin txn bn payment s {s'} h =
    let (_, h1) = assert-eq-ok (s.conflict == 0) "N22" _ h in
    let (_, h2) = assert-eq-ok (s.frozen == 0) "N11" _ h1 in
    let (a, got, h3) = >>=-eq-ok (read_ring_slot s.ring_size bn s.boxes) _ h2 in
    let (here, _, h4) = >>=-eq-ok (is_record_of a bn) _ h3 in
    let (_, h5) = assert-eq-ok here "N12" _ h4 in
    let (_, h6) = assert-eq-ok (bytes_eq payment.receiver txn.app_address) "N24" _ h5 in
    let (_, h7) = assert-eq-ok (leb 80900 payment.amount) "N24" _ h6 in
    let (boxes', wrote, h8) = >>=-eq-ok (pin_write bn a txn.sender s.boxes) _ h7 in
    let (residue, _, got') = >>=-eq-ok (ring_residue bn s.ring_size) _ got in
    let full : length a ≡ record_len = record_sized (ring_box_name residue) s.boxes got' in
    let (wide, there) = pin_write-stored bn a txn.sender s.boxes full wrote in
    let q : boxes' ≡ s'.boxes = ap (λ c. c.boxes) (ok_inj h8) in
    let read : pin_read_maybe bn s'.boxes ≡ ok (some (a, txn.sender)) =
      pin_read_there bn s'.boxes (a ++ txn.sender) (ap (λ c. c (pin_box_name bn)) (sym q) ∙ there)
      ∙ opened_back a txn.sender full wide in
    record {
      last = record s' { boxes = pin_delete bn s'.boxes };
      paid = rw read refl;
      gone =
          pin_read_absent bn (remove (pin_box_name bn) s'.boxes)
            (remove-same (pin_box_name bn) s'.boxes);
    }
