-- ===== src/StateAnchor/Record/Fields.antt =====
-- What a record of contracts/state_anchor/record.py says, by its accessors.
use eth_avm_light_client.Prelude.{
  ℕ, ◌+◌, ◌/◌, ◌%◌, ◌^◌, ◌≤◌, ◌<◌, ◌≡◌, refl, sym, ap, subst, ◌∙◌, [], ◌++◌, append_assoc,
  append-nil, Bool, true, false, if◌then◌else◌, ◌==◌, ==_iff, length, length-append, arith,
  bytes_eq_refl, ==_refl,
}
use eth_avm_light_client.Prelude.Slices.{slice, slice-middle, slice-append_within}
use eth_avm_light_client.Avm.{Bytes, ok, ◌>>=◌, byte1, itob, extract, btoi}
use eth_avm_light_client.Avm.Results.{assert-eq-ok, ok_inj}
use eth_avm_light_client.Avm.Words.{extract-slice, btoi-itob}
use eth_avm_light_client.StateAnchor.Record.{
  build_record, a_version, a_flags, a_is_revoked, a_is_historical, a_block_number, a_beacon_slot,
  a_state_root, a_receipts_root, a_beacon_block_root, a_finality_root, a_anchored_round,
  record_content_matches, flag_historical, version_1,
}

-- What a record says, by its accessors.
pub record Says (a : Bytes) (historical : Bool) (block_number beacon_slot : ℕ)
    (state_root receipts_root beacon_block_root finality_root : Bytes) (anchored_round : ℕ)
    : Type 0 where
  pub size : length a ≡ 154
  pub version : a_version a ≡ ok 1
  pub flags : a_flags a ≡ ok (if historical then flag_historical else 0)
  pub fresh : a_is_revoked a ≡ ok false
  pub mode : a_is_historical a ≡ ok historical
  pub number : a_block_number a ≡ ok block_number
  pub slot : a_beacon_slot a ≡ ok beacon_slot
  pub state : a_state_root a ≡ ok state_root
  pub receipts : a_receipts_root a ≡ ok receipts_root
  pub block : a_beacon_block_root a ≡ ok beacon_block_root
  pub finality : a_finality_root a ≡ ok finality_root
  pub round : a_anchored_round a ≡ ok anchored_round

-- A field of eight bytes at `i`.
u64_field :
    (a : Bytes) (i v : ℕ) (small : v < 2 ^ 64)
    → i + 8 ≤ length a
    → slice a i 8 ≡ itob v
    → (extract a i 8 >>= btoi) ≡ ok v
u64_field a i v small fits e = rw (extract-slice a i 8 fits e) (btoi-itob v small)

module _ (historical : Bool) (bn slot : ℕ) (sr rr br fr : Bytes) (round : ℕ)
    (small_bn : bn < 2 ^ 64) (small_slot : slot < 2 ^ 64) (small_round : round < 2 ^ 64) where
  flags : ℕ
  flags = if historical then flag_historical else 0

  front : Bytes
  front = byte1 1 ++ (byte1 flags ++ (itob bn ++ itob slot))

  whole : Bytes
  whole = front ++ (sr ++ (rr ++ (br ++ (fr ++ itob round))))

  module _ (lsr : length sr ≡ 32) (lrr : length rr ≡ 32) (lbr : length br ≡ 32)
      (lfr : length fr ≡ 32) where
    length-whole : length whole ≡ 154
    unfolding whole front
    length-whole =
        length-append front (sr ++ (rr ++ (br ++ (fr ++ itob round))))
        ∙ omega (
          arith,
          length-append sr (rr ++ (br ++ (fr ++ itob round))),
          length-append rr (br ++ (fr ++ itob round)),
          length-append br (fr ++ itob round),
          length-append fr (itob round),
        )

    -- The part `y` of the record, and the way to the part behind it.
    record Part (y z : Bytes) (i : ℕ) : Type 0 where
      before : Bytes
      split : whole ≡ before ++ (y ++ z)
      size : length before ≡ i

    read : {y z : Bytes} {i : ℕ} (n : ℕ) → Part y z i → length y ≡ n → slice whole i n ≡ y
    read {y} {z} {i} n p ly =
        ap (λ t. slice t i n) p.split ∙ slice-middle p.before y z i n p.size ly

    next : {y u v : Bytes} {i : ℕ} → Part y (u ++ v) i → length y ≡ 32 → Part u v (i + 32)
    next {y} {u} {v} p ly = record {
      before = p.before ++ y;
      split = p.split ∙ sym (append_assoc p.before y (u ++ v));
      size = omega (arith, length-append p.before y, p.size);
    }

    state_part : Part sr (rr ++ (br ++ (fr ++ itob round))) 18
    unfolding whole front
    state_part = record { before = front; split = refl; size = refl }

    receipts_part : Part rr (br ++ (fr ++ itob round)) 50
    receipts_part = next state_part lsr

    block_part : Part br (fr ++ itob round) 82
    block_part = next receipts_part lrr

    finality_part : Part fr (itob round) 114
    finality_part = next block_part lbr

    round_read : slice whole 146 8 ≡ itob round
    round_read =
        let p = finality_part in
        ap (λ t. slice t 146 8)
          (p.split
            ∙ sym (append_assoc p.before fr (itob round))
            ∙ ap (λ t. (p.before ++ fr) ++ t) (sym (append-nil (itob round))))
        ∙ slice-middle (p.before ++ fr) (itob round) [] 146 8
            (omega (arith, length-append p.before fr, p.size)) refl

    field32 : (i : ℕ) (y : Bytes) → i + 32 ≤ 154 → slice whole i 32 ≡ y → extract whole i 32 ≡ ok y
    field32 i y fits e = extract-slice whole i 32 (omega (arith, length-whole)) e

    field8 :
        (i v : ℕ)
        → v < 2 ^ 64
        → i + 8 ≤ 154
        → slice whole i 8 ≡ itob v
        → (extract whole i 8 >>= btoi) ≡ ok v
    field8 i v small fits e = u64_field whole i v small (omega (arith, length-whole)) e

    head_reads :
        (a_version whole ≡ ok 1)
        × (a_flags whole ≡ ok (if historical then flag_historical else 0))
        × (a_is_revoked whole ≡ ok false)
        × (a_is_historical whole ≡ ok historical)
        × (slice whole 2 8 ≡ itob bn)
        × (slice whole 10 8 ≡ itob slot)
    unfolding whole front flags a_version a_is_revoked a_is_historical a_flags
    head_reads = (refl, bits historical, revoked historical, mode historical, refl, refl)
      where
        bits : (b : Bool) → ok ((if b then 2 else 0) % 256) ≡ ok (if b then flag_historical else 0)
        bits true = refl
        bits false = refl

        revoked : (b : Bool) → ok ((if b then 2 else 0) % 256 % 2 == 1) ≡ ok false
        revoked true = refl
        revoked false = refl

        mode : (b : Bool) → ok ((if b then 2 else 0) % 256 / 2 % 2 == 1) ≡ ok b
        mode true = refl
        mode false = refl

    whole-Says : Says whole historical bn slot sr rr br fr round
    unfolding a_block_number a_beacon_slot a_state_root a_receipts_root a_beacon_block_root
        a_finality_root a_anchored_round
    whole-Says =
        let (version, bits, fresh, mode, number, at_slot) = head_reads in
        record {
          size = length-whole;
          version = version;
          flags = bits;
          fresh = fresh;
          mode = mode;
          number = field8 2 bn small_bn (omega arith) number;
          slot = field8 10 slot small_slot (omega arith) at_slot;
          state = field32 18 sr (omega arith) (read 32 state_part lsr);
          receipts = field32 50 rr (omega arith) (read 32 receipts_part lrr);
          block = field32 82 br (omega arith) (read 32 block_part lbr);
          finality = field32 114 fr (omega arith) (read 32 finality_part lfr);
          round = field8 146 round small_round (omega arith) round_read;
        }

  parts :
      (a : Bytes)
      → ok (
          byte1 version_1
          ++ (byte1 (if historical then flag_historical else 0)
              ++ (itob bn ++ (itob slot ++ (sr ++ (rr ++ (br ++ (fr ++ itob round))))))))
        ≡ ok a
      → whole ≡ a
  unfolding whole front flags
  parts a e = ok_inj e

  -- A record that build_record returns for a block number, slot and round below 2^64 has 154 bytes
  -- and version 1, is not revoked, and every accessor reads back what it was built from.
  pub build_record-Says :
      {a : Bytes}
      → build_record historical bn slot sr rr br fr round ≡ ok a
      → Says a historical bn slot sr rr br fr round
  unfolding build_record
  build_record-Says {a} e =
      let (t1, e1) = assert-eq-ok (length sr == 32) _ _ e in
      let (t2, e2) = assert-eq-ok (length rr == 32) _ _ e1 in
      let (t3, e3) = assert-eq-ok (length br == 32) _ _ e2 in
      let (t4, e4) = assert-eq-ok (length fr == 32) _ _ e3 in
      let same : whole ≡ a = parts a e4 in
      subst (λ t. Says t historical bn slot sr rr br fr round) same
        (whole-Says ((==_iff (length sr) 32).0 t1) ((==_iff (length rr) 32).0 t2)
          ((==_iff (length br) 32).0 t3) ((==_iff (length fr) 32).0 t4))

-- Two records of one block that differ in their mode are never the same content.
pub content_matches-modes :
    {a b : Bytes} {bn slot slot' round round' : ℕ} {sr rr br fr sr' rr' br' fr' : Bytes}
    → Says a false bn slot sr rr br fr round
    → Says b true bn slot' sr' rr' br' fr' round'
    → record_content_matches a b ≡ ok false
unfolding record_content_matches
content_matches-modes p q = rw (p.flags, q.flags) refl

-- All of a record but its round.
record_body : Bool → ℕ → ℕ → Bytes → Bytes → Bytes → Bytes → Bytes
record_body historical bn slot sr rr br fr =
    byte1 1
    ++ (byte1 (if historical then flag_historical else 0)
        ++ (itob bn ++ (itob slot ++ (sr ++ (rr ++ (br ++ fr))))))

body_head :
    (historical : Bool) (bn slot : ℕ) (sr rr br fr : Bytes) (round : ℕ)
    → (a_version (record_body historical bn slot sr rr br fr ++ itob round) ≡ ok 1)
      × (a_flags (record_body historical bn slot sr rr br fr ++ itob round)
          ≡ ok ((if historical then flag_historical else 0) % 256))
unfolding record_body a_version a_flags
body_head historical bn slot sr rr br fr round = (refl, refl)

build_record-body :
    (historical : Bool) (bn slot : ℕ) (sr rr br fr : Bytes) (round : ℕ) {a : Bytes}
    → build_record historical bn slot sr rr br fr round ≡ ok a
    → (a ≡ record_body historical bn slot sr rr br fr ++ itob round)
      × (length (record_body historical bn slot sr rr br fr) ≡ 146)
unfolding build_record record_body
build_record-body historical bn slot sr rr br fr round {a} e =
    let (t1, e1) = assert-eq-ok (length sr == 32) _ _ e in
    let (t2, e2) = assert-eq-ok (length rr == 32) _ _ e1 in
    let (t3, e3) = assert-eq-ok (length br == 32) _ _ e2 in
    let (t4, e4) = assert-eq-ok (length fr == 32) _ _ e3 in
    let lsr : length sr ≡ 32 = (==_iff (length sr) 32).0 t1 in
    let lrr : length rr ≡ 32 = (==_iff (length rr) 32).0 t2 in
    let lbr : length br ≡ 32 = (==_iff (length br) 32).0 t3 in
    let lfr : length fr ≡ 32 = (==_iff (length fr) 32).0 t4 in
    let tail : (sr ++ (rr ++ (br ++ fr))) ++ itob round ≡ sr ++ (rr ++ (br ++ (fr ++ itob round))) =
      append_assoc sr (rr ++ (br ++ fr)) (itob round)
      ∙ ap (λ t. sr ++ t)
          (append_assoc rr (br ++ fr) (itob round)
            ∙ ap (λ t. rr ++ t) (append_assoc br fr (itob round))) in
    (
      sym (ok_inj e4)
          ∙ ap
              (λ t.
                byte1 1
                ++ (byte1 (if historical then flag_historical else 0)
                    ++ (itob bn ++ (itob slot ++ t))))
              (sym tail),
      omega (
        arith,
        length-append sr (rr ++ (br ++ fr)),
        length-append rr (br ++ fr),
        length-append br fr,
      ),
    )

-- Two records built from the same fields in any two rounds are the same content for
-- record_content_matches.
pub content_matches-rounds :
    (historical : Bool) (bn slot : ℕ) (sr rr br fr : Bytes) (round round' : ℕ) {a b : Bytes}
    → build_record historical bn slot sr rr br fr round ≡ ok a
    → build_record historical bn slot sr rr br fr round' ≡ ok b
    → record_content_matches a b ≡ ok true
unfolding record_content_matches
content_matches-rounds historical bn slot sr rr br fr round round' {a} {b} e e' =
    let body : Bytes = record_body historical bn slot sr rr br fr in
    let (split, len) = build_record-body historical bn slot sr rr br fr round e in
    let (split', _) = build_record-body historical bn slot sr rr br fr round' e' in
    let part : (r : ℕ) → extract (body ++ itob r) 2 144 ≡ ok (slice body 2 144) = λ r.
      extract-slice (body ++ itob r) 2 144 (omega (arith, length-append body (itob r)))
        (slice-append_within body (itob r) 2 144 (omega arith)) in
    let (version, flags) = body_head historical bn slot sr rr br fr round in
    let (version', flags') = body_head historical bn slot sr rr br fr round' in
    rw (split, split', flags, flags', ==_refl, version, version', part round, part round')
      (ap ok (bytes_eq_refl (slice body 2 144)))
