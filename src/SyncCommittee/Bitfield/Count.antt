-- ===== src/SyncCommittee/Bitfield/Count.antt =====
-- The number of participants that contracts/sync_committee/bitfield.py counts.
use eth_avm_light_client.Prelude.{
  ℕ, zero, suc, ◌+◌, ◌-◌, ◌*◌, ◌/◌, ◌%◌, ◌≤◌, ◌<◌, ◌≡◌, refl, sym, ap, ◌∙◌, inl, inr, Bool, not,
  ap₂, true, false, get_elem?, Option-cases, if◌then◌else◌, ◌==◌, length, arith,
}
use eth_avm_light_client.Avm.{Bytes, Result, ok, ◌>>=◌, getbyte, getbit, u64, sub}
use eth_avm_light_client.Avm.Results.{>>=-eq-ok, assert-eq-ok, ok_inj, if-eq-ok, u64-eq-ok}
use eth_avm_light_client.Avm.Store.{Store, box_extract}
use eth_avm_light_client.SyncCommittee.Bitfield.{
  avm_bit_index, bytes_getbit, Walk, touches, add_member, walk_bit, walk_bits, walk_and_accumulate,
  aggregate_participants, key_box_name, keys_per_box, g1_uncompressed_bytes, total_box_name,
}
use eth_avm_light_client.Bls.Codec.{g1_infinity, g1_negate}
use eth_avm_light_client.SyncCommittee.Bitfield.Order.{member, avm_bit_index-getbit}

-- How many of the `m` numbers from `i` on pass the test.
pub count : (ℕ → Bool) → ℕ → ℕ → ℕ
count test zero i = 0
count test (suc m) i = (if test i then 1 else 0) + count test m (i + 1)

touched_by : Bytes → Bool → ℕ → Bool
touched_by bits complement i = touches (member bits i) complement

member-read :
    (bits : Bytes) (i : ℕ) {t : Bool}
    → (getbyte bits (i / 8) >>= λ v. ok (getbit v (i % 8))) ≡ ok t
    → t ≡ member bits i
unfolding member
member-read bits i h = elim (Option-cases (get_elem? bits (i / 8))) [
  | inl none_there ↦ ground (arith, none_there)
  | inr (v, there) ↦ ground (arith, there)
]

touches_set : (t : Bool) → touches t false ≡ t
touches_set true = refl
touches_set false = refl

touches_clear : (t : Bool) → touches t true ≡ not t
touches_clear true = refl
touches_clear false = refl

touched_by-set : (bits : Bytes) (i : ℕ) → touched_by bits false i ≡ member bits i
unfolding touched_by
touched_by-set bits i = touches_set (member bits i)

touched_by-clear : (bits : Bytes) (i : ℕ) → touched_by bits true i ≡ not (member bits i)
unfolding touched_by
touched_by-clear bits i = touches_clear (member bits i)

count-set : (bits : Bytes) (m i : ℕ) → count (touched_by bits false) m i ≡ count (member bits) m i
unfolding count
count-set bits zero i = refl
count-set bits (suc m) i =
    ap₂ (λ t r. (if t then 1 else 0) + r) (touched_by-set bits i) (count-set bits m (i + 1))

one_of : (t : Bool) → (if not t then 1 else 0) + (if t then 1 else 0) ≡ 1
one_of true = refl
one_of false = refl

-- The bits that are clear and the bits that are set are all of them.
count-clear :
    (bits : Bytes) (m i : ℕ) → count (touched_by bits true) m i + count (member bits) m i ≡ m
unfolding count
count-clear bits zero i = refl
count-clear bits (suc m) i =
    let rest = count-clear bits m (i + 1) in
    let here = one_of (member bits i) in rw (touched_by-clear bits i) (omega (arith, rest, here))

zero_add : (n : ℕ) → 0 + n ≡ n
zero_add n = omega arith

sub_difference : (a b : ℕ) {c : ℕ} → sub a b ≡ ok c → c ≡ a - b
sub_difference a b h = ground arith

minus_eq : (n a b : ℕ) → n ≡ a → a + b ≡ 512 → 512 - n ≡ b
minus_eq n a b e f = omega arith

module _ (add : Bytes → Bytes → Result Bytes) (boxes : Store) (gen : ℕ) (bits : Bytes) where
  add_member-touched :
      (i : ℕ) (acc : Bytes) (have : Bool) (n : ℕ) {walk' : Walk}
      → add_member add boxes gen i (acc, have, n) ≡ ok walk'
      → walk'.2 ≡ n + 1
  unfolding add_member
  add_member-touched i acc have n h =
      let (pk, _, h1) =
        >>=-eq-ok
          (box_extract (key_box_name gen (i / keys_per_box))
            (i % keys_per_box * g1_uncompressed_bytes) g1_uncompressed_bytes boxes)
          _ h in
      let (acc', _, h2) = >>=-eq-ok (if have then add acc pk else ok pk) _ h1 in
      let (n', u, h3) = >>=-eq-ok (u64 (n + 1)) _ h2 in
      let (same, _) = u64-eq-ok (n + 1) u in ap (λ w. w.2) (sym (ok_inj h3)) ∙ sym same

  walk_bit-touched :
      (complement : Bool) (i : ℕ) (acc : Bytes) (have : Bool) (n : ℕ) {walk' : Walk}
      → i < 512
      → walk_bit add boxes bits gen complement i (acc, have, n) ≡ ok walk'
      → walk'.2 ≡ n + (if touched_by bits complement i then 1 else 0)
  unfolding walk_bit touched_by
  walk_bit-touched complement i acc have n lo h =
      let (index, at, h1) = >>=-eq-ok (avm_bit_index i) _ h in
      let (bit_set, got, h2) = >>=-eq-ok (bytes_getbit bits index) _ h1 in
      let read : (avm_bit_index i >>= bytes_getbit bits) ≡ ok bit_set =
        ap (λ r. r >>= bytes_getbit bits) at ∙ got in
      let same : bit_set ≡ member bits i =
        member-read bits i (sym (avm_bit_index-getbit bits i lo) ∙ read) in
      elim (if-eq-ok (touches bit_set complement) _ _ h2) [
        | inl (hit, added) ↦
            let here : touches (member bits i) complement ≡ true =
              ap (λ b. touches b complement) (sym same) ∙ hit in
            rw here (add_member-touched i acc have n added)
        | inr (miss, kept) ↦
            let here : touches (member bits i) complement ≡ false =
              ap (λ b. touches b complement) (sym same) ∙ miss in
            rw here (ap (λ w. w.2) (sym (ok_inj kept)) ∙ omega arith)
      ]

  walk_bits-touched :
      (complement : Bool) (m i : ℕ) (acc : Bytes) (have : Bool) (n : ℕ) {walk' : Walk}
      → i + m ≤ 512
      → walk_bits add boxes bits gen complement m i (acc, have, n) ≡ ok walk'
      → walk'.2 ≡ n + count (touched_by bits complement) m i
  unfolding walk_bits count
  walk_bits-touched complement zero i acc have n lo h = ap (λ w. w.2) (sym (ok_inj h)) ∙ omega arith
  walk_bits-touched complement (suc m) i acc have n lo h =
      let ((acc', have', n'), step, h1) =
        >>=-eq-ok (walk_bit add boxes bits gen complement i (acc, have, n)) _ h in
      let here = walk_bit-touched complement i acc have n (omega arith) step in
      let rest = walk_bits-touched complement m (i + 1) acc' have' n' (omega arith) h1 in
      omega (arith, here, rest)

  walk-touched :
      (complement : Bool) {sum : Bytes} {n : ℕ}
      → walk_and_accumulate add boxes bits gen complement ≡ ok (sum, n)
      → n ≡ count (touched_by bits complement) 512 0
  unfolding walk_and_accumulate
  walk-touched complement h =
      let (_, h1) = assert-eq-ok (length bits == 64) "" _ h in
      let ((acc, have, n'), walked, h2) =
        >>=-eq-ok (walk_bits add boxes bits gen complement 512 0 (g1_infinity, false, 0)) _ h1 in
      let total = walk_bits-touched complement 512 0 g1_infinity false 0 (omega arith) walked in
      let same = ap (λ r. r.1) (ok_inj h2) in sym same ∙ total ∙ zero_add _

  -- When aggregate_participants succeeds, in either mode, the number that it returns is the number
  -- of members from 0 to 511 whose bit is set in the SSZ bit vector.
  pub aggregate_participants-count :
      (mode : ℕ) {agg : Bytes} {popcount : ℕ}
      → aggregate_participants add boxes bits gen mode ≡ ok (agg, popcount)
      → popcount ≡ count (member bits) 512 0
  unfolding aggregate_participants
  aggregate_participants-count mode h =
      let ((sum, n), walked, h1) =
        >>=-eq-ok (walk_and_accumulate add boxes bits gen (mode == 1)) _ h in
      elim (if-eq-ok (mode == 1) _ _ h1) [
        | inl (absent, h2) ↦
            let (rest, less, h3) = >>=-eq-ok (sub 512 n) _ h2 in
            let (a_total, _, h4) =
              >>=-eq-ok (box_extract (total_box_name gen) 0 g1_uncompressed_bytes boxes) _ h3 in
            let (negated, _, h5) = >>=-eq-ok (g1_negate sum) _ h4 in
            let (agg', _, h6) = >>=-eq-ok (add a_total negated) _ h5 in
            let same = ap (λ r. r.1) (ok_inj h6) in
            let clear =
              walk-touched true
                (ap (λ c. walk_and_accumulate add boxes bits gen c) (sym absent) ∙ walked) in
            let both = count-clear bits 512 0 in
            let difference : rest ≡ 512 - n = sub_difference 512 n less in
            sym same ∙ difference ∙ minus_eq n _ _ clear both
        | inr (direct, h2) ↦
            let same = ap (λ r. r.1) (ok_inj h2) in
            let set =
              walk-touched false
                (ap (λ c. walk_and_accumulate add boxes bits gen c) (sym direct) ∙ walked) in
            sym same ∙ set ∙ count-set bits 512 0
      ]
