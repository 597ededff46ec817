-- ===== src/SyncCommittee/Bitfield/Order.antt =====
-- The order of the participation bits (contracts/sync_committee/bitfield.py).
use eth_avm_light_client.Prelude.{
  ℕ, ◌+◌, ◌-◌, ◌*◌, ◌/◌, ◌%◌, ◌<◌, ◌≡◌, ap, ◌∙◌, Bool, false, none, some, get_elem?, arith,
}
use eth_avm_light_client.Avm.{Bytes, ok, ◌>>=◌, getbyte, getbit}
use eth_avm_light_client.SyncCommittee.Bitfield.{avm_bit_index, bytes_getbit}

-- Member `i` of an SSZ bit vector: bit `i % 8` of byte `i / 8`, from the least significant.
unfoldable pub member : Bytes → ℕ → Bool
member bits i = elim (get_elem? bits (i / 8)) [ none ↦ false | some v ↦ getbit v (i % 8) ]

avm_bit_index-runs : (i : ℕ) → i < 512 → avm_bit_index i ≡ ok (i / 8 * 8 + 7 - i % 8)
unfolding avm_bit_index
avm_bit_index-runs i lo = ground arith

-- The bit that getbit reads at avm_bit_index i, for i below 512, is bit i % 8, from the least
-- significant, of byte i / 8.
pub avm_bit_index-getbit :
    (bits : Bytes) (i : ℕ)
    → i < 512
    → (avm_bit_index i >>= bytes_getbit bits)
      ≡ (getbyte bits (i / 8) >>= λ v. ok (getbit v (i % 8)))
avm_bit_index-getbit bits i lo =
    let byte : (i / 8 * 8 + 7 - i % 8) / 8 ≡ i / 8 = omega arith in
    let bit : 7 - (i / 8 * 8 + 7 - i % 8) % 8 ≡ i % 8 = omega arith in
    rw (avm_bit_index-runs i lo) (
      ap (λ k. getbyte bits k >>= λ v. ok (getbit v (7 - (i / 8 * 8 + 7 - i % 8) % 8))) byte
      ∙ ap (λ k. getbyte bits (i / 8) >>= λ v. ok (getbit v k)) bit)
