-- ===== src/Rlp/Envelope.antt =====
-- contracts/primitives/rlp/eip2718.py: the type byte before a typed receipt.
use eth_avm_light_client.Prelude.{ℕ, ◌+◌, ◌-◌, ◌≤◌, ◌≡◌, ◌⊎◌, true, ◌&&◌, leb, if◌then◌else◌, arith}
use eth_avm_light_client.Avm.{Bytes, Result, ok, ◌>>=◌, ◌>>◌, assert, u64, getbyte}

unfoldable pub receipt_envelope : Bytes → ℕ → ℕ → Result (ℕ × ℕ × ℕ)
receipt_envelope buf off len = do
  assert (leb 1 len) "T1"
  t ← getbyte buf off
  if leb 0xC0 t then ok (0, off, len) else (do
    assert (leb 0x01 t && leb t 0x7F) "T2"
    assert (leb 2 len) "T3"
    next ← u64 (off + 1)
    head ← getbyte buf next
    assert (leb 0xC0 head) "T4"
    ok (t, next, len - 1))

-- The byte at `p` is the prefix of a list.
abbrev pub IsListAt : Bytes → ℕ → Type 0
IsListAt buf p = (getbyte buf p >>= λ b. ok (leb 192 b)) ≡ ok true

-- The type `t` and the span from `p` of `n` bytes are those of the receipt in `len` bytes from `off`.
abbrev pub LetThrough : Bytes → ℕ → ℕ → ℕ → ℕ → ℕ → Type 0
LetThrough buf off len t p n =
    (((t ≡ 0) × (p ≡ off) × (n ≡ len))
      ⊎ ((1 ≤ t) × (t ≤ 127) × (getbyte buf off ≡ ok t) × (p ≡ off + 1) × (n + 1 ≡ len)))
    × (1 ≤ n)
    × IsListAt buf p

-- A receipt that is let through is a legacy one, of type 0 and with its span left as it is, or a
-- typed one, of a type from 1 to 127 that is its first byte and with that byte taken off the span;
-- the span is not empty and begins with the prefix of a list.
pub envelope_lem :
    (buf : Bytes) (off len : ℕ) {t p n : ℕ}
    → receipt_envelope buf off len ≡ ok (t, p, n)
    → LetThrough buf off len t p n
unfolding receipt_envelope
envelope_lem buf off len h = ground arith
