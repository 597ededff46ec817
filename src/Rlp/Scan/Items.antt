-- ===== src/Rlp/Scan/Items.antt =====
-- The items of a list's payload, one header position each, and the table that lists them.
use eth_avm_light_client.Prelude.{
  ℕ, zero, suc, ◌+◌, ◌*◌, ◌≤◌, ◌<◌, ◌≡◌, refl, List, [], ◌∷◌, ◌++◌, some, length, get_elem?, arith,
}
use eth_avm_light_client.Avm.{Bytes, ok, be2}
use eth_avm_light_client.Rlp.Core.{rlp_skip}
use eth_avm_light_client.Rlp.Core.Stride.{skip_forward}

-- `heads` are the positions of the items that fill `buf` from `pos` to `end`.
pub data Items (buf : Bytes) (end : ℕ) : ℕ → List ℕ → Type 0 where
  done : {pos : ℕ} → pos ≡ end → Items buf end pos []
  item :
      {pos next : ℕ} {heads : List ℕ}
      → pos < end
      → rlp_skip buf pos ≡ ok next
      → Items buf end next heads
      → Items buf end pos (pos ∷ heads)

-- The big-endian uint16 entries of `heads`, and `end` last.
abbrev pub table_of : List ℕ → ℕ → Bytes
table_of [] end = be2 end
table_of (h ∷ heads) end = be2 h ++ table_of heads end

pub length-table_of :
    (heads : List ℕ) (end : ℕ) → length (table_of heads end) ≡ 2 * length heads + 2
length-table_of [] end = refl
length-table_of (h ∷ heads) end = omega (arith, length-table_of heads end)

-- Every item starts before the end.
pub Items-lt :
    (buf : Bytes) (end pos : ℕ) (heads : List ℕ) (i h : ℕ)
    → Items buf end pos heads
    → get_elem? heads i ≡ some h
    → h < end
Items-lt buf end pos [] i h d e = cc
Items-lt buf end pos (x ∷ heads) zero h (item lt s d) e = ground arith
Items-lt buf end pos (x ∷ heads) (suc i) h (item {next = n} lt s d) e =
    Items-lt buf end n heads i h d e

-- Every item takes a byte or more.
pub Items-length :
    (buf : Bytes) (end pos : ℕ) (heads : List ℕ)
    → Items buf end pos heads
    → pos + length heads ≤ end
Items-length buf end pos [] (done e) = omega arith
Items-length buf end pos (x ∷ heads) (item {next = n} lt s d) =
    omega (arith, skip_forward buf pos s, Items-length buf end n heads d)
