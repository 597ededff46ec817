-- ===== src/Rlp/Nibbles.antt =====
-- contracts/primitives/rlp/nibbles.py: hex-prefix paths, and the comparison of nibble ranges.
pub mod Range
pub mod Prefix
use Prim.Native.Nat.{bit_and}
use eth_avm_light_client.Prelude.{
  ℕ, zero, suc, ◌+◌, ◌-◌, ◌*◌, ◌/◌, ◌%◌, Bool, true, false, not, ltb, leb, ◌==◌, if◌then◌else◌,
  bytes_eq,
}
use eth_avm_light_client.Avm.{Bytes, Result, ok, ◌>>=◌, ◌>>◌, assert, u64, sub, getbyte, extract}

-- `f & 1` and `f & 2` of the flag nibble `f`, and `b0 & 0x0F`
abbrev pub flag_odd : ℕ → Bool
flag_odd f = f % 2 == 1

abbrev pub flag_leaf : ℕ → Bool
flag_leaf f = f / 2 % 2 == 1

-- (is_leaf, nibble_count, nib_index)
unfoldable pub hp_decode : Bytes → ℕ → ℕ → Result (Bool × ℕ × ℕ)
hp_decode buf off len = do
  assert (leb 1 len) "H1"
  b0 ← getbyte buf off
  let f = b0 / 16
  assert (leb f 3) "H2"
  if flag_odd f then ok tt else assert (b0 % 16 == 0) "H3"
  let skip = if flag_odd f then 1 else 2
  twice ← u64 (2 * len)
  nibble_count ← sub twice skip
  if flag_leaf f then ok tt else assert (leb 1 nibble_count) "H4"
  nib_index ← u64 (2 * off + skip)
  ok (flag_leaf f, nibble_count, nib_index)

unfoldable pub nibble_at : Bytes → ℕ → Result ℕ
nibble_at buf k = do b ← getbyte buf (k / 2); ok (if k % 2 == 0 then b / 16 else b % 16)

-- The per-nibble loop, on the number of nibbles left.
unfoldable pub nibbles_loop : ℕ → Bytes → ℕ → Bytes → ℕ → Result Bool
nibbles_loop zero a a_nib b b_nib = ok true
nibbles_loop (suc more) a a_nib b b_nib = do
  x ← nibble_at a a_nib
  y ← nibble_at b b_nib
  let rest = nibbles_loop more a (a_nib + 1) b (b_nib + 1)
  if x == y then rest else ok false

-- The comparison of byte-aligned ranges: `count` even, and odd.
unfoldable pub aligned_equal : Bytes → ℕ → Bytes → ℕ → ℕ → Result Bool
aligned_equal a a_nib b b_nib count =
    if count % 2 == 0
    then (do
      x ← extract a (a_nib / 2) (count / 2)
      y ← extract b (b_nib / 2) (count / 2)
      ok (bytes_eq x y))
    else (do
      let even_count = count - 1
      x ← extract a (a_nib / 2) (even_count / 2)
      y ← extract b (b_nib / 2) (even_count / 2)
      if bytes_eq x y
          then (do
            u ← nibble_at a (a_nib + even_count)
            v ← nibble_at b (b_nib + even_count)
            ok (u == v))
          else ok false)

unfoldable pub nibbles_equal : Bytes → ℕ → Bytes → ℕ → ℕ → Result Bool
nibbles_equal a a_nib b b_nib count =
    if count == 0
    then ok true
    else if a_nib % 2 == b_nib % 2
    then (if a_nib % 2 == 1
        then (do
          x ← nibble_at a a_nib
          y ← nibble_at b b_nib
          if x == y
              then (if count - 1 == 0
                  then ok true
                  else aligned_equal a (a_nib + 1) b (b_nib + 1) (count - 1))
              else ok false)
        else aligned_equal a a_nib b b_nib count)
    else nibbles_loop count a a_nib b b_nib
