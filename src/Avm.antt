-- ===== src/Avm.antt =====
-- The AVM as the contracts see it: byte strings, results that fault, the opcodes on numbers and
-- bytes, and the hash opcodes as parameters.
pub mod Words
pub mod Results
pub mod Ends
pub mod Group
pub mod Store
use eth_avm_light_client.Prelude.{
  ℕ, zero, suc, ◌+◌, ◌-◌, ◌*◌, ◌/◌, ◌%◌, ◌^◌, ◌≡◌, String, Bool, true, false, not, Option, none,
  some, List, [], ◌∷◌, ◌++◌, ltb, leb, ◌==◌, if◌then◌else◌, length, get_elem?, replicate, bytes_eq,
}
use eth_avm_light_client.Prelude.Slices.{slice, splice}

abbrev pub Bytes : Type 0
Bytes = List ℕ

-- `code s` is an `assert` with the message `s`, `panic` an opcode's own failure. `out_of_fuel` is
-- no behaviour of the program: it marks a loop of the model that was given too few rounds.
pub data Fault : Type 0 where
  code : String → Fault
  panic out_of_fuel : Fault

-- What an opcode or a subroutine gives.
pub data Result {ℓ} (Value : Type ℓ) : Type ℓ where
  err : Fault → Result Value
  ok : Value → Result Value

infixl 5 ◌>>=◌
-- A fault ends the call.
abbrev pub ◌>>=◌ {ℓ κ} :
    {Value : Type ℓ} → {Next : Type κ} → Result Value → (Value → Result Next) → Result Next
err fault >>= rest = err fault
ok value >>= rest = rest value

infixl 5 ◌>>◌
abbrev pub ◌>>◌ {κ} : {Next : Type κ} → Result (Unit {0}) → Result Next → Result Next
check >> rest = check >>= λ passed. rest

-- `assert test, "message"`
abbrev pub assert : Bool → String → Result (Unit {0})
assert true s = ok tt
assert false s = err (code s)

abbrev pub u64_mod : ℕ
u64_mod = 2 ^ 64

-- The sum or product `n`, which must fit a uint64. A sum of several terms overflows at some
-- addition exactly when the whole sum does.
abbrev pub u64 : ℕ → Result ℕ
u64 n = if ltb n u64_mod then ok n else err panic

-- `a - b` panics below zero.
abbrev pub sub : ℕ → ℕ → Result ℕ
sub a b = if ltb a b then err panic else ok (a - b)

abbrev option_or_panic : Option ℕ → Result ℕ
option_or_panic none = err panic
option_or_panic (some b) = ok b

-- op.getbyte
abbrev pub getbyte : Bytes → ℕ → Result ℕ
getbyte b i = option_or_panic (get_elem? b i)

-- op.extract with a start and a length on the stack (`extract3`)
abbrev pub extract : Bytes → ℕ → ℕ → Result Bytes
extract b i n = if leb (i + n) (length b) then ok (slice b i n) else err panic

-- op.replace
abbrev pub replace : Bytes → ℕ → Bytes → Result Bytes
replace b i c = if leb (i + length c) (length b) then ok (splice b i c) else err panic

-- op.bzero
abbrev pub bzero : ℕ → Bytes
bzero n = replicate n 0

-- The number that big-endian bytes stand for, behind the digits `acc`.
abbrev pub from_be_acc : ℕ → Bytes → ℕ
from_be_acc acc [] = acc
from_be_acc acc (b ∷ bs) = from_be_acc (acc * 256 + b) bs

abbrev pub from_be : Bytes → ℕ
from_be b = from_be_acc 0 b

-- op.btoi takes at most 8 bytes.
abbrev pub btoi : Bytes → Result ℕ
btoi b = if leb (length b) 8 then ok (from_be b) else err panic

-- `k` big-endian bytes of `v`, and `rest` behind them
abbrev pub be_onto : ℕ → ℕ → Bytes → Bytes
be_onto zero v rest = rest
be_onto (suc k) v rest = be_onto k (v / 256) (v % 256 ∷ rest)

abbrev pub be : ℕ → ℕ → Bytes
be k v = be_onto k v []

-- op.itob
abbrev pub itob : ℕ → Bytes
itob v = be 8 v

-- `op.extract(op.itob(v), 7, 1)`, `(.., 6, 2)` and `(.., 5, 3)`: always within the eight bytes
abbrev pub byte1 : ℕ → Bytes
byte1 v = slice (itob v) 7 1

abbrev pub be2 : ℕ → Bytes
be2 v = slice (itob v) 6 2

abbrev pub be3 : ℕ → Bytes
be3 v = slice (itob v) 5 3

-- op.extract_uint16
abbrev pub extract_uint16 : Bytes → ℕ → Result ℕ
extract_uint16 b i = extract b i 2 >>= btoi

-- op.bitlen
unfoldable pub bitlen_fuel : ℕ → ℕ → ℕ
bitlen_fuel zero n = 0
bitlen_fuel (suc k) zero = 0
bitlen_fuel (suc k) (suc n) = suc (bitlen_fuel k (suc n / 2))

unfoldable pub bitlen : ℕ → ℕ
unfolding bitlen_fuel
bitlen n = bitlen_fuel 64 n

-- op.getbit on a uint64: bit `i` from the least significant
abbrev pub getbit : ℕ → ℕ → Bool
getbit n i = n / 2 ^ i % 2 == 1

-- The opcodes `sha256` and `keccak256`, which the sources only call.
pub record Hashes : Type 0 where
  pub sha256 : Bytes → Bytes
  pub keccak256 : Bytes → Bytes
  pub length-sha256 : (b : Bytes) → length (sha256 b) ≡ 32
  pub length-keccak256 : (b : Bytes) → length (keccak256 b) ≡ 32

-- Two inputs that a hash does not tell apart.
pub record Collision (h : Bytes → Bytes) : Type 0 where
  pub left : Bytes
  pub right : Bytes
  pub differ : bytes_eq left right ≡ false
  pub same : h left ≡ h right
