-- ===== src/Avm/Words.antt =====
-- Big-endian numbers: reading back what was written.
use eth_avm_light_client.Prelude.{
  ℕ, zero, suc, ◌+◌, ◌/◌, ◌%◌, ◌^◌, ◌≤◌, ◌<◌, ◌≡◌, refl, ap, sym, ◌∙◌, [], ◌∷◌, arith, length,
  le→leb,
}
use eth_avm_light_client.Avm.{
  Bytes, ok, from_be_acc, from_be, be_onto, be, itob, byte1, be2, btoi, extract, extract_uint16,
}
use eth_avm_light_client.Prelude.Slices.{slice}

pub length-be_onto : (k v : ℕ) (rest : Bytes) → length (be_onto k v rest) ≡ k + length rest
length-be_onto zero v rest = omega arith
length-be_onto (suc k) v rest = omega (arith, length-be_onto k (v / 256) (v % 256 ∷ rest))

pub length-be : (k v : ℕ) → length (be k v) ≡ k
length-be k v = omega (arith, length-be_onto k v [])

-- `from_be_acc` with zero before `be k v` has read `v`.
from_be_acc-be_onto :
    (k v : ℕ) (rest : Bytes) → v < 256 ^ k → from_be_acc 0 (be_onto k v rest) ≡ from_be_acc v rest
from_be_acc-be_onto zero v rest h =
    let e : v ≡ 0 = omega arith in ap (λ t. from_be_acc t rest) (sym e)
from_be_acc-be_onto (suc k) v rest h =
    from_be_acc-be_onto k (v / 256) (v % 256 ∷ rest) (omega arith)
    ∙ ap (λ t. from_be_acc t rest) (omega arith)

pub from_be-be : (k v : ℕ) → v < 256 ^ k → from_be (be k v) ≡ v
from_be-be k v h = from_be_acc-be_onto k v [] h

pub from_be-itob : (v : ℕ) → v < 2 ^ 64 → from_be (itob v) ≡ v
from_be-itob v h = from_be-be 8 v h

pub be2_lem : (v : ℕ) → be2 v ≡ v / 256 % 256 ∷ v % 256 ∷ []
be2_lem v = refl

pub byte1_lem : (v : ℕ) → byte1 v ≡ v % 256 ∷ []
byte1_lem v = refl

pub from_be-be2 : (v : ℕ) → v < 2 ^ 16 → from_be (be2 v) ≡ v
from_be-be2 v h = omega arith

pub btoi-itob : (v : ℕ) → v < 2 ^ 64 → btoi (itob v) ≡ ok v
btoi-itob v h = ap ok (from_be-itob v h)

pub extract-slice :
    (b : Bytes) (i n : ℕ) {c : Bytes} → i + n ≤ length b → slice b i n ≡ c → extract b i n ≡ ok c
extract-slice b i n h e = rw (le→leb _ _ h) (ap ok e)

-- A uint16 that a buffer holds at `i` is read back.
pub extract_uint16-be2 :
    (b : Bytes) (i v : ℕ)
    → i + 2 ≤ length b
    → slice b i 2 ≡ be2 v
    → v < 2 ^ 16
    → extract_uint16 b i ≡ ok v
extract_uint16-be2 b i v h e small = rw (le→leb _ _ h) (rw e (ap ok (from_be-be2 v small)))
