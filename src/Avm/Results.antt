-- ===== src/Avm/Results.antt =====
-- Taking apart chains of results that succeed.
use eth_avm_light_client.Prelude.{
  ℕ, ◌+◌, ◌≤◌, ◌<◌, ◌≡◌, refl, Bool, true, false, String, if◌then◌else◌, ◌⊎◌, inl, inr, arith,
  length,
}
use eth_avm_light_client.Avm.{Bytes, Result, ok, err, ◌>>=◌, assert, u64, u64_mod, extract, Fault}
use eth_avm_light_client.Prelude.Slices.{slice}

pub ok_inj {ℓ} : {A : Type ℓ} {a b : A} → ok a ≡ ok b → a ≡ b
ok_inj h = cc

module _ {ℓ κ} {Value : Type ℓ} {Next : Type κ} where
  pub >>=-eq-ok :
      (first : Result Value) (rest : Value → Result Next) {last : Next}
      → (first >>= rest) ≡ ok last
      → (value : Value) × (first ≡ ok value) × (rest value ≡ ok last)
  >>=-eq-ok (err fault) rest done = cc
  >>=-eq-ok (ok value) rest done = (value, refl, done)

-- A chain that begins with a passed assertion.
pub assert-eq-ok {ℓ} :
    {B : Type ℓ} (t : Bool) (s : String) (k : Result B) {b : B}
    → (assert t s >>= λ _. k) ≡ ok b
    → (t ≡ true) × (k ≡ ok b)
assert-eq-ok true s k h = (refl, h)
assert-eq-ok false s k h = cc

pub if-eq-ok {ℓ} :
    {B : Type ℓ} (t : Bool) (x y : B) {b : B}
    → (if t then x else y) ≡ b
    → ((t ≡ true) × (x ≡ b)) ⊎ ((t ≡ false) × (y ≡ b))
if-eq-ok true x y h = inl (refl, h)
if-eq-ok false x y h = inr (refl, h)

pub u64-eq-ok : (n : ℕ) {m : ℕ} → u64 n ≡ ok m → (n ≡ m) × (n < u64_mod)
u64-eq-ok n h = ground arith

pub extract-eq-ok :
    (b : Bytes) (i n : ℕ) {c : Bytes}
    → extract b i n ≡ ok c
    → (i + n ≤ length b) × (c ≡ slice b i n)
extract-eq-ok b i n h = ground arith

pub Result-cases {ℓ} :
    {A : Type ℓ} (r : Result A) → ((a : A) × (r ≡ ok a)) ⊎ ((e : Fault) × (r ≡ err e))
Result-cases (ok a) = inl (a, refl)
Result-cases (err e) = inr (e, refl)
