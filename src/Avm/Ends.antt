-- ===== src/Avm/Ends.antt =====
-- Rules for results that do not run out of rounds, one for each way to build a result.
use eth_avm_light_client.Prelude.{ℕ, arith, ◌≡◌, Bool, true, false, String, if◌then◌else◌}
use eth_avm_light_client.Avm.{
  Bytes, Result, ok, err, code, panic, out_of_fuel, ◌>>=◌, assert, u64, sub, getbyte, extract,
  replace, btoi, extract_uint16,
}

pub record Ends {ℓ} {A : Type ℓ} (r : Result A) : Type ℓ where
  pub at : r ≡ err out_of_fuel → ⊥

module _ {ℓ} {A : Type ℓ} where
  pub Ends-ok : (a : A) → Ends (ok a)
  Ends-ok a = record { at = λ e. cc }

  pub Ends-code : (s : String) → Ends {A = A} (err (code s))
  Ends-code s = record { at = λ e. cc }

  pub Ends-panic : Ends {A = A} (err panic)
  Ends-panic = record { at = λ e. cc }

  pub Ends-if : (b : Bool) (m n : Result A) → Ends m → Ends n → Ends (if b then m else n)
  Ends-if true m n p q = p
  Ends-if false m n p q = q

module _ {ℓ κ} {A : Type ℓ} {B : Type κ} where
  pub Ends-bind :
      (m : Result A) (f : A → Result B) → Ends m → ((a : A) → Ends (f a)) → Ends (m >>= f)
  Ends-bind (ok a) f p q = q a
  Ends-bind (err e) f p q = record { at = λ h. p.at (cc) }

pub Ends-assert : (b : Bool) (s : String) → Ends (assert b s)
Ends-assert true s = record { at = λ e. cc }
Ends-assert false s = record { at = λ e. cc }

pub Ends-getbyte : (b : Bytes) (i : ℕ) → Ends (getbyte b i)
Ends-getbyte b i = record { at = λ e. ground arith }

pub Ends-u64 : (n : ℕ) → Ends (u64 n)
Ends-u64 n = Ends-if _ _ _ (Ends-ok n) Ends-panic

pub Ends-sub : (a b : ℕ) → Ends (sub a b)
Ends-sub a b = Ends-if _ _ _ Ends-panic (Ends-ok _)

pub Ends-extract : (b : Bytes) (i n : ℕ) → Ends (extract b i n)
Ends-extract b i n = Ends-if _ _ _ (Ends-ok _) Ends-panic

pub Ends-replace : (b : Bytes) (i : ℕ) (c : Bytes) → Ends (replace b i c)
Ends-replace b i c = Ends-if _ _ _ (Ends-ok _) Ends-panic

pub Ends-btoi : (b : Bytes) → Ends (btoi b)
Ends-btoi b = Ends-if _ _ _ (Ends-ok _) Ends-panic

pub Ends-extract_uint16 : (b : Bytes) (i : ℕ) → Ends (extract_uint16 b i)
Ends-extract_uint16 b i = Ends-bind (extract b i 2) btoi (Ends-extract b i 2) Ends-btoi

pub ruleset ends_rules = (
  Ends-ok, Ends-code, Ends-panic, Ends-if, Ends-bind, Ends-assert, Ends-getbyte, Ends-u64, Ends-sub,
  Ends-extract, Ends-replace, Ends-btoi, Ends-extract_uint16,
)
