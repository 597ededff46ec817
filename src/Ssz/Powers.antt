-- ===== src/Ssz/Powers.antt =====
-- Powers of two as divisors: the bits of a number from one level to the next.
use eth_avm_light_client.Prelude.{
  ℕ, zero, suc, ◌+◌, ◌-◌, ◌/◌, ◌^◌, ◌≤◌, ◌<◌, ◌≡◌, sym, ap, ◌∙◌, ◌⊎◌, inl, inr, arith,
}
use native.Mathlib.Nat.{pow-suc, div-div-eq-div-mul, add-div_right, div-eq-sub-div, div-eq_of_lt}

pub pow_pos : (d : ℕ) → 1 ≤ 2 ^ d
pow_pos zero = omega arith
pow_pos (suc d) = omega (arith, pow_pos d)

pub div_pow_suc : (n i : ℕ) → n / 2 ^ (i + 1) ≡ n / 2 ^ i / 2
div_pow_suc n i =
    let e : i + 1 ≡ suc i = omega arith in
    ap (λ k. n / 2 ^ k) e ∙ ap (λ k. n / k) (pow-suc 2 i) ∙ sym (div-div-eq-div-mul n (2 ^ i) 2)

pub div_add_pow : (n i : ℕ) → (n + 2 ^ i) / 2 ^ i ≡ n / 2 ^ i + 1
div_add_pow n i = add-div_right n (pow_pos i)

-- A quotient that is not zero is of a number no smaller than the divisor.
pub pow_le_of_div : (n i : ℕ) → 1 ≤ n / 2 ^ i → 2 ^ i ≤ n
pow_le_of_div n i h = elim (split n (2 ^ i)) [
  | inl lo ↦ absurd (omega (arith, div-eq_of_lt {n = n} {m = 2 ^ i} lo))
  | inr hi ↦ hi
]
  where
    split : (a b : ℕ) → (a < b) ⊎ (b ≤ a)
    split a b = ground arith

pub div_sub_pow : (n i : ℕ) → 1 ≤ n / 2 ^ i → (n - 2 ^ i) / 2 ^ i ≡ n / 2 ^ i - 1
div_sub_pow n i h =
    let e = div-eq-sub-div {m = 2 ^ i} {n = n} (pow_pos i) (pow_le_of_div n i h) in omega arith

pub div_small_pow : (n i : ℕ) → n < 2 ^ i → n / 2 ^ i ≡ 0
div_small_pow n i h = div-eq_of_lt h

-- Quotients that agree at one level agree at every later one.
pub div_pow_from : (a b i t : ℕ) → a / 2 ^ i ≡ b / 2 ^ i → a / 2 ^ (i + t) ≡ b / 2 ^ (i + t)
div_pow_from a b i zero e =
    let s : i + 0 ≡ i = omega arith in ap (λ k. a / 2 ^ k) s ∙ e ∙ ap (λ k. b / 2 ^ k) (sym s)
div_pow_from a b i (suc t) e =
    let s : i + suc t ≡ i + t + 1 = omega arith in
    ap (λ k. a / 2 ^ k) s
    ∙ div_pow_suc a (i + t)
    ∙ ap (λ q. q / 2) (div_pow_from a b i t e)
    ∙ sym (div_pow_suc b (i + t))
    ∙ ap (λ k. b / 2 ^ k) (sym s)

-- A power that is no greater has an exponent that is no greater.
pub pow_le_inv : (i d : ℕ) → 2 ^ i ≤ 2 ^ d → i ≤ d
pow_le_inv zero d h = omega arith
pow_le_inv (suc i) zero h = absurd (omega (arith, pow_pos i))
pow_le_inv (suc i) (suc d) h = omega (arith, pow_le_inv i d (omega arith))
