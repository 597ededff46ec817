-- ===== src/Prelude/Slices.antt =====
-- Slices of a buffer and splices into it.
use eth_avm_light_client.Prelude.{
  ℕ, zero, suc, ◌+◌, ◌-◌, ◌≤◌, ◌≡◌, refl, ap, ◌∙◌, List, [], ◌∷◌, ◌++◌, arith, length, take, drop,
  take_all,
}

module _ {ℓ} {A : Type ℓ} where
  -- `n` items from position `i`
  abbrev pub slice : List A → ℕ → ℕ → List A
  slice xs i n = take n (drop i xs)

  -- `b` written over the front of `xs`
  abbrev pub overlay : List A → List A → List A
  overlay [] xs = xs
  overlay (y ∷ b) [] = []
  overlay (y ∷ b) (x ∷ xs) = y ∷ overlay b xs

  -- `b` written over `xs` from position `i`
  abbrev pub splice : List A → ℕ → List A → List A
  splice xs zero b = overlay b xs
  splice [] (suc i) b = []
  splice (x ∷ xs) (suc i) b = x ∷ splice xs i b

  pub length-overlay : (b xs : List A) → length (overlay b xs) ≡ length xs
  length-overlay [] xs = refl
  length-overlay (y ∷ b) [] = refl
  length-overlay (y ∷ b) (x ∷ xs) = ap suc (length-overlay b xs)

  pub length-splice : (xs : List A) (i : ℕ) (b : List A) → length (splice xs i b) ≡ length xs
  length-splice xs zero b = length-overlay b xs
  length-splice [] (suc i) b = refl
  length-splice (x ∷ xs) (suc i) b = ap suc (length-splice xs i b)

  take-overlay : (b xs : List A) → length b ≤ length xs → take (length b) (overlay b xs) ≡ b
  take-overlay [] xs h = refl
  take-overlay (y ∷ b) [] h = absurd (omega arith)
  take-overlay (y ∷ b) (x ∷ xs) h = ap (λ t. y ∷ t) (take-overlay b xs (omega arith))

  drop-overlay : (b xs : List A) (j : ℕ) → length b ≤ j → drop j (overlay b xs) ≡ drop j xs
  drop-overlay [] xs j h = refl
  drop-overlay (y ∷ b) xs zero h = absurd (omega arith)
  drop-overlay (y ∷ b) [] (suc j) h = refl
  drop-overlay (y ∷ b) (x ∷ xs) (suc j) h = drop-overlay b xs j (omega arith)

  pub slice-splice_self :
      (xs : List A) (i n : ℕ) (b : List A)
      → length b ≡ n
      → i + n ≤ length xs
      → slice (splice xs i b) i n ≡ b
  slice-splice_self xs zero n b e h = rw (← e) (take-overlay b xs (omega arith))
  slice-splice_self [] (suc i) n b e h = absurd (omega arith)
  slice-splice_self (x ∷ xs) (suc i) n b e h = slice-splice_self xs i n b e (omega arith)

  pub slice-splice_before :
      (xs : List A) (i j n : ℕ) (b : List A) → j + n ≤ i → slice (splice xs i b) j n ≡ slice xs j n
  slice-splice_before xs zero zero zero b h = refl
  slice-splice_before xs zero zero (suc n) b h = absurd (omega arith)
  slice-splice_before xs zero (suc j) n b h = absurd (omega arith)
  slice-splice_before [] (suc i) j n b h = refl
  slice-splice_before (x ∷ xs) (suc i) zero zero b h = refl
  slice-splice_before (x ∷ xs) (suc i) zero (suc n) b h =
      ap (λ t. x ∷ t) (slice-splice_before xs i zero n b (omega arith))
  slice-splice_before (x ∷ xs) (suc i) (suc j) n b h = slice-splice_before xs i j n b (omega arith)

  pub slice-splice_after :
      (xs : List A) (i j n : ℕ) (b : List A)
      → i + length b ≤ j
      → slice (splice xs i b) j n ≡ slice xs j n
  slice-splice_after xs zero j n b h = ap (take n) (drop-overlay b xs j (omega arith))
  slice-splice_after [] (suc i) j n b h = refl
  slice-splice_after (x ∷ xs) (suc i) zero n b h = absurd (omega arith)
  slice-splice_after (x ∷ xs) (suc i) (suc j) n b h = slice-splice_after xs i j n b (omega arith)

  pub length-slice : (xs : List A) (i n : ℕ) → i + n ≤ length xs → length (slice xs i n) ≡ n
  length-slice xs zero zero h = refl
  length-slice [] zero (suc n) h = absurd (omega arith)
  length-slice (x ∷ xs) zero (suc n) h = ap suc (length-slice xs zero n (omega arith))
  length-slice [] (suc i) n h = absurd (omega arith)
  length-slice (x ∷ xs) (suc i) n h = length-slice xs i n (omega arith)

  -- Skipping a prefix, in whole or in part.
  pub slice-append_skip :
      (xs ys : List A) (i n : ℕ) → slice (xs ++ ys) (length xs + i) n ≡ slice ys i n
  slice-append_skip [] ys i n = ap (λ t. slice ys t n) (omega arith)
  slice-append_skip (x ∷ xs) ys i n =
      let e : suc (length xs) + i ≡ suc (length xs + i) = omega arith in
      rw e (slice-append_skip xs ys i n)

  pub slice-append_within :
      (xs ys : List A) (i n : ℕ) → i + n ≤ length xs → slice (xs ++ ys) i n ≡ slice xs i n
  slice-append_within xs ys zero zero h = refl
  slice-append_within [] ys zero (suc n) h = absurd (omega arith)
  slice-append_within (x ∷ xs) ys zero (suc n) h =
      ap (λ t. x ∷ t) (slice-append_within xs ys zero n (omega arith))
  slice-append_within [] ys (suc i) n h = absurd (omega arith)
  slice-append_within (x ∷ xs) ys (suc i) n h = slice-append_within xs ys i n (omega arith)

  pub slice_all : (xs : List A) (n : ℕ) → length xs ≤ n → slice xs 0 n ≡ xs
  slice_all xs n h = take_all n xs h

  slice_nil : (i n : ℕ) → slice [] i n ≡ []
  slice_nil zero zero = refl
  slice_nil zero (suc n) = refl
  slice_nil (suc i) zero = refl
  slice_nil (suc i) (suc n) = refl

  -- A range in two parts.
  pub slice_split :
      (xs : List A) (i m n : ℕ) → slice xs i (m + n) ≡ slice xs i m ++ slice xs (i + m) n
  slice_split xs zero zero n = let e : 0 + n ≡ n = omega arith in ap (λ t. take t xs) e
  slice_split [] zero (suc m) n = rw (slice_nil 0 (suc m + n), slice_nil (0 + suc m) n) refl
  slice_split (x ∷ xs) zero (suc m) n =
      let e : suc m + n ≡ suc (m + n) = omega arith in
      let e' : 0 + suc m ≡ suc (0 + m) = omega arith in
      rw (e, e') (ap (λ t. x ∷ t) (slice_split xs zero m n))
  slice_split [] (suc i) m n =
      rw (slice_nil (suc i) (m + n), slice_nil (suc i) m, slice_nil (suc i + m) n) refl
  slice_split (x ∷ xs) (suc i) m n =
      let e : suc i + m ≡ suc (i + m) = omega arith in rw e (slice_split xs i m n)

  -- The source's way to write `b` at `i`: what is before, `b` and what is behind.
  pub splice_parts :
      (xs : List A) (i : ℕ) (b : List A)
      → i + length b ≤ length xs
      → slice xs 0 i ++ (b ++ slice xs (i + length b) (length xs - (i + length b))) ≡ splice xs i b
  splice_parts xs zero [] h =
      let e : 0 + 0 ≡ 0 = omega arith in rw e (take_all (length xs - 0) xs (omega arith))
  splice_parts [] zero (y ∷ b) h = absurd (omega arith)
  splice_parts (x ∷ xs) zero (y ∷ b) h =
      let e : 0 + suc (length b) ≡ suc (0 + length b) = omega arith in
      let e' : suc (length xs) - suc (0 + length b) ≡ length xs - (0 + length b) = omega arith in
      rw (e, e') (ap (λ t. y ∷ t) (splice_parts xs zero b (omega arith)))
  splice_parts [] (suc i) b h = absurd (omega arith)
  splice_parts (x ∷ xs) (suc i) b h =
      let e : suc i + length b ≡ suc (i + length b) = omega arith in
      let e' : suc (length xs) - suc (i + length b) ≡ length xs - (i + length b) = omega arith in
      rw (e, e') (ap (λ t. x ∷ t) (splice_parts xs i b (omega arith)))

  -- The part of a buffer between two others.
  pub slice-middle :
      (a b c : List A) (i n : ℕ) → length a ≡ i → length b ≡ n → slice (a ++ (b ++ c)) i n ≡ b
  slice-middle a b c i n e e' =
      let s : i ≡ length a + 0 = omega arith in
      ap (λ t. slice (a ++ (b ++ c)) t n) s
      ∙ slice-append_skip a (b ++ c) 0 n
      ∙ slice-append_within b c 0 n (omega arith)
      ∙ slice_all b n (omega arith)
