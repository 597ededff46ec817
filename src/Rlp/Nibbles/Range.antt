-- ===== src/Rlp/Nibbles/Range.antt =====
-- `nibbles_equal`, with its byte-aligned fast paths, against plain equality of nibble ranges.
use mathlib.Core.Path.{subst₃}
use eth_avm_light_client.Prelude.{
  ℕ, zero, suc, ◌+◌, ◌-◌, ◌*◌, ◌/◌, ◌%◌, ◌≤◌, ◌≡◌, refl, ◌∙◌, ap, sym, true, ◌&&◌, List, [], ◌∷◌,
  ◌++◌, Option, none, some, length, get_elem?, take, drop, arith, bytes_eq, ◌==◌, Bool-cases, inl,
  inr,
}
use eth_avm_light_client.Avm.{Bytes, Result, ok, err, panic}
use eth_avm_light_client.Avm.Words.{extract-slice}
use eth_avm_light_client.Prelude.Slices.{slice, length-slice}
use eth_avm_light_client.Rlp.Nibbles.{nibble_at, nibbles_loop, aligned_equal, nibbles_equal}

-- The nibbles of a byte string, the high one of each byte first.
unfoldable pub nibs : Bytes → List ℕ
nibs [] = []
nibs (b ∷ bs) = b / 16 ∷ b % 16 ∷ nibs bs

pub length-nibs : (b : Bytes) → length (nibs b) ≡ 2 * length b
unfolding nibs
length-nibs [] = refl
length-nibs (x ∷ b) = omega (arith, length-nibs b)

abbrev or_panic : Option ℕ → Result ℕ
or_panic none = err panic
or_panic (some x) = ok x

-- `nibble_at` reads the list of nibbles, and panics behind its end.
pub nibble_at-nibs : (b : Bytes) (k : ℕ) → nibble_at b k ≡ or_panic (get_elem? (nibs b) k)
unfolding nibble_at nibs
nibble_at-nibs [] zero = refl
nibble_at-nibs [] (suc k) = ground arith
nibble_at-nibs (x ∷ b) zero = refl
nibble_at-nibs (x ∷ b) (suc zero) = refl
nibble_at-nibs (x ∷ b) (suc (suc k)) =
    let half : suc (suc k) / 2 ≡ suc (k / 2) = omega arith in
    let odd : suc (suc k) % 2 ≡ k % 2 = omega arith in rw half (rw odd (nibble_at-nibs b k))

pub get_elem?-slice :
    (xs : List ℕ) (i n : ℕ)
    → i + suc n ≤ length xs
    → (x : ℕ) × (get_elem? xs i ≡ some x) × (slice xs i (suc n) ≡ x ∷ slice xs (suc i) n)
get_elem?-slice [] i n h = absurd (omega arith)
get_elem?-slice (x ∷ xs) zero n h = (x, refl, refl)
get_elem?-slice (x ∷ xs) (suc i) n h = get_elem?-slice xs i n (omega arith)

nibbles_loop-nibs :
    (n : ℕ) (a : Bytes) (i : ℕ) (b : Bytes) (j : ℕ)
    → i + n ≤ length (nibs a)
    → j + n ≤ length (nibs b)
    → nibbles_loop n a i b j ≡ ok (bytes_eq (slice (nibs a) i n) (slice (nibs b) j n))
unfolding nibbles_loop bytes_eq
nibbles_loop-nibs zero a i b j p q = refl
nibbles_loop-nibs (suc n) a i b j p q =
    let (x, ex, sx) = get_elem?-slice (nibs a) i n p in
    let (y, ey, sy) = get_elem?-slice (nibs b) j n q in
    let si : i + 1 ≡ suc i = omega arith in
    let sj : j + 1 ≡ suc j = omega arith in
    rw (sx, sy, nibble_at-nibs, nibble_at-nibs, ex, ey, si, sj)
      (ground (arith, nibbles_loop-nibs n a (suc i) b (suc j) (omega arith) (omega arith)))

drop-nibs : (b : Bytes) (i : ℕ) → drop (2 * i) (nibs b) ≡ nibs (drop i b)
unfolding nibs
drop-nibs b zero = refl
drop-nibs [] (suc i) = let e : 2 * suc i ≡ suc (suc (2 * i)) = omega arith in rw e
drop-nibs (x ∷ b) (suc i) =
    let e : 2 * suc i ≡ suc (suc (2 * i)) = omega arith in rw e (drop-nibs b i)

take-nibs : (b : Bytes) (n : ℕ) → take (2 * n) (nibs b) ≡ nibs (take n b)
unfolding nibs
take-nibs b zero = refl
take-nibs [] (suc n) = let e : 2 * suc n ≡ suc (suc (2 * n)) = omega arith in rw e
take-nibs (x ∷ b) (suc n) =
    let e : 2 * suc n ≡ suc (suc (2 * n)) = omega arith in rw e (rw (take-nibs b n))

-- An aligned range of nibbles is the nibbles of a range of bytes.
slice-nibs : (b : Bytes) (i n : ℕ) → slice (nibs b) (2 * i) (2 * n) ≡ nibs (slice b i n)
slice-nibs b i n = rw drop-nibs (take-nibs (drop i b) n)

bytes_eq-nibs : (x y : Bytes) → bytes_eq (nibs x) (nibs y) ≡ bytes_eq x y
unfolding bytes_eq nibs
bytes_eq-nibs [] [] = refl
bytes_eq-nibs [] (y ∷ ys) = refl
bytes_eq-nibs (x ∷ xs) [] = refl
bytes_eq-nibs (x ∷ xs) (y ∷ ys) = ground (arith, bytes_eq-nibs xs ys)

bytes_eq-snoc :
    (xs ys : Bytes) (u v : ℕ)
    → length xs ≡ length ys
    → bytes_eq (xs ++ u ∷ []) (ys ++ v ∷ []) ≡ (bytes_eq xs ys && (u == v))
unfolding bytes_eq
bytes_eq-snoc [] [] u v h = ground arith
bytes_eq-snoc [] (y ∷ ys) u v h = absurd (omega arith)
bytes_eq-snoc (x ∷ xs) [] u v h = absurd (omega arith)
bytes_eq-snoc (x ∷ xs) (y ∷ ys) u v h = ground (arith, bytes_eq-snoc xs ys u v)

slice_snoc :
    (xs : List ℕ) (i n : ℕ)
    → i + suc n ≤ length xs
    → (x : ℕ) × (get_elem? xs (i + n) ≡ some x) × (slice xs i (suc n) ≡ slice xs i n ++ x ∷ [])
slice_snoc [] i n h = absurd (omega arith)
slice_snoc (x ∷ xs) zero zero h = (x, refl, refl)
slice_snoc (x ∷ xs) zero (suc n) h =
    let (y, e, s) = slice_snoc xs zero n (omega arith) in
    let at : zero + suc n ≡ suc (zero + n) = omega arith in (y, rw at e, ap (λ t. x ∷ t) s)
slice_snoc (x ∷ xs) (suc i) n h =
    let (y, e, s) = slice_snoc xs i n (omega arith) in
    let at : suc i + n ≡ suc (i + n) = omega arith in (y, rw at e, s)

-- The ranges that the aligned comparison reads, from even positions: an even and an odd number.
module _ (a : Bytes) (p : ℕ) (b : Bytes) (q m : ℕ) where
  fit : (c : Bytes) (r : ℕ) → 2 * r + 2 * m ≤ length (nibs c) → r + m ≤ length c
  fit c r h = omega (arith, length-nibs c)

  aligned_even :
      2 * p + 2 * m ≤ length (nibs a)
      → 2 * q + 2 * m ≤ length (nibs b)
      → aligned_equal a (2 * p) b (2 * q) (2 * m)
        ≡ ok (bytes_eq (slice (nibs a) (2 * p) (2 * m)) (slice (nibs b) (2 * q) (2 * m)))
  unfolding aligned_equal
  aligned_even ha hb =
      let half : (t : ℕ) → 2 * t / 2 ≡ t = λ t. omega arith in
      let even : 2 * m % 2 ≡ 0 = omega arith in
      rw (even, half p, half q, half m, slice-nibs a p m, slice-nibs b q m)
        (rw (bytes_eq-nibs (slice a p m) (slice b q m))
          (rw (extract-slice a p m (fit a p ha) refl, extract-slice b q m (fit b q hb) refl)))

  aligned_odd :
      2 * p + suc (2 * m) ≤ length (nibs a)
      → 2 * q + suc (2 * m) ≤ length (nibs b)
      → aligned_equal a (2 * p) b (2 * q) (suc (2 * m))
        ≡ ok
            (bytes_eq (slice (nibs a) (2 * p) (suc (2 * m))) (slice (nibs b) (2 * q) (suc (2 * m))))
  unfolding aligned_equal
  aligned_odd ha hb =
      let (x, ex, sx) = slice_snoc (nibs a) (2 * p) (2 * m) ha in
      let (y, ey, sy) = slice_snoc (nibs b) (2 * q) (2 * m) hb in
      let half : (t : ℕ) → 2 * t / 2 ≡ t = λ t. omega arith in
      let odd : suc (2 * m) % 2 ≡ 1 = omega arith in
      let less : suc (2 * m) - 1 ≡ 2 * m = omega arith in
      let same : length (slice (nibs a) (2 * p) (2 * m)) ≡ length (slice (nibs b) (2 * q) (2 * m)) =
        length-slice (nibs a) (2 * p) (2 * m) (omega arith)
        ∙ sym (length-slice (nibs b) (2 * q) (2 * m) (omega arith)) in
      rw (odd, less, half p, half q, half m)
        (rw
          (
            extract-slice a p m (fit a p (omega arith)) refl,
            extract-slice b q m (fit b q (omega arith)) refl,
          )
          (rw (nibble_at-nibs a (2 * p + 2 * m), nibble_at-nibs b (2 * q + 2 * m), ex, ey)
            (rw (sx, sy)
              (rw (bytes_eq-snoc _ _ x y same)
                (rw (slice-nibs a p m, slice-nibs b q m, bytes_eq-nibs) (ground arith))))))

aligned_equal-nibs :
    (a : Bytes) (i : ℕ) (b : Bytes) (j n : ℕ)
    → i % 2 ≡ 0
    → j % 2 ≡ 0
    → i + n ≤ length (nibs a)
    → j + n ≤ length (nibs b)
    → aligned_equal a i b j n ≡ ok (bytes_eq (slice (nibs a) i n) (slice (nibs b) j n))
aligned_equal-nibs a i b j n ei ej ha hb =
    let di : i ≡ 2 * (i / 2) = omega arith in
    let dj : j ≡ 2 * (j / 2) = omega arith in
    elim (Bool-cases (n % 2 == 0)) [
      | inl even ↦
          let dn : n ≡ 2 * (n / 2) = ground arith in
          subst₃
            (λ u v w.
              aligned_equal a u b v w ≡ ok (bytes_eq (slice (nibs a) u w) (slice (nibs b) v w)))
            (sym di) (sym dj) (sym dn)
            (aligned_even a (i / 2) b (j / 2) (n / 2) (omega arith) (omega arith))
      | inr odd ↦
          let dn : n ≡ suc (2 * (n / 2)) = ground arith in
          subst₃
            (λ u v w.
              aligned_equal a u b v w ≡ ok (bytes_eq (slice (nibs a) u w) (slice (nibs b) v w)))
            (sym di) (sym dj) (sym dn)
            (aligned_odd a (i / 2) b (j / 2) (n / 2) (omega arith) (omega arith))
    ]

none_left :
    (n i j : ℕ) (a b : Bytes)
    → n ≡ 0
    → bytes_eq (slice (nibs a) (suc i) n) (slice (nibs b) (suc j) n) ≡ true
unfolding bytes_eq
none_left zero i j a b e = refl
none_left (suc n) i j a b e = absurd (omega arith)

-- Both starts odd: the leading nibbles are compared, and the rest is aligned.
peeled_equal :
    (a : Bytes) (i : ℕ) (b : Bytes) (j n : ℕ)
    → i % 2 ≡ 1
    → j % 2 ≡ 1
    → i + suc n ≤ length (nibs a)
    → j + suc n ≤ length (nibs b)
    → nibbles_equal a i b j (suc n)
      ≡ ok (bytes_eq (slice (nibs a) i (suc n)) (slice (nibs b) j (suc n)))
unfolding nibbles_equal bytes_eq
peeled_equal a i b j n oi oj ha hb =
    let (x, ex, sx) = get_elem?-slice (nibs a) i n ha in
    let (y, ey, sy) = get_elem?-slice (nibs b) j n hb in
    let si : i + 1 ≡ suc i = omega arith in
    let sj : j + 1 ≡ suc j = omega arith in
    let less : suc n - 1 ≡ n = omega arith in
    let ei : suc i % 2 ≡ 0 = omega arith in
    let ej : suc j % 2 ≡ 0 = omega arith in
    rw (sx, sy, oi, oj, nibble_at-nibs a i, nibble_at-nibs b j, ex, ey, si, sj, less)
      (ground (
        arith,
        aligned_equal-nibs a (suc i) b (suc j) n ei ej (omega arith) (omega arith),
        none_left n i j a b,
      ))

-- For ranges of one length that lie in the nibbles of their buffers, nibbles_equal succeeds and
-- decides whether the two ranges hold the same nibbles.
pub nibbles_equal_lem :
    (a : Bytes) (a_nib : ℕ) (b : Bytes) (b_nib count : ℕ)
    → a_nib + count ≤ length (nibs a)
    → b_nib + count ≤ length (nibs b)
    → nibbles_equal a a_nib b b_nib count
      ≡ ok (bytes_eq (slice (nibs a) a_nib count) (slice (nibs b) b_nib count))
nibbles_equal_lem a i b j zero ha hb = unfold nibbles_equal bytes_eq in refl
nibbles_equal_lem a i b j (suc n) ha hb = elim (Bool-cases (i % 2 == j % 2)) [
  | inr apart ↦ unfold nibbles_equal in ground (arith, nibbles_loop-nibs (suc n) a i b j ha hb)
  | inl alike ↦ elim (Bool-cases (i % 2 == 1)) [
    | inl odd ↦ peeled_equal a i b j n (ground arith) (ground arith) ha hb
    | inr even ↦
        unfold nibbles_equal in
        ground (arith, aligned_equal-nibs a i b j (suc n) (ground arith) (ground arith) ha hb)
  ]
]
