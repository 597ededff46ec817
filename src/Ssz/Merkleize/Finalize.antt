-- ===== src/Ssz/Merkleize/Finalize.antt =====
-- The end of the accumulator of contracts/primitives/ssz/merkleize.py.
use eth_avm_light_client.Prelude.{
  ℕ, zero, suc, ◌+◌, ◌-◌, ◌*◌, ◌/◌, ◌%◌, ◌^◌, ◌≤◌, ◌<◌, ◌≡◌, refl, sym, ap, ap₂, subst, ◌∙◌, ◌⊎◌,
  inl, inr, false, ◌++◌, ◌==◌, length, arith, lt→ltb,
}
use eth_avm_light_client.Prelude.Slices.{slice}
use eth_avm_light_client.Avm.{Bytes, ok, ◌>>=◌, bzero, Hashes, Result}
use eth_avm_light_client.Ssz.Powers.{pow_pos, div_pow_suc, div_small_pow, div_add_pow}
use eth_avm_light_client.Ssz.Branch.Tree.{merkle_node, merkle_node-odd, merkle_node-even}
use eth_avm_light_client.Ssz.Merkleize.{
  zero_hash, zero_hash_table, merkleize_stack_push, finalize_loop, merkleize_stack_finalize,
}
use eth_avm_light_client.Ssz.Merkleize.Push.{
  Accumulated, merkleize_stack_push-Pushed, parity_cases, getbit_op-odd, getbit_op-even,
}

module _ (h : Hashes) (f : ℕ → Bytes) (n : ℕ) (zeros : (j : ℕ) → n ≤ j → f j ≡ bzero 32) where
  -- A subtree behind the last chunk is a subtree of zeros.
  merkle_node-zero : (i k : ℕ) → n / 2 ^ i < k → merkle_node h i f k ≡ zero_hash_table h i
  unfolding merkle_node zero_hash_table
  merkle_node-zero zero k lo = zeros k (omega arith)
  merkle_node-zero (suc i) k lo =
      let s : i + 1 ≡ suc i = omega arith in
      let half : n / 2 ^ suc i ≡ n / 2 ^ i / 2 = ap (λ t. n / 2 ^ t) (sym s) ∙ div_pow_suc n i in
      ap₂ (λ x y. h.sha256 (x ++ y)) (merkle_node-zero i (2 * k) (omega arith))
        (merkle_node-zero i (2 * k + 1) (omega arith))

  finalize_loop-root :
      (m i : ℕ) (state : Bytes)
      → Accumulated h f n state
      → i + m ≤ 63
      → finalize_loop h m i state n (merkle_node h i f (n / 2 ^ i))
        ≡ ok (merkle_node h (i + m) f (n / 2 ^ (i + m)))
  unfolding finalize_loop zero_hash
  finalize_loop-root zero i state st deep =
      let e : i ≡ i + 0 = omega arith in ap (λ t. ok (merkle_node h t f (n / 2 ^ t))) e
  finalize_loop-root (suc m) i state st deep =
      let next = finalize_loop-root m (i + 1) state st (omega arith) in
      let reach : i + 1 + m ≡ i + suc m = omega arith in
      let up : merkle_node h (i + 1) f (n / 2 ^ i / 2) ≡ merkle_node h (i + 1) f (n / 2 ^ (i + 1)) =
        ap (merkle_node h (i + 1) f) (sym (div_pow_suc n i)) in
      elim (parity_cases (n / 2 ^ i)) [
        | inl odd ↦
            let node : h.sha256 (slice state (i * 32) 32 ++ merkle_node h i f (n / 2 ^ i))
                ≡ merkle_node h (i + 1) f (n / 2 ^ (i + 1)) =
              ap (λ t. h.sha256 (t ++ merkle_node h i f (n / 2 ^ i))) (st.slot i odd)
              ∙ merkle_node-odd h i (n / 2 ^ i) f odd
              ∙ up in
            rw (getbit_op-odd n i (omega arith) odd, node, ← reach) next
        | inr even ↦
            let node : h.sha256 (merkle_node h i f (n / 2 ^ i) ++ zero_hash_table h i)
                ≡ merkle_node h (i + 1) f (n / 2 ^ (i + 1)) =
              ap (λ t. h.sha256 (merkle_node h i f (n / 2 ^ i) ++ t))
                (sym (merkle_node-zero i (n / 2 ^ i + 1) (omega arith)))
              ∙ merkle_node-even h i (n / 2 ^ i) f even
              ∙ up in
            rw (getbit_op-even n i (omega arith) even, lt→ltb i 64 (omega arith), node, ← reach)
              next
      ]

  first : zero_hash_table h 0 ≡ merkle_node h 0 f n
  unfolding zero_hash_table merkle_node
  first = sym (zeros n (omega arith))

  order : (a b : ℕ) → a ≤ b → (a < b) ⊎ (a ≡ b)
  order a b h = ground arith

  -- The tree of one chunk has no level.
  finalize_leaf :
      (state : Bytes)
      → Accumulated h f n state
      → n ≤ 1
      → merkleize_stack_finalize h state n 0 ≡ ok (f 0)
  unfolding merkleize_stack_finalize zero_hash zero_hash_table merkle_node
  finalize_leaf state st room = elim (parity_cases (n / 2 ^ 0)) [
    | inl odd ↦
        let one : n / 2 ^ 0 - 1 ≡ 0 = omega arith in
        let slot : slice state (0 * 32) 32 ≡ f 0 = st.slot 0 odd ∙ ap f one in
        let set : n % 2 ≡ 1 = omega arith in ground arith
    | inr even ↦
        let zero_chunk : f 0 ≡ bzero 32 = zeros 0 (omega arith) in
        let clear : n % 2 ≡ 0 = omega arith in ground arith
  ]

  finalize_complete :
      (d : ℕ) (state : Bytes)
      → Accumulated h f n state
      → n ≡ 2 ^ suc d
      → suc d ≤ 62
      → merkleize_stack_finalize h state n (suc d) ≡ ok (merkle_node h (suc d) f 0)
  unfolding merkleize_stack_finalize
  finalize_complete d state st full deep =
      let q : n / 2 ^ suc d ≡ 1 =
        ap (λ t. t / 2 ^ suc d) (full ∙ omega arith)
        ∙ div_add_pow 0 (suc d)
        ∙ ap (λ t. t + 1) (div_small_pow 0 (suc d) (pow_pos (suc d))) in
      let odd : n / 2 ^ suc d % 2 ≡ 1 = omega arith in
      let first : n / 2 ^ suc d - 1 ≡ 0 = omega arith in
      let nz : (suc d == 0) ≡ false = ground arith in
      rw (nz, getbit_op-odd n (suc d) (omega arith) odd)
        (ap ok (st.slot (suc d) odd ∙ ap (merkle_node h (suc d) f) first))

  finalize_partial :
      (d : ℕ) (state : Bytes)
      → Accumulated h f n state
      → n < 2 ^ suc d
      → suc d ≤ 62
      → merkleize_stack_finalize h state n (suc d) ≡ ok (merkle_node h (suc d) f 0)
  unfolding merkleize_stack_finalize zero_hash
  finalize_partial d state st room deep =
      let q = div_small_pow n (suc d) room in
      let even : n / 2 ^ suc d % 2 ≡ 0 = omega arith in
      let start : n / 2 ^ 0 ≡ n = omega arith in
      let node : zero_hash_table h 0 ≡ merkle_node h 0 f (n / 2 ^ 0) =
        first ∙ ap (merkle_node h 0 f) (sym start) in
      let reach : 0 + suc d ≡ suc d = omega arith in
      let nz : (suc d == 0) ≡ false = ground arith in
      rw (nz, getbit_op-even n (suc d) (omega arith) even)
        (ap (λ t. finalize_loop h (suc d) 0 state n t) node
          ∙ finalize_loop-root (suc d) 0 state st (omega arith)
          ∙ ap (λ t. ok (merkle_node h t f (n / 2 ^ t))) reach
          ∙ ap (λ t. ok (merkle_node h (suc d) f t)) q)

  -- The root over `n` chunks, with zero chunks behind them.
  pub merkleize_stack_finalize-root :
      (d : ℕ) (state : Bytes)
      → Accumulated h f n state
      → n ≤ 2 ^ d
      → d ≤ 62
      → merkleize_stack_finalize h state n d ≡ ok (merkle_node h d f 0)
  merkleize_stack_finalize-root zero state st room deep =
      finalize_leaf state st room ∙ unfold merkle_node in refl
  merkleize_stack_finalize-root (suc d) state st room deep = elim (order n (2 ^ suc d) room) [
    | inl partly ↦ finalize_partial d state st partly deep
    | inr full ↦ finalize_complete d state st full deep
  ]

-- Pushing the chunks before `n`, first to last.
unfoldable pub push_chunks : Hashes → ℕ → (ℕ → Bytes) → Bytes → Result (Bytes × ℕ)
push_chunks h zero f state = ok (state, 0)
push_chunks h (suc n) f state = do
  (state', filled) ← push_chunks h n f state
  merkleize_stack_push h state' filled (f n)

record Chunked (h : Hashes) (f : ℕ → Bytes) (n : ℕ) (state : Bytes) : Type 0 where
  after : Bytes
  pushes : push_chunks h n f state ≡ ok (after, n)
  size : length after ≡ length state
  stack : Accumulated h f n after

push_chunks-Chunked :
    (h : Hashes) (f : ℕ → Bytes) (n d : ℕ) (state : Bytes)
    → ((j : ℕ) → length (f j) ≡ 32)
    → n ≤ 2 ^ d
    → d ≤ 62
    → (d + 1) * 32 ≤ length state
    → Chunked h f n state
unfolding push_chunks
push_chunks-Chunked h f zero d state size room deep full = record {
  after = state;
  pushes = refl;
  size = refl;
  stack = record { slot = λ j odd. absurd (omega (arith, div_small_pow 0 j (pow_pos j))) };
}
push_chunks-Chunked h f (suc n) d state size room deep full =
    let c = push_chunks-Chunked h f n d state size (omega arith) deep full in
    let p =
      merkleize_stack_push-Pushed h f n d c.after size c.stack (omega arith) deep
        (omega (arith, c.size)) in
    let s : n + 1 ≡ suc n = omega arith in
    record {
      after = p.after;
      pushes = rw (c.pushes) (p.pushes ∙ ap (λ t. ok (p.after, t)) s);
      size = p.size ∙ c.size;
      stack = subst (λ t. Accumulated h f t (p.after)) s p.stack;
    }

-- Pushing n chunks of 32 bytes one by one from count 0 and closing the accumulator at depth d
-- returns the root of the Merkle tree of depth d over the chunks, where the chunks from n on are
-- zero, n <= 2^d, d <= 62 and the accumulator has d + 1 slots or more.
pub merkleize-root :
    (h : Hashes) (f : ℕ → Bytes) (n d : ℕ) (state : Bytes)
    → ((j : ℕ) → length (f j) ≡ 32)
    → ((j : ℕ) → n ≤ j → f j ≡ bzero 32)
    → n ≤ 2 ^ d
    → d ≤ 62
    → (d + 1) * 32 ≤ length state
    → (do (state', filled) ← push_chunks h n f state; merkleize_stack_finalize h state' filled d)
      ≡ ok (merkle_node h d f 0)
merkleize-root h f n d state size zeros room deep full =
    let c = push_chunks-Chunked h f n d state size room deep full in
    rw (c.pushes) (merkleize_stack_finalize-root h f n zeros d c.after c.stack room deep)
