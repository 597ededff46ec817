-- ===== src/Ssz/Merkleize/Push.antt =====
-- The slots of the accumulator of contracts/primitives/ssz/merkleize.py, push by push.
use eth_avm_light_client.Prelude.{
  ℕ, zero, suc, ◌+◌, ◌-◌, ◌*◌, ◌/◌, ◌%◌, ◌^◌, ◌≤◌, ◌<◌, ◌≡◌, refl, sym, ap, ap₂, ◌∙◌, ◌⊎◌, inl, inr,
  true, false, ◌++◌, length, arith, le→leb, lt→ltb,
}
use eth_avm_light_client.Prelude.Slices.{
  slice, splice, splice_parts, length-splice, slice-splice_self, slice-splice_after,
}
use eth_avm_light_client.Avm.{Bytes, ok, Hashes}
use eth_avm_light_client.Ssz.Powers.{
  div_pow_suc, div_add_pow, div_sub_pow, div_pow_from, pow_le_of_div, pow_le_inv,
}
use eth_avm_light_client.Ssz.Branch.Tree.{merkle_node, merkle_node-odd, length-merkle_node}
use eth_avm_light_client.Ssz.Merkleize.{getbit_op, push_carry, merkleize_stack_push}

pub parity_cases : (q : ℕ) → (q % 2 ≡ 1) ⊎ (q % 2 ≡ 0)
parity_cases q = ground arith

pub getbit_op-odd : (n i : ℕ) → i < 64 → n / 2 ^ i % 2 ≡ 1 → getbit_op n i ≡ ok true
getbit_op-odd n i lo e = rw (lt→ltb i 64 lo, e) refl

pub getbit_op-even : (n i : ℕ) → i < 64 → n / 2 ^ i % 2 ≡ 0 → getbit_op n i ≡ ok false
getbit_op-even n i lo e = rw (lt→ltb i 64 lo, e) refl

module _ (h : Hashes) (f : ℕ → Bytes) where
  -- The accumulator after the chunks before `n`.
  pub record Accumulated (n : ℕ) (state : Bytes) : Type 0 where
    pub slot :
        (j : ℕ) → n / 2 ^ j % 2 ≡ 1 → slice state (j * 32) 32 ≡ merkle_node h j f (n / 2 ^ j - 1)

  -- Where the carry of the push of chunk `n` ends.
  record Carried (n d m i : ℕ) (state node : Bytes) (g : ℕ) : Type 0 where
    level : ℕ
    bits : ℕ
    carries :
        push_carry h m state node g i ≡ ok (merkle_node h level f (n / 2 ^ level), bits, level)
    next : bits + 2 ^ level ≡ n + 1
    free : n / 2 ^ level % 2 ≡ 0
    up : (n + 1) / 2 ^ level ≡ n / 2 ^ level + 1
    fits : level ≤ d
    low : (j : ℕ) → j < level → (n + 1) / 2 ^ j % 2 ≡ 0

  -- A carry out of an occupied level.
  carry_step :
      (n i g : ℕ)
      → g + 2 ^ i ≡ n + 1
      → g / 2 ^ i ≡ n / 2 ^ i
      → n / 2 ^ i % 2 ≡ 1
      → (g - 2 ^ i + 2 ^ (i + 1) ≡ n + 1) × ((g - 2 ^ i) / 2 ^ (i + 1) ≡ n / 2 ^ (i + 1))
  carry_step n i g sum q odd =
      let big = pow_le_of_div g i (omega arith) in
      let s : i + 1 ≡ suc i = omega arith in
      (
        ap (λ t. g - 2 ^ i + 2 ^ t) s ∙ omega arith,
        div_pow_suc (g - 2 ^ i) i
            ∙ ap (λ t. t / 2) (div_sub_pow g i (omega arith))
            ∙ omega arith
            ∙ sym (div_pow_suc n i),
      )

  next_bit :
      (n i g : ℕ) → g + 2 ^ i ≡ n + 1 → g / 2 ^ i ≡ n / 2 ^ i → (n + 1) / 2 ^ i ≡ n / 2 ^ i + 1
  next_bit n i g sum q = ap (λ t. t / 2 ^ i) (sym sum) ∙ div_add_pow g i ∙ ap (λ t. t + 1) q

  push_carry-Carried :
      (m i g n d : ℕ) (state : Bytes)
      → Accumulated n state
      → g + 2 ^ i ≡ n + 1
      → g / 2 ^ i ≡ n / 2 ^ i
      → ((j : ℕ) → j < i → (n + 1) / 2 ^ j % 2 ≡ 0)
      → n + 1 ≤ 2 ^ d
      → d ≤ 62
      → d < i + m
      → Carried n d m i state (merkle_node h i f (n / 2 ^ i)) g
  unfolding push_carry
  push_carry-Carried zero i g n d state st sum q low room deep fuel =
      let le = pow_le_inv i d (omega arith) in absurd (omega arith)
  push_carry-Carried (suc m) i g n d state st sum q low room deep fuel =
      let le = pow_le_inv i d (omega arith) in
      elim (parity_cases (n / 2 ^ i)) [
        | inr even ↦ record {
          level = i;
          bits = g;
          carries = rw (getbit_op-even g i (omega arith) (ap (λ t. t % 2) q ∙ even)) refl;
          next = sum;
          free = even;
          up = next_bit n i g sum q;
          fits = le;
          low = low;
        }
        | inl odd ↦
            let (sum', q') = carry_step n i g sum q odd in
            let up = next_bit n i g sum q in
            let c =
              push_carry-Carried m (i + 1) (g - 2 ^ i) n d state st sum' q'
                (λ j lo. elim (below j i lo) [
                  | inl before ↦ low j before
                  | inr here ↦ rw (here, up) (omega arith)
                ])
                room deep (omega arith) in
            let node : h.sha256 (slice state (i * 32) 32 ++ merkle_node h i f (n / 2 ^ i))
                ≡ merkle_node h (i + 1) f (n / 2 ^ (i + 1)) =
              ap (λ t. h.sha256 (t ++ merkle_node h i f (n / 2 ^ i))) (st.slot i odd)
              ∙ merkle_node-odd h i (n / 2 ^ i) f odd
              ∙ ap (merkle_node h (i + 1) f) (sym (div_pow_suc n i)) in
            record {
              level = c.level;
              bits = c.bits;
              carries =
                  rw (getbit_op-odd g i (omega arith) (ap (λ t. t % 2) q ∙ odd))
                    (ap (λ t. push_carry h m state t (g - 2 ^ i) (i + 1)) node ∙ c.carries);
              next = c.next;
              free = c.free;
              up = c.up;
              fits = c.fits;
              low = c.low;
            }
      ]
    where
      below : (j i : ℕ) → j < i + 1 → (j < i) ⊎ (j ≡ i)
      below j i lo = ground arith

  -- What a push leaves: one chunk more.
  pub record Pushed (n : ℕ) (state : Bytes) : Type 0 where
    pub after : Bytes
    pub pushes : merkleize_stack_push h state n (f n) ≡ ok (after, n + 1)
    pub size : length after ≡ length state
    pub stack : Accumulated (n + 1) after

  slot_after :
      (n d level : ℕ) (state : Bytes)
      → Accumulated n state
      → n / 2 ^ level % 2 ≡ 0
      → (n + 1) / 2 ^ level ≡ n / 2 ^ level + 1
      → ((j : ℕ) → j < level → (n + 1) / 2 ^ j % 2 ≡ 0)
      → level ≤ d
      → (d + 1) * 32 ≤ length state
      → length (merkle_node h level f (n / 2 ^ level)) ≡ 32
      → Accumulated (n + 1) (splice state (level * 32) (merkle_node h level f (n / 2 ^ level)))
  slot_after n d level state st free up low fits room size = record {
    slot = λ j odd. elim (order j level) [
      | inl before ↦ absurd (omega (arith, low j before))
      | inr (inl here) ↦ rw here (
          slice-splice_self state (level * 32) 32 (merkle_node h level f (n / 2 ^ level)) size
            (omega arith)
          ∙ ap (merkle_node h level f) (omega arith))
      | inr (inr (t, later)) ↦
          let same : (n + 1) / 2 ^ j ≡ n / 2 ^ j =
            ap (λ k. (n + 1) / 2 ^ k) later
            ∙ div_pow_from (n + 1) n (level + 1) t
                (div_pow_suc (n + 1) level ∙ omega arith ∙ sym (div_pow_suc n level))
            ∙ ap (λ k. n / 2 ^ k) (sym later) in
          slice-splice_after state (level * 32) (j * 32) 32 (merkle_node h level f (n / 2 ^ level))
            (omega arith)
          ∙ st.slot j (omega arith)
          ∙ ap (λ q. merkle_node h j f (q - 1)) (sym same)
    ];
  }
    where
      order : (j l : ℕ) → (j < l) ⊎ ((j ≡ l) ⊎ ((t : ℕ) × (j ≡ l + 1 + t)))
      order zero zero = inr (inl refl)
      order zero (suc l) = inl (omega arith)
      order (suc j) zero = inr (inr (j, omega arith))
      order (suc j) (suc l) = elim (order j l) [
        | inl a ↦ inl (omega arith)
        | inr (inl a) ↦ inr (inl (omega arith))
        | inr (inr (t, a)) ↦ inr (inr (t, omega arith))
      ]

  chunk_node : (n : ℕ) → f n ≡ merkle_node h 0 f (n / 2 ^ 0)
  unfolding merkle_node
  chunk_node n = let e : n / 2 ^ 0 ≡ n = omega arith in ap f (sym e)

  -- A push onto an accumulator with room for a tree of depth `d` that is not full.
  pub merkleize_stack_push-Pushed :
      (n d : ℕ) (state : Bytes)
      → ((j : ℕ) → length (f j) ≡ 32)
      → Accumulated n state
      → n + 1 ≤ 2 ^ d
      → d ≤ 62
      → (d + 1) * 32 ≤ length state
      → Pushed n state
  unfolding merkleize_stack_push
  merkleize_stack_push-Pushed n d state size st room deep full =
      let start : n + 2 ^ 0 ≡ n + 1 = omega arith in
      let c =
        push_carry-Carried 65 0 n n d state st start refl (λ j lo. absurd (omega arith)) room deep
          (omega arith) in
      let node : Bytes = merkle_node h c.level f (n / 2 ^ c.level) in
      let len : length node ≡ 32 = length-merkle_node h c.level f (n / 2 ^ c.level) size in
      let fit : c.level * 32 + 32 ≤ length state = omega (arith, c.fits) in
      let carry : push_carry h 65 state (f n) n 0 ≡ ok (node, c.bits, c.level) =
        ap (λ t. push_carry h 65 state t n 0) (chunk_node n) ∙ c.carries in
      let parts : slice state 0 (c.level * 32)
            ++ (node ++ slice state (c.level * 32 + 32) (length state - (c.level * 32 + 32)))
          ≡ splice state (c.level * 32) node =
        ap
          (λ t.
            slice state 0 (c.level * 32)
            ++ (node ++ slice state (c.level * 32 + t) (length state - (c.level * 32 + t))))
          (sym len)
        ∙ splice_parts state (c.level * 32) node (omega arith) in
      record {
        after = splice state (c.level * 32) node;
        pushes =
            rw (carry, le→leb (c.level * 32 + 32) (length state) fit)
              (ap₂ (λ a b. ok (a, b)) parts (c.next));
        size = length-splice state (c.level * 32) node;
        stack = slot_after n d c.level state st c.free c.up c.low c.fits full len;
      }
