-- ===== src/StateAnchor/Forks/Table.antt =====
-- The fork table of contracts/state_anchor/forks.py and its lookup.
use eth_avm_light_client.Prelude.{
  ℕ, zero, suc, ◌+◌, ◌≤◌, ◌<◌, ◌≡◌, refl, sym, ap, subst, ◌∙◌, ◌⊎◌, inl, inr, Bool, true, false,
  if◌then◌else◌, leb, leb→le, arith, Bool-cases,
}
use eth_avm_light_client.Avm.{Result, ok, err, code}
use eth_avm_light_client.Avm.Store.{Store}
use eth_avm_light_client.StateAnchor.Forks.{
  Row, read_row, find_loop, find_row_index_for_epoch, lookup_row,
}

-- A table of `count` rows, `row i` the one with index `i`.
pub record IsTable (count : ℕ) (rows : Store) (row : ℕ → Row) : Type 0 where
  pub fits : count ≤ 8
  pub reads : (i : ℕ) → i < count → read_row i rows ≡ ok (row i)
  pub rising : (i : ℕ) → i + 1 < count → (row i).0 < (row (i + 1)).0

-- Later rows have later epochs.
pub rising-lt :
    {count : ℕ} {rows : Store} {row : ℕ → Row}
    → IsTable count rows row
    → (i t : ℕ) → i + 1 + t < count
    → (row i).0 < (row (i + 1 + t)).0
rising-lt {row = row} table i zero lo =
    let e : i + 1 + 0 ≡ i + 1 = omega arith in
    subst (λ k. (row i).0 < (row k).0) (sym e) (table.rising i (omega arith))
rising-lt {row = row} table i (suc t) lo =
    let e : i + 1 + suc t ≡ i + 1 + t + 1 = omega arith in
    let before = rising-lt table i t (omega arith) in
    let step = table.rising (i + 1 + t) (omega arith) in
    subst (λ k. (row i).0 < (row k).0) (sym e) (omega arith)

-- The row that the loop has found among the first `n`: the last one that is active at the epoch.
pub data Best (row : ℕ → Row) (epoch n : ℕ) (best : Bool × ℕ) : Type 0 where
  nowhere : best.0 ≡ false → ((j : ℕ) → j < n → epoch < (row j).0) → Best row epoch n best
  active :
      (i : ℕ)
      → best ≡ (true, i)
      → i < n
      → (row i).0 ≤ epoch
      → ((j : ℕ) → i < j → j < n → epoch < (row j).0)
      → Best row epoch n best

pub below : (j i : ℕ) → j < i + 1 → (j < i) ⊎ (j ≡ i)
below j i lo = ground arith

module _ (count : ℕ) (rows : Store) (row : ℕ → Row) (table : IsTable count rows row)
    (epoch : ℕ) where
  Best-next :
      (i : ℕ) (best : Bool × ℕ)
      → Best row epoch i best
      → Best row epoch (i + 1) (if leb (row i).0 epoch then (true, i) else best)
  Best-next i best b = elim (Bool-cases (leb (row i).0 epoch)) [
    | inl here ↦
        active i (ap (λ t. if t then (true, i) else best) here) (omega arith)
          (leb→le ((row i).0) epoch here) (λ j lo hi. absurd (omega arith))
    | inr later ↦
        let lt : epoch < (row i).0 = past ((row i).0) later in
        let same : (if leb (row i).0 epoch then (true, i) else best) ≡ best =
          ap (λ t. if t then (true, i) else best) later in
        elim b [
          | nowhere f all ↦ nowhere (ap (λ t. t.0) same ∙ f) (λ j hi. elim (below j i hi) [
            | inl lo ↦ all j lo
            | inr e ↦ subst (λ k. epoch < (row k).0) (sym e) lt
          ])
          | active k e lo le after ↦ active k (same ∙ e) (omega arith) le (λ j hi lo'.
              elim (below j i lo') [
                | inl lo'' ↦ after j hi lo''
                | inr e' ↦ subst (λ k. epoch < (row k).0) (sym e') lt
              ])
        ]
  ]
    where
      past : (a : ℕ) → leb a epoch ≡ false → epoch < a
      past a h = ground arith

  find_loop-Best :
      (m i : ℕ) (best : Bool × ℕ)
      → i + m ≡ count
      → Best row epoch i best
      → (r : Bool × ℕ) × (find_loop m i epoch rows best ≡ ok r) × Best row epoch count r
  unfolding find_loop
  find_loop-Best zero i best e b =
      let same : i ≡ count = omega arith in (best, refl, subst (λ k. Best row epoch k best) same b)
  find_loop-Best (suc m) i best e b =
      let (r, q, b') =
        find_loop-Best m (i + 1) (if leb (row i).0 epoch then (true, i) else best) (omega arith)
          (Best-next i best b) in
      (r, rw (table.reads i (omega arith)) q, b')

  -- The lookup finds the last row that is active at the epoch, or there is none and it fails.
  pub data Looked (result : Result (ℕ × ℕ × ℕ × ℕ)) : Type 0 where
    found :
        (i : ℕ)
        → i < count
        → (row i).0 ≤ epoch
        → ((j : ℕ) → i < j → j < count → epoch < (row j).0)
        → result ≡ ok ((row i).1, (row i).2, (row i).3, (row i).4)
        → Looked result
    missing : ((j : ℕ) → j < count → epoch < (row j).0) → result ≡ err (code "N17") → Looked result

  -- On a table whose rows, at most 8 of them, are all present with strictly rising epochs,
  -- lookup_row returns the indices of the last row whose epoch is at most the one asked for, or
  -- fails with N17 where every row's epoch is later.
  pub lookup_row-Looked : Looked (lookup_row count epoch rows)
  unfolding lookup_row find_row_index_for_epoch
  lookup_row-Looked =
      let (r, q, b) =
        find_loop-Best count 0 (false, 0) (omega arith)
          (nowhere refl (λ j lo. absurd (omega arith))) in
      elim b [
        | nowhere f all ↦ missing all (rw (q, f) refl)
        | active i e lo le after ↦
            found i lo le after (rw (q, ap (λ t. t.0) e, ap (λ t. t.1) e, table.reads i lo) refl)
      ]
