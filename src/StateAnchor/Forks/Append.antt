-- ===== src/StateAnchor/Forks/Append.antt =====
-- Appending to the fork table of contracts/state_anchor/forks.py.
use eth_avm_light_client.Prelude.{
  ℕ, zero, suc, ◌+◌, ◌-◌, ◌%◌, ◌^◌, ◌<◌, ◌≡◌, ◌≢◌, refl, sym, ap, subst, ◌∙◌, inl, inr, ◌++◌, Bool,
  true, false, not, some, if◌then◌else◌, ◌==◌, ltb, leb, ltb→lt, arith, get_elem?, String,
}
use eth_avm_light_client.Avm.{Bytes, Result, ok, assert, itob}
use eth_avm_light_client.Avm.Words.{from_be-itob}
use eth_avm_light_client.Avm.Results.{assert-eq-ok, >>=-eq-ok, ok_inj, if-eq-ok}
use eth_avm_light_client.Avm.Store.{Store, put, put-same, put-other}
use eth_avm_light_client.StateAnchor.Forks.{
  Row, row_key, decode_row, read_row, assert_epoch_increases, append_fork_row, fork_table_capacity,
  uint64_max,
}
use eth_avm_light_client.StateAnchor.Forks.Table.{IsTable, below}

some_inj : {a b : ℕ} → some a ≡ some b → a ≡ b
some_inj e = cc

row_key-apart : (i j : ℕ) → i < 256 → j < 256 → i ≢ j → row_key i ≢ row_key j
unfolding row_key
row_key-apart i j li lj ne e =
    ne (let q : i % 256 ≡ j % 256 = some_inj (ap (λ b. get_elem? b 1) e) in omega arith)

row_same :
    {a b c d f a' b' c' d' f' : ℕ}
    → a ≡ a'
    → b ≡ b'
    → c ≡ c'
    → d ≡ d'
    → f ≡ f'
    → ◌≡◌ {A = Result Row} (ok (a, b, c, d, f)) (ok (a', b', c', d', f'))
row_same p q r s t = cc

asserted : (t : Bool) (m : String) → assert t m ≡ ok tt → t ≡ true
asserted true m e = refl
asserted false m e = cc

row_bytes : ℕ → ℕ → ℕ → ℕ → ℕ → Bytes
row_bytes e gs gr gn gb = itob e ++ (itob gs ++ (itob gr ++ (itob gn ++ itob gb)))

read_row-put :
    (i e gs gr gn gb : ℕ) (rows : Store)
    → e < 2 ^ 64
    → gs < 2 ^ 64
    → gr < 2 ^ 64
    → gn < 2 ^ 64
    → gb < 2 ^ 64
    → read_row i (put (row_key i) (row_bytes e gs gr gn gb) rows) ≡ ok (e, gs, gr, gn, gb)
unfolding read_row row_bytes
read_row-put i e gs gr gn gb rows le ls lr ln lb =
    ap decode_row
      (put-same (row_key i) (itob e ++ (itob gs ++ (itob gr ++ (itob gn ++ itob gb)))) rows)
    ∙ decoded
  where
    decoded :
        decode_row (some (itob e ++ (itob gs ++ (itob gr ++ (itob gn ++ itob gb)))))
        ≡ ok (e, gs, gr, gn, gb)
    decoded =
        row_same (from_be-itob e le) (from_be-itob gs ls) (from_be-itob gr lr) (from_be-itob gn ln)
          (from_be-itob gb lb)

read_row-other :
    (i j : ℕ) (b : Bytes) (rows : Store)
    → i < 256
    → j < 256
    → i ≢ j
    → read_row i (put (row_key j) b rows) ≡ read_row i rows
unfolding read_row
read_row-other i j b rows li lj ne =
    ap decode_row (put-other (row_key j) b rows (row_key i) (row_key-apart i j li lj ne))

-- The rows with one more at index `count`.
pub extend : ℕ → Row → (ℕ → Row) → ℕ → Row
extend count new row i = if i == count then new else row i

extend-new : (count : ℕ) (new : Row) (row : ℕ → Row) → extend count new row count ≡ new
unfolding extend
extend-new count new row = ground arith

extend-old :
    (count : ℕ) (new : Row) (row : ℕ → Row) (i : ℕ) → i < count → extend count new row i ≡ row i
unfolding extend
extend-old count new row i lo = ground arith

epoch_check :
    (count e : ℕ) (rows : Store) (row : ℕ → Row)
    → IsTable count rows row
    → assert_epoch_increases count e rows ≡ ok tt
    → (i : ℕ) → i + 1 ≡ count
    → (row i).0 < e
unfolding assert_epoch_increases
epoch_check zero e rows row table h i last = absurd (omega arith)
epoch_check (suc count) e rows row table h i last =
    let back : suc count - 1 ≡ i = omega arith in
    elim (if-eq-ok (ltb 0 (suc count)) _ _ h) [
      | inr (empty, _) ↦ absurd (ground arith)
      | inl (used, h') ↦
          let (prev, q, c) = >>=-eq-ok (read_row (suc count - 1) rows) _ h' in
          let same : prev ≡ row i =
            ok_inj (sym q ∙ ap (λ k. read_row k rows) back ∙ table.reads i (omega arith)) in
          ltb→lt ((row i).0) e (
            ap (λ r. ltb (r.0) e) (sym same)
            ∙ asserted (ltb (prev.0) e) "activation_epoch must strictly increase" c)
    ]

-- An append of a row of numbers below 2^64 that succeeds on a table whose rows are all present with
-- strictly rising epochs, at most 8 of them, adds one to the count and gives such a table again,
-- with the new row behind the old ones.
pub append_fork_row-IsTable :
    (count e gs gr gn gb : ℕ) (rows : Store) (row : ℕ → Row) {count' : ℕ} {rows' : Store}
    → IsTable count rows row
    → e < 2 ^ 64
    → gs < 2 ^ 64
    → gr < 2 ^ 64
    → gn < 2 ^ 64
    → gb < 2 ^ 64
    → append_fork_row count e gs gr gn gb rows ≡ ok (count', rows')
    → (count' ≡ count + 1) × IsTable count' rows' (extend count (e, gs, gr, gn, gb) row)
unfolding append_fork_row row_bytes
append_fork_row-IsTable count e gs gr gn gb rows row {count'} {rows'} table le ls lr ln lb h =
    let (_, h1) = assert-eq-ok (not (e == uint64_max)) "N17-sentinel" _ h in
    let (t, h2) = assert-eq-ok (ltb count fork_table_capacity) "fork table full" _ h1 in
    let (_, h3) = assert-eq-ok (leb 2 gs) "g_state_root must be a real composed gindex" _ h2 in
    let (_, h4) = assert-eq-ok (leb 2 gr) "g_receipts_root must be a real composed gindex" _ h3 in
    let (_, h5) = assert-eq-ok (leb 2 gn) "g_block_number must be a real composed gindex" _ h4 in
    let (_, h6) =
      assert-eq-ok (leb 2 gb) "g_block_roots_base must be a real composed gindex" _ h5 in
    let (_, up, h7) = >>=-eq-ok (assert_epoch_increases count e rows) _ h6 in
    let lo : count < 8 = ltb→lt count 8 t in
    let q = ok_inj h7 in
    let n : count + 1 ≡ count' = ap (λ x. x.0) q in
    let stored : put (row_key count) (row_bytes e gs gr gn gb) rows ≡ rows' = ap (λ x. x.1) q in
    (
      sym n,
      subst (λ c. IsTable c rows' new_row) n
          (subst (λ r. IsTable (count + 1) r new_row) stored
            (record {
              fits = omega arith;
              reads = λ i hi. elim (below i count hi) [
                | inl old ↦
                    read_row-other i count (row_bytes e gs gr gn gb) rows (omega arith)
                      (omega arith) (λ z. absurd (omega arith))
                    ∙ table.reads i old
                    ∙ ap ok (sym (extend-old count (e, gs, gr, gn, gb) row i old))
                | inr new ↦
                    ap (λ k. read_row k (put (row_key count) (row_bytes e gs gr gn gb) rows)) new
                    ∙ read_row-put count e gs gr gn gb rows le ls lr ln lb
                    ∙ ap ok (sym (extend-new count (e, gs, gr, gn, gb) row))
                    ∙ ap (λ k. ok (new_row k)) (sym new)
              ];
              rising = λ i hi. elim (below (i + 1) count hi) [
                | inl old ↦
                    let a = extend-old count (e, gs, gr, gn, gb) row i (omega arith) in
                    let b = extend-old count (e, gs, gr, gn, gb) row (i + 1) old in
                    let lt = table.rising i old in omega (arith, ap (λ r. r.0) a, ap (λ r. r.0) b)
                | inr new ↦
                    let a = extend-old count (e, gs, gr, gn, gb) row i (omega arith) in
                    let b : new_row (i + 1) ≡ (e, gs, gr, gn, gb) =
                      ap new_row new ∙ extend-new count (e, gs, gr, gn, gb) row in
                    let lt = epoch_check count e rows row table up i new in
                    omega (arith, ap (λ r. r.0) a, ap (λ r. r.0) b)
              ];
            })),
    )
  where
    new_row : ℕ → Row
    new_row = extend count (e, gs, gr, gn, gb) row
