-- ===== src/Avm/Store/Ranges.antt =====
-- Reading a range of a box after a write.
use eth_avm_light_client.Prelude.{ℕ, ◌+◌, ◌≤◌, ◌≡◌, sym, ap, ◌∙◌, length, arith}
use eth_avm_light_client.Prelude.Slices.{
  slice, splice, length-splice, slice-splice_self, slice-splice_before,
}
use eth_avm_light_client.Avm.{Bytes, ok, ◌>>=◌, extract, replace}
use eth_avm_light_client.Avm.Words.{extract-slice}
use eth_avm_light_client.Avm.Results.{ok_inj, >>=-eq-ok, extract-eq-ok}
use eth_avm_light_client.Avm.Store.{
  Store, value_or_panic, box_value, box_extract, box_extract-put, box_replace,
}

pub box_extract-same :
    (name : Bytes) (i n : ℕ) (store store' : Store)
    → store' name ≡ store name
    → box_extract name i n store' ≡ box_extract name i n store
box_extract-same name i n store store' e = ap (λ o. value_or_panic o >>= λ b. extract b i n) e

replace-eq-ok :
    (b c : Bytes) (i : ℕ) {d : Bytes}
    → replace b i c ≡ ok d
    → (i + length c ≤ length b) × (d ≡ splice b i c)
replace-eq-ok b c i h = ground arith

pub box_extract-replace_self :
    (name : Bytes) (i n : ℕ) (c : Bytes) (store : Store) {store' : Store}
    → length c ≡ n
    → box_replace name i c store ≡ ok store'
    → box_extract name i n store' ≡ ok c
box_extract-replace_self name i n c store sized h =
    let (b, _, h1) = >>=-eq-ok (box_value name store) _ h in
    let (b', r, h2) = >>=-eq-ok (replace b i c) _ h1 in
    let (fits, spliced) = replace-eq-ok b c i r in
    ap (box_extract name i n) (sym (ok_inj h2))
    ∙ box_extract-put name b' i n store
    ∙ ap (λ x. extract x i n) spliced
    ∙ extract-slice (splice b i c) i n (omega (arith, length-splice b i c))
        (slice-splice_self b i n c sized (omega arith))

-- A range that ends before the write keeps what it held.
pub box_extract-replace_before :
    (name : Bytes) (i j n : ℕ) (c : Bytes) (store : Store) {v : Bytes} {store' : Store}
    → j + n ≤ i
    → box_extract name j n store ≡ ok v
    → box_replace name i c store ≡ ok store'
    → box_extract name j n store' ≡ ok v
box_extract-replace_before name i j n c store {v} before read h =
    let (b0, there, read') = >>=-eq-ok (box_value name store) _ read in
    let (b, found, h1) = >>=-eq-ok (box_value name store) _ h in
    let (b', r, h2) = >>=-eq-ok (replace b i c) _ h1 in
    let (fits, spliced) = replace-eq-ok b c i r in
    let same : b ≡ b0 = ok_inj (sym found ∙ there) in
    let (full, sliced) = extract-eq-ok b0 j n read' in
    ap (box_extract name j n) (sym (ok_inj h2))
    ∙ box_extract-put name b' j n store
    ∙ ap (λ x. extract x j n) spliced
    ∙ extract-slice (splice b i c) j n (omega (arith, length-splice b i c))
        (slice-splice_before b i j n c before ∙ ap (λ x. slice x j n) same ∙ sym sliced)
