-- ===== src/Avm/Store.antt =====
-- Box storage and global byte-string keys: a store from names to byte strings, and the box opcodes.
pub mod Ranges
use eth_avm_light_client.Prelude.{
  ℕ, ◌≡◌, ◌≢◌, refl, sym, ap, ◌∙◌, inl, inr, Option-cases, Option, none, some, if◌then◌else◌, ◌==◌,
  length, bytes_eq, bytes_eq_refl, bytes_eq-ne, arith,
}
use eth_avm_light_client.Avm.Results.{ok_inj, if-eq-ok, >>=-eq-ok}
use eth_avm_light_client.Avm.{Bytes, Result, ok, err, panic, ◌>>=◌, bzero, extract, replace}

abbrev pub Store : Type 0
Store = Bytes → Option Bytes

unfoldable pub put : Bytes → Bytes → Store → Store
put name value store key = if bytes_eq key name then some value else store key

unfoldable pub remove : Bytes → Store → Store
remove name store key = if bytes_eq key name then none else store key

pub put-same : (name value : Bytes) (store : Store) → put name value store name ≡ some value
unfolding put
put-same name value store = ground (arith, bytes_eq_refl name)

pub put-other :
    (name value : Bytes) (store : Store) (key : Bytes)
    → key ≢ name
    → put name value store key ≡ store key
unfolding put
put-other name value store key ne = ground (arith, bytes_eq-ne key name ne)

pub remove-same : (name : Bytes) (store : Store) → remove name store name ≡ none
unfolding remove
remove-same name store = ground (arith, bytes_eq_refl name)

pub remove-other :
    (name : Bytes) (store : Store) (key : Bytes) → key ≢ name → remove name store key ≡ store key
unfolding remove
remove-other name store key ne = ground (arith, bytes_eq-ne key name ne)

-- op.Box.create: a box of another size panics, one of the same size stays.
abbrev pub box_create : Bytes → ℕ → Store → Result Store
box_create name size store = elim (store name) [
  | none ↦ ok (put name (bzero size) store)
  | some b ↦ if length b == size then ok store else err panic
]

abbrev pub value_or_panic : Option Bytes → Result Bytes
value_or_panic none = err panic
value_or_panic (some b) = ok b

-- The whole value of a box that must be there.
abbrev pub box_value : Bytes → Store → Result Bytes
box_value name store = value_or_panic (store name)

-- op.Box.extract
abbrev pub box_extract : Bytes → ℕ → ℕ → Store → Result Bytes
box_extract name i n store = do b ← box_value name store; extract b i n

-- op.Box.replace
abbrev pub box_replace : Bytes → ℕ → Bytes → Store → Result Store
box_replace name i c store = do b ← box_value name store; b' ← replace b i c; ok (put name b' store)

pub box_extract-put :
    (name b : Bytes) (i n : ℕ) (store : Store)
    → box_extract name i n (put name b store) ≡ extract b i n
box_extract-put name b i n store =
    ap (λ o. value_or_panic o >>= λ t. extract t i n) (put-same name b store)

pub box_create_new :
    (name : Bytes) (size : ℕ) (store : Store)
    → store name ≡ none
    → box_create name size store ≡ ok (put name (bzero size) store)
box_create_new name size store absent = rw (absent, box_create) refl

pub box_create_old :
    (name : Bytes) (size : ℕ) (store : Store) (b : Bytes)
    → store name ≡ some b
    → box_create name size store ≡ (if length b == size then ok store else err panic)
box_create_old name size store b there = rw (there, box_create) refl

pub box_create-other :
    (name : Bytes) (size : ℕ) (store : Store) (key : Bytes) {store' : Store}
    → key ≢ name
    → box_create name size store ≡ ok store'
    → store' key ≡ store key
box_create-other name size store key ne h = elim (Option-cases (store name)) [
  | inl absent ↦
      let e = ok_inj (sym (box_create_new name size store absent) ∙ h) in
      ap (λ c. c key) (sym e) ∙ put-other name (bzero size) store key ne
  | inr (b, there) ↦
      elim (if-eq-ok (length b == size) _ _ (sym (box_create_old name size store b there) ∙ h)) [
        | inl (_, same) ↦ ap (λ c. c key) (sym (ok_inj same))
        | inr (_, bad) ↦ cc
      ]
]

pub box_replace-other :
    (name : Bytes) (i : ℕ) (c : Bytes) (store : Store) (key : Bytes) {store' : Store}
    → key ≢ name
    → box_replace name i c store ≡ ok store'
    → store' key ≡ store key
box_replace-other name i c store key ne h =
    let (b, _, h1) = >>=-eq-ok (box_value name store) _ h in
    let (b', _, h2) = >>=-eq-ok (replace b i c) _ h1 in
    ap (λ s. s key) (sym (ok_inj h2)) ∙ put-other name b' store key ne
