-- ===== src/Mpt/State/Fields.antt =====
-- What the accessors of W read after each way to update it.
use eth_avm_light_client.Prelude.{
  ℕ, suc, ◌+◌, ◌%◌, ◌^◌, ◌≤◌, ◌<◌, ◌≡◌, refl, ◌∙◌, ap, [], ◌∷◌, length, ◌==◌, ==_iff, arith,
}
use eth_avm_light_client.Avm.{Bytes, ok, replace, getbyte, be2, byte1}
use eth_avm_light_client.Avm.Results.{assert-eq-ok, >>=-eq-ok}
use eth_avm_light_client.Avm.Words.{extract_uint16-be2, extract-slice}
use eth_avm_light_client.Prelude.Slices.{
  slice, splice, length-splice, slice-splice_self, slice-splice_before, slice-splice_after,
}
use eth_avm_light_client.Mpt.State.{
  w_len, w_status, w_root, w_expected, w_depth, w_key_nibs, w_key, w_with_continue,
  w_with_continue_depth_only, w_with_terminal, walk_continue,
}

pub replace-eq-ok :
    (b : Bytes) (i : ℕ) (c : Bytes) {d : Bytes}
    → replace b i c ≡ ok d
    → (i + length c ≤ length b) × (d ≡ splice b i c)
replace-eq-ok b i c h = ground arith

pub getbyte-splice_front :
    (b : Bytes) (s : ℕ) → 1 ≤ length b → getbyte (splice b 0 (byte1 s)) 0 ≡ ok (s % 256)
getbyte-splice_front [] s h = absurd (omega arith)
getbyte-splice_front (x ∷ b) s h = refl

pub getbyte-splice_later :
    (b : Bytes) (i : ℕ) (c : Bytes) → getbyte (splice b (suc i) c) 0 ≡ getbyte b 0
getbyte-splice_later [] i c = refl
getbyte-splice_later (x ∷ b) i c = refl

-- What a walk never changes: the length, the root, the key and the number of its nibbles.
pub record Keeps (w w' : Bytes) : Type 0 where
  pub size : length w' ≡ length w
  pub root : slice w' 1 32 ≡ slice w 1 32
  pub key_nibs : slice w' 67 2 ≡ slice w 67 2
  pub key : slice w' 69 32 ≡ slice w 69 32

pub Keeps-trans : {a b c : Bytes} → Keeps a b → Keeps b c → Keeps a c
Keeps-trans f g = record {
  size = g.size ∙ f.size;
  root = g.root ∙ f.root;
  key_nibs = g.key_nibs ∙ f.key_nibs;
  key = g.key ∙ f.key;
}

-- Splices over the status, the expected hash and the depth keep the rest.
status-Keeps : (w : Bytes) (s : ℕ) → Keeps w (splice w 0 (byte1 s))
status-Keeps w s = record {
  size = length-splice w 0 (byte1 s);
  root = slice-splice_after w 0 1 32 (byte1 s) (omega arith);
  key_nibs = slice-splice_after w 0 67 2 (byte1 s) (omega arith);
  key = slice-splice_after w 0 69 32 (byte1 s) (omega arith);
}

expected-Keeps : (w e : Bytes) → length e ≡ 32 → Keeps w (splice w 33 e)
expected-Keeps w e h = record {
  size = length-splice w 33 e;
  root = slice-splice_before w 33 1 32 e (omega arith);
  key_nibs = slice-splice_after w 33 67 2 e (omega arith);
  key = slice-splice_after w 33 69 32 e (omega arith);
}

depth-Keeps : (w : Bytes) (d : ℕ) → Keeps w (splice w 65 (be2 d))
depth-Keeps w d = record {
  size = length-splice w 65 (be2 d);
  root = slice-splice_before w 65 1 32 (be2 d) (omega arith);
  key_nibs = slice-splice_after w 65 67 2 (be2 d) (omega arith);
  key = slice-splice_after w 65 69 32 (be2 d) (omega arith);
}

module _ (w : Bytes) (full : length w ≡ w_len) where
  -- The accessors of a full buffer succeed, each on its own bytes.
  pub w_root-slice : w_root w ≡ ok (slice w 1 32)
  unfolding w_root
  w_root-slice = extract-slice w 1 32 (omega arith) refl

  pub w_expected-slice : w_expected w ≡ ok (slice w 33 32)
  unfolding w_expected
  w_expected-slice = extract-slice w 33 32 (omega arith) refl

  pub w_key-slice : w_key w ≡ ok (slice w 69 32)
  unfolding w_key
  w_key-slice = extract-slice w 69 32 (omega arith) refl

  pub w_depth-be2 : (d : ℕ) → slice w 65 2 ≡ be2 d → d < 2 ^ 16 → w_depth w ≡ ok d
  unfolding w_depth
  w_depth-be2 d e h = extract_uint16-be2 w 65 d (omega arith) e h

  pub w_key_nibs-be2 : (d : ℕ) → slice w 67 2 ≡ be2 d → d < 2 ^ 16 → w_key_nibs w ≡ ok d
  unfolding w_key_nibs
  w_key_nibs-be2 d e h = extract_uint16-be2 w 67 d (omega arith) e h

-- The two updates as splices.
depth_only_splices :
    (w : Bytes) {w' : Bytes} (d : ℕ)
    → w_with_continue_depth_only w d ≡ ok w'
    → (67 ≤ length w) × (w' ≡ splice (splice w 0 (byte1 walk_continue)) 65 (be2 d))
unfolding w_with_continue_depth_only
depth_only_splices w d h = ground (arith, length-splice w 0 (byte1 walk_continue))

continue_splices :
    (w : Bytes) {w' : Bytes} (e : Bytes) (d : ℕ)
    → w_with_continue w e d ≡ ok w'
    → (67 ≤ length w)
      × (length e ≡ 32)
      × (w' ≡ splice (splice (splice w 0 (byte1 walk_continue)) 33 e) 65 (be2 d))
unfolding w_with_continue
continue_splices w e d h =
    let (t, h1) = assert-eq-ok (length e == 32) "W18" _ h in
    let (w1, e1, h2) = >>=-eq-ok (replace w 0 (byte1 walk_continue)) _ h1 in
    let (w2, e2, h3) = >>=-eq-ok (replace w1 33 e) _ h2 in
    let (b1, s1) = replace-eq-ok w 0 (byte1 walk_continue) e1 in
    let (b2, s2) = replace-eq-ok w1 33 e e2 in
    let (b3, s3) = replace-eq-ok w2 65 (be2 d) h3 in
    let size1 = length-splice w 0 (byte1 walk_continue) in
    let size2 = length-splice w1 33 e in
    (
      omega (arith, ap length s1, ap length s2),
      (==_iff (length e) 32).0 t,
      s3 ∙ ap (λ t. splice t 65 (be2 d)) (s2 ∙ ap (λ t. splice t 33 e) s1),
    )

module _ (w : Bytes) {w' : Bytes} where
  pub terminal-Keeps : (s : ℕ) → w_with_terminal w s ≡ ok w' → Keeps w w'
  unfolding w_with_terminal
  terminal-Keeps s h = let (b, e) = replace-eq-ok w 0 (byte1 s) h in rw e (status-Keeps w s)

  -- A terminal state has its status, and keeps the depth.
  pub terminal_status :
      (s : ℕ)
      → s < 256
      → w_with_terminal w s ≡ ok w'
      → (w_status w' ≡ ok s) × (slice w' 65 2 ≡ slice w 65 2) × (slice w' 33 32 ≡ slice w 33 32)
  unfolding w_with_terminal w_status
  terminal_status s small h =
      let (b, e) = replace-eq-ok w 0 (byte1 s) h in
      rw e (
        getbyte-splice_front w s (omega arith) ∙ ap ok (omega arith),
        slice-splice_after w 0 65 2 (byte1 s) (omega arith),
        slice-splice_after w 0 33 32 (byte1 s) (omega arith),
      )

  -- After an inline hop: the depth is the new one, the status is `walk_continue`, the expected hash
  -- and the constants are kept.
  pub depth_only_lem :
      (d : ℕ)
      → w_with_continue_depth_only w d ≡ ok w'
      → Keeps w w'
        × (slice w' 65 2 ≡ be2 d)
        × (w_status w' ≡ ok walk_continue)
        × (slice w' 33 32 ≡ slice w 33 32)
  unfolding w_status
  depth_only_lem d h =
      let (b, e) = depth_only_splices w d h in
      let w1 : Bytes = splice w 0 (byte1 walk_continue) in
      rw e (
        Keeps-trans (status-Keeps w walk_continue) (depth-Keeps w1 d),
        slice-splice_self w1 65 2 (be2 d) refl
            (omega (arith, length-splice w 0 (byte1 walk_continue))),
        getbyte-splice_later w1 64 (be2 d) ∙ getbyte-splice_front w walk_continue (omega arith),
        slice-splice_before w1 65 33 32 (be2 d) (omega arith)
            ∙ slice-splice_after w 0 33 32 (byte1 walk_continue) (omega arith),
      )

  -- After a hop to a new node: also the expected hash is the new one.
  pub continue_lem :
      (e : Bytes) (d : ℕ)
      → w_with_continue w e d ≡ ok w'
      → Keeps w w'
        × (slice w' 65 2 ≡ be2 d)
        × (w_status w' ≡ ok walk_continue)
        × (slice w' 33 32 ≡ e)
  unfolding w_status
  continue_lem e d h =
      let (b, le, eq) = continue_splices w e d h in
      let w1 : Bytes = splice w 0 (byte1 walk_continue) in
      let w2 : Bytes = splice w1 33 e in
      let size1 : length w1 ≡ length w = length-splice w 0 (byte1 walk_continue) in
      let size2 : length w2 ≡ length w1 = length-splice w1 33 e in
      rw eq (
        Keeps-trans (status-Keeps w walk_continue)
            (Keeps-trans (expected-Keeps w1 e le) (depth-Keeps w2 d)),
        slice-splice_self w2 65 2 (be2 d) refl (omega arith),
        getbyte-splice_later w2 64 (be2 d)
            ∙ getbyte-splice_later w1 32 e
            ∙ getbyte-splice_front w walk_continue (omega arith),
        slice-splice_before w2 65 33 32 (be2 d) (omega arith)
            ∙ slice-splice_self w1 33 32 e le (omega arith),
      )
