-- ===== src/Mpt/Walk/Progress.antt =====
-- The walk inside one supplied node of contracts/mpt/walk.py, hop by hop.
use eth_avm_light_client.Prelude.{
  ℕ, zero, suc, ◌+◌, ◌≤◌, ◌<◌, ◌^◌, ◌≡◌, ◌≢◌, ◌∙◌, sym, ap, inl, inr, true, false, length, arith,
  ◌==◌, leb, Bool-cases, bytes_eq, bytes_eq_sound, ==_iff,
}
use eth_avm_light_client.Prelude.Slices.{slice}
use eth_avm_light_client.Avm.{Bytes, ok, err, out_of_fuel, Hashes, assert, extract_uint16}
use eth_avm_light_client.Avm.Results.{Result-cases, >>=-eq-ok, assert-eq-ok}
use eth_avm_light_client.Avm.Ends.{Ends, Ends-bind, Ends-assert}
use eth_avm_light_client.Mpt.Walk.Ends.{Ends-hop, Ends-w_expected, Ends-w_status}
use eth_avm_light_client.Mpt.State.{
  w_len, w_status, w_depth, w_key_nibs, walk_continue, w_expected, w_with_terminal,
}
use eth_avm_light_client.Mpt.State.Fields.{
  Keeps, Keeps-trans, terminal-Keeps, terminal_status, w_depth-be2,
}
use eth_avm_light_client.Mpt.Walk.{
  Hop, inline_steps_max, hop_inline, mpt_hop, walk_loop, mpt_walk_node,
}
use eth_avm_light_client.Mpt.Walk.Hops.{terminal, deeper, hop-Outcome}

-- A uint16 is read from two bytes of the buffer.
uint16_same :
    (w w' : Bytes) (i : ℕ)
    → length w' ≡ length w
    → slice w' i 2 ≡ slice w i 2
    → extract_uint16 w' i ≡ extract_uint16 w i
uint16_same w w' i size same = rw (size, same)

depth_same :
    (w w' : Bytes) → length w' ≡ length w → slice w' 65 2 ≡ slice w 65 2 → w_depth w' ≡ w_depth w
unfolding w_depth
depth_same w w' = uint16_same w w' 65

pub key_nibs_same :
    (w w' : Bytes)
    → length w' ≡ length w
    → slice w' 67 2 ≡ slice w 67 2
    → w_key_nibs w' ≡ w_key_nibs w
unfolding w_key_nibs
key_nibs_same w w' = uint16_same w w' 67

-- What the walk inside a node leaves: the constants are kept; the walk has ended with a status that
-- is not `walk_continue`, no higher in the key, or it goes on, strictly deeper.
pub record Walked (w w' : Bytes) (d n : ℕ) : Type 0 where
  pub keeps : Keeps w w'
  pub depth : ℕ
  pub at : w_depth w' ≡ ok depth
  pub down : d ≤ depth
  pub inside : depth ≤ n
  pub status : ℕ
  pub has_status : w_status w' ≡ ok status
  pub moved : status ≡ walk_continue → d < depth

module _ {w w' : Bytes} {d n : ℕ} (full : length w ≡ w_len) (at : w_depth w ≡ ok d)
    (le : d ≤ n) where
  Walked-terminal : (s : ℕ) → 1 ≤ s → s < 256 → w_with_terminal w s ≡ ok w' → Walked w w' d n
  Walked-terminal s lo hi e =
      let (status, same, _) = terminal_status w s hi e in
      let keeps = terminal-Keeps w s e in
      record {
        keeps = keeps;
        depth = d;
        at = depth_same w w' keeps.size same ∙ at;
        down = omega arith;
        inside = le;
        status = s;
        has_status = status;
        moved = λ z. absurd (omega arith);
      }

Walked-deeper :
    {w w1 : Bytes} {d d' n : ℕ}
    → d < d'
    → d' ≤ n
    → Keeps w w1
    → w_depth w1 ≡ ok d'
    → w_status w1 ≡ ok walk_continue
    → Walked w w1 d n
Walked-deeper {d' = d'} lo hi keeps at st = record {
  keeps = keeps;
  depth = d';
  at = at;
  down = omega arith;
  inside = hi;
  status = walk_continue;
  has_status = st;
  moved = λ z. lo;
}

Walked-after :
    {w w1 w' : Bytes} {d d' n : ℕ} → Keeps w w1 → d < d' → Walked w1 w' d' n → Walked w w' d n
Walked-after k lo r = record {
  keeps = Keeps-trans k r.keeps;
  depth = r.depth;
  at = r.at;
  down = omega (arith, r.down);
  inside = r.inside;
  status = r.status;
  has_status = r.has_status;
  moved = λ z. omega (arith, r.down);
}

-- A round that succeeds is followed by another one, or by the end of the loop.
walk_loop-inline :
    (fuel : ℕ) (node : Bytes) (start steps : ℕ) (w w1 : Bytes) {kind vo vl child : ℕ}
    {r : Bytes × ℕ × ℕ}
    → mpt_hop node start w ≡ ok (kind, w1, vo, vl, child)
    → (kind == hop_inline) ≡ true
    → walk_loop (suc fuel) node start steps w ≡ ok r
    → walk_loop fuel node child (steps + 1) w1 ≡ ok r
unfolding walk_loop
walk_loop-inline fuel node start steps w w1 e t h = ground arith

walk_loop-last :
    (fuel : ℕ) (node : Bytes) (start steps : ℕ) (w w1 : Bytes) {kind vo vl child : ℕ}
    {r : Bytes × ℕ × ℕ}
    → mpt_hop node start w ≡ ok (kind, w1, vo, vl, child)
    → (kind == hop_inline) ≡ false
    → walk_loop (suc fuel) node start steps w ≡ ok r
    → (w1, vo, vl) ≡ r
unfolding walk_loop
walk_loop-last fuel node start steps w w1 e t h = ground arith

walk_loop-zero :
    (node : Bytes) (start steps : ℕ) (w : Bytes) {r : Bytes × ℕ × ℕ}
    → walk_loop 0 node start steps w ≡ ok r
    → ⊥
unfolding walk_loop
walk_loop-zero node start steps w h = cc

walk_loop-hop :
    (fuel : ℕ) (node : Bytes) (start steps : ℕ) (w : Bytes) {r : Bytes × ℕ × ℕ}
    → walk_loop (suc fuel) node start steps w ≡ ok r
    → (hop : Hop) × (mpt_hop node start w ≡ ok hop)
unfolding walk_loop
walk_loop-hop fuel node start steps w h =
    let (t, h') = assert-eq-ok (leb steps inline_steps_max) "W8" _ h in
    let (hop, e, _) = >>=-eq-ok (mpt_hop node start w) _ h' in (hop, e)

module _ (node : Bytes) (n : ℕ) (small : n < 2 ^ 16) where
  walk_loop-Walked :
      (fuel start steps d : ℕ) (w : Bytes) {w' : Bytes} {off len : ℕ}
      → length w ≡ w_len
      → w_depth w ≡ ok d
      → w_key_nibs w ≡ ok n
      → d ≤ n
      → walk_loop fuel node start steps w ≡ ok (w', off, len)
      → Walked w w' d n
  walk_loop-Walked zero start steps d w full at of le h =
      absurd (walk_loop-zero node start steps w h)
  walk_loop-Walked (suc fuel) start steps d w {w'} {off} {len} full at of le h =
      let ((kind, w1, vo, vl, child), e) = walk_loop-hop fuel node start steps w h in
      elim (hop-Outcome node w at of start e) [
        | terminal k s lo hi t ↦
            let last : (w1, vo, vl) ≡ (w', off, len) =
              walk_loop-last fuel node start steps w w1 e (ground arith) h in
            Walked-terminal full at le s lo hi (t ∙ ap (λ r. ok (r.0)) last)
        | deeper k d' lo hi keeps sl st ↦
            let size : length w1 ≡ w_len = keeps.size ∙ full in
            let at' : w_depth w1 ≡ ok d' = w_depth-be2 w1 size d' sl (omega arith) in
            elim (Bool-cases (kind == hop_inline)) [
              | inl inline ↦ Walked-after keeps (omega arith) (
                  walk_loop-Walked fuel child (steps + 1) d' w1 {w' = w'} {off = off} {len = len}
                    size at' (key_nibs_same w w1 keeps.size keeps.key_nibs ∙ of) hi
                    (walk_loop-inline fuel node start steps w w1 e inline h))
              | inr next ↦
                  let last : (w1, vo, vl) ≡ (w', off, len) =
                    walk_loop-last fuel node start steps w w1 e next h in
                  rw (← ap (λ r. r.0) last) (Walked-deeper lo hi keeps at' st)
            ]
      ]

-- Only a node with the expected hash is walked, and only from a state that goes on.
pub record Checked (h : Hashes) (node w : Bytes) (r : Bytes × ℕ × ℕ) : Type 0 where
  pub hash : w_expected w ≡ ok (h.keccak256 node)
  pub going : w_status w ≡ ok walk_continue
  pub walked : walk_loop 10 node 0 0 w ≡ ok r

pub walk_node-Checked :
    (h : Hashes) (node w : Bytes) {r : Bytes × ℕ × ℕ}
    → mpt_walk_node h node w ≡ ok r
    → Checked h node w r
unfolding mpt_walk_node
walk_node-Checked h node w e =
    let (expected, x, e1) = >>=-eq-ok (w_expected w) _ e in
    let (t1, e2) = assert-eq-ok (bytes_eq (h.keccak256 node) expected) "W11" _ e1 in
    let (status, s, e3) = >>=-eq-ok (w_status w) _ e2 in
    let (t2, e4) = assert-eq-ok (status == walk_continue) "W12" _ e3 in
    record {
      hash = x ∙ ap ok (sym (bytes_eq_sound (h.keccak256 node) expected t1));
      going = s ∙ ap ok ((==_iff status walk_continue).0 t2);
      walked = e4;
    }

-- Walking one node with success from a W of its full length, at depth d of a key of n nibbles with
-- d <= n < 2^16, keeps the length of W, the root, the key and its nibble count, and leaves a depth
-- from d to n that is above d where the status is walk_continue.
pub walk_node-Walked :
    (h : Hashes) (node w : Bytes) {w' : Bytes} {off len d n : ℕ}
    → length w ≡ w_len
    → w_depth w ≡ ok d
    → w_key_nibs w ≡ ok n
    → d ≤ n
    → n < 2 ^ 16
    → mpt_walk_node h node w ≡ ok (w', off, len)
    → Walked w w' d n
walk_node-Walked h node w {d = d} {n = n} full at of le small e =
    walk_loop-Walked node n small 10 0 0 d w full at of le (walk_node-Checked h node w e).walked

walk_loop-fuel :
    (fuel : ℕ) (node : Bytes) (start steps : ℕ) (w : Bytes)
    → 10 ≤ steps + fuel
    → steps ≤ 9
    → walk_loop fuel node start steps w ≢ err out_of_fuel
unfolding walk_loop
walk_loop-fuel zero node start steps w b c h = absurd (omega arith)
walk_loop-fuel (suc fuel) node start steps w b c h = elim (Result-cases (mpt_hop node start w)) [
  | inr (f, e) ↦ ground (arith, (Ends-hop node start w).at)
  | inl ((kind, w1, vo, vl, child), e) ↦
      ground (arith, walk_loop-fuel fuel node child (steps + 1) w1)
]

Ends-walk_node : (h : Hashes) (node w : Bytes) → Ends (mpt_walk_node h node w)
unfolding mpt_walk_node
Ends-walk_node h node w =
    let loop : Ends (walk_loop 10 node 0 0 w) = record {
      at = walk_loop-fuel 10 node 0 0 w (omega arith) (omega arith);
    } in
    Ends-bind (w_expected w) _ (Ends-w_expected w) (λ expected.
      Ends-bind (assert (bytes_eq (h.keccak256 node) expected) "W11") _ (Ends-assert _ _) (λ _.
        Ends-bind (w_status w) _ (Ends-w_status w) (λ status.
          Ends-bind (assert (status == walk_continue) "W12") _ (Ends-assert _ _) (λ _. loop))))

-- The walk inside a node, on any node and W, ends by itself: ten rounds of its loop are always
-- enough.
pub walk_node_total : (h : Hashes) (node w : Bytes) → mpt_walk_node h node w ≢ err out_of_fuel
walk_node_total h node w = (Ends-walk_node h node w).at
