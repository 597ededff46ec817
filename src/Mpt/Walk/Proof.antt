-- ===== src/Mpt/Walk/Proof.antt =====
-- A whole proof: the nodes that one call after the other walks, W handed on from each to the next.
use eth_avm_light_client.Prelude.{
  ℕ, ◌+◌, ◌≤◌, ◌<◌, ◌^◌, ◌≡◌, ◌≢◌, refl, sym, ap, ◌∙◌, ◌⊎◌, inl, inr, List, [], ◌∷◌, arith, length,
  Bool-cases, bytes_eq, bytes_eq_sound,
}
use eth_avm_light_client.Prelude.Slices.{slice}
use eth_avm_light_client.Avm.{Bytes, Result, ok, ◌>>=◌, Hashes, Collision}
use eth_avm_light_client.Avm.Results.{>>=-eq-ok, ok_inj}
use eth_avm_light_client.Mpt.State.{w_len, w_status, w_depth, w_key_nibs, walk_continue}
use eth_avm_light_client.Mpt.Walk.{mpt_walk_node}
use eth_avm_light_client.Mpt.Walk.Progress.{
  Walked, walk_node-Checked, walk_node-Walked, key_nibs_same,
}

module _ (h : Hashes) where
  -- The state after the nodes, and the value that the last of them found.
  unfoldable pub walk_nodes : List Bytes → Bytes → Bytes → Result (Bytes × Bytes)
  walk_nodes [] w value = ok (w, value)
  walk_nodes (node ∷ nodes) w value = do
    (w', off, len) ← mpt_walk_node h node w
    walk_nodes nodes w' (slice node off len)

  walk_nodes-first :
      (node : Bytes) (nodes : List Bytes) (w value : Bytes) {r : Bytes × Bytes}
      → walk_nodes (node ∷ nodes) w value ≡ ok r
      → (s : Bytes × ℕ × ℕ) × (mpt_walk_node h node w ≡ ok s)
        × (walk_nodes nodes (s.0) (slice node (s.1) (s.2)) ≡ ok r)
  unfolding walk_nodes
  walk_nodes-first node nodes w value e =
      let ((w', off, len), t, e') = >>=-eq-ok (mpt_walk_node h node w) _ e in
      ((w', off, len), t, e')

  walk_nodes-none : (w value : Bytes) → walk_nodes [] w value ≡ ok (w, value)
  unfolding walk_nodes
  walk_nodes-none w value = refl

  -- A list of nodes that is walked with success from a W of its full length, at depth d of a key of
  -- n nibbles with d <= n < 2^16, has at most n - d + 1 nodes.
  pub walk_nodes-length :
      (nodes : List Bytes) (w value : Bytes) {d n : ℕ} {r : Bytes × Bytes}
      → length w ≡ w_len
      → w_depth w ≡ ok d
      → w_key_nibs w ≡ ok n
      → d ≤ n
      → n < 2 ^ 16
      → walk_nodes nodes w value ≡ ok r
      → d + length nodes ≤ n + 1
  walk_nodes-length [] w value full at of le small e = omega arith
  walk_nodes-length (node ∷ nodes) w value {d} {n} {r} full at of le small e =
      let ((w', off, len), t, e') = walk_nodes-first node nodes w value e in
      let walked =
        walk_node-Walked h node w {w' = w'} {off = off} {len = len} full at of le small t in
      let rest =
        walk_nodes-length nodes w' (slice node off len) {d = walked.depth} {n = n} {r = r}
          (walked.keeps.size ∙ full) walked.at
          (key_nibs_same w w' walked.keeps.size walked.keeps.key_nibs ∙ of) walked.inside small
          e' in
      go nodes w' (slice node off len) walked e' rest
    where
      go :
          (nodes : List Bytes) (w' v : Bytes) (walked : Walked w w' d n)
          → walk_nodes nodes w' v ≡ ok r
          → walked.depth + length nodes ≤ n + 1
          → d + length (node ∷ nodes) ≤ n + 1
      go [] w' v walked e' rest = omega arith
      go (next ∷ nodes) w' v walked e' rest =
          let (s, t, _) = walk_nodes-first next nodes w' v e' in
          let going = (walk_node-Checked h next w' t).going in
          let moved = walked.moved (ok_inj (sym walked.has_status ∙ going)) in omega arith

  -- Two lists of nodes that are walked with success from one state W, each to a status that is not
  -- walk_continue, end in the same W with the same value, or two inputs of keccak256 that collide
  -- are given.
  pub walk_nodes_unique :
      (nodes others : List Bytes) (w value : Bytes) {r s : Bytes × Bytes}
      → walk_nodes nodes w value ≡ ok r
      → walk_nodes others w value ≡ ok s
      → w_status (r.0) ≢ ok walk_continue
      → w_status (s.0) ≢ ok walk_continue
      → (r ≡ s) ⊎ Collision (h.keccak256)
  walk_nodes_unique [] [] w value a b p q = inl (ok_inj (sym a ∙ b))
  walk_nodes_unique [] (other ∷ others) w value {r} a b p q =
      let (_, t, _) = walk_nodes-first other others w value b in
      let same : r ≡ (w, value) = ok_inj (sym a ∙ walk_nodes-none w value) in
      absurd (p (ap (λ x. w_status (x.0)) same ∙ (walk_node-Checked h other w t).going))
  walk_nodes_unique (node ∷ nodes) [] w value {r} {s} a b p q =
      let (_, t, _) = walk_nodes-first node nodes w value a in
      let same : s ≡ (w, value) = ok_inj (sym b ∙ walk_nodes-none w value) in
      absurd (q (ap (λ x. w_status (x.0)) same ∙ (walk_node-Checked h node w t).going))
  walk_nodes_unique (node ∷ nodes) (other ∷ others) w value {r} {s} a b p q =
      let ((w1, off, len), t, a') = walk_nodes-first node nodes w value a in
      let ((w2, off', len'), u, b') = walk_nodes-first other others w value b in
      elim (Bool-cases (bytes_eq node other)) [
        | inr differ ↦ inr (record {
          left = node;
          right = other;
          differ = differ;
          same =
              ok_inj
                (sym (walk_node-Checked h node w t).hash ∙ (walk_node-Checked h other w u).hash);
        })
        | inl alike ↦
            let same : node ≡ other = bytes_eq_sound node other alike in
            let step : (w2, off', len') ≡ (w1, off, len) =
              ok_inj (sym u ∙ ap (λ x. mpt_walk_node h x w) (sym same) ∙ t) in
            let next : walk_nodes others w1 (slice node off len) ≡ ok s =
              ap (λ x. walk_nodes others (x.0) (slice node (x.1) (x.2))) (sym step)
              ∙ ap (λ x. walk_nodes others w2 (slice x off' len')) same
              ∙ b' in
            walk_nodes_unique nodes others w1 (slice node off len) {r = r} {s = s} a' next p q
      ]
