-- ===== src/SyncCommittee/Install/Filling.antt =====
-- A session of contracts/sync_committee/install.py between its chunks.
use eth_avm_light_client.Prelude.{
  ℕ, zero, suc, ◌+◌, ◌*◌, ◌/◌, ◌%◌, ◌≤◌, ◌<◌, ◌≡◌, ◌≢◌, sym, ap, ap₂, subst, ◌∙◌, ◌⊎◌, inl, inr,
  some, get_elem?, arith, length, ◌==◌, if◌then◌else◌, ==_iff,
}
use eth_avm_light_client.Prelude.Slices.{slice}
use eth_avm_light_client.Avm.{Bytes, Result, ok, Hashes}
use eth_avm_light_client.Avm.Results.{assert-eq-ok, >>=-eq-ok, ok_inj}
use eth_avm_light_client.Avm.Store.{Store, box_extract, box_replace, box_replace-other}
use eth_avm_light_client.Avm.Store.Ranges.{
  box_extract-same, box_extract-replace_self, box_extract-replace_before,
}
use eth_avm_light_client.Bls.Curve.{Curve}
use eth_avm_light_client.Bls.Codec.{g1_bind, g1_is_infinity}
use eth_avm_light_client.Ssz.Merkleize.{merkleize_stack_push}
use eth_avm_light_client.Ssz.Merkleize.Push.{Accumulated, merkleize_stack_push-Pushed}
use eth_avm_light_client.Ssz.Merkleize.Change.{Accumulated-cong}
use eth_avm_light_client.SyncCommittee.Bitfield.{key_box_name}
use eth_avm_light_client.SyncCommittee.Install.{Session, key_leaf, install_member, install_members}

pub key_box_name-apart_index :
    (g i j : ℕ) → i < 256 → j < 256 → i ≢ j → key_box_name g i ≢ key_box_name g j
unfolding key_box_name
key_box_name-apart_index g i j li lj ne e =
    ne (let q : i % 256 ≡ j % 256 = some_inj (ap (λ b. get_elem? b 10) e) in omega arith)
  where
    some_inj : {a b : ℕ} → some a ≡ some b → a ≡ b
    some_inj e = cc

-- The key of member `i` that the boxes of a generation hold.
abbrev pub key_at : ℕ → ℕ → Store → Result Bytes
key_at gen i boxes = box_extract (key_box_name gen (i / 64)) (i % 64 * 96) 96 boxes

-- The first `n` members: their keys are in the boxes, bound to the compressed keys `comps`, whose
-- leaves the session has pushed.
pub record Members (h : Hashes) (c : Curve) (gen : ℕ) (comps : ℕ → Bytes) (n : ℕ)
    (session : Session) (boxes : Store) : Type 0 where
  pub filled : session.filled ≡ n
  pub stack_size : length session.stack ≡ 320
  pub sum_size : length session.running_sum ≡ 96
  pub stack : Accumulated h (λ i. key_leaf h (comps i)) n session.stack
  pub bound :
      (i : ℕ)
      → i < n
      → (key : Bytes) × (key_at gen i boxes ≡ ok key) × (g1_bind c key (comps i) ≡ ok tt)

module _ (h : Hashes) (c : Curve) (gen : ℕ) where
  -- The compressed keys with one more.
  unfoldable pub with_key : (ℕ → Bytes) → ℕ → Bytes → ℕ → Bytes
  with_key comps n comp i = if i == n then comp else comps i

  pub with_key-old :
      (comps : ℕ → Bytes) (n : ℕ) (comp : Bytes) (i : ℕ) → i < n → with_key comps n comp i ≡ comps i
  unfolding with_key
  with_key-old comps n comp i lo = ground arith

  pub with_key-new : (comps : ℕ → Bytes) (n : ℕ) (comp : Bytes) → with_key comps n comp n ≡ comp
  unfolding with_key
  with_key-new comps n comp = ground arith

  pub bind_size : (key comp : Bytes) → g1_bind c key comp ≡ ok tt → length key ≡ 96
  unfolding g1_bind g1_is_infinity
  bind_size key comp e =
      let (infinite, f, _) = >>=-eq-ok (g1_is_infinity key) _ e in
      let (t, _) = assert-eq-ok (length key == 96) "" _ f in (==_iff (length key) 96).0 t

  -- A key stays where it is when a later one is written.
  old_key :
      (i n : ℕ) (key : Bytes) (boxes : Store) {old : Bytes} {boxes' : Store}
      → n < 512
      → i < n
      → key_at gen i boxes ≡ ok old
      → box_replace (key_box_name gen (n / 64)) (n % 64 * 96) key boxes ≡ ok boxes'
      → key_at gen i boxes' ≡ ok old
  old_key i n key boxes {old} {boxes'} room lo there put_in = elim (same_box i n) [
    | inl same ↦
        let e : i / 64 ≡ n / 64 = same in
        ap (λ j. box_extract (key_box_name gen j) (i % 64 * 96) 96 boxes') e
        ∙ box_extract-replace_before (key_box_name gen (n / 64)) (n % 64 * 96) (i % 64 * 96) 96 key
            boxes (omega arith)
            (ap (λ j. box_extract (key_box_name gen j) (i % 64 * 96) 96 boxes) (sym e) ∙ there)
            put_in
    | inr other ↦
        box_extract-same (key_box_name gen (i / 64)) (i % 64 * 96) 96 boxes boxes' (
          box_replace-other (key_box_name gen (n / 64)) (n % 64 * 96) key boxes
            (key_box_name gen (i / 64))
            (key_box_name-apart_index gen (i / 64) (n / 64) (omega arith) (omega arith)
              (λ e. absurd (omega arith)))
            put_in)
        ∙ there
  ]
    where
      same_box : (i n : ℕ) → (i / 64 ≡ n / 64) ⊎ ((i / 64 < n / 64) ⊎ (n / 64 < i / 64))
      same_box i n = ground arith

  pub member-Members :
      (comps : ℕ → Bytes) (n : ℕ) (comp key : Bytes) (session : Session) (boxes : Store)
      {session' : Session} {boxes' : Store}
      → n < 512
      → Members h c gen comps n session boxes
      → install_member h c gen n comp key session boxes ≡ ok (session', boxes')
      → Members h c gen (with_key comps n comp) (n + 1) session' boxes'
  unfolding install_member key_leaf
  member-Members comps n comp key session boxes {session'} {boxes'} room m e =
      let (_, b, e1) = >>=-eq-ok (g1_bind c key comp) _ e in
      let (stored, r, e2) =
        >>=-eq-ok (box_replace (key_box_name gen (n / 64)) (n % 64 * 96) key boxes) _ e1 in
      let ((stack', filled'), p, e3) =
        >>=-eq-ok (merkleize_stack_push h session.stack session.filled (key_leaf h comp)) _ e2 in
      let (sum', a, e4) = >>=-eq-ok (c.g1_add session.running_sum key) _ e3 in
      let f : ℕ → Bytes = λ i. key_leaf h (with_key comps n comp i) in
      let before : Accumulated h f n session.stack =
        Accumulated-cong h (λ i. key_leaf h (comps i)) f n session.stack
          (λ i lo. ap (key_leaf h) (sym (with_key-old comps n comp i lo))) m.stack in
      let d =
        merkleize_stack_push-Pushed h f n 9 session.stack (λ j. h.length-sha256 _) before
          (omega arith) (omega arith) (omega (arith, m.stack_size)) in
      let leaf : f n ≡ key_leaf h comp = ap (key_leaf h) (with_key-new comps n comp) in
      let pushed = ok_inj (
        sym d.pushes
        ∙ ap₂ (λ x y. merkleize_stack_push h session.stack x y) (sym m.filled) leaf
        ∙ p) in
      let q = ok_inj e4 in
      subst (λ x. Members h c gen (with_key comps n comp) (n + 1) x.0 x.1) q
        (record {
          filled = sym (ap (λ x. x.1) pushed);
          stack_size = ap length (sym (ap (λ x. x.0) pushed)) ∙ d.size ∙ m.stack_size;
          sum_size = c.length-g1_add session.running_sum key a;
          stack = subst (Accumulated h f (n + 1)) (ap (λ x. x.0) pushed) d.stack;
          bound = λ i lo. elim (last i n lo) [
            | inl before ↦
                let (k, there, tied) = m.bound i before in
                (
                  k,
                  old_key i n key boxes room before there r,
                  ap (g1_bind c k) (with_key-old comps n comp i before) ∙ tied,
                )
            | inr now ↦ (
              key,
              ap (λ j. key_at gen j stored) now
                  ∙ box_extract-replace_self (key_box_name gen (n / 64)) (n % 64 * 96) 96 key boxes
                      (bind_size key comp b) r,
              ap (g1_bind c key) (ap (with_key comps n comp) now ∙ with_key-new comps n comp) ∙ b,
            )
          ];
        })
    where
      last : (i n : ℕ) → i < n + 1 → (i < n) ⊎ (i ≡ n)
      last i n lo = ground arith

  -- Members that some compressed keys fit.
  unfoldable pub Filled : ℕ → Session → Store → Type 0
  Filled n session boxes = (comps : ℕ → Bytes) × Members h c gen comps n session boxes

  -- A chunk's loop adds its members to those that are there.
  pub install_members-Filled :
      (k m cursor : ℕ) (comps uncomps : Bytes) (session : Session) (boxes : Store)
      {session' : Session} {boxes' : Store}
      → cursor + m + k ≤ 512
      → Filled (cursor + m) session boxes
      → install_members h c k m gen cursor comps uncomps session boxes ≡ ok (session', boxes')
      → Filled (cursor + m + k) session' boxes'
  unfolding install_members Filled
  install_members-Filled zero m cursor comps uncomps session boxes {session'} {boxes'} room
        (keys, f) e =
      let q = ok_inj e in
      let z : cursor + m ≡ cursor + m + 0 = omega arith in
      (
        keys,
        subst (λ n. Members h c gen keys n session' boxes') z
            (subst (λ x. Members h c gen keys (cursor + m) x.0 x.1) q f),
      )
  install_members-Filled (suc k) m cursor comps uncomps session boxes {session'} {boxes'} room
        (keys, f) e =
      let comp : Bytes = slice comps (m * 48) 48 in
      let ((s1, b1), one, e1) =
        >>=-eq-ok
          (install_member h c gen (cursor + m) comp (slice uncomps (m * 96) 96) session boxes) _
          e in
      let f1 =
        member-Members keys (cursor + m) comp (slice uncomps (m * 96) 96) session boxes
          (omega arith) f one in
      let up : cursor + m + 1 ≡ cursor + (m + 1) = omega arith in
      let end : cursor + (m + 1) + k ≡ cursor + m + suc k = omega arith in
      subst (λ n. Filled n session' boxes') end
        (install_members-Filled k (m + 1) cursor comps uncomps s1 b1 (omega arith)
          (
            with_key keys (cursor + m) comp,
            subst (λ n. Members h c gen (with_key keys (cursor + m) comp) n s1 b1) up f1,
          )
          e1)
