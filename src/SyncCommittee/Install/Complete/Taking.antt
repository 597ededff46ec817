-- ===== src/SyncCommittee/Install/Complete/Taking.antt =====
-- A session takes the members that it is given (contracts/sync_committee/install.py).
use eth_avm_light_client.Prelude.{
  ℕ, zero, suc, ◌+◌, ◌*◌, ◌/◌, ◌%◌, ◌≤◌, ◌<◌, ◌≡◌, ◌≢◌, refl, sym, ap, ap₂, subst, ◌∙◌, ◌⊎◌, inl,
  inr, some, arith, length, ◌==◌, if◌then◌else◌,
}
use mathlib.Core.Path.{fun_ext}
use eth_avm_light_client.Prelude.Slices.{slice, splice, length-splice}
use eth_avm_light_client.Avm.{Bytes, ok, ◌>>=◌, u64, Hashes, replace}
use eth_avm_light_client.Avm.Store.{
  Store, put, put-same, put-other, value_or_panic, box_replace, box_replace-other,
}
use eth_avm_light_client.Bls.Curve.{Curve}
use eth_avm_light_client.Bls.Codec.{g1_bind}
use eth_avm_light_client.Ssz.Merkleize.{merkleize_stack_push}
use eth_avm_light_client.Ssz.Merkleize.Push.{merkleize_stack_push-Pushed}
use eth_avm_light_client.SyncCommittee.Bitfield.{key_box_name}
use eth_avm_light_client.SyncCommittee.Install.{
  Session, key_leaf, session_box_name, install_member, install_members,
}
use eth_avm_light_client.SyncCommittee.Install.Names.{key_box_name-session}
use eth_avm_light_client.SyncCommittee.Install.Filling.{
  Members, member-Members, with_key, bind_size, key_box_name-apart_index,
}

pub small : (n : ℕ) → n ≤ 512 → u64 n ≡ ok n
small n lo = ground arith

-- A byte string that is written where there is room.
pub box_replace_total :
    (name : Bytes) (i : ℕ) (c b : Bytes) (store : Store)
    → store name ≡ some b
    → i + length c ≤ length b
    → box_replace name i c store ≡ ok (put name (splice b i c) store)
box_replace_total name i c b store there fits =
    ap (λ o. value_or_panic o >>= λ x. replace x i c >>= λ y. ok (put name y store)) there
    ∙ ap (λ r. r >>= λ y. ok (put name y store)) (replaced b i c fits)
  where
    replaced :
        (b : Bytes) (i : ℕ) (c : Bytes)
        → i + length c ≤ length b
        → replace b i c ≡ ok (splice b i c)
    replaced b i c fits = ground arith

-- The boxes of the keys of a generation are there, at their full size.
unfoldable pub KeyBoxes : ℕ → Store → Type 0
KeyBoxes gen boxes =
    (j : ℕ) → j < 8 → (b : Bytes) × (boxes (key_box_name gen j) ≡ some b) × (length b ≡ 6144)

module _ (h : Hashes) (c : Curve) (gen : ℕ) (comps keys sums : ℕ → Bytes)
    (binds : (i : ℕ) → i < 512 → g1_bind c (keys i) (comps i) ≡ ok tt)
    (adds : (i : ℕ) → i < 512 → c.g1_add (sums i) (keys i) ≡ ok (sums (i + 1))) where
  same_keys : (n : ℕ) → with_key h c gen comps n (comps n) ≡ comps
  unfolding with_key
  same_keys n = fun_ext (λ i. pick i)
    where
      pick : (i : ℕ) → (if i == n then comps n else comps i) ≡ comps i
      pick i = ground arith

  -- What a session is after `n` members.
  pub record Loaded (n : ℕ) (session : Session) (boxes : Store) : Type 0 where
    pub members : Members h c gen comps n session boxes
    pub sum : session.running_sum ≡ sums n
    pub room : KeyBoxes gen boxes

  pub record Taken (n : ℕ) (session : Session) (boxes : Store) : Type 0 where
    pub after : Session
    pub boxes' : Store
    pub taken : install_member h c gen n (comps n) (keys n) session boxes ≡ ok (after, boxes')
    pub loaded : Loaded (n + 1) after boxes'
    pub untouched : boxes' (session_box_name gen) ≡ boxes (session_box_name gen)

  KeyBoxes-put :
      (n : ℕ) (b : Bytes) (boxes : Store)
      → n < 8
      → length b ≡ 6144
      → KeyBoxes gen boxes
      → KeyBoxes gen (put (key_box_name gen n) b boxes)
  unfolding KeyBoxes
  KeyBoxes-put n b boxes small size room j lo = elim (same_or j n) [
    | inl e ↦ (
      b,
      ap (λ k. put (key_box_name gen n) b boxes (key_box_name gen k)) e
          ∙ put-same (key_box_name gen n) b boxes,
      size,
    )
    | inr ne ↦
        let (b', there, size') = room j lo in
        (
          b',
          put-other (key_box_name gen n) b boxes (key_box_name gen j)
                (key_box_name-apart_index gen j n (omega arith) (omega arith) (apart j n ne))
              ∙ there,
          size',
        )
  ]
    where
      same_or : (j n : ℕ) → (j ≡ n) ⊎ ((j < n) ⊎ (n < j))
      same_or j n = ground arith

      apart : (j n : ℕ) → (j < n) ⊎ (n < j) → j ≢ n
      apart j n (inl a) e = absurd (omega arith)
      apart j n (inr a) e = absurd (omega arith)

  member-Taken :
      (n : ℕ) (session : Session) (boxes : Store)
      → n < 512
      → Loaded n session boxes
      → Taken n session boxes
  unfolding install_member key_leaf KeyBoxes
  member-Taken n session boxes lo l =
      let m = l.members in
      let (b, there, size) = l.room (n / 64) (omega arith) in
      let wide : length (keys n) ≡ 96 = bind_size h c gen (keys n) (comps n) (binds n lo) in
      let name : Bytes = key_box_name gen (n / 64) in
      let stored : Store = put name (splice b (n % 64 * 96) (keys n)) boxes in
      let written : box_replace name (n % 64 * 96) (keys n) boxes ≡ ok stored =
        box_replace_total name (n % 64 * 96) (keys n) b boxes there (omega arith) in
      let d =
        merkleize_stack_push-Pushed h (λ i. key_leaf h (comps i)) n 9 session.stack
          (λ j. h.length-sha256 _) m.stack (omega arith) (omega arith)
          (omega (arith, m.stack_size)) in
      let pushes : merkleize_stack_push h session.stack session.filled (key_leaf h (comps n))
          ≡ ok (d.after, n + 1) =
        ap (λ x. merkleize_stack_push h session.stack x (key_leaf h (comps n))) m.filled
        ∙ d.pushes in
      let added : c.g1_add session.running_sum (keys n) ≡ ok (sums (n + 1)) =
        ap (λ x. c.g1_add x (keys n)) l.sum ∙ adds n lo in
      let after : Session = record {
        stack = d.after;
        filled = n + 1;
        running_sum = sums (n + 1);
      } in
      let all : install_member h c gen n (comps n) (keys n) session boxes ≡ ok (after, stored) =
        rw (binds n lo, written, pushes, added) refl in
      record {
        after = after;
        boxes' = stored;
        taken = all;
        loaded = record {
          members =
              subst (λ f. Members h c gen f (n + 1) after stored) (same_keys n)
                (member-Members h c gen comps n (comps n) (keys n) session boxes lo m all);
          sum = refl;
          room =
              KeyBoxes-put (n / 64) (splice b (n % 64 * 96) (keys n)) boxes (omega arith)
                (length-splice b (n % 64 * 96) (keys n) ∙ size) l.room;
        };
        untouched =
            box_replace-other name (n % 64 * 96) (keys n) boxes (session_box_name gen)
              (λ e. key_box_name-session gen gen (n / 64) (sym e)) written;
      }

  pub record AllTaken (k m cursor : ℕ) (comp_blob key_blob : Bytes) (session : Session)
      (boxes : Store) : Type 0 where
    pub after : Session
    pub boxes' : Store
    pub taken :
        install_members h c k m gen cursor comp_blob key_blob session boxes ≡ ok (after, boxes')
    pub loaded : Loaded (cursor + m + k) after boxes'
    pub untouched : boxes' (session_box_name gen) ≡ boxes (session_box_name gen)

  pub members_taken :
      (k m cursor : ℕ) (comp_blob key_blob : Bytes) (session : Session) (boxes : Store)
      → cursor + m + k ≤ 512
      → ((i : ℕ) → i < m + k → slice comp_blob (i * 48) 48 ≡ comps (cursor + i))
      → ((i : ℕ) → i < m + k → slice key_blob (i * 96) 96 ≡ keys (cursor + i))
      → Loaded (cursor + m) session boxes
      → AllTaken k m cursor comp_blob key_blob session boxes
  unfolding install_members
  members_taken zero m cursor comp_blob key_blob session boxes fits cs ks l =
      let z : cursor + m ≡ cursor + m + 0 = omega arith in
      record {
        after = session;
        boxes' = boxes;
        taken = refl;
        loaded = subst (λ n. Loaded n session boxes) z l;
        untouched = refl;
      }
  members_taken (suc k) m cursor comp_blob key_blob session boxes fits cs ks l =
      let one = member-Taken (cursor + m) session boxes (omega arith) l in
      let up : cursor + m + 1 ≡ cursor + (m + 1) = omega arith in
      let end : cursor + (m + 1) + k ≡ cursor + m + suc k = omega arith in
      let rest =
        members_taken k (m + 1) cursor comp_blob key_blob one.after one.boxes' (omega arith)
          (λ i lo. cs i (omega arith)) (λ i lo. ks i (omega arith))
          (subst (λ n. Loaded n one.after one.boxes') up one.loaded) in
      let first : install_member h c gen (cursor + m) (slice comp_blob (m * 48) 48)
            (slice key_blob (m * 96) 96) session boxes
          ≡ ok (one.after, one.boxes') =
        ap₂ (λ x y. install_member h c gen (cursor + m) x y session boxes) (cs m (omega arith))
          (ks m (omega arith))
        ∙ one.taken in
      record {
        after = rest.after;
        boxes' = rest.boxes';
        taken = rw first rest.taken;
        loaded = subst (λ n. Loaded n rest.after rest.boxes') end rest.loaded;
        untouched = rest.untouched ∙ one.untouched;
      }
