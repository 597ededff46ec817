-- ===== src/SyncCommittee/Install/Complete.antt =====
-- A session that is given the keys of a committee comes to its end
-- (contracts/sync_committee/install.py).
pub mod Taking
use eth_avm_light_client.Prelude.{
  ℕ, zero, suc, ◌+◌, ◌*◌, ◌/◌, ◌%◌, ◌≤◌, ◌<◌, ◌≡◌, ◌≢◌, refl, sym, ap, ap₂, subst, ◌∙◌, ◌⊎◌, inl,
  inr, some, arith, length, le→leb, ◌==◌, ==_refl, ◌++◌, if◌then◌else◌, bytes_eq, bytes_eq_refl,
  true,
}
use mathlib.Core.Path.{fun_ext}
use eth_avm_light_client.Prelude.Slices.{slice, splice, length-splice}
use eth_avm_light_client.Avm.{Bytes, ok, ◌>>=◌, u64, Hashes, replace}
use eth_avm_light_client.Avm.Store.{
  Store, put, put-same, put-other, remove, value_or_panic, box_replace, box_replace-other,
}
use eth_avm_light_client.Avm.Store.Ranges.{box_extract-same, box_extract-replace_self}
use eth_avm_light_client.Bls.Curve.{Curve}
use eth_avm_light_client.Bls.Codec.{g1_bind}
use eth_avm_light_client.Ssz.Branch.Tree.{merkle_node}
use eth_avm_light_client.Ssz.Merkleize.{merkleize_stack_push, merkleize_stack_finalize}
use eth_avm_light_client.Ssz.Merkleize.Push.{merkleize_stack_push-Pushed}
use eth_avm_light_client.SyncCommittee.Bitfield.{key_box_name}
use eth_avm_light_client.SyncCommittee.Install.{
  Session, key_leaf, session_box_name, read_session, parse_session, install_member, install_members,
  install_process_chunk, install_process_finalize,
}
use eth_avm_light_client.SyncCommittee.Install.Committee.Held.{
  packed, parse_session-packed, length-packed,
}
use eth_avm_light_client.SyncCommittee.Install.Committee.{full_root}
use eth_avm_light_client.SyncCommittee.Install.Names.{key_box_name-session}
use eth_avm_light_client.SyncCommittee.Install.Filling.{
  Members, member-Members, with_key, bind_size, key_box_name-apart_index,
}
use eth_avm_light_client.SyncCommittee.Install.Complete.Taking.{
  small, box_replace_total, KeyBoxes, Loaded, members_taken,
}

whole_blob : (n k : ℕ) → n ≡ k * 48 → (n % 48 == 0) ≡ true
whole_blob n k e = let z : n % 48 ≡ 0 = omega arith in ap (λ x. x == 0) z

module _ (h : Hashes) (c : Curve) (gen : ℕ) (comps keys sums : ℕ → Bytes)
    (binds : (i : ℕ) → i < 512 → g1_bind c (keys i) (comps i) ≡ ok tt)
    (adds : (i : ℕ) → i < 512 → c.g1_add (sums i) (keys i) ≡ ok (sums (i + 1))) where
  -- A session box that holds what a session is after `n` members.
  pub record Stored (n : ℕ) (boxes : Store) : Type 0 where
    pub session : Session
    pub bytes : Bytes
    pub there : boxes (session_box_name gen) ≡ some bytes
    pub size : length bytes ≡ 424
    pub read : read_session gen boxes ≡ ok session
    pub loaded : Loaded h c gen comps keys sums binds adds n session boxes

  pub record ChunkTaken (cursor k : ℕ) (comp_blob key_blob : Bytes) (boxes : Store) : Type 0 where
    pub boxes' : Store
    pub taken :
        install_process_chunk h c gen cursor comp_blob key_blob boxes ≡ ok (cursor + k, boxes')
    pub stored : Stored (cursor + k) boxes'

  Loaded-put :
      (n : ℕ) (session : Session) (b : Bytes) (boxes : Store)
      → Loaded h c gen comps keys sums binds adds n session boxes
      → Loaded h c gen comps keys sums binds adds n session (put (session_box_name gen) b boxes)
  unfolding KeyBoxes
  Loaded-put n session b boxes l =
      let keep : (j : ℕ)
          → put (session_box_name gen) b boxes (key_box_name gen j) ≡ boxes (key_box_name gen j) =
        λ j.
          put-other (session_box_name gen) b boxes (key_box_name gen j)
            (key_box_name-session gen gen j) in
      let m = l.members in
      record {
        members = record {
          filled = m.filled;
          stack_size = m.stack_size;
          sum_size = m.sum_size;
          stack = m.stack;
          bound = λ i lo.
              let (k, there, tied) = m.bound i lo in
              (
                k,
                box_extract-same (key_box_name gen (i / 64)) (i % 64 * 96) 96 boxes
                      (put (session_box_name gen) b boxes) (keep (i / 64))
                    ∙ there,
                tied,
              );
        };
        sum = l.sum;
        room = λ j lo. let (x, there, size) = l.room j lo in (x, keep j ∙ there, size);
      }

  -- What a session writes back is what a later call reads.
  put_session-Stored :
      (n : ℕ) (session : Session) (b : Bytes) (boxes : Store)
      → n ≤ 512
      → length b ≡ 424
      → Loaded h c gen comps keys sums binds adds n session boxes
      → box_replace (session_box_name gen) 0 (packed h c gen session) boxes
        ≡ ok (put (session_box_name gen) (splice b 0 (packed h c gen session)) boxes)
      → Stored n (put (session_box_name gen) (splice b 0 (packed h c gen session)) boxes)
  unfolding read_session
  put_session-Stored n session b boxes lo size l written =
      let m = l.members in
      let p : Bytes = packed h c gen session in
      let psize : length p ≡ 424 = length-packed h c gen session m.stack_size m.sum_size in
      let name : Bytes = session_box_name gen in
      record {
        session = session;
        bytes = splice b 0 p;
        there = put-same name (splice b 0 p) boxes;
        size = length-splice b 0 p ∙ size;
        read =
            ap (λ x. x >>= parse_session)
              (box_extract-replace_self name 0 424 p boxes psize written)
            ∙ parse_session-packed h c gen session m.stack_size (let f = m.filled in omega arith)
                m.sum_size;
        loaded = Loaded-put n session (splice b 0 p) boxes l;
      }

  -- Where the session box and the key boxes hold what a session is after cursor members, where the
  -- keys of all 512 members are bound to their compressed forms and the curve gives all their sums,
  -- a chunk of the next k members, cursor + k <= 512, is taken: install_process_chunk returns the
  -- cursor cursor + k and boxes that hold what the session is after that many members.
  pub chunk_taken :
      (cursor k : ℕ) (comp_blob key_blob : Bytes) (boxes : Store)
      → cursor + k ≤ 512
      → length comp_blob ≡ k * 48
      → length key_blob ≡ k * 96
      → ((i : ℕ) → i < k → slice comp_blob (i * 48) 48 ≡ comps (cursor + i))
      → ((i : ℕ) → i < k → slice key_blob (i * 96) 96 ≡ keys (cursor + i))
      → Stored cursor boxes
      → ChunkTaken cursor k comp_blob key_blob boxes
  unfolding install_process_chunk read_session packed
  chunk_taken cursor k comp_blob key_blob boxes fits cl kl cs ks s =
      let z : cursor ≡ cursor + 0 = omega arith in
      let top : cursor + 0 + k ≡ cursor + k = omega arith in
      let all =
        members_taken h c gen comps keys sums binds adds k 0 cursor comp_blob key_blob s.session
          boxes (omega arith) (λ i lo. cs i (omega arith)) (λ i lo. ks i (omega arith))
          (subst (λ n. Loaded h c gen comps keys sums binds adds n s.session boxes) z s.loaded) in
      let l =
        subst (λ n. Loaded h c gen comps keys sums binds adds n all.after all.boxes') top
          all.loaded in
      let m = l.members in
      let p : Bytes = packed h c gen all.after in
      let psize : length p ≡ 424 = length-packed h c gen all.after m.stack_size m.sum_size in
      let name : Bytes = session_box_name gen in
      let last : Store = put name (splice s.bytes 0 p) all.boxes' in
      let written : box_replace name 0 p all.boxes' ≡ ok last =
        box_replace_total name 0 p s.bytes all.boxes' (all.untouched ∙ s.there)
          (let w = s.size in omega arith) in
      let count : length comp_blob / 48 ≡ k = omega arith in
      let whole : (length comp_blob % 48 == 0) ≡ true = whole_blob (length comp_blob) k cl in
      let keys_whole : (length key_blob == k * 96) ≡ true =
        ap (λ n. n == k * 96) kl ∙ ==_refl (k * 96) in
      let end : u64 (cursor + k) ≡ ok (cursor + k) = small (cursor + k) fits in
      record {
        boxes' = last;
        taken =
            rw
              (
                whole,
                count,
                keys_whole,
                end,
                le→leb (cursor + k) 512 fits,
                s.read,
                all.taken,
                written,
              )
              refl;
        stored = put_session-Stored (cursor + k) all.after s.bytes all.boxes' fits s.size l written;
      }

  -- A finalize after 512 members.
  pub finalize_taken :
      (root aggregate : Bytes) (boxes : Store)
      → Stored 512 boxes
      → length root ≡ 32
      → length aggregate ≡ 48
      → g1_bind c (sums 512) aggregate ≡ ok tt
      → h.sha256 (merkle_node h 9 (λ i. key_leaf h (comps i)) 0 ++ key_leaf h aggregate) ≡ root
      → install_process_finalize h c gen 512 root aggregate (sums 512) boxes
        ≡ ok (sums 512, remove (session_box_name gen) boxes)
  unfolding install_process_finalize
  finalize_taken root aggregate boxes s rl al tied folds =
      let m = s.loaded.members in
      let leaf : ℕ → Bytes = λ i. key_leaf h (comps i) in
      let sl : length (sums 512) ≡ 96 = bind_size h c gen (sums 512) aggregate tied in
      let vector : merkleize_stack_finalize h s.session.stack s.session.filled 9
          ≡ ok (merkle_node h 9 leaf 0) =
        ap (λ n. merkleize_stack_finalize h s.session.stack n 9) m.filled
        ∙ full_root h c gen leaf s.session.stack m.stack in
      let sum : s.session.running_sum ≡ sums 512 = s.loaded.sum in
      let same : bytes_eq (sums 512) s.session.running_sum ≡ true =
        ap (bytes_eq (sums 512)) sum ∙ bytes_eq_refl (sums 512) in
      rw
        (
          ap (λ n. n == 32) rl,
          ap (λ n. n == 48) al,
          ap (λ n. n == 96) sl,
          s.read,
          vector,
          ap (λ x. bytes_eq x root) folds ∙ bytes_eq_refl root,
          tied,
          same,
        )
        (ap (λ x. ok (x, remove (session_box_name gen) boxes)) sum)
