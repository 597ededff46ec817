-- ===== src/SyncCommittee/Install/Committee/Held.antt =====
-- What the boxes of a session hold after the first members (contracts/sync_committee/install.py).
use eth_avm_light_client.Prelude.{
  [], ℕ, ◌+◌, ◌*◌, ◌/◌, ◌%◌, ◌^◌, ◌≤◌, ◌<◌, ◌≡◌, refl, sym, ap, ap₂, subst, ◌∙◌, arith, length, leb,
  ◌==◌, ◌++◌, if◌then◌else◌, leb→le, ltb, length-append, none,
}
use eth_avm_light_client.Prelude.Slices.{
  slice, slice-middle, slice-append_skip, slice-append_within, slice_all,
}
use eth_avm_light_client.Avm.{Bytes, ok, ◌>>=◌, u64, btoi, itob, bzero, Hashes}
use eth_avm_light_client.Avm.Words.{btoi-itob, length-be}
use eth_avm_light_client.Avm.Results.{assert-eq-ok, >>=-eq-ok, ok_inj, u64-eq-ok}
use eth_avm_light_client.Avm.Store.{
  Store, box_create_new, box_extract-put, box_replace, box_replace-other,
}
use eth_avm_light_client.Avm.Store.Ranges.{box_extract-same, box_extract-replace_self}
use eth_avm_light_client.Bls.Curve.{Curve}
use eth_avm_light_client.Ssz.Powers.{div_small_pow, pow_pos}
use eth_avm_light_client.SyncCommittee.Bitfield.{key_box_name}
use eth_avm_light_client.SyncCommittee.Install.{
  Session, session_box_name, read_session, parse_session, install_members, install_process_chunk,
  install_open_session_box,
}
use eth_avm_light_client.SyncCommittee.Install.Names.{key_box_name-session}
use eth_avm_light_client.SyncCommittee.Install.Filling.{Filled, install_members-Filled}

pub padded : (ℕ → Bytes) → ℕ → Bytes
padded leaf i = if ltb i 512 then leaf i else bzero 32

pub padded_front : (leaf : ℕ → Bytes) (i : ℕ) → i < 512 → padded leaf i ≡ leaf i
unfolding padded
padded_front leaf i lo = ground arith

pub padded_past : (leaf : ℕ → Bytes) (i : ℕ) → 512 ≤ i → padded leaf i ≡ bzero 32
unfolding padded
padded_past leaf i lo = ground arith

module _ (h : Hashes) (c : Curve) (gen : ℕ) where
  -- The session box of the generation stands for the first `n` members.
  pub record Holds (n : ℕ) (boxes : Store) : Type 0 where
    pub session : Session
    pub read : read_session gen boxes ≡ ok session
    pub filled : Filled h c gen n session boxes

  -- Only the boxes of the generation's keys matter.
  pub Filled-boxes :
      (n : ℕ) (session : Session) (boxes boxes' : Store)
      → ((j : ℕ) → boxes' (key_box_name gen j) ≡ boxes (key_box_name gen j))
      → Filled h c gen n session boxes
      → Filled h c gen n session boxes'
  unfolding Filled
  Filled-boxes n session boxes boxes' same (comps, m) = (
    comps,
    record {
      filled = m.filled;
      stack_size = m.stack_size;
      sum_size = m.sum_size;
      stack = m.stack;
      bound = λ i lo.
          let (k, there, tied) = m.bound i lo in
          (
            k,
            box_extract-same (key_box_name gen (i / 64)) (i % 64 * 96) 96 boxes boxes'
                  (same (i / 64))
                ∙ there,
            tied,
          );
    },
  )

  pub Holds-boxes :
      (n : ℕ) (boxes boxes' : Store)
      → ((j : ℕ) → boxes' (key_box_name gen j) ≡ boxes (key_box_name gen j))
      → boxes' (session_box_name gen) ≡ boxes (session_box_name gen)
      → Holds n boxes
      → Holds n boxes'
  unfolding read_session
  Holds-boxes n boxes boxes' keys sess m = record {
    session = m.session;
    read =
        ap (λ r. r >>= parse_session)
          (box_extract-same (session_box_name gen) 0 424 boxes boxes' sess)
        ∙ m.read;
    filled = Filled-boxes n m.session boxes boxes' keys m.filled;
  }

  unfoldable pub packed : Session → Bytes
  packed s = s.stack ++ (itob s.filled ++ s.running_sum)

  -- A session is read back from its bytes.
  pub parse_session-packed :
      (s : Session)
      → length s.stack ≡ 320
      → s.filled < 2 ^ 64
      → length s.running_sum ≡ 96
      → parse_session (packed s) ≡ ok s
  unfolding parse_session packed
  parse_session-packed s stack small sum =
      let word : length (itob s.filled) ≡ 8 = length-be 8 s.filled in
      let p : Bytes = s.stack ++ (itob s.filled ++ s.running_sum) in
      let front : slice p 0 320 ≡ s.stack =
        slice-append_within s.stack (itob s.filled ++ s.running_sum) 0 320 (omega arith)
        ∙ slice_all s.stack 320 (omega arith) in
      let mid : slice p 320 8 ≡ itob s.filled =
        slice-middle s.stack (itob s.filled) s.running_sum 320 8 stack word in
      let at : 328 ≡ length s.stack + (length (itob s.filled) + 0) = omega arith in
      let back : slice p 328 96 ≡ s.running_sum =
        ap (λ i. slice p i 96) at
        ∙ slice-append_skip s.stack (itob s.filled ++ s.running_sum) (length (itob s.filled) + 0) 96
        ∙ slice-append_skip (itob s.filled) s.running_sum 0 96
        ∙ slice_all s.running_sum 96 (omega arith) in
      ap
        (λ r. r >>= λ f.
          ok (record { stack = slice p 0 320; filled = f; running_sum = slice p 328 96 }))
        (ap btoi mid ∙ btoi-itob s.filled small)
      ∙ ap₂ (λ a b. ok (record { stack = a; filled = s.filled; running_sum = b })) front back

  pub length-packed :
      (s : Session) → length s.stack ≡ 320 → length s.running_sum ≡ 96 → length (packed s) ≡ 424
  unfolding packed
  length-packed s stack sum =
      length-append s.stack (itob s.filled ++ s.running_sum)
      ∙ omega (arith, length-append (itob s.filled) s.running_sum, length-be 8 s.filled)

  -- A session with at most 512 members is read back after it is written.
  written-Holds :
      (n : ℕ) (s : Session) (boxes : Store) {boxes' : Store}
      → n ≤ 512
      → Filled h c gen n s boxes
      → box_replace (session_box_name gen) 0 (packed s) boxes ≡ ok boxes'
      → Holds n boxes'
  unfolding read_session Filled
  written-Holds n s boxes {boxes'} full (comps, m) r =
      let len = length-packed s m.stack_size m.sum_size in
      record {
        session = s;
        read =
            ap (λ x. x >>= parse_session)
              (box_extract-replace_self (session_box_name gen) 0 424 (packed s) boxes len r)
            ∙ parse_session-packed s m.stack_size (omega (arith, m.filled)) m.sum_size;
        filled =
            Filled-boxes n s boxes boxes'
              (λ j.
                box_replace-other (session_box_name gen) 0 (packed s) boxes (key_box_name gen j)
                  (key_box_name-session gen gen j) r)
              (comps, m);
      }

  pub chunk-Holds :
      (cursor : ℕ) (comps uncomps : Bytes) (boxes : Store) {end : ℕ} {boxes' : Store}
      → Holds cursor boxes
      → install_process_chunk h c gen cursor comps uncomps boxes ≡ ok (end, boxes')
      → Holds end boxes'
  unfolding install_process_chunk packed
  chunk-Holds cursor comps uncomps boxes {boxes' = boxes'} m e =
      let k : ℕ = length comps / 48 in
      let (_, e1) =
        assert-eq-ok (length comps % 48 == 0) "compressed blob not a multiple of 48" _ e in
      let (_, e2) =
        assert-eq-ok (length uncomps == k * 96) "uncompressed blob length mismatch" _ e1 in
      let (end, u, e3) = >>=-eq-ok (u64 (cursor + k)) _ e2 in
      let (room, e4) = assert-eq-ok (leb end 512) "chunk would overflow the committee" _ e3 in
      let (session, rd, e5) = >>=-eq-ok (read_session gen boxes) _ e4 in
      let ((s1, b1), all, e6) =
        >>=-eq-ok (install_members h c k 0 gen cursor comps uncomps session boxes) _ e5 in
      let (b2, r, e7) = >>=-eq-ok (box_replace (session_box_name gen) 0 (packed s1) b1) _ e6 in
      let (sum, _) = u64-eq-ok (cursor + k) u in
      let here : m.session ≡ session = ok_inj (sym m.read ∙ rd) in
      let z : cursor ≡ cursor + 0 = omega arith in
      let top : cursor + 0 + k ≡ end = omega arith in
      let full : end ≤ 512 = leb→le end 512 room in
      let f1 =
        subst (λ n. Filled h c gen n s1 b1) top
          (install_members-Filled h c gen k 0 cursor comps uncomps session boxes (omega arith)
            (subst (λ n. Filled h c gen n session boxes) z
              (subst (λ s. Filled h c gen cursor s boxes) here m.filled))
            all) in
      let q = ok_inj e7 in subst (λ x. Holds x.0 x.1) q (written-Holds end s1 b1 full f1 r)

  -- A session box that is new stands for no member.
  pub opened-Holds :
      (boxes : Store) {boxes' : Store}
      → boxes (session_box_name gen) ≡ none
      → install_open_session_box gen boxes ≡ ok boxes'
      → Holds 0 boxes'
  unfolding install_open_session_box read_session Filled parse_session
  opened-Holds boxes fresh e =
      let q = ok_inj (sym (box_create_new (session_box_name gen) 424 boxes fresh) ∙ e) in
      let s : Session = record { stack = bzero 320; filled = 0; running_sum = bzero 96 } in
      subst (Holds 0) q (record {
        session = s;
        read =
            ap (λ x. x >>= parse_session)
              (box_extract-put (session_box_name gen) (bzero 424) 0 424 boxes);
        filled = (
          λ i. [],
          record {
            filled = refl;
            stack_size = refl;
            sum_size = refl;
            stack = record {
              slot = λ j odd. absurd (omega (arith, div_small_pow 0 j (pow_pos j)));
            };
            bound = λ i lo. absurd (omega arith);
          },
        );
      })
