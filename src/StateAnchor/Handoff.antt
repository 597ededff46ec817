-- ===== src/StateAnchor/Handoff.antt =====
-- contracts/state_anchor/handoff.py: a consumer takes a record from an earlier call of its group.
-- The consumer's own constant, the id of the anchor application, is a parameter.
use eth_avm_light_client.Prelude.{
  ℕ, ◌%◌, ◌≡◌, sym, ap, ◌∙◌, [], ◌∷◌, true, false, ltb, ◌==◌, ==_iff, length, bytes_eq,
  bytes_eq_sound, some, get_elem?, List, arith,
}
use eth_avm_light_client.Avm.{Bytes, Result, ok, ◌>>=◌, ◌>>◌, assert, getbyte, extract, itob}
use eth_avm_light_client.Avm.Results.{assert-eq-ok, >>=-eq-ok, ok_inj}
use eth_avm_light_client.Avm.Group.{Call, call_or_panic, call_or_panic-eq-ok}
use eth_avm_light_client.StateAnchor.Record.{
  record_len, a_version, a_flags, a_is_revoked, off_version, off_block_number, version_1,
}

-- 0x11e6d2dd and 0x151f7c75
abbrev pub attest_selector : Bytes
attest_selector = 17 ∷ 230 ∷ 210 ∷ 221 ∷ []

abbrev pub arc4_return_prefix : Bytes
arc4_return_prefix = 21 ∷ 31 ∷ 124 ∷ 117 ∷ []

abbrev pub log_len_m8 : ℕ
log_len_m8 = 158

module _ (anchor_app_id : ℕ) where
  -- `group` holds the calls of the group, `group_index` is the consumer's own.
  unfoldable pub anchor_from_group : List Call → ℕ → ℕ → ℕ → Result Bytes
  anchor_from_group group group_index gi want_block_number = do
    assert (ltb gi group_index) "N1"
    prev ← call_or_panic (get_elem? group gi)
    assert (prev.app_id == anchor_app_id) "N2"
    assert (bytes_eq (prev.app_arg_0) attest_selector) "N3"
    assert (length (prev.last_log) == log_len_m8) "N4b"
    prefix ← extract (prev.last_log) 0 4
    assert (bytes_eq prefix arc4_return_prefix) "N4b"
    a ← extract (prev.last_log) 4 record_len
    version ← getbyte a off_version
    assert (version == version_1) "N14"
    flags ← a_flags a
    assert (flags % 2 == 0) "N13"
    number ← extract a off_block_number 8
    assert (bytes_eq number (itob want_block_number)) "N15"
    ok a

  -- What a record that a consumer accepts comes from and says.
  pub record Handed (group : List Call) (group_index gi want : ℕ) (a : Bytes) : Type 0 where
    pub earlier : ltb gi group_index ≡ true
    pub call : Call
    pub from : get_elem? group gi ≡ some call
    pub app : call.app_id ≡ anchor_app_id
    pub selector : call.app_arg_0 ≡ attest_selector
    pub logged : extract call.last_log 4 record_len ≡ ok a
    pub version : a_version a ≡ ok 1
    pub standing : a_is_revoked a ≡ ok false
    pub number : extract a 2 8 ≡ ok (itob want)

  not_odd : (flags : ℕ) → (flags % 2 == 0) ≡ true → (flags % 2 == 1) ≡ false
  not_odd flags t = ground arith

  -- A record that anchor_from_group returns is logged by an earlier call of the group, to the
  -- constant application and by the attest selector; its version is 1, it is not revoked and its
  -- number is the one wanted.
  pub anchor_from_group-Handed :
      (group : List Call) (group_index gi want : ℕ) {a : Bytes}
      → anchor_from_group group group_index gi want ≡ ok a
      → Handed group group_index gi want a
  unfolding anchor_from_group a_version a_is_revoked
  anchor_from_group-Handed group group_index gi want {a} e =
      let (t, e1) = assert-eq-ok (ltb gi group_index) "N1" _ e in
      let (prev, p, e2) = >>=-eq-ok (call_or_panic (get_elem? group gi)) _ e1 in
      let (t2, e3) = assert-eq-ok (prev.app_id == anchor_app_id) "N2" _ e2 in
      let (t3, e4) = assert-eq-ok (bytes_eq prev.app_arg_0 attest_selector) "N3" _ e3 in
      let (_, e5) = assert-eq-ok (length prev.last_log == log_len_m8) "N4b" _ e4 in
      let (prefix, _, e6) = >>=-eq-ok (extract prev.last_log 0 4) _ e5 in
      let (_, e7) = assert-eq-ok (bytes_eq prefix arc4_return_prefix) "N4b" _ e6 in
      let (b, x, e8) = >>=-eq-ok (extract prev.last_log 4 record_len) _ e7 in
      let (version, v, e9) = >>=-eq-ok (getbyte b off_version) _ e8 in
      let (t4, e10) = assert-eq-ok (version == version_1) "N14" _ e9 in
      let (flags, f, e11) = >>=-eq-ok (a_flags b) _ e10 in
      let (t5, e12) = assert-eq-ok (flags % 2 == 0) "N13" _ e11 in
      let (number, n, e13) = >>=-eq-ok (extract b off_block_number 8) _ e12 in
      let (t6, e14) = assert-eq-ok (bytes_eq number (itob want)) "N15" _ e13 in
      let same : b ≡ a = ok_inj e14 in
      record {
        earlier = t;
        call = prev;
        from = call_or_panic-eq-ok (get_elem? group gi) p;
        app = (==_iff prev.app_id anchor_app_id).0 t2;
        selector = bytes_eq_sound prev.app_arg_0 attest_selector t3;
        logged = x ∙ ap ok same;
        version = ap (λ c. getbyte c 0) (sym same) ∙ v ∙ ap ok ((==_iff version 1).0 t4);
        standing =
            ap (λ c. a_flags c >>= λ y. ok (y % 2 == 1)) (sym same)
            ∙ ap (λ r. r >>= λ y. ok (y % 2 == 1)) f
            ∙ ap ok (not_odd flags t5);
        number =
            ap (λ c. extract c 2 8) (sym same) ∙ n ∙ ap ok (bytes_eq_sound number (itob want) t6);
      }
