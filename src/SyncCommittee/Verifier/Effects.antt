-- ===== src/SyncCommittee/Verifier/Effects.antt =====
-- What submit_update (contracts/sync_committee/verifier.py) writes.
use eth_avm_light_client.Prelude.{
  ℕ, ◌+◌, ◌*◌, ◌≤◌, ◌<◌, ◌≡◌, sym, ap, ◌∙◌, inl, inr, Bool, true, false, not, Option, some, none,
  ltb→lt, leb→le, arith, ltb, bytes_eq, ◌==◌, ◌||◌, ◌&&◌, if◌then◌else◌,
}
use eth_avm_light_client.Prelude.Slices.{slice}
use eth_avm_light_client.Avm.{Bytes, ok, Hashes}
use eth_avm_light_client.Avm.Results.{assert-eq-ok, >>=-eq-ok, ok_inj, if-eq-ok}
use eth_avm_light_client.SyncCommittee.Period.{period_at_slot}
use eth_avm_light_client.SyncCommittee.Verifier.{Verifier, zero32, inst_state_installing}
use eth_avm_light_client.Bls.Curve.{Curve}
use eth_avm_light_client.SyncCommittee.Verifier.Checks.{Verified, check_update-Verified}
use eth_avm_light_client.SyncCommittee.Verifier.Update.{
  Arguments, Checked, UpdateVerified, discover, finalize_update, submit_update, check_update,
  advances, has_supermajority, has_next_proof, rollover,
}

-- `s'` is `s` but for the trusted root of a next committee.
pub data Discovered (u : Arguments) (k : Checked) (s s' : Verifier) : Type 0 where
  kept : s' ≡ s → Discovered u k s s'
  found :
      k.using_next ≡ false
      → period_at_slot k.attested_slot ≡ period_at_slot s.fin_slot
      → has_next_proof u ≡ true
      → s' ≡ record s {
        next_committee_root_trusted = u.next_committee_root;
        next_committee_root_period = period_at_slot k.attested_slot + 1;
      }
      → Discovered u k s s'

both : (a b : Bool) → (a && b) ≡ true → (a ≡ true) × (b ≡ true)
both true b h = ground arith
both false b h = cc

not-false : (a : Bool) → not a ≡ true → a ≡ false
not-false a h = ground arith

one_less : (a b : ℕ) → (a + 1 == b + 1) ≡ true → a ≡ b
one_less a b h = ground arith

pub discover-Discovered :
    (u : Arguments) (k : Checked) (s : Verifier) {s' : Verifier}
    → discover u k s ≡ ok s'
    → Discovered u k s s'
unfolding discover
discover-Discovered u k s {s'} h =
    let p : ℕ = period_at_slot k.attested_slot in
    let q : ℕ = period_at_slot s.fin_slot in
    elim (if-eq-ok (has_next_proof u) _ _ h) [
      | inr (_, h1) ↦ kept (sym (ok_inj h1))
      | inl (proof, h1) ↦
          let (_, h2) =
            assert-eq-ok
              (not (s.inst_state == inst_state_installing && s.inst_period == p + 1)
                || bytes_eq u.next_committee_root s.inst_root)
              "next-committee root diverges from in-flight install" _ h1 in
          elim (if-eq-ok (not k.using_next && p + 1 == q + 1) _ _ h2) [
            | inr (_, h3) ↦ kept (sym (ok_inj h3))
            | inl (near, h3) ↦ elim (if-eq-ok (s.next_committee_root_period == p + 1) _ _ h3) [
              | inl (_, h4) ↦
                  let (_, h5) =
                    assert-eq-ok (bytes_eq u.next_committee_root s.next_committee_root_trusted)
                      "next-committee root diverges from a previously trusted root" _ h4 in
                  kept (sym (ok_inj h5))
              | inr (_, h4) ↦
                  let (now, same) = both (not k.using_next) (p + 1 == q + 1) near in
                  found (not-false k.using_next now) (one_less p q same) proof (sym (ok_inj h4))
            ]
          ]
    ]

-- The state that an update leaves which does not advance, and one that does.
pub data Applied (u : Arguments) (k : Checked) (s t : Verifier) (event : Option UpdateVerified)
    : Type 0 where
  stays : t ≡ s → event ≡ none → Applied u k s t event
  advanced :
      1024 ≤ k.popcount * 3
      → s.fin_slot < k.finalized_slot
      → t ≡ record (if k.using_next then rollover s else s) {
        fin_slot = k.finalized_slot;
        fin_root = k.finalized_leaf;
        fin_state_root = slice u.finalized_header 48 32;
        att_slot = k.attested_slot;
        att_state_root = slice u.attested_header 48 32;
      }
      → event
        ≡ some (record {
          finalized_slot = k.finalized_slot;
          finalized_beacon_root = k.finalized_leaf;
          finalized_state_root = slice u.finalized_header 48 32;
          attested_slot = k.attested_slot;
          attested_state_root = slice u.attested_header 48 32;
          participation = k.popcount;
          signature_slot = u.signature_slot;
        })
      → Applied u k s t event

state_root_of : (n m : ℕ) (a b : Bytes) → m < n → (if not (n == 0) then a else b) ≡ a
state_root_of n m a b lo = ground arith

majority : (n : ℕ) → has_supermajority n ≡ true → 1024 ≤ n * 3
unfolding has_supermajority
majority n h = leb→le 1024 (n * 3) h

pub finalize_update-Applied :
    (u : Arguments) (k : Checked) (s : Verifier) {t : Verifier} {event : Option UpdateVerified}
    → finalize_update u k s ≡ (t, event)
    → Applied u k s t event
unfolding finalize_update advances
finalize_update-Applied u k s {t} {event} h =
    elim (if-eq-ok (has_supermajority k.popcount && ltb s.fin_slot k.finalized_slot) _ _ h) [
      | inr (_, e) ↦ stays (sym (ap (λ x. x.0) e)) (sym (ap (λ x. x.1) e))
      | inl (now, e) ↦
          let (many, later) =
            both (has_supermajority k.popcount) (ltb s.fin_slot k.finalized_slot) now in
          let lo : s.fin_slot < k.finalized_slot = ltb→lt s.fin_slot k.finalized_slot later in
          let root =
            state_root_of k.finalized_slot s.fin_slot (slice u.finalized_header 48 32) zero32 lo in
          advanced (majority k.popcount many) lo
            (sym (ap (λ x. x.0) e)
              ∙ ap
                  (λ r. record (if k.using_next then rollover s else s) {
                    fin_slot = k.finalized_slot;
                    fin_root = k.finalized_leaf;
                    fin_state_root = r;
                    att_slot = k.attested_slot;
                    att_state_root = slice u.attested_header 48 32;
                  })
                  root)
            (sym (ap (λ x. x.1) e)
              ∙ ap
                  (λ r. some (record {
                    finalized_slot = k.finalized_slot;
                    finalized_beacon_root = k.finalized_leaf;
                    finalized_state_root = r;
                    attested_slot = k.attested_slot;
                    attested_state_root = slice u.attested_header 48 32;
                    participation = k.popcount;
                    signature_slot = u.signature_slot;
                  }))
                  root)
    ]

-- A call of submit_update that succeeds: the checks, the root it finds and what it writes.
pub record Accepted (h : Hashes) (c : Curve) (u : Arguments) (s t : Verifier)
    (event : Option UpdateVerified) : Type 0 where
  pub checked : Checked
  pub middle : Verifier
  pub verified : Verified h c u s checked
  pub discovered : Discovered u checked s middle
  pub applied : Applied u checked middle t event

pub submit_update-Accepted :
    (h : Hashes) (c : Curve) (u : Arguments) (s : Verifier) {t : Verifier}
    {event : Option UpdateVerified}
    → submit_update h c u s ≡ ok (t, event)
    → Accepted h c u s t event
unfolding submit_update
submit_update-Accepted h c u s {t} {event} e =
    let (k, ck, e1) = >>=-eq-ok (check_update h c u s) _ e in
    let (s', d, e2) = >>=-eq-ok (discover u k s) _ e1 in
    record {
      checked = k;
      middle = s';
      verified = check_update-Verified h c u s ck;
      discovered = discover-Discovered u k s d;
      applied = finalize_update-Applied u k s' (ok_inj e2);
    }
