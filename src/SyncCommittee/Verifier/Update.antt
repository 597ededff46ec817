-- ===== src/SyncCommittee/Verifier/Update.antt =====
-- contracts/sync_committee/verifier.py: submit_update, its checks and then what it writes.
use eth_avm_light_client.Prelude.{
  ℕ, ◌+◌, ◌*◌, Bool, true, false, not, Option, none, some, if◌then◌else◌, ◌==◌, ◌||◌, ◌&&◌, ltb,
  leb, length, bytes_eq,
}
use eth_avm_light_client.Prelude.Slices.{slice}
use eth_avm_light_client.Avm.{Bytes, Result, ok, ◌>>=◌, ◌>>◌, assert, Hashes}
use eth_avm_light_client.Bls.Curve.{Curve}
use eth_avm_light_client.Bls.HashToCurve.{hash_to_g2}
use eth_avm_light_client.Bls.Pairing.{verify_aggregate_signature}
use eth_avm_light_client.Ssz.Branch.{assert_valid_normalized_merkle_branch}
use eth_avm_light_client.SyncCommittee.Header.{
  epoch_at_slot, header_slot, hash_tree_root_beacon_block_header, compute_domain,
  compute_signing_root,
}
use eth_avm_light_client.SyncCommittee.Period.{
  period_at_slot, fork_version_epoch_for_signature_slot, domain_sync_committee, eth_dst,
}
use eth_avm_light_client.SyncCommittee.Forks.{lookup_fork_version, lookup_gindices}
use eth_avm_light_client.SyncCommittee.Bitfield.{aggregate_participants, sync_committee_size}
use eth_avm_light_client.SyncCommittee.Verifier.{Verifier, zero32, inst_state_installing}

-- The arguments of `submit_update`.
pub record Arguments : Type 0 where
  pub attested_header : Bytes
  pub finalized_header : Bytes
  pub finality_branch : Bytes
  pub next_committee_root : Bytes
  pub next_committee_branch : Bytes
  pub sync_committee_bits : Bytes
  pub signature : Bytes
  pub signature_slot : ℕ
  pub mode : ℕ

-- `LightClientUpdateVerified`
pub record UpdateVerified : Type 0 where
  pub finalized_slot : ℕ
  pub finalized_beacon_root : Bytes
  pub finalized_state_root : Bytes
  pub attested_slot : ℕ
  pub attested_state_root : Bytes
  pub participation : ℕ
  pub signature_slot : ℕ

-- What the checks have found.
pub record Checked : Type 0 where
  pub attested_slot : ℕ
  pub finalized_slot : ℕ
  pub using_next : Bool
  pub finalized_leaf : Bytes
  pub popcount : ℕ

unfoldable pub has_next_proof : Arguments → Bool
has_next_proof u = ltb 0 (length u.next_committee_branch)

-- Step 5: whether the next committee signs, and the generation that signs. A sum of a period and 1
-- is far below 2^64.
unfoldable pub select_committee : ℕ → Verifier → Result (Bool × ℕ)
select_committee sig_slot s =
    let store_period : ℕ = period_at_slot s.fin_slot in
    let update_signature_period : ℕ = period_at_slot sig_slot in
    let using_next : Bool = update_signature_period == store_period + 1 in
    (do
      assert (update_signature_period == store_period || using_next)
          "signature period skips a sync-committee period"
      if using_next
          then (do
            assert (not (s.next_gen == 0)) "next committee is not known"
            ok (true, s.next_gen))
          else (do assert (not (s.cur_gen == 0)) "no committee installed"; ok (false, s.cur_gen)))

-- The first part of step 16: a root of the next committee that the update proves.
unfoldable pub discover : Arguments → Checked → Verifier → Result Verifier
discover u k s =
    let store_period : ℕ = period_at_slot s.fin_slot in
    let next_period : ℕ = period_at_slot k.attested_slot + 1 in
    if has_next_proof u
    then (do
      assert
          (not (s.inst_state == inst_state_installing && s.inst_period == next_period)
            || bytes_eq u.next_committee_root s.inst_root)
          "next-committee root diverges from in-flight install"
      if not k.using_next && next_period == store_period + 1
          then (if s.next_committee_root_period == next_period
              then (do
                assert (bytes_eq u.next_committee_root s.next_committee_root_trusted)
                    "next-committee root diverges from a previously trusted root"
                ok s)
              else ok (record s {
                next_committee_root_trusted = u.next_committee_root;
                next_committee_root_period = next_period;
              }))
          else ok s)
    else ok s

unfoldable pub has_supermajority : ℕ → Bool
has_supermajority popcount = leb (sync_committee_size * 2) (popcount * 3)

unfoldable pub advances : Checked → Verifier → Bool
advances k s = has_supermajority k.popcount && ltb s.fin_slot k.finalized_slot

unfoldable pub rollover : Verifier → Verifier
rollover s = record s {
  cur_gen = s.next_gen;
  cur_period = s.next_period;
  next_gen = 0;
  next_period = 0;
}

-- The second part of step 16: the state that the update finalizes, and the event.
unfoldable pub finalize_update : Arguments → Checked → Verifier → Verifier × Option UpdateVerified
finalize_update u k s =
    if advances k s
    then (let s' : Verifier = if k.using_next then rollover s else s in
        let state_root : Bytes =
          if not (k.finalized_slot == 0) then slice u.finalized_header 48 32 else zero32 in
        (
          record s' {
            fin_slot = k.finalized_slot;
            fin_root = k.finalized_leaf;
            fin_state_root = state_root;
            att_slot = k.attested_slot;
            att_state_root = slice u.attested_header 48 32;
          },
          some (record {
            finalized_slot = k.finalized_slot;
            finalized_beacon_root = k.finalized_leaf;
            finalized_state_root = state_root;
            attested_slot = k.attested_slot;
            attested_state_root = slice u.attested_header 48 32;
            participation = k.popcount;
            signature_slot = u.signature_slot;
          }),
        ))
    else (s, none)

module _ (h : Hashes) (c : Curve) where
  -- Steps 12 to 15: the signature of the keys `agg_pubkey` on the attested header.
  unfoldable pub assert_signed : Bytes → Bytes → Arguments → Verifier → Result (Unit {0})
  assert_signed agg_pubkey fork_version u s = do
    domain ← compute_domain h domain_sync_committee fork_version (s.gvr)
    signing_root ← compute_signing_root h (u.attested_header) domain
    msg_point ← hash_to_g2 h c signing_root eth_dst
    verified ← verify_aggregate_signature c agg_pubkey msg_point (u.signature)
    assert verified "aggregate signature verification failed"

  -- Steps 3 to 15.
  unfoldable pub check_update : Arguments → Verifier → Result Checked
  check_update u s = do
    attested_slot ← header_slot (u.attested_header)
    finalized_slot ← header_slot (u.finalized_header)
    assert (ltb attested_slot (u.signature_slot)) "signature_slot must exceed attested_slot"
    assert (leb finalized_slot attested_slot) "attested_slot must be >= finalized_slot"
    (using_next, committee_gen) ← select_committee (u.signature_slot) s
    fork_version ←
        lookup_fork_version (s.fork_count)
          (fork_version_epoch_for_signature_slot (u.signature_slot)) (s.rows)
    (finality_gindex, _, next_sc_gindex) ←
        lookup_gindices (s.fork_count) (epoch_at_slot attested_slot) (s.rows)
    finalized_leaf ←
        (if finalized_slot == 0
          then ok zero32
          else hash_tree_root_beacon_block_header h (u.finalized_header))
    assert_valid_normalized_merkle_branch h finalized_leaf (u.finality_branch) finality_gindex
        (slice (u.attested_header) 48 32)
    (if has_next_proof u
        then assert_valid_normalized_merkle_branch h (u.next_committee_root)
            (u.next_committee_branch) next_sc_gindex (slice (u.attested_header) 48 32)
        else ok tt)
    (agg_pubkey, popcount) ←
        aggregate_participants (c.g1_add) (s.boxes) (u.sync_committee_bits) committee_gen (u.mode)
    assert (leb 1 popcount) "insufficient participation"
    assert_signed agg_pubkey fork_version u s
    ok (record {
      attested_slot = attested_slot;
      finalized_slot = finalized_slot;
      using_next = using_next;
      finalized_leaf = finalized_leaf;
      popcount = popcount;
    })

  unfoldable pub submit_update : Arguments → Verifier → Result (Verifier × Option UpdateVerified)
  submit_update u s = do
    checked ← check_update u s
    s' ← discover u checked s
    ok (finalize_update u checked s')
