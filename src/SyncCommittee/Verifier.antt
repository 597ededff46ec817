-- ===== src/SyncCommittee/Verifier.antt =====
-- contracts/sync_committee/verifier.py: the state of the contract, and the methods around the
-- installation of committees. A method that fails leaves no change, as a failed transaction does.
pub mod Update
pub mod Steps
pub mod Installed
pub mod Sessions
pub mod Keys
pub mod Generations
pub mod Finality
pub mod Effects
pub mod Checks
pub mod Sources
pub mod Stuck
pub mod Signature
use eth_avm_light_client.Prelude.{ℕ, ◌+◌, Bool, not, none, if◌then◌else◌, ◌==◌, ◌||◌, bytes_eq}
use eth_avm_light_client.Prelude.Slices.{slice}
use eth_avm_light_client.Avm.{Bytes, Result, ok, ◌>>=◌, ◌>>◌, assert, u64, bzero, Hashes}
use eth_avm_light_client.Avm.Store.{Store, box_create, box_replace}
use eth_avm_light_client.Bls.Curve.{Curve}
use eth_avm_light_client.Ssz.Branch.{assert_valid_normalized_merkle_branch}
use eth_avm_light_client.SyncCommittee.Header.{
  epoch_at_slot, header_slot, hash_tree_root_beacon_block_header,
}
use eth_avm_light_client.SyncCommittee.Period.{period_at_slot}
use eth_avm_light_client.SyncCommittee.Forks as Forks
use eth_avm_light_client.SyncCommittee.Bitfield.{total_box_name, g1_uncompressed_bytes}
use eth_avm_light_client.SyncCommittee.Install.{
  install_open_key_boxes, install_open_session_box, install_abort_key_boxes, install_abort_boxes,
  install_delete_committee_boxes, install_process_chunk, install_process_finalize,
}

abbrev pub zero32 : Bytes
zero32 = bzero 32

-- `inst_state`
abbrev pub inst_state_idle : ℕ
inst_state_idle = 0

abbrev pub inst_state_validated : ℕ
inst_state_validated = 1

abbrev pub inst_state_opening_boxes : ℕ
inst_state_opening_boxes = 2

abbrev pub inst_state_installing : ℕ
inst_state_installing = 3

-- The global state, with the fork rows and the boxes.
pub record Verifier : Type 0 where
  pub gov : Bytes
  pub gvr : Bytes
  pub fin_slot : ℕ
  pub fin_root : Bytes
  pub fin_state_root : Bytes
  pub att_slot : ℕ
  pub att_state_root : Bytes
  pub cur_gen : ℕ
  pub cur_period : ℕ
  pub next_gen : ℕ
  pub next_period : ℕ
  pub next_committee_root_trusted : Bytes
  pub next_committee_root_period : ℕ
  pub inst_state : ℕ
  pub inst_gen : ℕ
  pub inst_period : ℕ
  pub inst_root : Bytes
  pub inst_cursor : ℕ
  pub fork_count : ℕ
  pub gen_counter : ℕ
  pub rows : Store
  pub boxes : Store

unfoldable pub create : Bytes → Bytes → Verifier
create governance genesis_validators_root = record {
  gov = governance;
  gvr = genesis_validators_root;
  fin_slot = 0;
  fin_root = zero32;
  fin_state_root = zero32;
  att_slot = 0;
  att_state_root = zero32;
  cur_gen = 0;
  cur_period = 0;
  next_gen = 0;
  next_period = 0;
  next_committee_root_trusted = zero32;
  next_committee_root_period = 0;
  inst_state = inst_state_idle;
  inst_gen = 0;
  inst_period = 0;
  inst_root = zero32;
  inst_cursor = 0;
  fork_count = 0;
  gen_counter = 0;
  rows = λ _. none;
  boxes = λ _. none;
}

unfoldable pub append_fork_row : Bytes → ℕ → Bytes → ℕ → ℕ → ℕ → Verifier → Result Verifier
append_fork_row sender activation_epoch fork_version finality_gindex current_sc_gindex
      next_sc_gindex s =
    do
      assert (bytes_eq sender (s.gov)) "governance only"
      (count, rows') ←
          Forks.append_fork_row (s.fork_count) activation_epoch fork_version finality_gindex
            current_sc_gindex next_sc_gindex (s.rows)
      ok (record s { fork_count = count; rows = rows' })

-- What `bootstrap` and `install_begin` write of a session that they have validated.
unfoldable pub reserve : ℕ → Bytes → Verifier → Result Verifier
reserve period root s = do
  gen ← u64 (s.gen_counter + 1)
  ok (record s {
    gen_counter = gen;
    inst_gen = gen;
    inst_period = period;
    inst_root = root;
    inst_cursor = 0;
    inst_state = inst_state_validated;
  })

-- What `install_finalize` and `install_abort` write at the end of a session.
unfoldable pub close : Verifier → Verifier
close s = record s {
  inst_state = inst_state_idle;
  inst_gen = 0;
  inst_period = 0;
  inst_root = zero32;
  inst_cursor = 0;
}

unfoldable pub install_begin : ℕ → Verifier → Result Verifier
install_begin p s = do
  assert (s.inst_state == inst_state_idle) "a session is already in flight"
  assert (p == s.cur_period + 1) "period must be exactly cur_period + 1"
  assert (s.next_committee_root_period == p) "no trusted root established for this period"
  assert (not (bytes_eq (s.next_committee_root_trusted) zero32))
      "next-committee root not yet established"
  reserve p (s.next_committee_root_trusted) s

unfoldable pub install_open_keys : Verifier → Result Verifier
install_open_keys s = do
  assert (s.inst_state == inst_state_validated) "no validated install session in flight"
  boxes' ← install_open_key_boxes (s.inst_gen) (s.boxes)
  ok (record s { boxes = boxes'; inst_state = inst_state_opening_boxes })

unfoldable pub install_open_session : Verifier → Result Verifier
install_open_session s = do
  assert (s.inst_state == inst_state_opening_boxes) "no box-opening phase in flight"
  boxes' ← install_open_session_box (s.inst_gen) (s.boxes)
  ok (record s { boxes = boxes'; inst_state = inst_state_installing })

-- The generation becomes the current one at genesis, else the next one.
unfoldable pub activate : Verifier → Verifier
activate s =
    if s.cur_gen == 0
    then record s { cur_gen = s.inst_gen; cur_period = s.inst_period }
    else record s { next_gen = s.inst_gen; next_period = s.inst_period }

-- What an abort deletes.
unfoldable pub abort_boxes : Verifier → Store
abort_boxes s =
    if s.inst_state == inst_state_opening_boxes
    then install_abort_key_boxes (s.inst_gen) (s.boxes)
    else (if s.inst_state == inst_state_installing
        then install_abort_boxes (s.inst_gen) (s.boxes)
        else s.boxes)

unfoldable pub install_abort : Bytes → Verifier → Result Verifier
install_abort sender s = do
  assert (bytes_eq sender (s.gov)) "governance only"
  assert
      (s.inst_state == inst_state_validated
        || (s.inst_state == inst_state_opening_boxes || s.inst_state == inst_state_installing))
      "no install session in flight"
  ok (close (record s { boxes = abort_boxes s }))

unfoldable pub retire : ℕ → Verifier → Result Verifier
retire g s = do
  assert (not (g == 0)) "generation 0 is never a real committee"
  assert (not (g == s.cur_gen)) "generation is the active committee"
  assert (not (g == s.next_gen)) "generation is the staged next committee"
  assert (not (g == s.inst_gen)) "generation has an install session in flight"
  ok (record s { boxes = install_delete_committee_boxes g (s.boxes) })

-- The slot, the root and the state root of the finalized header, the slot and the state root of the
-- attested one, and the period of the current committee.
unfoldable get_finalized : Verifier → ℕ × (Bytes × (Bytes × (ℕ × (Bytes × ℕ))))
get_finalized s =
    (s.fin_slot, (s.fin_root, (s.fin_state_root, (s.att_slot, (s.att_state_root, s.cur_period)))))

module _ (h : Hashes) where
  unfoldable pub bootstrap : Bytes → Bytes → Bytes → Bytes → Bytes → Verifier → Result Verifier
  bootstrap sender header committee_root current_sc_branch trusted_block_root s = do
    assert (bytes_eq sender (s.gov)) "governance only"
    assert (s.cur_gen == 0) "already bootstrapped"
    assert (s.inst_state == inst_state_idle) "install session in progress"
    root ← hash_tree_root_beacon_block_header h header
    assert (bytes_eq root trusted_block_root) "header != trusted_block_root"
    slot ← header_slot header
    (_, current_sc_gindex, _) ← Forks.lookup_gindices (s.fork_count) (epoch_at_slot slot) (s.rows)
    assert_valid_normalized_merkle_branch h committee_root current_sc_branch current_sc_gindex
        (slice header 48 32)
    s' ← reserve (period_at_slot slot) committee_root s
    ok (record s' {
      fin_slot = slot;
      fin_root = root;
      fin_state_root = slice header 48 32;
      att_slot = slot;
      att_state_root = slice header 48 32;
    })

  module _ (c : Curve) where
    unfoldable pub install_chunk : ℕ → Bytes → Bytes → Verifier → Result Verifier
    install_chunk index compressed uncompressed s = do
      assert (s.inst_state == inst_state_installing) "no install session in flight"
      assert (index == s.inst_cursor) "index must equal the session cursor"
      (cursor, boxes') ←
          install_process_chunk h c (s.inst_gen) (s.inst_cursor) compressed uncompressed (s.boxes)
      ok (record s { inst_cursor = cursor; boxes = boxes' })

    unfoldable pub install_finalize : Bytes → Bytes → Verifier → Result Verifier
    install_finalize aggregate_compressed aggregate_uncompressed s = do
      assert (s.inst_state == inst_state_installing) "no install session in flight"
      (a_total, boxes1) ←
          install_process_finalize h c (s.inst_gen) (s.inst_cursor) (s.inst_root)
            aggregate_compressed aggregate_uncompressed (s.boxes)
      boxes2 ← box_create (total_box_name (s.inst_gen)) g1_uncompressed_bytes boxes1
      boxes3 ← box_replace (total_box_name (s.inst_gen)) 0 a_total boxes2
      ok (close (activate (record s { boxes = boxes3 })))
