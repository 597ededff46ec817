-- ===== src/StateAnchor/App.antt =====
-- contracts/state_anchor/anchor_app.py: the methods of the contract. A method that fails leaves no
-- change, as a failed transaction does.
pub mod Reads
pub mod Anchoring
pub mod Source
pub mod Direct
pub mod Governance
pub mod Pins
use Prim.Native.Nat.{bit_and}
use eth_avm_light_client.Prelude.{
  ℕ, ◌+◌, ◌-◌, ◌*◌, ◌/◌, Bool, true, false, not, Option, none, some, if◌then◌else◌, ◌==◌, ltb, leb,
  length, bytes_eq, ◌&&◌,
}
use eth_avm_light_client.Prelude.Slices.{slice}
use eth_avm_light_client.Avm.{
  Bytes, Result, ok, err, code, ◌>>=◌, ◌>>◌, assert, u64, bzero, byte1, Hashes,
}
use eth_avm_light_client.Avm.Store.{Store, box_extract, box_replace}
use eth_avm_light_client.SyncCommittee.Header.{
  epoch_at_slot, header_slot, hash_tree_root_beacon_block_header,
}
use eth_avm_light_client.StateAnchor.Record.{
  record_len, a_version, a_is_revoked, a_matches_block_number, a_flags, build_record,
}
use eth_avm_light_client.StateAnchor.Box.{
  Finished, finish_anchor_flow, read_ring_slot, pin_write, pin_read_maybe, pin_delete, ring_residue,
  ring_box_name,
}
use eth_avm_light_client.StateAnchor.Box as Box
use eth_avm_light_client.StateAnchor.Forks as Forks
use eth_avm_light_client.StateAnchor.Bridge.{
  M4, read_m4_finalized, assert_fin_header_matches, assert_fin_state_root_cross_check,
  assert_window, fold_execution_fields, fold_block_roots,
}

abbrev pub zero32 : Bytes
zero32 = bzero 32

-- The global state, with the fork rows and the boxes.
pub record Anchor : Type 0 where
  pub gov : Bytes
  pub m4_app : ℕ
  pub ring_size : ℕ
  pub ring_cursor : ℕ
  pub hi_block : ℕ
  pub hi_slot : ℕ
  pub n_anchored : ℕ
  pub frozen : ℕ
  pub conflict : ℕ
  pub fork_count : ℕ
  pub rows : Store
  pub boxes : Store

-- `Txn.sender`, `Global.round` and the application's address.
pub record Txn : Type 0 where
  pub sender : Bytes
  pub round : ℕ
  pub app_address : Bytes

pub record Payment : Type 0 where
  pub receiver : Bytes
  pub amount : ℕ

unfoldable pub create : Bytes → ℕ → ℕ → Result Anchor
create governance m4_app_id ring_n = do
  assert (ltb 0 ring_n) "ring_n must be nonzero"
  assert (bit_and ring_n (ring_n - 1) == 0) "ring_n must be a power of two"
  ok (record {
    gov = governance;
    m4_app = m4_app_id;
    ring_size = ring_n;
    ring_cursor = 0;
    hi_block = 0;
    hi_slot = 0;
    n_anchored = 0;
    frozen = 1;
    conflict = 0;
    fork_count = 0;
    rows = λ _. none;
    boxes = λ _. none;
  })

unfoldable pub ring_init_chunk : Txn → ℕ → Anchor → Result Anchor
ring_init_chunk txn k s = do
  assert (bytes_eq (txn.sender) (s.gov)) "N23"
  assert (ltb (s.ring_cursor) (s.ring_size)) "ring already initialised"
  end ← u64 (s.ring_cursor + k)
  assert (leb end (s.ring_size)) "chunk would overflow ring_n"
  (cursor, boxes') ← Box.ring_init_chunk (s.ring_cursor) k (s.boxes)
  ok (record s {
    ring_cursor = cursor;
    frozen = if cursor == s.ring_size then 0 else s.frozen;
    boxes = boxes';
  })

unfoldable pub append_fork_row : Txn → ℕ → ℕ → ℕ → ℕ → ℕ → Anchor → Result Anchor
append_fork_row txn activation_epoch g_state_root g_receipts_root g_block_number g_block_roots_base
      s =
    do
      assert (bytes_eq (txn.sender) (s.gov)) "N23"
      (count, rows') ←
          Forks.append_fork_row (s.fork_count) activation_epoch g_state_root g_receipts_root
            g_block_number g_block_roots_base (s.rows)
      ok (record s { fork_count = count; rows = rows' })

-- The end of both anchoring methods: what `finish_anchor_flow` returns is written back.
unfoldable pub write_back : Finished → Anchor → Result (Bytes × Anchor)
write_back f s = do
  n ← (if f.wrote_new == 1 then u64 (s.n_anchored + 1) else ok (s.n_anchored))
  ok (
    f.result_record,
    record s {
      conflict = f.new_conflict;
      hi_block = f.new_hi_block;
      hi_slot = f.new_hi_slot;
      n_anchored = n;
      boxes = f.boxes;
    },
  )

unfoldable pub finish_anchor : Bytes → Anchor → Result (Bytes × Anchor)
finish_anchor candidate s = do
  f ←
      finish_anchor_flow (s.ring_cursor) (s.ring_size) (s.frozen) (s.conflict) (s.hi_block)
        (s.hi_slot) candidate (s.boxes)
  write_back f s

module _ (h : Hashes) where
  unfoldable pub anchor_direct :
      Txn
      → M4
      → Bytes
      → Bytes
      → Bytes
      → ℕ
      → Bytes
      → Bytes
      → Bytes
      → Anchor
      → Result (Bytes × Anchor)
  anchor_direct txn m4_app fin_header el_state_root el_receipts_root el_block_number state_branch
        receipts_branch number_branch s =
      do
        (fin_slot, fin_root, fin_state_root) ← read_m4_finalized m4_app (s.m4_app)
        assert (not (bytes_eq fin_root zero32)) "N5"
        header_state_root ← assert_fin_header_matches h fin_header fin_root
        assert_fin_state_root_cross_check header_state_root fin_state_root
        t_slot ← header_slot fin_header
        assert (t_slot == fin_slot) "DIRECT requires t_slot == fin_slot"
        (g_state_root, g_receipts_root, g_block_number, _) ←
            Forks.lookup_row (s.fork_count) (epoch_at_slot t_slot) (s.rows)
        fold_execution_fields h (slice fin_header 80 32) g_state_root g_receipts_root g_block_number
            el_state_root el_receipts_root el_block_number state_branch receipts_branch
            number_branch
        candidate ←
            build_record false el_block_number t_slot el_state_root el_receipts_root fin_root
              fin_root (txn.round)
        finish_anchor candidate s

  unfoldable pub anchor_historical :
      Txn
      → M4
      → Bytes
      → Bytes
      → Bytes
      → Bytes
      → Bytes
      → ℕ
      → Bytes
      → Bytes
      → Bytes
      → Anchor
      → Result (Bytes × Anchor)
  anchor_historical txn m4_app fin_header target_header block_roots_branch el_state_root
        el_receipts_root el_block_number state_branch receipts_branch number_branch s =
      do
        (fin_slot, fin_root, fin_state_root) ← read_m4_finalized m4_app (s.m4_app)
        assert (not (bytes_eq fin_root zero32)) "N5"
        fin_header_state_root ← assert_fin_header_matches h fin_header fin_root
        assert_fin_state_root_cross_check fin_header_state_root fin_state_root
        assert (length target_header == 112) "N8"
        t_root ← hash_tree_root_beacon_block_header h target_header
        t_slot ← header_slot target_header
        assert_window t_slot fin_slot
        (_, _, _, g_block_roots_base) ←
            Forks.lookup_row (s.fork_count) (epoch_at_slot fin_slot) (s.rows)
        (g_state_root, g_receipts_root, g_block_number, _) ←
            Forks.lookup_row (s.fork_count) (epoch_at_slot t_slot) (s.rows)
        fold_block_roots h fin_state_root g_block_roots_base t_slot t_root block_roots_branch
        fold_execution_fields h (slice target_header 80 32) g_state_root g_receipts_root
            g_block_number el_state_root el_receipts_root el_block_number state_branch
            receipts_branch number_branch
        candidate ←
            build_record true el_block_number t_slot el_state_root el_receipts_root t_root fin_root
              (txn.round)
        finish_anchor candidate s

-- `a_version(record) != 0 and a_matches_block_number(record, bn)`
unfoldable pub is_record_of : Bytes → ℕ → Result Bool
is_record_of a bn = do
  version ← a_version a
  if version == 0 then ok false else a_matches_block_number a bn

-- The record that a reader gets.
unfoldable pub unless_revoked : Bytes → Result Bytes
unless_revoked a = do revoked ← a_is_revoked a; assert (not revoked) "N13"; ok a

-- The pinned record that a reader may get.
abbrev pub pinned_or_none : Option (Bytes × Bytes) → Result Bytes
pinned_or_none none = err (code "N12")
pinned_or_none (some (pinned, payer)) = ok pinned

unfoldable pub attest : ℕ → Anchor → Result Bytes
attest bn s = do
  assert (s.conflict == 0) "N22"
  anchored ← read_ring_slot (s.ring_size) bn (s.boxes)
  here ← is_record_of anchored bn
  if here then unless_revoked anchored else (do
    found ← pin_read_maybe bn (s.boxes)
    pinned ← pinned_or_none found
    version ← a_version pinned
    assert (version == 1) "N14"
    unless_revoked pinned)

unfoldable pub get_anchor : ℕ → Anchor → Result Bytes
get_anchor bn s = do
  assert (s.conflict == 0) "N22"
  anchored ← read_ring_slot (s.ring_size) bn (s.boxes)
  here ← is_record_of anchored bn
  if here then unless_revoked anchored else (do
    found ← pin_read_maybe bn (s.boxes)
    pinned ← pinned_or_none found
    unless_revoked pinned)

unfoldable pub pin : Txn → ℕ → Payment → Anchor → Result Anchor
pin txn bn payment s = do
  assert (s.conflict == 0) "N22"
  assert (s.frozen == 0) "N11"
  anchored ← read_ring_slot (s.ring_size) bn (s.boxes)
  here ← is_record_of anchored bn
  assert here "N12"
  assert (bytes_eq (payment.receiver) (txn.app_address)) "N24"
  assert (leb 80900 (payment.amount)) "N24"
  boxes' ← pin_write bn anchored (txn.sender) (s.boxes)
  ok (record s { boxes = boxes' })

abbrev refund_of : Option (Bytes × Bytes) → Result Payment
refund_of none = err (code "N12")
refund_of (some (pinned, payer)) = ok (record { receiver = payer; amount = 80900 })

-- The payment that the call makes, and the state.
unfoldable pub unpin : ℕ → Anchor → Result (Payment × Anchor)
unpin bn s = do
  found ← pin_read_maybe bn (s.boxes)
  refund ← refund_of found
  ok (refund, record s { boxes = pin_delete bn (s.boxes) })

-- `flags | 1` sets the lowest bit.
unfoldable pub revoke : Txn → ℕ → Anchor → Result Anchor
revoke txn bn s = do
  assert (bytes_eq (txn.sender) (s.gov)) "N23"
  residue ← ring_residue bn (s.ring_size)
  anchored ← box_extract (ring_box_name residue) 0 record_len (s.boxes)
  here ← is_record_of anchored bn
  assert here "N12"
  flags ← a_flags anchored
  boxes' ← box_replace (ring_box_name residue) 1 (byte1 (flags / 2 * 2 + 1)) (s.boxes)
  ok (record s { boxes = boxes' })

unfoldable pub freeze : Txn → Anchor → Result Anchor
freeze txn s = do assert (bytes_eq (txn.sender) (s.gov)) "N23"; ok (record s { frozen = 1 })

unfoldable pub unfreeze : Txn → Anchor → Result Anchor
unfreeze txn s = do
  assert (bytes_eq (txn.sender) (s.gov)) "N23"
  assert (s.ring_cursor == s.ring_size) "ring not initialised"
  ok (record s { frozen = 0 })

unfoldable pub gov_clear_conflict : Txn → Anchor → Result Anchor
gov_clear_conflict txn s = do
  assert (bytes_eq (txn.sender) (s.gov)) "N23"
  ok (record s { conflict = 0 })

unfoldable pub renounce : Txn → Anchor → Result Anchor
renounce txn s = do assert (bytes_eq (txn.sender) (s.gov)) "N23"; ok (record s { gov = zero32 })
