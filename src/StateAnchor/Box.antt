-- ===== src/StateAnchor/Box.antt =====
-- contracts/state_anchor/box.py: the ring of recent records, the pinned records, and the decision
-- on a new record.
pub mod Admit
pub mod Effects
pub mod Clash
use Prim.Native.Nat.{bit_and}
use eth_avm_light_client.Prelude.{
  ℕ, zero, suc, ◌+◌, ◌-◌, [], ◌∷◌, ◌++◌, Bool, true, false, not, Option, none, some, if◌then◌else◌,
  ◌==◌, ltb, leb, length,
}
use eth_avm_light_client.Prelude.Slices.{slice}
use eth_avm_light_client.Avm.{
  Bytes, Result, ok, err, panic, code, ◌>>=◌, ◌>>◌, assert, u64, sub, getbyte, extract, btoi, itob,
}
use eth_avm_light_client.Avm.Store.{Store, put, remove, box_create, box_extract, box_replace}
use eth_avm_light_client.StateAnchor.Record.{
  record_len, a_block_number, a_beacon_slot, record_content_matches,
}

abbrev pub pinned_record_len : ℕ
pinned_record_len = 186

abbrev pub off_pin_payer : ℕ
off_pin_payer = 154

-- "h:" and "p:"
abbrev pub ring_box_prefix : Bytes
ring_box_prefix = 104 ∷ 58 ∷ []

abbrev pub pin_box_prefix : Bytes
pin_box_prefix = 112 ∷ 58 ∷ []

pub data WriteOutcome : Type 0 where
  ring_write_ok ring_write_idempotent ring_write_equivocation ring_write_regression : WriteOutcome

unfoldable pub ring_box_name : ℕ → Bytes
ring_box_name residue = ring_box_prefix ++ itob residue

unfoldable pub pin_box_name : ℕ → Bytes
pin_box_name block_number = pin_box_prefix ++ itob block_number

unfoldable pub ring_residue : ℕ → ℕ → Result ℕ
ring_residue block_number ring_n = do mask ← sub ring_n 1; ok (bit_and block_number mask)

-- The boxes left to create, and the residue of the next one.
unfoldable pub ring_init_loop : ℕ → ℕ → Store → Result Store
ring_init_loop zero residue boxes = ok boxes
ring_init_loop (suc k) residue boxes = do
  _ ← u64 residue
  boxes' ← box_create (ring_box_name residue) record_len boxes
  ring_init_loop k (residue + 1) boxes'

-- The new cursor, and the boxes.
unfoldable pub ring_init_chunk : ℕ → ℕ → Store → Result (ℕ × Store)
ring_init_chunk cursor k boxes = do
  boxes' ← ring_init_loop k cursor boxes
  cursor' ← u64 (cursor + k)
  ok (cursor', boxes')

-- The decision on what the slot holds: (outcome, existing or written record), and the boxes.
unfoldable pub ring_decide :
    Bytes → Bytes → ℕ → ℕ → ℕ → Bytes → Store → Result (WriteOutcome × Bytes × Store)
ring_decide box_name existing ex_block ex_version new_block candidate boxes =
    if ex_version == 0
    then (do boxes' ← box_replace box_name 0 candidate boxes; ok (ring_write_ok, candidate, boxes'))
    else (if ex_block == new_block
        then (do
          same ← record_content_matches existing candidate
          if same
              then ok (ring_write_idempotent, existing, boxes)
              else ok (ring_write_equivocation, existing, boxes))
        else (if ltb ex_block new_block
            then (do
              boxes' ← box_replace box_name 0 candidate boxes
              ok (ring_write_ok, candidate, boxes'))
            else ok (ring_write_regression, existing, boxes)))

unfoldable pub ring_admit_and_write : ℕ → ℕ → Bytes → Store → Result (WriteOutcome × Bytes × Store)
ring_admit_and_write ring_n hi_block candidate boxes = do
  new_block ← a_block_number candidate
  reach ← u64 (new_block + ring_n)
  assert (ltb hi_block reach) "N-ADMIT"
  residue ← ring_residue new_block ring_n
  existing ← box_extract (ring_box_name residue) 0 record_len boxes
  ex_block ← a_block_number existing
  ex_version ← getbyte existing 0
  ring_decide (ring_box_name residue) existing ex_block ex_version new_block candidate boxes

-- What `finish_anchor_flow` returns, and the boxes it leaves.
pub record Finished : Type 0 where
  pub new_conflict : ℕ
  pub result_record : Bytes
  pub new_hi_block : ℕ
  pub new_hi_slot : ℕ
  pub wrote_new : ℕ
  pub boxes : Store

unfoldable pub finish_outcome : WriteOutcome → Bytes → ℕ → ℕ → ℕ → Store → Result Finished
finish_outcome ring_write_equivocation result conflict hi_block hi_slot boxes = ok (record {
  new_conflict = 1;
  result_record = result;
  new_hi_block = hi_block;
  new_hi_slot = hi_slot;
  wrote_new = 0;
  boxes = boxes;
})
finish_outcome ring_write_regression result conflict hi_block hi_slot boxes = err (code "N21")
finish_outcome ring_write_ok result conflict hi_block hi_slot boxes = do
  new_block ← a_block_number result
  new_slot ← a_beacon_slot result
  if ltb hi_block new_block
      then (do
        assert (ltb hi_slot new_slot) "N-ADMIT-monotonic"
        ok (record {
          new_conflict = conflict;
          result_record = result;
          new_hi_block = new_block;
          new_hi_slot = new_slot;
          wrote_new = 1;
          boxes = boxes;
        }))
      else ok (record {
        new_conflict = conflict;
        result_record = result;
        new_hi_block = hi_block;
        new_hi_slot = hi_slot;
        wrote_new = 1;
        boxes = boxes;
      })
finish_outcome ring_write_idempotent result conflict hi_block hi_slot boxes = ok (record {
  new_conflict = conflict;
  result_record = result;
  new_hi_block = hi_block;
  new_hi_slot = hi_slot;
  wrote_new = 0;
  boxes = boxes;
})

unfoldable pub finish_anchor_flow : ℕ → ℕ → ℕ → ℕ → ℕ → ℕ → Bytes → Store → Result Finished
finish_anchor_flow ring_cursor ring_n frozen conflict hi_block hi_slot candidate boxes = do
  assert (ring_cursor == ring_n) "N10"
  assert (frozen == 0) "N11"
  assert (conflict == 0) "N22"
  (outcome, result, boxes') ← ring_admit_and_write ring_n hi_block candidate boxes
  finish_outcome outcome result conflict hi_block hi_slot boxes'

unfoldable pub read_ring_slot : ℕ → ℕ → Store → Result Bytes
read_ring_slot ring_n block_number boxes = do
  residue ← ring_residue block_number ring_n
  box_extract (ring_box_name residue) 0 record_len boxes

unfoldable pub pin_write : ℕ → Bytes → Bytes → Store → Result Store
pin_write block_number anchored payer boxes = do
  assert (length payer == 32) "N24"
  boxes' ← box_create (pin_box_name block_number) pinned_record_len boxes
  box_replace (pin_box_name block_number) 0 (anchored ++ payer) boxes'

-- Nothing when there is no box; else the record and its payer.
unfoldable pub pin_read_maybe : ℕ → Store → Result (Option (Bytes × Bytes))
pin_read_maybe block_number boxes = elim (boxes (pin_box_name block_number)) [
  | none ↦ ok none
  | some b ↦ do
    raw ← extract b 0 pinned_record_len
    ok (some (slice raw 0 record_len, slice raw off_pin_payer 32))
]

unfoldable pub pin_delete : ℕ → Store → Store
pin_delete block_number boxes = remove (pin_box_name block_number) boxes
