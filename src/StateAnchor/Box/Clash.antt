-- ===== src/StateAnchor/Box/Clash.antt =====
-- One block anchored in both modes, for contracts/state_anchor/box.py.
use eth_avm_light_client.Prelude.{ℕ, ◌+◌, ◌<◌, ◌≡◌, refl, true, false, lt→ltb, ==_refl}
use eth_avm_light_client.Avm.{Bytes, ok, u64_mod, getbyte}
use eth_avm_light_client.Avm.Store.{Store, box_extract}
use eth_avm_light_client.StateAnchor.Record.{record_len, a_version}
use eth_avm_light_client.StateAnchor.Record.Fields.{Says, content_matches-modes}
use eth_avm_light_client.StateAnchor.Box.{
  ring_residue, ring_box_name, ring_decide, ring_admit_and_write, finish_outcome,
  finish_anchor_flow,
}

slot_version : (e : Bytes) → a_version e ≡ ok 1 → getbyte e 0 ≡ ok 1
unfolding a_version
slot_version e v = v

-- Where the ring slot of a block holds a record that was built as a direct one, the end of an
-- anchoring call for a record of the same block built as a historical one, admitted by the window
-- and with its sum in a uint64, in an initialised, thawed state with a clear latch, sets the latch
-- and changes neither the marks nor the boxes.
pub historical-latches :
    (ring_n hi_block hi_slot bn residue slot slot' round round' : ℕ)
    (existing candidate sr rr br fr sr' rr' br' fr' : Bytes) (boxes : Store)
    → Says existing false bn slot sr rr br fr round
    → Says candidate true bn slot' sr' rr' br' fr' round'
    → bn + ring_n < u64_mod
    → hi_block < bn + ring_n
    → ring_residue bn ring_n ≡ ok residue
    → box_extract (ring_box_name residue) 0 record_len boxes ≡ ok existing
    → finish_anchor_flow ring_n ring_n 0 0 hi_block hi_slot candidate boxes
      ≡ ok (record {
        new_conflict = 1;
        result_record = existing;
        new_hi_block = hi_block;
        new_hi_slot = hi_slot;
        wrote_new = 0;
        boxes = boxes;
      })
unfolding finish_anchor_flow ring_admit_and_write ring_decide finish_outcome
historical-latches n hb hs bn residue slot slot' round round' existing candidate sr rr br fr sr' rr'
      br' fr' boxes p q fits recent r x =
    rw
      (
        ==_refl n,
        q.number,
        lt→ltb (bn + n) u64_mod fits,
        lt→ltb hb (bn + n) recent,
        r,
        x,
        p.number,
        slot_version existing p.version,
        ==_refl bn,
        content_matches-modes p q,
      )
      refl
