-- ===== src/StateAnchor/Box/Admit.antt =====
-- The decision on a candidate record, for contracts/state_anchor/box.py.
use eth_avm_light_client.Prelude.{
  ℕ, ◌+◌, ◌<◌, ◌≡◌, ap, ◌∙◌, ◌⊎◌, inl, inr, true, false, ltb→lt, ◌==◌, ltb, arith, Bool-cases,
  ==_iff,
}
use eth_avm_light_client.Avm.{Bytes, ok, u64, getbyte}
use eth_avm_light_client.Avm.Results.{>>=-eq-ok, assert-eq-ok, u64-eq-ok, Result-cases}
use eth_avm_light_client.Avm.Store.{Store, box_extract, box_replace}
use eth_avm_light_client.StateAnchor.Record.{record_len, a_block_number, record_content_matches}
use eth_avm_light_client.StateAnchor.Box.{
  WriteOutcome, ring_write_ok, ring_write_idempotent, ring_write_equivocation,
  ring_write_regression, ring_decide, ring_admit_and_write, Finished, finish_outcome,
  finish_anchor_flow, ring_residue, ring_box_name,
}

-- The parts of a call that succeeded.
pub record Flow (ring_cursor ring_n frozen conflict hi_block hi_slot : ℕ) (candidate : Bytes)
    (boxes : Store) (f : Finished) : Type 0 where
  pub ready : ring_cursor ≡ ring_n
  pub thawed : frozen ≡ 0
  pub calm : conflict ≡ 0
  pub outcome : WriteOutcome
  pub result : Bytes
  pub after : Store
  pub admitted : ring_admit_and_write ring_n hi_block candidate boxes ≡ ok (outcome, result, after)
  pub finished : finish_outcome outcome result conflict hi_block hi_slot after ≡ ok f

module _ (ring_cursor ring_n frozen conflict hi_block hi_slot : ℕ) (candidate : Bytes)
    (boxes : Store) {f : Finished}
    (done : finish_anchor_flow ring_cursor ring_n frozen conflict hi_block hi_slot candidate boxes
      ≡ ok f) where
  pub finish-Flow : Flow ring_cursor ring_n frozen conflict hi_block hi_slot candidate boxes f
  unfolding finish_anchor_flow
  finish-Flow =
      let (t1, e1) = assert-eq-ok (ring_cursor == ring_n) "N10" _ done in
      let (t2, e2) = assert-eq-ok (frozen == 0) "N11" _ e1 in
      let (t3, e3) = assert-eq-ok (conflict == 0) "N22" _ e2 in
      let ((outcome, result, after), a, e4) =
        >>=-eq-ok (ring_admit_and_write ring_n hi_block candidate boxes) _ e3 in
      record {
        ready = (==_iff ring_cursor ring_n).0 t1;
        thawed = (==_iff frozen 0).0 t2;
        calm = (==_iff conflict 0).0 t3;
        outcome = outcome;
        result = result;
        after = after;
        admitted = a;
        finished = e4;
      }

-- The decision on a candidate, with what it rests on.
pub data Decision (name existing : Bytes) (ex_block new_block : ℕ) (candidate : Bytes)
    (boxes : Store) (outcome : WriteOutcome) (result : Bytes) (after : Store) : Type 0 where
  -- An empty slot, or one that holds an older block, takes the candidate.
  written :
      outcome ≡ ring_write_ok
      → result ≡ candidate
      → (getbyte existing 0 ≡ ok 0) ⊎ (ex_block < new_block)
      → box_replace name 0 candidate boxes ≡ ok after
      → Decision name existing ex_block new_block candidate boxes outcome result after
  -- The same content is there.
  repeated :
      outcome ≡ ring_write_idempotent
      → result ≡ existing
      → ex_block ≡ new_block
      → record_content_matches existing candidate ≡ ok true
      → after ≡ boxes
      → Decision name existing ex_block new_block candidate boxes outcome result after
  -- Other content of the same block is there.
  clashed :
      outcome ≡ ring_write_equivocation
      → result ≡ existing
      → ex_block ≡ new_block
      → record_content_matches existing candidate ≡ ok false
      → after ≡ boxes
      → Decision name existing ex_block new_block candidate boxes outcome result after
  -- A newer block is there.
  regressed :
      outcome ≡ ring_write_regression
      → new_block < ex_block
      → Decision name existing ex_block new_block candidate boxes outcome result after

decide :
    (name existing : Bytes) (ex_block new_block ex_version : ℕ) (candidate : Bytes) (boxes : Store)
    {outcome : WriteOutcome} {result : Bytes} {after : Store}
    → getbyte existing 0 ≡ ok ex_version
    → ring_decide name existing ex_block ex_version new_block candidate boxes
      ≡ ok (outcome, result, after)
    → Decision name existing ex_block new_block candidate boxes outcome result after
unfolding ring_decide
decide name existing ex_block new_block ex_version candidate boxes {outcome} {result} {after} v e =
    elim (Bool-cases (ex_version == 0)) [
      | inl empty ↦ elim (Result-cases (box_replace name 0 candidate boxes)) [
        | inr (f, r) ↦ ground arith
        | inl (boxes', r) ↦
            written (ground arith) (ground arith) (inl (v ∙ ap ok ((==_iff ex_version 0).0 empty)))
              (ground arith)
      ]
      | inr used ↦ elim (Bool-cases (ex_block == new_block)) [
        | inl same ↦ elim (Result-cases (record_content_matches existing candidate)) [
          | inr (f, r) ↦ ground arith
          | inl (true, r) ↦
              repeated (ground arith) (ground arith) ((==_iff ex_block new_block).0 same) r
                (ground arith)
          | inl (false, r) ↦
              clashed (ground arith) (ground arith) ((==_iff ex_block new_block).0 same) r
                (ground arith)
        ]
        | inr other ↦ elim (Bool-cases (ltb ex_block new_block)) [
          | inl older ↦ elim (Result-cases (box_replace name 0 candidate boxes)) [
            | inr (f, r) ↦ ground arith
            | inl (boxes', r) ↦
                written (ground arith) (ground arith) (inr (ground arith)) (ground arith)
          ]
          | inr newer ↦ regressed (ground arith) (ground arith)
        ]
      ]
    ]

-- What the ring holds when a candidate is admitted, and the decision.
pub record Admitted (ring_n hi_block : ℕ) (candidate : Bytes) (boxes : Store)
    (outcome : WriteOutcome) (result : Bytes) (after : Store) : Type 0 where
  pub new_block : ℕ
  pub number : a_block_number candidate ≡ ok new_block
  pub recent : hi_block < new_block + ring_n
  pub residue : ℕ
  pub has_residue : ring_residue new_block ring_n ≡ ok residue
  pub existing : Bytes
  pub slot : box_extract (ring_box_name residue) 0 record_len boxes ≡ ok existing
  pub ex_block : ℕ
  pub decision :
      Decision
        (ring_box_name residue)
        existing
        ex_block
        new_block
        candidate
        boxes
        outcome
        result
        after

pub admit-Admitted :
    (ring_n hi_block : ℕ) (candidate : Bytes) (boxes : Store) {outcome : WriteOutcome}
    {result : Bytes} {after : Store}
    → ring_admit_and_write ring_n hi_block candidate boxes ≡ ok (outcome, result, after)
    → Admitted ring_n hi_block candidate boxes outcome result after
unfolding ring_admit_and_write
admit-Admitted ring_n hi_block candidate boxes e =
    let (new_block, n, e1) = >>=-eq-ok (a_block_number candidate) _ e in
    let (reach, u, e2) = >>=-eq-ok (u64 (new_block + ring_n)) _ e1 in
    let (t, e3) = assert-eq-ok (ltb hi_block reach) "N-ADMIT" _ e2 in
    let (residue, r, e4) = >>=-eq-ok (ring_residue new_block ring_n) _ e3 in
    let (existing, x, e5) =
      >>=-eq-ok (box_extract (ring_box_name residue) 0 record_len boxes) _ e4 in
    let (ex_block, b, e6) = >>=-eq-ok (a_block_number existing) _ e5 in
    let (ex_version, v, e7) = >>=-eq-ok (getbyte existing 0) _ e6 in
    let (same, _) = u64-eq-ok (new_block + ring_n) u in
    let lt = ltb→lt hi_block reach t in
    record {
      new_block = new_block;
      number = n;
      recent = omega arith;
      residue = residue;
      has_residue = r;
      existing = existing;
      slot = x;
      ex_block = ex_block;
      decision =
          decide (ring_box_name residue) existing ex_block new_block ex_version candidate boxes v
            e7;
    }
