-- ===== src/SyncCommittee/Forks.antt =====
-- contracts/sync_committee/forks.py: the table of fork versions and generalized indices.
use eth_avm_light_client.Prelude.{
  ℕ, zero, suc, ◌+◌, ◌-◌, [], ◌∷◌, ◌++◌, Bool, true, false, not, Option, none, some, if◌then◌else◌,
  ◌==◌, ltb, leb, length,
}
use eth_avm_light_client.Prelude.Slices.{slice}
use eth_avm_light_client.Avm.{
  Bytes, Result, ok, err, code, ◌>>=◌, ◌>>◌, assert, btoi, itob, byte1, u64_mod,
}
use eth_avm_light_client.Avm.Store.{Store, put}

abbrev pub fork_row_bytes : ℕ
fork_row_bytes = 36

abbrev pub fork_table_capacity : ℕ
fork_table_capacity = 16

-- "f"
abbrev pub fork_row_key_prefix : Bytes
fork_row_key_prefix = 102 ∷ []

abbrev pub uint64_max : ℕ
uint64_max = u64_mod - 1

-- (activation_epoch, fork_version, finality_gindex, current_sc_gindex, next_sc_gindex)
abbrev pub Row : Type 0
Row = ℕ × Bytes × ℕ × ℕ × ℕ

unfoldable pub row_key : ℕ → Bytes
row_key index = fork_row_key_prefix ++ byte1 index

-- `exists`, the length, and the five columns
abbrev pub decode_row : Option Bytes → Result Row
decode_row none = err (code "fork row missing")
decode_row (some raw) = do
  assert (length raw == fork_row_bytes) "fork row wrong length"
  activation_epoch ← btoi (slice raw 0 8)
  finality_gindex ← btoi (slice raw 12 8)
  current_sc_gindex ← btoi (slice raw 20 8)
  next_sc_gindex ← btoi (slice raw 28 8)
  ok (activation_epoch, slice raw 8 4, finality_gindex, current_sc_gindex, next_sc_gindex)

unfoldable pub read_row : ℕ → Store → Result Row
read_row index rows = decode_row (rows (row_key index))

-- The check against the last row, when there is one.
unfoldable pub assert_epoch_increases : ℕ → ℕ → Store → Result (Unit {0})
assert_epoch_increases fork_count activation_epoch rows =
    if ltb 0 fork_count
    then (do
      (prev_epoch, _, _, _, _) ← read_row (fork_count - 1) rows
      assert (ltb prev_epoch activation_epoch) "activation_epoch must strictly increase")
    else ok tt

unfoldable pub append_fork_row : ℕ → ℕ → Bytes → ℕ → ℕ → ℕ → Store → Result (ℕ × Store)
append_fork_row fork_count activation_epoch fork_version finality_gindex current_sc_gindex
      next_sc_gindex rows =
    do
      assert (length fork_version == 4) ""
      assert (not (activation_epoch == uint64_max)) "sentinel epoch rejected"
      assert (ltb fork_count fork_table_capacity) "fork table full"
      assert_epoch_increases fork_count activation_epoch rows
      let row : Bytes =
            itob activation_epoch
            ++ (fork_version
                ++ (itob finality_gindex ++ (itob current_sc_gindex ++ itob next_sc_gindex))) in
          ok (fork_count + 1, put (row_key fork_count) row rows)

-- The rows left, the next row, and the best row so far.
unfoldable pub find_loop : ℕ → ℕ → ℕ → Store → Bool × ℕ → Result (Bool × ℕ)
find_loop zero i epoch rows best = ok best
find_loop (suc m) i epoch rows best = do
  (row_epoch, _, _, _, _) ← read_row i rows
  let best' : Bool × ℕ = if leb row_epoch epoch then (true, i) else best in
      find_loop m (i + 1) epoch rows best'

unfoldable pub find_row_index_for_epoch : ℕ → ℕ → Store → Result (Bool × ℕ)
find_row_index_for_epoch fork_count epoch rows = find_loop fork_count 0 epoch rows (false, 0)

unfoldable pub lookup_fork_version : ℕ → ℕ → Store → Result Bytes
lookup_fork_version fork_count epoch rows = do
  (found, idx) ← find_row_index_for_epoch fork_count epoch rows
  assert found "no fork row active at this epoch"
  (_, fork_version, _, _, _) ← read_row idx rows
  ok fork_version

unfoldable pub lookup_gindices : ℕ → ℕ → Store → Result (ℕ × ℕ × ℕ)
lookup_gindices fork_count epoch rows = do
  (found, idx) ← find_row_index_for_epoch fork_count epoch rows
  assert found "no fork row active at this epoch"
  (_, _, finality_gindex, current_sc_gindex, next_sc_gindex) ← read_row idx rows
  assert (not (finality_gindex == 0)) "matched row carries no gindices (pre-Altair)"
  ok (finality_gindex, current_sc_gindex, next_sc_gindex)
