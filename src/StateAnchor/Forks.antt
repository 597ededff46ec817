-- ===== src/StateAnchor/Forks.antt =====
-- contracts/state_anchor/forks.py: the table of generalized indices by fork.
pub mod Table
pub mod Append
use eth_avm_light_client.Prelude.{
  ℕ, zero, suc, ◌+◌, ◌-◌, [], ◌∷◌, ◌++◌, Bool, true, false, not, Option, none, some, if◌then◌else◌,
  ◌==◌, ltb, leb, length,
}
use eth_avm_light_client.Prelude.Slices.{slice}
use eth_avm_light_client.Avm.{
  Bytes, Result, ok, err, code, ◌>>=◌, ◌>>◌, assert, u64, btoi, itob, byte1, u64_mod,
}
use eth_avm_light_client.Avm.Store.{Store, put}

abbrev pub fork_row_bytes : ℕ
fork_row_bytes = 40

abbrev pub fork_table_capacity : ℕ
fork_table_capacity = 8

-- "g"
abbrev pub fork_row_key_prefix : Bytes
fork_row_key_prefix = 103 ∷ []

abbrev pub uint64_max : ℕ
uint64_max = u64_mod - 1

-- (activation_epoch, g_state_root, g_receipts_root, g_block_number, g_block_roots_base)
abbrev pub Row : Type 0
Row = ℕ × ℕ × ℕ × ℕ × ℕ

unfoldable pub row_key : ℕ → Bytes
row_key index = fork_row_key_prefix ++ byte1 index

-- `exists`, the length, and the five numbers
abbrev pub decode_row : Option Bytes → Result Row
decode_row none = err (code "fork row missing")
decode_row (some raw) = do
  assert (length raw == fork_row_bytes) "fork row wrong length"
  activation_epoch ← btoi (slice raw 0 8)
  g_state_root ← btoi (slice raw 8 8)
  g_receipts_root ← btoi (slice raw 16 8)
  g_block_number ← btoi (slice raw 24 8)
  g_block_roots_base ← btoi (slice raw 32 8)
  ok (activation_epoch, g_state_root, g_receipts_root, g_block_number, g_block_roots_base)

unfoldable pub read_row : ℕ → Store → Result Row
read_row index rows = decode_row (rows (row_key index))

-- The check against the last row, when there is one.
unfoldable pub assert_epoch_increases : ℕ → ℕ → Store → Result (Unit {0})
assert_epoch_increases fork_count activation_epoch rows =
    if ltb 0 fork_count
    then (do
      (prev_epoch, _, _, _, _) ← read_row (fork_count - 1) rows
      assert (ltb prev_epoch activation_epoch) "activation_epoch must strictly increase")
    else ok tt

unfoldable pub append_fork_row : ℕ → ℕ → ℕ → ℕ → ℕ → ℕ → Store → Result (ℕ × Store)
append_fork_row fork_count activation_epoch g_state_root g_receipts_root g_block_number
      g_block_roots_base rows =
    do
      assert (not (activation_epoch == uint64_max)) "N17-sentinel"
      assert (ltb fork_count fork_table_capacity) "fork table full"
      assert (leb 2 g_state_root) "g_state_root must be a real composed gindex"
      assert (leb 2 g_receipts_root) "g_receipts_root must be a real composed gindex"
      assert (leb 2 g_block_number) "g_block_number must be a real composed gindex"
      assert (leb 2 g_block_roots_base) "g_block_roots_base must be a real composed gindex"
      assert_epoch_increases fork_count activation_epoch rows
      let row : Bytes =
            itob activation_epoch
            ++ (itob g_state_root
                ++ (itob g_receipts_root ++ (itob g_block_number ++ itob g_block_roots_base))) in
          ok (fork_count + 1, put (row_key fork_count) row rows)

-- The rows left, the next row, and the best row so far.
unfoldable pub find_loop : ℕ → ℕ → ℕ → Store → Bool × ℕ → Result (Bool × ℕ)
find_loop zero i epoch rows best = ok best
find_loop (suc m) i epoch rows best = do
  (row_epoch, _, _, _, _) ← read_row i rows
  let best' : Bool × ℕ = if leb row_epoch epoch then (true, i) else best in
      find_loop m (i + 1) epoch rows best'

unfoldable pub find_row_index_for_epoch : ℕ → ℕ → Store → Result (Bool × ℕ)
find_row_index_for_epoch fork_count epoch rows = find_loop fork_count 0 epoch rows (false, 0)

unfoldable pub lookup_row : ℕ → ℕ → Store → Result (ℕ × ℕ × ℕ × ℕ)
lookup_row fork_count epoch rows = do
  (found, idx) ← find_row_index_for_epoch fork_count epoch rows
  assert found "N17"
  (_, g_state_root, g_receipts_root, g_block_number, g_block_roots_base) ← read_row idx rows
  ok (g_state_root, g_receipts_root, g_block_number, g_block_roots_base)
