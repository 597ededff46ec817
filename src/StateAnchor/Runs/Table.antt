-- ===== src/StateAnchor/Runs/Table.antt =====
-- A fork table of one row.
use eth_avm_light_client.Prelude.{ℕ, ◌+◌, ◌≡◌, refl, arith}
use eth_avm_light_client.Avm.{ok}
use eth_avm_light_client.StateAnchor.Forks as Forks
use eth_avm_light_client.StateAnchor.Forks.{
  row_key, read_row, assert_epoch_increases, lookup_row, find_row_index_for_epoch, find_loop,
}
use eth_avm_light_client.StateAnchor.Forks.Table.{IsTable, Looked, lookup_row-Looked}
use eth_avm_light_client.StateAnchor.Forks.Append.{extend, append_fork_row-IsTable}
use eth_avm_light_client.StateAnchor.Runs.{no_rows, rows}

abbrev first_row : ℕ → Forks.Row
first_row i = (0, 2, 2, 2, 2)

empty_table : IsTable 0 no_rows first_row
empty_table = record {
  fits = omega arith;
  reads = λ i lo. absurd (omega arith);
  rising = λ i lo. absurd (omega arith);
}

abbrev one_row : ℕ → Forks.Row
one_row = extend 0 (0, 2, 2, 2, 2) first_row

appends : Forks.append_fork_row 0 0 2 2 2 2 no_rows ≡ ok (1, rows)
unfolding Forks.append_fork_row assert_epoch_increases
appends = refl

append_fork_row-IsTable_example : (1 ≡ 0 + 1) × IsTable 1 rows one_row
append_fork_row-IsTable_example =
    append_fork_row-IsTable 0 0 2 2 2 2 no_rows first_row empty_table (omega arith) (omega arith)
      (omega arith) (omega arith) (omega arith) appends

table : IsTable 1 rows one_row
table =
    (append_fork_row-IsTable 0 0 2 2 2 2 no_rows first_row empty_table (omega arith) (omega arith)
      (omega arith) (omega arith) (omega arith) appends).1

lookup_row-Looked_example : Looked 1 rows one_row table 2 (lookup_row 1 2 rows)
lookup_row-Looked_example = lookup_row-Looked 1 rows one_row table 2
