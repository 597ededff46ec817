-- ===== src/Receipt/Box.antt =====
-- contracts/receipt/box.py: a leaf that is put together in a box.
use eth_avm_light_client.Prelude.{ℕ, leb}
use eth_avm_light_client.Avm.{Bytes, Result, ◌>>◌, assert}
use eth_avm_light_client.Avm.Store.{Store, remove, box_create, box_extract, box_replace}

abbrev pub min_staged_leaf : ℕ
min_staged_leaf = 1943

abbrev pub max_staged_leaf : ℕ
max_staged_leaf = 4096

unfoldable pub mpt7_stage_open : Bytes → ℕ → Store → Result Store
mpt7_stage_open name leaf_len boxes = do
  assert (leb min_staged_leaf leaf_len) "L7"
  assert (leb leaf_len max_staged_leaf) "L7"
  box_create name leaf_len (remove name boxes)

unfoldable pub mpt7_stage_write : Bytes → ℕ → Bytes → Store → Result Store
mpt7_stage_write name offset chunk boxes = box_replace name offset chunk boxes

unfoldable pub mpt7_stage_read : Bytes → ℕ → Store → Result Bytes
mpt7_stage_read name leaf_len boxes = box_extract name 0 leaf_len boxes

unfoldable pub mpt7_stage_close : Bytes → Store → Store
mpt7_stage_close name boxes = remove name boxes
