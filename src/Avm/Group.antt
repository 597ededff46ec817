-- ===== src/Avm/Group.antt =====
-- The other calls of a transaction group, as a program sees them.
use eth_avm_light_client.Prelude.{ℕ, ◌≡◌, ap, Option, none, some}
use eth_avm_light_client.Avm.{Bytes, Result, ok, err, panic}
use eth_avm_light_client.Avm.Results.{ok_inj}

-- What another application call of the group shows.
pub record Call : Type 0 where
  pub app_id : ℕ
  pub app_arg_0 : Bytes
  pub last_log : Bytes

abbrev pub call_or_panic : Option Call → Result Call
call_or_panic none = err panic
call_or_panic (some c) = ok c

pub call_or_panic-eq-ok : (o : Option Call) {c : Call} → call_or_panic o ≡ ok c → o ≡ some c
call_or_panic-eq-ok none e = cc
call_or_panic-eq-ok (some x) e = ap some (ok_inj e)
