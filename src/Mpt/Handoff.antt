-- ===== src/Mpt/Handoff.antt =====
-- contracts/mpt/handoff.py: the walk state W, from an earlier call of the group.
use eth_avm_light_client.Prelude.{
  ℕ, ◌<◌, ◌≡◌, refl, sym, ap, ◌∙◌, List, ltb, lt→ltb, ◌==◌, ==_iff, ==_refl, ◌++◌, [], ◌∷◌, length,
  bytes_eq, bytes_eq_refl, get_elem?, some, arith,
}
use eth_avm_light_client.Prelude.Slices.{slice, slice_all}
use eth_avm_light_client.Avm.{Bytes, Result, ok, ◌>>=◌, ◌>>◌, assert, extract, be2}
use eth_avm_light_client.Avm.Results.{assert-eq-ok, ok_inj}
use eth_avm_light_client.Avm.Words.{extract-slice}
use eth_avm_light_client.Avm.Group.{Call, call_or_panic}
use eth_avm_light_client.Mpt.State.{w_len}

-- 0x151f7c75
abbrev pub arc4_return_prefix : Bytes
arc4_return_prefix = 21 ∷ 31 ∷ 124 ∷ 117 ∷ []

abbrev pub log_len : ℕ
log_len = 107

unfoldable pub mpt_log_state : Bytes → Result Bytes
mpt_log_state w = do assert (length w == w_len) "W16"; ok (arc4_return_prefix ++ (be2 w_len ++ w))

-- `group` holds the calls of the group, `group_index` and `app_id` are the caller's own.
unfoldable pub mpt_state_from_prev : List Call → ℕ → ℕ → ℕ → Bytes → Result Bytes
mpt_state_from_prev group group_index app_id gi selector = do
  assert (ltb gi group_index) "W13"
  prev ← call_or_panic (get_elem? group gi)
  assert (prev.app_id == app_id) "W14"
  assert (bytes_eq (prev.app_arg_0) selector) "W15"
  assert (length (prev.last_log) == log_len) "W16"
  prefix ← extract (prev.last_log) 0 4
  assert (bytes_eq prefix arc4_return_prefix) "W16"
  extract (prev.last_log) 6 w_len

-- A state that one call of a group logs is the state that a later call of the group takes over,
-- where the two are calls of one application and the selector is the one that the first was called
-- with.
pub state_from_prev-log_state :
    (w : Bytes) (group : List Call) (group_index app_id gi : ℕ) (selector : Bytes) (call : Call)
    → mpt_log_state w ≡ ok call.last_log
    → gi < group_index
    → get_elem? group gi ≡ some call
    → call.app_id ≡ app_id
    → call.app_arg_0 ≡ selector
    → mpt_state_from_prev group group_index app_id gi selector ≡ ok w
unfolding mpt_log_state mpt_state_from_prev bytes_eq
state_from_prev-log_state w group group_index app_id gi selector call logged before there app arg =
    let (t, e) = assert-eq-ok (length w == w_len) "W16" _ logged in
    let size : length w ≡ 101 = (==_iff (length w) 101).0 t in
    let is : call.last_log ≡ arc4_return_prefix ++ (be2 w_len ++ w) = sym (ok_inj e) in
    let total : length call.last_log ≡ 107 = ap length is ∙ omega arith in
    rw
      (
        lt→ltb gi group_index before,
        there,
        ap (λ n. n == app_id) app ∙ ==_refl app_id,
        ap (λ b. bytes_eq b selector) arg ∙ bytes_eq_refl selector,
        ap (λ n. n == log_len) total,
        extract-slice call.last_log 0 4 (omega arith) (ap (λ b. slice b 0 4) is),
        extract-slice call.last_log 6 101 (omega arith)
            (ap (λ b. slice b 6 101) is ∙ slice_all w 101 (omega arith)),
      )
      refl
