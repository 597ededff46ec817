-- ===== src/SyncCommittee/Verifier/Stuck/Calls.antt =====
-- The calls around the installation leave a stuck verifier stuck
-- (contracts/sync_committee/verifier.py).
use eth_avm_light_client.Prelude.{ℕ, ◌+◌, ◌≤◌, ◌<◌, ◌≡◌, arith}
use eth_avm_light_client.Avm.{Bytes, ok, Hashes}
use eth_avm_light_client.Bls.Curve.{Curve}
use eth_avm_light_client.SyncCommittee.Period.{period_at_slot}
use eth_avm_light_client.SyncCommittee.Verifier.{
  Verifier, append_fork_row, bootstrap, install_begin, install_open_keys, install_open_session,
  install_chunk, install_finalize, install_abort, retire,
}

-- The committee in use is that of the period after the finalized header's, no next committee is
-- known or on its way, and no root of a later one.
pub record IsStuck (p : ℕ) (s : Verifier) : Type 0 where
  pub slot : period_at_slot s.fin_slot ≡ p
  pub installed : 0 < s.cur_gen
  pub ahead : s.cur_period ≡ p + 1
  pub no_next : s.next_gen ≡ 0
  pub idle : s.inst_state ≡ 0
  pub root : s.next_committee_root_period ≤ p + 1

pub begin-IsStuck :
    (p q : ℕ) (s : Verifier) {t : Verifier} → IsStuck p s → install_begin q s ≡ ok t → IsStuck p t
unfolding install_begin
begin-IsStuck p q s i h = ground arith

pub keys-IsStuck :
    (p : ℕ) (s : Verifier) {t : Verifier} → IsStuck p s → install_open_keys s ≡ ok t → IsStuck p t
unfolding install_open_keys
keys-IsStuck p s i h = ground arith

pub session-IsStuck :
    (p : ℕ) (s : Verifier) {t : Verifier}
    → IsStuck p s
    → install_open_session s ≡ ok t
    → IsStuck p t
unfolding install_open_session
session-IsStuck p s i h = ground arith

pub abort-IsStuck :
    (p : ℕ) (sender : Bytes) (s : Verifier) {t : Verifier}
    → IsStuck p s
    → install_abort sender s ≡ ok t
    → IsStuck p t
unfolding install_abort
abort-IsStuck p sender s i h = ground arith

pub retire-IsStuck :
    (p g : ℕ) (s : Verifier) {t : Verifier} → IsStuck p s → retire g s ≡ ok t → IsStuck p t
unfolding retire
retire-IsStuck p g s i h = ground arith

pub append-IsStuck :
    (p : ℕ) (sender : Bytes) (e : ℕ) (v : Bytes) (f cur n : ℕ) (s : Verifier) {t : Verifier}
    → IsStuck p s
    → append_fork_row sender e v f cur n s ≡ ok t
    → IsStuck p t
unfolding append_fork_row
append-IsStuck p sender e v f cur n s i h = ground arith

module _ (h : Hashes) (c : Curve) where
  pub bootstrap-IsStuck :
      (p : ℕ) (sender header root branch trusted : Bytes) (s : Verifier) {t : Verifier}
      → IsStuck p s
      → bootstrap h sender header root branch trusted s ≡ ok t
      → IsStuck p t
  unfolding bootstrap
  bootstrap-IsStuck p sender header root branch trusted s i e = ground arith

  pub chunk-IsStuck :
      (p k : ℕ) (a b : Bytes) (s : Verifier) {t : Verifier}
      → IsStuck p s
      → install_chunk h c k a b s ≡ ok t
      → IsStuck p t
  unfolding install_chunk
  chunk-IsStuck p k a b s i e = ground arith

  pub finalize-IsStuck :
      (p : ℕ) (a b : Bytes) (s : Verifier) {t : Verifier}
      → IsStuck p s
      → install_finalize h c a b s ≡ ok t
      → IsStuck p t
  unfolding install_finalize
  finalize-IsStuck p a b s i e = ground arith
