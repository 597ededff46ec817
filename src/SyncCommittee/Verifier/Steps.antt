-- ===== src/SyncCommittee/Verifier/Steps.antt =====
-- The calls of the verifier as steps of its state, and the states that they reach.
use eth_avm_light_client.Prelude.{ℕ, ◌<◌, ◌≡◌, Option}
use eth_avm_light_client.Avm.{Bytes, ok, u64_mod, Hashes}
use eth_avm_light_client.Bls.Curve.{Curve}
use eth_avm_light_client.SyncCommittee.Verifier.{
  Verifier, append_fork_row, bootstrap, install_begin, install_open_keys, install_open_session,
  install_chunk, install_finalize, install_abort, retire,
}
use eth_avm_light_client.SyncCommittee.Verifier.Update.{Arguments, UpdateVerified, submit_update}

-- A call that succeeds.
pub data Step (h : Hashes) (c : Curve) (s t : Verifier) : Type 0 where
  appends :
      (sender : Bytes) (epoch : ℕ) (version : Bytes) (finality current next : ℕ)
      → append_fork_row sender epoch version finality current next s ≡ ok t
      → Step h c s t
  bootstraps :
      (sender header root branch trusted : Bytes)
      → bootstrap h sender header root branch trusted s ≡ ok t
      → Step h c s t
  begins : (period : ℕ) → install_begin period s ≡ ok t → Step h c s t
  opens_keys : install_open_keys s ≡ ok t → Step h c s t
  opens_session : install_open_session s ≡ ok t → Step h c s t
  chunks :
      (index : ℕ) (compressed uncompressed : Bytes)
      → install_chunk h c index compressed uncompressed s ≡ ok t
      → Step h c s t
  finalizes :
      (compressed uncompressed : Bytes)
      → install_finalize h c compressed uncompressed s ≡ ok t
      → Step h c s t
  aborts : (sender : Bytes) → install_abort sender s ≡ ok t → Step h c s t
  -- The argument is a uint64.
  retires : (gen : ℕ) → gen < u64_mod → retire gen s ≡ ok t → Step h c s t
  updates :
      (u : Arguments) (event : Option UpdateVerified)
      → submit_update h c u s ≡ ok (t, event)
      → Step h c s t

pub data Reach (h : Hashes) (c : Curve) (s : Verifier) : Verifier → Type 0 where
  here : Reach h c s s
  next : {t u : Verifier} → Reach h c s t → Step h c t u → Reach h c s u
