-- ===== src/SyncCommittee/Period.antt =====
-- contracts/sync_committee/constants.py: periods, and the constants of the domain.
use eth_avm_light_client.Prelude.{ℕ, ◌-◌, ◌/◌, [], ◌∷◌, if◌then◌else◌, leb}
use eth_avm_light_client.Avm.{Bytes, be}
use eth_avm_light_client.SyncCommittee.Header.{epoch_at_slot}

abbrev pub epochs_per_sync_committee_period : ℕ
epochs_per_sync_committee_period = 256

unfoldable pub period_at_epoch : ℕ → ℕ
period_at_epoch epoch = epoch / epochs_per_sync_committee_period

unfoldable pub period_at_slot : ℕ → ℕ
unfolding period_at_epoch epoch_at_slot
period_at_slot slot = period_at_epoch (epoch_at_slot slot)

unfoldable pub fork_version_epoch_for_signature_slot : ℕ → ℕ
fork_version_epoch_for_signature_slot signature_slot =
    epoch_at_slot (if leb 1 signature_slot then signature_slot - 1 else 0)

abbrev pub domain_sync_committee : Bytes
domain_sync_committee = 7 ∷ 0 ∷ 0 ∷ 0 ∷ []

abbrev pub eth_dst : Bytes
eth_dst =
    be 43 0x424c535f5349475f424c53313233383147325f584d443a5348412d3235365f535357555f524f5f504f505f
