-- ===== src/SyncCommittee/Message.antt =====
-- contracts/sync_committee/header.py: the point that a committee signs.
use eth_avm_light_client.Avm.{Bytes, Result, ◌>>=◌, Hashes}
use eth_avm_light_client.Bls.Curve.{Curve}
use eth_avm_light_client.Bls.HashToCurve.{hash_to_g2}
use eth_avm_light_client.SyncCommittee.Header.{compute_domain, compute_signing_root}
use eth_avm_light_client.SyncCommittee.Period.{domain_sync_committee, eth_dst}

unfoldable signing_root_msg_point : Hashes → Curve → Bytes → Bytes → Bytes → Result Bytes
signing_root_msg_point h c header fork_version genesis_validators_root = do
  domain ← compute_domain h domain_sync_committee fork_version genesis_validators_root
  signing_root ← compute_signing_root h header domain
  hash_to_g2 h c signing_root eth_dst
