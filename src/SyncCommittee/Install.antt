-- ===== src/SyncCommittee/Install.antt =====
-- contracts/sync_committee/install.py: the boxes of a committee, and the session that fills them.
pub mod Names
pub mod Complete
pub mod Committee
pub mod Filling
use eth_avm_light_client.Prelude.{
  ℕ, zero, suc, ◌+◌, ◌*◌, ◌/◌, ◌%◌, [], ◌∷◌, ◌++◌, ◌==◌, leb, length, bytes_eq,
}
use eth_avm_light_client.Prelude.Slices.{slice}
use eth_avm_light_client.Avm.{
  Bytes, Result, ok, ◌>>=◌, ◌>>◌, assert, u64, btoi, itob, bzero, Hashes,
}
use eth_avm_light_client.Avm.Store.{Store, remove, box_create, box_extract, box_replace}
use eth_avm_light_client.Bls.Curve.{Curve}
use eth_avm_light_client.Bls.Codec.{g1_bind}
use eth_avm_light_client.Ssz.Merkleize.{merkleize_stack_push, merkleize_stack_finalize}
use eth_avm_light_client.SyncCommittee.Bitfield.{
  key_box_name, total_box_name, keys_per_box, g1_uncompressed_bytes, sync_committee_size,
}

abbrev pub boxes_per_committee : ℕ
boxes_per_committee = 8

abbrev pub key_box_bytes : ℕ
key_box_bytes = 6144

abbrev pub g1_compressed_bytes : ℕ
g1_compressed_bytes = 48

abbrev pub committee_merkle_depth : ℕ
committee_merkle_depth = 9

abbrev pub session_stack_bytes : ℕ
session_stack_bytes = 320

abbrev pub session_box_bytes : ℕ
session_box_bytes = 424

-- "s:"
unfoldable pub session_box_name : ℕ → Bytes
session_box_name gen = 115 ∷ 58 ∷ [] ++ itob gen

-- The boxes left to create, and the next one.
unfoldable pub create_key_boxes : ℕ → ℕ → ℕ → Store → Result Store
create_key_boxes zero j gen boxes = ok boxes
create_key_boxes (suc m) j gen boxes = do
  boxes' ← box_create (key_box_name gen j) key_box_bytes boxes
  create_key_boxes m (j + 1) gen boxes'

unfoldable pub install_open_key_boxes : ℕ → Store → Result Store
install_open_key_boxes gen boxes = create_key_boxes boxes_per_committee 0 gen boxes

unfoldable pub install_open_session_box : ℕ → Store → Result Store
install_open_session_box gen boxes = box_create (session_box_name gen) session_box_bytes boxes

-- op.Box.delete of a box that is not there changes nothing.
unfoldable pub delete_key_boxes : ℕ → ℕ → ℕ → Store → Store
delete_key_boxes zero j gen boxes = boxes
delete_key_boxes (suc m) j gen boxes =
    delete_key_boxes m (j + 1) gen (remove (key_box_name gen j) boxes)

unfoldable pub install_abort_key_boxes : ℕ → Store → Store
install_abort_key_boxes gen boxes = delete_key_boxes boxes_per_committee 0 gen boxes

unfoldable pub install_abort_boxes : ℕ → Store → Store
install_abort_boxes gen boxes =
    remove (session_box_name gen) (delete_key_boxes boxes_per_committee 0 gen boxes)

unfoldable pub install_delete_committee_boxes : ℕ → Store → Store
install_delete_committee_boxes gen boxes =
    remove (total_box_name gen) (delete_key_boxes boxes_per_committee 0 gen boxes)

-- What a session keeps: the stack and the mask of the merkleization, and the sum of the keys.
pub record Session : Type 0 where
  pub stack : Bytes
  pub filled : ℕ
  pub running_sum : Bytes

unfoldable pub parse_session : Bytes → Result Session
parse_session session = do
  filled ← btoi (slice session 320 8)
  ok (record {
    stack = slice session 0 session_stack_bytes;
    filled = filled;
    running_sum = slice session 328 96;
  })

unfoldable pub read_session : ℕ → Store → Result Session
read_session gen boxes =
    box_extract (session_box_name gen) 0 session_box_bytes boxes >>= parse_session

-- The hash tree root of a compressed key.
unfoldable pub key_leaf : Hashes → Bytes → Bytes
key_leaf h compressed = h.sha256 (compressed ++ bzero 16)

module _ (h : Hashes) (c : Curve) where
  -- One member: the key is bound, stored, pushed and added.
  unfoldable pub install_member : ℕ → ℕ → Bytes → Bytes → Session → Store → Result (Session × Store)
  install_member gen i comp uncomp session boxes = do
    g1_bind c uncomp comp
    boxes' ←
        box_replace (key_box_name gen (i / keys_per_box)) (i % keys_per_box * g1_uncompressed_bytes)
          uncomp boxes
    (stack', filled') ← merkleize_stack_push h (session.stack) (session.filled) (key_leaf h comp)
    sum' ← c.g1_add (session.running_sum) uncomp
    ok (record { stack = stack'; filled = filled'; running_sum = sum' }, boxes')

  -- The members left and the next one of the chunk.
  unfoldable pub install_members :
      ℕ → ℕ → ℕ → ℕ → Bytes → Bytes → Session → Store → Result (Session × Store)
  install_members zero m gen cursor comps uncomps session boxes = ok (session, boxes)
  install_members (suc k) m gen cursor comps uncomps session boxes = do
    (session', boxes') ←
        install_member gen (cursor + m) (slice comps (m * 48) 48) (slice uncomps (m * 96) 96)
          session boxes
    install_members k (m + 1) gen cursor comps uncomps session' boxes'

  -- The new cursor, and the boxes.
  unfoldable pub install_process_chunk : ℕ → ℕ → Bytes → Bytes → Store → Result (ℕ × Store)
  install_process_chunk gen cursor compressed_blob uncompressed_blob boxes = do
    assert (length compressed_blob % g1_compressed_bytes == 0)
        "compressed blob not a multiple of 48"
    let k : ℕ = length compressed_blob / g1_compressed_bytes in
        (do
          assert (length uncompressed_blob == k * g1_uncompressed_bytes)
              "uncompressed blob length mismatch"
          end ← u64 (cursor + k)
          assert (leb end sync_committee_size) "chunk would overflow the committee"
          session ← read_session gen boxes
          (session', boxes') ←
              install_members k 0 gen cursor compressed_blob uncompressed_blob session boxes
          boxes'' ←
              box_replace (session_box_name gen) 0
                (session'.stack ++ (itob (session'.filled) ++ session'.running_sum)) boxes'
          ok (end, boxes''))

  -- A_total, and the boxes.
  unfoldable pub install_process_finalize :
      ℕ → ℕ → Bytes → Bytes → Bytes → Store → Result (Bytes × Store)
  install_process_finalize gen cursor inst_root aggregate_compressed aggregate_uncompressed boxes =
      do
        assert (cursor == sync_committee_size) "install session incomplete"
        assert (length inst_root == 32) ""
        assert (length aggregate_compressed == g1_compressed_bytes) ""
        assert (length aggregate_uncompressed == g1_uncompressed_bytes) ""
        session ← read_session gen boxes
        vector_root ←
            merkleize_stack_finalize h (session.stack) (session.filled) committee_merkle_depth
        assert (bytes_eq (h.sha256 (vector_root ++ key_leaf h aggregate_compressed)) inst_root)
            "committee does not fold to the trusted root"
        g1_bind c aggregate_uncompressed aggregate_compressed
        assert (bytes_eq aggregate_uncompressed (session.running_sum))
            "aggregate_pubkey != sum of installed keys"
        ok (session.running_sum, remove (session_box_name gen) boxes)
