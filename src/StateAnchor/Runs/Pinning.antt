-- ===== src/StateAnchor/Runs/Pinning.antt =====
-- A block that two senders pin, one after the other.
use eth_avm_light_client.Prelude.{◌≡◌, refl, ◌++◌, bytes_eq}
use eth_avm_light_client.Avm.{ok, bzero}
use eth_avm_light_client.Avm.Store.{put}
use eth_avm_light_client.StateAnchor.Record.{a_version, a_matches_block_number, a_block_number}
use eth_avm_light_client.StateAnchor.Box.{
  ring_box_name, pin_box_name, ring_residue, read_ring_slot, pin_write,
}
use eth_avm_light_client.StateAnchor.App.{Anchor, Txn, Payment, pin, is_record_of}
use eth_avm_light_client.StateAnchor.App.Pins.{Refunded, pin-unpin}
use eth_avm_light_client.StateAnchor.Runs.{txn, stranger, anchored, s'}

abbrev payment : Payment
payment = record { receiver = txn.app_address; amount = 80900 }

abbrev pinned_by : Txn → Anchor → Anchor
pinned_by t s = record s { boxes = put (pin_box_name 5) (anchored ++ t.sender) s.boxes }

abbrev once : Anchor
once = pinned_by txn (record s' { boxes = put (pin_box_name 5) (bzero 186) s'.boxes })

abbrev twice : Anchor
twice = pinned_by stranger once

first : pin txn 5 payment s' ≡ ok once
unfolding pin read_ring_slot ring_residue put bytes_eq ring_box_name pin_box_name pin_write
    is_record_of a_version a_matches_block_number a_block_number
first = refl

second : pin stranger 5 payment once ≡ ok twice
unfolding pin read_ring_slot ring_residue put bytes_eq ring_box_name pin_box_name pin_write
    is_record_of a_version a_matches_block_number a_block_number
second = refl

pin-unpin_example : Refunded stranger.sender 5 twice
pin-unpin_example = pin-unpin stranger 5 payment once second
