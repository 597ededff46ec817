-- ===== src/Rlp/Runs.antt =====
-- The RLP routines on concrete buffers.
use eth_avm_light_client.Prelude.{◌+◌, ◌≤◌, ◌≡◌, refl, true, [], ◌∷◌, arith, length, bytes_eq}
use eth_avm_light_client.Prelude.Slices.{slice}
use eth_avm_light_client.Avm.{Bytes, ok}
use eth_avm_light_client.Rlp.Core.{
  rlp_skip, rlp_item_header, rlp_list_header, item_span, read_len, list_span,
}
use eth_avm_light_client.Rlp.Scan.{rlp_scan_n, scan_loop, rlp_scan2, rlp_scan_upto, rlp_table_item}
use eth_avm_light_client.Rlp.Scan.Items.{Items, done, item}
use eth_avm_light_client.Rlp.Scan.Table.{Scanned, scan_n_sound, scan_n_complete}
use eth_avm_light_client.Rlp.Scan.Upto.{scan_upto-table_item}
use eth_avm_light_client.Rlp.Nibbles.{nibbles_equal}
use eth_avm_light_client.Rlp.Nibbles.Range.{nibs, nibbles_equal_lem}
use eth_avm_light_client.Rlp.Nibbles.Prefix.{Decodes, compact_odd, hp_decode-compact_odd}
use eth_avm_light_client.Rlp.Envelope.{receipt_envelope}

-- A list of the string AA BB and the byte 5.
abbrev pair : Bytes
pair = 0xC4 ∷ 0x82 ∷ 0xAA ∷ 0xBB ∷ 5 ∷ []

abbrev pair_table : Bytes
pair_table = 0 ∷ 1 ∷ 0 ∷ 4 ∷ 0 ∷ 5 ∷ []

-- A receipt of type 2 whose list holds the byte 5.
abbrev receipt : Bytes
receipt = 2 ∷ 0xC1 ∷ 5 ∷ []

pair_scan : rlp_scan_n pair 0 17 ≡ ok (pair_table, 2)
unfolding rlp_scan_n scan_loop rlp_list_header list_span read_len rlp_skip
pair_scan = refl

pair_scan2 : rlp_scan2 pair 0 ≡ ok (2, 2, 1, 4, 1, 0)
unfolding rlp_scan2 rlp_list_header list_span read_len rlp_item_header item_span
pair_scan2 = refl

pair_header : rlp_list_header pair 0 ≡ ok (1, 5)
unfolding rlp_list_header list_span read_len
pair_header = refl

first_item : rlp_item_header pair 1 ≡ ok (2, 2, 1)
unfolding rlp_item_header item_span read_len
first_item = refl

pair-Items : Items pair 5 1 (1 ∷ 4 ∷ [])
unfolding rlp_skip
pair-Items = item (omega arith) refl (item (omega arith) refl (done refl))

receipt_runs : receipt_envelope receipt 0 3 ≡ ok (2, 1, 2)
unfolding receipt_envelope
receipt_runs = refl

scan_n_sound_example : Scanned pair 0 17 pair_table 2
scan_n_sound_example = scan_n_sound pair 0 17 pair_scan

scan_n_complete_example : rlp_scan_n pair 0 17 ≡ ok (pair_table, 2)
scan_n_complete_example =
    scan_n_complete pair 0 17 (1 ∷ 4 ∷ []) pair_header pair-Items (omega arith) (omega arith)

scan_upto-table_item_example : rlp_scan_upto pair 0 1 ≡ rlp_table_item pair pair_table 1
scan_upto-table_item_example =
    scan_upto-table_item pair 0 17 1 pair_scan (omega arith) (omega arith)

nibbles_room : 3 + 2 ≤ length (nibs pair)
unfolding nibs
nibbles_room = omega arith

nibbles_room_later : 4 + 2 ≤ length (nibs pair)
unfolding nibs
nibbles_room_later = omega arith

nibbles_equal_lem_example :
    nibbles_equal pair 3 pair 4 2 ≡ ok (bytes_eq (slice (nibs pair) 3 2) (slice (nibs pair) 4 2))
nibbles_equal_lem_example = nibbles_equal_lem pair 3 pair 4 2 nibbles_room nibbles_room_later

hp_decode-compact_odd_example :
    Decodes (7 ∷ []) (compact_odd true 9 (1 ∷ 2 ∷ [])) [] true (9 ∷ 1 ∷ 2 ∷ [])
hp_decode-compact_odd_example =
    hp_decode-compact_odd (7 ∷ []) [] true 1 (1 ∷ 2 ∷ []) 9 refl
      (omega arith, (omega arith, (omega arith, tt))) (omega arith)
