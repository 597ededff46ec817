-- ===== src/Receipt/Runs.antt =====
-- A receipt with one log, in a leaf of its own, and a consumer of the result.
use eth_avm_light_client.Prelude.{◌≡◌, refl, [], ◌∷◌, ◌++◌, arith, bytes_eq, replicate}
use eth_avm_light_client.Prelude.Slices.{splice}
use eth_avm_light_client.Avm.{Bytes, ok, byte1, be, be2, itob, bzero}
use eth_avm_light_client.Avm.Group.{Call}
use eth_avm_light_client.Toy.{digest, toy}
use eth_avm_light_client.Rlp.Core.{
  rlp_list_header, list_span, read_len, rlp_item_header, item_span, rlp_skip,
}
use eth_avm_light_client.Rlp.Scan.{rlp_scan, rlp_scan_n, scan_loop, rlp_table_item}
use eth_avm_light_client.Rlp.Envelope.{receipt_envelope}
use eth_avm_light_client.Rlp.Nibbles.{hp_decode, nibbles_equal, aligned_equal, nibbles_loop}
use eth_avm_light_client.Mpt.State.{
  w_status, w_depth, w_key_nibs, w_key, w_expected, w_with_terminal, walk_included,
}
use eth_avm_light_client.Mpt.Handoff.{mpt_log_state, mpt_state_from_prev, state_from_prev-log_state}
use eth_avm_light_client.Mpt.Descend.{mpt_arity_discriminate}
use eth_avm_light_client.Mpt.Walk.{mpt_walk_node, walk_loop, mpt_hop, mpt_leaf_hop}
use eth_avm_light_client.Receipt.State.{
  r_with_terminal, mpt7_init_result, r_rstatus, r_receipts_root, r_tx_index, r_log_index, r_address,
  r_n_topics, r_topics, r_data_hash, r_data_len, r_status, r_tx_type,
}
use eth_avm_light_client.Receipt.Decode.{mpt7_receipt_body, mpt7_log_at, topics_loop}
use eth_avm_light_client.Receipt.Handoff.{
  Verdict, segment_selector, mpt7_log_state, mpt7_state_from_prev, read_verdict,
  mpt7_result_from_group,
}
use eth_avm_light_client.Receipt.Handoff.Results.{Answered, result_from_group-Answered}
use eth_avm_light_client.Receipt.App.{finalize_if_terminal, finalize_included, without_log, walk7}
use eth_avm_light_client.Receipt.App.Walks.{Matches, walk7-Matches}

abbrev address : Bytes
address = replicate 20 7

-- The status 1, the gas 5, an empty bloom, and one log with no topics and no data.
abbrev receipt : Bytes
receipt = 0xDC ∷ 1 ∷ 5 ∷ 0x80 ∷ 0xD8 ∷ 0xD7 ∷ 0x94 ∷ (address ++ (0xC0 ∷ 0x80 ∷ []))

abbrev node : Bytes
node = 0xE1 ∷ 0x82 ∷ 0x20 ∷ 1 ∷ 0x9D ∷ receipt

abbrev w : Bytes
w = 0 ∷ (digest node ++ (digest node ++ (be2 0 ++ (be2 2 ++ (1 ∷ bzero 31)))))

abbrev w' : Bytes
w' = splice w 0 (byte1 walk_included)

-- Transaction 1, log 0.
abbrev r : Bytes
r = 0 ∷ (digest node ++ (itob 1 ++ (be2 0 ++ bzero 197)))

abbrev r' : Bytes
r' =
    1
    ∷ (digest node
        ++ (itob 1
            ++ (be2 0
                ++ (0
                    ∷ 1
                    ∷ (itob 5
                        ++ (address
                            ++ (0 ∷ (bzero 128 ++ (digest [] ++ (be 4 0 ++ (1 ∷ 1 ∷ [])))))))))))

starts : mpt7_init_result (digest node) 1 0 ≡ ok r
unfolding mpt7_init_result
starts = refl

walks : walk7 toy (node ∷ []) r w ≡ ok (w', r')
unfolding walk7 mpt_walk_node walk_loop mpt_hop mpt_arity_discriminate rlp_list_header list_span
    read_len rlp_item_header item_span hp_decode mpt_leaf_hop nibbles_equal aligned_equal
    nibbles_loop w_status w_depth w_key_nibs w_key w_expected w_with_terminal bytes_eq
    finalize_if_terminal finalize_included without_log mpt7_receipt_body mpt7_log_at topics_loop
    receipt_envelope rlp_scan rlp_scan_n scan_loop rlp_table_item rlp_skip r_log_index
    r_with_terminal
walks = refl

going : w_status w ≡ ok 0
unfolding w_status
going = refl

walk7-Matches_example : Matches w' r r'
walk7-Matches_example = walk7-Matches toy (node ∷ []) r w going walks

abbrev call : Call
call = record {
  app_id = 9;
  app_arg_0 = segment_selector;
  last_log = 21 ∷ 31 ∷ 124 ∷ 117 ∷ (be2 341 ++ (w' ++ r'));
}

logs : mpt7_log_state w' r' ≡ ok call.last_log
unfolding mpt7_log_state
logs = refl

abbrev verdict : Verdict
verdict = record {
  rstatus = 1;
  address = address;
  n_topics = 0;
  topics = bzero 128;
  data_hash = digest [];
  data_len = 0;
  status = 1;
  tx_type = 0;
}

answers : mpt7_result_from_group (call ∷ []) 1 9 0 (digest node) 1 0 ≡ ok verdict
unfolding mpt7_result_from_group mpt7_state_from_prev read_verdict bytes_eq r_rstatus
    r_receipts_root r_tx_index r_log_index r_address r_n_topics r_topics r_data_hash r_data_len
    r_status r_tx_type
answers = refl

result_from_group-Answered_example : Answered (call ∷ []) 1 9 0 (digest node) 1 0 verdict
result_from_group-Answered_example =
    result_from_group-Answered (call ∷ []) 1 9 0 (digest node) 1 0 answers

abbrev walk_call : Call
walk_call = record {
  app_id = 9;
  app_arg_0 = 1 ∷ [];
  last_log = 21 ∷ 31 ∷ 124 ∷ 117 ∷ (be2 101 ++ w);
}

walk_logs : mpt_log_state w ≡ ok walk_call.last_log
unfolding mpt_log_state
walk_logs = refl

state_from_prev-log_state_example : mpt_state_from_prev (walk_call ∷ []) 1 9 0 (1 ∷ []) ≡ ok w
state_from_prev-log_state_example =
    state_from_prev-log_state w (walk_call ∷ []) 1 9 0 (1 ∷ []) walk_call walk_logs (omega arith)
      refl refl refl
