-- ===== src/Rlp/Scan/Table.antt =====
-- What a successful `rlp_scan_n` has found, and when it succeeds.
use mathlib.Core.Logic.{◌≢◌}
use eth_avm_light_client.Prelude.{
  ℕ, zero, suc, ◌+◌, ◌*◌, ◌≤◌, ◌<◌, ◌^◌, ◌≡◌, ◌∙◌, ◌⊎◌, inl, inr, List, [], ◌∷◌, ◌++◌, length,
  length-append, append_assoc, arith,
}
use eth_avm_light_client.Avm.{Bytes, ok, err, out_of_fuel, be2, u64_mod}
use eth_avm_light_client.Avm.Results.{Result-cases}
use eth_avm_light_client.Rlp.Core.{rlp_skip, rlp_list_header, read_len}
use eth_avm_light_client.Rlp.Scan.{scan_loop, rlp_scan_n}
use eth_avm_light_client.Rlp.Scan.Items.{Items, done, item, table_of, length-table_of}

-- One round of the loop that ends in success.
record Round (fuel : ℕ) (buf : Bytes) (end limit : ℕ) (table : Bytes) (pos : ℕ) (t : Bytes)
    : Type 0 where
  next : ℕ
  before : pos < end
  room : length table < 2 * limit
  skipped : rlp_skip buf pos ≡ ok next
  rest : scan_loop fuel buf end limit (table ++ be2 pos) next ≡ ok t

scan-Round :
    (fuel : ℕ) (buf : Bytes) (end limit : ℕ) (table : Bytes) (pos : ℕ) {t : Bytes}
    → scan_loop (suc fuel) buf end limit table pos ≡ ok t
    → ((pos ≡ end) × (t ≡ table ++ be2 end)) ⊎ Round fuel buf end limit table pos t
unfolding scan_loop
scan-Round fuel buf end limit table pos h = ground arith

scan_loop_sound :
    (fuel : ℕ) (buf : Bytes) (end limit : ℕ) (table : Bytes) (pos : ℕ) {t : Bytes}
    → length table ≤ 2 * limit + 1
    → scan_loop fuel buf end limit table pos ≡ ok t
    → (heads : List ℕ) × Items buf end pos heads
      × (t ≡ table ++ table_of heads end)
      × (length table + 2 * length heads ≤ 2 * limit + 1)
scan_loop_sound zero buf end limit table pos b h = unfold scan_loop in cc
scan_loop_sound (suc fuel) buf end limit table pos b h =
    elim (scan-Round fuel buf end limit table pos h) [
      | inl (e, te) ↦ ([], done e, te, omega arith)
      | inr r ↦
          let (heads, items, te, room) =
            scan_loop_sound fuel buf end limit (table ++ be2 pos) r.next
              (omega (arith, r.room, length-append table (be2 pos))) r.rest in
          (
            pos ∷ heads,
            item r.before r.skipped items,
            te ∙ append_assoc table (be2 pos) (table_of heads end),
            omega (arith, length-append table (be2 pos), room),
          )
    ]

scan_loop_complete :
    (fuel : ℕ) (buf : Bytes) (end limit : ℕ) (table : Bytes) (pos : ℕ) (heads : List ℕ)
    → Items buf end pos heads
    → length heads < fuel
    → length table + 2 * length heads ≤ 2 * limit
    → 2 * limit < u64_mod
    → scan_loop fuel buf end limit table pos ≡ ok (table ++ table_of heads end)
unfolding scan_loop
scan_loop_complete zero buf end limit table pos heads d f b w = absurd (omega arith)
scan_loop_complete (suc fuel) buf end limit table pos heads (done e) f b w = ground arith
scan_loop_complete (suc fuel) buf end limit table pos heads (item {next = n} {heads = rest} lt s d)
      f b w =
    ground (
      arith,
      scan_loop_complete fuel buf end limit (table ++ be2 pos) n rest d,
      append_assoc table (be2 pos) (table_of rest end),
      length-append table (be2 pos),
    )

skip-ne-out_of_fuel : (buf : Bytes) (pos : ℕ) → rlp_skip buf pos ≢ err out_of_fuel
unfolding rlp_skip read_len
skip-ne-out_of_fuel buf pos h = ground arith

scan_loop-fuel :
    (fuel : ℕ) (buf : Bytes) (end limit : ℕ) (table : Bytes) (pos : ℕ)
    → 0 < fuel
    → 2 * limit + 1 < length table + 2 * fuel
    → scan_loop fuel buf end limit table pos ≢ err out_of_fuel
unfolding scan_loop
scan_loop-fuel zero buf end limit table pos p b h = absurd (omega arith)
scan_loop-fuel (suc zero) buf end limit table pos p b h =
    ground (arith, skip-ne-out_of_fuel buf pos)
scan_loop-fuel (suc (suc fuel)) buf end limit table pos p b h =
    elim (Result-cases (rlp_skip buf pos)) [
      | inl (n, e) ↦ ground (
        arith,
        length-append table (be2 pos),
        scan_loop-fuel (suc fuel) buf end limit (table ++ be2 pos) n,
      )
      | inr (f, e) ↦ ground (arith, skip-ne-out_of_fuel buf pos)
    ]

list_header-ne-out_of_fuel : (buf : Bytes) (start : ℕ) → rlp_list_header buf start ≢ err out_of_fuel
unfolding rlp_list_header
list_header-ne-out_of_fuel buf start h = ground arith

-- `rlp_scan_n` ends on every input: its loop never runs out of rounds.
pub scan_n_total : (buf : Bytes) (start limit : ℕ) → rlp_scan_n buf start limit ≢ err out_of_fuel
unfolding rlp_scan_n
scan_n_total buf start limit h = elim (Result-cases (rlp_list_header buf start)) [
  | inl ((off, end), e) ↦ ground (arith, scan_loop-fuel (limit + 1) buf end limit [] off)
  | inr (f, e) ↦ ground (arith, list_header-ne-out_of_fuel buf start)
]

-- What a successful scan says of the list at `start`.
pub record Scanned (buf : Bytes) (start limit : ℕ) (table : Bytes) (n : ℕ) : Type 0 where
  pub off : ℕ
  pub end : ℕ
  pub heads : List ℕ
  pub header : rlp_list_header buf start ≡ ok (off, end)
  pub items : Items buf end off heads
  pub listed : table ≡ table_of heads end
  pub counted : n ≡ length heads
  pub capped : n ≤ limit

-- A scan that succeeds has found items that fill the list's payload exactly, at most the limit of
-- them; its table lists their header positions and the end, and its count is their number.
pub scan_n_sound :
    (buf : Bytes) (start limit : ℕ) {table : Bytes} {n : ℕ}
    → rlp_scan_n buf start limit ≡ ok (table, n)
    → Scanned buf start limit table n
unfolding rlp_scan_n
scan_n_sound buf start limit h = elim (Result-cases (rlp_list_header buf start)) [
  | inr (f, e) ↦ ground arith
  | inl ((off, end), e) ↦ elim (Result-cases (scan_loop (limit + 1) buf end limit [] off)) [
    | inr (f, l) ↦ ground arith
    | inl (t, l) ↦
        let (heads, items, te, room) =
          scan_loop_sound (limit + 1) buf end limit [] off (omega arith) l in
        record {
          off = off;
          end = end;
          heads = heads;
          header = e;
          items = items;
          listed = ground arith;
          counted = ground (arith, length-table_of heads end);
          capped = ground (arith, length-table_of heads end);
        }
  ]
]

-- Where items fill the payload of a list exactly, no more than the limit, which is below 2^63, the
-- scan succeeds with their table and their number.
pub scan_n_complete :
    (buf : Bytes) (start limit : ℕ) {off end : ℕ} (heads : List ℕ)
    → rlp_list_header buf start ≡ ok (off, end)
    → Items buf end off heads
    → length heads ≤ limit
    → limit < 2 ^ 63
    → rlp_scan_n buf start limit ≡ ok (table_of heads end, length heads)
unfolding rlp_scan_n
scan_n_complete buf start limit {off} {end} heads e d c small =
    ground (
      arith,
      scan_loop_complete (limit + 1) buf end limit [] off heads d,
      length-table_of heads end,
    )
