-- ===== src/SyncCommittee/Runs/Committee.antt =====
-- The keys of the first committee come in one chunk, and the installation ends.
use eth_avm_light_client.Prelude.{
  ℕ, zero, suc, ◌+◌, ◌*◌, ◌/◌, ◌%◌, ◌^◌, ◌<◌, ◌≡◌, ◌≢◌, refl, sym, ap, ap₂, ◌∙◌, ◌++◌, none, arith,
  replicate, bytes_eq, length, length-append,
}
use eth_avm_light_client.Prelude.Slices.{
  slice, splice, slice-append_skip, slice-append_within, slice_all,
}
use eth_avm_light_client.Avm.{Bytes, ok, bzero, ◌>>=◌}
use eth_avm_light_client.Avm.Store.{Store, put, put-same, remove, box_create_new}
use eth_avm_light_client.Toy.{digest, toy}
use eth_avm_light_client.Bls.Codec.{g1_bind, g1_is_infinity, g1_compress, with_flags}
use eth_avm_light_client.Ssz.Branch.Tree.{merkle_node}
use eth_avm_light_client.Ssz.Merkleize.Push.{Accumulated}
use eth_avm_light_client.SyncCommittee.Bitfield.{key_box_name, total_box_name}
use eth_avm_light_client.SyncCommittee.Install.{
  session_box_name, create_key_boxes, install_open_key_boxes, install_open_session_box,
  read_session, parse_session, key_leaf, install_process_finalize, Session,
}
use eth_avm_light_client.SyncCommittee.Install.Complete.Taking.{box_replace_total, KeyBoxes, Loaded}
use eth_avm_light_client.SyncCommittee.Install.Complete.{
  Stored, ChunkTaken, chunk_taken, finalize_taken,
}
use eth_avm_light_client.SyncCommittee.Runs.Update.{curve}
use eth_avm_light_client.SyncCommittee.Install.Names.{
  session_box_name-total, key_box_name-total, install_process_chunk-other,
  install_process_finalize-other,
}
use eth_avm_light_client.SyncCommittee.Verifier.{
  Verifier, install_chunk, install_finalize, activate, close, zero32,
}
use eth_avm_light_client.SyncCommittee.Verifier.Steps.{
  opens_keys, opens_session, chunks, finalizes, Reach, next,
}
use eth_avm_light_client.SyncCommittee.Verifier.Generations.{Ordered, reach-Ordered}
use eth_avm_light_client.SyncCommittee.Verifier.Keys.Untouched.{SameKeys}
use eth_avm_light_client.SyncCommittee.Verifier.Keys.{step-SameKeys}
use eth_avm_light_client.SyncCommittee.Verifier.Installed.{Installed, install_finalize-Installed}
use eth_avm_light_client.SyncCommittee.Runs.Genesis.{
  booted_reached, gov, created, booted, keys_run, session_run, key, compressed, repeated, aggregate,
  committee_root, session_open,
}

length-repeated : (n : ℕ) (b : Bytes) → length (repeated n b) ≡ n * length b
length-repeated zero b = omega arith
length-repeated (suc n) b =
    length-append b (repeated n b)
    ∙ ap (λ m. length b + m) (length-repeated n b)
    ∙ times (length b) n
  where
    times : (l n : ℕ) → l + n * l ≡ suc n * l
    times l n = grind arith

slice-repeated : (n i : ℕ) (b : Bytes) → i < n → slice (repeated n b) (i * length b) (length b) ≡ b
slice-repeated zero i b lo = absurd (omega arith)
slice-repeated (suc n) zero b lo =
    let none_yet : 0 * length b ≡ 0 = omega arith in
    ap (λ k. slice (b ++ repeated n b) k (length b)) none_yet
    ∙ slice-append_within b (repeated n b) 0 (length b) (omega arith)
    ∙ slice_all b (length b) (omega arith)
slice-repeated (suc n) (suc i) b lo =
    ap (λ k. slice (b ++ repeated n b) k (length b)) (times (length b) i)
    ∙ slice-append_skip b (repeated n b) (i * length b) (length b)
    ∙ slice-repeated n i b (omega arith)
  where
    times : (l i : ℕ) → suc i * l ≡ l + i * l
    times l i = grind arith

abbrev comps : ℕ → Bytes
comps i = compressed

abbrev keys : ℕ → Bytes
keys i = key

abbrev sums : ℕ → Bytes
sums zero = bzero 96
sums (suc i) = replicate 96 9

binds : (i : ℕ) → i < 512 → g1_bind curve (keys i) (comps i) ≡ ok tt
unfolding g1_bind g1_is_infinity g1_compress with_flags bytes_eq
binds i lo = refl

adds : (i : ℕ) → i < 512 → curve.g1_add (sums i) (keys i) ≡ ok (sums (i + 1))
adds i lo = let e : suc i ≡ i + 1 = omega arith in ap (λ n. ok (sums n)) e

opened_room : KeyBoxes 1 session_open.boxes
unfolding KeyBoxes install_open_session_box install_open_key_boxes create_key_boxes put bytes_eq
    key_box_name session_box_name
opened_room zero lo = (bzero 6144, refl, refl)
opened_room (suc zero) lo = (bzero 6144, refl, refl)
opened_room (suc (suc zero)) lo = (bzero 6144, refl, refl)
opened_room (suc (suc (suc zero))) lo = (bzero 6144, refl, refl)
opened_room (suc (suc (suc (suc zero)))) lo = (bzero 6144, refl, refl)
opened_room (suc (suc (suc (suc (suc zero))))) lo = (bzero 6144, refl, refl)
opened_room (suc (suc (suc (suc (suc (suc zero)))))) lo = (bzero 6144, refl, refl)
opened_room (suc (suc (suc (suc (suc (suc (suc zero))))))) lo = (bzero 6144, refl, refl)
opened_room (suc (suc (suc (suc (suc (suc (suc (suc j)))))))) lo = absurd (omega arith)

abbrev opened : Session
opened = record { stack = bzero 320; filled = 0; running_sum = bzero 96 }

empty_stack : Accumulated toy (λ i. key_leaf toy (comps i)) 0 (bzero 320)
empty_stack = record { slot = λ j odd. absurd (never (2 ^ j) odd) }
  where
    never : (p : ℕ) → 0 / p % 2 ≢ 1
    never p odd = ground arith

loaded : Loaded toy curve 1 comps keys sums binds adds 0 opened session_open.boxes
loaded = record {
  members = record {
    filled = refl;
    stack_size = refl;
    sum_size = refl;
    stack = empty_stack;
    bound = λ i lo. absurd (omega arith);
  };
  sum = refl;
  room = opened_room;
}

stored : Stored toy curve 1 comps keys sums binds adds 0 session_open.boxes
unfolding install_open_session_box install_open_key_boxes create_key_boxes put bytes_eq key_box_name
    session_box_name read_session parse_session
stored = record {
  session = opened;
  bytes = bzero 424;
  there = refl;
  size = refl;
  read = refl;
  loaded = loaded;
}

chunk :
    ChunkTaken toy curve 1 comps keys sums binds adds 0 512
      (repeated 512 compressed)
      (repeated 512 key)
      session_open.boxes
chunk =
    chunk_taken toy curve 1 comps keys sums binds adds 0 512 (repeated 512 compressed)
      (repeated 512 key) session_open.boxes (omega arith) (length-repeated 512 compressed)
      (length-repeated 512 key) (λ i lo. slice-repeated 512 i compressed lo)
      (λ i lo. slice-repeated 512 i key lo) stored

abbrev full : Verifier
full = record session_open { boxes = chunk.boxes'; inst_cursor = 512 }

full_run :
    install_chunk toy curve 0 (repeated 512 compressed) (repeated 512 key) session_open ≡ ok full
unfolding install_chunk
full_run =
    ap (λ r. r >>= λ (n, b). ok (record session_open { boxes = b; inst_cursor = n })) chunk.taken

-- The nodes of a tree whose leaves are all the same.
abbrev level : ℕ → Bytes → Bytes
level zero b = b
level (suc d) b = digest (level d b ++ level d b)

merkle_node-level : (d k : ℕ) (b : Bytes) → merkle_node toy d (λ i. b) k ≡ level d b
unfolding merkle_node
merkle_node-level zero k b = refl
merkle_node-level (suc d) k b =
    ap₂ (λ x y. digest (x ++ y)) (merkle_node-level d (2 * k) b) (merkle_node-level d (2 * k + 1) b)

folds :
    digest (merkle_node toy 9 (λ i. key_leaf toy (comps i)) 0 ++ key_leaf toy aggregate)
    ≡ committee_root
unfolding key_leaf
folds =
    ap (λ n. digest (n ++ key_leaf toy aggregate)) (merkle_node-level 9 0 (key_leaf toy compressed))
    ∙ small_levels
  where
    small_levels :
        digest (level 9 (key_leaf toy compressed) ++ key_leaf toy aggregate) ≡ committee_root
    small_levels = refl

sum_tied : g1_bind curve (sums 512) aggregate ≡ ok tt
unfolding g1_bind g1_is_infinity g1_compress with_flags bytes_eq
sum_tied = refl

ended :
    install_process_finalize toy curve 1 512 committee_root aggregate (sums 512) full.boxes
    ≡ ok (sums 512, remove (session_box_name 1) full.boxes)
ended =
    finalize_taken toy curve 1 comps keys sums binds adds committee_root aggregate full.boxes
      chunk.stored refl refl sum_tied folds

-- There is no box yet for the sum of the keys.
no_total : remove (session_box_name 1) full.boxes (total_box_name 1) ≡ none
unfolding install_open_session_box install_open_key_boxes create_key_boxes put bytes_eq key_box_name
    session_box_name total_box_name remove
no_total =
    install_process_finalize-other toy curve 1 (total_box_name 1) 512 committee_root aggregate
      (sums 512) full.boxes (λ e. session_box_name-total 1 1 (sym e)) ended
    ∙ install_process_chunk-other 1 (total_box_name 1) (λ j e. key_box_name-total 1 1 j (sym e)) toy
        curve 0 (repeated 512 compressed) (repeated 512 key) session_open.boxes
        (λ e. session_box_name-total 1 1 (sym e)) chunk.taken

abbrev installed : Verifier
installed = record booted {
  boxes =
      put (total_box_name 1) (splice (bzero 96) 0 (sums 512))
        (put (total_box_name 1) (bzero 96) (remove (session_box_name 1) full.boxes));
  inst_state = 0;
  inst_gen = 0;
  inst_root = zero32;
  cur_gen = 1;
}

installed_run : install_finalize toy curve aggregate (sums 512) full ≡ ok installed
unfolding install_finalize close activate
installed_run =
    let with_total : Store =
      put (total_box_name 1) (bzero 96) (remove (session_box_name 1) full.boxes) in
    rw
      (
        ended,
        box_create_new (total_box_name 1) 96 (remove (session_box_name 1) full.boxes) no_total,
        box_replace_total (total_box_name 1) 0 (sums 512) (bzero 96) with_total
            (put-same (total_box_name 1) (bzero 96) (remove (session_box_name 1) full.boxes))
            (omega arith),
      )
      refl

reached : Reach toy curve created full
reached =
    next (next (next booted_reached (opens_keys keys_run)) (opens_session session_run))
      (chunks 0 (repeated 512 compressed) (repeated 512 key) full_run)

-- The keys of a committee are taken.
chunk_taken_example :
    ChunkTaken toy curve 1 comps keys sums binds adds 0 512
      (repeated 512 compressed)
      (repeated 512 key)
      session_open.boxes
chunk_taken_example =
    chunk_taken toy curve 1 comps keys sums binds adds 0 512 (repeated 512 compressed)
      (repeated 512 key) session_open.boxes (omega arith) (length-repeated 512 compressed)
      (length-repeated 512 key) (λ i lo. slice-repeated 512 i compressed lo)
      (λ i lo. slice-repeated 512 i key lo) stored

finalize_taken_example :
    install_process_finalize toy curve 1 512 committee_root aggregate (sums 512) full.boxes
    ≡ ok (sums 512, remove (session_box_name 1) full.boxes)
finalize_taken_example =
    finalize_taken toy curve 1 comps keys sums binds adds committee_root aggregate full.boxes
      chunk.stored refl refl sum_tied folds

install_finalize-Installed_example : Installed toy curve full installed
install_finalize-Installed_example =
    install_finalize-Installed toy curve gov zero32 aggregate (sums 512) full reached installed_run

reach-Ordered_example : Ordered full
reach-Ordered_example = reach-Ordered toy curve gov zero32 reached

step-SameKeys_example : SameKeys 1 full installed
step-SameKeys_example =
    step-SameKeys toy curve (reach-Ordered toy curve gov zero32 reached)
      (finalizes aggregate (sums 512) installed_run)
