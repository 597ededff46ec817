-- ===== src/Lib.antt =====
-- Verification of an Ethereum light client on the Algorand Virtual Machine.
--
-- The program proves facts about Ethereum to Algorand contracts. A sync committee verifier holds
-- the last finalized beacon header. The trusted root anchor reads it, folds SSZ branches from
-- that header down to the state root, the receipts root and the number of an execution block,
-- and keeps them as records in a ring of boxes. A consumer takes a record from the anchor and
-- walks a Merkle-Patricia trie from one of its roots, one supplied node at a time, with the RLP
-- decoder reading the nodes; the receipt program does so for one log of a transaction's receipt.
--
-- Files, by part of the program:
-- - Avm: the machine. A byte string is a list of numbers, a call gives a Result, ok or a Fault:
--   code s is a failed assert with the message s, panic an opcode's own failure (out of range,
--   overflow, underflow). Arithmetic keeps the uint64 limits as u64 and sub. The opcodes sha256
--   and keccak256 are parameters, the record Hashes, of which only the length of a digest is
--   assumed. Avm/Store: boxes and global byte-string keys, as functions from names. Avm/Group:
--   the calls of a transaction group.
-- - Rlp: contracts/primitives/rlp. Core and Scan are core.py (read_len is _read_len; rlp_skip
--   is the step that the scans inline), Nibbles is nibbles.py, Envelope is eip2718.py. The
--   source's data and max_items are called buf and limit.
-- - Mpt: contracts/mpt. State and Keys are state.py, Descend is descend.py, Walk is walk.py,
--   Handoff is handoff.py. mpt_hop is the body of the loop of mpt_walk_node. Walk/Proof chains
--   calls of mpt_walk_node as the segments of a proof do.
-- - Ssz: contracts/primitives/ssz. Branch is merkle.py, Merkleize is merkleize.py. The table of
--   zero hashes is the recursion that generates it.
-- - Bls: contracts/primitives/bls. Codec, HashToCurve, Pairing and Aggregate are codec.py,
--   hash_to_curve.py, pairing.py and aggregate.py. The opcodes on curve points are parameters,
--   the record Curve, of which only the length of a sum of two G1 points is assumed.
-- - SyncCommittee: contracts/sync_committee. Header and Message are header.py, Period is the
--   periods of constants.py, Bitfield is bitfield.py, where ec_add is the parameter add,
--   walk_bits is the loop of walk_and_accumulate and two of the box names of install.py stand;
--   Forks and Install are forks.py and install.py. The contract of verifier.py is the record
--   Verifier: its global state, the rows of its fork table and its boxes. Verifier has the
--   methods around the installation of committees; Verifier/Update is submit_update, in three
--   parts: check_update up to the signature, discover for the root of the next committee,
--   finalize_update for what becomes final. Verifier/Steps makes every call that succeeds a
--   step, with the states that calls reach from a created contract.
-- - Receipt: contracts/receipt. State, Decode, Box, Handoff and App are state.py, decode.py,
--   box.py, handoff.py and bench_app.py, the driver; a call gets its application arguments, the
--   calls of its group and the boxes, and gives what it logs and the boxes. The fields that
--   become final at once are the record Terminal.
-- - StateAnchor: contracts/state_anchor. Record, Box, Forks, Bridge, App and Handoff are
--   record.py, box.py, forks.py, bridge.py, anchor_app.py and handoff.py. App/Source puts the
--   anchor on top of the verifier, whose global state it reads. The contract's global state is
--   the record Anchor; a method takes the state and gives the next one, or a fault, after which
--   the state stays, as for a failed transaction.
-- - Runs, in each part: concrete inputs. Toy is the hash that they use. Prelude holds the
--   shared tests, lists and slices.
--
-- Bit tests with constant masks are written by division: flags & 1 is flags % 2, flags & ~1 is
-- flags / 2 * 2, flags | 1 is flags / 2 * 2 + 1. The masks of the ring (block_number & (ring_n -
-- 1)) are the native bit_and. In the accumulator of merkleize.py, f ^ (1 << level) on a set bit
-- is a subtraction and f | (1 << level) on a clear bit a sum.
--
-- Loops that the source bounds by data run on rounds: a scan of at most limit items gets limit +
-- 1, the walk inside a node 10 (W8 stops it after 8 inline steps), the carry of a push 65
-- (getbit panics from bit 64 on). A loop that is given too few rounds returns the fault
-- out_of_fuel, which is no behaviour of the program. The loops on a count run on that count.
--
-- Not modelled: the composer, the receipt driver behind an anchored root, the arithmetic of
-- BLS12-381 (opcodes on curve points), the empty methods noop_budget and donor, the relayer, the
-- deployment scripts and the service, which are off-chain. The payment that unpin makes is
-- returned; whether the account can pay it is the ledger's matter. The limit of 4096 bytes on a
-- byte string and the opcode budget are not modelled. Groups of transactions appear only as the
-- list of calls that a program reads; that the calls that open the boxes of a committee stand in
-- one group is not assumed, so the steps also reach the states in between. In Step, the argument
-- of retire is a uint64, and a period plus 1 does not overflow, since a period is a slot divided
-- by 8192.
pub mod Prelude
pub mod Toy
pub mod Avm
pub mod Bls
pub mod Rlp
pub mod Mpt
pub mod Receipt
pub mod Ssz
pub mod SyncCommittee
pub mod StateAnchor
