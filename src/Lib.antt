-- ===== src/Lib.antt =====
-- The consensus core of Summerpoem, a proof-of-work currency node in Rust.
--
-- Parts of the program and the files that model them:
--
-- + crates/core/src/encode.rs, the binary encoding: Core/Encode. `Reader` keeps its buffer and
--   position, and a method of it is a `Parser`, a function from the reader to a result and the
--   moved reader. A `put_*` function is modelled by the bytes that it appends.
-- + crates/core/src/tx.rs and block.rs: Core/Tx and Core/Block. Structs are records and enums are
--   data types. A method `encode` or `decode` is `encode_body`, `decode_tx` and so on, by its type.
-- + crates/core/src/hash.rs and merkle.rs: Core/Hash and Core/Merkle. A hash is its list of bytes.
--   The SHA3 digest is the sha3 crate's and so a parameter.
-- + crates/core/src/emission.rs, compact.rs, asert.rs, params.rs: Core/Emission, Core/Compact,
--   Core/Asert, Core/Params. A U256 or U512 is a natural number; masks and shifts are remainders
--   and divisions.
-- + crates/crypto/src/lib.rs: Crypto, with the verifiers of the fips204 and fips205 crates as
--   fields of `Primitives`; Crypto/Keypair, with the crates' key generation and signing as the fields
--   of `Signer`; and Crypto/Address, over the bech32 crate as `Bech32`.
-- + crates/node/src/chain.rs: Node/Utxo (the set of unspent outputs), Node/CheckTx (`check_tx`),
--   Node/Blocks (`validate_block_txs`, `check_roots`) and Node/Chain (`ChainState`, with
--   `ChainState::new` as `new_chain`, and `add_block`). `add_block` is cut at its early returns
--   into `check_header`, `store`, `connect`, `choose_tip`, `extend_tip`, `reorganize` and helpers
--   that take the result of the step before; each returns the outcome with the new state.
--   The queries that peers ask (`locator`, `hashes_after_locator`, `block_at`) are in
--   Node/Chain/Queries.
-- + crates/node/src/mempool.rs: Node/Mempool, with `ChainState::validate_standalone_tx`, which
--   admits a transaction into the pool. `insert`, `remove` and `update_for_block` are `insert_tx`,
--   `remove_tx` and `update_for_block`.
-- + crates/node/src/miner.rs and genesis.rs: Node/Miner. `build_block_template` is cut into its loop
--   over the candidates (`include`), its coinbase and its header.
-- + crates/node/src/store.rs: Node/Store, the bytes of the chain file.
-- + crates/node/src/error.rs: Node/Error.
-- + crates/pow/src/lib.rs: Pow, over the digest and the extendable output of the sha3 crate. A
--   buffer is its list of bytes; loops over items, accesses and nonces count down the rounds that
--   are left and count up the index.
-- + crates/net/src/message.rs: Net/Message. A message is encoded and decoded by the primitives of
--   Core/Encode.
-- + crates/net/src/transport.rs: Net/Transport. A stream is the bytes that are still to come, the
--   bytes that were written and the room that is left; `initiate`, `respond` and a frame's writes
--   and reads are functions from the stream to a result and the moved stream. `Kem` and `Aead` are
--   the fips203 and chacha20poly1305 crates. `write_messages` and `read_frames` are the writer
--   thread and the reads of `run_peer`.
-- + crates/net/src/node.rs: Net/Address (addresses and sets of them) and Net/Node. `Shared` is the
--   state that the threads share, without locks: a part of the program that runs under its locks is
--   a function from that state to a result, the new state and what is sent. Net/Node has bans, the
--   accept loop (`accept`), dialling and discovery; Net/Node/Handle has `handle_message`, a function
--   for each arm, and `accept_block`; Net/Node/Run has `run_peer`, cut into `start_peer`, a round
--   of its loop (`on_frame`) and `end_peer`. `Life` in Net/Node/Life is the relation of the states
--   that a node comes to: its threads' steps in any order, with any peer state and any bytes.
--   `Turns` in Net/Node/Bans/Lasting has the same steps with the times at which they are made.
-- + crates/wallet/src/lib.rs: Wallet. `sort_by_key` is an insertion sort with its order. `build_send`
--   is cut into its candidates, the greedy loop (`select`) and the payment (`pay`).
-- + crates/cli/src/main.rs, wallet.rs, dashboard.rs and mining.rs, and crates/wallet-cli/src/main.rs
--   and rpc.rs: Programs. Programs/Amount has `format_sump` and `parse_sump`; Programs/Ledger the
--   local wallet's commands and the dashboard's `balances_for`; Programs/Rpc `rpc_utxos` and
--   `fetch_utxos`, between texts of the JSON values of Programs/Json, with serde_json's parser as an
--   argument; Programs/Light `query_balance`, `do_send` and the send command; Programs/Start
--   `load_state` and `save_state` on the file's bytes; Programs/Rig the rig's `mine` (`rig_mine`)
--   and `try_mine`; and Programs/Gpu crates/gpu/src/lib.rs's `GpuMiner::search`, with the kernel
--   `sumphash_search` of crates/gpu/src/sumphash.cu that it launches. Core/Hex has the hex texts of hashes.
--
-- The chain uses the encoding through block and transaction hashes and sizes, the emission
-- schedule for the coinbase, the difficulty adjustment for the expected bits, and the proof of
-- work as a function `PowFunction` from parameters, epoch, message and nonce to a hash, which Pow
-- models by itself. The pool uses the chain's `check_tx` at the height above the tip,
-- templates use the pool's check, the node the chain and the pool. The programs use the wallet on the
-- chain's outputs, at once or through the texts between a light wallet and a node.
--
-- Integers are natural numbers. Where Rust wraps, the wrap is written; `checked_add` is a partial
-- addition; a panic is the outcome `panicked`. A `HashMap` is an association list in which an
-- insertion drops the older entry; where the source goes through a map, its order is the
-- list's, which is that of one process: another one lists the same entries in an order of its own
-- (`Reordered` in Programs/Light/Pays).
--
-- Loops are recursion on lists, recursion on accessibility (`pow_q96`, `bit_length`) or on fuel:
-- the merkle loop has as many rounds as leaves, and the walk back to the genesis block one round
-- for each height; `locator` has as many rounds as the height, which falls in each of them;
-- `median_time_past` has its eleven rounds. `Rig::mine` has no bound in the source; its model has as
-- many rounds as it is given, and says when they were not enough.
--
-- Not modelled: the memo of proof-of-work contexts in `ChainState`, socket options, locks and what a
-- panic does to them, log lines, file system calls, the wallet file, the programs' HTTP server and
-- client, status pages, the loops around the rig and file commands, and on the GPU
-- the device's own proof of work (a field of `GpuMiner`), its driver and its setting up. Prelude holds
-- shared helpers, and Tests the concrete runs.
pub mod Prelude
pub mod Core
pub mod Crypto
pub mod Node
pub mod Pow
pub mod Net
pub mod Wallet
pub mod Programs
pub mod Tests
