-- ===== src/Tests/Run.antt =====
-- Everything that a run computes with, named once.
use summerpoem_cli.Prelude.{ℕ}

unfoldable pub everything : ℕ
unfolding summerpoem_cli.Core.Asert.saturating summerpoem_cli.Core.Asert.exponent
    summerpoem_cli.Core.Asert.fraction summerpoem_cli.Core.Asert.factor
    summerpoem_cli.Core.Asert.settle summerpoem_cli.Core.Asert.shift_target
    summerpoem_cli.Core.Asert.next_target summerpoem_cli.Core.Block.encode_header
    summerpoem_cli.Core.Block.decode_header summerpoem_cli.Core.Block.encode_block
    summerpoem_cli.Core.Block.decode_block summerpoem_cli.Core.Block.decode_all
    summerpoem_cli.Core.Block.size summerpoem_cli.Core.Block.header_hash
    summerpoem_cli.Core.Block.pow_message summerpoem_cli.Core.Block.compute_tx_root
    summerpoem_cli.Core.Block.compute_witness_root summerpoem_cli.Core.Compact.nonzero
    summerpoem_cli.Core.Compact.bits_to_target summerpoem_cli.Core.Compact.bit_length
    summerpoem_cli.Core.Compact.pack summerpoem_cli.Core.Compact.target_to_bits
    summerpoem_cli.Core.Emission.base_q96 summerpoem_cli.Core.Emission.pow_q96
    summerpoem_cli.Core.Emission.block_reward summerpoem_cli.Core.Emission.Supply.issued
    summerpoem_cli.Core.Encode.remaining summerpoem_cli.Core.Encode.◌>>=◌
    summerpoem_cli.Core.Encode.pure summerpoem_cli.Core.Encode.fail
    summerpoem_cli.Core.Encode.le_value summerpoem_cli.Core.Encode.le_bytes
    summerpoem_cli.Core.Encode.read_bytes summerpoem_cli.Core.Encode.read_array
    summerpoem_cli.Core.Encode.first_byte summerpoem_cli.Core.Encode.read_u8
    summerpoem_cli.Core.Encode.read_u32 summerpoem_cli.Core.Encode.read_u64
    summerpoem_cli.Core.Encode.read_vec summerpoem_cli.Core.Encode.read_count
    summerpoem_cli.Core.Encode.read_many summerpoem_cli.Core.Encode.finish
    summerpoem_cli.Core.Encode.put_u8 summerpoem_cli.Core.Encode.put_u32
    summerpoem_cli.Core.Encode.put_u64 summerpoem_cli.Core.Encode.put_vec
    summerpoem_cli.Core.Hash.to_u256 summerpoem_cli.Core.Hash.concat summerpoem_cli.Core.Hash.sha3
    summerpoem_cli.Core.Hash.shake256 summerpoem_cli.Core.Hex.array_of
    summerpoem_cli.Core.Hex.to_hex summerpoem_cli.Core.Hex.from_hex
    summerpoem_cli.Core.Merkle.last_or summerpoem_cli.Core.Merkle.first
    summerpoem_cli.Core.Merkle.pad summerpoem_cli.Core.Merkle.leaf summerpoem_cli.Core.Merkle.node
    summerpoem_cli.Core.Merkle.pair_up summerpoem_cli.Core.Merkle.next_layer
    summerpoem_cli.Core.Merkle.climb summerpoem_cli.Core.Merkle.merkle_root
    summerpoem_cli.Core.Params.network_id summerpoem_cli.Core.Params.network_from_id
    summerpoem_cli.Core.Params.mainnet_params summerpoem_cli.Core.Params.regtest_params
    summerpoem_cli.Core.Params.params_for_network summerpoem_cli.Core.Tx.three_bytes
    summerpoem_cli.Core.Tx.coinbase_version summerpoem_cli.Core.Tx.scheme_id
    summerpoem_cli.Core.Tx.scheme_from_id summerpoem_cli.Core.Tx.lock_pkh
    summerpoem_cli.Core.Tx.lock_scheme summerpoem_cli.Core.Tx.encode_lock
    summerpoem_cli.Core.Tx.some_scheme summerpoem_cli.Core.Tx.read_scheme
    summerpoem_cli.Core.Tx.decode_p2pkh summerpoem_cli.Core.Tx.decode_timelock
    summerpoem_cli.Core.Tx.decode_lock summerpoem_cli.Core.Tx.encode_output
    summerpoem_cli.Core.Tx.decode_output summerpoem_cli.Core.Tx.encode_input
    summerpoem_cli.Core.Tx.decode_input summerpoem_cli.Core.Tx.encode_body
    summerpoem_cli.Core.Tx.decode_body summerpoem_cli.Core.Tx.is_coinbase
    summerpoem_cli.Core.Tx.encode_witness summerpoem_cli.Core.Tx.encode_witness_section
    summerpoem_cli.Core.Tx.encode_tx summerpoem_cli.Core.Tx.decode_witness
    summerpoem_cli.Core.Tx.decode_whole summerpoem_cli.Core.Tx.lift summerpoem_cli.Core.Tx.decode_tx
    summerpoem_cli.Core.Tx.decode_all summerpoem_cli.Core.Tx.size summerpoem_cli.Core.Tx.txid
    summerpoem_cli.Core.Tx.sighash summerpoem_cli.Core.Tx.witness_hash
    summerpoem_cli.Crypto.verify_mldsa summerpoem_cli.Crypto.verify_slhdsa
    summerpoem_cli.Crypto.verify summerpoem_cli.Crypto.pubkey_hash
    summerpoem_cli.Crypto.Address.version_for summerpoem_cli.Crypto.Address.scheme_for_version
    summerpoem_cli.Crypto.Address.payload summerpoem_cli.Crypto.Address.address_encode
    summerpoem_cli.Crypto.Address.address_decode summerpoem_cli.Crypto.Keypair.from_seed
    summerpoem_cli.Crypto.Keypair.sign_with summerpoem_cli.Crypto.Keypair.sign
    summerpoem_cli.Net.Address.ip_eq summerpoem_cli.Net.Address.addr_eq
    summerpoem_cli.Net.Address.items summerpoem_cli.Net.Address.is_unspecified
    summerpoem_cli.Net.Address.is_reachable summerpoem_cli.Net.Message.octets
    summerpoem_cli.Net.Message.unmapped summerpoem_cli.Net.Message.put_u16
    summerpoem_cli.Net.Message.read_u16 summerpoem_cli.Net.Message.put_addr
    summerpoem_cli.Net.Message.read_addr summerpoem_cli.Net.Message.put_hashes
    summerpoem_cli.Net.Message.read_hashes summerpoem_cli.Net.Message.encode
    summerpoem_cli.Net.Message.read_nonce summerpoem_cli.Net.Message.decode_hello
    summerpoem_cli.Net.Message.decode_hashes summerpoem_cli.Net.Message.decode_addr
    summerpoem_cli.Net.Message.decode_tagged summerpoem_cli.Net.Message.result_of
    summerpoem_cli.Net.Message.decode summerpoem_cli.Net.Node.new_node
    summerpoem_cli.Net.Node.or_zero summerpoem_cli.Net.Node.ban_state
    summerpoem_cli.Net.Node.is_banned summerpoem_cli.Net.Node.misbehave
    summerpoem_cli.Net.Node.dec_count summerpoem_cli.Net.Node.dec_inbound
    summerpoem_cli.Net.Node.count_inbound summerpoem_cli.Net.Node.accept_unless
    summerpoem_cli.Net.Node.accept summerpoem_cli.Net.Node.dial_unless summerpoem_cli.Net.Node.dial
    summerpoem_cli.Net.Node.dial_failed summerpoem_cli.Net.Node.candidates
    summerpoem_cli.Net.Node.dial_all summerpoem_cli.Net.Node.discover
    summerpoem_cli.Net.Node.add_seeds summerpoem_cli.Net.Node.send_to_all
    summerpoem_cli.Net.Node.broadcast summerpoem_cli.Net.Node.Caps.count_of
    summerpoem_cli.Net.Node.Caps.opened summerpoem_cli.Net.Node.Handle.insert_some
    summerpoem_cli.Net.Node.Handle.drop_self summerpoem_cli.Net.Node.Handle.reachable_at
    summerpoem_cli.Net.Node.Handle.learn_addr summerpoem_cli.Net.Node.Handle.max_height
    summerpoem_cli.Net.Node.Handle.greet summerpoem_cli.Net.Node.Handle.handle_hello
    summerpoem_cli.Net.Node.Handle.handle_get_addr summerpoem_cli.Net.Node.Handle.learn_addrs
    summerpoem_cli.Net.Node.Handle.handle_addr summerpoem_cli.Net.Node.Handle.request_all
    summerpoem_cli.Net.Node.Handle.handle_inv summerpoem_cli.Net.Node.Handle.send_blocks
    summerpoem_cli.Net.Node.Handle.send_txs summerpoem_cli.Net.Node.Handle.handle_get_data
    summerpoem_cli.Net.Node.Handle.handle_get_blocks summerpoem_cli.Net.Node.Handle.verdict
    summerpoem_cli.Net.Node.Handle.after_block summerpoem_cli.Net.Node.Handle.after_tx
    summerpoem_cli.Net.Node.Handle.announce summerpoem_cli.Net.Node.Handle.accept_block
    summerpoem_cli.Net.Node.Handle.handle_block summerpoem_cli.Net.Node.Handle.handle_tx
    summerpoem_cli.Net.Node.Handle.handle_message summerpoem_cli.Net.Node.Run.start_peer
    summerpoem_cli.Net.Node.Run.end_round summerpoem_cli.Net.Node.Run.remove_some
    summerpoem_cli.Net.Node.Run.end_peer summerpoem_cli.Net.Node.Run.on_message
    summerpoem_cli.Net.Node.Run.on_frame summerpoem_cli.Net.Node.Run.after_submit
    summerpoem_cli.Net.Node.Run.submit_tx summerpoem_cli.Net.Node.Run.submit_block
    summerpoem_cli.Net.Transport.◌>>=◌ summerpoem_cli.Net.Transport.◌>>◌
    summerpoem_cli.Net.Transport.pure summerpoem_cli.Net.Transport.refuse_if
    summerpoem_cli.Net.Transport.ok_or summerpoem_cli.Net.Transport.read_exact
    summerpoem_cli.Net.Transport.write_all summerpoem_cli.Net.Transport.write_header
    summerpoem_cli.Net.Transport.header_byte summerpoem_cli.Net.Transport.read_and_check_header
    summerpoem_cli.Net.Transport.derive_key summerpoem_cli.Net.Transport.nonce_for
    summerpoem_cli.Net.Transport.next_counter summerpoem_cli.Net.Transport.write_frame
    summerpoem_cli.Net.Transport.after_send summerpoem_cli.Net.Transport.send
    summerpoem_cli.Net.Transport.is_bad_length summerpoem_cli.Net.Transport.read_frame
    summerpoem_cli.Net.Transport.after_recv summerpoem_cli.Net.Transport.recv
    summerpoem_cli.Net.Transport.write_messages summerpoem_cli.Net.Transport.read_frames
    summerpoem_cli.Net.Transport.split summerpoem_cli.Net.Transport.initiate
    summerpoem_cli.Net.Transport.respond summerpoem_cli.Net.Transport.Delivery.wire_size
    summerpoem_cli.Net.Transport.Delivery.wire_of summerpoem_cli.Node.Blocks.seen_before
    summerpoem_cli.Node.Blocks.check_unique summerpoem_cli.Node.Blocks.bad_height_prefix
    summerpoem_cli.Node.Blocks.check_coinbase summerpoem_cli.Node.Blocks.apply_tx
    summerpoem_cli.Node.Blocks.apply_txs summerpoem_cli.Node.Blocks.check_payout
    summerpoem_cli.Node.Blocks.validate_txs summerpoem_cli.Node.Blocks.validate_block_txs
    summerpoem_cli.Node.Blocks.check_roots summerpoem_cli.Node.Chain.checked
    summerpoem_cli.Node.Chain.last? summerpoem_cli.Node.Chain.work_from_target
    summerpoem_cli.Node.Chain.add_u256 summerpoem_cli.Node.Chain.i64_difference
    summerpoem_cli.Node.Chain.insert_sorted summerpoem_cli.Node.Chain.sort
    summerpoem_cli.Node.Chain.past_times summerpoem_cli.Node.Chain.median_time_past
    summerpoem_cli.Node.Chain.expected_bits summerpoem_cli.Node.Chain.walk_back
    summerpoem_cli.Node.Chain.forget summerpoem_cli.Node.Chain.remember
    summerpoem_cli.Node.Chain.push_supply summerpoem_cli.Node.Chain.push_tip
    summerpoem_cli.Node.Chain.install summerpoem_cli.Node.Chain.check_pow
    summerpoem_cli.Node.Chain.apply_chain summerpoem_cli.Node.Chain.validate_genesis
    summerpoem_cli.Node.Chain.new_chain summerpoem_cli.Node.Chain.check_header
    summerpoem_cli.Node.Chain.extend_tip summerpoem_cli.Node.Chain.adopt
    summerpoem_cli.Node.Chain.reorganize summerpoem_cli.Node.Chain.choose_tip
    summerpoem_cli.Node.Chain.connect summerpoem_cli.Node.Chain.store
    summerpoem_cli.Node.Chain.add_block summerpoem_cli.Node.Chain.Queries.chain_height
    summerpoem_cli.Node.Chain.Queries.block_by_hash summerpoem_cli.Node.Chain.Queries.contains_block
    summerpoem_cli.Node.Chain.Queries.block_of summerpoem_cli.Node.Chain.Queries.block_at
    summerpoem_cli.Node.Chain.Queries.is_at summerpoem_cli.Node.Chain.Queries.is_active
    summerpoem_cli.Node.Chain.Queries.found_or_zero summerpoem_cli.Node.Chain.Queries.active_at
    summerpoem_cli.Node.Chain.Queries.next_step summerpoem_cli.Node.Chain.Queries.locator_from
    summerpoem_cli.Node.Chain.Queries.locator summerpoem_cli.Node.Chain.Queries.height_of
    summerpoem_cli.Node.Chain.Queries.fork_height
    summerpoem_cli.Node.Chain.Queries.hashes_after_locator
    summerpoem_cli.Node.Chain.Queries.Length.budget summerpoem_cli.Node.CheckTx.is_empty
    summerpoem_cli.Node.CheckTx.spent_before summerpoem_cli.Node.CheckTx.check_distinct
    summerpoem_cli.Node.CheckTx.check_timelock summerpoem_cli.Node.CheckTx.sum_outputs
    summerpoem_cli.Node.CheckTx.check_input summerpoem_cli.Node.CheckTx.check_inputs
    summerpoem_cli.Node.CheckTx.check_tx summerpoem_cli.Node.Mempool.contains
    summerpoem_cli.Node.Mempool.lookup_once summerpoem_cli.Node.Mempool.needed_fee
    summerpoem_cli.Node.Mempool.any_spent summerpoem_cli.Node.Mempool.index_inputs
    summerpoem_cli.Node.Mempool.unindex_inputs summerpoem_cli.Node.Mempool.drop_found
    summerpoem_cli.Node.Mempool.remove_tx summerpoem_cli.Node.Mempool.remove_conflict
    summerpoem_cli.Node.Mempool.remove_conflicts summerpoem_cli.Node.Mempool.keep_valid
    summerpoem_cli.Node.Mempool.check_fee summerpoem_cli.Node.Mempool.validate_standalone_tx
    summerpoem_cli.Node.Mempool.check_insert summerpoem_cli.Node.Mempool.add_checked
    summerpoem_cli.Node.Mempool.insert_tx summerpoem_cli.Node.Mempool.drop_included
    summerpoem_cli.Node.Mempool.revalidate summerpoem_cli.Node.Mempool.revalidate_all
    summerpoem_cli.Node.Mempool.update_for_block summerpoem_cli.Node.Miner.coinbase_of
    summerpoem_cli.Node.Miner.template_data summerpoem_cli.Node.Miner.spends_any
    summerpoem_cli.Node.Miner.shares_input summerpoem_cli.Node.Miner.conflicts
    summerpoem_cli.Node.Miner.fee_if summerpoem_cli.Node.Miner.seal
    summerpoem_cli.Node.Miner.unsealed summerpoem_cli.Node.Miner.with_nonce
    summerpoem_cli.Node.Miner.include summerpoem_cli.Node.Miner.template_txs
    summerpoem_cli.Node.Miner.build_block_template summerpoem_cli.Node.Miner.mined
    summerpoem_cli.Node.Miner.mine_at summerpoem_cli.Node.Miner.mine_block
    summerpoem_cli.Node.Miner.genesis_mined summerpoem_cli.Node.Miner.genesis_at
    summerpoem_cli.Node.Miner.genesis_nonce_of summerpoem_cli.Node.Miner.build_genesis
    summerpoem_cli.Node.Miner.connected summerpoem_cli.Node.Miner.connect_mined
    summerpoem_cli.Node.Miner.mine_template summerpoem_cli.Node.Miner.mine_and_connect
    summerpoem_cli.Node.Store.stored_block summerpoem_cli.Node.Store.save_bytes
    summerpoem_cli.Node.Store.load_block summerpoem_cli.Node.Store.load_blocks
    summerpoem_cli.Node.Store.loaded summerpoem_cli.Node.Store.load_bytes
    summerpoem_cli.Node.Utxo.outpoint_eq summerpoem_cli.Node.Utxo.spend_inputs
    summerpoem_cli.Node.Utxo.add_outputs summerpoem_cli.Node.Utxo.Value.output_sum
    summerpoem_cli.Pow.epoch_of_height summerpoem_cli.Pow.fnv summerpoem_cli.Pow.slice
    summerpoem_cli.Pow.write_at summerpoem_cli.Pow.lane_at summerpoem_cli.Pow.fnv_mix
    summerpoem_cli.Pow.xor_bytes summerpoem_cli.Pow.cache_items summerpoem_cli.Pow.dataset_pages
    summerpoem_cli.Pow.seed_rounds summerpoem_cli.Pow.seed_for_epoch summerpoem_cli.Pow.chain_items
    summerpoem_cli.Pow.strengthen summerpoem_cli.Pow.strengthen_from
    summerpoem_cli.Pow.strengthen_rounds summerpoem_cli.Pow.gen_cache summerpoem_cli.Pow.mix_parents
    summerpoem_cli.Pow.dataset_item summerpoem_cli.Pow.items_from summerpoem_cli.Pow.gen_dataset
    summerpoem_cli.Pow.light_context summerpoem_cli.Pow.new_light summerpoem_cli.Pow.full_context
    summerpoem_cli.Pow.new_full summerpoem_cli.Pow.page summerpoem_cli.Pow.mix_pages
    summerpoem_cli.Pow.compress summerpoem_cli.Pow.seal summerpoem_cli.Pow.compute
    summerpoem_cli.Pow.meets_target summerpoem_cli.Pow.try_nonce summerpoem_cli.Pow.mine_from
    summerpoem_cli.Pow.mine summerpoem_cli.Prelude.Checked.checked_add
    summerpoem_cli.Prelude.Dictionary.get summerpoem_cli.Prelude.Dictionary.remove
    summerpoem_cli.Prelude.Dictionary.insert summerpoem_cli.Prelude.Dictionary.contains_key
    summerpoem_cli.Prelude.Dictionary.total summerpoem_cli.Prelude.Equality.bytes_eq
    summerpoem_cli.Prelude.Int.◌-ℤ◌ summerpoem_cli.Prelude.Int.scale
    summerpoem_cli.Prelude.Int.quotient summerpoem_cli.Prelude.Int.floor_div
    summerpoem_cli.Prelude.Lists.filter_by summerpoem_cli.Prelude.Result.◌>>=◌
    summerpoem_cli.Prelude.Result.◌>>◌ summerpoem_cli.Prelude.Result.refuse_if
    summerpoem_cli.Prelude.Result.ok_or summerpoem_cli.Programs.Amount.digits_from
    summerpoem_cli.Programs.Amount.decimal summerpoem_cli.Programs.Amount.padded
    summerpoem_cli.Programs.Amount.format_sump summerpoem_cli.Programs.Amount.is_digit
    summerpoem_cli.Programs.Amount.parse_digits summerpoem_cli.Programs.Amount.parse_some
    summerpoem_cli.Programs.Amount.parse_u64 summerpoem_cli.Programs.Amount.split_dot
    summerpoem_cli.Programs.Amount.parse_whole summerpoem_cli.Programs.Amount.parse_frac
    summerpoem_cli.Programs.Amount.checked_mul summerpoem_cli.Programs.Amount.amount_of_parts
    summerpoem_cli.Programs.Amount.parse_sump summerpoem_cli.Programs.Json.quoted
    summerpoem_cli.Programs.Json.bool_text summerpoem_cli.Programs.Json.lookup
    summerpoem_cli.Programs.Json.get_field summerpoem_cli.Programs.Json.as_u64
    summerpoem_cli.Programs.Json.as_bool summerpoem_cli.Programs.Json.as_str
    summerpoem_cli.Programs.Json.str_or_empty summerpoem_cli.Programs.Json.as_array
    summerpoem_cli.Programs.Json.json_escape summerpoem_cli.Programs.Ledger.has_id
    summerpoem_cli.Programs.Ledger.owned_entry summerpoem_cli.Programs.Ledger.owned_utxos
    summerpoem_cli.Programs.Ledger.unlocked_at summerpoem_cli.Programs.Ledger.is_spendable
    summerpoem_cli.Programs.Ledger.add_for summerpoem_cli.Programs.Ledger.balances_for
    summerpoem_cli.Programs.Ledger.balance summerpoem_cli.Programs.Ledger.send
    summerpoem_cli.Programs.Light.hrp_for summerpoem_cli.Programs.Light.lift_error
    summerpoem_cli.Programs.Light.recipient summerpoem_cli.Programs.Light.submitted
    summerpoem_cli.Programs.Light.submit_tx summerpoem_cli.Programs.Light.query_balance
    summerpoem_cli.Programs.Light.payment summerpoem_cli.Programs.Light.do_send
    summerpoem_cli.Programs.Light.send_command summerpoem_cli.Programs.Gpu.atomic_min
    summerpoem_cli.Programs.Gpu.search_thread summerpoem_cli.Programs.Gpu.run_threads
    summerpoem_cli.Programs.Gpu.found_nonce summerpoem_cli.Programs.Gpu.search
    summerpoem_cli.Programs.Rig.moved_on summerpoem_cli.Programs.Rig.gpu_answer
    summerpoem_cli.Programs.Rig.cpu_answer summerpoem_cli.Programs.Rig.gpu_round
    summerpoem_cli.Programs.Rig.cpu_round summerpoem_cli.Programs.Rig.try_at
    summerpoem_cli.Programs.Rig.try_mine summerpoem_cli.Programs.Rig.mine_rounds
    summerpoem_cli.Programs.Rig.rig_mine summerpoem_cli.Programs.Rpc.error_json
    summerpoem_cli.Programs.Rpc.insert_key summerpoem_cli.Programs.Rpc.push_some
    summerpoem_cli.Programs.Rpc.parse_reply summerpoem_cli.Programs.Rpc.wanted_keys
    summerpoem_cli.Programs.Rpc.utxo_json summerpoem_cli.Programs.Rpc.utxo_items
    summerpoem_cli.Programs.Rpc.reply_json summerpoem_cli.Programs.Rpc.answer_utxos
    summerpoem_cli.Programs.Rpc.rpc_utxos summerpoem_cli.Programs.Rpc.key_json
    summerpoem_cli.Programs.Rpc.key_items summerpoem_cli.Programs.Rpc.request_json
    summerpoem_cli.Programs.Rpc.read_utxo summerpoem_cli.Programs.Rpc.read_utxos
    summerpoem_cli.Programs.Rpc.reply_of summerpoem_cli.Programs.Rpc.fetch_utxos
    summerpoem_cli.Programs.Rpc.Reply.relocked summerpoem_cli.Programs.Start.from_file
    summerpoem_cli.Programs.Start.from_genesis summerpoem_cli.Programs.Start.blocks_of
    summerpoem_cli.Programs.Start.active_blocks summerpoem_cli.Programs.Start.save_state
    summerpoem_cli.Programs.Start.after_added summerpoem_cli.Programs.Start.replay
    summerpoem_cli.Programs.Start.load_chain summerpoem_cli.Programs.Start.load_state
    summerpoem_cli.Programs.Start.wait_for summerpoem_cli.Programs.Start.mainnet_mining_wait_reason
    summerpoem_cli.Wallet.id_eq summerpoem_cli.Wallet.id_of_lock summerpoem_cli.Wallet.unlocked
    summerpoem_cli.Wallet.spendable summerpoem_cli.Wallet.add_balances
    summerpoem_cli.Wallet.balances summerpoem_cli.Wallet.insert_by_amount
    summerpoem_cli.Wallet.sort_by_amount summerpoem_cli.Wallet.select
    summerpoem_cli.Wallet.inputs_of summerpoem_cli.Wallet.key_seed summerpoem_cli.Wallet.key
    summerpoem_cli.Wallet.address summerpoem_cli.Wallet.vault_address
    summerpoem_cli.Wallet.keys_from summerpoem_cli.Wallet.keys summerpoem_cli.Wallet.id_of
    summerpoem_cli.Wallet.insert_keys summerpoem_cli.Wallet.owned summerpoem_cli.Wallet.owned_ids
    summerpoem_cli.Wallet.candidates summerpoem_cli.Wallet.outputs_of summerpoem_cli.Wallet.body_of
    summerpoem_cli.Wallet.sign_inputs summerpoem_cli.Wallet.pay summerpoem_cli.Wallet.build_send
    summerpoem_cli.Wallet.Select.worth
everything = 0
