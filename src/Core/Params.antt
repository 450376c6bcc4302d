-- ===== src/Core/Params.antt =====
-- crates/core/src/params.rs: the networks and their consensus parameters. The seeds' host names
-- are left out: they only feed peer discovery.
use summerpoem_cli.Prelude.{ℕ, ◌-◌, ◌*◌, ◌/◌, ◌^◌, Option, none, some, List, ◌==◌, if◌then◌else◌}
use summerpoem_cli.Prelude.Text.{bytes}

pub data Network : Type 0 where
  mainnet regtest : Network

unfoldable pub network_id : Network → ℕ
network_id mainnet = 0
network_id regtest = 1

unfoldable pub network_from_id : ℕ → Option Network
network_from_id id = if id == 0 then some mainnet else if id == 1 then some regtest else none

pub record PowParams : Type 0 where
  pub cache_bytes : ℕ
  pub dataset_bytes : ℕ
  pub epoch_length : ℕ
  pub accesses : ℕ
  pub parents : ℕ

pub record Params : Type 0 where
  pub network : Network
  pub block_interval : ℕ
  pub asert_tau : ℕ
  pub pow_limit : ℕ
  pub coinbase_maturity : ℕ
  pub max_block_size : ℕ
  pub pow : PowParams
  pub genesis_time : ℕ
  pub genesis_message : List ℕ
  pub genesis_nonce : Option ℕ
  pub address_hrp : List ℕ

-- `U256::MAX`
abbrev pub u256_max : ℕ
u256_max = 2 ^ 256 - 1

unfoldable pub mainnet_params : Params
mainnet_params = record {
  network = mainnet;
  block_interval = 60;
  asert_tau = 86_400;
  pow_limit = u256_max / 2 ^ 24;
  coinbase_maturity = 100;
  max_block_size = 4_000_000;
  pow = record {
    cache_bytes = 64 * 2 ^ 20;
    dataset_bytes = 2 * 2 ^ 30;
    epoch_length = 4096;
    accesses = 64;
    parents = 64;
  };
  genesis_time = 1_784_851_200;
  genesis_message = bytes "What if life was meant to be lived";
  genesis_nonce = some 11_110_300;
  address_hrp = bytes "sump";
}

unfoldable pub regtest_params : Params
regtest_params = record {
  network = regtest;
  block_interval = 60;
  asert_tau = 3_600;
  pow_limit = u256_max / 2 ^ 4;
  coinbase_maturity = 5;
  max_block_size = 4_000_000;
  pow = record {
    cache_bytes = 16 * 2 ^ 10;
    dataset_bytes = 256 * 2 ^ 10;
    epoch_length = 64;
    accesses = 16;
    parents = 16;
  };
  genesis_time = 1_782_864_000;
  genesis_message = bytes "Summerpoem regtest genesis.";
  genesis_nonce = none;
  address_hrp = bytes "sumprt";
}

unfoldable pub params_for_network : Network → Params
params_for_network mainnet = mainnet_params
params_for_network regtest = regtest_params
