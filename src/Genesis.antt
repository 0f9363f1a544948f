-- ===== src/Genesis.antt =====
-- lib/genesis.go: the genesis document of the test network and its validation. JSON and the generation of a
-- key pair are parameters. A null entry of the initial outputs is none; an entry without its output is
-- not represented.
pub mod Checked
use shadowd.Common.{
  ℕ, zero, suc, ◌+◌, ◌*◌, Bool, true, false, not, ◌&&◌, Option, none, some, List, [], ◌∷◌, any,
  is_empty, ◌==◌, nat_eq, if◌then◌else◌,
}
use shadowd.Common.Text.{Text, bytes, text_eq}
use shadowd.Common.Dict.{Dict}
use shadowd.Common.Result.{Result, ok, err, ◌>>=◌, ◌>>◌, fail_if}
use shadowd.Tx.{Address, TxType, coinbase, Transaction, Utxo}
use shadowd.Tx.External.{External}
use shadowd.Tx.Outputs.{be_bytes, shadow_output}
use shadowd.Tx.Validate.{TxError, validate_coinbase, validate_transaction}
use shadowd.Token.{TokenInfo, TokenError, genesis_token, validate}

pub record ConsensusParams : Type 0 where
  pub block_max_bytes : ℕ
  pub max_gas : ℕ
  pub time_iota_ms : ℕ
  pub max_age_num_blocks : ℕ
  pub max_age_duration : ℕ
  pub evidence_max_bytes : ℕ
  pub pub_key_types : List Text
  pub app_version : ℕ

-- `DefaultConsensusParams`; the duration is in nanoseconds
abbrev pub default_consensus_params : ConsensusParams
default_consensus_params = record {
  block_max_bytes = 1048576;
  max_gas = 10000000;
  time_iota_ms = 1000;
  max_age_num_blocks = 100000;
  max_age_duration = 172800000000000;
  evidence_max_bytes = 1048576;
  pub_key_types = bytes "ml-dsa87" ∷ [];
  app_version = 1;
}

pub record NetworkParams : Type 0 where
  pub min_tx_fee : ℕ
  pub min_token_mint_fee : ℕ
  pub block_reward : ℕ
  pub block_reward_halving : ℕ
  pub min_token_staking : ℕ
  pub max_token_supply : ℕ
  pub network_id : Text
  pub magic_bytes : Text

-- `DefaultNetworkParams`
abbrev pub default_network_params : NetworkParams
default_network_params = record {
  min_tx_fee = 1000;
  min_token_mint_fee = 10000;
  block_reward = 5000000000;
  block_reward_halving = 210000;
  min_token_staking = 100000000;
  max_token_supply = 2100000000000000;
  network_id = bytes "shadowy-testnet-1";
  magic_bytes = 0x53 ∷ 0x48 ∷ 0x41 ∷ 0x44 ∷ [];
}

pub record GenesisValidator : Type 0 where
  pub address : Text
  pub key_type : Text
  pub key_value : Text
  pub power : ℕ
  pub name : Text

pub record ShadowAppState : Type 0 where
  pub genesis_token : Option TokenInfo
  pub initial_utxos : List (Option Utxo)
  pub token_registry : Dict Text TokenInfo
  pub network_params : NetworkParams

-- the time is none for the zero time, and else in seconds
pub record GenesisDoc : Type 0 where
  pub genesis_time : Option ℕ
  pub chain_id : Text
  pub initial_height : ℕ
  pub consensus_params : ConsensusParams
  pub validators : List GenesisValidator
  pub app_hash : Text
  pub app_state : Text

-- `json.Marshal` and `json.Unmarshal` of the state
pub record StateCodec : Type 0 where
  pub marshal_state : ShadowAppState → Option Text
  pub unmarshal_state : Text → Option ShadowAppState

pub data GenesisError : Type 0 where
  no_chain_id no_time no_validators no_state bad_state no_token bad_height : GenesisError
  not_a_validator no_key no_marshal genesis_panic : GenesisError
  bad_token : TokenError → GenesisError

abbrev pub some_or_genesis {κ} : {A : Type κ} → GenesisError → Option A → Result GenesisError A
some_or_genesis e none = err e
some_or_genesis e (some a) = ok a

abbrev pub or_bad_token : Result TokenError (Unit {0}) → Result GenesisError (Unit {0})
or_bad_token (ok u) = ok tt
or_bad_token (err e) = err (bad_token e)

-- `copy` into an address of 32 bytes, as a number
unfoldable pub copied : ℕ → Text → ℕ → Address
copied zero bs a = a
copied (suc n) [] a = copied n [] (a * 256)
copied (suc n) (b ∷ bs) a = copied n bs (a * 256 + b)

abbrev pub is_validator : List GenesisValidator → Address → Bool
is_validator vs a = any (λ v. a == copied 32 v.address 0) vs

-- the loop of `ValidateGenesis` over the initial outputs
unfoldable pub check_initial :
    List GenesisValidator → List (Option Utxo) → Result GenesisError (Unit {0})
check_initial vs [] = ok tt
check_initial vs (none ∷ us) = err genesis_panic
check_initial vs (some u ∷ us) = do
  fail_if (not (u.block_height == 0)) bad_height
  fail_if (not (is_validator vs u.output.address)) not_a_validator
  check_initial vs us

abbrev pub is_none {κ} : {A : Type κ} → Option A → Bool
is_none none = true
is_none (some a) = false

module _ (ext : External) where
  -- the output of the validator at the start
  abbrev pub genesis_utxo : Address → Utxo
  genesis_utxo a = record {
    tx_id =
        bytes "genesis_coinbase_0000000000000000000000000000000000000000000000000000000000000000";
    output_index = 0;
    output = shadow_output ext a 1000000000000;
    block_height = 0;
    is_spent = false;
  }

  abbrev pub testnet_state : Address → ShadowAppState
  testnet_state a = record {
    genesis_token = some (genesis_token ext);
    initial_utxos = some (genesis_utxo a) ∷ [];
    token_registry = (ext.genesis_token_id, genesis_token ext) ∷ [];
    network_params = default_network_params;
  }

abbrev pub testnet_doc : Address → Text → Text → GenesisDoc
testnet_doc a key state = record {
  genesis_time = some 1704067200;
  chain_id = bytes "shadowy-testnet-1";
  initial_height = 1;
  consensus_params = default_consensus_params;
  validators =
      record {
        address = be_bytes 32 a;
        key_type = bytes "ml-dsa87";
        key_value = key;
        power = 10;
        name = bytes "genesis-validator";
      }
      ∷ [];
  app_hash = [];
  app_state = state;
}

module _ (ext : External) (codec : StateCodec) where
  -- the checks of the state
  unfoldable pub check_state :
      List GenesisValidator → ShadowAppState → Result GenesisError (Unit {0})
  check_state vs s = do
    token ← some_or_genesis no_token s.genesis_token
    or_bad_token (validate ext token)
    check_initial vs s.initial_utxos

  -- `ValidateGenesis`
  unfoldable pub validate_genesis : GenesisDoc → Result GenesisError (Unit {0})
  validate_genesis d = do
    fail_if (is_empty d.chain_id) no_chain_id
    fail_if (is_none d.genesis_time) no_time
    fail_if (is_empty d.validators) no_validators
    fail_if (is_empty d.app_state) no_state
    state ← some_or_genesis bad_state (codec.unmarshal_state d.app_state)
    check_state d.validators state

  -- `NewTestnetGenesis`, with the address and the packed public key of the pair that is generated, or
  -- none for its error
  unfoldable pub new_testnet_genesis :
      Option (Address × Option Text) → Result GenesisError GenesisDoc
  new_testnet_genesis pair = do
    (a, packed) ← some_or_genesis no_key pair
    state ← some_or_genesis no_marshal (codec.marshal_state (testnet_state ext a))
    key ← some_or_genesis no_key packed
    ok (testnet_doc a key state)

pub data GenesisTxError : Type 0 where
  only_coinbase : GenesisTxError
  tx_error : TxError → GenesisTxError

abbrev pub or_tx_error : Result TxError (Unit {0}) → Result GenesisTxError (Unit {0})
or_tx_error (ok u) = ok tt
or_tx_error (err e) = err (tx_error e)

abbrev pub is_coinbase : TxType → Bool
is_coinbase coinbase = true
is_coinbase _ = false

-- `ValidateGenesisTransaction`
unfoldable pub validate_genesis_tx : External → Transaction → ℕ → Result GenesisTxError (Unit {0})
validate_genesis_tx ext t height =
    if (height == 0) && not (is_coinbase t.tx_type)
    then err only_coinbase
    else if (height == 0) && is_coinbase t.tx_type
    then or_tx_error (validate_coinbase ext t)
    else or_tx_error (validate_transaction ext t)
