-- ===== src/Minting.antt =====
-- lib/token_transactions.go: the builders of mint and melt transactions and the validator of mints;
-- Context has the validator of melts, which reads the store of outputs. A run-time panic (a division by
-- zero) is the error `minting_panic`. `json.Marshal` and `json.Unmarshal` are arguments.
pub mod Context
pub mod Proportions
pub mod Accepted
use shadowd.Common.{
  ◌&&◌, ℕ, ◌/◌, Bool, true, false, not, Option, none, some, List, [], ◌∷◌, ◌++◌, length, is_empty,
  ltb, ◌==◌, ◌||◌, nat_eq, if◌then◌else◌,
}
use shadowd.Common.Text.{Text, bytes, text_eq}
use shadowd.Common.Word.{add64, sub64, mul64, scale_up, sum64}
use shadowd.Common.Result.{Result, ok, err, ◌>>=◌, ◌>>◌, fail_if, Result-cases}
use shadowd.Common.State.{Action}
use shadowd.Tx.{
  Address, TxType, mint_token, melt, TxInput, TxOutput, Transaction, Utxo, input_point,
}
use shadowd.Tx.External.{External, tx_id_or_empty}
use shadowd.Tx.Outputs.{tx_fee, p2pkh_script, shadow_output}
use shadowd.Tx.Builder.{TxBuilder, new_tx_builder, add_input, add_custom_output, set_data, build}
use shadowd.Tx.Validate.{TxError, validate_transaction}
use shadowd.Token.{TokenError}
use shadowd.Token.Registry.{Registry, check_ticker_available}
use shadowd.Utxo.Database.{Database}
use shadowd.Utxo.Store.{Store, get_utxo}
use shadowd.Process.World.{TokenMintData}
use shadowd.Chain.{decimal}

pub data MintingError : Type 0 where
  bad_ticker bad_desc bad_max_mint bad_decimals bad_mint_version bad_mint_data : MintingError
  not_shadow few_shadow no_marshal no_tokens base_token mixed_tokens few_tokens : MintingError
  not_mint two_tokens no_outputs no_token bad_token_id bad_amount bad_locked : MintingError
  not_melt no_inputs not_found unexpected_token bad_unlocked bad_change_locked : MintingError
  minting_panic : MintingError
  ticker_error : TokenError → MintingError
  tx_error : TxError → MintingError

-- an output of a custom token, with the shadow that it locks
unfoldable pub locked_output : Address → ℕ → Text → ℕ → TxOutput
locked_output a n token locked = record {
  amount = n;
  address = a;
  token_id = token;
  token_type = bytes "custom";
  locked_shadow = locked;
  script_pub_key = p2pkh_script a;
  payload = [];
}

-- the tests of the metadata in `CreateTokenMintTransaction` and `ValidateTokenMintTransaction`
unfoldable pub check_metadata : TokenMintData → Result MintingError (Unit {0})
check_metadata d = do
  fail_if (ltb (length d.ticker) 3 || ltb 32 (length d.ticker)) bad_ticker
  fail_if (ltb 64 (length d.desc)) bad_desc
  fail_if ((d.max_mint == 0) || ltb 21_000_000 d.max_mint) bad_max_mint
  fail_if (ltb 8 d.max_decimals) bad_decimals

-- the loop of `CreateTokenMintTransaction` over the inputs, from the total so far
unfoldable pub shadow_inputs :
    Text → List Utxo → TxBuilder → ℕ → Result MintingError (TxBuilder × ℕ)
shadow_inputs shadow [] b total = ok (b, total)
shadow_inputs shadow (u ∷ us) b total = do
  fail_if (not (u.output.token_id == shadow)) not_shadow
  shadow_inputs shadow us (add_input u.tx_id u.output_index b) (add64 total u.output.amount)

abbrev pub some_or_error {κ} : {A : Type κ} → MintingError → Option A → Result MintingError A
some_or_error e none = err e
some_or_error e (some a) = ok a

-- the totals of `CreateTokenMeltTransaction`: the tokens and the shadow that they lock
pub record Totals : Type 0 where
  pub tokens : ℕ
  pub locked : ℕ

abbrev pub count_output : TxOutput → Totals → Totals
count_output o t = record {
  tokens = add64 t.tokens o.amount;
  locked = add64 t.locked o.locked_shadow;
}

-- the loop of `CreateTokenMeltTransaction` over the inputs
unfoldable pub token_inputs :
    Text → List Utxo → TxBuilder → Totals → Result MintingError (TxBuilder × Totals)
token_inputs token [] b t = ok (b, t)
token_inputs token (u ∷ us) b t = do
  fail_if (not (u.output.token_id == token)) mixed_tokens
  token_inputs token us (add_input u.tx_id u.output_index b) (count_output u.output t)

-- `fmt.Sprintf("melt_%s_amount_%d", …)`
unfoldable pub melt_text : Text → ℕ → Text
melt_text token n = bytes "melt_" ++ token ++ bytes "_amount_" ++ decimal n

-- the shadow that a part of the tokens unlocks; a division by zero panics
unfoldable pub unlocked : ℕ → Totals → Result MintingError ℕ
unlocked n t = do fail_if (t.tokens == 0) minting_panic; ok (mul64 n t.locked / t.tokens)

module _ (ext : External) where
  -- the outputs of `CreateTokenMintTransaction`: the whole supply, and the change
  unfoldable pub mint_outputs : Address → ℕ → ℕ → TxBuilder → TxBuilder
  mint_outputs creator supply change b =
      let b' : TxBuilder =
        add_custom_output (locked_output creator supply (bytes "PENDING") supply) b in
      if ltb 0 change then add_custom_output (shadow_output ext creator change) b' else b'

  abbrev pub finish_mint :
      (TokenMintData → Option Text)
      → Address
      → TokenMintData
      → ℕ
      → TxBuilder × ℕ
      → Result MintingError Transaction
  finish_mint marshal creator d supply (b, total) =
      let fee : ℕ = tx_fee mint_token (length b.inputs) 2 0 in
      (do
        fail_if (ltb total (add64 supply fee)) few_shadow
        payload ← some_or_error no_marshal (marshal (record d { mint_version = 0 }))
        ok (
            build
              (mint_outputs creator supply (sub64 (sub64 total supply) fee) (set_data payload b))))

  -- `CreateTokenMintTransaction`, with the clock's reading and `json.Marshal` of the metadata, whose
  -- version the code sets to 0
  unfoldable pub create_token_mint :
      ℕ
      → (TokenMintData → Option Text)
      → Address
      → List Utxo
      → TokenMintData
      → Result MintingError Transaction
  create_token_mint now marshal creator us d = do
    check_metadata d
    found ← shadow_inputs ext.genesis_token_id us (new_tx_builder mint_token now) 0
    finish_mint marshal creator d (scale_up d.max_decimals d.max_mint) found

  -- the outputs of `CreateTokenMeltTransaction`: the unlocked shadow, and the tokens that stay
  unfoldable pub melt_outputs : Address → Address → Text → ℕ → ℕ → Totals → TxBuilder → TxBuilder
  melt_outputs recipient back token n free t b =
      let b' : TxBuilder = add_custom_output (shadow_output ext recipient free) b in
      let change : ℕ = sub64 t.tokens n in
      if ltb 0 change
      then add_custom_output (locked_output back change token (sub64 t.locked free)) b'
      else b'

  abbrev pub finish_melt :
      Address → Address → Text → ℕ → TxBuilder × Totals → Result MintingError Transaction
  finish_melt recipient back token n (b, t) = do
    fail_if (ltb t.tokens n) few_tokens
    free ← unlocked n t
    ok (build (set_data (melt_text token n) (melt_outputs recipient back token n free t b)))

  -- `CreateTokenMeltTransaction`, with the clock's reading
  unfoldable pub create_token_melt :
      ℕ → List Utxo → ℕ → Address → Address → Result MintingError Transaction
  create_token_melt now [] n back recipient = err no_tokens
  create_token_melt now (u ∷ us) n back recipient =
      let token : Text = u.output.token_id in
      (do
        fail_if (token == ext.genesis_token_id) base_token
        found ←
            token_inputs token (u ∷ us) (new_tx_builder melt now)
              (record { tokens = 0; locked = 0 })
        finish_melt recipient back token n found)

-- the loop of `ValidateTokenMintTransaction` over the outputs, with the token output found so far
unfoldable pub token_output_of :
    List TxOutput → Option TxOutput → Result MintingError (Option TxOutput)
token_output_of [] found = ok found
token_output_of (o ∷ os) none =
    if o.token_type == bytes "custom" then token_output_of os (some o) else token_output_of os none
token_output_of (o ∷ os) (some p) =
    if o.token_type == bytes "custom" then err two_tokens else token_output_of os (some p)

-- the tests of the token output in `ValidateTokenMintTransaction`
unfoldable pub check_token_output : Text → ℕ → TxOutput → Result MintingError (Unit {0})
check_token_output id supply o = do
  fail_if (not (o.token_id == id)) bad_token_id
  fail_if (not (o.amount == supply)) bad_amount
  fail_if (not (o.locked_shadow == supply)) bad_locked

abbrev pub or_ticker_error : Result TokenError (Unit {0}) → Result MintingError (Unit {0})
or_ticker_error (ok _) = ok tt
or_ticker_error (err e) = err (ticker_error e)

abbrev pub is_mint : TxType → Bool
is_mint mint_token = true
is_mint _ = false

abbrev pub is_melt : TxType → Bool
is_melt melt = true
is_melt _ = false

-- `ValidateTokenMintTransaction`, with `json.Unmarshal` of the metadata
unfoldable pub validate_token_mint :
    External
    → (Text → Option TokenMintData)
    → Transaction
    → Registry
    → Result MintingError (Unit {0})
validate_token_mint ext unmarshal t reg = do
  fail_if (not (is_mint t.tx_type)) not_mint
  d ← some_or_error bad_mint_data (unmarshal t.payload)
  check_metadata d
  fail_if (not (d.mint_version == 0)) bad_mint_version
  or_ticker_error (check_ticker_available d.ticker reg)
  fail_if (is_empty t.outputs) no_outputs
  found ← token_output_of t.outputs none
  o ← some_or_error no_token found
  check_token_output (tx_id_or_empty ext t) (scale_up d.max_decimals d.max_mint) o

-- what the outputs of a melt hold: the shadow, and the tokens that stay
pub record Paid : Type 0 where
  pub shadow : ℕ
  pub kept : Totals

abbrev pub nothing : Totals
nothing = record { tokens = 0; locked = 0 }

-- the loop of `ValidateTokenMeltTransaction` over the outputs
unfoldable pub melt_paid : Text → Text → List TxOutput → Paid → Result MintingError Paid
melt_paid shadow token [] p = ok p
melt_paid shadow token (o ∷ os) p =
    if o.token_id == shadow
    then melt_paid shadow token os (record p { shadow = add64 p.shadow o.amount })
    else if o.token_id == token
    then melt_paid shadow token os (record p { kept = count_output o p.kept })
    else err unexpected_token

-- the end of `ValidateTokenMeltTransaction`: the proportions
unfoldable pub check_proportions : Totals → Paid → Result MintingError (Unit {0})
check_proportions t p = do
  free ← unlocked (sub64 t.tokens p.kept.tokens) t
  fail_if (not (p.shadow == free)) bad_unlocked
  fail_if (ltb 0 p.kept.tokens && not (p.kept.locked == sub64 t.locked free)) bad_change_locked
