-- ===== src/Process/Tokens.antt =====
-- The mint and melt cases of `ProcessTokenTransaction`.
use shadowd.Common.{ℕ, Option, none, some, List, [], ◌∷◌, any, ◌==◌, ◌&&◌, if◌then◌else◌}
use shadowd.Common.Text.{Text, bytes, text_eq}
use shadowd.Common.Word.{add64, sub64}
use shadowd.Common.Result.{Result, ok, err}
use shadowd.Common.State.{pure, gets, modify, ◌>>=◌, ◌>>◌}
use shadowd.Tx.{TxInput, TxOutput, Transaction, Utxo, input_point}
use shadowd.Token.{TokenInfo, TokenError, create_custom_token, set_token_id}
use shadowd.Token.Registry.{register_token, record_melt}
use shadowd.Process.World.{
  Env, World, Step, panic, bad_data, token_error, slice, or_raise, try_get, on_tokens,
}

-- The first output that `CreateTokenMintTransaction` left with a placeholder takes the identifier.
unfoldable pub name_pending : Text → List TxOutput → List TxOutput
name_pending id [] = []
name_pending id (o ∷ os) =
    if (o.token_type == bytes "custom") && (o.token_id == bytes "PENDING")
    then record o { token_id = id } ∷ os
    else o ∷ name_pending id os

-- the amount of the outputs in one token, subtracted from a total
unfoldable pub less_change : Text → List TxOutput → ℕ → ℕ
less_change id [] total = total
less_change id (o ∷ os) total =
    less_change id os (if o.token_id == id then sub64 total o.amount else total)

abbrev first : {A : Type 0} → List A → Option A
first [] = none
first (x ∷ xs) = some x

abbrev add_if_token : Text → Option Utxo → ℕ → ℕ
add_if_token id none total = total
add_if_token id (some u) total =
    if u.output.token_id == id then add64 total u.output.amount else total

module _ {env : Env} where
  abbrev creator_of : Result TokenError TokenInfo → Step env TokenInfo
  creator_of (ok t) w = (ok t, w)
  creator_of (err e) w = (err (token_error e), w)

  abbrev rename_outputs : Text → World env → World env
  rename_outputs id w = record w { tx = record (w.tx) { outputs = name_pending id w.tx.outputs } }

  -- `case TxTypeMintToken`
  unfoldable pub process_mint : Text → Step env (Unit {0})
  process_mint id = do
    t ← gets (λ w. w.tx)
    data' ← or_raise (env.codec.mint_data t.payload) bad_data
    o ← or_raise (first t.outputs) panic
    info ← creator_of (
        create_custom_token env.ext data'.ticker data'.desc data'.max_mint data'.max_decimals
          o.address env.now)
    modify (rename_outputs id)
    on_tokens (register_token env.ext (set_token_id id info))
    slice 16 id

  -- the loop that adds up the inputs of the melted token
  unfoldable pub melted_inputs : Text → List TxInput → ℕ → Step env ℕ
  melted_inputs id [] total = pure total
  melted_inputs id (i ∷ is) total = do
    found ← try_get (input_point i)
    melted_inputs id is (add_if_token id found total)

  -- `RecordMelt` on the shared registry
  abbrev melt_token : Text → ℕ → Step env (Unit {0})
  melt_token id amount w =
      let (r, reg) = record_melt id amount w.tokens in
      (elim r [ ok _ ↦ ok tt | err e ↦ err (token_error e) ], record w { tokens = reg })

  abbrev melt_from : Transaction → Option Utxo → Step env (Unit {0})
  melt_from t none = pure tt
  melt_from t (some u) = do
    let id = u.output.token_id
    total ← melted_inputs id t.inputs 0
    melt_token id (less_change id t.outputs total)
    slice 16 id

  abbrev melt_first : Transaction → List TxInput → Step env (Unit {0})
  melt_first t [] = pure tt
  melt_first t (i ∷ is) = do found ← try_get (input_point i); melt_from t found

  -- `case TxTypeMelt`; the loop over the outputs ends at the first one in SHADOW.
  unfoldable pub process_melt : Text → Step env (Unit {0})
  process_melt id = do
    slice 16 id
    t ← gets (λ w. w.tx)
    if any (λ o. o.token_id == env.ext.genesis_token_id) t.outputs
        then melt_first t t.inputs
        else pure tt
