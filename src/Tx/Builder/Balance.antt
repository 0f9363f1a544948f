-- ===== src/Tx/Builder/Balance.antt =====
-- What a simple send spends, pays and leaves as its fee.
use shadowd.Common.{
  ℕ, ◌+◌, ◌≤◌, ◌≡◌, refl, Bool, List, [], ◌∷◌, ◌++◌, map, length, sum_by, All, arith, ◌==◌, ltb,
  leb, keep, if◌then◌else◌,
}
use shadowd.Common.Text.{Text, text_eq}
use shadowd.Common.Word.{add64}
use shadowd.Tx.{send, TxInput, TxOutput, Utxo}
use shadowd.Tx.External.{External}
use shadowd.Tx.Outputs.{new_input, tx_fee, built_output, token_output, shadow_output}
use shadowd.Tx.Builder.{TxBuilder}

abbrev pub held : Utxo → ℕ
held u = u.output.amount

abbrev pub paid : TxOutput → ℕ
paid o = o.amount

-- the input that spends an output
abbrev pub spending : Utxo → TxInput
spending u = new_input u.tx_id u.output_index

-- the outputs of one token, in their order
abbrev pub in_token : Text → List Utxo → List Utxo
in_token token us = keep (λ u. u.output.token_id == token) us

-- The first of the outputs of a token that are offered.
pub record Picked (token : Text) (offered : List Utxo) (picked : List Utxo) : Type 0 where
  pub rest : List Utxo
  pub split : picked ++ rest ≡ in_token token offered
  pub same_token : All (λ (u : Utxo). u.output.token_id ≡ token) picked
  pub fewer : length picked ≤ length offered
  pub covered : sum_by held picked ≤ sum_by held offered

-- What the selection did to a builder and a total.
record Selected (token : Text) (offered : List Utxo) (b b' : TxBuilder) (total total' : ℕ)
    : Type 0 where
  picked : List Utxo
  among : Picked token offered picked
  inputs : b'.inputs ≡ b.inputs ++ map spending picked
  outputs : b'.outputs ≡ b.outputs
  sum : total' ≡ total + sum_by held picked

-- the test that ends the selection
abbrev covers : ℕ → TxBuilder → ℕ → Bool
covers amount b total = leb (add64 amount (tx_fee send (length b.inputs + 1) 2 0)) total

pub amount-built : (ext : External) (a n : ℕ) (id : Text) → (built_output ext a n id).amount ≡ n
unfolding built_output shadow_output token_output
amount-built ext a n id = ground arith

-- an output back, where there is something to return
abbrev pub returned : External → ℕ → ℕ → Text → List TxOutput
returned ext a n token = if ltb 0 n then built_output ext a n token ∷ [] else []

pub length-map-spending : (us : List Utxo) → length (map spending us) ≡ length us
length-map-spending [] = refl
length-map-spending (u ∷ us) = omega (arith, length-map-spending us)

-- the token of a simple send: that of the first output offered
abbrev pub first_token : List Utxo → Text
first_token [] = []
first_token (u ∷ us) = u.output.token_id
