-- ===== src/Tests/Genesis.antt =====
-- The genesis document of the test network, and one with a token that passes.
use shadowd.Common.{◌≡◌, ◌≢◌, ◌↔◌, refl, sym, ap, Option, none, some, List, [], ◌∷◌}
use shadowd.Common.Text.{Text, bytes, text_beq}
use shadowd.Common.Result.{ok, err}
use shadowd.Tx.{Address, Utxo}
use shadowd.Tx.Outputs.{be_bytes, shadow_output, token_output}
use shadowd.Token.{desc_chars}
use shadowd.Genesis.{
  ShadowAppState, StateCodec, bad_token, testnet_state, testnet_doc, validate_genesis,
  new_testnet_genesis, check_state, check_initial, copied,
}
use shadowd.Genesis.Checked.{IsGenesis, new_testnet_genesis-refused, validate_genesis_iff}
use shadowd.Token.{validate, alnum_text, is_base_token}
use shadowd.Common.Word.{scale_up}
use shadowd.Tests.Fixtures.{toy_ext}
use shadowd.Tests.Token.{filed_gold}

-- the text of a state is the address of its first output
abbrev state_text : List (Option Utxo) → Option Text
state_text [] = none
state_text (none ∷ us) = none
state_text (some u ∷ us) = some (1 ∷ u.output.address ∷ [])

abbrev text_state : Text → Option ShadowAppState
text_state (n ∷ a ∷ []) = some (testnet_state toy_ext a)
text_state _ = none

abbrev toy_states : StateCodec
toy_states = record {
  marshal_state = λ s. state_text s.initial_utxos;
  unmarshal_state = text_state;
}

read_back :
    (a : Address) (text : Text)
    → toy_states.marshal_state (testnet_state toy_ext a) ≡ some text
    → (text ≢ []) × (toy_states.unmarshal_state text ≡ some (testnet_state toy_ext a))
unfolding shadow_output token_output
read_back a text h =
    let same : 1 ∷ a ∷ [] ≡ text = cc (h) in (λ e. absurd (cc), sym (ap text_state same))

made :
    new_testnet_genesis toy_ext toy_states (some (9, some (bytes "k")))
    ≡ ok (testnet_doc 9 (bytes "k") (1 ∷ 9 ∷ []))
unfolding new_testnet_genesis shadow_output token_output
made = refl

new_testnet_genesis-refused_example :
    validate_genesis toy_ext toy_states (testnet_doc 9 (bytes "k") (1 ∷ 9 ∷ []))
    ≡ err (bad_token desc_chars)
new_testnet_genesis-refused_example =
    new_testnet_genesis-refused toy_ext toy_states (some (9, some (bytes "k"))) read_back made

-- the state with the sample token, and its document
abbrev gold_states : StateCodec
gold_states = record toy_states {
  unmarshal_state =
      λ text. some (record (testnet_state toy_ext 9) { genesis_token = some filed_gold });
}

validate_genesis_iff_example :
    (validate_genesis toy_ext gold_states (testnet_doc 9 (bytes "k") (1 ∷ 9 ∷ [])) ≡ ok tt)
    ↔ IsGenesis toy_ext gold_states (testnet_doc 9 (bytes "k") (1 ∷ 9 ∷ []))
validate_genesis_iff_example =
    validate_genesis_iff toy_ext gold_states (testnet_doc 9 (bytes "k") (1 ∷ 9 ∷ []))

gold_accepted :
    validate_genesis toy_ext gold_states (testnet_doc 9 (bytes "k") (1 ∷ 9 ∷ [])) ≡ ok tt
unfolding validate_genesis check_state check_initial validate alnum_text is_base_token scale_up
    copied shadow_output token_output be_bytes text_beq
gold_accepted = refl
