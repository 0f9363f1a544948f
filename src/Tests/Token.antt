-- ===== src/Tests/Token.antt =====
-- Sample tokens and registries.
use shadowd.Common.{◌+◌, ◌<◌, ◌≡◌, ◌≢◌, refl, [], some, arith}
use shadowd.Common.Text.{bytes, text_beq, text_eq}
use shadowd.Common.Word.{u64_mod, scale_up}
use shadowd.Common.Dict.{lookup, insert}
use shadowd.Common.Result.{ok}
use shadowd.Token.{
  TokenInfo, custom_token, set_token_id, validate, create_custom_token, alnum_text, is_base_token,
  is_fully_melted,
}
use shadowd.Token.Registry.{Registry, new_registry, register_token, check_ticker_available}
use shadowd.Token.Registry.Tickers.{
  IsConsistent, new_registry-IsConsistent, register_token-IsConsistent,
}
use shadowd.Tests.Fixtures.{toy_ext}

abbrev gold : TokenInfo
gold = custom_token (bytes "GOLD") (bytes "Metal") 12 2 7 99

abbrev pub filed_gold : TokenInfo
filed_gold = set_token_id (bytes "id") gold

gold_created : create_custom_token toy_ext (bytes "GOLD") (bytes "Metal") 12 2 7 99 ≡ ok gold
unfolding create_custom_token validate alnum_text is_base_token text_beq scale_up
gold_created = refl

id_named : bytes "id" ≢ []
id_named h = ground arith

gold_valid : validate toy_ext filed_gold ≡ ok tt
unfolding validate alnum_text is_base_token text_beq scale_up
gold_valid = refl

gold_custom : filed_gold.token_id ≢ toy_ext.genesis_token_id
gold_custom h = ground arith

abbrev fresh : Registry
fresh = new_registry toy_ext

abbrev with_gold : Registry
with_gold = insert (bytes "id") filed_gold fresh

gold_registered : register_token toy_ext filed_gold fresh ≡ ok with_gold
unfolding register_token new_registry check_ticker_available is_fully_melted lookup insert validate
    alnum_text is_base_token text_beq scale_up
gold_registered = refl

register_token-IsConsistent_example : IsConsistent with_gold
register_token-IsConsistent_example =
    register_token-IsConsistent toy_ext filed_gold fresh (new_registry-IsConsistent toy_ext)
      gold_registered

with_gold-IsConsistent : IsConsistent with_gold
with_gold-IsConsistent =
    register_token-IsConsistent toy_ext filed_gold fresh (new_registry-IsConsistent toy_ext)
      gold_registered

gold_found : lookup (bytes "id") with_gold ≡ some filed_gold
unfolding new_registry lookup insert text_beq
gold_found = refl

gold_fits :
    (t : TokenInfo) → lookup (bytes "id") with_gold ≡ some t → t.total_melted + 300 < u64_mod
unfolding scale_up
gold_fits t h = ground (arith, gold_found)
