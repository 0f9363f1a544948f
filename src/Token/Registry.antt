-- ===== src/Token/Registry.antt =====
-- The token registry of lib/tokeninfo.go. Its map holds pointers: a caller that changes the token
-- it got changes the registry, which the model writes out by `insert`.
pub mod Tickers
use shadowd.Common.{
  ℕ, ◌+◌, Bool, true, false, not, Option, none, some, List, [], ◌∷◌, length, ◌&&◌, ◌==◌, leb, ltb,
  if◌then◌else◌,
}
use shadowd.Common.Text.{Text, text_eq}
use shadowd.Common.Word.{add64}
use shadowd.Common.Dict.{Dict, lookup, insert}
use shadowd.Common.Result.{Result, ok, err, ◌>>=◌, ◌>>◌, fail_if}
use shadowd.Tx.External.{External}
use shadowd.Token.{
  TokenInfo, TokenError, already_registered, ticker_in_use, not_found, melt_exceeds_supply,
  is_fully_melted, genesis_token, validate,
}

abbrev pub Registry : Type 0
Registry = Dict Text TokenInfo

abbrev pub is_some : {A : Type 0} → Option A → Bool
is_some none = false
is_some (some a) = true

-- `NewTokenRegistry`
unfoldable pub new_registry : External → Registry
new_registry ext = insert ext.genesis_token_id (genesis_token ext) []

-- the test in the loop of `CheckTickerAvailable`
abbrev pub holds_ticker : Text → Text × TokenInfo → Bool
holds_ticker ticker (_, t) = (t.ticker == ticker) && not (is_fully_melted t)

-- `CheckTickerAvailable`
unfoldable pub check_ticker_available : Text → Registry → Result TokenError (Unit {0})
check_ticker_available ticker [] = ok tt
check_ticker_available ticker (e ∷ reg) =
    if holds_ticker ticker e then err ticker_in_use else check_ticker_available ticker reg

-- `RegisterToken`
unfoldable pub register_token : External → TokenInfo → Registry → Result TokenError Registry
register_token ext t reg = do
  validate ext t
  fail_if (is_some (lookup t.token_id reg)) already_registered
  check_ticker_available t.ticker reg
  ok (insert t.token_id t reg)

-- `UpdateToken`
unfoldable pub update_token : TokenInfo → Registry → Result TokenError Registry
update_token t reg =
    if is_some (lookup t.token_id reg) then ok (insert t.token_id t reg) else err not_found

-- the body of `RecordMelt` on the token that it found: the registry changes before the check
abbrev pub melt_found : Text → ℕ → Registry → TokenInfo → Result TokenError (Unit {0}) × Registry
melt_found id amount reg t =
    let melted : ℕ = add64 t.total_melted amount in
    let reg' : Registry = insert id (record t { total_melted = melted }) reg in
    (fail_if (ltb t.total_supply melted) melt_exceeds_supply, reg')

-- `RecordMelt`
unfoldable pub record_melt : Text → ℕ → Registry → Result TokenError (Unit {0}) × Registry
record_melt id amount reg = elim (lookup id reg) [
  | none ↦ (err not_found, reg)
  | some t ↦ melt_found id amount reg t
]

-- `GetTokenByTicker`; Go's map order is the order of the list.
unfoldable pub token_by_ticker : Text → Registry → Option TokenInfo
token_by_ticker ticker [] = none
token_by_ticker ticker ((_, t) ∷ reg) =
    if t.ticker == ticker then some t else token_by_ticker ticker reg

-- `ValidateTokenID` and `GetTokenCount`
unfoldable pub validate_token_id : Text → Registry → Bool
validate_token_id id reg = is_some (lookup id reg)

unfoldable pub token_count : Registry → ℕ
token_count reg = length reg
