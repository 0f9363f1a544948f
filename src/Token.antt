-- ===== src/Token.antt =====
-- lib/tokeninfo.go: the metadata of a token, its validation, and what staking and melting it are
-- worth. An int64 time is its bit pattern.
pub mod Registry
pub mod Valid
pub mod Melt
use shadowd.Common.{
  ℕ, ◌/◌, Bool, true, false, not, List, [], ◌∷◌, all, length, is_empty, leb, ltb, ◌&&◌, ◌||◌, ◌==◌,
  nat_eq, if◌then◌else◌,
}
use shadowd.Common.Text.{Text, bytes, text_eq}
use shadowd.Common.Word.{mul64, scale_up, is_positive}
use shadowd.Common.Result.{Result, ok, err, ◌>>=◌, ◌>>◌, fail_if}
use shadowd.Tx.{Address}
use shadowd.Tx.External.{External}

pub record TokenInfo : Type 0 where
  pub token_id : Text
  pub ticker : Text
  pub desc : Text
  pub max_mint : ℕ
  pub max_decimals : ℕ
  pub total_supply : ℕ
  pub locked_shadow : ℕ
  pub total_melted : ℕ
  pub mint_version : ℕ
  pub creator_address : Address
  pub creation_time : ℕ

pub data TokenError : Type 0 where
  ticker_length ticker_chars desc_length desc_chars max_mint_range decimals_range : TokenError
  bad_version supply_mismatch locked_mismatch bad_time empty_id : TokenError
  already_registered ticker_in_use not_found melt_exceeds_supply : TokenError

-- One byte of the pattern `^[A-Za-z0-9]+$`.
abbrev pub is_alnum : ℕ → Bool
is_alnum c = (leb b'A' c && leb c b'Z') || (leb b'a' c && leb c b'z') || (leb b'0' c && leb c b'9')

-- `regexp.MustCompile("^[A-Za-z0-9]+$").MatchString`
unfoldable pub alnum_text : Text → Bool
alnum_text s = not (is_empty s) && all is_alnum s

-- `IsFullyMelted`
unfoldable pub is_fully_melted : TokenInfo → Bool
is_fully_melted t = leb t.total_supply t.total_melted

-- `SetTokenID`
abbrev pub set_token_id : Text → TokenInfo → TokenInfo
set_token_id id t = record t { token_id = id }

-- The token that `CreateCustomToken` builds, before its identifier is known.
abbrev pub custom_token : Text → Text → ℕ → ℕ → Address → ℕ → TokenInfo
custom_token ticker desc max_mint decimals creator now = record {
  token_id = [];
  ticker = ticker;
  desc = desc;
  max_mint = max_mint;
  max_decimals = decimals;
  total_supply = scale_up decimals max_mint;
  locked_shadow = scale_up decimals max_mint;
  total_melted = 0;
  mint_version = 0;
  creator_address = creator;
  creation_time = now;
}

module _ (ext : External) where
  -- `GenesisTokenInfo`
  abbrev pub genesis_token : TokenInfo
  genesis_token = record {
    token_id = ext.genesis_token_id;
    ticker = bytes "SHADOW";
    desc = bytes "Base token for Shadow Network";
    max_mint = 21_000_000;
    max_decimals = 8;
    total_supply = 2_100_000_000_000_000;
    locked_shadow = 0;
    total_melted = 0;
    mint_version = 0;
    creator_address = 0;
    creation_time = 1704067200;
  }

  -- `IsBaseToken`
  unfoldable pub is_base_token : TokenInfo → Bool
  is_base_token t = t.token_id == ext.genesis_token_id

  -- `Validate`
  unfoldable pub validate : TokenInfo → Result TokenError (Unit {0})
  validate t = do
    fail_if (ltb (length t.ticker) 3 || ltb 32 (length t.ticker)) ticker_length
    fail_if (not (alnum_text t.ticker)) ticker_chars
    fail_if (ltb 64 (length t.desc)) desc_length
    fail_if (ltb 0 (length t.desc) && not (alnum_text t.desc)) desc_chars
    fail_if ((t.max_mint == 0) || ltb 21_000_000 t.max_mint) max_mint_range
    fail_if (ltb 8 t.max_decimals) decimals_range
    fail_if (not (t.mint_version == 0)) bad_version
    fail_if (not (t.total_supply == scale_up t.max_decimals t.max_mint)) supply_mismatch
    fail_if (not (is_base_token t) && not (t.locked_shadow == t.total_supply)) locked_mismatch
    fail_if (not (is_positive t.creation_time)) bad_time
    fail_if (is_empty t.token_id) empty_id

  -- `CalculateStakingRequirement`
  unfoldable pub staking_requirement : TokenInfo → ℕ
  staking_requirement t = if is_base_token t then 0 else t.total_supply

  -- `CalculateMeltValue`
  unfoldable pub melt_value : TokenInfo → ℕ → ℕ
  melt_value t n =
      if is_base_token t
      then 0
      else if t.total_supply == 0
      then 0
      else mul64 n t.locked_shadow / t.total_supply

  -- `CreateCustomToken`, with the time that it reads as an argument.
  unfoldable pub create_custom_token :
      Text → Text → ℕ → ℕ → Address → ℕ → Result TokenError TokenInfo
  create_custom_token ticker desc max_mint decimals creator now =
      let t = custom_token ticker desc max_mint decimals creator now in
      (do validate (set_token_id (bytes "pending") t); ok t)
