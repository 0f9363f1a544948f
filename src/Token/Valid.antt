-- ===== src/Token/Valid.antt =====
-- What `TokenInfo.Validate` accepts, in numbers that do not wrap.
use native.Mathlib.Nat.{pow-le-pow_right}
use shadowd.Common.{
  ℕ, ◌*◌, ◌^◌, ◌≤◌, ◌<◌, ◌≡◌, ◌≢◌, ◌↔◌, ◌⊎◌, true, [], ◌∷◌, All, length, arith, all_iff,
}
use shadowd.Common.Text.{Text, bytes, text_beq_iff}
use shadowd.Common.Word.{scale_up, scale_up-eq, le_scaled}
use shadowd.Common.Result.{ok}
use shadowd.Tx.{Address}
use shadowd.Tx.External.{External}
use shadowd.Token.{
  TokenInfo, is_alnum, alnum_text, validate, is_base_token, create_custom_token, set_token_id,
  custom_token,
}

abbrev pub IsAlnum : ℕ → Type 0
IsAlnum c = is_alnum c ≡ true

-- The limits of the specification: lengths and characters of the texts, the ranges of the numbers,
-- the supply as a true product, and a custom token's supply fully staked.
pub record IsValid (ext : External) (t : TokenInfo) : Type 0 where
  pub ticker_long : 3 ≤ length t.ticker
  pub ticker_short : length t.ticker ≤ 32
  pub ticker_alnum : All IsAlnum t.ticker
  pub desc_short : length t.desc ≤ 64
  pub desc_alnum : All IsAlnum t.desc
  pub mint_pos : 0 < t.max_mint
  pub mint_bounded : t.max_mint ≤ 21_000_000
  pub decimals_bounded : t.max_decimals ≤ 8
  pub version : t.mint_version ≡ 0
  pub supply : t.total_supply ≡ t.max_mint * 10 ^ t.max_decimals
  pub staked : (t.token_id ≡ ext.genesis_token_id) ⊎ (t.locked_shadow ≡ t.total_supply)
  pub time_pos : 0 < t.creation_time
  pub time_bounded : t.creation_time < 9223372036854775808
  pub identified : t.token_id ≢ []

-- No supply within the limits reaches 2 ^ 64, so the loop of multiplications does not wrap.
pub supply_fits : (d m : ℕ) → d ≤ 8 → m ≤ 21_000_000 → m * 10 ^ d ≤ 2_100_000_000_000_000
supply_fits d m hd hm =
    let p : 10 ^ d ≤ 100_000_000 = pow-le-pow_right (omega arith) hd in grind arith

scale_up-fits : (d m : ℕ) → d ≤ 8 → m ≤ 21_000_000 → scale_up d m ≡ m * 10 ^ d
scale_up-fits d m hd hm = scale_up-eq d m (omega (arith, supply_fits d m hd hm))

alnum_text_iff : (s : Text) → (alnum_text s ≡ true) ↔ ((0 < length s) × All IsAlnum s)
unfolding alnum_text
alnum_text_iff [] = ground arith
alnum_text_iff (c ∷ s) =
    let p = all_iff is_alnum (c ∷ s) in (λ h. (omega arith, p.0 h), λ h. p.1 h.1)

IsAlnum-empty : (s : Text) → length s ≡ 0 → All IsAlnum s
IsAlnum-empty [] h = tt
IsAlnum-empty (c ∷ s) h = absurd (omega arith)

module _ (ext : External) (t : TokenInfo) where
  is_base_token_iff : (is_base_token ext t ≡ true) ↔ (t.token_id ≡ ext.genesis_token_id)
  unfolding is_base_token
  is_base_token_iff = text_beq_iff t.token_id ext.genesis_token_id

  validate-IsValid : validate ext t ≡ ok tt → IsValid ext t
  unfolding validate
  validate-IsValid h = ground (
    arith,
    is_base_token_iff,
    alnum_text_iff t.ticker,
    alnum_text_iff t.desc,
    IsAlnum-empty t.desc,
    scale_up-fits t.max_decimals t.max_mint,
  )

  IsValid-validate : IsValid ext t → validate ext t ≡ ok tt
  unfolding validate
  IsValid-validate v = ground (
    arith,
    is_base_token_iff,
    alnum_text_iff t.ticker,
    alnum_text_iff t.desc,
    scale_up-fits t.max_decimals t.max_mint,
  )

  -- `Validate` accepts a token exactly when it is within the limits.
  pub validate_iff : (validate ext t ≡ ok tt) ↔ IsValid ext t
  validate_iff = (validate-IsValid, IsValid-validate)

pub supply_pos : {ext : External} {t : TokenInfo} → IsValid ext t → 0 < t.total_supply
supply_pos {t = t} v = omega (arith, le_scaled t.max_decimals t.max_mint, v.supply, v.mint_pos)

-- A custom token that is created is, once it has a non-empty identifier, within the limits and
-- ready to be registered; its supply is the true product, wholly staked, and nothing is melted.
pub create_custom_token-IsValid :
    (ext : External) (ticker desc : Text) (max_mint decimals : ℕ) (creator : Address) (now : ℕ)
    (id : Text) {t : TokenInfo}
    → create_custom_token ext ticker desc max_mint decimals creator now ≡ ok t
    → id ≢ []
    → IsValid ext (set_token_id id t)
      × (t.total_supply ≡ max_mint * 10 ^ decimals)
      × (t.locked_shadow ≡ t.total_supply)
      × (t.total_melted ≡ 0)
unfolding create_custom_token
create_custom_token-IsValid ext ticker desc max_mint decimals creator now id h named =
    let c : TokenInfo = custom_token ticker desc max_mint decimals creator now in
    ground (arith, validate_iff ext (set_token_id (bytes "pending") c))
