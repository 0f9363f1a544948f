-- ===== src/Token/Melt.antt =====
-- `CalculateMeltValue` of custom tokens, with the wrap-around of its product.
use native.Mathlib.Nat.{mod-eq_of_lt, mul-div_cancel, div-lt_iff_lt-mul}
use shadowd.Common.{
  ℕ, ◌*◌, ◌/◌, ◌%◌, ◌≤◌, ◌<◌, ◌≡◌, ◌≢◌, ◌↔◌, inl, inr, arith, Bool-cases, ltb, ltb→lt,
}
use shadowd.Common.Text.{text_beq_iff}
use shadowd.Common.Word.{u64_mod}
use shadowd.Tx.External.{External}
use shadowd.Token.{TokenInfo, is_base_token, melt_value}
use shadowd.Token.Valid.{IsValid, supply_pos}

-- A wrapped product over its factor gives the other factor exactly when it did not wrap.
wrapped_quotient : (n s : ℕ) → 0 < s → (n * s % u64_mod / s ≡ n) ↔ (n * s < u64_mod)
wrapped_quotient n s pos = (to, from)
  where
    to : n * s % u64_mod / s ≡ n → n * s < u64_mod
    to e = elim (Bool-cases (ltb (n * s) u64_mod)) [
      | inl fits ↦ ltb→lt _ _ fits
      | inr wraps ↦
          let big : u64_mod ≤ n * s = ground arith in
          let less : n * s % u64_mod / s < n = (div-lt_iff_lt-mul pos).1 (omega arith) in
          absurd (omega arith)
    ]

    from : n * s < u64_mod → n * s % u64_mod / s ≡ n
    from h = rw (mod-eq_of_lt h) (mul-div_cancel n pos)

-- For a valid custom token the formula returns one unit of SHADOW for each unit melted exactly when
-- the amount times the supply is below 2 ^ 64; above that the product wraps and the value is wrong.
pub melt_value-eq_iff :
    (ext : External) (t : TokenInfo) (n : ℕ)
    → IsValid ext t
    → t.token_id ≢ ext.genesis_token_id
    → (melt_value ext t n ≡ n) ↔ (n * t.total_supply < u64_mod)
unfolding melt_value is_base_token
melt_value-eq_iff ext t n v custom =
    let pos = supply_pos v in
    let staked : t.locked_shadow ≡ t.total_supply = ground arith in
    ground (
      arith,
      staked,
      pos,
      wrapped_quotient n t.total_supply pos,
      text_beq_iff t.token_id ext.genesis_token_id,
    )
