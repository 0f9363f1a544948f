-- ===== src/Pool/Trade/Shares.antt =====
-- The shares of a pool under deposits and withdrawals.
use native.Mathlib.Nat.{mod-eq_of_lt, le-div_iff_mul-le, div-le_of_le-mul, div-mul-le_self}
use shadowd.Common.{ℕ, ◌+◌, ◌-◌, ◌*◌, ◌/◌, ◌≤◌, ◌<◌, ◌≡◌, some, arith}
use shadowd.Common.Word.{u64_mod, add64, sub64, mul64}
use shadowd.Pool.{LiquidityPool}
use shadowd.Pool.Trade.{lp_to_mint, add_reserves, amounts_to_return, remove_reserves}

minted_le : (a s r m : ℕ) → 0 < r → m ≤ a * s / r → m * r ≤ a * s
minted_le a s r m pos h = (le-div_iff_mul-le pos).0 h

-- m shares for a deposit of a, burned again, pay out at most a
returned_le : (a s r m : ℕ) → m * r ≤ a * s → m * (r + a) / (s + m) ≤ a
returned_le a s r m h = div-le_of_le-mul (s + m) (omega arith)

-- The products and sums of a deposit, and of the withdrawal of what it minted, are below 2 ^ 64.
pub record ShareFits (a b m : ℕ) (p : LiquidityPool) : Type 0 where
  pub reserve_a_pos : 0 < p.reserve_a
  pub reserve_b_pos : 0 < p.reserve_b
  pub supply_pos : 0 < p.lp_token_supply
  pub ratio_a : a * p.lp_token_supply < u64_mod
  pub ratio_b : b * p.lp_token_supply < u64_mod
  pub sum_a : p.reserve_a + a < u64_mod
  pub sum_b : p.reserve_b + b < u64_mod
  pub sum_lp : p.lp_token_supply + m < u64_mod
  pub share_a : m * (p.reserve_a + a) < u64_mod
  pub share_b : m * (p.reserve_b + b) < u64_mod

module _ (a b m : ℕ) (p : LiquidityPool) (fits : ShareFits a b m p) where
  lp_to_mint-le :
      lp_to_mint a b p ≡ some m
      → (m * p.reserve_a ≤ a * p.lp_token_supply) × (m * p.reserve_b ≤ b * p.lp_token_supply)
  unfolding lp_to_mint
  lp_to_mint-le h =
      let ea : mul64 a p.lp_token_supply ≡ a * p.lp_token_supply = mod-eq_of_lt fits.ratio_a in
      let eb : mul64 b p.lp_token_supply ≡ b * p.lp_token_supply = mod-eq_of_lt fits.ratio_b in
      let both_le : (m ≤ mul64 a p.lp_token_supply / p.reserve_a)
          × (m ≤ mul64 b p.lp_token_supply / p.reserve_b) =
        (ground arith, ground arith) in
      (
        minted_le a p.lp_token_supply p.reserve_a m fits.reserve_a_pos (rw ea at both_le.0),
        minted_le b p.lp_token_supply p.reserve_b m fits.reserve_b_pos (rw eb at both_le.1),
      )

  amounts-added :
      amounts_to_return m (add_reserves a b m p)
      ≡ some (
        m * (p.reserve_a + a) / (p.lp_token_supply + m),
        m * (p.reserve_b + b) / (p.lp_token_supply + m),
      )
  unfolding amounts_to_return add_reserves
  amounts-added =
      let ea : add64 p.reserve_a a ≡ p.reserve_a + a = mod-eq_of_lt fits.sum_a in
      let eb : add64 p.reserve_b b ≡ p.reserve_b + b = mod-eq_of_lt fits.sum_b in
      let es : add64 p.lp_token_supply m ≡ p.lp_token_supply + m = mod-eq_of_lt fits.sum_lp in
      let sa : mul64 m (p.reserve_a + a) ≡ m * (p.reserve_a + a) = mod-eq_of_lt fits.share_a in
      let sb : mul64 m (p.reserve_b + b) ≡ m * (p.reserve_b + b) = mod-eq_of_lt fits.share_b in
      rw (ea, eb, es, sa, sb) (ground (arith, fits.supply_pos))

-- Where no product or sum wraps and the reserves and the supply are above zero, shares are minted
-- in proportion: the part of the pool that each older share stands for does not shrink, and
-- whoever burns the minted shares at once gets back at most what was deposited.
pub deposit_no_gain :
    (a b m : ℕ) (p : LiquidityPool)
    → ShareFits a b m p
    → lp_to_mint a b p ≡ some m
    → (x : ℕ) × (y : ℕ) × (amounts_to_return m (add_reserves a b m p) ≡ some (x, y))
      × (x ≤ a)
      × (y ≤ b)
      × (p.reserve_a * (p.lp_token_supply + m) ≤ (p.reserve_a + a) * p.lp_token_supply)
      × (p.reserve_b * (p.lp_token_supply + m) ≤ (p.reserve_b + b) * p.lp_token_supply)
deposit_no_gain a b m p fits h =
    let (la, lb) = lp_to_mint-le a b m p fits h in
    (
      m * (p.reserve_a + a) / (p.lp_token_supply + m),
      m * (p.reserve_b + b) / (p.lp_token_supply + m),
      amounts-added a b m p fits,
      returned_le a p.lp_token_supply p.reserve_a m la,
      returned_le b p.lp_token_supply p.reserve_b m lb,
      omega arith,
      omega arith,
    )

-- what is paid out of a reserve r for m of s shares leaves the others' part as large as it was
rest_le : (m s r : ℕ) → m ≤ s → m * r / s ≤ r
rest_le m s r h = div-le_of_le-mul s (grind arith)

rest_share : (m t x y : ℕ) → x * (m + t) ≤ m * (x + y) → (x + y) * t ≤ y * (m + t)
rest_share m t x y h = omega arith

rest_share_sub : (m s r x : ℕ) → m ≤ s → x ≤ r → x * s ≤ m * r → r * (s - m) ≤ (r - x) * s
rest_share_sub m s r x hm hx h =
    let es : m + (s - m) ≡ s = omega arith in
    let er : x + (r - x) ≡ r = omega arith in
    rw (es, er) at (rest_share m (s - m) x (r - x) (rw (es, er) h))

-- A withdrawal of no more shares than there are, whose products fit in 64 bits, pays out no more
-- than the reserves, and the part of the pool that each remaining share stands for does not shrink.
pub withdrawal_keeps_share :
    (m : ℕ) (p : LiquidityPool)
    → 0 < p.lp_token_supply
    → m ≤ p.lp_token_supply
    → m * p.reserve_a < u64_mod
    → m * p.reserve_b < u64_mod
    → p.reserve_a < u64_mod
    → p.reserve_b < u64_mod
    → p.lp_token_supply < u64_mod
    → (x : ℕ) × (y : ℕ) × (amounts_to_return m p ≡ some (x, y))
      × (x ≤ p.reserve_a)
      × (y ≤ p.reserve_b)
      × (p.reserve_a * (remove_reserves x y m p).lp_token_supply
          ≤ (remove_reserves x y m p).reserve_a * p.lp_token_supply)
      × (p.reserve_b * (remove_reserves x y m p).lp_token_supply
          ≤ (remove_reserves x y m p).reserve_b * p.lp_token_supply)
unfolding amounts_to_return remove_reserves
withdrawal_keeps_share m p pos le fa fb ba bb bs =
    let s : ℕ = p.lp_token_supply in
    let x : ℕ = m * p.reserve_a / s in
    let y : ℕ = m * p.reserve_b / s in
    let lx = rest_le m s p.reserve_a le in
    let ly = rest_le m s p.reserve_b le in
    let ea : mul64 m p.reserve_a ≡ m * p.reserve_a = mod-eq_of_lt fa in
    let eb : mul64 m p.reserve_b ≡ m * p.reserve_b = mod-eq_of_lt fb in
    let es : sub64 s m ≡ s - m = omega arith in
    let ra : sub64 p.reserve_a x ≡ p.reserve_a - x = omega arith in
    let rb : sub64 p.reserve_b y ≡ p.reserve_b - y = omega arith in
    (
      x,
      y,
      rw (ea, eb) (ground arith),
      lx,
      ly,
      rw (es, ra) (rest_share_sub m s p.reserve_a x le lx (div-mul-le_self (m * p.reserve_a) s)),
      rw (es, rb) (rest_share_sub m s p.reserve_b y le ly (div-mul-le_self (m * p.reserve_b) s)),
    )
