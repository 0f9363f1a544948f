-- ===== src/Consensus/Reward.antt =====
-- `calculateBlockReward` and the supply that it lets into being.
use shadowd.Common.{
  ℕ, zero, suc, ◌%◌, sym, ap, ◌∙◌, ◌+◌, ◌*◌, ◌-◌, ◌/◌, ◌^◌, ◌≤◌, ◌<◌, ◌≡◌, inl, inr, leb,
  if◌then◌else◌, arith,
}
use native.Mathlib.Nat.{
  div-div-eq-div-mul, div-eq_of_lt, pow-le-pow_right, suc-mul, eq-or-lt_of_le, pow-suc, pow-succ',
}

-- `InitialBlockReward` and `HalvingInterval`
abbrev pub initial_block_reward : ℕ
initial_block_reward = 5000000000

abbrev pub halving_interval : ℕ
halving_interval = 210000

-- the loop that halves
halve : ℕ → ℕ → ℕ
halve zero r = r
halve (suc n) r = halve n (r / 2)

unfoldable pub block_reward : ℕ → ℕ
unfolding halve
block_reward height =
    let halvings : ℕ = height / halving_interval in
    if leb 64 halvings then 0 else halve halvings initial_block_reward

-- what the first `n` heights pay together
unfoldable pub issued : ℕ → ℕ
issued zero = 0
issued (suc n) = issued n + block_reward n

halve-eq : (n r : ℕ) → halve n r ≡ r / 2 ^ n
unfolding halve
halve-eq zero r = omega arith
halve-eq (suc n) r =
    halve-eq n (r / 2)
    ∙ div-div-eq-div-mul r 2 (2 ^ n)
    ∙ ap (λ (d : ℕ). r / d) (sym (pow-succ' 2 n))

too_small : (n : ℕ) → 64 ≤ n → initial_block_reward / 2 ^ n ≡ 0
too_small n h =
    let big : 2 ^ 64 ≤ 2 ^ n = pow-le-pow_right (omega arith) h in div-eq_of_lt (omega (arith, big))

-- The halving loop, cut off at 64 halvings, pays the initial reward divided by a power of two.
pub block_reward-eq :
    (height : ℕ) → block_reward height ≡ initial_block_reward / 2 ^ (height / halving_interval)
unfolding block_reward
block_reward-eq height =
    let n : ℕ = height / halving_interval in
    ground (arith, halve-eq n initial_block_reward, too_small n)

-- the height after the last one of an interval pays half
same_reward :
    (height : ℕ)
    → suc (height % halving_interval) < halving_interval
    → block_reward (suc height) ≡ block_reward height
unfolding block_reward
same_reward height h =
    let e : suc height / halving_interval ≡ height / halving_interval = omega arith in rw e

halved : (n r : ℕ) → r / 2 ^ suc n ≡ r / 2 ^ n / 2
halved n r = ap (λ (d : ℕ). r / d) (pow-suc 2 n) ∙ sym (div-div-eq-div-mul r (2 ^ n) 2)

half_reward :
    (height : ℕ)
    → suc (height % halving_interval) ≡ halving_interval
    → block_reward (suc height) * 2 ≤ block_reward height
half_reward height h =
    let n : ℕ = height / halving_interval in
    let e : suc height / halving_interval ≡ suc n = omega arith in
    let next : block_reward (suc height) ≡ initial_block_reward / 2 ^ n / 2 =
      block_reward-eq (suc height)
      ∙ ap (λ (k : ℕ). initial_block_reward / 2 ^ k) e
      ∙ halved n initial_block_reward in
    omega (arith, next, block_reward-eq height)

spread : (m r : ℕ) → m < 420000 → (420000 - m) * r ≡ r + (420000 - suc m) * r
spread m r h =
    let e : 420000 - m ≡ suc (420000 - suc m) = omega arith in
    rw e (suc-mul (420000 - suc m) r ∙ omega arith)

-- What is issued, together with what the present rate would pay over two intervals less the part
-- of the interval that is over, never exceeds twice the first interval's reward.
abbrev Bounded : ℕ → Type 0
Bounded n =
    issued n + (2 * halving_interval - n % halving_interval) * block_reward n
    ≤ 2 * halving_interval * initial_block_reward

Bounded-within :
    (n : ℕ) → suc (n % halving_interval) < halving_interval → Bounded n → Bounded (suc n)
unfolding issued
Bounded-within n h b =
    let e : suc n % halving_interval ≡ suc (n % halving_interval) = omega arith in
    rw (e, same_reward n h)
      (omega (arith, b, spread (n % halving_interval) (block_reward n) (omega arith)))

Bounded-halving :
    (n : ℕ) → suc (n % halving_interval) ≡ halving_interval → Bounded n → Bounded (suc n)
unfolding issued
Bounded-halving n h b =
    let e : suc n % halving_interval ≡ 0 = omega arith in
    let m : 2 * halving_interval - n % halving_interval ≡ 210001 = omega arith in
    let b' : issued n + 210001 * block_reward n ≤ 2100000000000000 = rw m at b in
    rw e (omega (arith, b', half_reward n h))

issued_bound : (n : ℕ) → Bounded n
unfolding issued
issued_bound zero = omega (arith, block_reward-eq 0)
issued_bound (suc n) =
    let full : suc (n % halving_interval) ≤ halving_interval = omega arith in
    elim (eq-or-lt_of_le full) [
      | inl h ↦ Bounded-halving n h (issued_bound n)
      | inr h ↦ Bounded-within n h (issued_bound n)
    ]

-- No number of blocks is rewarded with more than 21 million coins of 10 ^ 8 units together.
pub issued-le : (n : ℕ) → issued n ≤ 2100000000000000
issued-le n = omega (arith, issued_bound n)
