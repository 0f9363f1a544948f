-- ===== src/Trading/Balance.antt =====
-- What the transactions of lib/swap.go and lib/liquidity_tx.go spend and give back, where one token is given
-- and SHADOW pays the fee.
use mathlib.Core.Path.{subst}
use shadowd.Common.{
  ℕ, ◌+◌, ◌≡◌, ◌≤◌, ◌<◌, refl, sym, ap, ◌∙◌, false, Bool-cases, inl, inr, Option, List, ◌++◌, map,
  length, sum_by, arith, ◌==◌, ◌⊎◌, if◌then◌else◌,
}
use shadowd.Common.Text.{Text, text_eq, text_beq_iff}
use shadowd.Common.Word.{u64_mod, sub64}
use shadowd.Common.Result.{ok, bind_inv}
use shadowd.Tx.{TxType, offer, remove_liquidity, swap, Transaction, Utxo}
use shadowd.Tx.External.{External}
use shadowd.Tx.Builder.{TxBuilder, new_tx_builder}
use shadowd.Tx.Builder.Balance.{held, spending}
use shadowd.Process.World.{OfferData}
use shadowd.Pool.{LiquidityPool, RemoveLiquidityData, SwapData}
use shadowd.Trading.{
  NodeWallet, select, unspent_of, unspent_besides, estimated_fee, Selection, select_with_fee,
  add_inputs, add_change, finish_trade,
}
use shadowd.Trading.Offers.{create_offer}
use shadowd.Trading.Liquidity.{give, remove_liquidity_from, swap_from}
use shadowd.Trading.Selected
use shadowd.Trading.Shadow.{select_with_fee-fails}

-- What a selection of a token and of SHADOW holds.
pub record Covers (token shadow : Text) (us : List Utxo) (extra amount : ℕ) (s : Selection)
    : Type 0 where
  pub tokens_first : Selected.AreFirst (unspent_of token us) s.tokens
  pub shadow_first : Selected.AreFirst (unspent_of shadow us) s.shadow
  pub tokens_spendable : Selected.AreSpendable token s.tokens
  pub shadow_spendable : Selected.AreSpendable shadow s.shadow
  pub token_sum : s.token_total ≡ sum_by held s.tokens
  pub shadow_sum : s.shadow_total ≡ sum_by held s.shadow
  pub token_enough : amount ≤ s.token_total
  pub shadow_enough : s.fee ≤ s.shadow_total
  pub fee_eq : s.fee ≡ estimated_fee (length s.tokens + extra)
  pub token_low : s.token_total ≤ sum_by held us
  pub shadow_low : s.shadow_total ≤ sum_by held us

select_with_fee-Covers :
    (token shadow : Text) (us ts ss : List Utxo) (extra amount : ℕ) {s : Selection}
    → sum_by held us < u64_mod
    → ts ≡ unspent_of token us
    → ss ≡ unspent_of shadow us
    → sum_by held ts ≤ sum_by held us
    → sum_by held ss ≤ sum_by held us
    → Selected.AreSpendable token ts
    → Selected.AreSpendable shadow ss
    → select_with_fee extra amount ts ss ≡ ok s
    → Covers token shadow us extra amount s
unfolding select_with_fee
select_with_fee-Covers token shadow us ts ss extra amount {s} fits is_t is_s low_t low_s all_t all_s
      h =
    let t = Selected.select_from-Selects amount ts 0 (omega arith) in
    let fee : ℕ = estimated_fee (length (select amount ts).0 + extra) in
    let f = Selected.select_from-Selects fee ss 0 (omega arith) in
    let found : Selection = record {
      tokens = (select amount ts).0;
      token_total = (select amount ts).1;
      shadow = (select fee ss).0;
      shadow_total = (select fee ss).1;
      fee = fee;
    } in
    let (enough, covered, e) : (amount ≤ found.token_total)
        × (fee ≤ found.shadow_total)
        × (found ≡ s) =
      ground arith in
    subst (Covers token shadow us extra amount) e (record {
      tokens_first = (t.rest, t.split ∙ is_t);
      shadow_first = (f.rest, f.split ∙ is_s);
      tokens_spendable = Selected.Selects-AreSpendable token t all_t;
      shadow_spendable = Selected.Selects-AreSpendable shadow f all_s;
      token_sum = omega (arith, t.sum);
      shadow_sum = omega (arith, f.sum);
      token_enough = enough;
      shadow_enough = covered;
      fee_eq = refl;
      token_low = omega (arith, t.sum, Selected.Selects-le t);
      shadow_low = omega (arith, f.sum, Selected.Selects-le f);
    })

-- A transaction that gives an amount of a token: it spends the first of the unspent outputs in the token and in
-- SHADOW that are offered, gives the rest of the token back to the wallet, and of the SHADOW all but the fee.
pub record Gives (ext : External) (w : NodeWallet) (us : List Utxo) (ty : TxType) (token : Text)
    (extra amount : ℕ) (t : Transaction) : Type 0 where
  pub tokens : List Utxo
  pub shadow : List Utxo
  pub is_of : t.tx_type ≡ ty
  pub tokens_first : Selected.AreFirst (unspent_of token us) tokens
  pub shadow_first : Selected.AreFirst (unspent_of ext.genesis_token_id us) shadow
  pub tokens_spendable : Selected.AreSpendable token tokens
  pub shadow_spendable : Selected.AreSpendable ext.genesis_token_id shadow
  pub inputs : t.inputs ≡ map spending tokens ++ map spending shadow
  pub to_wallet : Selected.AreFor w.address t.outputs
  pub token_balance : sum_by held tokens ≡ Selected.paid_in token t.outputs + amount
  pub fee_balance :
      sum_by held shadow
      ≡ Selected.paid_in ext.genesis_token_id t.outputs + estimated_fee (length tokens + extra)

pub apart_sym : (s t : Text) → (s == t) ≡ false → (t == s) ≡ false
apart_sym s t h = ground (arith, text_beq_iff s t, text_beq_iff t s)

module _ (ext : External) (token : Text) (us : List Utxo) (extra amount : ℕ) where
  -- the two changes, whichever comes first
  covered-Gives :
      (w : NodeWallet) (ty : TxType) (s : Selection) (t : Transaction)
      → sum_by held us < u64_mod
      → Covers token ext.genesis_token_id us extra amount s
      → t.tx_type ≡ ty
      → t.inputs ≡ map spending s.tokens ++ map spending s.shadow
      → Selected.AreFor w.address t.outputs
      → Selected.paid_in token t.outputs ≡ sub64 s.token_total amount
      → Selected.paid_in ext.genesis_token_id t.outputs ≡ sub64 s.shadow_total s.fee
      → Gives ext w us ty token extra amount t
  covered-Gives w ty s t fits c is_ty ins to_wallet tokens_back shadow_back = record {
    tokens = s.tokens;
    shadow = s.shadow;
    is_of = is_ty;
    tokens_first = c.tokens_first;
    shadow_first = c.shadow_first;
    to_wallet = to_wallet;
    tokens_spendable = c.tokens_spendable;
    shadow_spendable = c.shadow_spendable;
    inputs = ins;
    token_balance = omega (arith, c.token_sum, c.token_enough, c.token_low, tokens_back);
    fee_balance = omega (arith, c.shadow_sum, c.shadow_enough, c.shadow_low, shadow_back, c.fee_eq);
  }

  -- the selection of outputs of the token and of those besides it in SHADOW
  selected-Covers :
      {s : Selection}
      → sum_by held us < u64_mod
      → select_with_fee extra amount
          (unspent_of token us)
          (unspent_besides token ext.genesis_token_id us)
        ≡ ok s
      → Covers token ext.genesis_token_id us extra amount s
        × ((token == ext.genesis_token_id) ≡ false)
  selected-Covers {s} fits h = elim (Bool-cases (token == ext.genesis_token_id)) [
    | inl same ↦
        let e : token ≡ ext.genesis_token_id = (text_beq_iff token ext.genesis_token_id).0 same in
        absurd (
          select_with_fee-fails extra amount token us {s = s} (
            subst
              (λ g.
                select_with_fee extra amount (unspent_of token us) (unspent_besides token g us)
                ≡ ok s)
              (sym e) h))
    | inr other ↦ (
      select_with_fee-Covers token ext.genesis_token_id us (unspent_of token us)
          (unspent_besides token ext.genesis_token_id us) extra amount fits refl
          (Selected.unspent_besides-unspent_of token ext.genesis_token_id us
            (apart_sym token ext.genesis_token_id other))
          (Selected.sum_by-keep _ us) (Selected.sum_by-keep _ us)
          (Selected.unspent_of-AreSpendable token us)
          (Selected.unspent_besides-AreSpendable token ext.genesis_token_id us) h,
      other,
    )
  ]

  module _ (w : NodeWallet) (now : ℕ) (ty : TxType) where
    -- two changes of one builder: what they add to the amounts in a token
    pub two_changes :
        (first second id : Text) (m n : ℕ) (s : Selection)
        → Selected.IsPlain first ⊎ (first ≡ ext.genesis_token_id)
        → Selected.IsPlain second ⊎ (second ≡ ext.genesis_token_id)
        → let b = add_change ext w.address n second (
            add_change ext w.address m first
              (add_inputs s.shadow (add_inputs s.tokens (new_tx_builder ty now)))) in
          (b.inputs ≡ map spending s.tokens ++ map spending s.shadow)
          × (b.tx_type ≡ ty)
          × (Selected.paid_in id b.outputs
              ≡ (if first == id then m else 0) + (if second == id then n else 0))
          × Selected.AreFor w.address b.outputs
    two_changes first second id m n s p q =
        let b0 : TxBuilder = add_inputs s.tokens (new_tx_builder ty now) in
        let b1 : TxBuilder = add_inputs s.shadow b0 in
        let b2 : TxBuilder = add_change ext w.address m first b1 in
        let (i0, o0, t0) = Selected.add_inputs_lem s.tokens (new_tx_builder ty now) in
        let (i1, o1, t1) = Selected.add_inputs_lem s.shadow b0 in
        let (i2, _, t2) = Selected.add_change_lem ext w.address m first b1 in
        let (i3, _, t3) = Selected.add_change_lem ext w.address n second b2 in
        let empty : Selected.paid_in id b1.outputs ≡ 0 = rw (o1, o0) refl in
        (
          i3 ∙ i2 ∙ i1 ∙ ap (λ is. is ++ map spending s.shadow) i0,
          t3 ∙ t2 ∙ t1 ∙ t0,
          omega (
            arith,
            empty,
            Selected.add_change-paid_in ext w.address m first id b1 p,
            Selected.add_change-paid_in ext w.address n second id b2 q,
          ),
          Selected.add_change-AreFor ext w.address n second b2 (
              Selected.add_change-AreFor ext w.address m first b1
                (subst (Selected.AreFor w.address) (sym (o1 ∙ o0)) tt)),
        )

    -- a finished transaction of two changes
    finished-Gives :
        (first second : Text) (m n : ℕ) (s : Selection) (payload : Option Text) (t : Transaction)
        → sum_by held us < u64_mod
        → Covers token ext.genesis_token_id us extra amount s
        → Selected.IsPlain first ⊎ (first ≡ ext.genesis_token_id)
        → Selected.IsPlain second ⊎ (second ≡ ext.genesis_token_id)
        → (if first == token then m else 0) + (if second == token then n else 0)
          ≡ sub64 s.token_total amount
        → (if first == ext.genesis_token_id then m else 0)
            + (if second == ext.genesis_token_id then n else 0)
          ≡ sub64 s.shadow_total s.fee
        → finish_trade ext w payload (
            add_change ext w.address n second (
              add_change ext w.address m first
                (add_inputs s.shadow (add_inputs s.tokens (new_tx_builder ty now)))))
          ≡ ok t
        → Gives ext w us ty token extra amount t
    finished-Gives first second m n s payload t fits c p q tokens_back shadow_back fin =
        let (is, os, kind) = Selected.finish_trade-ok ext w payload _ fin in
        let (i, k, by_token, mine) = two_changes first second token m n s p q in
        let (_, _, by_shadow, _) = two_changes first second ext.genesis_token_id m n s p q in
        covered-Gives w ty s t fits c (kind ∙ k) (is ∙ i)
          (subst (Selected.AreFor w.address) (sym os) mine)
          (ap (Selected.paid_in token) os ∙ by_token ∙ tokens_back)
          (ap (Selected.paid_in ext.genesis_token_id) os ∙ by_shadow ∙ shadow_back)

-- two amounts by two different identifiers, in either order
apart :
    (g token : Text) (m n : ℕ)
    → (token == g) ≡ false
    → ((if g == token then m else 0) + (if token == token then n else 0) ≡ n)
      × ((if g == g then m else 0) + (if token == g then n else 0) ≡ m)
apart g token m n other =
    ground (
      arith,
      text_beq_iff g token,
      text_beq_iff token g,
      text_beq_iff token token,
      text_beq_iff g g,
    )

module _ (ext : External) (now : ℕ) (w : NodeWallet) (us : List Utxo)
    (fits : sum_by held us < u64_mod) (t : Transaction) where
  -- `CreateOfferTransaction`, where it builds a transaction of the outputs offered, spends the first of the unspent
  -- ones in the offered token and the first of those in SHADOW; it gives the tokens beyond the offered
  -- amount back to the wallet, and of the SHADOW all but the fee, which is estimated from the number
  -- of token inputs. The amounts of the outputs together stay below 2 ^ 64, and the token is
  -- neither the empty text nor the text SHADOW.
  pub create_offer-Gives :
      (marshal : OfferData → Option Text) (d : OfferData)
      → Selected.IsPlain d.have_token_id
      → create_offer ext now w marshal d us ≡ ok t
      → Gives ext w us offer d.have_token_id 2 d.have_amount t
  unfolding create_offer
  create_offer-Gives marshal d plain h =
      let token : Text = d.have_token_id in
      let g : Text = ext.genesis_token_id in
      let (s, sel, fin) =
        bind_inv
          (select_with_fee 2 d.have_amount (unspent_of token us) (unspent_besides token g us)) _
          h in
      let (c, other) = selected-Covers ext token us 2 d.have_amount fits sel in
      let (own, back) =
        apart g token (sub64 s.shadow_total s.fee) (sub64 s.token_total d.have_amount) other in
      finished-Gives ext token us 2 d.have_amount w now offer g token (sub64 s.shadow_total s.fee)
        (sub64 s.token_total d.have_amount) s _ t fits c (inr refl) (inl plain) own back fin

  give-Gives :
      (ty : TxType) (token : Text) (amount : ℕ) (payload : Option Text)
      → Selected.IsPlain token
      → give ext now w ty token amount payload us ≡ ok t
      → Gives ext w us ty token 4 amount t
  give-Gives ty token amount payload plain h =
      let g : Text = ext.genesis_token_id in
      let (s, sel, fin) =
        bind_inv (select_with_fee 4 amount (unspent_of token us) (unspent_besides token g us)) _
          h in
      let (c, other) = selected-Covers ext token us 4 amount fits sel in
      let (own, back) =
        apart g token (sub64 s.shadow_total s.fee) (sub64 s.token_total amount) other in
      finished-Gives ext token us 4 amount w now ty token g (sub64 s.token_total amount)
        (sub64 s.shadow_total s.fee) s payload t fits c (inl plain) (inr refl) (omega (arith, own))
        (omega (arith, back)) fin

  -- `CreateSwapTransaction`, where it builds a transaction of the outputs offered, spends unspent outputs in the
  -- token that goes in and in SHADOW, gives the tokens beyond the amount back, and of the SHADOW all
  -- but the fee; under the conditions of the same statement on offers.
  pub swap_from-Gives :
      (marshal : SwapData → Option Text) (d : SwapData)
      → Selected.IsPlain d.token_in
      → swap_from ext now w marshal d us ≡ ok t
      → Gives ext w us swap d.token_in 4 d.amount_in t
  unfolding swap_from
  swap_from-Gives marshal d plain h = give-Gives swap d.token_in d.amount_in (marshal d) plain h

  -- `CreateRemoveLiquidityTransaction` likewise gives tokens of the pool's shares.
  pub remove_liquidity_from-Gives :
      (marshal : RemoveLiquidityData → Option Text) (d : RemoveLiquidityData) (p : LiquidityPool)
      → Selected.IsPlain p.lp_token_id
      → remove_liquidity_from ext now w marshal d p us ≡ ok t
      → Gives ext w us remove_liquidity p.lp_token_id 4 d.lp_tokens t
  unfolding remove_liquidity_from
  remove_liquidity_from-Gives marshal d p plain h =
      give-Gives remove_liquidity p.lp_token_id d.lp_tokens (marshal d) plain h
