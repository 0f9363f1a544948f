-- ===== src/Trading/Wraps.antt =====
-- The change of a pool that `CreatePoolTransaction` makes of SHADOW and another token.
use mathlib.Core.Path.{subst}
use shadowd.Common.{
  ℕ, ◌+◌, ◌≡◌, ◌≢◌, ◌≤◌, ◌<◌, refl, sym, ap, not, ◌∙◌, true, false, inl, inr, Option, List, [],
  ◌++◌, map, length, sum_by, arith, ◌==◌, ◌&&◌,
}
use shadowd.Common.Text.{Text, text_eq, text_beq_iff}
use shadowd.Common.Word.{u64_mod, add64, sub64}
use shadowd.Common.Result.{ok, bind_inv, passed_inv}
use shadowd.Tx.{create_pool, Transaction, Utxo}
use shadowd.Tx.External.{External}
use shadowd.Tx.Builder.{TxBuilder, new_tx_builder}
use shadowd.Tx.Builder.Balance.{held, spending}
use shadowd.Pool.{CreatePoolData}
use shadowd.Trading.{
  NodeWallet, TradeError, both_shadow, select, unspent_of, estimated_fee, Selection, add_inputs,
  add_change, finish_trade,
}
use shadowd.Trading.Liquidity.{
  PairSelection, select_a, select_b, unspent_beyond, select_fee, select_pair, sliced_error,
  pair_inputs, pair_change, spend_pair, create_pool_from, is_shadow,
}
use shadowd.Trading.Selected.{
  AreFirst, AreFor, keep_ext, Selects-le, select_from-Selects, sum_by-keep, finish_trade-ok,
  paid_in, IsPlain,
}
use shadowd.Trading.Balance.{two_changes, apart_sym}

-- the selection for SHADOW and another token
record CoversPair (ext : External) (b : Text) (us : List Utxo) (amount amount_b : ℕ)
    (s : PairSelection) : Type 0 where
  first_a : AreFirst (unspent_of ext.genesis_token_id us) s.coins_a
  first_b : AreFirst (unspent_of b us) s.coins_b
  enough_b : amount_b ≤ s.total_b
  sum_b : s.total_b ≡ sum_by held s.coins_b
  low_b : s.total_b ≤ sum_by held us
  enough : amount + 11500 ≤ s.total_a
  sum : s.total_a ≡ sum_by held s.coins_a
  low : s.total_a ≤ sum_by held us
  alone : s.shadow ≡ []
  fee_eq : s.fee ≡ estimated_fee (length s.coins_a + length s.coins_b + 4)

-- besides SHADOW, the outputs in a token are all those in it
unspent_beyond-unspent_of :
    (g token : Text) (us : List Utxo)
    → (token == g) ≡ false
    → unspent_beyond g g token us ≡ unspent_of token us
unspent_beyond-unspent_of g token us apart =
    keep_ext _ (λ u. not u.is_spent && (u.output.token_id == token)) us
      (λ u. ground (
        arith,
        apart,
        text_beq_iff token g,
        text_beq_iff u.output.token_id g,
        text_beq_iff u.output.token_id token,
      ))

module _ (ext : External) (b : Text) (other : (b == ext.genesis_token_id) ≡ false) where
  select_pair-CoversPair :
      (short : Text → TradeError) (amount_a amount_b : ℕ) (us : List Utxo) {s : PairSelection}
      → sum_by held us < u64_mod
      → amount_a + 11500 < u64_mod
      → select_pair ext short ext.genesis_token_id b amount_a amount_b us ≡ ok s
      → CoversPair ext b us amount_a amount_b s
  unfolding select_pair select_a select_b select_fee
  select_pair-CoversPair short amount_a amount_b us {s} fits small h =
      let g : Text = ext.genesis_token_id in
      let mine : List Utxo = unspent_of g us in
      let self : (g == g) ≡ true = (text_beq_iff g g).1 refl in
      let low : sum_by held mine ≤ sum_by held us = sum_by-keep _ us in
      let needed : ℕ = add64 amount_a 11500 in
      let sel = select_from-Selects needed mine 0 (omega arith) in
      let le = Selects-le sel in
      let theirs : List Utxo = unspent_beyond g g b us in
      let is_theirs : theirs ≡ unspent_of b us = unspent_beyond-unspent_of g b us other in
      let low' : sum_by held theirs ≤ sum_by held us = sum_by-keep _ us in
      let sel' = select_from-Selects amount_b theirs 0 (omega (arith, low')) in
      let le' = Selects-le sel' in
      let ea : s.coins_a ≡ (select needed mine).0 = ground (arith, self) in
      let eb : s.coins_b ≡ (select amount_b theirs).0 = ground (arith, self, other) in
      let tb : s.total_b ≡ (select amount_b theirs).1 = ground (arith, self, other) in
      record {
        first_a = (sel.rest, ap (λ xs. xs ++ sel.rest) ea ∙ sel.split);
        first_b = (sel'.rest, ap (λ xs. xs ++ sel'.rest) eb ∙ (sel'.split ∙ is_theirs));
        enough_b = ground (arith, self, other);
        sum_b = omega (arith, tb, sel'.sum, ap (sum_by held) eb);
        low_b = omega (arith, tb, sel'.sum, le', low');
        enough = ground (arith, self);
        sum = ground (arith, self, sel.sum);
        low = ground (arith, self, sel.sum, le);
        alone = ground (arith, self);
        fee_eq = ground (arith, self);
      }

estimated_fee_least : (n : ℕ) → n ≤ 10 → estimated_fee n ≡ 11500
unfolding estimated_fee
estimated_fee_least n h = ground arith

-- what is left of a sum when an amount and a fee are taken from it
change_cases :
    (sum amount fee : ℕ)
    → sum < u64_mod
    → amount + 11500 ≤ sum
    → fee < u64_mod
    → (amount + fee ≤ sum → sub64 (sub64 sum amount) fee + amount + fee ≡ sum)
      × (sum < amount + fee → sub64 (sub64 sum amount) fee + amount + fee ≡ sum + u64_mod)
change_cases sum amount fee small enough low = (λ h. omega arith, λ h. omega arith)

estimated_fee-lt : (n : ℕ) → estimated_fee n < u64_mod
unfolding estimated_fee
estimated_fee-lt n = ground arith

-- A pool transaction spends the first of the offered unspent outputs in SHADOW and in the other token, and all
-- its outputs are change for the wallet. The inputs in SHADOW cover the amount and the least fee, and
-- what they hold beyond the amount and the fee for the number of inputs comes back, where they hold
-- as much; where they hold less, the change wraps around.
pub record PoolChange (ext : External) (w : NodeWallet) (us : List Utxo) (token : Text)
    (amount amount_b : ℕ) (t : Transaction) : Type 0 where
  pub coins : List Utxo
  pub others : List Utxo
  pub first_coins : AreFirst (unspent_of ext.genesis_token_id us) coins
  pub first_others : AreFirst (unspent_of token us) others
  pub inputs : t.inputs ≡ map spending coins ++ map spending others
  pub to_wallet : AreFor w.address t.outputs
  pub other_change : paid_in token t.outputs + amount_b ≡ sum_by held others
  pub least : amount + 11500 ≤ sum_by held coins
  pub few :
      length coins + length others ≤ 6
      → paid_in ext.genesis_token_id t.outputs + amount + 11500 ≡ sum_by held coins
  pub kept :
      amount + estimated_fee (length coins + length others + 4) ≤ sum_by held coins
      → paid_in ext.genesis_token_id t.outputs
          + amount
          + estimated_fee (length coins + length others + 4)
        ≡ sum_by held coins
  pub wrapped :
      sum_by held coins < amount + estimated_fee (length coins + length others + 4)
      → paid_in ext.genesis_token_id t.outputs
          + amount
          + estimated_fee (length coins + length others + 4)
        ≡ sum_by held coins + u64_mod

module _ (ext : External) (b : Text) (other : (b == ext.genesis_token_id) ≡ false) where
  -- the change of such a pool: SHADOW, and the other token
  pair_change-shadow :
      (back amount_a amount_b : ℕ) (s : PairSelection) (start : TxBuilder)
      → s.shadow ≡ []
      → pair_change ext back ext.genesis_token_id b amount_a amount_b s (pair_inputs ext s start)
        ≡ add_change ext back (sub64 s.total_b amount_b) b (
            add_change ext back
              (sub64 (sub64 s.total_a amount_a) s.fee)
              ext.genesis_token_id
              (add_inputs s.coins_b (add_inputs s.coins_a start)))
  unfolding pair_change add_inputs
  pair_change-shadow back amount_a amount_b s start alone =
      let self : is_shadow ext ext.genesis_token_id ≡ true =
        (text_beq_iff ext.genesis_token_id ext.genesis_token_id).1 refl in
      simp (alone, self, other) refl

  module _ (now : ℕ) (w : NodeWallet) (us : List Utxo) (amount_a amount_b : ℕ)
      (payload : Option Text) where
    finished-PoolChange :
        (s : PairSelection) (t : Transaction)
        → sum_by held us < u64_mod
        → IsPlain b
        → CoversPair ext b us amount_a amount_b s
        → finish_trade ext w payload (
            pair_change ext w.address ext.genesis_token_id b amount_a amount_b s
              (pair_inputs ext s (new_tx_builder create_pool now)))
          ≡ ok t
        → PoolChange ext w us b amount_a amount_b t
    finished-PoolChange s t fits plain c fin =
        let g : Text = ext.genesis_token_id in
        let change : ℕ = sub64 (sub64 s.total_a amount_a) s.fee in
        let (is, os, _) = finish_trade-ok ext w payload _ fin in
        let shape =
          pair_change-shadow w.address amount_a amount_b s (new_tx_builder create_pool now)
            c.alone in
        let pair : Selection = record {
          tokens = s.coins_a;
          token_total = 0;
          shadow = s.coins_b;
          shadow_total = 0;
          fee = 0;
        } in
        let (i, _, by_shadow, mine) =
          two_changes ext b us 0 0 w now create_pool g b g change (sub64 s.total_b amount_b) pair
            (inr refl) (inl plain) in
        let (_, _, by_other, _) =
          two_changes ext b us 0 0 w now create_pool g b b change (sub64 s.total_b amount_b) pair
            (inr refl) (inl plain) in
        let self : (g == g) ≡ true = (text_beq_iff g g).1 refl in
        let self_b : (b == b) ≡ true = (text_beq_iff b b).1 refl in
        let other_back : paid_in b t.outputs ≡ sub64 s.total_b amount_b =
          ap (paid_in b) (os ∙ ap (λ x. x.outputs) shape)
          ∙ by_other
          ∙ rw (self_b, apart_sym b g other) (omega arith) in
        let paid_back : paid_in g t.outputs ≡ change =
          ap (paid_in g) (os ∙ ap (λ x. x.outputs) shape)
          ∙ by_shadow
          ∙ rw (self, other) (omega arith) in
        let n : ℕ = length s.coins_a + length s.coins_b + 4 in
        let cases =
          change_cases s.total_a amount_a s.fee (omega (arith, c.low)) c.enough
            (rw c.fee_eq (estimated_fee-lt n)) in
        record {
          coins = s.coins_a;
          others = s.coins_b;
          first_coins = c.first_a;
          first_others = c.first_b;
          to_wallet = subst (AreFor w.address) (sym (os ∙ ap (λ x. x.outputs) shape)) mine;
          other_change = omega (arith, other_back, c.enough_b, c.sum_b, c.low_b);
          inputs = is ∙ ap (λ x. x.inputs) shape ∙ i;
          least = omega (arith, c.enough, c.sum);
          few = λ short. omega (
            arith,
            paid_back,
            c.sum,
            c.enough,
            c.fee_eq,
            estimated_fee_least n (omega arith),
            cases.0 (omega (arith, c.enough, c.fee_eq, estimated_fee_least n (omega arith))),
          );
          kept = λ le.
              omega (arith, paid_back, c.sum, c.fee_eq, cases.0 (omega (arith, c.sum, c.fee_eq)));
          wrapped = λ lt.
              omega (arith, paid_back, c.sum, c.fee_eq, cases.1 (omega (arith, c.sum, c.fee_eq)));
        }

-- A transaction that `CreatePoolTransaction` builds of the outputs offered, for a pool of SHADOW and another
-- token, spends the first of the unspent ones in SHADOW, then the first in the other token, and its outputs
-- go back to the wallet: of the other token what is beyond the amount, and of SHADOW the change. The inputs
-- in SHADOW cover the amount and a fee of 11500; up to six inputs the change is what they hold less
-- these two. With more inputs it is less the amount and a fee for their number where they cover it,
-- and otherwise 2 ^ 64 more than that. The amounts offered together, and the amount for the pool
-- with 11500, stay below 2 ^ 64; the other token is neither SHADOW nor the empty text nor the text SHADOW.
pub create_pool_from-PoolChange :
    (ext : External) (now : ℕ) (w : NodeWallet) (us : List Utxo)
    (marshal : CreatePoolData → Option Text) (d : CreatePoolData) (t : Transaction)
    → sum_by held us < u64_mod
    → d.amount_a + 11500 < u64_mod
    → d.token_a ≡ ext.genesis_token_id
    → d.token_b ≢ ext.genesis_token_id
    → IsPlain d.token_b
    → create_pool_from ext now w marshal d us ≡ ok t
    → PoolChange ext w us d.token_b d.amount_a d.amount_b t
unfolding create_pool_from spend_pair
create_pool_from-PoolChange ext now w us marshal d t fits small is_a not_b plain h =
    let g : Text = ext.genesis_token_id in
    let other : (d.token_b == g) ≡ false = ground (arith, not_b, text_beq_iff d.token_b g) in
    let (s, sel, rest) =
      bind_inv (select_pair ext sliced_error d.token_a d.token_b d.amount_a d.amount_b us) _ h in
    let c =
      select_pair-CoversPair ext d.token_b other sliced_error d.amount_a d.amount_b us fits small (
        subst (λ a. select_pair ext sliced_error a d.token_b d.amount_a d.amount_b us ≡ ok s) is_a
          sel) in
    let (_, fin) =
      passed_inv (is_shadow ext d.token_a && is_shadow ext d.token_b) both_shadow _ rest in
    let fin' =
      subst
        (λ a.
          finish_trade ext w (marshal (record d { pool_address = w.address })) (
            pair_change ext w.address a d.token_b d.amount_a d.amount_b s
              (pair_inputs ext s (new_tx_builder create_pool now)))
          ≡ ok t)
        is_a fin in
    finished-PoolChange ext d.token_b other now w us d.amount_a d.amount_b _ s t fits plain c fin'
