-- ===== src/Trading/Shadow.antt =====
-- Trades that give SHADOW itself.
use shadowd.Common.{ℕ, ◌+◌, ◌≡◌, ◌≢◌, refl, Option, List, [], ◌∷◌, length, arith, sym}
use mathlib.Core.Path.{subst}
use shadowd.Common.Text.{Text, text_eq}
use shadowd.Common.Result.{ok, bind_inv}
use shadowd.Tx.{Transaction, Utxo}
use shadowd.Tx.External.{External}
use shadowd.Process.World.{OfferData}
use shadowd.Pool.{SwapData}
use shadowd.Trading.{
  NodeWallet, select_from, select, unspent_of, unspent_besides, Selection, select_with_fee,
}
use shadowd.Trading.Offers.{create_offer}
use shadowd.Trading.Liquidity.{swap_from}
use shadowd.Trading.Selected.{estimated_fee-ge}

-- the outputs for the fee stand behind those of the token, so there are none
no_besides : (token : Text) (us : List Utxo) → unspent_besides token token us ≡ []
no_besides token [] = refl
no_besides token (u ∷ us) = ground (arith, no_besides token us)

pub select_with_fee-fails :
    (extra amount : ℕ) (token : Text) (us : List Utxo) {s : Selection}
    → select_with_fee extra amount (unspent_of token us) (unspent_besides token token us) ≢ ok s
unfolding select_with_fee select_from
select_with_fee-fails extra amount token us h =
    let low = estimated_fee-ge (length (select amount (unspent_of token us)).0 + extra) in
    ground (arith, no_besides token us)

-- Neither `CreateOfferTransaction` nor `CreateSwapTransaction` builds a transaction that gives SHADOW,
-- whatever outputs the wallet has: none is left for the fee.
pub shadow_trade-fails :
    (ext : External) (now : ℕ) (w : NodeWallet) (us : List Utxo) (o : OfferData) (s : SwapData)
    (marshal : OfferData → Option Text) (marshal' : SwapData → Option Text) (t : Transaction)
    → o.have_token_id ≡ ext.genesis_token_id
    → s.token_in ≡ ext.genesis_token_id
    → (create_offer ext now w marshal o us ≢ ok t) × (swap_from ext now w marshal' s us ≢ ok t)
unfolding create_offer swap_from
shadow_trade-fails ext now w us o s marshal marshal' t e e' =
    let g : Text = ext.genesis_token_id in
    (
      λ h.
          let (c, sel, _) =
            bind_inv
              (select_with_fee 2 o.have_amount (unspent_of o.have_token_id us)
                (unspent_besides o.have_token_id g us))
              _ h in
          select_with_fee-fails 2 o.have_amount o.have_token_id us {s = c} (
            subst
              (λ x.
                select_with_fee 2 o.have_amount (unspent_of o.have_token_id us)
                  (unspent_besides o.have_token_id x us)
                ≡ ok c)
              (sym e) sel),
      λ h.
          let (c, sel, _) =
            bind_inv
              (select_with_fee 4 s.amount_in (unspent_of s.token_in us)
                (unspent_besides s.token_in g us))
              _ h in
          select_with_fee-fails 4 s.amount_in s.token_in us {s = c} (
            subst
              (λ x.
                select_with_fee 4 s.amount_in (unspent_of s.token_in us)
                  (unspent_besides s.token_in x us)
                ≡ ok c)
              (sym e') sel),
    )
