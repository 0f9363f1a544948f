-- ===== src/Trading/Send/Sends.antt =====
-- What a transaction of `handleSendTransaction` spends and pays.
use mathlib.Core.Path.{subst}
use mathlib.Core.List.{append-nil, append_assoc}
use shadowd.Common.{
  ℕ, ◌+◌, ◌-◌, ◌*◌, sym, ltb, ◌≡◌, ◌≤◌, ◌<◌, refl, ap, ◌∙◌, true, not, Bool-cases, inl, inr, List,
  [], ◌∷◌, ◌++◌, map, length, length-append, length-keep-le, sum_by, arith, ◌==◌, ◌&&◌, nat_eq,
  if◌then◌else◌,
}
use shadowd.Common.Text.{Text, text_eq}
use shadowd.Common.Word.{u64_mod, add64, sub64}
use shadowd.Common.Result.{ok, Result-cases, bind_inv}
use shadowd.Tx.{Address, send, TxOutput, Transaction, Utxo}
use shadowd.Tx.External.{External}
use shadowd.Tx.Outputs.{built_output}
use shadowd.Tx.Builder.{TxBuilder, new_tx_builder, add_input, add_output}
use shadowd.Tx.Builder.Balance.{held, paid, spending, returned}
use shadowd.Trading.{
  NodeWallet, sign_transaction, select, unspent_of, unspent_besides, estimated_fee, add_inputs,
  add_change,
}
use shadowd.Trading.Selected
use shadowd.Trading.Balance.{apart_sym}
use shadowd.Trading.Send.{
  SendRequest, SendFunds, requested_token, target_fee, required_amount, select_funds, sends_shadow,
  send_change, unsigned_send, with_memo, check_memo, send_from,
}

-- the number that the fee is estimated from: two more where SHADOW for it is spent beside the token
abbrev pub counted : External → Text → ℕ → ℕ
counted ext token n = if sends_shadow ext token then n else n + 2

-- SendFunds that cover a request.
record Funded (ext : External) (r : SendRequest) (token : Text) (us : List Utxo) (f : SendFunds)
    : Type 0 where
  tokens_first : Selected.AreFirst (unspent_of token us) f.tokens
  shadow_first : Selected.AreFirst (unspent_of ext.genesis_token_id us) f.shadow
  fee_eq : f.fee ≡ target_fee r (counted ext token (length f.tokens))
  tokens_spendable : Selected.AreSpendable token f.tokens
  shadow_spendable : Selected.AreSpendable ext.genesis_token_id f.shadow
  token_sum : f.token_total ≡ sum_by held f.tokens
  shadow_sum : f.shadow_total ≡ sum_by held f.shadow
  token_low : f.token_total ≤ sum_by held us
  shadow_low : f.shadow_total ≤ sum_by held us
  covered : r.amount ≤ f.token_total
  fee_covered :
      if sends_shadow ext token then r.amount + f.fee ≤ f.token_total else f.fee ≤ f.shadow_total
  no_shadow : sends_shadow ext token ≡ true → f.shadow_total ≡ 0
  alone : sends_shadow ext token ≡ true → f.shadow ≡ []

-- the sum of the amount and any fee for the outputs does not wrap
abbrev pub SumFits : SendRequest → List Utxo → Type 0
SumFits r us = r.amount + r.fee + (length us + 2) * 1150 + 11500 < u64_mod

target_fee-le :
    (r : SendRequest) (n m : ℕ) → n ≤ m + 2 → target_fee r n ≤ r.fee + (m + 2) * 1150 + 11500
unfolding target_fee estimated_fee
target_fee-le r n m h = ground arith

length-Selects :
    {us picked : List Utxo} {start total : ℕ}
    → Selected.Selects us picked start total
    → length picked ≤ length us
length-Selects {us} {picked} s = omega (arith, ap length s.split, length-append {0} picked s.rest)

select_funds-Funded :
    (ext : External) (r : SendRequest) (token : Text) (us : List Utxo) {f : SendFunds}
    → sum_by held us < u64_mod
    → SumFits r us
    → select_funds ext r token us ≡ ok f
    → Funded ext r token us f
unfolding select_funds
select_funds-Funded ext r token us {f} fits small h =
    let g : Text = ext.genesis_token_id in
    let mine : List Utxo = unspent_of token us in
    let besides : List Utxo = unspent_besides token g us in
    let low : sum_by held mine ≤ sum_by held us = Selected.sum_by-keep _ us in
    let low' : sum_by held besides ≤ sum_by held us = Selected.sum_by-keep _ us in
    let sel =
      Selected.select_from-Selects (required_amount ext r token) mine 0 (omega (arith, low)) in
    let ts : List Utxo = (select (required_amount ext r token) mine).0 in
    let apart : ℕ = target_fee r (length ts + 2) in
    let fee = Selected.select_from-Selects apart besides 0 (omega (arith, low')) in
    let fewer : length ts ≤ length us = omega (
      arith,
      length-Selects sel,
      length-keep-le (λ u. not u.is_spent && (u.output.token_id == token)) us,
    ) in
    let own_le = target_fee-le r (length ts) (length us) (omega arith) in
    let spend =
      Selected.Selects-AreSpendable token sel (Selected.unspent_of-AreSpendable token us) in
    let spend' =
      Selected.Selects-AreSpendable g fee (Selected.unspent_besides-AreSpendable token g us) in
    let tle = Selected.Selects-le sel in
    let sle = Selected.Selects-le fee in
    elim (Bool-cases (sends_shadow ext token)) [
      | inl own ↦
          let found : SendFunds = record {
            tokens = ts;
            token_total = (select (required_amount ext r token) mine).1;
            shadow = [];
            shadow_total = 0;
            fee = target_fee r (length ts);
          } in
          let (e, enough, covers) : (found ≡ f)
              × (r.amount ≤ found.token_total)
              × (add64 r.amount found.fee ≤ found.token_total) =
            ground (arith, own) in
          subst (Funded ext r token us) e (record {
            tokens_first = (sel.rest, sel.split);
            shadow_first = (unspent_of g us, refl);
            fee_eq = rw own refl;
            tokens_spendable = spend;
            shadow_spendable = tt;
            token_sum = omega (arith, sel.sum);
            shadow_sum = refl;
            token_low = omega (arith, sel.sum, tle, low);
            shadow_low = omega arith;
            covered = enough;
            fee_covered = rw own (omega (arith, covers, own_le));
            no_shadow = λ _. refl;
            alone = λ _. refl;
          })
      | inr custom ↦
          let found : SendFunds = record {
            tokens = ts;
            token_total = (select (required_amount ext r token) mine).1;
            shadow = (select apart besides).0;
            shadow_total = (select apart besides).1;
            fee = apart;
          } in
          let (e, enough, covers) : (found ≡ f)
              × (r.amount ≤ found.token_total)
              × (apart ≤ found.shadow_total) =
            ground (arith, custom) in
          subst (Funded ext r token us) e (record {
            tokens_first = (sel.rest, sel.split);
            shadow_first = (
              fee.rest,
              fee.split ∙ Selected.unspent_besides-unspent_of token g us (apart_sym token g custom),
            );
            fee_eq = rw custom refl;
            tokens_spendable = spend;
            shadow_spendable = spend';
            token_sum = omega (arith, sel.sum);
            shadow_sum = omega (arith, fee.sum);
            token_low = omega (arith, sel.sum, tle, low);
            shadow_low = omega (arith, fee.sum, sle, low');
            covered = enough;
            fee_covered = rw custom covers;
            no_shadow = λ own. absurd (ground (arith, own, custom));
            alone = λ own. absurd (ground (arith, own, custom));
          })
    ]

-- the outputs behind the recipient's: what is left of the token and, beside it, of the SHADOW
abbrev pub change_outputs : External → Address → SendRequest → Text → ℕ → ℕ → ℕ → List TxOutput
change_outputs ext back r token total shadow_total fee =
    if sends_shadow ext token
    then returned ext back (total - r.amount - fee) token
    else returned ext back (total - r.amount) token
      ++ returned ext back (shadow_total - fee) ext.genesis_token_id

-- A transaction that answers a request: what it spends, pays and leaves as the fee.
pub record Sends (ext : External) (w : NodeWallet) (us : List Utxo) (r : SendRequest) (to : Address)
    (t : Transaction) : Type 0 where
  pub tokens : List Utxo
  pub shadow : List Utxo
  pub fee : ℕ
  pub tokens_first : Selected.AreFirst (unspent_of (requested_token ext r) us) tokens
  pub shadow_first : Selected.AreFirst (unspent_of ext.genesis_token_id us) shadow
  pub none_beside : sends_shadow ext (requested_token ext r) ≡ true → shadow ≡ []
  pub fee_eq : fee ≡ target_fee r (counted ext (requested_token ext r) (length tokens))
  pub tokens_spendable : Selected.AreSpendable (requested_token ext r) tokens
  pub shadow_spendable : Selected.AreSpendable ext.genesis_token_id shadow
  pub inputs : t.inputs ≡ map spending tokens ++ map spending shadow
  pub pays :
      t.outputs
      ≡ built_output ext to r.amount (requested_token ext r)
        ∷ change_outputs ext w.address r
            (requested_token ext r)
            (sum_by held tokens)
            (sum_by held shadow)
            fee
  pub balance : sum_by held tokens + sum_by held shadow ≡ sum_by paid t.outputs + fee
  pub memo : t.payload ≡ r.memo

with_memo-ok :
    (ext : External) (now : ℕ) (w : NodeWallet) (memo : Text) (u : Transaction) {t : Transaction}
    → u.payload ≡ []
    → with_memo ext now w memo u ≡ ok t
    → (t.inputs ≡ u.inputs) × (t.outputs ≡ u.outputs) × (t.payload ≡ memo)
unfolding with_memo
with_memo-ok ext now w [] u e h = ground (arith, e)
with_memo-ok ext now w (c ∷ cs) u e h = elim (Result-cases (check_memo (c ∷ cs))) [
  | inl (_, good) ↦ ground (arith, good)
  | inr (x, bad) ↦ absurd (ground (arith, bad))
]

add_change-returned :
    (ext : External) (a n : ℕ) (token : Text) (b : TxBuilder)
    → (add_change ext a n token b).outputs ≡ b.outputs ++ returned ext a n token
unfolding add_change
add_change-returned ext a n token b = elim (Bool-cases (ltb 0 n)) [
  | inl some_left ↦ rw some_left refl
  | inr none_left ↦ rw none_left (sym (append-nil b.outputs))
]

send_change_lem :
    (ext : External) (r : SendRequest) (back : Address) (token : Text) (us : List Utxo)
    (f : SendFunds) (b : TxBuilder)
    → Funded ext r token us f
    → sum_by held us < u64_mod
    → ((send_change ext r back token f b).inputs ≡ b.inputs)
      × (sum_by paid (send_change ext r back token f b).outputs + r.amount + f.fee
          ≡ sum_by paid b.outputs + f.token_total + f.shadow_total)
      × ((send_change ext r back token f b).outputs
          ≡ b.outputs ++ change_outputs ext back r token f.token_total f.shadow_total f.fee)
unfolding send_change
send_change_lem ext r back token us f b c fits =
    let g : Text = ext.genesis_token_id in
    elim (Bool-cases (sends_shadow ext token)) [
      | inl own ↦
          let n : ℕ = sub64 (sub64 f.token_total r.amount) f.fee in
          let (ins, sum, _) = Selected.add_change_lem ext back n token b in
          let covers : r.amount + f.fee ≤ f.token_total = ground (arith, own, c.fee_covered) in
          let exact : n + r.amount + f.fee ≡ f.token_total = omega (arith, covers, c.token_low) in
          rw own (
            ins,
            omega (arith, sum, exact, c.no_shadow own),
            add_change-returned ext back n token b
                ∙ ap (λ x. b.outputs ++ returned ext back x token) (omega (arith, exact)),
          )
      | inr custom ↦
          let m : ℕ = sub64 f.token_total r.amount in
          let n : ℕ = sub64 f.shadow_total f.fee in
          let b1 : TxBuilder = add_change ext back m token b in
          let (ins, sum, _) = Selected.add_change_lem ext back m token b in
          let (ins', sum', _) = Selected.add_change_lem ext back n g b1 in
          let first : List TxOutput = returned ext back m token in
          let second : List TxOutput = returned ext back n g in
          let e = add_change-returned ext back m token b in
          let e' = add_change-returned ext back n g b1 in
          let covers : f.fee ≤ f.shadow_total = ground (arith, custom, c.fee_covered) in
          let exact : m + r.amount ≡ f.token_total = omega (arith, c.covered, c.token_low) in
          let exact' : n + f.fee ≡ f.shadow_total = omega (arith, covers, c.shadow_low) in
          rw custom (
            ins' ∙ ins,
            omega (arith, sum, sum', exact, exact'),
            e'
                ∙ ap (λ (os : List TxOutput). os ++ second) e
                ∙ append_assoc b.outputs first second
                ∙ ap (λ x. b.outputs ++ (returned ext back x token ++ second))
                    (omega (arith, exact))
                ∙ ap
                    (λ x.
                      b.outputs
                      ++ (returned ext back (f.token_total - r.amount) token
                          ++ returned ext back x g))
                    (omega (arith, exact')),
          )
    ]

-- inputs and change leave the data alone
add_inputs-payload : (us : List Utxo) (b : TxBuilder) → (add_inputs us b).payload ≡ b.payload
unfolding add_inputs
add_inputs-payload [] b = refl
add_inputs-payload (u ∷ us) b = add_inputs-payload us (add_input u.tx_id u.output_index b)

send_change-payload :
    (ext : External) (r : SendRequest) (back : Address) (token : Text) (f : SendFunds)
    (b : TxBuilder)
    → (send_change ext r back token f b).payload ≡ b.payload
unfolding send_change add_change
send_change-payload ext r back token f b = ground arith

-- the transaction with its memo, signed
signed_send :
    (ext : External) (now : ℕ) (w : NodeWallet) (r : SendRequest) (to : Address) (us : List Utxo)
    (u t : Transaction) (f : SendFunds)
    → sum_by held us < u64_mod
    → Funded ext r (requested_token ext r) us f
    → with_memo ext now w r.memo (unsigned_send ext now w r to (requested_token ext r) f) ≡ ok u
    → sign_transaction ext w u ≡ ok t
    → Sends ext w us r to t
signed_send ext now w r to us u t f fits c memo signed =
    let token : Text = requested_token ext r in
    let b0 : TxBuilder = add_inputs f.tokens (new_tx_builder send now) in
    let b1 : TxBuilder = add_inputs f.shadow b0 in
    let b2 : TxBuilder = add_output ext to r.amount token b1 in
    let (is, os, _, pay) = Selected.sign_transaction-ok ext w u signed in
    let empty_data : (unsigned_send ext now w r to token f).payload ≡ [] =
      send_change-payload ext r w.address token f b2
      ∙ add_inputs-payload f.shadow b0
      ∙ add_inputs-payload f.tokens (new_tx_builder send now) in
    let (is', os', pay') =
      with_memo-ok ext now w r.memo (unsigned_send ext now w r to token f) empty_data memo in
    let (i0, o0, _) = Selected.add_inputs_lem f.tokens (new_tx_builder send now) in
    let (i1, o1, _) = Selected.add_inputs_lem f.shadow b0 in
    let (i2, sum, shape) = send_change_lem ext r w.address token us f b2 c fits in
    let empty : b1.outputs ≡ [] = o1 ∙ o0 in
    let start : sum_by paid b1.outputs ≡ 0 = ap (sum_by paid) empty in
    record {
      tokens = f.tokens;
      shadow = f.shadow;
      fee = f.fee;
      tokens_first = c.tokens_first;
      shadow_first = c.shadow_first;
      none_beside = c.alone;
      fee_eq = c.fee_eq;
      tokens_spendable = c.tokens_spendable;
      shadow_spendable = c.shadow_spendable;
      inputs = is ∙ is' ∙ i2 ∙ i1 ∙ ap (λ x. x ++ map spending f.shadow) i0;
      pays =
          os
          ∙ os'
          ∙ shape
          ∙ ap
              (λ (x : List TxOutput).
                (x ++ (built_output ext to r.amount token ∷ []))
                ++ change_outputs ext w.address r token f.token_total f.shadow_total f.fee)
              empty
          ∙ ap
              (λ x.
                built_output ext to r.amount token
                ∷ change_outputs ext w.address r token x f.shadow_total f.fee)
              c.token_sum
          ∙ ap
              (λ x.
                built_output ext to r.amount token
                ∷ change_outputs ext w.address r token (sum_by held f.tokens) x f.fee)
              c.shadow_sum;
      balance = omega (
        arith,
        ap (sum_by paid) (os ∙ os'),
        sum,
        Selected.add_output-paid ext to r.amount token b1,
        start,
        c.token_sum,
        c.shadow_sum,
      );
      memo = pay ∙ pay';
    }

-- `handleSendTransaction` signs, where it comes that far, a transaction that spends the first of the address's
-- unspent outputs in the requested token and, beside another token, the first of those in SHADOW. Its first
-- output pays the recipient the amount; the others return to the wallet what is left of the token and of the
-- SHADOW, but for the fee that the request and the number of inputs in the token make; and it carries
-- the memo. The outputs of the address together, and the amount with the requested fee and any fee
-- for their number, stay below 2 ^ 64.
pub send_from-Sends :
    (ext : External) (now : ℕ) (w : NodeWallet) (r : SendRequest) (to : Address) (us : List Utxo)
    (t : Transaction)
    → sum_by held us < u64_mod
    → SumFits r us
    → send_from ext now w r to us ≡ ok t
    → Sends ext w us r to t
unfolding send_from
send_from-Sends ext now w r to us t fits small h =
    let token : Text = requested_token ext r in
    let (f, funds, rest) = bind_inv (select_funds ext r token us) _ h in
    let (u, memo, signed) =
      bind_inv (with_memo ext now w r.memo (unsigned_send ext now w r to token f)) _ rest in
    let c = select_funds-Funded ext r token us fits small funds in
    signed_send ext now w r to us u t f fits c memo signed
