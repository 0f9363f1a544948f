-- ===== src/Trading/Selected.antt =====
-- The selection of outputs, and what its inputs, change and signature leave in a transaction.
use mathlib.Core.List.{append-nil, append_assoc}
use mathlib.Core.Path.{subst}
use shadowd.Common.{
  ℕ, ◌+◌, ◌≡◌, ◌≤◌, ◌<◌, refl, sym, ap, ◌∙◌, Bool, false, Bool-cases, inl, inr, Option, none, some,
  Option-cases, List, [], ◌∷◌, ◌++◌, map, keep, sum_by, All, arith, ltb, leb, ◌==◌, ◌⊎◌, ◌||◌,
  is_empty, if◌then◌else◌, not, ◌&&◌,
}
use shadowd.Common.Text.{Text, bytes, text_eq, text_beq_iff}
use shadowd.Common.Word.{u64_mod, add64}
use shadowd.Common.Result.{ok, Result-cases}
use shadowd.Tx.{TxOutput, Transaction, Utxo}
use shadowd.Tx.External.{External, tx_hash}
use shadowd.Tx.Outputs.{built_output, shadow_output, token_output}
use shadowd.Tx.Builder.{TxBuilder, add_input, add_output, build, set_data}
use shadowd.Tx.Builder.Balance.{held, paid, spending, amount-built}
use shadowd.Trading.{
  NodeWallet, sign_message, sign_transaction, select_from, unspent_of, unspent_besides,
  estimated_fee, add_inputs, add_change, finish_trade,
}

-- Unspent outputs in a token.
abbrev pub AreSpendable : Text → List Utxo → Type 0
AreSpendable token us = All (λ (u : Utxo). (u.is_spent ≡ false) × (u.output.token_id ≡ token)) us

-- A selection: the first of the outputs offered, and their sum.
pub record Selects (us picked : List Utxo) (start total : ℕ) : Type 0 where
  pub rest : List Utxo
  pub split : picked ++ rest ≡ us
  pub sum : total ≡ start + sum_by held picked

pub select_from-Selects :
    (needed : ℕ) (us : List Utxo) (total : ℕ)
    → total + sum_by held us < u64_mod
    → Selects us (select_from needed us total).0 total (select_from needed us total).1
unfolding select_from
select_from-Selects needed [] total fits = record { rest = []; split = refl; sum = omega arith }
select_from-Selects needed (u ∷ us) total fits =
    let next : ℕ = add64 total u.output.amount in
    let more = select_from-Selects needed us next (omega arith) in
    elim (Bool-cases (leb needed next)) [
      | inl enough ↦ rw enough (record { rest = us; split = refl; sum = omega arith })
      | inr short ↦ rw short (record {
        rest = more.rest;
        split = ap (λ (r : List Utxo). u ∷ r) more.split;
        sum = omega (arith, more.sum);
      })
    ]

sum_by-append : (us vs : List Utxo) → sum_by held (us ++ vs) ≡ sum_by held us + sum_by held vs
sum_by-append [] vs = omega arith
sum_by-append (u ∷ us) vs = omega (arith, sum_by-append us vs)

pub Selects-le :
    {us picked : List Utxo} {start total : ℕ}
    → Selects us picked start total
    → sum_by held picked ≤ sum_by held us
Selects-le {us} {picked} s = omega (arith, ap (sum_by held) s.split, sum_by-append picked s.rest)

All-left : (P : Utxo → Type 0) (us vs : List Utxo) → All P (us ++ vs) → All P us
All-left P [] vs all = tt
All-left P (u ∷ us) vs (h, all) = (h, All-left P us vs all)

pub unspent_of-AreSpendable :
    (token : Text) (us : List Utxo) → AreSpendable token (unspent_of token us)
unspent_of-AreSpendable token [] = tt
unspent_of-AreSpendable token (u ∷ us) =
    ground (arith, unspent_of-AreSpendable token us, text_beq_iff u.output.token_id token)

pub sum_by-keep : (p : Utxo → Bool) (us : List Utxo) → sum_by held (keep p us) ≤ sum_by held us
sum_by-keep p [] = omega arith
sum_by-keep p (u ∷ us) = ground (arith, sum_by-keep p us)

pub unspent_besides-AreSpendable :
    (other token : Text) (us : List Utxo) → AreSpendable token (unspent_besides other token us)
unspent_besides-AreSpendable other token [] = tt
unspent_besides-AreSpendable other token (u ∷ us) =
    ground
      (arith, unspent_besides-AreSpendable other token us, text_beq_iff u.output.token_id token)

pub Selects-AreSpendable :
    {us picked : List Utxo} {start total : ℕ} (token : Text)
    → Selects us picked start total
    → AreSpendable token us
    → AreSpendable token picked
Selects-AreSpendable {picked = picked} token s all =
    All-left (λ u. (u.is_spent ≡ false) × (u.output.token_id ≡ token)) picked s.rest
      (subst (AreSpendable token) (sym s.split) all)

pub estimated_fee-ge : (n : ℕ) → 11500 ≤ estimated_fee n
unfolding estimated_fee
estimated_fee-ge n = ground arith

pub add_inputs_lem :
    (us : List Utxo) (b : TxBuilder)
    → ((add_inputs us b).inputs ≡ b.inputs ++ map spending us)
      × ((add_inputs us b).outputs ≡ b.outputs)
      × ((add_inputs us b).tx_type ≡ b.tx_type)
unfolding add_inputs
add_inputs_lem [] b = (sym (append-nil b.inputs), refl, refl)
add_inputs_lem (u ∷ us) b =
    let (ins, outs, ty) = add_inputs_lem us (add_input u.tx_id u.output_index b) in
    (ins ∙ append_assoc b.inputs (spending u ∷ []) (map spending us), outs, ty)

sum_by-paid :
    (os : List TxOutput) (o : TxOutput) → sum_by paid (os ++ (o ∷ [])) ≡ sum_by paid os + o.amount
sum_by-paid [] o = omega arith
sum_by-paid (p ∷ os) o = omega (arith, sum_by-paid os o)

pub add_output-paid :
    (ext : External) (a n : ℕ) (token : Text) (b : TxBuilder)
    → sum_by paid (add_output ext a n token b).outputs ≡ sum_by paid b.outputs + n
add_output-paid ext a n token b =
    omega (arith, sum_by-paid b.outputs (built_output ext a n token), amount-built ext a n token)

pub add_change_lem :
    (ext : External) (a n : ℕ) (token : Text) (b : TxBuilder)
    → ((add_change ext a n token b).inputs ≡ b.inputs)
      × (sum_by paid (add_change ext a n token b).outputs ≡ sum_by paid b.outputs + n)
      × ((add_change ext a n token b).tx_type ≡ b.tx_type)
unfolding add_change
add_change_lem ext a n token b = ground (arith, add_output-paid ext a n token b)

-- signing sets the key and the signature, and nothing else
pub sign_transaction-ok :
    (ext : External) (w : NodeWallet) (u : Transaction) {t : Transaction}
    → sign_transaction ext w u ≡ ok t
    → (t.inputs ≡ u.inputs)
      × (t.outputs ≡ u.outputs)
      × (t.tx_type ≡ u.tx_type)
      × (t.payload ≡ u.payload)
unfolding sign_transaction
sign_transaction-ok ext w u h = elim (Option-cases (tx_hash ext u)) [
  | inl fails ↦ absurd (ground (arith, fails))
  | inr (hash, e) ↦ elim (Result-cases (sign_message w hash)) [
    | inr (x, bad) ↦ absurd (ground (arith, e, bad))
    | inl (sig, good) ↦ elim (Option-cases w.public_key) [
      | inl fails ↦ absurd (ground (arith, e, good, fails))
      | inr (key, k) ↦ ground (arith, e, good, k)
    ]
  ]
]

pub finish_trade-ok :
    (ext : External) (w : NodeWallet) (payload : Option Text) (b : TxBuilder) {t : Transaction}
    → finish_trade ext w payload b ≡ ok t
    → (t.inputs ≡ b.inputs) × (t.outputs ≡ b.outputs) × (t.tx_type ≡ b.tx_type)
unfolding finish_trade
finish_trade-ok ext w none b h = absurd (ground arith)
finish_trade-ok ext w (some bs) b h =
    let (ins, outs, ty, _) = sign_transaction-ok ext w (build (set_data bs b)) h in (ins, outs, ty)

-- the amounts of the outputs in a token
abbrev pub paid_in : Text → List TxOutput → ℕ
paid_in token os = sum_by (λ (o : TxOutput). if o.token_id == token then o.amount else 0) os

-- identifiers that `AddOutput` does not take for another name of SHADOW
abbrev pub IsPlain : Text → Type 0
IsPlain token = (is_empty token || (token == bytes "SHADOW")) ≡ false

built-token :
    (ext : External) (a n : ℕ) (token : Text)
    → IsPlain token ⊎ (token ≡ ext.genesis_token_id)
    → ((built_output ext a n token).token_id ≡ token) × ((built_output ext a n token).amount ≡ n)
unfolding built_output shadow_output token_output
built-token ext a n token h = ground (arith, text_beq_iff token ext.genesis_token_id)

paid_in-append :
    (token : Text) (os : List TxOutput) (o : TxOutput)
    → paid_in token (os ++ (o ∷ []))
      ≡ paid_in token os + (if o.token_id == token then o.amount else 0)
paid_in-append token [] o = omega arith
paid_in-append token (p ∷ os) o = omega (arith, paid_in-append token os o)

-- what change adds to the amounts in a token
pub add_change-paid_in :
    (ext : External) (a n : ℕ) (token id : Text) (b : TxBuilder)
    → IsPlain token ⊎ (token ≡ ext.genesis_token_id)
    → paid_in id (add_change ext a n token b).outputs
      ≡ paid_in id b.outputs + (if token == id then n else 0)
unfolding add_change
add_change-paid_in ext a n token id b h =
    let (e, m) = built-token ext a n token h in
    ground (arith, paid_in-append id b.outputs (built_output ext a n token))

-- The first of these outputs, in their order.
abbrev pub AreFirst : List Utxo → List Utxo → Type 0
AreFirst us picked = (rest : List Utxo) × (picked ++ rest ≡ us)

pub keep_ext :
    (p q : Utxo → Bool) (us : List Utxo) → ((u : Utxo) → p u ≡ q u) → keep p us ≡ keep q us
keep_ext p q [] same = refl
keep_ext p q (u ∷ us) same = rw (same u, keep_ext p q us same) refl

-- besides another token, the outputs in a token are all those in it
pub unspent_besides-unspent_of :
    (other token : Text) (us : List Utxo)
    → (token == other) ≡ false
    → unspent_besides other token us ≡ unspent_of token us
unspent_besides-unspent_of other token us apart =
    keep_ext _ (λ u. not u.is_spent && (u.output.token_id == token)) us
      (λ u. ground (
        arith,
        apart,
        text_beq_iff token other,
        text_beq_iff u.output.token_id other,
        text_beq_iff u.output.token_id token,
      ))

-- What goes back goes to one address.
abbrev pub AreFor : ℕ → List TxOutput → Type 0
AreFor a os = All (λ (o : TxOutput). o.address ≡ a) os

AreFor-append :
    (a : ℕ) (os : List TxOutput) (o : TxOutput)
    → AreFor a os
    → o.address ≡ a
    → AreFor a (os ++ (o ∷ []))
AreFor-append a [] o all h = (h, tt)
AreFor-append a (p ∷ os) o (g, all) h = (g, AreFor-append a os o all h)

built-address : (ext : External) (a n : ℕ) (token : Text) → (built_output ext a n token).address ≡ a
unfolding built_output shadow_output token_output
built-address ext a n token = ground arith

pub add_change-AreFor :
    (ext : External) (a n : ℕ) (token : Text) (b : TxBuilder)
    → AreFor a b.outputs
    → AreFor a (add_change ext a n token b).outputs
unfolding add_change
add_change-AreFor ext a n token b all = elim (Bool-cases (ltb 0 n)) [
  | inl some_left ↦
      rw some_left
        (AreFor-append a b.outputs (built_output ext a n token) all (built-address ext a n token))
  | inr none_left ↦ rw none_left all
]
