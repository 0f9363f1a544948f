-- ===== src/Builders/Balance.antt =====
-- What batch sends (lib/transaction_types.go) spend, pay and leave.
use mathlib.Core.List.{append-nil, append_assoc}
use shadowd.Common.{
  ℕ, ◌+◌, ◌-◌, ◌*◌, ◌≤◌, ◌<◌, ◌≡◌, refl, ap, ◌∙◌, sym, Bool, Bool-cases, inl, inr, List, [], ◌∷◌,
  ◌++◌, map, length, keep, length-keep-le, sum_by, arith, ◌==◌, ltb,
}
use shadowd.Common.Text.{bytes, text_eq}
use shadowd.Common.Word.{u64_mod, add64, sub64, sum64, sum64-eq}
use shadowd.Common.Result.{Result, ok, passed_inv}
use shadowd.Tx.{send, TxOutput, Transaction, Utxo}
use shadowd.Tx.External.{External}
use shadowd.Tx.Outputs.{tx_fee}
use shadowd.Tx.Builder.{TxBuilder, new_tx_builder, add_input, add_output, build}
use shadowd.Tx.Builder.Balance.{held, paid, spending, amount-built, length-map-spending}
use shadowd.Trading.Selected.{sum_by-keep}
use shadowd.Builders.{
  SendRecipient, batch_inputs, batch_fee, batch_outputs, batch_change, finish_batch,
  create_batch_send, BuilderError, few_to_send,
}

abbrev in_shadow : Utxo → Bool
in_shadow u = u.output.token_id == bytes "SHADOW"

-- The outputs with the token text SHADOW, in their order.
abbrev pub shadow_ones : List Utxo → List Utxo
shadow_ones us = keep in_shadow us

-- What the loop over the outputs did to a builder and a total.
pub record Gathered (us : List Utxo) (b b' : TxBuilder) (total total' : ℕ) : Type 0 where
  pub inputs : b'.inputs ≡ b.inputs ++ map spending us
  pub outputs : b'.outputs ≡ b.outputs
  pub sum : total' ≡ total + sum_by held us

batch_inputs-Gathered :
    (us : List Utxo) (b : TxBuilder) (total : ℕ)
    → total + sum_by held us < u64_mod
    → Gathered (shadow_ones us) b (batch_inputs us b total).0 total (batch_inputs us b total).1
unfolding batch_inputs
batch_inputs-Gathered [] b total fits = record {
  inputs = sym (append-nil b.inputs);
  outputs = refl;
  sum = omega arith;
}
batch_inputs-Gathered (u ∷ us) b total fits = elim (Bool-cases (in_shadow u)) [
  | inr other ↦ rw other (batch_inputs-Gathered us b total (omega arith))
  | inl same ↦
      let b1 : TxBuilder = add_input u.tx_id u.output_index b in
      let g = batch_inputs-Gathered us b1 (add64 total u.output.amount) (omega arith) in
      rw same (record {
        inputs = g.inputs ∙ append_assoc b.inputs (spending u ∷ []) (map spending (shadow_ones us));
        outputs = g.outputs;
        sum = omega (arith, g.sum);
      })
]

sum_by-paid : (os ps : List TxOutput) → sum_by paid (os ++ ps) ≡ sum_by paid os + sum_by paid ps
sum_by-paid [] ps = omega arith
sum_by-paid (o ∷ os) ps = omega (arith, sum_by-paid os ps)

abbrev pub wanted : List SendRecipient → ℕ
wanted rs = sum_by (λ (r : SendRecipient). r.amount) rs

batch_outputs-paid :
    (ext : External) (rs : List SendRecipient) (b : TxBuilder)
    → ((batch_outputs ext rs b).inputs ≡ b.inputs)
      × (sum_by paid (batch_outputs ext rs b).outputs ≡ sum_by paid b.outputs + wanted rs)
unfolding batch_outputs
batch_outputs-paid ext [] b = (refl, omega arith)
batch_outputs-paid ext (r ∷ rs) b =
    let rest = batch_outputs-paid ext rs (add_output ext r.address r.amount (bytes "SHADOW") b) in
    (
      rest.0,
      omega (
        arith,
        rest.1,
        sum_by-paid b.outputs,
        amount-built ext r.address r.amount (bytes "SHADOW"),
      ),
    )

-- the fee for some inputs, and outputs for the recipients and the change
abbrev full_fee : ℕ → ℕ → ℕ
full_fee ins n = ins * 500 + n * 250 + 1250

full_fee-tx_fee :
    (ins n : ℕ) → full_fee ins n < u64_mod → tx_fee send ins (n + 1) 0 ≡ full_fee ins n
unfolding tx_fee
full_fee-tx_fee ins n h = omega arith

-- the fee that the funds cover is the one for an output of change
batch_fee-full :
    (ins n total sum : ℕ)
    → sum + full_fee ins n < u64_mod
    → add64 sum (batch_fee ins n total sum) ≤ total
    → batch_fee ins n total sum ≡ full_fee ins n
unfolding batch_fee tx_fee
batch_fee-full ins n total sum small h = ground arith

abbrev batch_tx : External → List SendRecipient → ℕ → TxBuilder → ℕ → ℕ → Transaction
batch_tx ext rs back b total fee =
    build (batch_change ext back (sub64 (sub64 total (wanted rs)) fee) (batch_outputs ext rs b))

pub ok_injective :
    {s t : Transaction} → ◌≡◌ {A = Result BuilderError Transaction} (ok s) (ok t) → s ≡ t
ok_injective h = cc

finish_batch-ok :
    (ext : External) (rs : List SendRecipient) (back : ℕ) (b : TxBuilder) (total : ℕ)
    {t : Transaction}
    → wanted rs + full_fee (length b.inputs) (length rs) < u64_mod
    → finish_batch ext rs back (b, total) ≡ ok t
    → (wanted rs + full_fee (length b.inputs) (length rs) ≤ total)
      × (t ≡ batch_tx ext rs back b total (full_fee (length b.inputs) (length rs)))
finish_batch-ok ext rs back b total {t} small h =
    let true_sum : sum64 (λ (r : SendRecipient). r.amount) 0 rs ≡ wanted rs =
      sum64-eq (λ (r : SendRecipient). r.amount) rs (omega arith) in
    let least : ℕ = batch_fee (length b.inputs) (length rs) total (wanted rs) in
    let (covered, done) =
      passed_inv (ltb total (add64 (wanted rs) least)) few_to_send
        (ok (batch_tx ext rs back b total least)) (rw true_sum at h) in
    let fee =
      batch_fee-full (length b.inputs) (length rs) total (wanted rs) small
        (ground (arith, covered)) in
    let exact = rw fee at covered in
    (ground (arith, exact), sym (ok_injective done) ∙ ap (batch_tx ext rs back b total) fee)

batch_tx-balance :
    (ext : External) (rs : List SendRecipient) (back : ℕ) (b : TxBuilder) (total fee : ℕ)
    → b.outputs ≡ []
    → wanted rs + fee ≤ total
    → total < u64_mod
    → ((batch_tx ext rs back b total fee).inputs ≡ b.inputs)
      × (sum_by paid (batch_tx ext rs back b total fee).outputs + fee ≡ total)
batch_tx-balance ext rs back b total fee none_yet le fits =
    let c : ℕ = total - wanted rs - fee in
    let ec : sub64 (sub64 total (wanted rs)) fee ≡ c = omega arith in
    let rest = batch_outputs-paid ext rs b in
    let before : sum_by paid b.outputs ≡ 0 = ap (sum_by paid) none_yet in
    elim (Bool-cases (ltb 0 c)) [
      | inl some_left ↦
          rw (ec, some_left)
            (
              rest.0,
              omega (
                arith,
                rest.1,
                before,
                amount-built ext back c (bytes "SHADOW"),
                sum_by-paid (batch_outputs ext rs b).outputs,
              ),
            )
      | inr none_left ↦
          let z : c ≡ 0 = ground arith in
          rw (ec, none_left) (rest.0, omega (arith, z, rest.1, before))
    ]

-- A batch send that succeeds spends the offered outputs with the token text SHADOW, all of them, and
-- what they hold is what its outputs pay and the fee for its inputs, its recipients and one output more,
-- as long as the offered amounts together, and the amounts to send with the fee, stay below 2 ^ 64.
pub create_batch_send-balance :
    (ext : External) (now : ℕ) (us : List Utxo) (rs : List SendRecipient) (back : ℕ)
    {t : Transaction}
    → sum_by held us < u64_mod
    → wanted rs + (length us * 500 + length rs * 250 + 1250) < u64_mod
    → create_batch_send ext now us rs back ≡ ok t
    → (t.inputs ≡ map spending (shadow_ones us))
      × (sum_by held (shadow_ones us)
          ≡ sum_by paid t.outputs + tx_fee send (length t.inputs) (length rs + 1) 0)
unfolding create_batch_send
create_batch_send-balance ext now us rs back {t} fits small h =
    let fresh : TxBuilder = new_tx_builder send now in
    let g = batch_inputs-Gathered us fresh 0 (omega arith) in
    let b : TxBuilder = (batch_inputs us fresh 0).0 in
    let total : ℕ = (batch_inputs us fresh 0).1 in
    let n = ap length g.inputs ∙ length-map-spending (shadow_ones us) in
    let few = length-keep-le in_shadow us in
    let (le, e) = finish_batch-ok ext rs back b total (omega (arith, n, few)) h in
    let whole =
      batch_tx-balance ext rs back b total (full_fee (length b.inputs) (length rs)) g.outputs le
        (omega (arith, g.sum, sum_by-keep in_shadow us)) in
    let ins : t.inputs ≡ b.inputs = ap (λ (x : Transaction). x.inputs) e ∙ whole.0 in
    let out = ap (λ (x : Transaction). sum_by paid x.outputs) e in
    let same : length t.inputs ≡ length b.inputs = ap length ins in
    let fee = full_fee-tx_fee (length t.inputs) (length rs) (omega (arith, same, n, few)) in
    (ins ∙ g.inputs, omega (arith, g.sum, whole.1, out, same, fee))
