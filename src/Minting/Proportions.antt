-- ===== src/Minting/Proportions.antt =====
-- The inputs and the outputs of a melt that lib/token_transactions.go builds, in the proportions of its
-- validator.
use mathlib.Core.List.{append-nil, append_assoc}
use native.Mathlib.Nat.{mul-div-le}
use shadowd.Common.{
  ℕ, ◌≤◌, ◌<◌, ◌≡◌, ◌≢◌, refl, ap, ◌∙◌, Bool-cases, inl, inr, List, [], ◌∷◌, ◌++◌, map, All, arith,
  ◌==◌, ltb, nat_eq,
}
use shadowd.Common.Text.{Text, text_eq, text_beq_iff}
use shadowd.Common.Word.{u64_mod, add64, sub64, mul64}
use shadowd.Common.Result.{ok}
use shadowd.Tx.{TxOutput, Utxo}
use shadowd.Tx.External.{External}
use shadowd.Tx.Outputs.{shadow_output, token_output}
use shadowd.Tx.Builder.{TxBuilder, add_input}
use shadowd.Tx.Builder.Balance.{spending}
use shadowd.Minting.{
  Totals, count_output, token_inputs, locked_output, unlocked, melt_outputs, Paid, nothing,
  melt_paid, check_proportions,
}

-- the totals of outputs, as the loop of the validator counts them
abbrev pub counted : List Utxo → Totals → Totals
counted [] t = t
counted (u ∷ us) t = counted us (count_output u.output t)

-- What the loop over the inputs did to a builder and the totals.
pub record Gathered (token : Text) (us : List Utxo) (b b' : TxBuilder) (t t' : Totals)
    : Type 0 where
  pub same_token : All (λ (u : Utxo). u.output.token_id ≡ token) us
  pub inputs : b'.inputs ≡ b.inputs ++ map spending us
  pub outputs : b'.outputs ≡ b.outputs
  pub kind : b'.tx_type ≡ b.tx_type
  pub totals : t' ≡ counted us t

pub token_inputs-Gathered :
    (token : Text) (us : List Utxo) (b b' : TxBuilder) (t t' : Totals)
    → token_inputs token us b t ≡ ok (b', t')
    → Gathered token us b b' t t'
unfolding token_inputs
token_inputs-Gathered token [] b b' t t' h = record {
  same_token = tt;
  inputs = ground (arith, append-nil b.inputs);
  outputs = ground arith;
  kind = ground arith;
  totals = ground arith;
}
token_inputs-Gathered token (u ∷ us) b b' t t' h = elim (Bool-cases (u.output.token_id == token)) [
  | inr other ↦ absurd (ground (arith, other))
  | inl same ↦
      let g =
        token_inputs-Gathered token us (add_input u.tx_id u.output_index b) b'
          (count_output u.output t) t' (ground (arith, same)) in
      record {
        same_token = ((text_beq_iff u.output.token_id token).0 same, g.same_token);
        inputs = g.inputs ∙ append_assoc b.inputs (spending u ∷ []) (map spending us);
        outputs = g.outputs;
        kind = g.kind;
        totals = g.totals;
      }
]

pub counted-lt :
    (us : List Utxo) (t : Totals) → t.tokens < u64_mod → (counted us t).tokens < u64_mod
counted-lt [] t h = h
counted-lt (u ∷ us) t h = counted-lt us (count_output u.output t) (omega arith)

unlocked-lt : (n : ℕ) (t : Totals) {free : ℕ} → unlocked n t ≡ ok free → free < u64_mod
unfolding unlocked
unlocked-lt n t h = ground (arith, mul-div-le (mul64 n t.locked) t.tokens)

module _ (shadow token : Text) where
  melt_paid-shadow :
      (o : TxOutput) (os : List TxOutput) (p : Paid)
      → o.token_id ≡ shadow
      → melt_paid shadow token (o ∷ os) p
        ≡ melt_paid shadow token os (record p { shadow = add64 p.shadow o.amount })
  unfolding melt_paid
  melt_paid-shadow o os p e = ground (arith, text_beq_iff o.token_id shadow)

  melt_paid-token :
      (o : TxOutput) (p : Paid)
      → o.token_id ≡ token
      → token ≢ shadow
      → melt_paid shadow token (o ∷ []) p ≡ ok (record p { kept = count_output o p.kept })
  unfolding melt_paid
  melt_paid-token o p e ne =
      ground (arith, text_beq_iff o.token_id shadow, text_beq_iff o.token_id token)

  melt_paid-nil : (p : Paid) → melt_paid shadow token [] p ≡ ok p
  unfolding melt_paid
  melt_paid-nil p = refl

proportions-all :
    (t : Totals) (n free : ℕ)
    → unlocked n t ≡ ok free
    → t.tokens ≡ n
    → n < u64_mod
    → check_proportions t (record { shadow = free; kept = nothing }) ≡ ok tt
unfolding check_proportions
proportions-all t n free h e small =
    let m : sub64 t.tokens 0 ≡ n = omega arith in rw (m, h) (ground arith)

proportions-part :
    (t : Totals) (n free : ℕ)
    → unlocked n t ≡ ok free
    → n < t.tokens
    → t.tokens < u64_mod
    → check_proportions t (record {
      shadow = free;
      kept = record { tokens = sub64 t.tokens n; locked = sub64 t.locked free };
    })
      ≡ ok tt
unfolding check_proportions
proportions-part t n free h less small =
    let m : sub64 t.tokens (sub64 t.tokens n) ≡ n = omega arith in rw (m, h) (ground arith)

-- what the outputs of a built melt hold, as the validator counts them
pub melt_outputs-Proportional :
    (ext : External) (recipient back n free : ℕ) (token : Text) (t : Totals) (b : TxBuilder)
    → b.outputs ≡ []
    → token ≢ ext.genesis_token_id
    → unlocked n t ≡ ok free
    → n ≤ t.tokens
    → t.tokens < u64_mod
    → (p : Paid) × (melt_paid ext.genesis_token_id token
          (melt_outputs ext recipient back token n free t b).outputs
          (record { shadow = 0; kept = nothing })
        ≡ ok p)
      × (check_proportions t p ≡ ok tt)
unfolding melt_outputs locked_output shadow_output token_output
melt_outputs-Proportional ext recipient back n free token t b e ne h le small =
    let g : Text = ext.genesis_token_id in
    let o : TxOutput = shadow_output ext recipient free in
    let c : TxOutput = locked_output back (sub64 t.tokens n) token (sub64 t.locked free) in
    let start : Paid = record { shadow = 0; kept = nothing } in
    let low = unlocked-lt n t h in
    let free_eq : add64 0 free ≡ free = omega arith in
    elim (Bool-cases (ltb 0 (sub64 t.tokens n))) [
      | inr none_left ↦
          let all_melted : t.tokens ≡ n = ground arith in
          (
            record { shadow = free; kept = nothing },
            rw (none_left, e)
                (melt_paid-shadow g token o [] start refl
                  ∙ melt_paid-nil g token _
                  ∙ ap (λ (x : ℕ). ok (record { shadow = x; kept = nothing })) free_eq),
            proportions-all t n free h all_melted (omega arith),
          )
      | inl some_left ↦
          let less : n < t.tokens = ground arith in
          let tokens_eq : add64 0 (sub64 t.tokens n) ≡ sub64 t.tokens n = omega arith in
          let locked_eq : add64 0 (sub64 t.locked free) ≡ sub64 t.locked free = omega arith in
          (
            record {
              shadow = free;
              kept = record { tokens = sub64 t.tokens n; locked = sub64 t.locked free };
            },
            rw (some_left, e)
                (melt_paid-shadow g token o (c ∷ []) start refl
                  ∙ melt_paid-token g token c _ refl ne
                  ∙ rw (free_eq, tokens_eq, locked_eq) refl),
            proportions-part t n free h less small,
          )
    ]
