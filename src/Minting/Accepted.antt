-- ===== src/Minting/Accepted.antt =====
-- A melt that `CreateTokenMeltTransaction` builds, before `ValidateTokenMeltTransaction`.
use mathlib.Core.Path.{subst}
use shadowd.Common.{
  ℕ, ◌≤◌, ◌<◌, ◌≡◌, ◌≢◌, refl, ap, ◌∙◌, true, false, Bool-cases, inl, inr, not, some, List, [], ◌∷◌,
  map, All, arith, ◌==◌, nat_eq,
}
use shadowd.Common.Text.{Text, text_eq, text_beq_iff}
use shadowd.Common.Word.{u64_mod}
use shadowd.Common.Result.{ok, Result-cases}
use shadowd.Tx.{melt, TxInput, Transaction, Utxo}
use shadowd.Tx.External.{External}
use shadowd.Tx.Builder.{TxBuilder, new_tx_builder, build, set_data}
use shadowd.Tx.Builder.Balance.{spending}
use shadowd.Tx.Outputs.{new_input}
use shadowd.Tx.{utxo_point}
use shadowd.Common.State.{Action, raise_if, bind-eq, passed, ◌>>=◌, ◌>>◌}
use shadowd.Utxo.Database.{Database}
use shadowd.Utxo.Store.{Store, get_utxo}
use shadowd.Minting.Context.{
  compare_totals, melt_one_token, input_utxo, melt_held, melt_inputs, validate_token_melt,
}
use shadowd.Minting.{
  mixed_tokens, base_token, MintingError, Totals, count_output, token_inputs, unlocked,
  melt_outputs, finish_melt, create_token_melt, Paid, nothing, melt_paid, check_proportions,
  melt_text,
}
use shadowd.Minting.Proportions.{
  counted, token_inputs-Gathered, counted-lt, melt_outputs-Proportional,
}

-- what a melt that is built consists of
record Built (ext : External) (n : ℕ) (us : List Utxo) (token : Text) (t : Transaction)
    : Type 0 where
  not_base : token ≢ ext.genesis_token_id
  same_token : All (λ (u : Utxo). u.output.token_id ≡ token) us
  is_a_melt : t.tx_type ≡ melt
  inputs : t.inputs ≡ map spending us
  paid : Paid
  counts :
      melt_paid ext.genesis_token_id token t.outputs (record { shadow = 0; kept = nothing })
      ≡ ok paid
  proportional : check_proportions (counted us nothing) paid ≡ ok tt

finish_melt-ok :
    (ext : External) (recipient back : ℕ) (token : Text) (n : ℕ) (b : TxBuilder) (t : Totals)
    {tx : Transaction}
    → finish_melt ext recipient back token n (b, t) ≡ ok tx
    → (free : ℕ) × (n ≤ t.tokens)
      × (unlocked n t ≡ ok free)
      × (tx
          ≡ build (set_data (melt_text token n) (melt_outputs ext recipient back token n free t b)))
finish_melt-ok ext recipient back token n b t h = elim (Result-cases (unlocked n t)) [
  | inl (free, e) ↦ (free, ground arith, e, ground arith)
  | inr (x, e) ↦ absurd (ground arith)
]

melt_outputs-frame :
    (ext : External) (recipient back n free : ℕ) (token : Text) (t : Totals) (b : TxBuilder)
    → ((melt_outputs ext recipient back token n free t b).inputs ≡ b.inputs)
      × ((melt_outputs ext recipient back token n free t b).tx_type ≡ b.tx_type)
unfolding melt_outputs
melt_outputs-frame ext recipient back n free token t b = ground arith

create_token_melt-Built :
    (ext : External) (now : ℕ) (u : Utxo) (us : List Utxo) (n back recipient : ℕ) {t : Transaction}
    → create_token_melt ext now (u ∷ us) n back recipient ≡ ok t
    → Built ext n (u ∷ us) u.output.token_id t
unfolding create_token_melt
create_token_melt-Built ext now u us n back recipient {t} h =
    let token : Text = u.output.token_id in
    elim (Bool-cases (token == ext.genesis_token_id)) [
      | inl base ↦ absurd (ground (arith, base))
      | inr other ↦
          elim (Result-cases (token_inputs token (u ∷ us) (new_tx_builder melt now) nothing)) [
            | inr (x, e) ↦ absurd (ground (arith, other))
            | inl ((b, total), e) ↦
                let g =
                  token_inputs-Gathered token (u ∷ us) (new_tx_builder melt now) b nothing total
                    e in
                let (free, le, he, te) =
                  finish_melt-ok ext recipient back token n b total {tx = t}
                    (ground (arith, other)) in
                let ne : token ≢ ext.genesis_token_id =
                  ground (arith, text_beq_iff token ext.genesis_token_id) in
                let small : total.tokens < u64_mod =
                  rw g.totals (counted-lt (u ∷ us) nothing (omega arith)) in
                let (p, counts, good) =
                  melt_outputs-Proportional ext recipient back n free token total b g.outputs ne he
                    le small in
                let (ins, ty) = melt_outputs-frame ext recipient back n free token total b in
                record {
                  not_base = ne;
                  same_token = g.same_token;
                  is_a_melt = rw te (ty ∙ g.kind);
                  inputs = rw te (ins ∙ g.inputs);
                  paid = p;
                  counts = rw te counts;
                  proportional =
                      subst (λ (x : Totals). check_proportions x p ≡ ok tt) g.totals good;
                }
          ]
    ]

module _ {kv : Database} where
  -- the store returns each of the outputs, and is as it was
  abbrev pub Holds : List Utxo → Store kv → Type 0
  Holds us s = All (λ (u : Utxo). get_utxo kv (utxo_point u) s ≡ (ok (some u), s)) us

  input_utxo-found :
      (u : Utxo) (s : Store kv)
      → get_utxo kv (utxo_point u) s ≡ (ok (some u), s)
      → input_utxo (spending u) s ≡ (ok u, s)
  unfolding input_utxo new_input
  input_utxo-found u s h = rw h refl

  melt_held-counted :
      (token : Text) (us : List Utxo) (t : Totals) (s : Store kv)
      → All (λ (u : Utxo). u.output.token_id ≡ token) us
      → Holds us s
      → melt_held token (map spending us) t s ≡ (ok (counted us t), s)
  unfolding melt_held
  melt_held-counted token [] t s same found = refl
  melt_held-counted token (u ∷ us) t s (e, same) (h, found) =
      let is_token : (u.output.token_id == token) ≡ true =
        (text_beq_iff u.output.token_id token).1 e in
      let rest : Utxo → Action (Store kv) MintingError Totals =
        λ v. melt_held token (map spending us) (count_output v.output t) in
      bind-eq (input_utxo (spending u))
        (λ v. raise_if (not (v.output.token_id == token)) mixed_tokens >> rest v) s
        (input_utxo-found u s h)
      ∙ passed (not (u.output.token_id == token)) mixed_tokens (rest u) s (ap not is_token)
      ∙ melt_held-counted token us (count_output u.output t) s same found

  melt_inputs-Built :
      (ext : External) (n : ℕ) (u : Utxo) (us : List Utxo) (t : Transaction) (s : Store kv)
      → Built ext n (u ∷ us) u.output.token_id t
      → Holds (u ∷ us) s
      → melt_inputs ext t (map spending (u ∷ us)) s ≡ (ok tt, s)
  unfolding melt_inputs
  melt_inputs-Built ext n u us t s b found =
      let token : Text = u.output.token_id in
      let other : (token == ext.genesis_token_id) ≡ false =
        ground (arith, b.not_base, text_beq_iff token ext.genesis_token_id) in
      let held : Action (Store kv) MintingError Totals =
        melt_held token (map spending (u ∷ us)) nothing in
      bind-eq (input_utxo (spending u)) (melt_one_token ext t (map spending (u ∷ us))) s
        (input_utxo-found u s found.0)
      ∙ passed (token == ext.genesis_token_id) base_token (held >>= compare_totals ext t token) s
          other
      ∙ bind-eq held (compare_totals ext t token) s
          (melt_held-counted token (u ∷ us) nothing s b.same_token found)
      ∙ rw (b.counts, b.proportional) refl

  melt_type-inputs :
      (ext : External) (t : Transaction) (s : Store kv)
      → t.tx_type ≡ melt
      → validate_token_melt ext t s ≡ melt_inputs ext t t.inputs s
  unfolding validate_token_melt
  melt_type-inputs ext t s e = simp e refl

  -- Where the store returns each of the outputs offered, and is as it was, `ValidateTokenMeltTransaction`
  -- accepts the transaction that `CreateTokenMeltTransaction` builds of them, if it builds one.
  pub validate_token_melt-created :
      (ext : External) (now : ℕ) (us : List Utxo) (n back recipient : ℕ) (t : Transaction)
      (s : Store kv)
      → create_token_melt ext now us n back recipient ≡ ok t
      → Holds us s
      → validate_token_melt ext t s ≡ (ok tt, s)
  unfolding create_token_melt
  validate_token_melt-created ext now [] n back recipient t s h found = absurd (ground arith)
  validate_token_melt-created ext now (u ∷ us) n back recipient t s h found =
      let b = create_token_melt-Built ext now u us n back recipient h in
      melt_type-inputs ext t s b.is_a_melt
      ∙ ap (λ (is : List TxInput). melt_inputs ext t is s) b.inputs
      ∙ melt_inputs-Built ext n u us t s b found
