-- ===== src/Builders/Melts.antt =====
-- What partial melts (lib/transaction_types.go) spend, pay and leave.
use mathlib.Core.Path.{subst}
use mathlib.Core.List.{append-nil, append_assoc}
use shadowd.Common.{
  ℕ, ◌+◌, ◌-◌, ◌≤◌, ◌<◌, ◌≡◌, ◌⊎◌, refl, ◌∙◌, sym, false, not, Bool-cases, inl, inr, List, [], ◌∷◌,
  ◌++◌, map, sum_by, All, arith, ◌==◌, ltb, if◌then◌else◌, is_empty,
}
use shadowd.Common.Text.{Text, bytes, text_eq, text_beq_iff}
use shadowd.Common.Word.{u64_mod, sub64}
use shadowd.Common.Result.{ok, bind_inv, passed_inv}
use shadowd.Tx.{melt, TxOutput, Transaction, Utxo}
use shadowd.Tx.Outputs.{token_output}
use shadowd.Tx.Builder.{new_tx_builder, build, set_data}
use shadowd.Tx.Builder.Balance.{held, paid, spending}
use shadowd.Chain.{decimal}
use shadowd.Builders.{
  few_to_melt, mixed_melt, MeltSum, melt_one, melt_from, melt_change, finish_partial,
  create_partial_melt,
}
use shadowd.Builders.Balance.{Gathered, ok_injective}

abbrev pub InToken : Text → Text → Type 0
InToken token id = (id ≡ []) ⊎ (id ≡ token)

-- one step of the token that a melt remembers
token_step :
    (now next id : Text)
    → (if is_empty now then false else not (now == id)) ≡ false
    → InToken next (if is_empty now then id else now)
    → InToken next id × InToken next now
token_step [] next id test h = (h, inl refl)
token_step (c ∷ cs) next id test h =
    let same : c ∷ cs ≡ id = (text_beq_iff (c ∷ cs) id).0 (ground arith) in
    (subst (InToken next) same h, h)

-- What the loop of a melt did to its sums.
record Melting (us : List Utxo) (s s' : MeltSum) : Type 0 where
  gathered : Gathered us s.builder s'.builder s.total s'.total
  ids : All (λ (u : Utxo). InToken s'.token u.output.token_id) us
  kept : InToken s'.token s.token

melt_from-Melting :
    (us : List Utxo) (s : MeltSum) {s' : MeltSum}
    → s.total + sum_by held us < u64_mod
    → melt_from us s ≡ ok s'
    → Melting us s s'
unfolding melt_from
melt_from-Melting [] s {s'} fits h =
    let same : s ≡ s' = cc (h) in
    subst (Melting [] s) same (record {
      gathered = record {
        inputs = sym (append-nil s.builder.inputs);
        outputs = refl;
        sum = omega arith;
      };
      ids = tt;
      kept = inr refl;
    })
melt_from-Melting (u ∷ us) s {s'} fits h =
    let (test, rest) =
      passed_inv (if is_empty s.token then false else not (s.token == u.output.token_id)) mixed_melt
        (melt_from us (melt_one u s)) h in
    let m = melt_from-Melting us (melt_one u s) (omega arith) rest in
    let (this, before) = token_step s.token s'.token u.output.token_id test m.kept in
    record {
      gathered = record {
        inputs =
            m.gathered.inputs ∙ append_assoc s.builder.inputs (spending u ∷ []) (map spending us);
        outputs = m.gathered.outputs;
        sum = omega (arith, m.gathered.sum);
      };
      ids = (this, m.ids);
      kept = before;
    }

abbrev partial_tx : ℕ → ℕ → Text → MeltSum → Transaction
partial_tx n back reason s = build (
    set_data
      (bytes "melt_" ++ s.token ++ bytes "_amount_" ++ decimal n ++ bytes "_reason_" ++ reason)
      (melt_change back (sub64 s.total n) s.token s.builder))

partial_tx-balance :
    (n back : ℕ) (reason : Text) (s : MeltSum)
    → s.builder.outputs ≡ []
    → n ≤ s.total
    → s.total < u64_mod
    → ((partial_tx n back reason s).inputs ≡ s.builder.inputs)
      × (s.total ≡ sum_by paid (partial_tx n back reason s).outputs + n)
      × All (λ (o : TxOutput). o.token_id ≡ s.token) (partial_tx n back reason s).outputs
unfolding token_output
partial_tx-balance n back reason s none_yet le fits =
    let c : ℕ = s.total - n in
    let ec : sub64 s.total n ≡ c = omega arith in
    elim (Bool-cases (ltb 0 c)) [
      | inl some_left ↦ rw (ec, some_left, none_yet) (refl, omega arith, (refl, tt))
      | inr none_left ↦
          let z : c ≡ 0 = ground arith in rw (ec, none_left, none_yet) (refl, omega (arith, z), tt)
    ]

finish_partial-balance :
    (n back : ℕ) (reason : Text) (s : MeltSum) {t : Transaction}
    → s.builder.outputs ≡ []
    → s.total < u64_mod
    → finish_partial n back reason s ≡ ok t
    → (t.inputs ≡ s.builder.inputs)
      × (s.total ≡ sum_by paid t.outputs + n)
      × All (λ (o : TxOutput). o.token_id ≡ s.token) t.outputs
finish_partial-balance n back reason s {t} none_yet fits h =
    let (covered, done) =
      passed_inv (ltb s.total n) few_to_melt (ok (partial_tx n back reason s)) h in
    subst
      (λ (x : Transaction).
        (x.inputs ≡ s.builder.inputs)
        × (s.total ≡ sum_by paid x.outputs + n)
        × All (λ (o : TxOutput). o.token_id ≡ s.token) x.outputs)
      (ok_injective done)
      (partial_tx-balance n back reason s none_yet (ground (arith, covered)) fits)

-- A partial melt that succeeds spends all the outputs that it is given, which are in one token, or have an
-- empty token text; what they hold is the melted amount and what its outputs pay, and these are in that
-- token, as long as the amounts together stay below 2 ^ 64.
pub create_partial_melt-balance :
    (now : ℕ) (us : List Utxo) (n back : ℕ) (reason : Text) {t : Transaction}
    → sum_by held us < u64_mod
    → create_partial_melt now us n back reason ≡ ok t
    → (t.inputs ≡ map spending us)
      × (sum_by held us ≡ sum_by paid t.outputs + n)
      × ((token : Text) × All (λ (u : Utxo). InToken token u.output.token_id) us
          × All (λ (o : TxOutput). o.token_id ≡ token) t.outputs)
unfolding create_partial_melt
create_partial_melt-balance now us n back reason {t} fits h =
    let start : MeltSum = record { builder = new_tx_builder melt now; total = 0; token = [] } in
    let (s, found, done) = bind_inv (melt_from us start) (finish_partial n back reason) h in
    let m = melt_from-Melting us start (omega arith) found in
    let whole =
      finish_partial-balance n back reason s m.gathered.outputs (omega (arith, m.gathered.sum))
        done in
    (whole.0 ∙ m.gathered.inputs, omega (arith, m.gathered.sum, whole.1), (s.token, m.ids, whole.2))
