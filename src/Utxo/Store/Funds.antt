-- ===== src/Utxo/Store/Funds.antt =====
-- `UTXOStore.ValidateTransaction`: what the inputs must be, and the totals that it compares.
use shadowd.Common.{
  ℕ, ◌%◌, ◌≤◌, ◌≡◌, ◌≢◌, refl, ap, sym, ◌∙◌, false, some, List, [], ◌∷◌, arith, sum_by,
}
use shadowd.Common.Word.{u64_mod, add64, sum64, sum64-mod}
use shadowd.Common.Result.{ok}
use shadowd.Tx.{TxType, coinbase, TxInput, TxOutput, Transaction, Utxo, input_point}
use shadowd.Utxo.Database.{Database}
use shadowd.Utxo.Store.{Store, stored, get_utxo, input_total, validate_spend, validate_in_store}
use shadowd.Utxo.Store.Coherent.{IsCoherent, get_utxo-stored, stored-db}

abbrev pub utxo_amount : Utxo → ℕ
utxo_amount u = u.output.amount

abbrev pub output_amount : TxOutput → ℕ
output_amount o = o.amount

module _ (kv : Database) where
  -- Each input refers to a stored output that is not spent: the outputs, in the inputs' order.
  abbrev pub Funds : List TxInput → List Utxo → Store kv → Type 0
  Funds [] [] s = Unit
  Funds (i ∷ is) (u ∷ us) s =
      (stored kv (input_point i) s ≡ ok (some u)) × (u.is_spent ≡ false) × Funds is us s
  Funds _ _ s = ⊥

  Funds-db :
      (is : List TxInput) (us : List Utxo) (s s' : Store kv)
      → s'.db ≡ s.db
      → Funds is us s'
      → Funds is us s
  Funds-db [] [] s s' e f = tt
  Funds-db [] (u ∷ us) s s' e f = f
  Funds-db (i ∷ is) [] s s' e f = f
  Funds-db (i ∷ is) (u ∷ us) s s' e f =
      (sym (stored-db kv (input_point i) s s' e) ∙ f.0, f.1, Funds-db is us s s' e f.2)

  input_total-step :
      (i : TxInput) (is : List TxInput) (total n : ℕ) (s : Store kv)
      → (input_total kv (i ∷ is) total s).0 ≡ ok n
      → (u : Utxo) × ((get_utxo kv (input_point i) s).0 ≡ ok (some u))
        × (u.is_spent ≡ false)
        × ((input_total kv is (add64 total u.output.amount) (get_utxo kv (input_point i) s).1).0
            ≡ ok n)
  unfolding input_total
  input_total-step i is total n s h = ground arith

  input_total-Funds :
      (is : List TxInput) (total n : ℕ) (s : Store kv)
      → IsCoherent kv s
      → (input_total kv is total s).0 ≡ ok n
      → (us : List Utxo) × Funds is us s × (n ≡ sum64 utxo_amount total us)
  unfolding input_total sum64
  input_total-Funds [] total n s c h = ([], tt, ground arith)
  input_total-Funds (i ∷ is) total n s c h =
      let (u, got, fresh, rest) = input_total-step i is total n s h in
      let (read, same, c') = get_utxo-stored kv (input_point i) s c in
      let s' : Store kv = (get_utxo kv (input_point i) s).1 in
      let (us, f, e) = input_total-Funds is (add64 total u.output.amount) n s' c' rest in
      (u ∷ us, (sym read ∙ got, fresh, Funds-db is us s s' same f), e)

  validate_spend-total :
      (t : Transaction) (s : Store kv)
      → (validate_spend kv t s).0 ≡ ok tt
      → (n : ℕ) × ((input_total kv t.inputs 0 s).0 ≡ ok n) × (sum64 output_amount 0 t.outputs ≤ n)
  unfolding validate_spend
  validate_spend-total t s h = ground arith

  -- what the checks of a transaction that is no coinbase show
  validate_spend-Funds :
      (t : Transaction) (s : Store kv)
      → IsCoherent kv s
      → (validate_spend kv t s).0 ≡ ok tt
      → (us : List Utxo) × Funds t.inputs us s
        × (sum_by output_amount t.outputs % u64_mod ≤ sum_by utxo_amount us % u64_mod)
  validate_spend-Funds t s c h =
      let (n, total, le) = validate_spend-total t s h in
      let (us, f, e) = input_total-Funds t.inputs 0 n s c total in
      (
        us,
        f,
        omega (
          arith,
          le,
          e,
          sum64-mod utxo_amount 0 us (omega arith),
          sum64-mod output_amount 0 t.outputs (omega arith),
        ),
      )

  validate_in_store-spend :
      (ty : TxType) (t : Transaction) (s : Store kv)
      → ty ≢ coinbase
      → validate_in_store kv ty t s ≡ validate_spend kv t s
  unfolding validate_in_store
  validate_in_store-spend coinbase t s other = absurd (other refl)
  validate_in_store-spend _ t s other = refl

  -- A transaction that is no coinbase and that `ValidateTransaction` of a coherent store accepts spends
  -- outputs that are stored and unspent, and the sum of its outputs, both sums taken modulo 2 ^ 64
  -- and over all tokens together, does not exceed theirs.
  pub validate_in_store-Funds :
      (t : Transaction) (s : Store kv)
      → IsCoherent kv s
      → t.tx_type ≢ coinbase
      → (validate_in_store kv t.tx_type t s).0 ≡ ok tt
      → (us : List Utxo) × Funds t.inputs us s
        × (sum_by output_amount t.outputs % u64_mod ≤ sum_by utxo_amount us % u64_mod)
  validate_in_store-Funds t s c other h =
      validate_spend-Funds t s c
        (sym (ap (λ r. r.0) (validate_in_store-spend t.tx_type t s other)) ∙ h)
