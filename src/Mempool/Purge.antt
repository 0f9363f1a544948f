-- ===== src/Mempool/Purge.antt =====
-- `PurgeInvalidTransactions` of lib/mempool.go, which reads the UTXO store.
use mathlib.Core.Path.{subst}
use shadowd.Common.{
  ◌≡◌, refl, sym, ◌∙◌, Bool, true, false, Bool-cases, inl, inr, Option, none, some, List, [], ◌∷◌,
  All, any, arith, if◌then◌else◌, ◌==◌,
}
use shadowd.Common.Text.{Text, text_eq}
use shadowd.Common.Dict.{Dict, lookup, erase, lookup-erase}
use shadowd.Common.Result.{Result, ok, err}
use shadowd.Tx.{TxInput, Utxo, input_point}
use shadowd.Utxo.Database.{Database}
use shadowd.Utxo.Store.{StoreError, Store, stored, get_utxo}
use shadowd.Utxo.Store.Coherent.{IsCoherent, get_utxo-stored, stored-db}
use shadowd.Mempool.{Entry, Mempool, erase_all}

-- `err != nil || utxo == nil || utxo.IsSpent`
abbrev is_gone : Result StoreError (Option Utxo) → Bool
is_gone (err e) = true
is_gone (ok none) = true
is_gone (ok (some u)) = u.is_spent

if-either {ℓ κ} :
    {A : Type ℓ} (P : A → Type κ) (b : Bool) {x y : A} → P x → P y → P (if b then x else y)
if-either P true hx hy = hx
if-either P false hx hy = hy

module _ (kv : Database) where
  -- the loop over the inputs of one transaction, which stops at the first that is gone
  inputs_gone : List TxInput → Store kv → Bool × Store kv
  inputs_gone [] s = (false, s)
  inputs_gone (i ∷ is) s =
      let (r, s') = get_utxo kv (input_point i) s in
      let rest : Bool × Store kv = inputs_gone is s' in if is_gone r then (true, s') else rest

  -- the loop over the entries: the identifiers of the invalid ones
  invalid_ids : Dict Text Entry → Store kv → List Text × Store kv
  unfolding inputs_gone
  invalid_ids [] s = ([], s)
  invalid_ids ((id, e) ∷ es) s =
      let (gone, s') = inputs_gone e.tx.inputs s in
      let (ids, s'') = invalid_ids es s' in (if gone then id ∷ ids else ids, s'')

  -- `PurgeInvalidTransactions`: the mempool and the store, whose cache has grown
  unfoldable pub purge_invalid : Mempool → Store kv → Mempool × Store kv
  unfolding invalid_ids
  purge_invalid mp s =
      let (ids, s') = invalid_ids mp.entries s in
      (record mp { entries = erase_all ids mp.entries }, s')

  -- an output that is stored and not spent
  abbrev pub IsUnspent : Store kv → TxInput → Type 0
  IsUnspent s i = (u : Utxo) × (stored kv (input_point i) s ≡ ok (some u)) × (u.is_spent ≡ false)

  -- reading leaves the database as it was and the store coherent
  abbrev Read : Store kv → Store kv → Type 0
  Read s s' = (s'.db ≡ s.db) × IsCoherent kv s'

  is_gone-false :
      (r : Result StoreError (Option Utxo))
      → is_gone r ≡ false
      → (u : Utxo) × (r ≡ ok (some u)) × (u.is_spent ≡ false)
  is_gone-false (ok (some u)) h = (u, refl, h)
  is_gone-false (ok none) h = absurd (ground arith)
  is_gone-false (err e) h = absurd (ground arith)

  IsUnspent-db :
      (s s' : Store kv) (is : List TxInput)
      → s'.db ≡ s.db
      → All (IsUnspent s') is
      → All (IsUnspent s) is
  IsUnspent-db s s' [] e a = tt
  IsUnspent-db s s' (i ∷ is) e ((u, h, f), a) =
      ((u, sym (stored-db kv (input_point i) s s' e) ∙ h, f), IsUnspent-db s s' is e a)

  inputs_gone-Read :
      (is : List TxInput) (s : Store kv) → IsCoherent kv s → Read s (inputs_gone is s).1
  unfolding inputs_gone
  inputs_gone-Read [] s c = (refl, c)
  inputs_gone-Read (i ∷ is) s c =
      let (_, e, c') = get_utxo-stored kv (input_point i) s c in
      let (e', c'') = inputs_gone-Read is (get_utxo kv (input_point i) s).1 c' in
      if-either (λ (r : Bool × Store kv). Read s r.1) (is_gone (get_utxo kv (input_point i) s).0)
        (e, c') (e' ∙ e, c'')

  inputs_gone-IsUnspent :
      (is : List TxInput) (s : Store kv)
      → IsCoherent kv s
      → (inputs_gone is s).0 ≡ false
      → All (IsUnspent s) is
  unfolding inputs_gone
  inputs_gone-IsUnspent [] s c h = tt
  inputs_gone-IsUnspent (i ∷ is) s c h =
      let (read, e, c') = get_utxo-stored kv (input_point i) s c in
      let s' : Store kv = (get_utxo kv (input_point i) s).1 in
      let (u, got, fresh) = is_gone-false (get_utxo kv (input_point i) s).0 (ground arith) in
      (
        (u, sym read ∙ got, fresh),
        IsUnspent-db s s' is e (inputs_gone-IsUnspent is s' c' (ground arith)),
      )

abbrev names : Text → List Text → Bool
names id ids = any (λ j. j == id) ids

lookup-erase_all :
    (id : Text) (e : Entry) (ids : List Text) (es : Dict Text Entry)
    → lookup id (erase_all ids es) ≡ some e
    → (names id ids ≡ false) × (lookup id es ≡ some e)
unfolding erase_all
lookup-erase_all id e [] es h = (refl, h)
lookup-erase_all id e (j ∷ ids) es h =
    ground (arith, lookup-erase_all id e ids (erase j es) h, lookup-erase j id es)

module _ (kv : Database) where
  invalid_ids-Read :
      (es : Dict Text Entry) (s : Store kv) → IsCoherent kv s → Read kv s (invalid_ids kv es s).1
  unfolding invalid_ids
  invalid_ids-Read [] s c = (refl, c)
  invalid_ids-Read ((id, e) ∷ es) s c =
      let (same, c') = inputs_gone-Read kv e.tx.inputs s c in
      let (same', c'') = invalid_ids-Read es (inputs_gone kv e.tx.inputs s).1 c' in
      (same' ∙ same, c'')

  invalid_ids-IsUnspent :
      (id : Text) (e : Entry) (es : Dict Text Entry) (s : Store kv)
      → IsCoherent kv s
      → lookup id es ≡ some e
      → names id (invalid_ids kv es s).0 ≡ false
      → All (IsUnspent kv s) e.tx.inputs
  unfolding invalid_ids lookup
  invalid_ids-IsUnspent id e [] s c h n = absurd (ground arith)
  invalid_ids-IsUnspent id e ((j, f) ∷ es) s c h n =
      let s' : Store kv = (inputs_gone kv f.tx.inputs s).1 in
      let (same, c') = inputs_gone-Read kv f.tx.inputs s c in
      elim (Bool-cases (j == id)) [
        | inl here ↦
            let kept : (inputs_gone kv f.tx.inputs s).0 ≡ false = ground arith in
            let it : f ≡ e = ground arith in
            subst (λ (x : Entry). All (IsUnspent kv s) x.tx.inputs) it
              (inputs_gone-IsUnspent kv f.tx.inputs s c kept)
        | inr other ↦
            let found : lookup id es ≡ some e = ground arith in
            let kept : names id (invalid_ids kv es s').0 ≡ false = ground arith in
            IsUnspent-db kv s s' e.tx.inputs same (invalid_ids-IsUnspent id e es s' c' found kept)
      ]

-- After the purge of a mempool over a coherent store, every input of every pending transaction is
-- an output that the store holds and that is not spent; the database is as it was.
pub purge_invalid-IsUnspent :
    (kv : Database) (mp : Mempool) (s : Store kv) (id : Text) (e : Entry)
    → IsCoherent kv s
    → lookup id (purge_invalid kv mp s).0.entries ≡ some e
    → (lookup id mp.entries ≡ some e)
      × All (IsUnspent kv (purge_invalid kv mp s).1) e.tx.inputs
      × ((purge_invalid kv mp s).1.db ≡ s.db)
unfolding purge_invalid
purge_invalid-IsUnspent kv mp s id e c h =
    let (kept, found) = lookup-erase_all id e (invalid_ids kv mp.entries s).0 mp.entries h in
    let (same, _) = invalid_ids-Read kv mp.entries s c in
    (
      found,
      IsUnspent-db kv (invalid_ids kv mp.entries s).1 s e.tx.inputs (sym same)
          (invalid_ids-IsUnspent kv id e mp.entries s c found kept),
      same,
    )
