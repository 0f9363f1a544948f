-- ===== src/Utxo/Scan/Owned.antt =====
-- What `GetUTXOsByAddress` and `GetBalance` return, by what the database holds.
use shadowd.Common.{
  ℕ, ◌+◌, ◌%◌, ◌≡◌, ◌<◌, refl, sym, ap, ◌∙◌, Option, none, some, List, [], ◌∷◌, sum_by, ◌==◌,
  nat_eq, arith, if◌then◌else◌,
}
use mathlib.Core.Path.{subst}
use shadowd.Common.Text.{Text, text_eq, text_beq_iff}
use shadowd.Common.Word.{u64_mod, add64}
use shadowd.Common.Dict.{Dict, lookup, lookup-insert}
use shadowd.Common.Result.{Result, ok, err}
use shadowd.Common.State.{pure, bind-eq}
use shadowd.Tx.{Address, Utxo, OutPoint}
use shadowd.Utxo.Database.{Database, Key}
use shadowd.Utxo.Store.{StoreError, Store, stored, get_utxo}
use shadowd.Utxo.Store.Coherent.{IsCoherent, stored-db, get_utxo-stored}
use shadowd.Utxo.Scan.{
  Cursor, pick_map, addr_point, keep_unspent, or_zero, add_balance, balances, with_keys-ok,
  owned_from, get_utxos_by_address, get_balance,
}

-- the unspent output that a read returned
abbrev pub unspent : Result StoreError (Option Utxo) → Option Utxo
unspent (ok (some u)) = if u.is_spent then none else some u
unspent (ok none) = none
unspent (err e) = none

keep_unspent-pick_map :
    {A : Type 0} (r : A → Result StoreError (Option Utxo)) (a : A) (as' : List A)
    → keep_unspent (r a) (pick_map (λ x. unspent (r x)) as')
      ≡ pick_map (λ x. unspent (r x)) (a ∷ as')
keep_unspent-pick_map r a as' = ground arith

-- the amount of an output, if it is in a token
abbrev pub amount_in : Text → Utxo → ℕ
amount_in t u = if u.output.token_id == t then u.output.amount else 0

add_balance-lookup :
    (t : Text) (u : Utxo) (m : Dict Text ℕ)
    → or_zero (lookup t m) < u64_mod
    → or_zero (lookup t (add_balance u m)) ≡ (or_zero (lookup t m) + amount_in t u) % u64_mod
add_balance-lookup t u m small =
    let id : Text = u.output.token_id in
    let n : ℕ = add64 (or_zero (lookup id m)) u.output.amount in
    ground (arith, lookup-insert id t n m, text_beq_iff id t)

lookup-empty : (t : Text) → ◌≡◌ {A = ℕ} (or_zero (lookup t [])) 0
unfolding lookup
lookup-empty t = refl

balances-lookup :
    (t : Text) (us : List Utxo) (m : Dict Text ℕ)
    → or_zero (lookup t m) < u64_mod
    → or_zero (lookup t (balances us m))
      ≡ (or_zero (lookup t m) + sum_by (amount_in t) us) % u64_mod
unfolding balances
balances-lookup t [] m small = omega arith
balances-lookup t (u ∷ us) m small =
    let one = add_balance-lookup t u m small in
    let low : or_zero (lookup t (add_balance u m)) < u64_mod = omega (arith, one) in
    omega (arith, one, balances-lookup t us (add_balance u m) low)

module _ {kv : Database} where
  -- the unspent outputs that the database holds at the outpoints
  abbrev pub held_at : List OutPoint → Store kv → List Utxo
  held_at ps s = pick_map (λ p. unspent (stored kv p s)) ps

  -- a loop over a coherent store with the same database
  owned_from-stored :
      (ps : List OutPoint) (s s' : Store kv)
      → IsCoherent kv s'
      → s'.db ≡ s.db
      → ((owned_from ps s').0 ≡ held_at ps s)
        × ((owned_from ps s').1.db ≡ s.db)
        × IsCoherent kv (owned_from ps s').1
  unfolding owned_from
  owned_from-stored [] s s' c e = (refl, e, c)
  owned_from-stored (p ∷ ps) s s' c e =
      let (read, same, c') = get_utxo-stored kv p s' c in
      let (us, db, c'') = owned_from-stored ps s (get_utxo kv p s').1 c' (same ∙ e) in
      (
        rw (us, read, stored-db kv p s s' e) (keep_unspent-pick_map (λ q. stored kv q s) p ps),
        db,
        c'',
      )

  -- In a coherent store `GetBalance` returns, for each token, the amounts of the outputs in it that the
  -- database holds unspent at the outpoints in the address's index, added up modulo 2 ^ 64; the
  -- database stays as it is and the store coherent. The iterator is one that does not fail.
  pub get_balance-lookup :
      (cursor : Cursor kv) (a : Address) (t : Text) (s : Store kv) (ks : List Key)
      → IsCoherent kv s
      → cursor.keys s.db ≡ ok ks
      → (m : Dict Text ℕ) × ((get_balance cursor a s).0 ≡ ok m)
        × (or_zero (lookup t m)
            ≡ sum_by (amount_in t) (held_at (pick_map (addr_point a) ks) s) % u64_mod)
        × ((get_balance cursor a s).1.db ≡ s.db)
        × IsCoherent kv (get_balance cursor a s).1
  unfolding get_balance get_utxos_by_address
  get_balance-lookup cursor a t s ks c keys =
      let ps : List OutPoint = pick_map (addr_point a) ks in
      let (us, db, c') = owned_from-stored ps s s c refl in
      let zero : or_zero (lookup t []) ≡ 0 = lookup-empty t in
      let small : or_zero (lookup t []) < u64_mod = omega (arith, zero) in
      let got : get_utxos_by_address cursor a s ≡ (ok (owned_from ps s).0, (owned_from ps s).1) =
        with_keys-ok cursor (λ ks'. owned_from (pick_map (addr_point a) ks')) s ks keys in
      let run = bind-eq (get_utxos_by_address cursor a) (λ us'. pure (balances us' [])) s got in
      (
        balances (owned_from ps s).0 [],
        ap (λ r. r.0) run,
        rw us (balances-lookup t (held_at ps s) [] small ∙ omega (arith, zero)),
        ap (λ r. r.1.db) run ∙ db,
        subst (IsCoherent kv) (sym (ap (λ r. r.1) run)) c',
      )
