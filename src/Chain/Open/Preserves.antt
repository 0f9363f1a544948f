-- ===== src/Chain/Open/Preserves.antt =====
-- Predicates on the state that an operation keeps, and the scans of the blocks in lib/chain.go that find
-- transactions.
use shadowd.Common.{ℕ, ◌≡◌, refl, sym, inl, inr, Option, none, some, List, [], ◌∷◌, arith}
use mathlib.Core.Path.{subst}
use mathlib.Core.List.{Memᴰ}
use shadowd.Common.Text.{Text, text_eq}
use shadowd.Common.Result.{Result-cases}
use shadowd.Common.State.{pure, gets, ◌>>=◌}
use shadowd.Tx.{Transaction}
use shadowd.Utxo.Store.{get_transaction}
use shadowd.Chain.{Block}
use shadowd.Chain.Ledger.{ChainEnv, Ledger, Op, slice}
use shadowd.Chain.Open.{Restore, found_tx, on_found, scan_ids, scan_blocks}

module _ {c : ChainEnv} (P : Ledger c → Type 0) where
  -- an operation that keeps a predicate, whatever it returns
  pub record Preserves {A : Type 0} (op : Op c A) : Type 0 where
    pub carry : (l : Ledger c) → P l → P (op l).1

  pub bind-Preserves :
      {A B : Type 0} {m : Op c A} {f : A → Op c B}
      → Preserves m
      → ((a : A) → Preserves (f a))
      → Preserves (m >>= f)
  bind-Preserves {m = m} {f = f} pm pf = record {
    carry = λ l p. elim (Result-cases (m l).0) [
      | inl (a, e) ↦ rw (e, ◌>>=◌) ((pf a).carry (m l).1 (pm.carry l p))
      | inr (x, e) ↦ rw (e, ◌>>=◌) (pm.carry l p)
    ];
  }

  pub still : {A : Type 0} {op : Op c A} → ((l : Ledger c) → (op l).1 ≡ l) → Preserves op
  still h = record { carry = λ l p. subst P (sym (h l)) p }

  pub slice-Preserves : (n : ℕ) (s : Text) → Preserves (slice {c = c} n s)
  slice-Preserves n s = still (λ l. ground arith)

  pub pure-Preserves : Preserves (pure tt)
  pure-Preserves = still (λ l. refl)

  pub gets-Preserves : {A : Type 0} (f : Ledger c → A) → Preserves (gets f)
  gets-Preserves f = still (λ l. refl)

-- a predicate that fixes the blocks, and what is known of a transaction that a scan of them finds
module _ {c : ChainEnv} (P : Ledger c → Type 0) (bs : List Block)
    (at : (l : Ledger c) → P l → l.blocks ≡ bs) (Known : Text → ℕ → Transaction → Type 0)
    (known : (l : Ledger c) (b : Block) (id : Text) (t : Transaction)
      → P l
      → Memᴰ b bs
      → Memᴰ id b.transactions
      → found_tx (get_transaction c.env.kv id l.utxo) ≡ some t
      → Known id b.index t) where
  module _ (f : Restore c)
      (kept : (id : Text) (height : ℕ) (t : Transaction)
        → Known id height t
        → Preserves P (f id height t.tx_type t)) where
    on_found-Preserves :
        (id : Text) (height : ℕ) (found : Option Transaction)
        → ((t : Transaction) → found ≡ some t → Known id height t)
        → Preserves P (on_found f id height found)
    on_found-Preserves id height none k = pure-Preserves P
    on_found-Preserves id height (some t) k = kept id height t (k t refl)

    scan_ids-Preserves :
        (b : Block) (ids : List Text)
        → Memᴰ b bs
        → ((id : Text) → Memᴰ id ids → Memᴰ id b.transactions)
        → Preserves P (scan_ids f b.index ids)
    unfolding scan_ids
    scan_ids-Preserves b [] inside sub = pure-Preserves P
    scan_ids-Preserves b (id ∷ ids) inside sub = record {
      carry = λ l p.
          (bind-Preserves P
              (on_found-Preserves id b.index (found_tx (get_transaction c.env.kv id l.utxo))
                (λ t e. known l b id t p inside (sub id (Memᴰ.head refl)) e))
              (λ _. scan_ids-Preserves b ids inside (λ i m. sub i (Memᴰ.tail m)))).carry
            l p;
    }

    scan_blocks-Preserves :
        (cs : List Block) → ((b : Block) → Memᴰ b cs → Memᴰ b bs) → Preserves P (scan_blocks f cs)
    unfolding scan_blocks
    scan_blocks-Preserves [] sub = pure-Preserves P
    scan_blocks-Preserves (b ∷ cs) sub =
        bind-Preserves P (scan_ids-Preserves b b.transactions (sub b (Memᴰ.head refl)) (λ i m. m))
          (λ _. scan_blocks-Preserves cs (λ d m. sub d (Memᴰ.tail m)))

    pub scan-carry : (l : Ledger c) → P l → P (scan_blocks f l.blocks l).1
    scan-carry l p = (scan_blocks-Preserves l.blocks (λ b m. subst (Memᴰ b) (at l p) m)).carry l p
