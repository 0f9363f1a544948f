-- ===== src/Chain/Open/Restored.antt =====
-- The pools that `NewBlockchain` of lib/chain.go restores.
use shadowd.Common.{
  ℕ, zero, suc, ◌+◌, refl, Bool, true, false, inl, inr, Option, none, some, arith, if◌then◌else◌,
}
use shadowd.Common.Text.{text_eq}
use shadowd.Common.Result.{Result-cases}
use shadowd.Common.State.{modify, ◌>>=◌, ◌>>◌}
use shadowd.Chain.{Block}
use shadowd.Chain.Store
use shadowd.Chain.Store.{get_stored, has_block, latest_height}
use shadowd.Chain.Ledger.{ChainEnv, Ledger, Op, slice, must_latest}
use shadowd.Chain.Apply.{append_block, must_blocks}
use shadowd.Chain.Open.{
  on_blocks, or_missing, load_blocks, load_chain, start_chain, fresh, read_height, new_blockchain,
  genesis_block, rebuild_token_registry, rebuild_pool_registry,
}
use shadowd.Chain.Open.Preserves.{Preserves, bind-Preserves, still, pure-Preserves}
use shadowd.Chain.Open.Pristine.{
  ArePristine, IsBare, IsPristine, IsBare-IsPristine, IsRebuilding-IsPristine,
  rebuilds-IsRebuilding,
}

module _ {c : ChainEnv} where
  rebuilt-IsPristine :
      (tip : Block) (l : Ledger c)
      → IsBare l
      → IsPristine
          ((slice {c = c} 16 tip.hash >> (rebuild_token_registry >> rebuild_pool_registry)) l).1
  rebuilt-IsPristine tip l bare = IsRebuilding-IsPristine l.blocks l.utxo _ (
      (rebuilds-IsRebuilding l.blocks l.utxo tip).carry l
        (record { blocks = refl; outputs = refl; pools = IsBare-IsPristine l bare }))

  -- an operation that starts without pools and ends with pools that its blocks account for
  record Restores {A : Type 0} (op : Op c A) : Type 0 where
    leads : (l : Ledger c) → IsBare l → IsPristine (op l).1

  then-Restores :
      {A B : Type 0} {m : Op c A} {f : A → Op c B}
      → Preserves IsBare m
      → ((a : A) → Restores (f a))
      → Restores (m >>= f)
  then-Restores {m = m} {f = f} pm rf = record {
    leads = λ l bare. elim (Result-cases (m l).0) [
      | inl (a, e) ↦ rw (e, ◌>>=◌) ((rf a).leads (m l).1 (pm.carry l bare))
      | inr (x, e) ↦ rw (e, ◌>>=◌) (IsBare-IsPristine (m l).1 (pm.carry l bare))
    ];
  }

  on_blocks-IsBare : {A : Type 0} (op : Store.Op c.bk A) → Preserves IsBare (on_blocks {c = c} op)
  on_blocks-IsBare op = record { carry = λ l p. p }

  must_blocks-IsBare : (b : Block) → Preserves IsBare (must_blocks {c = c} b)
  must_blocks-IsBare b = record { carry = λ l p. p }

  append-IsBare : (b : Block) → Preserves IsBare (modify (append_block {c = c} b))
  append-IsBare b = record { carry = λ l p. p }

  or_missing-IsBare : (found : Option Block) → Preserves IsBare (or_missing {c = c} found)
  or_missing-IsBare none = still IsBare (λ l. refl)
  or_missing-IsBare (some b) = still IsBare (λ l. refl)

  must_latest-IsBare : Preserves IsBare (must_latest {c = c})
  must_latest-IsBare = still IsBare (λ l. ground arith)

  load_blocks-IsBare : (count i : ℕ) → Preserves IsBare (load_blocks {c = c} count i)
  unfolding load_blocks
  load_blocks-IsBare zero i = pure-Preserves IsBare
  load_blocks-IsBare (suc count) i =
      bind-Preserves IsBare (on_blocks-IsBare (get_stored c.bk i)) (λ found.
        bind-Preserves IsBare (or_missing-IsBare found)
          (λ b. bind-Preserves IsBare (append-IsBare b) (λ _. load_blocks-IsBare count (i + 1))))

  rebuilt-Restores :
      (tip : Block)
      → Restores (slice {c = c} 16 tip.hash >> (rebuild_token_registry >> rebuild_pool_registry))
  rebuilt-Restores tip = record { leads = rebuilt-IsPristine tip }

  load_chain-Restores : (height : ℕ) → Restores (load_chain {c = c} height)
  unfolding load_chain
  load_chain-Restores height =
      then-Restores (load_blocks-IsBare (suc height) 0)
        (λ _. then-Restores must_latest-IsBare rebuilt-Restores)

  start_chain-IsBare : Preserves IsBare (start_chain {c = c})
  unfolding start_chain
  start_chain-IsBare =
      bind-Preserves IsBare (append-IsBare (genesis_block c))
        (λ _. must_blocks-IsBare (genesis_block c))

  -- everything behind the two reads
  chosen-Restores :
      (found : Bool) (height : ℕ)
      → Restores (if found then load_chain {c = c} height else start_chain)
  chosen-Restores true height = load_chain-Restores height
  chosen-Restores false height = record {
    leads = λ l bare. IsBare-IsPristine (start_chain l).1 (start_chain-IsBare.carry l bare);
  }

  read_height-IsBare : Preserves IsBare (read_height {c = c})
  read_height-IsBare = still IsBare (λ l. refl)

  opened-IsPristine :
      (l : Ledger c)
      → IsBare l
      → IsPristine
          ((read_height >>= λ height. on_blocks (has_block c.bk 0) >>= λ found.
              if found then load_chain {c = c} height else start_chain)
            l).1
  opened-IsPristine l bare =
      (then-Restores read_height-IsBare (λ height.
          then-Restores (on_blocks-IsBare (has_block c.bk 0))
            (λ found. chosen-Restores found height))).leads
        l bare

-- After `NewBlockchain`, whatever it returns and whatever the stores hold, every pool of the registry
-- was created by a transaction that a block of the loaded chain lists and the store of outputs holds, and is as
-- the data of that transaction make it, reserves included.
pub new_blockchain-ArePristine :
    {c : ChainEnv} (l : Ledger c)
    → ArePristine c (new_blockchain l).1.blocks (new_blockchain l).1.utxo (new_blockchain l).1.pools
unfolding new_blockchain
new_blockchain-ArePristine {c = c} l = opened-IsPristine (fresh l) refl
