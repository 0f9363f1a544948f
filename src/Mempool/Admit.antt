-- ===== src/Mempool/Admit.antt =====
-- Pending transactions that spend one output, under `AddTransaction` and under everything that
-- removes transactions.
use shadowd.Common.{
  ℕ, ◌≡◌, ◌≢◌, ◌-◌, Bool, true, false, some, Option-cases, inl, inr, List, [], ◌∷◌, any, leb,
  length, nat_eq, arith, ap,
}
use shadowd.Common.Text.{Text, text_eq, text_beq_iff}
use shadowd.Common.Dict.{Dict, lookup, insert, erase, lookup-insert, lookup-erase}
use shadowd.Tx.{TxInput, Transaction, OutPoint, out_point_beq_iff, out_point_eq, input_point}
use shadowd.Tx.External.{External, tx_id}
use shadowd.Mempool.{
  Entry, Mempool, spends, conflicts, evict, enforce_memory_limit, total_size, sort_by_age,
  erase_all, max_transaction_size, estimate_tx_size, chosen, is_expired, cleanup_expired,
  update_block_height, add_transaction, new_entry, admit,
}

-- No two pending transactions have an input in common.
abbrev pub NoDoubleSpend : Mempool → Type 0
NoDoubleSpend mp =
    (id j : Text) (e f : Entry) (p : OutPoint)
    → lookup id mp.entries ≡ some e
    → lookup j mp.entries ≡ some f
    → id ≢ j
    → spends e.tx.inputs p ≡ true
    → spends f.tx.inputs p ≡ false

-- the entries of one map are those of another, some of them deleted
abbrev pub Within : Dict Text Entry → Dict Text Entry → Type 0
Within es fs = (id : Text) (e : Entry) → lookup id es ≡ some e → lookup id fs ≡ some e

erase-Within : (k : Text) (es : Dict Text Entry) → Within (erase k es) es
erase-Within k es id e h = ground (arith, lookup-erase k id es)

erase_all-Within : (ids : List Text) (es : Dict Text Entry) → Within (erase_all ids es) es
unfolding erase_all
erase_all-Within [] es id e h = h
erase_all-Within (k ∷ ids) es id e h =
    erase-Within k es id e (erase_all-Within ids (erase k es) id e h)

evict-Within : (limit size : ℕ) (queue es : Dict Text Entry) → Within (evict limit size queue es) es
unfolding evict
evict-Within limit size [] es id e h = h
evict-Within limit size (q ∷ queue) es id e h = ground (
  arith,
  evict-Within limit (size - q.1.size_bytes) queue (erase q.0 es) id e,
  erase-Within q.0 es id e,
)

enforce_memory_limit-Within : (mp : Mempool) → Within (enforce_memory_limit mp).entries mp.entries
unfolding enforce_memory_limit
enforce_memory_limit-Within mp id e h = ground (
  arith,
  evict-Within mp.max_size_bytes (total_size mp.entries)
      (sort_by_age (length mp.entries) mp.entries) mp.entries id e,
)

Within-NoDoubleSpend :
    (mp mp' : Mempool) → Within mp'.entries mp.entries → NoDoubleSpend mp → NoDoubleSpend mp'
Within-NoDoubleSpend mp mp' w nds id j e f p he hf = nds id j e f p (w id e he) (w j f hf)

cleanup_expired-Within : (mp : Mempool) → Within (cleanup_expired mp).entries mp.entries
unfolding cleanup_expired
cleanup_expired-Within mp id e h = ground (
  arith,
  erase_all-Within (chosen (is_expired mp.current_height mp.expiry_blocks) mp.entries) mp.entries id
      e,
)

-- A new height, which expires transactions, leaves no two pending transactions with an input in
-- common if there were none.
pub update_block_height-NoDoubleSpend :
    (height : ℕ) (mp : Mempool) → NoDoubleSpend mp → NoDoubleSpend (update_block_height height mp)
unfolding update_block_height
update_block_height-NoDoubleSpend height mp =
    let mp' : Mempool = record mp { current_height = height } in
    Within-NoDoubleSpend mp (cleanup_expired mp') (cleanup_expired-Within mp')

-- no entry of a map spends the output
abbrev unspent_in : OutPoint → Dict Text Entry → Bool
unspent_in p es = any (λ (e : Text × Entry). spends e.1.tx.inputs p) es

lookup-unspent :
    (p : OutPoint) (es : Dict Text Entry) (id : Text) (e : Entry)
    → unspent_in p es ≡ false
    → lookup id es ≡ some e
    → spends e.tx.inputs p ≡ false
unfolding lookup
lookup-unspent p [] id e none_spend h = ground arith
lookup-unspent p ((j, f) ∷ es) id e none_spend h = ground (arith, lookup-unspent p es id e)

conflicts-unspent :
    (p : OutPoint) (is : List TxInput) (es : Dict Text Entry)
    → spends is p ≡ true
    → conflicts is es ≡ false
    → unspent_in p es ≡ false
unfolding conflicts
conflicts-unspent p [] es s c = ground arith
conflicts-unspent p (i ∷ is) es s c =
    let same : p ≡ input_point i → unspent_in p es ≡ unspent_in (input_point i) es =
      ap (λ (q : OutPoint). unspent_in q es) in
    ground (arith, same, out_point_beq_iff p (input_point i), conflicts-unspent p is es)

insert-NoDoubleSpend :
    (id : Text) (n : Entry) (mp : Mempool)
    → NoDoubleSpend mp
    → conflicts n.tx.inputs mp.entries ≡ false
    → NoDoubleSpend (record mp { entries = insert id n mp.entries })
insert-NoDoubleSpend id n mp nds c i j e f p he hf ne se = ground (
  arith,
  lookup-insert id i n mp.entries,
  lookup-insert id j n mp.entries,
  text_beq_iff id i,
  text_beq_iff id j,
  nds i j e f p,
  λ (s : spends n.tx.inputs p ≡ true).
      lookup-unspent p mp.entries j f (conflicts-unspent p n.tx.inputs mp.entries s c),
  λ (s : spends n.tx.inputs p ≡ true).
      lookup-unspent p mp.entries i e (conflicts-unspent p n.tx.inputs mp.entries s c),
)

admit-NoDoubleSpend :
    (now : ℕ) (id : Text) (t : Transaction) (mp : Mempool)
    → NoDoubleSpend mp
    → conflicts t.inputs mp.entries ≡ false
    → NoDoubleSpend (admit now id t mp)
admit-NoDoubleSpend now id t mp nds c =
    let n : Entry = new_entry now t mp in
    let mp' : Mempool = record mp { entries = insert id n mp.entries } in
    Within-NoDoubleSpend mp' (enforce_memory_limit mp') (enforce_memory_limit-Within mp')
      (insert-NoDoubleSpend id n mp nds c)

-- `AddTransaction` leaves the mempool as it was, or admits the transaction behind its checks.
pub add_transaction-cases :
    (ext : External) (published : Bool) (now : ℕ) (t : Transaction) (mp : Mempool)
    → (P : Mempool → Type 0) → P mp
    → ((id : Text)
        → leb (estimate_tx_size t) max_transaction_size ≡ true
        → conflicts t.inputs mp.entries ≡ false
        → P (admit now id t mp))
    → P (add_transaction ext published now t mp).1
unfolding add_transaction
add_transaction-cases ext published now t mp P same add = elim (Option-cases (tx_id ext t)) [
  | inl e ↦ ground arith
  | inr (id, e) ↦ ground (arith, add id)
]

-- `AddTransaction` leaves no two pending transactions with an input in common if there were none,
-- whatever it returns.
pub add_transaction-NoDoubleSpend :
    (ext : External) (published : Bool) (now : ℕ) (t : Transaction) (mp : Mempool)
    → NoDoubleSpend mp
    → NoDoubleSpend (add_transaction ext published now t mp).1
add_transaction-NoDoubleSpend ext published now t mp nds =
    add_transaction-cases ext published now t mp NoDoubleSpend nds
      (λ id small c. admit-NoDoubleSpend now id t mp nds c)
