-- ===== src/Mempool.antt =====
-- lib/mempool.go: the pending transactions, one map from identifiers to entries. The sizes are Go
-- ints far below 2 ^ 63 (each is at most a transaction's length), the clock is a number, and the
-- gossip topic is a parameter: whether a message is marshalled and published.
pub mod Admit
pub mod Limit
pub mod Purge
use shadowd.Common.{
  ℕ, zero, suc, ◌+◌, ◌-◌, ◌*◌, Bool, true, false, not, ◌||◌, ◌&&◌, Option, none, some, List, [],
  ◌∷◌, any, keep, length, map, sum_by, is_empty, ltb, leb, ◌==◌, nat_eq, if◌then◌else◌,
}
use shadowd.Common.Text.{Text, text_eq}
use shadowd.Common.Word.{sub64}
use shadowd.Common.Dict.{Dict, lookup, insert, erase}
use shadowd.Common.Result.{Result, ok, err, is_ok}
use shadowd.Common.State.{Action, pure, raise, gets, modify, raise_if, lift, ◌>>=◌, ◌>>◌}
use shadowd.Tx.{TxInput, TxType, coinbase, Transaction, OutPoint, out_point_eq, input_point}
use shadowd.Tx.External.{External, tx_id}
use shadowd.Tx.Validate.{validate_transaction}

-- `MempoolEntry`
pub record Entry : Type 0 where
  pub tx : Transaction
  pub added_at_block : ℕ
  pub added_timestamp : ℕ
  pub size_bytes : ℕ

-- The fields of `Mempool` that its methods read and write; `expiry_blocks` and `max_size_bytes` are
-- zero where Go's are not positive.
pub record Mempool : Type 0 where
  pub entries : Dict Text Entry
  pub expiry_blocks : ℕ
  pub max_size_bytes : ℕ
  pub current_height : ℕ

pub data MempoolError : Type 0 where
  no_id invalid_signature already_pending too_large double_spend not_published : MempoolError

abbrev pub Op : Type 0 → Type 0
Op A = Action Mempool MempoolError A

-- `MaxTransactionSize`
abbrev pub max_transaction_size : ℕ
max_transaction_size = 262144

-- `estimateTxSize`; an address has 32 bytes.
unfoldable pub estimate_tx_size : Transaction → ℕ
estimate_tx_size t = 100 + length t.inputs * 100 + length t.outputs * 132 + length t.signature

-- two lists of inputs that name a common output: the loops of the double-spend check
abbrev pub spends : List TxInput → OutPoint → Bool
spends is p = any (λ i. p == input_point i) is

unfoldable pub conflicts : List TxInput → Dict Text Entry → Bool
conflicts is es = any (λ i. any (λ (e : Text × Entry). spends e.1.tx.inputs (input_point i)) es) is

unfoldable pub total_size : Dict Text Entry → ℕ
total_size es = sum_by (λ (e : Text × Entry). e.1.size_bytes) es

-- The exchange sort by time, the oldest first: one run of the inner loop puts the oldest entry of
-- a list in front.
sift : Text × Entry → Dict Text Entry → (Text × Entry) × Dict Text Entry
sift e [] = (e, [])
sift e (f ∷ es) =
    let older : Bool = ltb f.1.added_timestamp e.1.added_timestamp in
    let (front, rest) = sift (if older then f else e) es in (front, (if older then e else f) ∷ rest)

unfoldable pub sort_by_age : ℕ → Dict Text Entry → Dict Text Entry
unfolding sift
sort_by_age zero es = es
sort_by_age (suc n) [] = []
sort_by_age (suc n) (e ∷ es) = let (front, rest) = sift e es in front ∷ sort_by_age n rest

-- The loop that evicts while the size is above the limit; what it leaves is the entries.
unfoldable pub evict : ℕ → ℕ → Dict Text Entry → Dict Text Entry → Dict Text Entry
evict limit size [] es = es
evict limit size (e ∷ queue) es =
    let rest : Dict Text Entry = evict limit (size - e.1.size_bytes) queue (erase e.0 es) in
    if leb size limit then es else rest

-- `enforceMemoryLimitLocked`
unfoldable pub enforce_memory_limit : Mempool → Mempool
enforce_memory_limit mp = if mp.max_size_bytes == 0 then mp else record mp {
  entries =
      evict mp.max_size_bytes (total_size mp.entries) (sort_by_age (length mp.entries) mp.entries)
        mp.entries;
}

-- The identifiers that a test chooses, and their deletion.
abbrev pub chosen : (Entry → Bool) → Dict Text Entry → List Text
chosen p [] = []
chosen p ((id, e) ∷ es) = if p e then id ∷ chosen p es else chosen p es

unfoldable pub erase_all : List Text → Dict Text Entry → Dict Text Entry
erase_all [] es = es
erase_all (id ∷ ids) es = erase_all ids (erase id es)

-- the test of an entry's age, a difference of uint64
unfoldable pub is_expired : ℕ → ℕ → Entry → Bool
is_expired height expiry e = leb expiry (sub64 height e.added_at_block)

-- `cleanupExpiredTransactionsLocked`
unfoldable pub cleanup_expired : Mempool → Mempool
cleanup_expired mp = if mp.expiry_blocks == 0 then mp else record mp {
  entries =
      erase_all (chosen (is_expired mp.current_height mp.expiry_blocks) mp.entries) mp.entries;
}

-- `UpdateBlockHeight`
unfoldable pub update_block_height : ℕ → Mempool → Mempool
update_block_height height mp = cleanup_expired (record mp { current_height = height })

-- `RemoveTransaction`, `GetTransaction`, `HasTransaction`, `Count` and `GetTransactions`
unfoldable pub remove_transaction : Text → Mempool → Mempool
remove_transaction id mp = record mp { entries = erase id mp.entries }

entry_tx : Option Entry → Option Transaction
entry_tx none = none
entry_tx (some e) = some e.tx

unfoldable pub pending : Text → Mempool → Option Transaction
unfolding entry_tx
pending id mp = entry_tx (lookup id mp.entries)

is_entry : Option Entry → Bool
is_entry none = false
is_entry (some e) = true

unfoldable pub has_transaction : Text → Mempool → Bool
unfolding is_entry
has_transaction id mp = is_entry (lookup id mp.entries)

unfoldable pub count : Mempool → ℕ
count mp = length mp.entries

unfoldable pub transactions : Mempool → List Transaction
transactions mp = map (λ (e : Text × Entry). e.1.tx) mp.entries

abbrev pub new_entry : ℕ → Transaction → Mempool → Entry
new_entry now t mp = record {
  tx = t;
  added_at_block = mp.current_height;
  added_timestamp = now;
  size_bytes = estimate_tx_size t;
}

-- the entry goes in, then the limit is enforced
abbrev pub admit : ℕ → Text → Transaction → Mempool → Mempool
admit now id t mp =
    enforce_memory_limit (record mp { entries = insert id (new_entry now t mp) mp.entries })

module _ (ext : External) where
  -- `verifyTransaction`
  verify_as : TxType → Transaction → Bool
  verify_as coinbase t = true
  verify_as _ t = not (is_empty t.signature) && is_ok (validate_transaction ext t)

  unfoldable pub verify_transaction : Transaction → Bool
  unfolding verify_as
  verify_transaction t = verify_as t.tx_type t

  abbrev identify : Transaction → Op Text
  identify t mp = elim (tx_id ext t) [ none ↦ (err no_id, mp) | some id ↦ (ok id, mp) ]

  -- `AddTransaction`; `published` says whether the message was marshalled and published.
  unfoldable pub add_transaction : Bool → ℕ → Transaction → Op (Unit {0})
  add_transaction published now t = do
    id ← identify t
    raise_if (not (verify_transaction t)) invalid_signature
    mp ← gets (λ m. m)
    raise_if (has_transaction id mp) already_pending
    raise_if (ltb max_transaction_size (estimate_tx_size t)) too_large
    raise_if (conflicts t.inputs mp.entries) double_spend
    modify (admit now id t)
    raise_if (not published) not_published

  -- the case `add_tx` of `listenForMessages`: no check of the size or of a double spend
  unfoldable pub receive_transaction : ℕ → Transaction → Mempool → Mempool
  receive_transaction now t mp = elim (tx_id ext t) [
    | none ↦ mp
    | some id ↦
        if not (verify_transaction t)
        then mp
        else if has_transaction id mp
        then mp
        else admit now id t mp
  ]
