-- ===== src/Utxo/Scan/Pages.antt =====
-- The pages of `GetTransactionsByAddress`.
use shadowd.Common.{
  ℕ, ◌-◌, ◌≡◌, ◌≢◌, ◌≤◌, refl, ap, ◌∙◌, true, false, Bool-cases, inl, inr, Option, none, some, List,
  [], ◌∷◌, length, ◌&&◌, ◌==◌, nat_eq, nat_beq_iff, arith, All, is_empty, if◌then◌else◌,
}
use shadowd.Common.Text.{Text, text_eq}
use shadowd.Common.Word.{is_positive}
use shadowd.Common.Result.{Result, ok}
use shadowd.Tx.{Address, Transaction}
use shadowd.Utxo.Database.{Database, Key}
use shadowd.Utxo.Store.{StoreError, Store, get_transaction}
use shadowd.Utxo.Scan.{
  with_keys-ok, page, Cursor, TxEntry, pick_map, addr_tx_entry, has_prefix, entries_behind,
  collect_page, entries_from, get_transactions_by_address,
}

has_prefix-long : (s p : Text) → has_prefix s p ≡ true → length s ≡ length p → s ≡ p
unfolding has_prefix
has_prefix-long [] [] h e = refl
has_prefix-long (b ∷ s) [] h e = absurd (omega arith)
has_prefix-long [] (c ∷ p) h e = absurd (omega arith)
has_prefix-long (b ∷ s) (c ∷ p) h e =
    let more : length s ≡ length p = omega arith in
    ground (arith, nat_beq_iff b c, has_prefix-long s p)

collect_page-le :
    (get : Text → Result StoreError (Option Transaction)) (n : ℕ) (es : List TxEntry)
    → length (collect_page get n es) ≤ length es
unfolding collect_page
collect_page-le get n [] = omega arith
collect_page-le get n (e ∷ es) =
    ground (arith, collect_page-le get (n - 1) es, collect_page-le get n es)

-- whether the iterator that starts at the whole key of one entry visits another
abbrev from_entry : TxEntry → TxEntry → Option TxEntry
from_entry e x = if (x.place == e.place) && has_prefix x.tx_id e.tx_id then some x else none

-- an entry of another key: its identifier is as long, and differs where the height is the same
abbrev pub IsOther : TxEntry → TxEntry → Type 0
IsOther e x = (length x.tx_id ≡ length e.tx_id) × (x.place ≡ e.place → x.tx_id ≢ e.tx_id)

from_entry-other : (e x : TxEntry) → IsOther e x → from_entry e x ≡ none
from_entry-other e x (long, other) = elim (Bool-cases (has_prefix x.tx_id e.tx_id)) [
  | inr no_prefix ↦ ground (arith, no_prefix)
  | inl starts ↦
      let same : x.tx_id ≡ e.tx_id = has_prefix-long x.tx_id e.tx_id starts long in
      ground (arith, nat_beq_iff x.place e.place, λ (h : x.place ≡ e.place). other h same)
]

from_entry-others :
    (e : TxEntry) (es : List TxEntry) → All (IsOther e) es → pick_map (from_entry e) es ≡ []
from_entry-others e [] all = refl
from_entry-others e (x ∷ es) (h, all) =
    rw (pick_map, from_entry-other e x h) (from_entry-others e es all)

entries_from-le :
    {kv : Database} (cursor : Cursor kv) (a : Address) (ks : List Key) (e : TxEntry)
    (es : List TxEntry)
    → All (IsOther e) es
    → length (entries_from cursor a ks (e ∷ es)) ≤ 1
unfolding entries_from
entries_from-le cursor a ks e es all = ground (arith, from_entry-others e es all)

-- A page behind a transaction of the address, where another entry follows it, has at most one
-- transaction, whatever count is asked for and however many entries follow; their identifiers
-- have one length, and no two entries one key.
pub get_transactions_by_address-le :
    {kv : Database} (cursor : Cursor kv) (a : Address) (count : ℕ) (behind : Text) (s : Store kv)
    (ks : List Key) (e : TxEntry) (es : List TxEntry)
    → cursor.keys s.db ≡ ok ks
    → is_empty behind ≡ false
    → entries_behind behind (pick_map (addr_tx_entry a) ks) ≡ some (e ∷ es)
    → All (IsOther e) es
    → (ts : List Transaction) × ((get_transactions_by_address cursor a count behind s).0 ≡ ok ts)
      × (length ts ≤ 1)
unfolding get_transactions_by_address
get_transactions_by_address-le {kv} cursor a count behind s ks e es keys named rest all =
    let es' : List TxEntry = entries_from cursor a ks (e ∷ es) in
    let n : ℕ = if is_positive count then count else 32 in
    let get : Text → Result StoreError (Option Transaction) = λ id. get_transaction kv id s in
    (
      collect_page get n es',
      ap (λ r. r.0)
            (with_keys-ok cursor (λ ks' s'. (page cursor a count behind ks' s', s')) s ks keys)
          ∙ rw (named, rest) refl,
      omega (arith, collect_page-le get n es', entries_from-le cursor a ks e es all),
    )
