-- ===== src/Token/Registry/Tickers.antt =====
-- The consistency of the token registry: who holds a ticker, and where a token is filed.
use mathlib.Core.Path.{subst}
use native.Mathlib.Nat.{mod-eq_of_lt}
use shadowd.Common.{
  ℕ, ◌+◌, ◌≤◌, ◌<◌, ◌≡◌, ◌↔◌, true, false, none, some, [], ◌∷◌, arith, Option-cases, inl, inr,
}
use shadowd.Common.Text.{Text, text_eq, text_beq_iff}
use shadowd.Common.Word.{u64_mod, add64}
use shadowd.Common.Dict.{lookup, insert, lookup-insert, lookup-insert_self}
use shadowd.Common.Result.{ok}
use shadowd.Tx.External.{External}
use shadowd.Token.{TokenInfo, is_fully_melted, validate}
use shadowd.Token.Registry.{
  Registry, new_registry, check_ticker_available, register_token, record_melt, melt_found,
}

abbrev pub IsActive : TokenInfo → Type 0
IsActive t = is_fully_melted t ≡ false

pub record IsConsistent (reg : Registry) : Type 0 where
  pub filed : (k : Text) (t : TokenInfo) → lookup k reg ≡ some t → t.token_id ≡ k
  pub unique :
      (j k : Text) (a b : TokenInfo)
      → lookup j reg ≡ some a
      → lookup k reg ≡ some b
      → a.ticker ≡ b.ticker
      → IsActive a
      → IsActive b
      → j ≡ k

-- An available ticker is held by no active token of the registry.
pub available_unheld :
    (ticker : Text) (reg : Registry) (k : Text) (t : TokenInfo)
    → check_ticker_available ticker reg ≡ ok tt
    → lookup k reg ≡ some t
    → t.ticker ≡ ticker
    → is_fully_melted t ≡ true
unfolding check_ticker_available lookup
available_unheld ticker [] k t h e same = cc
available_unheld ticker ((j, u) ∷ reg) k t h e same =
    ground (arith, text_beq_iff u.ticker ticker, text_beq_iff j k, available_unheld ticker reg k t)

pub new_registry-IsConsistent : (ext : External) → IsConsistent (new_registry ext)
unfolding new_registry lookup insert
new_registry-IsConsistent ext = record {
  filed = λ k t e. ground (arith, text_beq_iff ext.genesis_token_id k);
  unique = λ j k a b ea eb same la lb.
      ground (arith, text_beq_iff ext.genesis_token_id k, text_beq_iff ext.genesis_token_id j);
}

-- What a successful registration did.
register_token-ok :
    (ext : External) (t : TokenInfo) (reg : Registry) {reg' : Registry}
    → register_token ext t reg ≡ ok reg'
    → (validate ext t ≡ ok tt)
      × (lookup t.token_id reg ≡ none)
      × (check_ticker_available t.ticker reg ≡ ok tt)
      × (reg' ≡ insert t.token_id t reg)
unfolding register_token
register_token-ok ext t reg h = ground arith

insert-IsConsistent :
    (t : TokenInfo) (reg : Registry)
    → IsConsistent reg
    → ((k : Text) (u : TokenInfo)
        → lookup k reg ≡ some u
        → u.ticker ≡ t.ticker
        → IsActive t
        → IsActive u
        → k ≡ t.token_id)
    → IsConsistent (insert t.token_id t reg)
insert-IsConsistent t reg c alone = record {
  filed = λ k u e.
      ground (arith, lookup-insert t.token_id k t reg, text_beq_iff t.token_id k, c.filed k u);
  unique = λ j k a b ea eb same la lb. ground (
    arith,
    lookup-insert t.token_id j t reg,
    lookup-insert t.token_id k t reg,
    text_beq_iff t.token_id j,
    text_beq_iff t.token_id k,
    c.unique j k a b,
    alone j a,
    alone k b,
  );
}

-- Registering a token keeps the registry consistent: one active token for each ticker, and each
-- token filed under its identifier.
pub register_token-IsConsistent :
    (ext : External) (t : TokenInfo) (reg : Registry) {reg' : Registry}
    → IsConsistent reg
    → register_token ext t reg ≡ ok reg'
    → IsConsistent reg'
register_token-IsConsistent ext t reg c h =
    let (_, absent, free, e) = register_token-ok ext t reg h in
    rw e (
      insert-IsConsistent t reg c (λ k u found same lt lu.
        let melted = available_unheld t.ticker reg k u free found same in cc (melted)))

-- More melted tokens, short of a wrap, make no token active again.
IsActive-before :
    (t : TokenInfo) (amount : ℕ)
    → t.total_melted + amount < u64_mod
    → IsActive (record t { total_melted = add64 t.total_melted amount })
    → IsActive t
unfolding is_fully_melted
IsActive-before t amount fits h = ground arith

melted-IsConsistent :
    (t : TokenInfo) (amount : ℕ) (reg : Registry)
    → IsConsistent reg
    → lookup t.token_id reg ≡ some t
    → t.total_melted + amount < u64_mod
    → IsConsistent (melt_found t.token_id amount reg t).1
melted-IsConsistent t amount reg c found fits =
    insert-IsConsistent (record t { total_melted = add64 t.total_melted amount }) reg c
      (λ k u held same lt lu.
        c.unique k t.token_id u t held found same lu (IsActive-before t amount fits lt))

-- Recording a melt, also one that it reports as too large, keeps the registry consistent as long
-- as the count of melted tokens does not wrap.
pub record_melt-IsConsistent :
    (id : Text) (amount : ℕ) (reg : Registry)
    → IsConsistent reg
    → ((t : TokenInfo) → lookup id reg ≡ some t → t.total_melted + amount < u64_mod)
    → IsConsistent (record_melt id amount reg).1
unfolding record_melt
record_melt-IsConsistent id amount reg c fits = elim (Option-cases (lookup id reg)) [
  | inl missing ↦ rw (missing, record_melt) c
  | inr (t, found) ↦
      let here : t.token_id ≡ id = c.filed id t found in
      rw (found, record_melt)
        (subst (λ i. IsConsistent (melt_found i amount reg t).1) here
          (melted-IsConsistent t amount reg c (simp here found) (fits t found)))
]

-- A melt is accepted exactly when the token is known and what is melted in all stays within its
-- supply; an excessive one is reported only after the count has been raised.
pub record_melt_outcome :
    (id : Text) (amount : ℕ) (reg : Registry) (t : TokenInfo)
    → lookup id reg ≡ some t
    → t.total_melted + amount < u64_mod
    → (((record_melt id amount reg).0 ≡ ok tt) ↔ (t.total_melted + amount ≤ t.total_supply))
      × (lookup id (record_melt id amount reg).1
          ≡ some (record t { total_melted = t.total_melted + amount }))
unfolding record_melt
record_melt_outcome id amount reg t found fits =
    let sum : add64 t.total_melted amount ≡ t.total_melted + amount = mod-eq_of_lt fits in
    rw (found, record_melt, sum) (ground arith, lookup-insert_self id _ reg)
