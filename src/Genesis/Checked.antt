-- ===== src/Genesis/Checked.antt =====
-- What `ValidateGenesis` of lib/genesis.go accepts, and its answer for the document of the test network.
use mathlib.Core.List.{Memᴰ}
use mathlib.Core.List.Memᴰ as Memᴰ
use mathlib.Core.Path.{subst}
use shadowd.Common.{
  ℕ, ◌≡◌, ◌≢◌, ◌↔◌, inl, inr, refl, sym, ap, ◌∙◌, Bool, true, false, not, Bool-cases, Option, none,
  some, List, [], ◌∷◌, any, is_empty, All, arith, ◌==◌, nat_eq, nat_beq_iff,
}
use shadowd.Common.Text.{Text}
use shadowd.Common.Result.{Result, ok, err, bind_inv, passed_inv, ◌>>◌}
use shadowd.Tx.{Address, Utxo}
use shadowd.Tx.External.{External}
use shadowd.Token.{TokenInfo, TokenError, desc_chars, genesis_token, validate, alnum_text}
use shadowd.Token.Valid.{IsValid, validate_iff}
use shadowd.Genesis.{
  GenesisValidator, ShadowAppState, GenesisDoc, StateCodec, GenesisError, no_chain_id, no_time,
  no_validators, no_state, bad_state, no_token, bad_height, not_a_validator, no_key, no_marshal,
  bad_token, some_or_genesis, or_bad_token, copied, is_validator, check_initial, is_none,
  check_state, validate_genesis, testnet_state, testnet_doc, new_testnet_genesis,
}

some_or_inv {κ} :
    {A : Type κ} (e : GenesisError) (o : Option A) {a : A} → some_or_genesis e o ≡ ok a → o ≡ some a
some_or_inv e none h = cc
some_or_inv e (some a) h = cc

genesis_token-refused : (ext : External) → validate ext (genesis_token ext) ≡ err desc_chars
unfolding validate alnum_text
genesis_token-refused ext = refl

validate-testnet_doc :
    (ext : External) (codec : StateCodec) (a : Address) (key : Text) (c : ℕ) (text : Text)
    → codec.unmarshal_state (c ∷ text) ≡ some (testnet_state ext a)
    → validate_genesis ext codec (testnet_doc a key (c ∷ text)) ≡ err (bad_token desc_chars)
unfolding validate_genesis check_state
validate-testnet_doc ext codec a key c text e = rw (e, genesis_token-refused ext) refl

testnet-refused :
    (ext : External) (codec : StateCodec) (a : Address) (key text : Text)
    → text ≢ []
    → codec.unmarshal_state text ≡ some (testnet_state ext a)
    → validate_genesis ext codec (testnet_doc a key text) ≡ err (bad_token desc_chars)
testnet-refused ext codec a key [] full e = absurd (full refl)
testnet-refused ext codec a key (c ∷ text) full e = validate-testnet_doc ext codec a key c text e

-- The document that `NewTestnetGenesis` makes does not pass `ValidateGenesis`, whatever the key pair: the
-- description of its token holds spaces, and only letters and digits are accepted there. The JSON text of
-- the document's state is taken not to be empty and to be read back as that state.
pub new_testnet_genesis-refused :
    (ext : External) (codec : StateCodec) (pair : Option (Address × Option Text)) {d : GenesisDoc}
    → ((a : Address) (text : Text)
        → codec.marshal_state (testnet_state ext a) ≡ some text
        → (text ≢ []) × (codec.unmarshal_state text ≡ some (testnet_state ext a)))
    → new_testnet_genesis ext codec pair ≡ ok d
    → validate_genesis ext codec d ≡ err (bad_token desc_chars)
unfolding new_testnet_genesis
new_testnet_genesis-refused ext codec none back h = absurd (cc)
new_testnet_genesis-refused ext codec (some (a, packed)) {d} back h =
    let (text, marshalled, rest) = bind_inv _ _ h in
    let (key, found, made) =
      bind_inv (some_or_genesis no_key packed) (λ x. ok (testnet_doc a x text)) rest in
    let (full, read) = back a text (some_or_inv no_marshal _ marshalled) in
    let same : testnet_doc a key text ≡ d = cc (made) in
    subst (λ x. validate_genesis ext codec x ≡ err (bad_token desc_chars)) same
      (testnet-refused ext codec a key text full read)

-- An initial output: of height 0, to a validator.
abbrev pub IsInitial : List GenesisValidator → Option Utxo → Type 0
IsInitial vs o =
    (u : Utxo) × (o ≡ some u)
    × (u.block_height ≡ 0)
    × ((v : GenesisValidator) × Memᴰ v vs × (u.output.address ≡ copied 32 v.address 0))

any-true_iff {ℓ} :
    {A : Type ℓ} (p : A → Bool) (xs : List A)
    → (any p xs ≡ true) ↔ ((x : A) × Memᴰ x xs × (p x ≡ true))
any-true_iff p [] = (λ e. absurd (cc), λ h. absurd (Memᴰ.not-nil (h.1)))
any-true_iff p (x ∷ xs) = (
  λ e. elim (Bool-cases (p x)) [
    | inl here ↦ (x, Memᴰ.head refl, here)
    | inr other ↦
        let later = (any-true_iff p xs).0 (ground (arith, other, e)) in
        (later.0, Memᴰ.tail later.1, later.2)
  ],
  λ h. elim (Memᴰ.cases_cons h.1) [
    | inl same ↦ let here : p x ≡ true = ap p (sym same) ∙ h.2 in ground arith
    | inr below ↦
        let later : any p xs ≡ true = (any-true_iff p xs).1 (h.0, below, h.2) in ground arith
  ],
)

check_initial_iff :
    (vs : List GenesisValidator) (us : List (Option Utxo))
    → (check_initial vs us ≡ ok tt) ↔ All (IsInitial vs) us
unfolding check_initial
check_initial_iff vs [] = (λ e. tt, λ h. refl)
check_initial_iff vs (none ∷ us) = (λ e. absurd (cc), λ h. absurd (cc))
check_initial_iff vs (some u ∷ us) = (
  λ e.
      let (at_zero, rest) = passed_inv (not (u.block_height == 0)) bad_height _ e in
      let (known, more) =
        passed_inv (not (is_validator vs u.output.address)) not_a_validator _ rest in
      let (v, member, same) =
        (any-true_iff (λ x. u.output.address == copied 32 x.address 0) vs).0
          (ground (arith, known)) in
      (
        (
          u,
          refl,
          ground (arith, at_zero),
          (v, member, (nat_beq_iff u.output.address (copied 32 v.address 0)).0 same),
        ),
        (check_initial_iff vs us).0 more,
      ),
  λ h.
      let (u', found, at_zero, known) = h.0 in
      let same : u ≡ u' = cc (found) in
      let height : u.block_height ≡ 0 = ap (λ x. x.block_height) same ∙ at_zero in
      let to : u.output.address ≡ copied 32 known.0.address 0 =
        ap (λ x. x.output.address) same ∙ known.2 in
      let member : is_validator vs u.output.address ≡ true =
        (any-true_iff (λ x. u.output.address == copied 32 x.address 0) vs).1
          (known.0, known.1, (nat_beq_iff u.output.address (copied 32 known.0.address 0)).1 to) in
      let rest = (check_initial_iff vs us).1 h.1 in rw (height, member) rest,
)

-- A document that the specification accepts: nothing in it is missing, its token is within the limits, and
-- its initial outputs are for its validators.
pub record IsGenesis (ext : External) (codec : StateCodec) (d : GenesisDoc) : Type 0 where
  state : ShadowAppState
  token : TokenInfo
  named : d.chain_id ≢ []
  dated : d.genesis_time ≢ none
  validated : d.validators ≢ []
  filled : d.app_state ≢ []
  read : codec.unmarshal_state d.app_state ≡ some state
  has_token : state.genesis_token ≡ some token
  token_valid : IsValid ext token
  initial : All (IsInitial d.validators) state.initial_utxos

is_empty_iff {ℓ} : {A : Type ℓ} (xs : List A) → (is_empty xs ≡ false) ↔ (xs ≢ [])
is_empty_iff [] = ground arith
is_empty_iff (x ∷ xs) = ground arith

is_none_iff {ℓ} : {A : Type ℓ} (o : Option A) → (is_none o ≡ false) ↔ (o ≢ none)
is_none_iff none = ground arith
is_none_iff (some a) = ground arith

after_token :
    (r : Result TokenError (Unit {0})) (k : Result GenesisError (Unit {0}))
    → (or_bad_token r >> k) ≡ ok tt
    → (r ≡ ok tt) × (k ≡ ok tt)
after_token (ok tt) k h = (refl, h)
after_token (err e) k h = absurd (cc)

checked-state :
    (ext : External) (codec : StateCodec) (vs : List GenesisValidator) (s : ShadowAppState)
    (token : TokenInfo)
    → s.genesis_token ≡ some token
    → validate ext token ≡ ok tt
    → check_initial vs s.initial_utxos ≡ ok tt
    → check_state ext codec vs s ≡ ok tt
unfolding check_state
checked-state ext codec vs s token has valid started = rw (has, valid) started

-- `ValidateGenesis` accepts a document exactly when it names its chain, its time and a validator, its state
-- can be read, the state's token is within the limits, and each initial output is at height 0 for one of the
-- validators.
pub validate_genesis_iff :
    (ext : External) (codec : StateCodec) (d : GenesisDoc)
    → (validate_genesis ext codec d ≡ ok tt) ↔ IsGenesis ext codec d
unfolding validate_genesis check_state
validate_genesis_iff ext codec d = (
  λ h.
      let (named, h1) = passed_inv (is_empty d.chain_id) no_chain_id _ h in
      let (dated, h2) = passed_inv (is_none d.genesis_time) no_time _ h1 in
      let (validated, h3) = passed_inv (is_empty d.validators) no_validators _ h2 in
      let (filled, h4) = passed_inv (is_empty d.app_state) no_state _ h3 in
      let (state, read, h5) =
        bind_inv (some_or_genesis bad_state (codec.unmarshal_state d.app_state))
          (check_state ext codec d.validators) h4 in
      let (token, has, h6) =
        bind_inv (some_or_genesis no_token state.genesis_token)
          (λ x. or_bad_token (validate ext x) >> check_initial d.validators state.initial_utxos)
          h5 in
      let (valid, started) = after_token (validate ext token) _ h6 in
      record {
        state = state;
        token = token;
        named = (is_empty_iff d.chain_id).0 named;
        dated = (is_none_iff d.genesis_time).0 dated;
        validated = (is_empty_iff d.validators).0 validated;
        filled = (is_empty_iff d.app_state).0 filled;
        read = some_or_inv bad_state (codec.unmarshal_state d.app_state) read;
        has_token = some_or_inv no_token state.genesis_token has;
        token_valid = (validate_iff ext token).0 valid;
        initial = (check_initial_iff d.validators state.initial_utxos).0 started;
      },
  λ g.
      let started = (check_initial_iff d.validators g.state.initial_utxos).1 g.initial in
      let valid = (validate_iff ext g.token).1 g.token_valid in
      let ready = checked-state ext codec d.validators g.state g.token g.has_token valid started in
      rw
        (
          (is_empty_iff d.chain_id).1 g.named,
          (is_none_iff d.genesis_time).1 g.dated,
          (is_empty_iff d.validators).1 g.validated,
          (is_empty_iff d.app_state).1 g.filled,
          g.read,
        )
        ready,
)
