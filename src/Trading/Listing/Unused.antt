-- ===== src/Trading/Listing/Unused.antt =====
-- `isOfferConsumed` of lib/p2p_node.go: what it finds in the blocks of a chain.
use mathlib.Core.List.{Memᴰ}
use mathlib.Core.List.Memᴰ as Memᴰ
use shadowd.Common.{
  ◌≡◌, ◌≢◌, ◌↔◌, inl, inr, refl, sym, ap, ◌∙◌, Bool, false, Option, none, some, List, [], ◌∷◌, any,
  arith,
}
use shadowd.Common.Text.{Text, text_beq_iff}
use shadowd.Common.Result.{Result, ok, err}
use shadowd.Tx.{TxType, accept_offer, cancel_offer, Transaction}
use shadowd.Utxo.Store.{StoreError}
use shadowd.Chain.{Block}
use shadowd.Process.World.{Codec}
use shadowd.Trading.Listing.{is_text, consumes, consumes_found, is_offer_consumed}

any-false_iff {ℓ} :
    {A : Type ℓ} (p : A → Bool) (xs : List A)
    → (any p xs ≡ false) ↔ ((x : A) → Memᴰ x xs → p x ≡ false)
any-false_iff p [] = (λ e x m. absurd (Memᴰ.not-nil m), λ h. refl)
any-false_iff p (x ∷ xs) = (
  λ e y m. elim (Memᴰ.cases_cons m) [
    | inl same ↦ ap p same ∙ (ground arith)
    | inr later ↦ (any-false_iff p xs).0 (ground arith) y later
  ],
  λ h.
      let here : p x ≡ false = h x (Memᴰ.head refl) in
      let later : any p xs ≡ false = (any-false_iff p xs).1 (λ y m. h y (Memᴰ.tail m)) in
      ground arith,
)

is_text_iff : (id : Text) (o : Option Text) → (is_text id o ≡ false) ↔ (o ≢ some id)
is_text_iff id none = ground arith
is_text_iff id (some s) = ground (arith, text_beq_iff s id)

-- A transaction that neither accepts nor cancels an offer.
abbrev pub Spares : Codec → Text → Transaction → Type 0
Spares codec id t =
    (t.tx_type ≡ accept_offer → codec.accept_data t.payload ≢ some id)
    × (t.tx_type ≡ cancel_offer → codec.cancel_data t.payload ≢ some id)

consumes_iff :
    (codec : Codec) (id : Text) (t : Transaction) (k : TxType)
    → (consumes codec id t k ≡ false) ↔ (
        (k ≡ accept_offer → codec.accept_data t.payload ≢ some id)
        × (k ≡ cancel_offer → codec.cancel_data t.payload ≢ some id))
unfolding consumes
consumes_iff codec id t accept_offer = (
  λ e. (λ k. (is_text_iff id (codec.accept_data t.payload)).0 e, λ k. absurd (cc)),
  λ h. (is_text_iff id (codec.accept_data t.payload)).1 (h.0 refl),
)
consumes_iff codec id t cancel_offer = (
  λ e. (λ k. absurd (cc), λ k. (is_text_iff id (codec.cancel_data t.payload)).0 e),
  λ h. (is_text_iff id (codec.cancel_data t.payload)).1 (h.1 refl),
)
consumes_iff codec id t _ = (λ e. (λ k. absurd (cc), λ k. absurd (cc)), λ h. refl)

module _ (codec : Codec) (get : Text → Result StoreError (Option Transaction))
    (blocks : List Block) where
  -- No transaction of the chain accepts or cancels the offer.
  abbrev pub IsUnused : Text → Type 0
  IsUnused id =
      (b : Block) (s : Text) (t : Transaction)
      → Memᴰ b blocks
      → Memᴰ s b.transactions
      → get s ≡ ok (some t)
      → Spares codec id t

  not_consumed :
      (id : Text) (r : Result StoreError (Option Transaction))
      → ((t : Transaction) → r ≡ ok (some t) → Spares codec id t)
      → consumes_found codec id r ≡ false
  not_consumed id (ok (some t)) h = (consumes_iff codec id t t.tx_type).1 (h t refl)
  not_consumed id (ok none) h = refl
  not_consumed id (err e) h = refl

  pub is_offer_consumed_iff :
      (id : Text) → (is_offer_consumed codec get blocks id ≡ false) ↔ IsUnused id
  unfolding is_offer_consumed
  is_offer_consumed_iff id = (
    λ e b s t inside listed at.
        let in_block : any (λ r. consumes_found codec id (get r)) b.transactions ≡ false =
          (any-false_iff _ blocks).0 e b inside in
        let here : consumes_found codec id (get s) ≡ false =
          (any-false_iff _ b.transactions).0 in_block s listed in
        (consumes_iff codec id t t.tx_type).0 (sym (ap (consumes_found codec id) at) ∙ here),
    λ h. (any-false_iff _ blocks).1 (λ b inside.
        (any-false_iff _ b.transactions).1
          (λ s listed. not_consumed id (get s) (λ t at. h b s t inside listed at))),
  )
