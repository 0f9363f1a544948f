-- ===== src/Trading/Listing/Open.antt =====
-- The offers that `handleListOffers` of lib/p2p_node.go lists, described without its loops.
use mathlib.Core.List.{Memᴰ}
use mathlib.Core.List.Memᴰ as Memᴰ
use mathlib.Core.Path.{subst}
use shadowd.Common.{
  ℕ, zero, suc, ◌+◌, ◌≡◌, ◌≤◌, ◌↔◌, inl, inr, refl, sym, ap, ◌∙◌, Bool, true, false, Option, none,
  some, List, [], ◌∷◌, length, get_elem?, arith, if◌then◌else◌,
}
use shadowd.Common.Text.{Text}
use shadowd.Common.Result.{Result, ok, err}
use shadowd.Tx.{TxType, offer, Transaction}
use shadowd.Utxo.Store.{StoreError}
use shadowd.Chain.{Block}
use shadowd.Process.World.{Codec, OfferData}
use shadowd.Trading.Listing.{
  ListedOffer, offer_terms, terms_found, is_offer_consumed, list_if_open, offers_in, offers_from,
  list_offers,
}
use shadowd.Trading.Listing.Unused.{IsUnused, is_offer_consumed_iff}

offer_terms_inv :
    (codec : Codec) (k : TxType) (payload : Text) {d : OfferData}
    → offer_terms codec k payload ≡ some d
    → (k ≡ offer) × (codec.offer_data payload ≡ some d)
offer_terms_inv codec offer payload h = (refl, h)
offer_terms_inv codec _ payload h = absurd (cc)

module _ (codec : Codec) (get : Text → Result StoreError (Option Transaction))
    (blocks : List Block) where
  -- An offer of a block of the chain that has not expired and that no transaction of the chain
  -- accepts or cancels.
  pub record IsOpen (e : ListedOffer) : Type 0 where
    block : Block
    transaction : Transaction
    placed : get_elem? blocks e.block_height ≡ some block
    holds : Memᴰ e.offer_tx_id block.transactions
    stored : get e.offer_tx_id ≡ ok (some transaction)
    offers : transaction.tx_type ≡ offer
    parsed : codec.offer_data transaction.payload ≡ some e.terms
    unexpired : length blocks ≤ e.terms.expires_at_block
    unused : IsUnused codec get blocks e.offer_tx_id

  -- What the loop tests of a transaction id of a block.
  record IsListed (e : ListedOffer) : Type 0 where
    found : terms_found codec (get e.offer_tx_id) ≡ some e.terms
    late : length blocks ≤ e.terms.expires_at_block
    free : is_offer_consumed codec get blocks e.offer_tx_id ≡ false

  guarded-mem :
      (e x : ListedOffer) (p q : Bool)
      → Memᴰ e (if p then [] else if q then [] else x ∷ []) ↔ ((e ≡ x) × (p ≡ false) × (q ≡ false))
  guarded-mem e x true q = (λ m. absurd (Memᴰ.not-nil m), λ h. absurd (cc))
  guarded-mem e x false true = (λ m. absurd (Memᴰ.not-nil m), λ h. absurd (cc))
  guarded-mem e x false false = (λ m. (Memᴰ.eq_of_singleton m, refl, refl), λ h. Memᴰ.head h.0)

  list_if_open-mem :
      (e : ListedOffer) (id : Text) (height : ℕ) (o : Option OfferData)
      → Memᴰ e (list_if_open codec get blocks id height o) ↔ (
          (e.offer_tx_id ≡ id)
          × (e.block_height ≡ height)
          × (o ≡ some e.terms)
          × (length blocks ≤ e.terms.expires_at_block)
          × (is_offer_consumed codec get blocks id ≡ false))
  list_if_open-mem e id height none = (λ m. absurd (Memᴰ.not-nil m), λ h. absurd (cc))
  list_if_open-mem e id height (some d) = (
    λ m.
        let h = (guarded-mem e _ _ _).0 m in
        let same : e.terms ≡ d = ap (λ r. r.terms) h.0 in
        (
          ap (λ r. r.offer_tx_id) h.0,
          ap (λ r. r.block_height) h.0,
          ap some (sym same),
          simp same (ground (arith, h.1)),
          h.2,
        ),
    λ h.
        let same : e.terms ≡ d = cc (h.2) in
        let late : length blocks ≤ d.expires_at_block =
          subst (λ x. length blocks ≤ x.expires_at_block) same h.3 in
        (guarded-mem e _ _ _).1 (
          λ i. record { offer_tx_id = h.0 i; terms = same i; block_height = h.1 i },
          ground (arith, late),
          h.4,
        ),
  )

  list_here-mem :
      (e : ListedOffer) (id : Text) (height : ℕ)
      → Memᴰ e (list_if_open codec get blocks id height (terms_found codec (get id)))
        ↔ ((e.offer_tx_id ≡ id) × (e.block_height ≡ height) × IsListed e)
  list_here-mem e id height = (
    λ m.
        let h = (list_if_open-mem e id height _).0 m in
        (
          h.0,
          h.1,
          record {
            found = ap (λ r. terms_found codec (get r)) h.0 ∙ h.2;
            late = h.3;
            free = ap (is_offer_consumed codec get blocks) h.0 ∙ h.4;
          },
        ),
    λ h. (list_if_open-mem e id height _).1 (
      h.0,
      h.1,
      sym (ap (λ r. terms_found codec (get r)) h.0) ∙ h.2.found,
      h.2.late,
      sym (ap (is_offer_consumed codec get blocks) h.0) ∙ h.2.free,
    ),
  )

  offers_in-mem :
      (e : ListedOffer) (height : ℕ) (ids : List Text)
      → Memᴰ e (offers_in codec get blocks height ids)
        ↔ (Memᴰ e.offer_tx_id ids × (e.block_height ≡ height) × IsListed e)
  unfolding offers_in
  offers_in-mem e height [] = (λ m. absurd (Memᴰ.not-nil m), λ h. absurd (Memᴰ.not-nil h.0))
  offers_in-mem e height (id ∷ ids) = (
    λ m. elim (Memᴰ.append_cases _ m) [
      | inl here ↦ let h = (list_here-mem e id height).0 here in (Memᴰ.head h.0, h.1, h.2)
      | inr later ↦ let h = (offers_in-mem e height ids).0 later in (Memᴰ.tail h.0, h.1, h.2)
    ],
    λ h. elim (Memᴰ.cases_cons h.0) [
      | inl same ↦ Memᴰ.append_left _ ((list_here-mem e id height).1 (same, h.1, h.2))
      | inr later ↦
          Memᴰ.append_right (list_if_open codec get blocks id height (terms_found codec (get id)))
            ((offers_in-mem e height ids).1 (later, h.1, h.2))
    ],
  )

  -- the converse of the lemma below
  offers_from-has :
      (e : ListedOffer) (height : ℕ) (bs : List Block) (n : ℕ) (b : Block)
      → e.block_height ≡ height + n
      → get_elem? bs n ≡ some b
      → Memᴰ e.offer_tx_id b.transactions
      → IsListed e
      → Memᴰ e (offers_from codec get blocks height bs)
  unfolding offers_from
  offers_from-has e height [] n b at placed inside h = absurd (ground arith)
  offers_from-has e height (c ∷ bs) zero b at placed inside h =
      let same : b ≡ c = cc (placed) in
      Memᴰ.append_left _ (
        (offers_in-mem e height c.transactions).1
          (subst (λ d. Memᴰ e.offer_tx_id d.transactions) same inside, omega (arith, at), h))
  offers_from-has e height (c ∷ bs) (suc n) b at placed inside h =
      Memᴰ.append_right (offers_in codec get blocks height c.transactions)
        (offers_from-has e (height + 1) bs n b (omega (arith, at)) placed inside h)

  offers_from-mem :
      (e : ListedOffer) (height : ℕ) (bs : List Block)
      → Memᴰ e (offers_from codec get blocks height bs)
      → (n : ℕ) × (b : Block) × (e.block_height ≡ height + n)
        × (get_elem? bs n ≡ some b)
        × Memᴰ e.offer_tx_id b.transactions
        × IsListed e
  unfolding offers_from
  offers_from-mem e height [] m = absurd (Memᴰ.not-nil m)
  offers_from-mem e height (b ∷ bs) m = elim (Memᴰ.append_cases _ m) [
    | inl here ↦
        let h = (offers_in-mem e height b.transactions).0 here in
        (0, b, omega (arith, h.1), refl, h.0, h.2)
    | inr later ↦
        let h = offers_from-mem e (height + 1) bs later in
        (suc h.0, h.1, omega (arith, h.2), h.3, h.4, h.5)
  ]

  terms_found_inv :
      (r : Result StoreError (Option Transaction)) {d : OfferData}
      → terms_found codec r ≡ some d
      → (t : Transaction) × (r ≡ ok (some t))
        × (t.tx_type ≡ offer)
        × (codec.offer_data t.payload ≡ some d)
  terms_found_inv (ok (some t)) h =
      let back = offer_terms_inv codec t.tx_type t.payload h in (t, refl, back.0, back.1)
  terms_found_inv (ok none) h = absurd (cc)
  terms_found_inv (err e) h = absurd (cc)

  -- The list holds an entry exactly when the entry is an open offer of the chain.
  pub list_offers_iff : (e : ListedOffer) → Memᴰ e (list_offers codec get blocks) ↔ IsOpen e
  unfolding list_offers
  list_offers_iff e = (
    λ m.
        let h = offers_from-mem e 0 blocks m in
        let height : e.block_height ≡ h.0 = omega (arith, h.2) in
        let t = terms_found_inv (get e.offer_tx_id) (h.5.found) in
        record {
          block = h.1;
          transaction = t.0;
          placed = ap (get_elem? blocks) height ∙ h.3;
          holds = h.4;
          stored = t.1;
          offers = t.2;
          parsed = t.3;
          unexpired = h.5.late;
          unused = (is_offer_consumed_iff codec get blocks e.offer_tx_id).0 h.5.free;
        },
    λ o. offers_from-has e 0 blocks e.block_height o.block (omega arith) o.placed o.holds (record {
      found =
          ap (terms_found codec) o.stored
          ∙ (ap (λ k. offer_terms codec k o.transaction.payload) o.offers ∙ o.parsed);
      late = o.unexpired;
      free = (is_offer_consumed_iff codec get blocks e.offer_tx_id).1 o.unused;
    }),
  )
