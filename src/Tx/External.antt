-- ===== src/Tx/External.antt =====
-- What the program takes from packages outside the repository (encoding/json, blake2b and SHAKE-256
-- of golang.org/x/crypto, ML-DSA-87 of cloudflare/circl), and the functions of lib/crypto.go and
-- lib/transaction.go that are built on it: hashing, identifying and verifying a transaction.
use shadowd.Common.{
  ℕ, Bool, false, ◌||◌, Option, none, some, is_empty, length, if◌then◌else◌, ◌==◌, nat_eq,
}
use shadowd.Common.Text.{Text, bytes}
use shadowd.Tx.{Transaction, unsigned}

pub record External : Type 0 where
  -- the hex text of the SHAKE-256 hash of "SHADOW_1704067200_21000000_8"
  pub genesis_token_id : Text
  -- `json.Marshal` of a transaction, and of the pair that `ID` hashes; `none` is its error
  pub marshal_tx : Transaction → Option Text
  pub marshal_id : Text → Text → Option Text
  -- `blake2b.Sum256`
  pub blake2b : Text → Text
  -- `fmt.Sprintf("%x", …)`
  pub hex : Text → Text
  -- `mldsa87.PublicKeySize`, `UnmarshalBinary` (the key in a packed form) and `Verify`
  pub public_key_size : ℕ
  pub unmarshal_key : Text → Option Text
  pub mldsa_verify : Text → Text → Text → Bool

module _ (ext : External) where
  open ext use {marshal_tx, marshal_id, blake2b, hex, public_key_size, unmarshal_key, mldsa_verify}

  -- `Transaction.Hash`
  unfoldable pub tx_hash : Transaction → Option Text
  tx_hash t = elim (marshal_tx (unsigned t)) [ none ↦ none | some bs ↦ some (blake2b bs) ]

  id_text : Option Text → Option Text
  id_text none = none
  id_text (some bs) = some (hex (blake2b bs))

  -- `Transaction.ID`
  unfoldable pub tx_id : Transaction → Option Text
  unfolding id_text
  tx_id t = elim (tx_hash t) [ none ↦ none | some h ↦ id_text (marshal_id h t.signature) ]

  -- `txID, _ := tx.ID()`: the empty text where there was an error.
  unfoldable pub tx_id_or_empty : Transaction → Text
  tx_id_or_empty t = elim (tx_id t) [ none ↦ bytes "" | some i ↦ i ]

  -- `PublicKeyFromBytes`
  unfoldable pub public_key_from_bytes : Text → Option Text
  public_key_from_bytes bs = if length bs == public_key_size then unmarshal_key bs else none

  -- `VerifySignature`
  unfoldable pub verify_signature : Text → Text → Text → Bool
  verify_signature message signature key =
      if is_empty message || is_empty signature then false else mldsa_verify key message signature
