-- ===== src/Chain.antt =====
-- The blocks of lib/chain.go and the proof of space of lib/farming.go that a block carries. A block's
-- hash is taken over the text of five of its fields.
pub mod Store
pub mod Ledger
pub mod Apply
pub mod Linked
pub mod Reach
pub mod Prune
pub mod Range
pub mod Propose
pub mod Open
use shadowd.Common.{
  ℕ, zero, suc, ◌+◌, ◌-◌, ◌/◌, ◌%◌, Option, List, [], ◌∷◌, ◌++◌, ltb, if◌then◌else◌,
}
use shadowd.Common.Text.{Text}
use shadowd.Common.Word.{u64_mod}
use shadowd.Tx.{Address, Transaction}

-- `ProofOfSpace`
pub record ProofOfSpace : Type 0 where
  pub challenge_hash : Text
  pub plot_hash : Text
  pub plot_public_key : Text
  pub plot_signature : Text
  pub distance : ℕ
  pub miner_public_key : Text
  pub miner_signature : Text

-- `Block`; the timestamp is an int64, as its bit pattern.
pub record Block : Type 0 where
  pub index : ℕ
  pub timestamp : ℕ
  pub transactions : List Text
  pub coinbase : Option Transaction
  pub previous_hash : Text
  pub hash : Text
  pub proposer : Text
  pub votes : List Text
  pub winning_proof : Option ProofOfSpace
  pub winner_address : Option Address

-- `%d` of a uint64, which has at most twenty digits, and of an int64
digits : ℕ → ℕ → Text → Text
digits zero n after = after
digits (suc fuel) n after =
    let front : Text = digits fuel (n / 10) ((b'0' + n % 10) ∷ after) in
    if ltb n 10 then (b'0' + n) ∷ after else front

unfoldable pub decimal : ℕ → Text
unfolding digits
decimal n = digits 20 n []

unfoldable pub signed_decimal : ℕ → Text
signed_decimal n = if ltb n 9223372036854775808 then decimal n else b'-' ∷ decimal (u64_mod - n)

-- `%v` of a slice of strings
spaced : List Text → Text
spaced [] = []
spaced (s ∷ ss) = b' ' ∷ s ++ spaced ss

unfoldable pub bracketed : List Text → Text
unfolding spaced
bracketed [] = b'[' ∷ b']' ∷ []
bracketed (s ∷ ss) = b'[' ∷ s ++ (spaced ss ++ b']' ∷ [])

-- the text that `calculateBlockHash` hashes
unfoldable pub block_record : Block → Text
block_record b =
    decimal b.index
    ++ (signed_decimal b.timestamp ++ (bracketed b.transactions ++ (b.previous_hash ++ b.proposer)))

-- `calculateBlockHash`, over the hexadecimal text of SHA-256
unfoldable pub block_hash : (Text → Text) → Block → Text
block_hash sha b = sha (block_record b)
