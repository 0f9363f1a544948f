-- ===== src/Chain/Propose.antt =====
-- `ProposeBlock` and `ValidateBlock` of lib/chain.go.
use shadowd.Common.{◌≡◌, refl, ap, ◌∙◌, Option, some, Option-cases, inl, inr, List, arith, nat_eq}
use shadowd.Common.Text.{Text, text_eq, text_beq_iff}
use shadowd.Common.Result.{ok}
use shadowd.Tx.{Address, Transaction}
use shadowd.Chain.{ProofOfSpace, Block, block_hash, block_record}
use shadowd.Chain.Ledger.{ChainEnv, Ledger, latest_block, validate_block, propose_block, new_block}

-- the validation reads none of these fields
validate_block-unhashed :
    {c : ChainEnv} (b : Block) (cb : Option Transaction) (votes : List Text)
    (proof : Option ProofOfSpace) (winner : Option Address) (l : Ledger c)
    → validate_block
        (record b { coinbase = cb; votes = votes; winning_proof = proof; winner_address = winner })
        l
      ≡ validate_block b l
unfolding validate_block block_hash block_record
validate_block-unhashed b cb votes proof winner l = refl

-- what `ProposeBlock` builds behind a block
abbrev proposed : ChainEnv → List Text → Text → Option Transaction → Block → Block
proposed c ids proposer cb prev =
    let draft : Block = new_block c.env.now prev ids proposer cb in
    record draft { hash = block_hash c.sha draft }

propose_block-proposed :
    {c : ChainEnv} (ids : List Text) (proposer : Text) (cb : Option Transaction) (l : Ledger c)
    (b : Block)
    → (propose_block ids proposer cb l).0 ≡ ok b
    → (prev : Block) × (latest_block l ≡ some prev)
      × (b ≡ proposed c ids proposer cb prev)
      × ((propose_block ids proposer cb l).1 ≡ l)
unfolding propose_block
propose_block-proposed ids proposer cb l b h = elim (Option-cases (latest_block l)) [
  | inl e ↦ absurd (ground arith)
  | inr (prev, e) ↦ (prev, e, ground arith, ground arith)
]

validate_block-proposed :
    {c : ChainEnv} (ids : List Text) (proposer : Text) (cb : Option Transaction) (l : Ledger c)
    (prev : Block)
    → latest_block l ≡ some prev
    → (validate_block (proposed c ids proposer cb prev) l).0 ≡ ok tt
unfolding validate_block block_hash block_record
validate_block-proposed {c = c} ids proposer cb l prev e = ground (
  arith,
  text_beq_iff prev.hash prev.hash,
  text_beq_iff (proposed c ids proposer cb prev).hash (proposed c ids proposer cb prev).hash,
)

-- A block that `ProposeBlock` returns is valid for the chain that it was proposed for, which it left
-- as it was, whatever coinbase, votes, winning proof and winner are put into it afterwards; and it
-- carries the transactions, the proposer and the coinbase that it was given.
pub propose_block-validate_block :
    {c : ChainEnv} (ids : List Text) (proposer : Text) (cb cb' : Option Transaction)
    (votes : List Text) (proof : Option ProofOfSpace) (winner : Option Address) (l : Ledger c)
    (b : Block)
    → (propose_block ids proposer cb l).0 ≡ ok b
    → ((propose_block ids proposer cb l).1 ≡ l)
      × ((validate_block
            (record b {
              coinbase = cb';
              votes = votes;
              winning_proof = proof;
              winner_address = winner;
            })
            l).0
          ≡ ok tt)
      × (b.transactions ≡ ids)
      × (b.proposer ≡ proposer)
      × (b.coinbase ≡ cb)
propose_block-validate_block ids proposer cb cb' votes proof winner l b h =
    let (prev, e, same, kept) = propose_block-proposed ids proposer cb l b h in
    let valid : (validate_block b l).0 ≡ ok tt =
      rw same (validate_block-proposed ids proposer cb l prev e) in
    (
      kept,
      ap (λ r. r.0) (validate_block-unhashed b cb' votes proof winner l) ∙ valid,
      ap (λ (d : Block). d.transactions) same,
      ap (λ (d : Block). d.proposer) same,
      ap (λ (d : Block). d.coinbase) same,
    )
