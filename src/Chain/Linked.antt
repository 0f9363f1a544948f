-- ===== src/Chain/Linked.antt =====
-- The links of the chain of lib/chain.go, under everything that changes its blocks.
use shadowd.Common.{
  ℕ, zero, suc, ◌+◌, ◌≡◌, ◌≢◌, refl, sym, ap, ◌∙◌, Bool, inl, inr, ◌⊎◌, some, Option-cases, List,
  [], ◌∷◌, ◌++◌, length, get_elem?, get_elem?-lt, ◌≤◌, arith, nat_eq,
}
use shadowd.Common.Text.{Text, bytes, text_eq, text_beq_iff}
use shadowd.Common.Word.{add64, u64_mod}
use shadowd.Common.Result.{Result, ok, err, Result-cases}
use shadowd.Common.State.{◌>>◌, then-ok, then-err}
use mathlib.Core.Path.{subst}
use shadowd.Chain.{Block, block_hash}
use shadowd.Chain.Ledger.{
  ChainEnv, Ledger, ChainError, chain_panic, last, latest_block, validate_block,
}
use shadowd.Chain.Apply.{apply_block, finish_block, add_block}
use shadowd.Chain.Apply.Frame.{apply_block-KeepsBlocks}

-- Blocks that follow one of a hash: the indices count up, each block names the hash of the one before
-- it, and its own hash is that of its contents.
abbrev pub Follows : (Text → Text) → ℕ → Text → List Block → Type 0
Follows sha i h [] = Unit
Follows sha i h (b ∷ bs) =
    (b.index ≡ i)
    × (b.previous_hash ≡ h)
    × (b.hash ≡ block_hash sha b)
    × Follows sha (add64 i 1) b.hash bs

-- a chain from a genesis block on
abbrev pub IsLinked : {c : ChainEnv} → Ledger c → Type 0
IsLinked {c = c} l = Follows c.sha 0 (bytes "0") l.blocks

-- a block that may be appended
abbrev pub Extends : (Text → Text) → Block → Block → Type 0
Extends sha prev b =
    (b.index ≡ add64 prev.index 1) × (b.previous_hash ≡ prev.hash) × (b.hash ≡ block_hash sha b)

pub append-Follows :
    (sha : Text → Text) (i : ℕ) (h : Text) (bs : List Block) (prev b : Block)
    → Follows sha i h bs
    → last bs ≡ some prev
    → Extends sha prev b
    → Follows sha i h (bs ++ (b ∷ []))
append-Follows sha i h [] prev b f e x = absurd (ground arith)
append-Follows sha i h (d ∷ []) prev b f e x = ground arith
append-Follows sha i h (d ∷ g ∷ bs) prev b (fi, fh, fx, f) e x =
    (fi, fh, fx, append-Follows sha (add64 i 1) d.hash (g ∷ bs) prev b f e x)

-- the position of a block is its index
pub Follows-index :
    (sha : Text → Text) (i n : ℕ) (h : Text) (bs : List Block) (b : Block)
    → Follows sha i h bs
    → i + length bs ≤ u64_mod
    → get_elem? bs n ≡ some b
    → b.index ≡ i + n
Follows-index sha i n h [] b f le e = absurd (ground arith)
Follows-index sha i zero h (d ∷ bs) b f le e = ground arith
Follows-index sha i (suc n) h (d ∷ bs) b (fi, fh, fx, f) le e =
    let small : add64 i 1 ≡ i + 1 = ground (arith, get_elem?-lt bs n e) in
    Follows-index sha (add64 i 1) n d.hash bs b f (omega (arith, small)) e ∙ omega (arith, small)

pub Follows-link :
    (sha : Text → Text) (i n : ℕ) (h : Text) (bs : List Block) (b : Block)
    → Follows sha i h bs
    → get_elem? bs n ≡ some b
    → (b.hash ≡ block_hash sha b)
      × ((d : Block) → get_elem? bs (suc n) ≡ some d → d.previous_hash ≡ b.hash)
Follows-link sha i n h [] b f e = absurd (ground arith)
Follows-link sha i zero h (d ∷ []) b (fi, fh, fx, f) e =
    (ground arith, λ g e'. absurd (ground arith))
Follows-link sha i zero h (d ∷ g ∷ bs) b (fi, fh, fx, (gi, gh, gx, f)) e =
    (ground arith, λ k e'. ground arith)
Follows-link sha i (suc n) h (d ∷ bs) b (fi, fh, fx, f) e =
    Follows-link sha (add64 i 1) n d.hash bs b f e

module _ {c : ChainEnv} where
  pub validate_block-same : (b : Block) (l : Ledger c) → (validate_block b l).1 ≡ l
  unfolding validate_block
  validate_block-same b l = elim (Option-cases (latest_block l)) [
    | inl e ↦ ground arith
    | inr (prev, e) ↦ ground arith
  ]

  pub validate_block-Extends :
      (b : Block) (l : Ledger c)
      → (validate_block b l).0 ≡ ok tt
      → (prev : Block) × (latest_block l ≡ some prev) × Extends c.sha prev b
  unfolding validate_block
  validate_block-Extends b l h = elim (Option-cases (latest_block l)) [
    | inl e ↦ absurd (ground arith)
    | inr (prev, e) ↦ (
      prev,
      e,
      ground
          (arith, text_beq_iff b.previous_hash prev.hash, text_beq_iff b.hash (block_hash c.sha b)),
    )
  ]

  finish_block-blocks :
      (pooled : Bool) (b : Block) (l : Ledger c)
      → (finish_block pooled b l).1.blocks ≡ l.blocks ++ (b ∷ [])
  unfolding finish_block
  finish_block-blocks pooled b l = ground arith

  -- `AddBlock` leaves the blocks as they are and fails, or appends a block that extends the last one;
  -- behind the append only a panic is left to fail with.
  abbrev pub Outcome : Block → Ledger c → Result ChainError (Unit {0}) × Ledger c → Type 0
  Outcome b l (r, l') =
      ((l'.blocks ≡ l.blocks) × (r ≢ ok tt))
      ⊎ (((prev : Block) × (latest_block l ≡ some prev) × Extends c.sha prev b)
          × (l'.blocks ≡ l.blocks ++ (b ∷ []))
          × ((r ≡ ok tt) ⊎ (r ≡ err chain_panic)))

  finish_block-result :
      (pooled : Bool) (b : Block) (l : Ledger c)
      → ((finish_block pooled b l).0 ≡ ok tt) ⊎ ((finish_block pooled b l).0 ≡ err chain_panic)
  unfolding finish_block
  finish_block-result pooled b l = ground arith

  accepted :
      (pooled : Bool) (b : Block) (l : Ledger c)
      → (validate_block b l).0 ≡ ok tt
      → add_block pooled b l ≡ (apply_block pooled b >> finish_block pooled b) l
  unfolding add_block
  accepted pooled b l h =
      then-ok (validate_block b) (apply_block pooled b >> finish_block pooled b) l h
      ∙ ap (apply_block pooled b >> finish_block pooled b) (validate_block-same b l)

  refused :
      (pooled : Bool) (b : Block) (l : Ledger c) (e : ChainError)
      → (validate_block b l).0 ≡ err e
      → add_block pooled b l ≡ (err e, l)
  unfolding add_block
  refused pooled b l e h =
      then-err (validate_block b) (apply_block pooled b >> finish_block pooled b) l h
      ∙ ap (λ l'. (err e, l')) (validate_block-same b l)

  applied-Outcome :
      (pooled : Bool) (b : Block) (l : Ledger c)
      → (prev : Block) × (latest_block l ≡ some prev) × Extends c.sha prev b
      → Outcome b l ((apply_block pooled b >> finish_block pooled b) l)
  applied-Outcome pooled b l x =
      let l' : Ledger c = (apply_block pooled b l).1 in
      let kept : l'.blocks ≡ l.blocks = (apply_block-KeepsBlocks pooled b).kept l in
      elim (Result-cases (apply_block pooled b l).0) [
        | inl (_, e) ↦
            subst (Outcome b l) (sym (then-ok (apply_block pooled b) (finish_block pooled b) l e)) (
              inr (
                x,
                finish_block-blocks pooled b l' ∙ ap (λ bs. bs ++ (b ∷ [])) kept,
                finish_block-result pooled b l',
              ))
        | inr (f, e) ↦
            subst (Outcome b l) (sym (then-err (apply_block pooled b) (finish_block pooled b) l e))
              (inl (kept, λ h. ground (arith, h)))
      ]

  pub add_block-Outcome :
      (pooled : Bool) (b : Block) (l : Ledger c) → Outcome b l (add_block pooled b l)
  add_block-Outcome pooled b l = elim (Result-cases (validate_block b l).0) [
    | inl (_, e) ↦
        subst (Outcome b l) (sym (accepted pooled b l e))
          (applied-Outcome pooled b l (validate_block-Extends b l e))
    | inr (f, e) ↦
        subst (Outcome b l) (sym (refused pooled b l f e)) (inl (refl, λ h. ground (arith, h)))
  ]
