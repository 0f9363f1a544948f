-- ===== src/Consensus/Proofs.antt =====
-- The best proof that lib/consensus.go keeps for a height.
use shadowd.Common.{
  ℕ, zero, suc, get_elem?, ◌≡◌, ◌≤◌, ◌⊎◌, inl, inr, refl, sym, Bool, true, Bool-cases, Option, none,
  some, Option-cases, List, [], ◌∷◌, arith, ◌==◌, ◌&&◌, nat_eq, ltb,
}
use mathlib.Core.Path.{subst}
use shadowd.Common.Text.{text_eq}
use shadowd.Common.Dict.{lookup, lookup-insert}
use shadowd.Common.Result.{ok, Result-cases}
use shadowd.Common.State.{then-ok, then-err}
use shadowd.Chain.{ProofOfSpace}
use shadowd.Chain.Ledger.{get_height}
use shadowd.Farming.{validate_proof_of_space}
use shadowd.Consensus.Engine.{EngineEnv, Engine, ProofSubmission}
use shadowd.Consensus.Proposal.{
  in_window, rank_proof, store_proof, check_proof, handle_proof_submission, listen_for_proofs,
}

module _ {e : EngineEnv} where
  -- the best proof for a height is at most so far
  abbrev pub BestWithin : ℕ → ℕ → Engine e → Type 0
  BestWithin height distance s =
      (q : ProofSubmission) × (proof : ProofOfSpace) × (lookup height s.best_proofs ≡ some q)
      × (q.proof ≡ some proof)
      × (proof.distance ≤ distance)

  -- what a proof that passed the checks does: it takes its place, or a best proof is within it
  Ranked : ProofSubmission → ℕ → Engine e → Engine e → Type 0
  Ranked p distance s s' =
      ((s' ≡ store_proof p s)
        × ((q : ProofSubmission) (proof : ProofOfSpace)
            → lookup p.block_height s.best_proofs ≡ some q
            → q.proof ≡ some proof
            → distance ≤ proof.distance))
      ⊎ ((s' ≡ s) × BestWithin p.block_height distance s)

  rank_proof-Ranked :
      (p : ProofSubmission) (distance : ℕ) (s : Engine e)
      → (rank_proof p distance s).0 ≡ ok tt
      → Ranked p distance s (rank_proof p distance s).1
  unfolding Ranked
  rank_proof-Ranked p distance s h = elim (Option-cases (lookup p.block_height s.best_proofs)) [
    | inl e' ↦ inl (ground arith, λ q proof e'' _. absurd (ground arith))
    | inr (q, e') ↦ elim (Option-cases q.proof) [
      | inl e'' ↦ absurd (ground arith)
      | inr (proof, e'') ↦ elim (Bool-cases (ltb distance proof.distance)) [
        | inl less ↦ inl (ground arith, λ q' proof' f f'. ground arith)
        | inr more ↦ inr (ground arith, (q, proof, e', e'', ground arith))
      ]
    ]
  ]

  handle-ledger :
      (p : Option ProofSubmission) (s : Engine e)
      → (handle_proof_submission p s).1.ledger ≡ s.ledger
  unfolding handle_proof_submission check_proof
  handle-ledger none s = refl
  handle-ledger (some p) s = elim (Option-cases p.proof) [
    | inl h ↦ ground arith
    | inr (proof, h) ↦ ground arith
  ]

  -- the two checks of a submission's proof
  abbrev passes : ProofSubmission → ProofOfSpace → Engine e → Bool
  passes p proof s =
      validate_proof_of_space e.chain.env.ext e.plot proof
      && in_window (get_height s.ledger) p.block_height

  passed :
      (p : ProofSubmission) (proof : ProofOfSpace) (s : Engine e)
      → p.proof ≡ some proof
      → passes p proof s ≡ true
      → handle_proof_submission (some p) s ≡ rank_proof p proof.distance s
  unfolding handle_proof_submission check_proof
  passed p proof s h good = ground arith

  passed-Ranked :
      (p : ProofSubmission) (proof : ProofOfSpace) (s : Engine e)
      → p.proof ≡ some proof
      → passes p proof s ≡ true
      → (handle_proof_submission (some p) s).0 ≡ ok tt
      → Ranked p proof.distance s (handle_proof_submission (some p) s).1
  passed-Ranked p proof s h good done =
      let same : handle_proof_submission (some p) s ≡ rank_proof p proof.distance s =
        passed p proof s h good in
      subst (λ r. Ranked p proof.distance s r.1) (sym same)
        (rank_proof-Ranked p proof.distance s (subst (λ r. r.0 ≡ ok tt) same done))

  -- `handleProofSubmission` without a panic: nothing, or the ranking of a valid proof
  handle-cases :
      (p : ProofSubmission) (s : Engine e)
      → (handle_proof_submission (some p) s).0 ≡ ok tt
      → ((handle_proof_submission (some p) s).1 ≡ s)
        ⊎ ((proof : ProofOfSpace) × (p.proof ≡ some proof)
            × Ranked p proof.distance s (handle_proof_submission (some p) s).1)
  unfolding handle_proof_submission check_proof
  handle-cases p s h = elim (Option-cases p.proof) [
    | inl h' ↦ inl (ground arith)
    | inr (proof, h') ↦ elim (Bool-cases (passes p proof s)) [
      | inl good ↦ inr (proof, h', passed-Ranked p proof s h' good h)
      | inr bad ↦ inl (ground arith)
    ]
  ]

  Ranked-BestWithin :
      (p : ProofSubmission) (proof : ProofOfSpace) (s s' : Engine e)
      → p.proof ≡ some proof
      → Ranked p proof.distance s s'
      → BestWithin p.block_height proof.distance s'
  unfolding Ranked
  Ranked-BestWithin p proof s s' h (inl (same, least)) = (
    p,
    proof,
    ground (arith, lookup-insert p.block_height p.block_height p s.best_proofs),
    h,
    omega arith,
  )
  Ranked-BestWithin p proof s s' h (inr (same, best)) = rw same best

  Ranked-keeps :
      (p : ProofSubmission) (proof : ProofOfSpace) (height distance : ℕ) (s s' : Engine e)
      → p.proof ≡ some proof
      → Ranked p proof.distance s s'
      → BestWithin height distance s
      → BestWithin height distance s'
  unfolding Ranked
  Ranked-keeps p proof height distance s s' h (inr (same, _)) best = rw same best
  Ranked-keeps p proof height distance s s' h (inl (same, least)) (q, proof', found, e', le) =
      elim (Bool-cases (p.block_height == height)) [
        | inl at ↦ (
          p,
          proof,
          ground (arith, lookup-insert p.block_height height p s.best_proofs),
          h,
          ground (arith, least q proof'),
        )
        | inr away ↦
            (q, proof', ground (arith, lookup-insert p.block_height height p s.best_proofs), e', le)
      ]

  best_none :
      (height distance : ℕ) (s : Engine e)
      → BestWithin height distance s
      → BestWithin height distance (handle_proof_submission none s).1
  unfolding handle_proof_submission
  best_none height distance s best = best

  handle-keeps :
      (p : Option ProofSubmission) (height distance : ℕ) (s : Engine e)
      → (handle_proof_submission p s).0 ≡ ok tt
      → BestWithin height distance s
      → BestWithin height distance (handle_proof_submission p s).1
  handle-keeps none height distance s h best = best_none height distance s best
  handle-keeps (some p) height distance s h best = elim (handle-cases p s h) [
    | inl same ↦ subst (BestWithin height distance) (sym same) best
    | inr (proof, h', r) ↦ Ranked-keeps p proof height distance s _ h' r best
  ]

  -- the two halves of the loop on one submission
  listen-step :
      (p : Option ProofSubmission) (ps : List (Option ProofSubmission)) (s : Engine e)
      → (listen_for_proofs (p ∷ ps) s).0 ≡ ok tt
      → ((handle_proof_submission p s).0 ≡ ok tt)
        × (listen_for_proofs (p ∷ ps) s ≡ listen_for_proofs ps (handle_proof_submission p s).1)
  unfolding listen_for_proofs
  listen-step p ps s h = elim (Result-cases (handle_proof_submission p s).0) [
    | inl (_, done) ↦ (done, then-ok (handle_proof_submission p) (listen_for_proofs ps) s done)
    | inr (x, failed) ↦
        absurd
          (ground (arith, then-err (handle_proof_submission p) (listen_for_proofs ps) s failed))
  ]

  listen-keeps :
      (ps : List (Option ProofSubmission)) (height distance : ℕ) (s : Engine e)
      → (listen_for_proofs ps s).0 ≡ ok tt
      → BestWithin height distance s
      → BestWithin height distance (listen_for_proofs ps s).1
  unfolding listen_for_proofs
  listen-keeps [] height distance s h best = best
  listen-keeps (p ∷ ps) height distance s h best =
      let (done, same) = listen-step p ps s h in
      subst (λ r. BestWithin height distance r.1) (sym same)
        (listen-keeps ps height distance (handle_proof_submission p s).1
          (subst (λ r. r.0 ≡ ok tt) same h) (handle-keeps p height distance s done best))

-- After the submissions that arrive one after another, none of which panics, the proof that is kept for
-- a height is no farther from its challenge than any valid proof among them for this height, where
-- the height is the one of the next proposal or one of the two behind it.
pub listen_for_proofs-BestWithin :
    {e : EngineEnv} (ps : List (Option ProofSubmission)) (n : ℕ) (p : ProofSubmission)
    (proof : ProofOfSpace) (s : Engine e)
    → (listen_for_proofs ps s).0 ≡ ok tt
    → get_elem? ps n ≡ some (some p)
    → p.proof ≡ some proof
    → validate_proof_of_space e.chain.env.ext e.plot proof ≡ true
    → in_window (get_height s.ledger) p.block_height ≡ true
    → BestWithin p.block_height proof.distance (listen_for_proofs ps s).1
listen_for_proofs-BestWithin [] n p proof s h at e' valid near = absurd (ground arith)
listen_for_proofs-BestWithin (q ∷ ps) zero p proof s h at e' valid near =
    let here : q ≡ some p = ground arith in
    let (done, same) = listen-step q ps s h in
    let s' : Engine _ = (handle_proof_submission q s).1 in
    let first : BestWithin p.block_height proof.distance s' =
      subst (λ o. BestWithin p.block_height proof.distance (handle_proof_submission o s).1)
        (sym here)
        (Ranked-BestWithin p proof s _ e' (
          passed-Ranked p proof s e' (ground arith)
            (subst (λ o. (handle_proof_submission o s).0 ≡ ok tt) here done))) in
    subst (λ r. BestWithin p.block_height proof.distance r.1) (sym same)
      (listen-keeps ps p.block_height proof.distance s' (subst (λ r. r.0 ≡ ok tt) same h) first)
listen_for_proofs-BestWithin (q ∷ ps) (suc n) p proof s h at e' valid near =
    let (done, same) = listen-step q ps s h in
    let s' : Engine _ = (handle_proof_submission q s).1 in
    subst (λ r. BestWithin p.block_height proof.distance r.1) (sym same)
      (listen_for_proofs-BestWithin ps n p proof s' (subst (λ r. r.0 ≡ ok tt) same h) at e' valid (
        subst (λ l. in_window (get_height l) p.block_height ≡ true) (sym (handle-ledger q s)) near))
