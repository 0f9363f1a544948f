-- ===== src/Sync/Rounds.antt =====
-- The rounds of `SyncFromPeer` of lib/sync.go: that they end, and what they do to the chain.
use shadowd.Common.{
  ℕ, zero, suc, ◌+◌, ◌*◌, ◌≡◌, ◌≢◌, ◌<◌, refl, sym, ◌∙◌, Bool, true, false, Bool-cases, inl, inr,
  Option, none, some, List, [], ◌∷◌, arith, if◌then◌else◌, leb,
}
use mathlib.Core.Path.{subst}
use shadowd.Common.Word.{add64, sub64, u64_mod}
use shadowd.Common.Result.{Result, err, Result-cases}
use shadowd.Common.State.{pure, raise, gets, ◌>>=◌, ◌>>◌}
use shadowd.Chain.{Block}
use shadowd.Chain.Ledger.{ChainEnv, Ledger, get_height}
use shadowd.Chain.Linked.{IsLinked}
use shadowd.Chain.Reach.{add_block-IsLinked}
use shadowd.Chain.Apply.{add_block}
use mathlib.Core.List.{Memᴰ}
use shadowd.Sync.{
  SyncError, nil_block, request_failed, no_blocks, too_many_rounds, Op, Answers, add_new,
  add_blocks, apply_answer, sync_rounds, rounds, sync_to, sync_from_peer, block_batch_size,
  batch_end,
}

-- The ledgers that calls of `AddBlock`, with blocks of which something holds, lead to.
pub data Adds {c : ChainEnv} (Offered : Block → Type 0) (l : Ledger c) : Ledger c → Type 0 where
  none_yet : Adds Offered l l
  one_more :
      {m : Ledger c} (b : Block)
      → Offered b
      → Adds Offered l m
      → Adds Offered l (add_block false b m).1

Adds-trans :
    {c : ChainEnv} {Offered : Block → Type 0} {l m n : Ledger c}
    → Adds Offered l m
    → Adds Offered m n
    → Adds Offered l n
Adds-trans r none_yet = r
Adds-trans r (one_more b o s) = one_more b o (Adds-trans r s)

Adds-IsLinked :
    {c : ChainEnv} {Offered : Block → Type 0} {l m : Ledger c}
    → IsLinked l
    → Adds Offered l m
    → IsLinked m
Adds-IsLinked f none_yet = f
Adds-IsLinked f (one_more {m = m} b o s) = add_block-IsLinked false b m (Adds-IsLinked f s)

-- A block of an answer of the peer.
abbrev pub IsAnswered : Answers → Block → Type 0
IsAnswered answers b =
    (n : ℕ) × (start : ℕ) × (end : ℕ) × (bs : List (Option Block)) × (answers n start end ≡ some bs)
    × Memᴰ (some b) bs

same_error :
    {A B : Type 0} {x y : SyncError}
    → ◌≡◌ {A = Result SyncError B} (err x) (err y)
    → ◌≡◌ {A = Result SyncError A} (err x) (err y)
same_error h = ground arith

module _ {c : ChainEnv} (Offered : Block → Type 0) where
  -- a step that does not run out of fuel, and changes the ledger by calls of `AddBlock` alone
  record Orderly {A : Type 0} (op : Op c A) : Type 0 where
    ends : (l : Ledger c) → (op l).0 ≢ err too_many_rounds
    reaches : (l : Ledger c) → Adds Offered l (op l).1

  bind-Orderly :
      {A B : Type 0} {m : Op c A} {f : A → Op c B}
      → Orderly m
      → ((a : A) → Orderly (f a))
      → Orderly (m >>= f)
  bind-Orderly {m = m} {f = f} om of = record {
    ends = λ l. elim (Result-cases (m l).0) [
      | inl (a, e) ↦ rw (e, ◌>>=◌) ((of a).ends (m l).1)
      | inr (x, e) ↦ rw (e, ◌>>=◌) (λ h. om.ends l (e ∙ same_error h))
    ];
    reaches = λ l. elim (Result-cases (m l).0) [
      | inl (a, e) ↦ rw (e, ◌>>=◌) (Adds-trans (om.reaches l) ((of a).reaches (m l).1))
      | inr (x, e) ↦ rw (e, ◌>>=◌) (om.reaches l)
    ];
  }

  raise-Orderly : {A : Type 0} (x : SyncError) → x ≢ too_many_rounds → Orderly (raise {A = A} x)
  raise-Orderly x other = record { ends = λ l h. other (ground arith); reaches = λ l. none_yet }

  pure-Orderly : Orderly (pure tt)
  pure-Orderly = record { ends = λ l h. ground arith; reaches = λ l. none_yet }

  add_new-Orderly : (b : Block) → Offered b → Orderly (add_new {c = c} b)
  add_new-Orderly b offered = record {
    ends = λ l h. ground arith;
    reaches = λ l. one_more b offered none_yet;
  }

  if-Orderly :
      (test : Bool) {m n : Op c (Unit {0})}
      → Orderly m
      → Orderly n
      → Orderly (if test then m else n)
  if-Orderly true om on = om
  if-Orderly false om on = on

  height-Orderly : Orderly (gets (get_height {c = c}))
  height-Orderly = record { ends = λ l h. ground arith; reaches = λ l. none_yet }

  add_blocks-Orderly :
      (bs : List (Option Block))
      → ((b : Block) → Memᴰ (some b) bs → Offered b)
      → Orderly (add_blocks {c = c} bs)
  unfolding add_blocks
  add_blocks-Orderly [] all = pure-Orderly
  add_blocks-Orderly (none ∷ bs) all = raise-Orderly nil_block (λ h. ground arith)
  add_blocks-Orderly (some b ∷ bs) all = bind-Orderly height-Orderly (λ height.
      bind-Orderly
        (if-Orderly (leb b.index (sub64 height 1)) pure-Orderly
          (add_new-Orderly b (all b (Memᴰ.head refl))))
        (λ _. add_blocks-Orderly bs (λ d m. all d (Memᴰ.tail m))))

  apply_answer-Orderly :
      (answer : Option (List (Option Block)))
      → ((bs : List (Option Block)) (b : Block) → answer ≡ some bs → Memᴰ (some b) bs → Offered b)
      → Orderly (apply_answer {c = c} answer)
  apply_answer-Orderly none all = raise-Orderly request_failed (λ h. ground arith)
  apply_answer-Orderly (some []) all = raise-Orderly no_blocks (λ h. ground arith)
  apply_answer-Orderly (some (b ∷ bs)) all = record {
    ends = (add_blocks-Orderly (b ∷ bs) (λ d. all (b ∷ bs) d refl)).ends;
    reaches = (add_blocks-Orderly (b ∷ bs) (λ d. all (b ∷ bs) d refl)).reaches;
  }

module _ {c : ChainEnv} (answers : Answers) where
  rounds_done :
      (fuel n start peer : ℕ)
      → leb start peer ≡ false
      → sync_rounds {c = c} answers fuel n start peer ≡ pure tt
  unfolding sync_rounds
  rounds_done zero n start peer h = rw h refl
  rounds_done (suc fuel) n start peer h = rw h refl

  rounds_more :
      (fuel n start peer : ℕ)
      → leb start peer ≡ true
      → sync_rounds {c = c} answers (suc fuel) n start peer ≡ (
          apply_answer (answers n start (batch_end start peer))
          >> sync_rounds answers fuel (n + 1) (add64 start block_batch_size) peer)
  unfolding sync_rounds
  rounds_more fuel n start peer h = rw h refl

  sync_rounds-Orderly :
      (fuel n start peer : ℕ)
      → peer + 100 < u64_mod
      → peer < start + 100 * fuel
      → Orderly (IsAnswered answers) (sync_rounds {c = c} answers fuel n start peer)
  sync_rounds-Orderly zero n start peer small enough =
      subst (Orderly (IsAnswered answers)) (sym (rounds_done zero n start peer (ground arith)))
        (pure-Orderly (IsAnswered answers))
  sync_rounds-Orderly (suc fuel) n start peer small enough = elim (Bool-cases (leb start peer)) [
    | inr done ↦
        subst (Orderly (IsAnswered answers)) (sym (rounds_done (suc fuel) n start peer done))
          (pure-Orderly (IsAnswered answers))
    | inl more ↦
        let step : add64 start block_batch_size ≡ start + 100 = ground arith in
        subst (Orderly (IsAnswered answers)) (sym (rounds_more fuel n start peer more)) (
          bind-Orderly (IsAnswered answers)
            (apply_answer-Orderly (IsAnswered answers) (answers n start (batch_end start peer))
              (λ bs b e m. (n, start, batch_end start peer, bs, e, m)))
            (λ _.
              sync_rounds-Orderly fuel (n + 1) (add64 start block_batch_size) peer small
                (omega (arith, step))))
  ]

  sync_to-Orderly :
      (peer : ℕ)
      → peer + 100 < u64_mod
      → Orderly (IsAnswered answers) (sync_to {c = c} answers peer)
  unfolding sync_to
  sync_to-Orderly peer small =
      bind-Orderly (IsAnswered answers) (height-Orderly (IsAnswered answers)) (λ height.
        if-Orderly (IsAnswered answers) (leb peer (sub64 height 1))
          (pure-Orderly (IsAnswered answers))
          (sync_rounds-Orderly (rounds (add64 (sub64 height 1) 1) peer) 0 (add64 (sub64 height 1) 1)
            peer small (omega arith)))

-- `SyncFromPeer` ends, whatever blocks the peer returns: the requests that the model allows, one for each
-- hundred heights between the two and one more, are enough, where the height that the peer reports
-- is more than a hundred below 2 ^ 64 and the chain is linked. The ledger that it leaves is the one that
-- calls of `AddBlock`, with blocks that the peer returned, and nothing else make of the one before, and
-- its chain stays linked.
pub sync_from_peer-ends :
    {c : ChainEnv} (peer : ℕ) (answers : Answers) (l : Ledger c)
    → peer + 100 < u64_mod
    → IsLinked l
    → ((sync_from_peer (some peer) answers l).0 ≢ err too_many_rounds)
      × Adds (IsAnswered answers) l (sync_from_peer (some peer) answers l).1
      × IsLinked (sync_from_peer (some peer) answers l).1
unfolding sync_from_peer
sync_from_peer-ends peer answers l small f =
    let r : Adds (IsAnswered answers) l (sync_to answers peer l).1 =
      (sync_to-Orderly answers peer small).reaches l in
    ((sync_to-Orderly answers peer small).ends l, r, Adds-IsLinked f r)
