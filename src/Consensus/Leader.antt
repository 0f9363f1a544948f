-- ===== src/Consensus/Leader.antt =====
-- The choice of the leader in lib/consensus.go.
use shadowd.Common.{
  ◌≡◌, ◌↔◌, ◌⊎◌, inl, inr, refl, sym, ◌∙◌, Bool, true, false, Bool-cases, List, [], ◌∷◌, any, arith,
  is_empty, ◌==◌, nat_eq, All,
}
use mathlib.Core.Path.{subst}
use shadowd.Common.Text.{Text, text_eq, text_beq_iff}
use shadowd.Consensus.Engine.{EngineEnv, Engine, text_ltb, lowest, elect_leader}

text_ltb_irrefl : (s : Text) → text_ltb s s ≡ false
unfolding text_ltb
text_ltb_irrefl [] = refl
text_ltb_irrefl (a ∷ s) = ground (arith, text_ltb_irrefl s)

text_ltb_trans : (s t u : Text) → text_ltb s t ≡ true → text_ltb t u ≡ true → text_ltb s u ≡ true
unfolding text_ltb
text_ltb_trans [] [] u h k = absurd (ground arith)
text_ltb_trans [] (b ∷ t) [] h k = absurd (ground arith)
text_ltb_trans [] (b ∷ t) (c ∷ u) h k = refl
text_ltb_trans (a ∷ s) [] u h k = absurd (ground arith)
text_ltb_trans (a ∷ s) (b ∷ t) [] h k = absurd (ground arith)
text_ltb_trans (a ∷ s) (b ∷ t) (c ∷ u) h k = ground (arith, text_ltb_trans s t u)

text_ltb-total : (s t : Text) → text_ltb s t ≡ false → text_ltb t s ≡ false → s ≡ t
unfolding text_ltb
text_ltb-total [] [] h k = refl
text_ltb-total [] (b ∷ t) h k = absurd (ground arith)
text_ltb-total (a ∷ s) [] h k = absurd (ground arith)
text_ltb-total (a ∷ s) (b ∷ t) h k = ground (arith, text_ltb-total s t)

-- not below anything below
text_ltb-le : (s t u : Text) → text_ltb t s ≡ false → text_ltb u t ≡ false → text_ltb u s ≡ false
text_ltb-le s t u h k = elim (Bool-cases (text_ltb s t)) [
  | inl lt ↦ elim (Bool-cases (text_ltb u s)) [
    | inl lt' ↦ absurd (ground (arith, text_ltb_trans u s t))
    | inr ge ↦ ge
  ]
  | inr ge ↦ let same : s ≡ t = text_ltb-total s t ge h in rw same k
]

-- the identifiers that a node compares
abbrev pub holds : Text → List Text → Bool
holds p ps = any (λ q. q == p) ps

-- the choice is one of the identifiers, or the first leader
lowest-holds :
    (leader : Text) (ps : List Text)
    → (lowest leader ps ≡ leader) ⊎ (holds (lowest leader ps) ps ≡ true)
unfolding lowest
lowest-holds leader [] = inl refl
lowest-holds leader (p ∷ ps) =
    ground (arith, lowest-holds p ps, lowest-holds leader ps, text_beq_iff p (lowest p ps))

lowest-least :
    (leader : Text) (ps : List Text) (q : Text)
    → is_empty leader ≡ false
    → All (λ p. is_empty p ≡ false) ps
    → (text_ltb leader (lowest leader ps) ≡ false)
      × (holds q ps ≡ true → text_ltb q (lowest leader ps) ≡ false)
unfolding lowest
lowest-least leader [] q ne all = (text_ltb_irrefl leader, λ h. absurd (ground arith))
lowest-least leader (p ∷ ps) q ne (np, all) = elim (Bool-cases (text_ltb p leader)) [
  | inl lt ↦
      ground
        (arith, lowest-least p ps q np all, text_ltb_trans p leader (lowest p ps), text_beq_iff p q)
  | inr ge ↦ ground (
    arith,
    lowest-least leader ps q ne all,
    text_ltb-le (lowest leader ps) leader p,
    text_beq_iff p q,
  )
]

first_leader : (p : Text) (ps : List Text) → lowest [] (p ∷ ps) ≡ lowest p ps
unfolding lowest
first_leader p ps = refl

-- no identifier of a list is below one
abbrev pub IsLowest : Text → List Text → Type 0
IsLowest id ps = All (λ q. text_ltb q id ≡ false) ps

All-holds :
    (id : Text) (ps : List Text) (q : Text)
    → IsLowest id ps
    → holds q ps ≡ true
    → text_ltb q id ≡ false
All-holds id [] q all h = absurd (ground arith)
All-holds id (p ∷ ps) q (low, all) h = ground (arith, All-holds id ps q all, text_beq_iff p q)

lowest-IsLowest :
    (leader : Text) (ps : List Text)
    → is_empty leader ≡ false
    → All (λ p. is_empty p ≡ false) ps
    → IsLowest leader ps
    → lowest leader ps ≡ leader
lowest-IsLowest leader ps ne all low = elim (lowest-holds leader ps) [
  | inl same ↦ same
  | inr h ↦
      text_ltb-total (lowest leader ps) leader (All-holds leader ps (lowest leader ps) low h)
        (lowest-least leader ps leader ne all).0
]

-- an identifier that the choice falls on is the lowest
least-IsLowest :
    (id : Text) (ps : List Text)
    → ((q : Text) → holds q ps ≡ true → text_ltb q id ≡ false)
    → IsLowest id ps
least-IsLowest id [] f = tt
least-IsLowest id (p ∷ ps) f =
    (f p (ground (arith, text_beq_iff p p)), least-IsLowest id ps (λ q h. f q (ground arith)))

-- A node takes itself for the leader exactly if no peer has a lower identifier, where the identifiers of
-- the node and of its peers are not empty.
pub elect_leader_iff :
    {e : EngineEnv} (peers : List Text) (s : Engine e)
    → is_empty s.node_id ≡ false
    → All (λ p. is_empty p ≡ false) peers
    → ((elect_leader peers s).is_leader ≡ true) ↔ IsLowest s.node_id peers
unfolding elect_leader
elect_leader_iff peers s ne all =
    let id : Text = s.node_id in
    let chosen : lowest [] (id ∷ peers) ≡ lowest id peers = first_leader id peers in
    (
      λ h.
          let same : lowest id peers ≡ id =
            sym chosen ∙ (text_beq_iff (lowest [] (id ∷ peers)) id).0 h in
          least-IsLowest id peers (λ q held.
            subst (λ x. text_ltb q x ≡ false) same ((lowest-least id peers q ne all).1 held)),
      λ low.
          (text_beq_iff (lowest [] (id ∷ peers)) id).1
            (chosen ∙ lowest-IsLowest id peers ne all low),
    )
