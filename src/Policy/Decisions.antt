-- ===== src/Policy/Decisions.antt =====
-- The order of the policies in packages/core/src/services/authorization/policy-engine.ts.
use pezhwan.Base.{
  ◌≡◌, refl, List, [], ◌∷◌, none, some, if◌then◌else◌, any, find, arith, Bool-cases, inl, inr,
}
use pezhwan.Policy.{Conversions, Policy, Value, evaluate, matches, decided, undecided, add}

module _ (js : Conversions) (context : Value) where
  -- The decision is that of the first policy whose rules all hold, and a refusal without reasons where
  -- there is none.
  evaluate-first :
      (policies : List Policy)
      → evaluate js policies context ≡ (elim (find (matches js context) policies) [
        | none ↦ undecided js
        | some policy ↦ decided js policy
      ])
  unfolding evaluate
  evaluate-first [] = refl
  evaluate-first (policy ∷ policies) =
      let rest = evaluate-first policies in
      elim (Bool-cases (matches js context policy)) [
        | inl hit ↦ ground arith
        | inr miss ↦ ground (arith, rest)
      ]

  -- A policy that is registered later never changes a decision that was made: it decides exactly the
  -- contexts that no policy before it matches.
  evaluate-add :
      (policies : List Policy) (policy : Policy)
      → evaluate js (add policy policies) context ≡ (
          if any (matches js context) policies
          then evaluate js policies context
          else evaluate js (policy ∷ []) context)
  unfolding evaluate add
  evaluate-add [] policy = refl
  evaluate-add (first ∷ policies) policy =
      let rest = evaluate-add policies policy in
      elim (Bool-cases (matches js context first)) [
        | inl hit ↦ ground arith
        | inr miss ↦ ground (arith, rest)
      ]
