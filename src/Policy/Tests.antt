-- ===== src/Policy/Tests.antt =====
-- Decisions of two policies about a context with one property.
use pezhwan.Base.{ℕ, List, [], ◌∷◌, Option, none, some}
use pezhwan.Policy.{
  Conversions, Value, undefined, number, object, property, no_more, gt, Policy, allow, deny,
}

abbrev number_of : Value → Option ℕ
number_of (number n) = some n
number_of _ = none

abbrev js : Conversions
js = record { number_of = number_of; element = λ vs name. undefined }

-- `age`.
abbrev age : List ℕ
age = 97 ∷ 103 ∷ 101 ∷ []

abbrev adults : Policy
adults = record {
  id = some 1;
  effect = allow;
  rules = record { path = age ∷ []; op = gt; value = number 17 } ∷ [];
}

abbrev nobody : Policy
nobody = record { id = some 2; effect = deny; rules = [] }

abbrev context : Value
context = object (property age (number 20) no_more)
