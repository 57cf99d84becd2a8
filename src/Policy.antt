-- ===== src/Policy.antt =====
-- packages/core/src/services/authorization/policy-engine.ts and abac.service.ts: policies as data,
-- evaluated against a context. A text is the list of its character codes; numbers are natural.
mod Model
pub mod Decisions
mod Tests
pub use Model.*
use pezhwan.Base.{
  ℕ, zero, suc, ◌≡◌, Bool, true, false, not, ◌&&◌, ◌||◌, List, [], ◌∷◌, ◌++◌, Option, none, some,
  ◌==◌, ltb, leb, if◌then◌else◌, any, all,
}

module _ (js : Conversions) where
  pub operate : Operator → Value → Value → Bool
  operate eq a e = strict_eq a e
  operate ne a e = not (strict_eq a e)
  operate in' a (array es) = some_item (λ x. strict_eq x a) es
  operate in' a _ = false
  operate not_in a (array es) = not (some_item (λ x. strict_eq x a) es)
  operate not_in a _ = false
  operate gt a e = compared (λ x y. ltb y x) a (js.number_of e)
  operate gte a e = compared (λ x y. leb y x) a (js.number_of e)
  operate lt a e = compared ltb a (js.number_of e)
  operate lte a e = compared leb a (js.number_of e)
  operate exists' undefined e = false
  operate exists' null e = false
  operate exists' _ e = true
  operate match' (text a) (text e) = text_includes a e
  operate match' _ _ = false

  abbrev pub step_into : Value → List ℕ → Value
  step_into (object ps) segment = property_of ps segment
  step_into (array vs) segment = js.element vs segment
  step_into _ segment = undefined

  pub resolve_path : Value → List (List ℕ) → Value
  resolve_path current [] = current
  resolve_path current (segment ∷ segments) = resolve_path (step_into current segment) segments

  pub matches : Value → Policy → Bool
  matches context policy =
      all (λ rule. operate rule.op (resolve_path context rule.path) rule.value) policy.rules

  abbrev pub decided : Policy → Decision
  decided policy = record {
    policy_id = policy.id;
    allowed = elim policy.effect [ allow ↦ true | deny ↦ false ];
    reasons = (policy.effect, policy.id) ∷ [];
  }

  abbrev pub undecided : Decision
  undecided = record { policy_id = none; allowed = false; reasons = [] }

  pub evaluate : List Policy → Value → Decision
  evaluate [] context = undecided
  evaluate (policy ∷ policies) context =
      let rest = evaluate policies context in
      if matches context policy then decided policy else rest

pub add : Policy → List Policy → List Policy
add policy policies = policies ++ policy ∷ []

-- The input of the ABAC service; the names of the context's properties are those of the source.
pub record AbacContext : Type 0 where
  pub user_id : List ℕ
  pub tenant_id : List ℕ
  pub application_id : List ℕ
  pub resource : Value
  pub action : Value
  pub resource_id : Value
  pub attributes : Option Value

-- The character codes of `user`, `id`, `tenantId`, `tenant`, `application`, `request`,
-- `resourceId`, `resource`, `action` and `attributes`.
abbrev pub user_word : List ℕ
user_word = 117 ∷ 115 ∷ 101 ∷ 114 ∷ []

abbrev pub id_word : List ℕ
id_word = 105 ∷ 100 ∷ []

abbrev pub tenant_id_word : List ℕ
tenant_id_word = 116 ∷ 101 ∷ 110 ∷ 97 ∷ 110 ∷ 116 ∷ 73 ∷ 100 ∷ []

abbrev pub tenant_word : List ℕ
tenant_word = 116 ∷ 101 ∷ 110 ∷ 97 ∷ 110 ∷ 116 ∷ []

abbrev pub application_word : List ℕ
application_word = 97 ∷ 112 ∷ 112 ∷ 108 ∷ 105 ∷ 99 ∷ 97 ∷ 116 ∷ 105 ∷ 111 ∷ 110 ∷ []

abbrev pub request_word : List ℕ
request_word = 114 ∷ 101 ∷ 113 ∷ 117 ∷ 101 ∷ 115 ∷ 116 ∷ []

abbrev pub resource_id_word : List ℕ
resource_id_word = 114 ∷ 101 ∷ 115 ∷ 111 ∷ 117 ∷ 114 ∷ 99 ∷ 101 ∷ 73 ∷ 100 ∷ []

abbrev pub resource_word : List ℕ
resource_word = 114 ∷ 101 ∷ 115 ∷ 111 ∷ 117 ∷ 114 ∷ 99 ∷ 101 ∷ []

abbrev pub action_word : List ℕ
action_word = 97 ∷ 99 ∷ 116 ∷ 105 ∷ 111 ∷ 110 ∷ []

abbrev pub attributes_word : List ℕ
attributes_word = 97 ∷ 116 ∷ 116 ∷ 114 ∷ 105 ∷ 98 ∷ 117 ∷ 116 ∷ 101 ∷ 115 ∷ []

abbrev pub or_empty : Option Value → Value
or_empty none = object no_more
or_empty (some v) = v

pub context_from : AbacContext → Value
context_from input = object (
    property user_word
      (object (
        property id_word (text input.user_id)
          (property tenant_id_word (text input.tenant_id) no_more)))
      (property tenant_word (object (property id_word (text input.tenant_id) no_more)) (
        property application_word (object (property id_word (text input.application_id) no_more)) (
          property request_word
            (object (
              property resource_id_word input.resource_id (
                property resource_word input.resource (
                  property action_word input.action
                    (property attributes_word (or_empty input.attributes) no_more)))))
            no_more))))

-- `can` of the ABAC service.
pub abac_can : Conversions → List Policy → AbacContext → Bool
abac_can js policies input = (evaluate js policies (context_from input)).allowed
