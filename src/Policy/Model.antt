-- ===== src/Policy/Model.antt =====
-- The values, policies and comparisons of
-- packages/core/src/services/authorization/policy-engine.ts.
use pezhwan.Base.{
  ℕ, Bool, true, false, not, ◌&&◌, ◌||◌, List, [], ◌∷◌, Option, some, ◌==◌, if◌then◌else◌,
}

-- A JavaScript value. An object is the list of its properties, an array that of its elements.
mutual
  pub data Value : Type 0 where
    undefined null : Value
    boolean : Bool → Value
    number : ℕ → Value
    text : List ℕ → Value
    array : Values → Value
    object : Properties → Value

  pub data Values : Type 0 where
    empty : Values
    item : Value → Values → Values

  pub data Properties : Type 0 where
    no_more : Properties
    property : List ℕ → Value → Properties → Properties

pub data Operator : Type 0 where
  eq ne in' not_in gt gte lt lte exists' match' : Operator

pub data Effect : Type 0 where
  allow deny : Effect

-- A path is split at its dots. The field `args` of the source is read nowhere and left out.
pub record Rule : Type 0 where
  pub path : List (List ℕ)
  pub op : Operator
  pub value : Value

pub record Policy : Type 0 where
  pub id : Option ℕ
  pub effect : Effect
  pub rules : List Rule

-- A reason is the effect and the id that it is written with.
pub record Decision : Type 0 where
  pub policy_id : Option ℕ
  pub allowed : Bool
  pub reasons : List (Effect × Option ℕ)

-- The two conversions of the language: `Number(e)`, where `none` is NaN, and the property of an array
-- under a name.
pub record Conversions : Type 0 where
  pub number_of : Value → Option ℕ
  pub element : Values → List ℕ → Value

abbrev pub same_text : List ℕ → List ℕ → Bool
same_text [] [] = true
same_text (a ∷ s) (b ∷ t) = a == b && same_text s t
same_text _ _ = false

abbrev pub same_bool : Bool → Bool → Bool
same_bool true b = b
same_bool false b = not b

-- `===`: arrays and objects are compared by identity, and those of a policy are not the context's.
abbrev pub strict_eq : Value → Value → Bool
strict_eq undefined undefined = true
strict_eq null null = true
strict_eq (boolean a) (boolean b) = same_bool a b
strict_eq (number a) (number b) = a == b
strict_eq (text a) (text b) = same_text a b
strict_eq _ _ = false

abbrev pub some_item : (Value → Bool) → Values → Bool
some_item p empty = false
some_item p (item v more) = p v || some_item p more

abbrev pub starts_with : List ℕ → List ℕ → Bool
starts_with [] s = true
starts_with (b ∷ t) [] = false
starts_with (b ∷ t) (a ∷ s) = b == a && starts_with t s

-- `a.includes(e)` of texts.
abbrev pub text_includes : List ℕ → List ℕ → Bool
text_includes [] e = starts_with e []
text_includes (a ∷ s) e = starts_with e (a ∷ s) || text_includes s e

abbrev pub property_of : Properties → List ℕ → Value
property_of no_more name = undefined
property_of (property key v more) name = if same_text key name then v else property_of more name

abbrev pub compared : (ℕ → ℕ → Bool) → Value → Option ℕ → Bool
compared p (number a) (some e) = p a e
compared p _ _ = false
