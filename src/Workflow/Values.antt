-- ===== src/Workflow/Values.antt =====
-- packages/workflow/src/engine.ts: variables and conditions. The stack of frames has the innermost
-- frame first. `===` on two objects or arrays compares references, which is the argument
-- `same_object`.
use agent_ego.Base.{
  ◌==◌, Bool, true, false, not, List, [], ◌∷◌, Option, none, some, String, str_eq, is_some,
  if◌then◌else◌,
}
use agent_ego.Base.Dict
use agent_ego.Base.Dict.{Dict, has}
use agent_ego.Base.Json.{
  Json, json_text, json_number, boolean, array, object, null, no_items, item, Fields, no_fields,
  entry, member, field, as_string,
}

abbrev pub Value : Type 0
Value = Option Json

abbrev pub Frame : Type 0
Frame = Dict Value

-- The first frame that has the name decides, also when the value in it is `undefined`.
unfoldable pub read_var : List Frame → String → Value
read_var [] name = none
read_var (frame ∷ frames) name = elim (Dict.get name frame) [
  | some value ↦ value
  | none ↦ read_var frames name
]

-- Into the innermost frame; with no frame at all the source throws, which never happens since the root
-- frame is never popped.
unfoldable pub write_top : String → Value → List Frame → List Frame
write_top name value [] = []
write_top name value (frame ∷ frames) = Dict.set name value frame ∷ frames

unfoldable pub resolve_value : Value → List Frame → Value
unfolding member as_string
resolve_value none scopes = none
resolve_value (some v) scopes = elim (as_string (member "$fromVar" v)) [
  | some name ↦ read_var scopes name
  | none ↦ some v
]

unfoldable pub resolve_args : List (String × Json) → List Frame → List (String × Value)
unfolding resolve_value
resolve_args [] scopes = []
resolve_args ((k, v) ∷ args) scopes = (k, resolve_value (some v) scopes) ∷ resolve_args args scopes

-- `Boolean(value)`.
abbrev pub truthy : Value → Bool
truthy none = false
truthy (some null) = false
truthy (some (boolean b)) = b
truthy (some (json_number n)) = not (n == 0)
truthy (some (json_text s)) = not (str_eq s "")
truthy (some _) = true

module _ (same_object : Json → Json → Bool) where
  -- `===`.
  abbrev identical : Value → Value → Bool
  identical none none = true
  identical (some null) (some null) = true
  identical (some (boolean true)) (some (boolean b)) = b
  identical (some (boolean false)) (some (boolean b)) = not b
  identical (some (json_number m)) (some (json_number n)) = m == n
  identical (some (json_text s)) (some (json_text t)) = str_eq s t
  identical (some (object a)) (some (object b)) = same_object (object a) (object b)
  identical (some (array a)) (some (array b)) = same_object (array a) (array b)
  identical _ _ = false

  -- `$equals` with two operands.
  abbrev equal_pair : Value → List Frame → Option Bool
  equal_pair (some (array (item a (item b no_items)))) scopes =
      some (identical (resolve_value (some a) scopes) (resolve_value (some b) scopes))
  equal_pair _ scopes = none

  abbrev exists_var : Option String → List Frame → Bool
  exists_var none scopes = false
  exists_var (some name) scopes = is_some (read_var scopes name)

  -- The tests on an object in their order; `negated` is the value of its `$not`.
  abbrev eval_object : Fields → Option Bool → List Frame → Bool
  eval_object fs negated scopes = elim (as_string (field "$var" fs)) [
    | some name ↦ truthy (read_var scopes name)
    | none ↦ elim (equal_pair (field "$equals" fs) scopes) [
      | some b ↦ b
      | none ↦ elim negated [
        | some b ↦ not b
        | none ↦ exists_var (as_string (field "$exists" fs)) scopes
      ]
    ]
  ]

  abbrev first_of : String → Bool → Option Bool → Option Bool
  first_of key here rest = if str_eq key "$not" then some here else rest

  unfoldable mutual
    pub eval_json : Json → List Frame → Bool
    eval_json (object fs) scopes = eval_object fs (eval_not fs scopes) scopes
    eval_json (array no_items) scopes = false
    eval_json (array (item _ _)) scopes = true
    eval_json null scopes = false
    eval_json (boolean b) scopes = b
    eval_json (json_number n) scopes = truthy (some (json_number n))
    eval_json (json_text s) scopes = truthy (some (json_text s))

    -- The value of the field `$not`, if there is one.
    pub eval_not : Fields → List Frame → Option Bool
    eval_not no_fields scopes = none
    eval_not (entry key v fs) scopes = first_of key (eval_json v scopes) (eval_not fs scopes)

  unfoldable pub eval_condition : Value → List Frame → Bool
  unfolding eval_json
  eval_condition none scopes = false
  eval_condition (some v) scopes = eval_json v scopes
