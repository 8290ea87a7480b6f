-- ===== src/Base/Json.antt =====
-- JSON values, as `JSON.parse` makes them and as `unknown` stands for in the sources. Numbers are
-- natural numbers.
use Prim.Native.Nat.{ℕ}
use Prim.Native.String.{String}
use mathlib.Core.Path.{◌≡◌}
use mathlib.Core.Bool.{Bool, true, false}
use mathlib.Core.Option.{Option, none, some}
use mathlib.Core.List.{List, [], ◌∷◌}
use native.Mathlib.Omega.{arith}
use text.Mathlib.Text.{◌==◌ as str_eq}
use text.Mathlib.TextEquality.{eq_iff}
use agent_ego.Base.Tests.{if◌then◌else◌}

mutual
  pub data Fields : Type 0 where
    no_fields : Fields
    entry : (key : String) (value : Json) → Fields → Fields

  pub data Items : Type 0 where
    no_items : Items
    item : Json → Items → Items

  pub data Json : Type 0 where
    object : Fields → Json
    array : Items → Json
    json_text : String → Json
    json_number : ℕ → Json
    boolean : Bool → Json
    null : Json

abbrev pub items_of : Items → List Json
items_of no_items = []
items_of (item v vs) = v ∷ items_of vs

-- `value[key]` of an object; `none` is `undefined`.
unfoldable pub field : String → Fields → Option Json
field k no_fields = none
field k (entry j v ps) = if str_eq j k then some v else field k ps

-- `value[key]` of any value that is not null. Arrays and strings have no field of the names that the
-- sources ask for.
unfoldable pub member : String → Json → Option Json
member k (object ps) = field k ps
member k _ = none

-- `typeof value === 'string'`.
unfoldable pub as_string : Option Json → Option String
as_string (some (json_text s)) = some s
as_string _ = none

-- `!value || typeof value !== 'object'` is false: objects and arrays.
unfoldable pub is_object_type : Json → Bool
is_object_type (array _) = true
is_object_type (object _) = true
is_object_type _ = false

pub field_head : (k : String) (v : Json) (ps : Fields) → field k (entry k v ps) ≡ some v
unfolding field
field_head k v ps = ground (arith, eq_iff k k)

pub field_skip :
    (k j : String) (v : Json) (ps : Fields)
    → str_eq j k ≡ false
    → field k (entry j v ps) ≡ field k ps
unfolding field
field_skip k j v ps e = ground arith
