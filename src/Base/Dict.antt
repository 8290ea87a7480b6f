-- ===== src/Base/Dict.antt =====
-- JavaScript's `Map` with string keys: the entries in insertion order. `set` on a key that is there
-- keeps its place.
use agent_ego.Base.Tests.{if◌then◌else◌, is_some}
use agent_ego.Base.Lists.{includes}
use Prim.Native.String.{String}
use mathlib.Core.Path.{◌≡◌, refl}
use mathlib.Core.Bool.{Bool, true, false, ◌||◌}
use mathlib.Core.Option.{Option, none, some}
use mathlib.Core.List.{List, [], ◌∷◌}
use native.Mathlib.Omega.{arith}
use text.Mathlib.Text.{◌==◌ as str_eq}
use text.Mathlib.TextEquality.{eq_iff}

abbrev pub Dict {ℓ} : Type ℓ → Type ℓ
Dict V = List (String × V)

module _ {ℓ} {V : Type ℓ} where
  unfoldable pub get : String → Dict V → Option V
  get k [] = none
  get k ((j, v) ∷ m) = if str_eq j k then some v else get k m

  unfoldable pub set : String → V → Dict V → Dict V
  set key value [] = (key, value) ∷ []
  set key value ((first, old) ∷ rest) =
      if str_eq first key then (first, value) ∷ rest else (first, old) ∷ set key value rest

  unfoldable pub delete : String → Dict V → Dict V
  delete k [] = []
  delete k ((j, w) ∷ m) = if str_eq j k then delete k m else (j, w) ∷ delete k m

  unfoldable pub keys : Dict V → List String
  keys [] = []
  keys ((j, w) ∷ m) = j ∷ keys m

  unfoldable pub values : Dict V → List V
  values [] = []
  values ((j, w) ∷ m) = w ∷ values m

  -- No key twice: what every `Map` satisfies.
  unfoldable pub Distinct : Dict V → Type 0
  unfolding keys
  Distinct [] = Unit
  Distinct ((j, w) ∷ m) = (includes (keys m) j ≡ false) × Distinct m

  pub get-set :
      (key asked : String) (value : V) (m : Dict V)
      → get asked (set key value m) ≡ (if str_eq key asked then some value else get asked m)
  unfolding get set
  get-set key asked value [] = refl
  get-set key asked value ((first, old) ∷ rest) =
      ground (
        arith,
        get-set key asked value rest,
        eq_iff first asked,
        eq_iff first key,
        eq_iff key asked,
      )

  pub get-delete :
      (k j : String) (m : Dict V) → get j (delete k m) ≡ (if str_eq k j then none else get j m)
  unfolding get delete
  get-delete k j [] = ground arith
  get-delete k j ((i, w) ∷ m) = ground (arith, eq_iff k j, eq_iff i k, eq_iff i j, get-delete k j m)

  pub get-keys-none : (k : String) (m : Dict V) → includes (keys m) k ≡ false → get k m ≡ none
  unfolding get keys
  get-keys-none k [] h = refl
  get-keys-none k ((j, w) ∷ m) h = ground (arith, get-keys-none k m)

  includes-keys-set :
      (i k : String) (v : V) (m : Dict V)
      → includes (keys (set k v m)) i ≡ (str_eq k i || includes (keys m) i)
  unfolding keys set
  includes-keys-set i k v [] = refl
  includes-keys-set i k v ((j, w) ∷ m) =
      ground (arith, eq_iff j k, eq_iff j i, eq_iff k i, includes-keys-set i k v m)

  includes-keys-delete :
      (i k : String) (m : Dict V)
      → includes (keys m) i ≡ false
      → includes (keys (delete k m)) i ≡ false
  unfolding keys delete
  includes-keys-delete i k [] h = refl
  includes-keys-delete i k ((j, w) ∷ m) h = ground (arith, includes-keys-delete i k m)

  pub set-Distinct : (k : String) (v : V) (m : Dict V) → Distinct m → Distinct (set k v m)
  unfolding set Distinct keys
  set-Distinct k v [] d = (refl, tt)
  set-Distinct k v ((j, w) ∷ m) d =
      ground (arith, set-Distinct k v m d.1, includes-keys-set j k v m, eq_iff k j, eq_iff j k)

  pub delete-Distinct : (k : String) (m : Dict V) → Distinct m → Distinct (delete k m)
  unfolding delete Distinct
  delete-Distinct k [] d = tt
  delete-Distinct k ((j, w) ∷ m) d =
      ground (arith, delete-Distinct k m d.1, includes-keys-delete j k m d.0)

-- `map.has(k)`.
unfoldable pub has {ℓ} : {V : Type ℓ} → String → Dict V → Bool
unfolding get
has k m = is_some (get k m)

pub str_eq_refl : (s : String) → str_eq s s ≡ true
str_eq_refl s = (eq_iff s s).1 refl
