-- ===== src/Tools/Registry/Replace.antt =====
-- What a registry holds after `replace`.
use agent_ego.Base.{
  ◌≡◌, refl, ◌∙◌, not, ◌&&◌, List, [], ◌∷◌, Option, none, some, String, arith, str_eq, eq_iff,
  if◌then◌else◌, includes, Bool-cases, inl, inr,
}
use agent_ego.Base.Dict
use agent_ego.Base.Dict.{Dict, get-set, get-delete, get-keys-none}
use agent_ego.Tools.{AgentTool}
use agent_ego.Tools.Registry.{LiveToolRegistry, register_all, delete_others, replace}

-- The last tool of a list with a name.
pub last_named : String → List AgentTool → Option AgentTool
last_named name [] = none
last_named name (t ∷ ts) = elim (last_named name ts) [
  | some u ↦ some u
  | none ↦ if str_eq t.name name then some t else none
]

abbrev pub or_lookup {ℓ} : {A : Type ℓ} → Option A → Option A → Option A
or_lookup (some a) o = some a
or_lookup none o = o

get-register_all :
    (name : String) (ts : List AgentTool) (m : LiveToolRegistry)
    → Dict.get name (register_all ts m) ≡ or_lookup (last_named name ts) (Dict.get name m)
unfolding register_all last_named
get-register_all name [] m = refl
get-register_all name (t ∷ ts) m =
    ground (arith, get-register_all name ts (Dict.set t.name t m), get-set t.name name t m)

get-delete_others :
    (name : String) (preserve ks : List String) (m : LiveToolRegistry)
    → Dict.get name (delete_others preserve ks m)
      ≡ (if includes ks name && not (includes preserve name) then none else Dict.get name m)
unfolding delete_others
get-delete_others name preserve [] m = refl
get-delete_others name preserve (k ∷ ks) m = elim (Bool-cases (includes preserve k)) [
  | inl e ↦ rw e (ground (arith, eq_iff k name, get-delete_others name preserve ks m))
  | inr e ↦ rw e (
      ground (
        arith,
        eq_iff k name,
        get-delete k name m,
        get-delete_others name preserve ks (Dict.delete k m),
      ))
]

or_nothing : (o : Option AgentTool) → or_lookup o none ≡ o
or_nothing none = refl
or_nothing (some t) = refl

-- What `replace` is to leave under a name.
abbrev pub replaced :
    List AgentTool → Option (List String) → LiveToolRegistry → String → Option AgentTool
replaced next none m name = last_named name next
replaced next (some preserve) m name =
    or_lookup (last_named name next) (if includes preserve name then Dict.get name m else none)

-- After a replacement a name holds the last new tool of that name; failing one, what it held before
-- if the name is to be preserved, and nothing otherwise or when no names are to be preserved.
pub get-replace :
    (next : List AgentTool) (keep : Option (List String)) (m : LiveToolRegistry) (name : String)
    → Dict.get name (replace next keep m) ≡ replaced next keep m name
unfolding replace Dict.get
get-replace next none m name = get-register_all name next [] ∙ or_nothing (last_named name next)
get-replace next (some preserve) m name =
    get-register_all name next (delete_others preserve (Dict.keys m) m)
    ∙ ground (arith, get-delete_others name preserve (Dict.keys m) m, get-keys-none name m)
