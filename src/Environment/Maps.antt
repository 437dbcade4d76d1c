-- ===== src/Environment/Maps.antt =====
-- Environments as lists of names and values, in order: `lookup` and `set` of
-- src/customer_environment.rs, and the merge of src/supervisor.rs.
use liskov_runtime_cargo.Prelude.{
  ◌≡◌, refl, ◌∙◌, not, Option, none, some, List, [], ◌∷◌, ◌++◌, Bytes, bytes_eq, bytes_eq_iff,
  bytes_eq_refl, retain, if◌then◌else◌, arith,
}

abbrev pub Environment : Type 0
Environment = List (Bytes × Bytes)

unfoldable pub lookup : Environment → Bytes → Option Bytes
lookup [] name = none
lookup ((existing, value) ∷ env) name =
    if bytes_eq existing name then some value else lookup env name

-- The first entry of the name takes the value; without one, an entry is added at the end.
unfoldable pub set : Environment → Bytes → Bytes → Environment
set [] name value = (name, value) ∷ []
set ((existing, old) ∷ env) name value =
    if bytes_eq existing name then (existing, value) ∷ env else (existing, old) ∷ set env name value

-- `retain(|(existing, _)| existing != name)`.
unfoldable pub remove : Environment → Bytes → Environment
remove env name = retain (λ entry. not (bytes_eq entry.0 name)) env

unfoldable pub merge_runtime_environment : Environment → Environment → Environment
merge_runtime_environment env [] = env
merge_runtime_environment env ((name, value) ∷ runtime) =
    merge_runtime_environment (remove env name ++ (name, value) ∷ []) runtime

pub lookup-set :
    (env : Environment) (name value other : Bytes)
    → lookup (set env name value) other
      ≡ (if bytes_eq name other then some value else lookup env other)
unfolding lookup set
lookup-set [] name value other = refl
lookup-set ((existing, old) ∷ env) name value other = ground (
  arith,
  bytes_eq_iff existing name,
  bytes_eq_iff existing other,
  bytes_eq_iff name other,
  lookup-set env name value other,
)

pub lookup-remove :
    (env : Environment) (name other : Bytes)
    → lookup (remove env name) other ≡ (if bytes_eq name other then none else lookup env other)
unfolding lookup remove
lookup-remove [] name other = ground arith
lookup-remove ((existing, old) ∷ env) name other = ground (
  arith,
  bytes_eq_iff existing name,
  bytes_eq_iff existing other,
  bytes_eq_iff name other,
  lookup-remove env name other,
)

-- `or`: the first that is present.
abbrev pub or_else : Option Bytes → Option Bytes → Option Bytes
or_else none other = other
or_else (some v) other = some v

pub lookup-append :
    (env more : Environment) (name : Bytes)
    → lookup (env ++ more) name ≡ or_else (lookup env name) (lookup more name)
unfolding lookup
lookup-append [] more name = refl
lookup-append ((existing, value) ∷ env) more name = ground (arith, lookup-append env more name)

-- The signed entry of a name, the last one if there are several, as the merge leaves it.
unfoldable pub last_value : Environment → Bytes → Option Bytes
last_value [] name = none
last_value ((existing, value) ∷ env) name =
    or_else (last_value env name) (if bytes_eq existing name then some value else none)

-- After the merge a name has its signed value if there is one, and else its earlier value.
pub lookup-merge :
    (env runtime : Environment) (name : Bytes)
    → lookup (merge_runtime_environment env runtime) name
      ≡ or_else (last_value runtime name) (lookup env name)
unfolding merge_runtime_environment last_value lookup
lookup-merge env [] name = refl
lookup-merge env ((existing, value) ∷ runtime) name = ground (
  arith,
  lookup-merge (remove env existing ++ (existing, value) ∷ []) runtime name,
  lookup-append (remove env existing) ((existing, value) ∷ []) name,
  lookup-remove env existing name,
)

pub lookup-set_self :
    (env : Environment) (name value : Bytes) → lookup (set env name value) name ≡ some value
lookup-set_self env name value = lookup-set env name value name ∙ rw (bytes_eq_refl name)

pub lookup-remove_self : (env : Environment) (name : Bytes) → lookup (remove env name) name ≡ none
lookup-remove_self env name = lookup-remove env name name ∙ rw (bytes_eq_refl name)
