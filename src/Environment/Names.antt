-- ===== src/Environment/Names.antt =====
-- src/env_names.rs: the names that the helper owns.
use liskov_runtime_cargo.Prelude.{
  ◌≡◌, refl, Bool, Option, none, some, List, [], ◌∷◌, Bytes, codes, any, bytes_eq, arith,
  Option-cases, inl, inr, All, ap, ◌++◌,
}

abbrev pub bootstrap_env : Bytes
bootstrap_env = codes "LISKOV_BOOTSTRAP"

abbrev pub legacy_bootstrap_env : Bytes
legacy_bootstrap_env = codes "PROOF_SLIPWAY_BOOTSTRAP"

abbrev pub bootstrap_env_names : List Bytes
bootstrap_env_names = bootstrap_env ∷ []

abbrev pub reserved_bootstrap_env_names : List Bytes
reserved_bootstrap_env_names = bootstrap_env ∷ legacy_bootstrap_env ∷ []

abbrev pub lockbox_bootstrap_env : Bytes
lockbox_bootstrap_env = codes "LISKOV_LOCKBOX_BOOTSTRAP"

abbrev pub lockbox_bootstrap_env_names : List Bytes
lockbox_bootstrap_env_names = lockbox_bootstrap_env ∷ []

abbrev pub supervision_canary_env : Bytes
supervision_canary_env = codes "LISKOV_CARGO_SUPERVISION_CANARY_JSON"

abbrev pub runtime_ssh_credential_env : Bytes
runtime_ssh_credential_env = codes "LISKOV_RUNTIME_SSH_CREDENTIAL_V1"

abbrev pub protected_env_names : List Bytes
protected_env_names =
    bootstrap_env ∷ legacy_bootstrap_env ∷ supervision_canary_env ∷ runtime_ssh_credential_env ∷ []

unfoldable pub contains : List Bytes → Bytes → Bool
contains names name = any (λ n. bytes_eq n name) names

-- The first value present; an empty value is present.
unfoldable pub first_present : List Bytes → (Bytes → Option Bytes) → Option Bytes
first_present [] lookup = none
first_present (name ∷ names) lookup = elim (lookup name) [
  | some value ↦ some value
  | none ↦ first_present names lookup
]

-- The value that is taken is that of the first name that has one: every name before it has none.
pub first_present_lem :
    (names : List Bytes) (lookup : Bytes → Option Bytes) (value : Bytes)
    → first_present names lookup ≡ some value
    → (before : List Bytes) × (name : Bytes) × (after : List Bytes) × (names
        ≡ before ++ (name ∷ after))
      × All (λ n. lookup n ≡ none) before
      × (lookup name ≡ some value)
unfolding first_present
first_present_lem [] lookup value h = cc
first_present_lem (name ∷ names) lookup value h = elim (Option-cases (lookup name)) [
  | inl absent ↦
      let (before, found, after, split, absents, has) =
        first_present_lem names lookup value (ground arith) in
      (name ∷ before, found, after, ap (λ l. name ∷ l) split, (absent, absents), has)
  | inr (v, present) ↦ ([], name, names, refl, tt, ground arith)
]
