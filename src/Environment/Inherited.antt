-- ===== src/Environment/Inherited.antt =====
-- Which values reach the customer command (`customer_environment` of src/supervisor.rs).
use liskov_runtime_cargo.Prelude.{
  ap, ◌≡◌, ◌≢◌, refl, ◌∙◌, true, false, not, Option, none, some, List, [], ◌∷◌, Bytes, retain,
  bytes_eq, bytes_eq_iff, bytes_eq_refl, if◌then◌else◌, arith, ◌⊎◌, inl, inr, Bool-cases,
}
use liskov_runtime_cargo.Environment.Names.{protected_env_names, contains}
use liskov_runtime_cargo.Environment.Maps.{Environment, lookup, or_else, last_value, lookup-merge}
use liskov_runtime_cargo.Environment.Normalize.{GuestFilesystem, tmpdir, ld_preload, path, home}
use liskov_runtime_cargo.Environment.Repaired.{
  normalize-frame, normalize-usable, repaired, UsableTmpdir, UsablePreload, UsablePath,
}
use liskov_runtime_cargo.Environment.Customer.{
  helper_names, sanitize_environment_values, strip_helper_names, contains_key, customer_environment,
}

-- Names in a list are gone after the entries that it contains are dropped; others keep their value.
lookup-retain :
    (names : List Bytes) (env : Environment) (name : Bytes)
    → lookup (retain (λ entry. not (contains names entry.0)) env) name
      ≡ (if contains names name then none else lookup env name)
unfolding lookup
lookup-retain names [] name = ground arith
lookup-retain names ((existing, value) ∷ env) name = elim (Bool-cases (bytes_eq existing name)) [
  | inl same ↦
      let equal = (bytes_eq_iff existing name).0 same in
      elim (Bool-cases (contains names name)) [
        | inl dropped ↦ rw (equal, dropped) (lookup-retain names env name ∙ rw dropped refl)
        | inr kept ↦ rw (equal, kept, bytes_eq_refl name) refl
      ]
  | inr other ↦ ground (arith, lookup-retain names env name)
]

last_value-none :
    (runtime : Environment) (name : Bytes)
    → contains_key runtime name ≡ false
    → last_value runtime name ≡ none
unfolding last_value contains_key
last_value-none [] name h = refl
last_value-none ((existing, value) ∷ env) name h = ground (arith, last_value-none env name)

module _ (inherited runtime : Environment) (guest : GuestFilesystem) where
  -- The value of a name in the environment of the customer command.
  abbrev pub customer_value : Bytes → Option Bytes
  customer_value name = lookup (customer_environment inherited runtime guest).0 name

  -- A name that is signed in the runtime environment has its signed value in the customer command,
  -- whatever was inherited and whatever the repair does.
  pub customer_environment-signed :
      (name value : Bytes) → last_value runtime name ≡ some value → customer_value name ≡ some value
  unfolding customer_environment
  customer_environment-signed name value h = lookup-merge _ runtime name ∙ rw h refl

  -- A name other than `TMPDIR`, `LD_PRELOAD`, `PATH` and `HOME` has its signed value if there is
  -- one, and else its inherited value, unless it is a protected name or one of the helper's names,
  -- which has no value.
  pub customer_environment-lookup :
      (name : Bytes)
      → bytes_eq tmpdir name ≡ false
      → bytes_eq ld_preload name ≡ false
      → bytes_eq path name ≡ false
      → bytes_eq home name ≡ false
      → customer_value name
        ≡ or_else (last_value runtime name) (
            if contains protected_env_names name
            then none
            else (if contains helper_names name then none else lookup inherited name))
  unfolding customer_environment sanitize_environment_values strip_helper_names
  customer_environment-lookup name t l p h =
      lookup-merge _ runtime name
      ∙ ap (or_else (last_value runtime name)) (
          normalize-frame (contains_key runtime) guest _ name t l p h
          ∙ lookup-retain protected_env_names _ name
          ∙ ap (λ v. if contains protected_env_names name then none else v)
              (lookup-retain helper_names inherited name))

  carried :
      (name : Bytes) (P : Option Bytes → Type 0)
      → (contains_key runtime name ≡ true)
        ⊎ P (
            repaired
              (contains_key runtime)
              guest
              (sanitize_environment_values (strip_helper_names inherited))
              name)
      → (contains_key runtime name ≡ true) ⊎ P (customer_value name)
  unfolding customer_environment
  carried name P (inl is_signed) = inl is_signed
  carried name P (inr usable) = elim (Bool-cases (contains_key runtime name)) [
    | inl is_signed ↦ inl is_signed
    | inr unsigned ↦
        inr (rw (lookup-merge _ runtime name, last_value-none runtime name unsigned) usable)
  ]

  -- In the environment of the customer command each of the four repaired names is signed, or fit for
  -- the guest: `TMPDIR`, if present, is a writable directory or /tmp; every object that `LD_PRELOAD`
  -- names with a slash is a file; `PATH` is present and not empty; `HOME` is present.
  pub customer_environment-usable :
      ((contains_key runtime tmpdir ≡ true)
        ⊎ UsableTmpdir (contains_key runtime) guest (customer_value tmpdir))
      × ((contains_key runtime ld_preload ≡ true)
          ⊎ UsablePreload (contains_key runtime) guest (customer_value ld_preload))
      × ((contains_key runtime path ≡ true)
          ⊎ UsablePath (contains_key runtime) guest (customer_value path))
      × ((contains_key runtime home ≡ true) ⊎ (customer_value home ≢ none))
  customer_environment-usable =
      let signed = contains_key runtime in
      let (t, l, p, h) = normalize-usable signed guest _ in
      (
        carried tmpdir (UsableTmpdir signed guest) t,
        carried ld_preload (UsablePreload signed guest) l,
        carried path (UsablePath signed guest) p,
        carried home (λ v. v ≢ none) h,
      )
