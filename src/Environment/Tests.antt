-- ===== src/Environment/Tests.antt =====
-- The environment of a customer on a processor whose `TMPDIR` does not exist in the guest, whose
-- `LD_PRELOAD` names a missing object, and whose `PATH` is unset.
use liskov_runtime_cargo.Prelude.{
  ◌≡◌, ◌≢◌, refl, ◌⊎◌, true, false, Option, none, some, [], ◌∷◌, Bytes, codes, bytes_eq,
  if◌then◌else◌,
}
use liskov_runtime_cargo.Environment.Names.{contains, protected_env_names}
use liskov_runtime_cargo.Environment.Maps.{Environment, lookup, or_else, last_value}
use liskov_runtime_cargo.Environment.Normalize.{
  GuestFilesystem, tmpdir, ld_preload, path, home, default_tmpdir,
}
use liskov_runtime_cargo.Environment.Repaired.{UsableTmpdir, UsablePreload, UsablePath}
use liskov_runtime_cargo.Environment.Customer.{contains_key, helper_names}
use liskov_runtime_cargo.Environment.Inherited.{
  customer_value, customer_environment-signed, customer_environment-lookup,
  customer_environment-usable,
}

-- A guest in which only /tmp is a directory.
abbrev guest : GuestFilesystem
guest = record {
  is_directory = λ d. bytes_eq d default_tmpdir;
  is_writable_directory = λ d. bytes_eq d default_tmpdir;
  is_file = λ f. false;
}

abbrev inherited : Environment
inherited =
    (tmpdir, codes "/data/cache")
    ∷ (ld_preload, codes "/lib/hook.so")
    ∷ (home, codes "/root")
    ∷ (codes "LANG", codes "C")
    ∷ (codes "LISKOV_BOOTSTRAP", codes "secret")
    ∷ []

abbrev runtime : Environment
runtime = (codes "LANG", codes "de") ∷ (codes "MODE", codes "on") ∷ []

customer_environment-signed_example :
    customer_value inherited runtime guest (codes "LANG") ≡ some (codes "de")
unfolding last_value bytes_eq
customer_environment-signed_example =
    customer_environment-signed inherited runtime guest (codes "LANG") (codes "de") refl

customer_environment-lookup_example :
    customer_value inherited runtime guest (codes "LISKOV_BOOTSTRAP")
    ≡ or_else (last_value runtime (codes "LISKOV_BOOTSTRAP")) (
        if contains protected_env_names (codes "LISKOV_BOOTSTRAP")
        then none
        else (if contains helper_names (codes "LISKOV_BOOTSTRAP")
            then none
            else lookup inherited (codes "LISKOV_BOOTSTRAP")))
unfolding bytes_eq
customer_environment-lookup_example =
    customer_environment-lookup inherited runtime guest (codes "LISKOV_BOOTSTRAP") refl refl refl
      refl

customer_environment-usable_example :
    ((contains_key runtime tmpdir ≡ true)
      ⊎ UsableTmpdir (contains_key runtime) guest (customer_value inherited runtime guest tmpdir))
    × ((contains_key runtime ld_preload ≡ true)
        ⊎ UsablePreload
            (contains_key runtime)
            guest
            (customer_value inherited runtime guest ld_preload))
    × ((contains_key runtime path ≡ true)
        ⊎ UsablePath (contains_key runtime) guest (customer_value inherited runtime guest path))
    × ((contains_key runtime home ≡ true) ⊎ (customer_value inherited runtime guest home ≢ none))
customer_environment-usable_example = customer_environment-usable inherited runtime guest

abbrev fit : Environment
fit = (home, codes "/root") ∷ (path, codes "/bin") ∷ []

abbrev values : Bytes → Option Bytes
values name = if bytes_eq name (codes "B") then some (codes "1") else none
