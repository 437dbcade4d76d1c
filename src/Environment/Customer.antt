-- ===== src/Environment/Customer.antt =====
-- `customer_environment` of src/supervisor.rs: inherited values less the helper's own names,
-- repaired for the guest, then overlaid by the signed runtime environment.
use liskov_runtime_cargo.Prelude.{Bool, not, List, [], ◌∷◌, Bytes, codes, retain, any, bytes_eq}
use liskov_runtime_cargo.Environment.Names.{protected_env_names, contains}
use liskov_runtime_cargo.Environment.Maps.{Environment, merge_runtime_environment}
use liskov_runtime_cargo.Environment.Normalize.{
  GuestFilesystem, Normalization, normalize_customer_environment,
}

-- The helper-owned discovery and readiness names, which are stripped from what is inherited.
abbrev pub helper_names : List Bytes
helper_names =
    codes "LISKOV_DISCOVERY_FILE"
    ∷ codes "LISKOV_PEER_PROXY"
    ∷ codes "LISKOV_PEER_ADVERTISEMENT_FILE"
    ∷ codes "LISKOV_PEER_DIRECTORY_FILE"
    ∷ codes "LISKOV_RUNTIME_INSTANCE_ID"
    ∷ codes "LISKOV_APPLICATION_READINESS"
    ∷ codes "LISKOV_APPLICATION_READY_FILE"
    ∷ []

unfoldable pub sanitize_environment_values : Environment → Environment
sanitize_environment_values values =
    retain (λ entry. not (contains protected_env_names entry.0)) values

unfoldable pub strip_helper_names : Environment → Environment
strip_helper_names values = retain (λ entry. not (contains helper_names entry.0)) values

-- `BTreeMap::contains_key`.
unfoldable pub contains_key : Environment → Bytes → Bool
contains_key runtime name = any (λ entry. bytes_eq entry.0 name) runtime

unfoldable pub customer_environment :
    Environment → Environment → GuestFilesystem → Environment × List Normalization
customer_environment inherited runtime guest =
    let r =
      normalize_customer_environment (contains_key runtime) guest
        (sanitize_environment_values (strip_helper_names inherited)) in
    (merge_runtime_environment r.environment runtime, r.changes)
