-- ===== src/Traversal/Lifecycle/Session.antt =====
-- What the start of a mapping session checks (src/network_traversal/lifecycle.rs).
use liskov_runtime_cargo.Prelude.{
  saturating_add, u64_max, ℕ, ◌+◌, ◌≤◌, ◌≡◌, refl, ◌∙◌, ap, true, Option, some, Option-cases,
  bytes_eq, inl, inr, arith,
}
use liskov_runtime_cargo.Prelude.Result.{ok, Result-cases}
use liskov_runtime_cargo.Traversal.Descriptor.{
  TraversalDescriptorV1, TraversalMappingConsent, mapping_mode, is_mode,
}
use liskov_runtime_cargo.Traversal.Validate.{can_start}
use liskov_runtime_cargo.Traversal.Validate.Accepted.{can_start-eq-ok_iff, Starts}
use liskov_runtime_cargo.Traversal.Reserve.{
  reservation_of, reservation_fits, existing_delivery_reserve_ms,
}
use liskov_runtime_cargo.Traversal.Reserve.Fits.{reserved_fits}
use liskov_runtime_cargo.Traversal.Lifecycle.{
  MappingBindings, MappingSession, wrap64, session_reservation, from_authenticated_bootstrap,
}

module _ (serialized_len : TraversalDescriptorV1 → Option ℕ) where
  reservation_same :
      (d : TraversalDescriptorV1) (now job : ℕ)
      → Starts serialized_len d now job existing_delivery_reserve_ms
      → session_reservation d now ≡ reservation_of d now
  unfolding reservation_of
  reservation_same d now job (valid, issued, live, in_time, before_end, before_job, small) =
      let end : ℕ = now + d.budgets.experiment_ms in
      let end_wraps : wrap64 end ≡ end = omega (arith, small) in
      let end_saturates : saturating_add u64_max now d.budgets.experiment_ms ≡ end =
        omega (arith, small) in
      let later_wraps : wrap64 (end + existing_delivery_reserve_ms)
          ≡ end + existing_delivery_reserve_ms =
        omega (arith, small) in
      let later_saturates : saturating_add u64_max end existing_delivery_reserve_ms
          ≡ end + existing_delivery_reserve_ms =
        omega (arith, small) in
      rw (end_wraps, end_saturates, later_wraps, later_saturates) refl

  -- What the bindings of an accepted session agree with.
  abbrev pub Agrees : TraversalDescriptorV1 → TraversalMappingConsent → MappingBindings → Type 0
  Agrees d consent bindings =
      (is_mode d.mode mapping_mode ≡ true)
      × (bytes_eq d.claim_authority_digest bindings.claim_authority_digest ≡ true)
      × (bytes_eq d.artifact_digest bindings.artifact_digest ≡ true)
      × (bytes_eq d.helper_version bindings.helper.version ≡ true)
      × (bytes_eq d.helper_digest bindings.helper.digest ≡ true)
      × (bytes_eq consent.consent_reference bindings.consent_reference ≡ true)
      × (bytes_eq consent.processor_allowlist_digest bindings.processor_allowlist_digest ≡ true)
      × (bytes_eq consent.exclusive_reservation_digest bindings.exclusive_reservation_digest ≡ true)

  abbrev pub IsBound : MappingSession → TraversalDescriptorV1 → MappingBindings → ℕ → ℕ → Type 0
  IsBound session d bindings now job =
      (session ≡ record { descriptor = d; reservation = reservation_of d now })
      × (reservation_fits d (reservation_of d now) ≡ true)
      × ((reservation_of d now).delivery_end_ms ≤ job)
      × ((consent : TraversalMappingConsent) × (d.mapping ≡ some consent)
          × Agrees d consent bindings)

  -- An accepted session holds its descriptor with the reservation that the grant check makes of it,
  -- which fits the descriptor and ends before the job expires; and the descriptor, of the mapping
  -- mode, and its consent agree with every binding.
  pub from_authenticated_bootstrap-IsBound :
      (d : TraversalDescriptorV1) (bindings : MappingBindings) (now job : ℕ)
      (session : MappingSession)
      → from_authenticated_bootstrap serialized_len d bindings now job ≡ ok session
      → IsBound session d bindings now job
  unfolding from_authenticated_bootstrap
  from_authenticated_bootstrap-IsBound d bindings now job session h =
      elim (Result-cases (can_start serialized_len d now job existing_delivery_reserve_ms)) [
        | inr (problem, refusal) ↦ absurd (ground arith)
        | inl (_, may) ↦ elim (Option-cases d.mapping) [
          | inl nothing ↦ absurd (ground arith)
          | inr (consent, given) ↦
              let starts =
                (can_start-eq-ok_iff serialized_len d now job existing_delivery_reserve_ms).0 may in
              let (fits, ends, delivered, in_job) = reserved_fits serialized_len d now job starts in
              let held : session
                  ≡ record { descriptor = d; reservation = session_reservation d now } =
                ground arith in
              (
                held
                    ∙ ap (λ r. record { descriptor = d; reservation = r })
                        (reservation_same d now job starts),
                fits,
                in_job,
                (
                  consent,
                  given,
                  (
                    ground arith,
                    ground arith,
                    ground arith,
                    ground arith,
                    ground arith,
                    ground arith,
                    ground arith,
                    ground arith,
                  ),
                ),
              )
        ]
      ]
