-- ===== src/Environment/Repaired.antt =====
-- What holds of a repaired environment (src/customer_environment.rs).
use liskov_runtime_cargo.Prelude.{
  ◌≡◌, ◌≢◌, refl, ◌∙◌, Bool, true, false, Option, none, some, [], Bytes, bytes_eq, arith, ◌⊎◌, inl,
  inr, Option-cases, Bool-cases,
}
use liskov_runtime_cargo.Environment.Maps.{
  Environment, lookup, lookup-set, lookup-remove, lookup-set_self, lookup-remove_self,
}
use liskov_runtime_cargo.Environment.Normalize.{
  tmpdir, ld_preload, path, home, default_tmpdir, default_path, default_home, Repair,
  GuestFilesystem, directory_reason, is_empty, preload_resolves, repoint_tmpdir, repair_tmpdir,
  repair_ld_preload, repair_path, repair_home, normalize_customer_environment,
}

abbrev fresh_repair : Environment → Repair
fresh_repair inherited = record { environment = inherited; changes = []; created = [] }

module _ (signed : Bytes → Bool) (guest : GuestFilesystem) where
  -- A value that the guest can use as `TMPDIR`, if there is one.
  abbrev pub UsableTmpdir : Option Bytes → Type 0
  UsableTmpdir none = Unit
  UsableTmpdir (some value) = (guest.is_writable_directory value ≡ true) ⊎ (value ≡ default_tmpdir)

  abbrev pub UsablePreload : Option Bytes → Type 0
  UsablePreload none = Unit
  UsablePreload (some value) = preload_resolves value guest ≡ true

  abbrev pub UsablePath : Option Bytes → Type 0
  UsablePath none = ⊥
  UsablePath (some value) = is_empty value ≡ false

  unless_signed :
      (name : Bytes) → {P : Type 0} → (signed name ≡ false → P) → (signed name ≡ true) ⊎ P
  unless_signed name p = elim (Bool-cases (signed name)) [
    | inl is_signed ↦ inl is_signed
    | inr unsigned ↦ inr (p unsigned)
  ]

  module _ (r : Repair) where
    tmpdir_usable :
        signed tmpdir ≡ false
        → UsableTmpdir (lookup (repair_tmpdir signed guest r).environment tmpdir)
    unfolding repair_tmpdir repoint_tmpdir
    tmpdir_usable h = elim (Option-cases (lookup r.environment tmpdir)) [
      | inl absent ↦ rw (h, absent, repair_tmpdir) (rw absent tt)
      | inr (value, present) ↦ elim (Option-cases (directory_reason signed guest value)) [
        | inl fine ↦ rw (h, present, fine, repair_tmpdir) (rw present (inl (ground arith)))
        | inr (reason, bad) ↦
            rw (h, present, bad, repair_tmpdir)
              (rw (lookup-set_self r.environment tmpdir default_tmpdir) (inr refl))
      ]
    ]

    preload_usable :
        signed ld_preload ≡ false
        → UsablePreload (lookup (repair_ld_preload signed guest r).environment ld_preload)
    unfolding repair_ld_preload
    preload_usable h = ground (arith, lookup-remove_self r.environment ld_preload)

    path_usable :
        signed path ≡ false → UsablePath (lookup (repair_path signed guest r).environment path)
    unfolding repair_path
    path_usable h = ground (arith, lookup-set_self r.environment path default_path)

    home_present : signed home ≡ false → lookup (repair_home signed guest r).environment home ≢ none
    unfolding repair_home
    home_present h = ground (arith, lookup-set_self r.environment home default_home)

    tmpdir_frame :
        (other : Bytes)
        → bytes_eq tmpdir other ≡ false
        → lookup (repair_tmpdir signed guest r).environment other ≡ lookup r.environment other
    unfolding repair_tmpdir repoint_tmpdir
    tmpdir_frame other h = ground (arith, lookup-set r.environment tmpdir default_tmpdir other)

    preload_frame :
        (other : Bytes)
        → bytes_eq ld_preload other ≡ false
        → lookup (repair_ld_preload signed guest r).environment other ≡ lookup r.environment other
    unfolding repair_ld_preload
    preload_frame other h = ground (arith, lookup-remove r.environment ld_preload other)

    path_frame :
        (other : Bytes)
        → bytes_eq path other ≡ false
        → lookup (repair_path signed guest r).environment other ≡ lookup r.environment other
    unfolding repair_path
    path_frame other h = ground (arith, lookup-set r.environment path default_path other)

    home_frame :
        (other : Bytes)
        → bytes_eq home other ≡ false
        → lookup (repair_home signed guest r).environment other ≡ lookup r.environment other
    unfolding repair_home
    home_frame other h = ground (arith, lookup-set r.environment home default_home other)

    tmpdir_valid :
        ((value : Bytes)
          → lookup r.environment tmpdir ≡ some value
          → guest.is_writable_directory value ≡ true)
        → repair_tmpdir signed guest r ≡ r
    unfolding repair_tmpdir
    tmpdir_valid t = elim (Option-cases (lookup r.environment tmpdir)) [
      | inl absent ↦ ground arith
      | inr (value, present) ↦ ground (arith, t value present)
    ]

    preload_valid :
        UsablePreload (lookup r.environment ld_preload) → repair_ld_preload signed guest r ≡ r
    unfolding repair_ld_preload
    preload_valid l = ground arith

    path_valid : UsablePath (lookup r.environment path) → repair_path signed guest r ≡ r
    unfolding repair_path
    path_valid p = ground arith

    home_valid : lookup r.environment home ≢ none → repair_home signed guest r ≡ r
    unfolding repair_home
    home_valid h = ground arith

  module _ (inherited : Environment) where
    abbrev pub repaired : Bytes → Option Bytes
    repaired name = lookup (normalize_customer_environment signed guest inherited).environment name

    -- Each of the four names is signed or can be used by the guest after the repair: `TMPDIR`, if
    -- present, names a writable directory or /tmp; every object that `LD_PRELOAD` names with a
    -- slash is a file; `PATH` is present and not empty; `HOME` is present.
    pub normalize-usable :
        ((signed tmpdir ≡ true) ⊎ UsableTmpdir (repaired tmpdir))
        × ((signed ld_preload ≡ true) ⊎ UsablePreload (repaired ld_preload))
        × ((signed path ≡ true) ⊎ UsablePath (repaired path))
        × ((signed home ≡ true) ⊎ (repaired home ≢ none))
    unfolding normalize_customer_environment bytes_eq
    normalize-usable = (
      unless_signed tmpdir (λ h.
          rw (home_frame _ tmpdir refl, path_frame _ tmpdir refl, preload_frame _ tmpdir refl)
            (tmpdir_usable _ h)),
      unless_signed ld_preload (λ h.
          rw (home_frame _ ld_preload refl, path_frame _ ld_preload refl) (preload_usable _ h)),
      unless_signed path (λ h. rw (home_frame _ path refl) (path_usable _ h)),
      unless_signed home (λ h. home_present _ h),
    )

    -- Every other name keeps the value that was inherited.
    pub normalize-frame :
        (name : Bytes)
        → bytes_eq tmpdir name ≡ false
        → bytes_eq ld_preload name ≡ false
        → bytes_eq path name ≡ false
        → bytes_eq home name ≡ false
        → repaired name ≡ lookup inherited name
    unfolding normalize_customer_environment
    normalize-frame name t l p h =
        home_frame _ name h ∙ path_frame _ name p ∙ preload_frame _ name l ∙ tmpdir_frame _ name t

    -- An environment that the guest can use already is given back as it is, with no change
    -- recorded and no directory created.
    pub normalize-valid :
        ((value : Bytes)
          → lookup inherited tmpdir ≡ some value
          → guest.is_writable_directory value ≡ true)
        → UsablePreload (lookup inherited ld_preload)
        → UsablePath (lookup inherited path)
        → lookup inherited home ≢ none
        → normalize_customer_environment signed guest inherited
          ≡ record { environment = inherited; changes = []; created = [] }
    unfolding normalize_customer_environment
    normalize-valid t l p h =
        let r = fresh_repair inherited in
        rw (tmpdir_valid r t, preload_valid r l, path_valid r p, home_valid r h) refl
