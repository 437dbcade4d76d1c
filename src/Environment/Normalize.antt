-- ===== src/Environment/Normalize.antt =====
-- `normalize_customer_environment` of src/customer_environment.rs: the repair of four inherited
-- names for the guest. The guest's answers are a record of functions, and the directories that the
-- repair tries to create are collected.
use liskov_runtime_cargo.Prelude.{
  String, Bool, true, false, not, ◌||◌, Option, none, some, List, [], ◌∷◌, ◌++◌, Bytes, codes, all,
  any, retain, ◌==◌, if◌then◌else◌,
}
use liskov_runtime_cargo.Environment.Maps.{Environment, lookup, set, remove}

abbrev pub tmpdir : Bytes
tmpdir = codes "TMPDIR"

abbrev pub ld_preload : Bytes
ld_preload = codes "LD_PRELOAD"

abbrev pub path : Bytes
path = codes "PATH"

abbrev pub home : Bytes
home = codes "HOME"

abbrev pub default_tmpdir : Bytes
default_tmpdir = codes "/tmp"

abbrev pub default_path : Bytes
default_path = codes "/usr/local/sbin:/usr/local/bin:/usr/sbin:/usr/bin:/sbin:/bin"

abbrev pub default_home : Bytes
default_home = codes "/root"

pub data NormalizationReason : Type 0 where
  directory_missing directory_not_writable object_missing unset empty : NormalizationReason

pub record Normalization : Type 0 where
  pub name : String
  pub reason : NormalizationReason

abbrev pub reason_name : NormalizationReason → String
reason_name directory_missing = "directory_missing"
reason_name directory_not_writable = "directory_not_writable"
reason_name object_missing = "object_missing"
reason_name unset = "unset"
reason_name empty = "empty"

pub record GuestFilesystem : Type 0 where
  pub is_directory : Bytes → Bool
  pub is_writable_directory : Bytes → Bool
  pub is_file : Bytes → Bool

-- The environment under repair, what changed, and the directories created.
pub record Repair : Type 0 where
  pub environment : Environment
  pub changes : List Normalization
  pub created : List Bytes

unfoldable pub change : Repair → Environment → String → NormalizationReason → Repair
change r env name reason = record r {
  environment = env;
  changes = r.changes ++ record { name = name; reason = reason } ∷ [];
}

-- `split(|byte| matches!(byte, b' ' | b':'))`, with the entry that is being read.
unfoldable pub split_entries : Bytes → Bytes → List Bytes
split_entries entry [] = entry ∷ []
split_entries entry (b ∷ bs) =
    let closed = entry ∷ split_entries [] bs in
    let longer = split_entries (entry ++ b ∷ []) bs in
    if b == b' ' || b == b':' then closed else longer

abbrev pub is_empty : Bytes → Bool
is_empty [] = true
is_empty (b ∷ bs) = false

unfoldable pub preload_resolves : Bytes → GuestFilesystem → Bool
preload_resolves value guest =
    all (λ entry. not (any (λ b. b == b'/') entry) || guest.is_file entry)
      (retain (λ entry. not (is_empty entry)) (split_entries [] value))

module _ (signed : Bytes → Bool) (guest : GuestFilesystem) where
  abbrev pub directory_reason : Bytes → Option NormalizationReason
  directory_reason value =
      if guest.is_writable_directory value
      then none
      else (if guest.is_directory value
          then some directory_not_writable
          else some directory_missing)

  unfoldable pub repoint_tmpdir : Repair → NormalizationReason → Repair
  unfolding change
  repoint_tmpdir r reason =
      let made = if guest.is_directory default_tmpdir then [] else default_tmpdir ∷ [] in
      record (change r (set r.environment tmpdir default_tmpdir) "TMPDIR" reason) {
        created = r.created ++ made;
      }

  unfoldable pub repair_tmpdir : Repair → Repair
  repair_tmpdir r = if signed tmpdir then r else elim (lookup r.environment tmpdir) [
    | none ↦ r
    | some value ↦ elim (directory_reason value) [
      | none ↦ r
      | some reason ↦ repoint_tmpdir r reason
    ]
  ]

  unfoldable pub repair_ld_preload : Repair → Repair
  unfolding change
  repair_ld_preload r = if signed ld_preload then r else elim (lookup r.environment ld_preload) [
    | none ↦ r
    | some value ↦
        if preload_resolves value guest
        then r
        else change r (remove r.environment ld_preload) "LD_PRELOAD" object_missing
  ]

  abbrev pub path_reason : Option Bytes → Option NormalizationReason
  path_reason none = some unset
  path_reason (some value) = if is_empty value then some empty else none

  unfoldable pub repair_path : Repair → Repair
  unfolding change
  repair_path r = if signed path then r else elim (path_reason (lookup r.environment path)) [
    | none ↦ r
    | some reason ↦ change r (set r.environment path default_path) "PATH" reason
  ]

  unfoldable pub repair_home : Repair → Repair
  unfolding change
  repair_home r = if signed home then r else elim (lookup r.environment home) [
    | some value ↦ r
    | none ↦ change r (set r.environment home default_home) "HOME" unset
  ]

  unfoldable pub normalize_customer_environment : Environment → Repair
  normalize_customer_environment inherited = repair_home (
      repair_path (
        repair_ld_preload
          (repair_tmpdir (record { environment = inherited; changes = []; created = [] }))))
