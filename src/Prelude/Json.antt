-- ===== src/Prelude/Json.antt =====
-- The JSON values that the helper reads and reports, as serde_json's `Value`.
use Prim.Native.Nat.{ℕ}
use Prim.Native.String.{String}
use mathlib.Core.Bool.{Bool}
use mathlib.Core.Option.{Option, none, some}
use mathlib.Core.List.{List, [], ◌∷◌}
use liskov_runtime_cargo.Prelude.Tests.{if◌then◌else◌}
use liskov_runtime_cargo.Prelude.Text.{str_eq}

mutual
  pub data Json : Type 0 where
    null : Json
    boolean : Bool → Json
    -- A non-negative integer in the range of u64; `rational` is any other number.
    number : ℕ → Json
    rational : String → Json
    text : String → Json
    array : Items → Json
    object : Fields → Json

  pub data Items : Type 0 where
    nil : Items
    cons : Json → Items → Items

  pub data Fields : Type 0 where
    end : Fields
    field : String → Json → Fields → Fields

abbrev pub is_null : Json → Bool
is_null null = Bool.true
is_null _ = Bool.false

abbrev pub as_object : Json → Option Fields
as_object (object fs) = some fs
as_object _ = none

abbrev pub as_str : Json → Option String
as_str (text s) = some s
as_str _ = none

abbrev pub as_u64 : Json → Option ℕ
as_u64 (number n) = some n
as_u64 _ = none

-- `Map::keys` and `Map::get`.
unfoldable pub keys : Fields → List String
keys end = []
keys (field k v fs) = k ∷ keys fs

unfoldable pub get : String → Fields → Option Json
get k end = none
get k (field j v fs) = if str_eq j k then some v else get k fs
