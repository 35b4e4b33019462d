-- ===== src/Prelude/Json.antt =====
-- `serde_json::Value`, by its documented variants. A number is the integer it holds: the program
-- reads integers only. An object keeps its members in order.
use Prim.Native.Nat.{ℕ}
use Prim.Native.String.{String}
use mathlib.Core.Bool.{Bool, true, false}
use mathlib.Core.Option.{Option, none, some}
use package.text.Mathlib.Text.{◌==◌ as str_eq}
use chatbridge.Prelude.Tests.{if◌then◌else◌}

mutual
  pub data Json : Type 0 where
    null : Json
    boolean : Bool → Json
    number : ℕ → Json
    text : String → Json
    array : Items → Json
    object : Members → Json

  pub data Items : Type 0 where
    nil : Items
    cons : Json → Items → Items

  pub data Members : Type 0 where
    end : Members
    member : String → Json → Members → Members

-- The member of that name.
abbrev pub lookup : String → Members → Option Json
lookup key end = none
lookup key (member k v ms) = if str_eq k key then some v else lookup key ms

-- `value.get(key)`
abbrev pub get : String → Json → Option Json
get key (object ms) = lookup key ms
get key _ = none

-- `value.as_str()`
abbrev pub as_str : Json → Option String
as_str (text s) = some s
as_str _ = none

-- `value.as_bool()`
abbrev pub as_bool : Json → Option Bool
as_bool (boolean b) = some b
as_bool _ = none

-- `value.as_i64()`
abbrev pub as_i64 : Json → Option ℕ
as_i64 (number n) = some n
as_i64 _ = none

-- `value.as_array()`
abbrev pub as_array : Json → Option Items
as_array (array items) = some items
as_array _ = none

-- `value.is_object()`
abbrev pub is_object : Json → Bool
is_object (object _) = true
is_object _ = false
