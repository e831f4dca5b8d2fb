-- ===== src/Json.antt =====
-- The values that the program sends as event data and keeps as configurations: what JSON holds.
-- Numbers are natural numbers: counts, sizes, ports and milliseconds.
pub mod Laws
use socket_tester.Base.{ℕ, Option, none, some, Bool, Text, Map, text_eq, if◌then◌else◌}

mutual
  pub data Value : Type 0 where
    null : Value
    bool : Bool → Value
    num : ℕ → Value
    str : Text → Value
    arr : Items → Value
    obj : Fields → Value

  pub data Items : Type 0 where
    nil : Items
    cons : Value → Items → Items

  pub data Fields : Type 0 where
    end : Fields
    field : Text → Value → Fields → Fields

-- An object literal, `{ k: v, … }`, as a map.
abbrev pub Data : Type 0
Data = Map Value

-- `o ?? null`
abbrev pub num_or_null : Option ℕ → Value
num_or_null none = null
num_or_null (some n) = num n

-- `o.k`
unfoldable pub get_field : Text → Fields → Option Value
get_field k end = none
get_field k (field j v fs) = let rest = get_field k fs in if text_eq j k then some v else rest

-- `delete o.k`
pub delete_field : Text → Fields → Fields
delete_field k end = end
delete_field k (field j v fs) =
    let rest = delete_field k fs in if text_eq j k then rest else field j v rest

-- `o.k = v`
pub set_field : Text → Value → Fields → Fields
set_field k v end = field k v end
set_field k v (field j w fs) =
    let rest = set_field k v fs in if text_eq j k then field j v fs else field j w rest
