-- ===== src/Base/Json.antt =====
-- The values of JSON that the program stores and passes on: Python's `None`, `bool`, numbers, `str`,
-- `list` and `dict`. A number is kept as it is written. An object keeps the order of its keys.
use Prim.Native.String.{String}
use mathlib.Core.Bool.{Bool, true, false}
use mathlib.Core.Option.{Option, none, some}
use luicode.Base.Tests.{◌==◌, if◌then◌else◌, string_eq}

mutual
  pub data Json : Type 0 where
    null : Json
    bool : Bool → Json
    num : String → Json
    str : String → Json
    arr : Items → Json
    obj : Fields → Json

  pub data Items : Type 0 where
    nil : Items
    cons : Json → Items → Items

  pub data Fields : Type 0 where
    end : Fields
    field : String → Json → Fields → Fields

-- d.get(k)
unfoldable pub get : String → Fields → Option Json
get k end = none
get k (field j v fs) = if j == k then some v else get k fs

-- d[k] = v
unfoldable pub set : String → Json → Fields → Fields
set k v end = field k v end
set k v (field j w fs) = let rest = set k v fs in if j == k then field k v fs else field j w rest

-- `isinstance(value, str)`, with the text
abbrev pub text_of : Option Json → Option String
text_of (some (str s)) = some s
text_of (some null) = none
text_of (some (bool b)) = none
text_of (some (num n)) = none
text_of (some (arr xs)) = none
text_of (some (obj fs)) = none
text_of none = none

-- `isinstance(value, dict)`, with the fields
abbrev pub fields_of : Option Json → Option Fields
fields_of (some (obj fs)) = some fs
fields_of (some null) = none
fields_of (some (bool b)) = none
fields_of (some (num n)) = none
fields_of (some (str s)) = none
fields_of (some (arr xs)) = none
fields_of none = none

-- `bool(d)` of a dictionary
abbrev pub nonempty : Fields → Bool
nonempty end = false
nonempty (field k v fs) = true
