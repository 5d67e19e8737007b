-- ===== src/Base/Json.antt =====
-- The values that `json.loads` returns and that Python code receives untyped.
use app_generation_microserv.Base.Int.{ℤ}
use app_generation_microserv.Base.Tests.{if◌then◌else◌}
use Prim.Native.String.{String}
use mathlib.Core.Bool.{Bool}
use mathlib.Core.Option.{Option, none, some}
use package.text.Mathlib.Text.{◌==◌}

mutual
  -- the members of an object, in order
  pub data Fields : Type 0 where
    end : Fields
    field : String → Value → Fields → Fields

  pub data Value : Type 0 where
    obj : Fields → Value
    arr : Items → Value
    text : String → Value
    num : ℤ → Value
    -- a float, by its `repr`
    real : String → Value
    bool : Bool → Value
    null : Value

  -- the elements of an array
  pub data Items : Type 0 where
    cons : Value → Items → Items
    nil : Items

-- d.get(k); a key stands once in a dict
abbrev pub get : String → Fields → Option Value
get k end = none
get k (field j v fs) = if j == k then some v else get k fs

-- What is a JSON object, and nothing else.
abbrev pub as_object : Option Value → Option Fields
as_object (some (obj fs)) = some fs
as_object _ = none
