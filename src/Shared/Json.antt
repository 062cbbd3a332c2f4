-- ===== src/Shared/Json.antt =====
-- The values of an untyped message (`Record<string, unknown>`). An array and an object have list
-- types of their own. A number is an integer or one that `Number.isFinite` refuses; fractions are
-- left out. `undefined` as a field's value is a field that is not there.
use openclaw_enterprise.Common.{
  ℤ, String, Bool, List, [], ◌∷◌, Option, none, some, if◌then◌else◌, str_eq,
}

mutual
  pub data Json : Type 0 where
    null : Json
    bool : Bool → Json
    num : ℤ → Json
    non_finite : Json
    str : String → Json
    arr : Items → Json
    obj : Fields → Json

  pub data Items : Type 0 where
    nil : Items
    cons : Json → Items → Items

  pub data Fields : Type 0 where
    end : Fields
    field : String → Json → Fields → Fields

abbrev pub items : Items → List Json
items nil = []
items (cons v vs) = v ∷ items vs

-- `obj[key]`.
abbrev pub get_field : String → Fields → Option Json
get_field k end = none
get_field k (field j v fs) = if str_eq j k then some v else get_field k fs

-- `obj[key] = value`.
abbrev pub set_field : String → Json → Fields → Fields
set_field k v end = field k v end
set_field k v (field j w fs) = if str_eq j k then field j v fs else field j w (set_field k v fs)
