-- ===== src/MethodSpec/Attributes/Given.antt =====
-- What an attribute of a method gives it (`parse_method_attributes` of
-- pyo3-derive-backend/src/method.rs), by its name.
use text.Mathlib.Text.{◌==◌}
use pyo.Base.{
  is_some, or_else, ◌≡◌, Bool, true, false, ◌||◌, if◌then◌else◌, Option, none, some, String, List,
  [], ◌∷◌, ◌++◌, Result, ok, err,
}
use pyo.FnAttr
use pyo.FnAttr.{Argument, Lit, NestedMeta, AttrError, from_meta}
use pyo.MethodSpec.Attributes.{
  word, list, name_value, Attribute, FnType, getter, setter, fn_new, fn_call, fn_class, fn_static,
  class_attribute, Progress,
}

-- The type that an attribute without and with a list gives a method.
abbrev pub word_types : List (String × FnType)
word_types =
    ("new", fn_new)
    ∷ ("__new__", fn_new)
    ∷ ("call", fn_call)
    ∷ ("__call__", fn_call)
    ∷ ("classmethod", fn_class)
    ∷ ("staticmethod", fn_static)
    ∷ ("classattr", class_attribute)
    ∷ ("setter", setter)
    ∷ ("getter", getter)
    ∷ []

abbrev pub list_types : List (String × FnType)
list_types = ("new", fn_new) ∷ ("call", fn_call) ∷ ("setter", setter) ∷ ("getter", getter) ∷ []

unfoldable pub type_in : List (String × FnType) → String → Option FnType
type_in [] name = none
type_in ((n, ty) ∷ types) name = if name == n then some ty else type_in types name

abbrev pub type_of : Attribute → Option FnType
type_of a = elim a.meta [
  | none ↦ none
  | some word ↦ type_in word_types a.path
  | some (list nested) ↦ type_in list_types a.path
  | some (name_value lit) ↦ none
]

abbrev pub given_arguments : Result FnAttr.PyFunctionAttr AttrError → List Argument
given_arguments (ok attrs) = attrs.arguments
given_arguments (err e) = []

-- The arguments that `#[args(…)]` gives.
abbrev pub arguments_of : Attribute → List Argument
arguments_of a = elim a.meta [
  | none ↦ []
  | some word ↦ []
  | some (list nested) ↦ if a.path == "args" then given_arguments (from_meta nested) else []
  | some (name_value lit) ↦ []
]

abbrev pub is_args_list : Attribute → Bool
is_args_list a = elim a.meta [
  | none ↦ false
  | some word ↦ false
  | some (list nested) ↦ a.path == "args"
  | some (name_value lit) ↦ false
]

-- The attributes that are taken from the method.
abbrev pub is_taken : Attribute → Bool
is_taken a = is_some (type_of a) || is_args_list a

abbrev pub is_property : Attribute → Bool
is_property a = elim a.meta [
  | none ↦ false
  | some word ↦ a.path == "setter" || a.path == "getter"
  | some (list nested) ↦ a.path == "setter" || a.path == "getter"
  | some (name_value lit) ↦ false
]

-- What an accepted attribute changes.
abbrev pub Adds : Attribute → Progress → Progress → Type 0
Adds a s s' =
    (s'.new_attrs ≡ s.new_attrs ++ (if is_taken a then [] else a ∷ []))
    × (s'.args ≡ s.args ++ arguments_of a)
    × (s'.res ≡ or_else (type_of a) s.res)
    × (is_property a ≡ true → s.res ≡ none)
