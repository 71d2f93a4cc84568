-- ===== src/MethodSpec/Attributes.antt =====
-- The attributes of a method (`parse_method_attributes` of pyo3-derive-backend/src/method.rs, with
-- `parse_name_attribute` of pyo3-derive-backend/src/pyfunction.rs). A path is its text. What syn does
-- with a text is a parameter.
pub mod Given
pub mod Roles
pub mod Taken
pub mod Kept
use text.Mathlib.Text.{◌==◌}
use pyo.Base.{
  is_some, ◌≡◌, Bool, true, false, not, ◌&&◌, ◌||◌, if◌then◌else◌, Option, none, some, String, List,
  [], ◌∷◌, ◌++◌, Result, ok, err, then_ok,
}
use pyo.FnAttr
use pyo.FnAttr.{Argument, Lit, str, NestedMeta, AttrError, from_meta}
use pyo.MethodSpec.Types.{SynType}

-- `Ident::parse`, for a text in quotes, whether a path has one segment, and `unraw`.
pub record Syn : Type 0 where
  pub parse_ident : String → Option String
  pub is_segment : String → Bool
  pub unraw : String → String

pub data Meta : Type 0 where
  word : Meta
  list : (nested : List NestedMeta) → Meta
  name_value : (lit : Lit) → Meta

-- `meta` is none if `parse_meta` fails.
pub record Attribute : Type 0 where
  pub path : String
  pub inner : Bool
  pub meta : Option Meta

pub data FnType : Type 0 where
  getter setter fn fn_new fn_call fn_class fn_static class_attribute : FnType
  py_self_ref py_self_path : SynType → FnType

pub data SpecError : Type 0 where
  bad_meta bad_ident init_disabled inner_style used_twice requires_one_value : SpecError
  requires_str expected_name name_twice name_requires_str name_not_allowed : SpecError
  bad_arguments : AttrError → SpecError
  unsupported_argument needs_staticmethod invalid_self class_attribute_arguments : SpecError
  signature_twice signature_parentheses signature_form signature_not_allowed : SpecError
  invalid_doc : SpecError

-- `new_attrs`, `args`, `res` and `property_name` of `parse_method_attributes`.
pub record Progress : Type 0 where
  pub new_attrs : List Attribute
  pub args : List Argument
  pub res : Option FnType
  pub property_name : Option String

abbrev pub ident_or_error : Option String → Result (Option String) SpecError
ident_or_error none = err bad_ident
ident_or_error (some ident) = ok (some ident)

abbrev keep : Attribute → Progress → Progress
keep a s = record s { new_attrs = s.new_attrs ++ a ∷ [] }

-- The checks of a setter or getter.
pub check_property : Attribute → Progress → Result (Unit {0}) SpecError
check_property a s =
    if a.inner then err inner_style else if is_some s.res then err used_twice else ok tt

abbrev property_type : String → FnType
property_type name = if name == "setter" then setter else getter

pub add_word : Attribute → Progress → Result Progress SpecError
unfolding check_property
add_word a s =
    if a.path == "new" || a.path == "__new__"
    then ok (record s { res = some fn_new })
    else if a.path == "init" || a.path == "__init__"
    then err init_disabled
    else if a.path == "call" || a.path == "__call__"
    then ok (record s { res = some fn_call })
    else if a.path == "classmethod"
    then ok (record s { res = some fn_class })
    else if a.path == "staticmethod"
    then ok (record s { res = some fn_static })
    else if a.path == "classattr"
    then ok (record s { res = some class_attribute })
    else if a.path == "setter" || a.path == "getter"
    then then_ok (check_property a s) (λ u. ok (record s { res = some (property_type a.path) }))
    else ok (keep a s)

-- `parse_name_attribute`: the literals of the `name` attributes, and the others.
unfoldable pub name_literal : Attribute → Option Lit
name_literal a = elim a.meta [
  | some (name_value lit) ↦ if a.path == "name" then some lit else none
  | some word ↦ none
  | some (list nested) ↦ none
  | none ↦ none
]

unfoldable pub name_literals : List Attribute → List Lit
name_literals [] = []
name_literals (a ∷ attrs) = elim (name_literal a) [
  | some lit ↦ lit ∷ name_literals attrs
  | none ↦ name_literals attrs
]

unfoldable pub without_names : List Attribute → List Attribute
without_names [] = []
without_names (a ∷ attrs) = elim (name_literal a) [
  | some lit ↦ without_names attrs
  | none ↦ a ∷ without_names attrs
]

abbrev pub forbids_name : FnType → Bool
forbids_name fn_new = true
forbids_name fn_call = true
forbids_name getter = true
forbids_name setter = true
forbids_name ty = false

abbrev pub chosen_name : FnType → (name property_name : Option String) → Option String
chosen_name fn_new name property_name = some "__new__"
chosen_name fn_call name property_name = some "__call__"
chosen_name getter name property_name = property_name
chosen_name setter name property_name = property_name
chosen_name ty name property_name = name

pub record MethodAttributes : Type 0 where
  pub ty : FnType
  pub args : List Argument
  pub python_name : Option String

abbrev pub type_or_fn : Option FnType → FnType
type_or_fn none = fn
type_or_fn (some ty) = ty

abbrev pub start : Progress
start = record { new_attrs = []; args = []; res = none; property_name = none }

module _ (syn : Syn) where
  nested_name : NestedMeta → Result (Option String) SpecError
  nested_name (FnAttr.path w) = if syn.is_segment w then ok (some w) else err expected_name
  nested_name (FnAttr.literal (str s)) = ident_or_error (syn.parse_ident s)
  nested_name (FnAttr.literal lit) = err requires_str
  nested_name nested = err expected_name

  pub property_name_of : List NestedMeta → Result (Option String) SpecError
  unfolding nested_name
  property_name_of (nested ∷ []) = nested_name nested
  property_name_of nested = err requires_one_value

  pub add_arguments : Result FnAttr.PyFunctionAttr AttrError → Progress → Result Progress SpecError
  add_arguments (ok attrs) s = ok (record s { args = s.args ++ attrs.arguments })
  add_arguments (err e) s = err (bad_arguments e)

  pub add_list : Attribute → List NestedMeta → Progress → Result Progress SpecError
  unfolding check_property property_name_of add_arguments
  add_list a nested s =
      if a.path == "new"
      then ok (record s { res = some fn_new })
      else if a.path == "init"
      then err init_disabled
      else if a.path == "call"
      then ok (record s { res = some fn_call })
      else if a.path == "setter" || a.path == "getter"
      then then_ok (check_property a s) (λ u.
        then_ok (property_name_of nested)
          (λ name. ok (record s { res = some (property_type a.path); property_name = name })))
      else if a.path == "args"
      then add_arguments (from_meta nested) s
      else ok (keep a s)

  pub add_attribute : Attribute → Progress → Result Progress SpecError
  unfolding add_word add_list
  add_attribute a s = elim a.meta [
    | none ↦ err bad_meta
    | some word ↦ add_word a s
    | some (list nested) ↦ add_list a nested s
    | some (name_value lit) ↦ ok (keep a s)
  ]

  unfoldable pub add_attributes : List Attribute → Progress → Result Progress SpecError
  unfolding add_attribute
  add_attributes [] s = ok s
  add_attributes (a ∷ attrs) s = then_ok (add_attribute a s) λ s'. add_attributes attrs s'

  name_of : List Lit → Result (Option String) SpecError
  name_of [] = ok none
  name_of (str s ∷ []) = ident_or_error (syn.parse_ident s)
  name_of (lit ∷ []) = err name_requires_str
  name_of lits = err name_twice

  unfoldable pub parse_name_attribute :
      List Attribute → Result (Option String × List Attribute) SpecError
  unfolding name_of
  parse_name_attribute attrs =
      then_ok (name_of (name_literals attrs)) λ name. ok (name, without_names attrs)

  unfoldable pub parse_method_name_attribute :
      FnType → List Attribute → Option String → Result (Option String × List Attribute) SpecError
  parse_method_name_attribute ty attrs property_name =
      then_ok (parse_name_attribute attrs) λ (name, left).
        if is_some name && forbids_name ty
        then err name_not_allowed
        else ok (chosen_name ty name property_name, left)

  -- The end of `parse_method_attributes`, after the loop.
  with_name :
      (allow_custom_name : Bool) → Progress → Result (MethodAttributes × List Attribute) SpecError
  with_name true s =
      then_ok (parse_method_name_attribute (type_or_fn s.res) s.new_attrs s.property_name)
        λ (name, left).
          ok (record { ty = type_or_fn s.res; args = s.args; python_name = name }, left)
  with_name false s =
      ok (
        record { ty = type_or_fn s.res; args = s.args; python_name = s.property_name },
        s.new_attrs,
      )

  -- `attrs` afterwards is the second part of the result.
  unfoldable pub parse_method_attributes :
      List Attribute
      → (allow_custom_name : Bool) → Result (MethodAttributes × List Attribute) SpecError
  unfolding add_attributes with_name
  parse_method_attributes attrs allow_custom_name =
      then_ok (add_attributes attrs start) λ s. with_name allow_custom_name s
