-- ===== src/FnAttr.antt =====
-- `PyFunctionAttr` of pyo3-derive-backend/src/pyfunction.rs: the arguments of `#[pyfunction(…)]` and
-- `#[args(…)]`. A path is its text, and an integer literal is what it is printed as.
pub mod Signature
pub mod Accepts
pub mod Extensions
pub mod Refusals
pub mod Exact
mod Examples
use text.Mathlib.Text.{◌==◌}
use pyo.Base.{
  Bool, true, false, ◌||◌, if◌then◌else◌, Option, none, some, String, List, [], ◌∷◌, ◌++◌, Result,
  ok, err, then_ok,
}

-- `syn::Lit` and `syn::NestedMeta`.
pub data Lit : Type 0 where
  str : (value : String) → Lit
  int : (printed : String) → Lit
  boolean : (value : Bool) → Lit
  other_literal : Lit

pub data NestedMeta : Type 0 where
  path : (name : String) → NestedMeta
  name_value : (name : String) → Lit → NestedMeta
  literal : Lit → NestedMeta
  meta_list : NestedMeta

pub data Argument : Type 0 where
  var_args_separator : Argument
  var_args : (name : String) → Argument
  keyword_args : (name : String) → Argument
  arg : (name : String) → Option String → Argument
  kwarg : (name value : String) → Argument

pub record PyFunctionAttr : Type 0 where
  pub arguments : List Argument
  pub has_kw : Bool
  pub has_varargs : Bool
  pub has_kwargs : Bool

pub data AttrError : Type 0 where
  list_not_supported only_star_literal positional_after_keyword positional_after_star : AttrError
  star_not_allowed keyword_after_kwargs only_string_literal : AttrError

abbrev push : Argument → PyFunctionAttr → PyFunctionAttr
push a slf = record slf { arguments = slf.arguments ++ a ∷ [] }

vararg_is_ok : PyFunctionAttr → Result (Unit {0}) AttrError
vararg_is_ok slf = if slf.has_kwargs || slf.has_varargs then err star_not_allowed else ok tt

kw_arg_is_ok : PyFunctionAttr → Result (Unit {0}) AttrError
kw_arg_is_ok slf = if slf.has_kwargs then err keyword_after_kwargs else ok tt

add_star : Argument → PyFunctionAttr → Result PyFunctionAttr AttrError
unfolding vararg_is_ok
add_star a slf = then_ok (vararg_is_ok slf) λ u. ok (push a (record slf { has_varargs = true }))

add_literal : Lit → PyFunctionAttr → Result PyFunctionAttr AttrError
unfolding add_star
add_literal (str value) slf =
    if value == "*" then add_star var_args_separator slf else err only_star_literal
add_literal lit slf = err only_star_literal

add_work : String → PyFunctionAttr → Result PyFunctionAttr AttrError
add_work name slf =
    if slf.has_kw || slf.has_kwargs
    then err positional_after_keyword
    else if slf.has_varargs
    then err positional_after_star
    else ok (push (arg name none) slf)

add_nv_common : String → String → PyFunctionAttr → Result PyFunctionAttr AttrError
unfolding kw_arg_is_ok
add_nv_common name value slf = then_ok (kw_arg_is_ok slf) λ u.
    if slf.has_varargs
    then ok (push (kwarg name value) slf)
    else ok (push (arg name (some value)) (record slf { has_kw = true }))

abbrev pub printed_bool : Bool → String
printed_bool true = "true"
printed_bool false = "false"

add_kwargs : String → PyFunctionAttr → Result PyFunctionAttr AttrError
unfolding kw_arg_is_ok
add_kwargs name slf =
    then_ok (kw_arg_is_ok slf) λ u. ok (push (keyword_args name) (record slf { has_kwargs = true }))

add_name_value : String → Lit → PyFunctionAttr → Result PyFunctionAttr AttrError
unfolding add_star add_kwargs add_nv_common
add_name_value name (str value) slf =
    if value == "*"
    then add_star (var_args name) slf
    else if value == "**"
    then add_kwargs name slf
    else add_nv_common name value slf
add_name_value name (int printed) slf = add_nv_common name printed slf
add_name_value name (boolean value) slf = add_nv_common name (printed_bool value) slf
add_name_value name other_literal slf = err only_string_literal

unfoldable pub add_item : NestedMeta → PyFunctionAttr → Result PyFunctionAttr AttrError
unfolding add_work add_name_value add_literal
add_item (path name) slf = add_work name slf
add_item (name_value name lit) slf = add_name_value name lit slf
add_item (literal lit) slf = add_literal lit slf
add_item meta_list slf = err list_not_supported

unfoldable pub add_items : List NestedMeta → PyFunctionAttr → Result PyFunctionAttr AttrError
unfolding add_item
add_items [] slf = ok slf
add_items (item ∷ items) slf = then_ok (add_item item slf) λ slf'. add_items items slf'

abbrev pub default_attr : PyFunctionAttr
default_attr = record { arguments = []; has_kw = false; has_varargs = false; has_kwargs = false }

unfoldable pub from_meta : List NestedMeta → Result PyFunctionAttr AttrError
unfolding add_items
from_meta items = add_items items default_attr
