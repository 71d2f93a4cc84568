-- ===== src/MethodSpec.antt =====
-- `FnSpec` of pyo3-derive-backend/src/method.rs, and the code that
-- pyo3-derive-backend/src/pymethod.rs generates to receive a call's arguments. A default value and a
-- name are texts; a type is what the code asks of it.
pub mod Filled
pub mod Arguments
pub mod Types
pub mod Attributes
pub mod Doc
pub mod Parse
mod Examples
mod ParseExamples
use text.Mathlib.Text.{◌==◌}
use pyo.Base.{
  is_some, ℕ, suc, ◌+◌, ◌≡◌, Bool, true, false, not, ◌||◌, if◌then◌else◌, Option, none, some,
  String, List, [], ◌∷◌, get_elem?, Outcome, ret, panic, and_then,
}
use pyo.FnAttr.{Argument, var_args_separator, var_args, keyword_args, arg, kwarg}
use pyo.FnArgs.{ParamDescription}

-- `reference` is whether the type is a reference, and `optional` has, for an `Option`, whether the
-- type inside is one.
pub record FnArg : Type 0 where
  pub name : String
  pub py : Bool
  pub optional : Option Bool
  pub reference : Bool

unfoldable pub is_args : List Argument → String → Bool
is_args [] name = false
is_args (var_args path ∷ attrs) name = path == name
is_args (_ ∷ attrs) name = is_args attrs name

unfoldable pub is_kwargs : List Argument → String → Bool
is_kwargs [] name = false
is_kwargs (keyword_args path ∷ attrs) name = path == name
is_kwargs (_ ∷ attrs) name = is_kwargs attrs name

unfoldable pub default_value : List Argument → String → Option String
default_value [] name = none
default_value (arg path (some val) ∷ attrs) name =
    if path == name then some val else default_value attrs name
default_value (kwarg path val ∷ attrs) name =
    if path == name then some val else default_value attrs name
default_value (_ ∷ attrs) name = default_value attrs name

unfoldable pub is_kw_only : List Argument → String → Bool
is_kw_only [] name = false
is_kw_only (kwarg path val ∷ attrs) name = (path == name) || is_kw_only attrs name
is_kw_only (_ ∷ attrs) name = is_kw_only attrs name

-- The arguments that no parameter description is made for.
abbrev pub is_skipped : List Argument → FnArg → Bool
is_skipped attrs a = a.py || (is_args attrs a.name || is_kwargs attrs a.name)

unfoldable pub is_optional : List Argument → FnArg → Bool
is_optional attrs a = is_some a.optional || is_some (default_value attrs a.name)

-- `PARAMS`.
unfoldable pub params : List Argument → List FnArg → List ParamDescription
params attrs [] = []
params attrs (a ∷ rest) =
    let others = params attrs rest in
    if is_skipped attrs a
    then others
    else record {
      name = a.name;
      is_optional = is_optional attrs a;
      kw_only = is_kw_only attrs a.name;
    }
      ∷ others

-- The generated binding of one argument; `pos` is the place in `output` that it reads.
pub data Binding : Type 0 where
  py_marker all_args all_kwargs : Binding
  optional_value : (pos : ℕ) (default : Option String) (by_reference : Bool) → Binding
  value_or : (pos : ℕ) (default : String) → Binding
  required : (pos : ℕ) (by_reference : Bool) → Binding

abbrev not_none : Option String → Option String
not_none none = none
not_none (some d) = if d == "None" then none else some d

unfoldable pub value_binding : List Argument → FnArg → ℕ → Binding
value_binding attrs a pos = elim a.optional [
  | some by_reference ↦ optional_value pos (not_none (default_value attrs a.name)) by_reference
  | none ↦ elim (default_value attrs a.name) [
    | some d ↦ value_or pos d
    | none ↦ required pos a.reference
  ]
]

-- `impl_arg_param`, with `option_pos` before and after.
unfoldable pub impl_arg_param : List Argument → FnArg → ℕ → Binding × ℕ
impl_arg_param attrs a pos =
    if a.py
    then (py_marker, pos)
    else if is_args attrs a.name
    then (all_args, pos)
    else if is_kwargs attrs a.name
    then (all_kwargs, pos)
    else (value_binding attrs a pos, suc pos)

unfoldable pub param_conversion : List Argument → List FnArg → ℕ → List Binding
param_conversion attrs [] pos = []
param_conversion attrs (a ∷ rest) pos =
    let (binding, next) = impl_arg_param attrs a pos in binding ∷ param_conversion attrs rest next

unfoldable pub accepts_args : List Argument → Bool
accepts_args [] = false
accepts_args (var_args path ∷ attrs) = true
accepts_args (_ ∷ attrs) = accepts_args attrs

unfoldable pub accepts_kwargs : List Argument → Bool
accepts_kwargs [] = false
accepts_kwargs (keyword_args path ∷ attrs) = true
accepts_kwargs (_ ∷ attrs) = accepts_kwargs attrs

-- What an argument of the Rust function is bound to.
pub data Received (D V : Type 0) : Type 0 where
  python : Received D V
  rest_args : List V → Received D V
  rest_kwargs : Option D → Received D V
  object : V → Received D V
  default : String → Received D V
  absent : Received D V

-- A run of the generated code up to the conversion of the object.
module _ {D V : Type 0} (output : List (Option V)) (args : List V) (kwargs : Option D) where
  unfoldable pub default_or_absent : Option String → Received D V
  default_or_absent none = absent
  default_or_absent (some d) = default d

  unfoldable pub object_or : Outcome (Received D V) → Option (Option V) → Outcome (Received D V)
  object_or other none = panic "index out of bounds"
  object_or other (some none) = other
  object_or other (some (some v)) = ret (object v)

  unfoldable pub run_binding : Binding → Outcome (Received D V)
  unfolding default_or_absent object_or
  run_binding py_marker = ret python
  run_binding all_args = ret (rest_args args)
  run_binding all_kwargs = ret (rest_kwargs kwargs)
  run_binding (optional_value pos d by_reference) =
      object_or (ret (default_or_absent d)) (get_elem? output pos)
  run_binding (value_or pos d) = object_or (ret (default d)) (get_elem? output pos)
  run_binding (required pos by_reference) =
      object_or (panic "called `Option::unwrap()` on a `None` value") (get_elem? output pos)

  unfoldable pub run_bindings : List Binding → Outcome (List (Received D V))
  run_bindings [] = ret []
  run_bindings (b ∷ bs) =
      and_then (run_binding b) λ r. and_then (run_bindings bs) λ rs. ret (r ∷ rs)
