-- ===== src/MethodSpec/Examples.antt =====
-- A method `fn scale(&self, py: Python, factor: i64, unit: Option<&str>, times: i64, *rest)` with
-- `#[args(factor, times = "2", rest = "*")]`, as pyo3-derive-backend/src/method.rs reads it.
use pyo.Base.{ℕ, ◌≡◌, refl, arith, true, false, none, some, String, List, [], ◌∷◌, ret, ok}
use pyo.FnAttr.{Argument, arg, var_args}
use pyo.FnArgs.Dict.{DictOps, IsDict}
use pyo.FnArgs.{Parsed, parse_fn_args, assign_all, assign}
use pyo.FnArgs.Reference.{bind_all, IsDistinct}
use pyo.MethodSpec.{
  FnArg, is_args, is_kwargs, default_value, is_kw_only, is_optional, params, param_conversion,
  accepts_args, accepts_kwargs, python, rest_args, object, default, absent, run_bindings,
}
use pyo.MethodSpec.Arguments.{expected, run_bindings_lem}

-- A dictionary that has no items.
abbrev no_items : DictOps (Unit {0}) ℕ String
no_items = record {
  copy = ok;
  get_item = λ k d. none;
  del_item = λ k d. ok d;
  is_empty = λ d. true;
  first_key = λ d. none;
}

no_items-IsDict : IsDict no_items
no_items-IsDict = record {
  copy_ok = λ d. refl;
  del_ok = λ k d e. (tt, refl);
  get-del = λ j k d e. ground arith;
  empty_get = λ k d e. refl;
  nonempty_key = λ d e. absurd (cc);
}

abbrev scale_attrs : List Argument
scale_attrs = arg "factor" none ∷ arg "times" (some "2") ∷ var_args "rest" ∷ []

abbrev scale_args : List FnArg
scale_args =
    record { name = "py"; py = true; optional = none; reference = false }
    ∷ record { name = "factor"; py = false; optional = none; reference = false }
    ∷ record { name = "unit"; py = false; optional = some true; reference = true }
    ∷ record { name = "rest"; py = false; optional = none; reference = true }
    ∷ record { name = "times"; py = false; optional = none; reference = false }
    ∷ []

scale-IsDistinct : IsDistinct (params scale_attrs scale_args)
unfolding params is_args is_kwargs
scale-IsDistinct = (refl, (refl, (refl, tt)))

abbrev scale_parsed : Parsed (Unit {0}) ℕ
scale_parsed = record { output = some 5 ∷ none ∷ none ∷ []; args = []; kwargs = none }

scale_call :
    parse_fn_args no_items
      (5 ∷ [])
      (params scale_attrs scale_args)
      none
      (accepts_args scale_attrs)
      (accepts_kwargs scale_attrs)
    ≡ ret (ok scale_parsed)
unfolding parse_fn_args params is_args is_kwargs is_optional is_kw_only default_value assign_all
    assign accepts_args accepts_kwargs
scale_call = refl

run_bindings_lem_example :
    (bind_all no_items (5 ∷ []) 0 (params scale_attrs scale_args) none
      ≡ ok (some 5 ∷ none ∷ none ∷ []))
    × (run_bindings {D = Unit {0}} {V = ℕ}
          (some 5 ∷ none ∷ none ∷ [])
          []
          none
          (param_conversion scale_attrs scale_args 0)
        ≡ ret (
            expected {D = Unit {0}} {V = ℕ} scale_attrs scale_args [] none
              (some 5 ∷ none ∷ none ∷ [])))
run_bindings_lem_example =
    run_bindings_lem no_items (5 ∷ []) scale_attrs scale_args none scale_parsed no_items-IsDict
      scale-IsDistinct scale_call

-- What each argument is bound to in that call.
scale_bound :
    expected {D = Unit {0}} {V = ℕ} scale_attrs scale_args [] none (some 5 ∷ none ∷ none ∷ [])
    ≡ python ∷ object 5 ∷ absent ∷ rest_args [] ∷ default "2" ∷ []
unfolding expected is_args is_kwargs default_value
scale_bound = refl
