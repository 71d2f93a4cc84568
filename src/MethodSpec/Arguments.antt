-- ===== src/MethodSpec/Arguments.antt =====
-- The generated code that receives a call's arguments (`impl_arg_params` of
-- pyo3-derive-backend/src/pymethod.rs), after `parse_fn_args` of src/derive_utils.rs.
use mathlib.Core.List.{append_assoc}
use pyo.Base.{
  Result-cases, ℕ, suc, ◌≡◌, ◌≢◌, refl, sym, subst, ap, ◌∙◌, arith, false, Bool-cases, inl, inr,
  if◌then◌else◌, Option, none, some, List, [], ◌∷◌, ◌++◌, length, length-append, get_elem?, Outcome,
  ret, and_then, ok, Option-cases,
}
use pyo.FnAttr.{Argument}
use pyo.FnArgs.{ParamDescription, Parsed, parse_fn_args}
use pyo.FnArgs.Dict.{DictOps, IsDict}
use pyo.FnArgs.Reference.{IsDistinct, bind_all}
use pyo.FnArgs.Calls.{parse_fn_args_unbound, parsed-bound, finish-output}
use pyo.MethodSpec.{
  accepts_args, accepts_kwargs, FnArg, is_args, is_kwargs, default_value, is_kw_only, is_optional,
  params, not_none, value_binding, impl_arg_param, param_conversion, Received, python, rest_args,
  rest_kwargs, object, default, absent, default_or_absent, object_or, run_binding, run_bindings,
}
use pyo.MethodSpec.Filled.{Fits, bind_all-Fits}

abbrev head_of : {V : Type 0} → List (Option V) → Option V
head_of [] = none
head_of (o ∷ os) = o

abbrev tail_of : {V : Type 0} → List (Option V) → List (Option V)
tail_of [] = []
tail_of (o ∷ os) = os

module _ {D V : Type 0} where
  -- What each argument should be bound to: each that has a parameter takes the next value of the
  -- output; where this is missing, it is the default.
  default_of : List Argument → FnArg → Received D V
  default_of attrs a = elim a.optional [
    | some by_reference ↦ elim (not_none (default_value attrs a.name)) [
      | none ↦ absent
      | some d ↦ default d
    ]
    | none ↦ elim (default_value attrs a.name) [ none ↦ absent | some d ↦ default d ]
  ]

  object_else : Received D V → Option V → Received D V
  object_else other none = other
  object_else other (some v) = object v

  unfoldable pub expected :
      List Argument → List FnArg → List V → Option D → List (Option V) → List (Received D V)
  unfolding object_else default_of
  expected attrs [] args kwargs outs = []
  expected attrs (a ∷ rest) args kwargs outs =
      let same = expected attrs rest args kwargs outs in
      let next = expected attrs rest args kwargs (tail_of outs) in
      if a.py
      then python ∷ same
      else if is_args attrs a.name
      then rest_args args ∷ same
      else if is_kwargs attrs a.name
      then rest_kwargs kwargs ∷ same
      else object_else (default_of attrs a) (head_of outs) ∷ next

abbrev description : List Argument → FnArg → ParamDescription
description attrs a = record {
  name = a.name;
  is_optional = is_optional attrs a;
  kw_only = is_kw_only attrs a.name;
}

module _ {D V : Type 0} (args : List V) (kwargs : Option D) where
  get_elem?-append :
      (before outs : List (Option V))
      → get_elem? (before ++ outs) (length before) ≡ get_elem? outs 0
  get_elem?-append [] outs = refl
  get_elem?-append (o ∷ before) outs = get_elem?-append before outs

  object_or_ret :
      (output : List (Option V)) (x : Received D V) (o : Option V)
      → object_or output args kwargs (ret x) (some o) ≡ ret (object_else x o)
  unfolding object_or object_else
  object_or_ret output x none = refl
  object_or_ret output x (some v) = refl

  object_or-some :
      (output : List (Option V)) (other : Outcome (Received D V)) (x : Received D V) (o : Option V)
      → o ≢ none
      → object_or output args kwargs other (some o) ≡ ret (object_else x o)
  unfolding object_or object_else
  object_or-some output other x none some_value = absurd (some_value refl)
  object_or-some output other x (some v) some_value = refl

  value_run :
      (attrs : List Argument) (a : FnArg) (output : List (Option V)) (pos : ℕ) (o : Option V)
      → get_elem? output pos ≡ some o
      → (is_optional attrs a ≡ false → o ≢ none)
      → run_binding output args kwargs (value_binding attrs a pos)
        ≡ ret (object_else (default_of attrs a) o)
  unfolding run_binding value_binding default_of is_optional default_or_absent
  value_run attrs a output pos o found given = elim (Option-cases a.optional) [
    | inl plain ↦ elim (Option-cases (default_value attrs a.name)) [
      | inl needed ↦
          rw (plain, value_binding, default_of, needed, found)
            (object_or-some output _ _ o (given (rw (plain, needed, is_optional) refl)))
      | inr (d, has) ↦ rw (plain, value_binding, default_of, has, found) (object_or_ret output _ o)
    ]
    | inr (by_reference, opt) ↦ elim (Option-cases (not_none (default_value attrs a.name))) [
      | inl nothing ↦ rw (opt, value_binding, default_of, nothing, found) (object_or_ret output _ o)
      | inr (d, has) ↦ rw (opt, value_binding, default_of, has, found) (object_or_ret output _ o)
    ]
  ]

  abbrev Runs : List Argument → List FnArg → Type 0
  Runs attrs rest =
      (before outs : List (Option V))
      → Fits (params attrs rest) outs
      → run_bindings (before ++ outs) args kwargs (param_conversion attrs rest (length before))
        ≡ ret (expected attrs rest args kwargs outs)

  -- An argument that has a parameter, and then the others.
  run_param :
      (attrs : List Argument) (a : FnArg) (rest : List FnArg) (before outs : List (Option V))
      → Runs attrs rest
      → Fits (description attrs a ∷ params attrs rest) outs
      → and_then {B = List (Received D V)}
          (run_binding (before ++ outs) args kwargs (value_binding attrs a (length before)))
          (λ r.
            and_then {B = List (Received D V)}
              (run_bindings
                (before ++ outs)
                args
                kwargs
                (param_conversion attrs rest (suc (length before))))
              (λ rs. ret (r ∷ rs)))
        ≡ ret (
            object_else (default_of attrs a) (head_of outs)
            ∷ expected attrs rest args kwargs (tail_of outs))
  run_param attrs a rest before [] runs fits = absurd fits
  run_param attrs a rest before (o ∷ os) runs (given, fits) =
      let place : length (before ++ o ∷ []) ≡ suc (length before) =
        ground (arith, length-append before (o ∷ [])) in
      let others =
        rw (append_assoc before (o ∷ []) os, place) at (runs (before ++ o ∷ []) os fits) in
      rw
        (
          value_run attrs a (before ++ o ∷ os) (length before) o (get_elem?-append before (o ∷ os))
              given,
          others,
        )
        refl

  run_all : (attrs : List Argument) (rest : List FnArg) → Runs attrs rest
  unfolding run_bindings run_binding param_conversion impl_arg_param params expected
  run_all attrs [] before outs fits = refl
  run_all attrs (a ∷ rest) before outs fits = elim (Bool-cases a.py) [
    | inl py ↦ rw (py, run_all attrs rest before outs (rw py at fits)) refl
    | inr not_py ↦ elim (Bool-cases (is_args attrs a.name)) [
      | inl all ↦ rw (not_py, all, run_all attrs rest before outs (rw (not_py, all) at fits)) refl
      | inr not_all ↦ elim (Bool-cases (is_kwargs attrs a.name)) [
        | inl keys ↦
            rw
              (
                not_py,
                not_all,
                keys,
                run_all attrs rest before outs (rw (not_py, not_all, keys) at fits),
              )
              refl
        | inr not_keys ↦
            rw (not_py, not_all, not_keys)
              (run_param attrs (record a { py = false }) rest before outs (run_all attrs rest)
                (rw (not_py, not_all, not_keys) at fits))
      ]
    ]
  ]

module _ {D V E : Type 0} (ops : DictOps D V E) (args : List V) where
  -- When the parameters' names differ and the call of `parse_fn_args` that is generated accepts the
  -- arguments, each parameter has the
  -- value that it should have on its own, and the code generated after the call does not panic: each
  -- argument of the Rust function is bound to its own parameter's value, to its default, or to the
  -- arguments that are left.
  pub run_bindings_lem :
      (attrs : List Argument) (fn_args : List FnArg) (kwargs : Option D) (r : Parsed D V)
      → IsDict ops
      → IsDistinct (params attrs fn_args)
      → parse_fn_args ops args
          (params attrs fn_args)
          kwargs
          (accepts_args attrs)
          (accepts_kwargs attrs)
        ≡ ret (ok r)
      → (bind_all ops args 0 (params attrs fn_args) kwargs ≡ ok r.output)
        × (run_bindings r.output r.args r.kwargs (param_conversion attrs fn_args 0)
            ≡ ret (expected attrs fn_args r.args r.kwargs r.output))
  run_bindings_lem attrs fn_args kwargs r lawful distinct accepted =
      elim (Result-cases (bind_all ops args 0 (params attrs fn_args) kwargs)) [
        | inl (outs, bound) ↦
            let (k, whole, gone) =
              parsed-bound ops lawful args (params attrs fn_args) distinct kwargs
                (accepts_args attrs) (accepts_kwargs attrs) outs bound in
            let same =
              finish-output ops args (accepts_args attrs) (accepts_kwargs attrs) outs _ r
                (sym whole ∙ accepted) in
            (
              bound ∙ ap ok same,
              run_all r.args r.kwargs attrs fn_args [] r.output (
                  subst (Fits (params attrs fn_args)) same
                    (bind_all-Fits ops args 0 (params attrs fn_args) kwargs outs bound)),
            )
        | inr (e, unbound) ↦ absurd (
            ground (
              arith,
              accepted,
              parse_fn_args_unbound ops lawful args (params attrs fn_args) distinct kwargs
                  (accepts_args attrs) (accepts_kwargs attrs) unbound,
            ))
      ]
