-- ===== src/FnArgs.antt =====
-- `parse_fn_args` of src/derive_utils.rs: a call's positional and keyword arguments are matched to
-- the parameters of a Rust function. A tuple is the list of its items; the text of an error is
-- made from the constructor of `ArgError`.
pub mod Dict
pub mod Reference
pub mod Calls
pub mod SeveralValues
mod Examples
use pyo.Base.{
  ℕ, suc, ◌+◌, ◌≡◌, Bool, true, false, not, ◌&&◌, if◌then◌else◌, ltb, Option, none, some, List, [],
  ◌∷◌, length, get_elem?, drop, String, Outcome, ret, panic, Result, ok, err, then_ok,
}
use Dict.{DictOps}

pub record ParamDescription : Type 0 where
  pub name : String
  pub is_optional : Bool
  pub kw_only : Bool

-- The `TypeError`s that `raise_error!` makes, and an exception that a dictionary raised.
pub data ArgError (E : Type 0) : Type 0 where
  multiple_values : String → ArgError E
  missing_keyword_only : String → ArgError E
  missing_positional : String → ArgError E
  unexpected_keyword : String → ArgError E
  too_many_positional : (used given : ℕ) → ArgError E
  raised : E → ArgError E

-- The loop's state: what is left of `kwargs`, and `used_args`.
pub record Progress (D : Type 0) : Type 0 where
  pub kwargs : Option D
  pub used_args : ℕ

-- The filled `output` slice, and the pair that is returned.
pub record Parsed (D V : Type 0) : Type 0 where
  pub output : List (Option V)
  pub args : List V
  pub kwargs : Option D

module _ {D V E : Type 0} (ops : DictOps D V E) (args : List V) where
  -- The arm `None` of the loop's `match`.
  pub positional : ℕ → ParamDescription → Progress D → Result (Option V × Progress D) (ArgError E)
  positional i p s =
      if p.kw_only
      then (if p.is_optional then ok (none, s) else err (missing_keyword_only p.name))
      else if ltb i (length args)
      then ok (get_elem? args i, record s { used_args = s.used_args + 1 })
      else if p.is_optional
      then ok (none, s)
      else err (missing_positional p.name)

  deleted : V → Progress D → Result D E → Result (Option V × Progress D) (ArgError E)
  deleted v s (ok d) = ok (some v, record s { kwargs = some d })
  deleted v s (err e) = err (raised e)

  -- The arm `Some(kwarg)`.
  pub keyword :
      ℕ → ParamDescription → V → D → Progress D → Result (Option V × Progress D) (ArgError E)
  unfolding deleted
  keyword i p v d s =
      if ltb i (length args)
      then err (multiple_values p.name)
      else deleted v s (ops.del_item p.name d)

  pub assign_from :
      ℕ → ParamDescription → Progress D → Option D → Result (Option V × Progress D) (ArgError E)
  unfolding positional keyword
  assign_from i p s none = positional i p s
  assign_from i p s (some d) = elim (ops.get_item p.name d) [
    | some v ↦ keyword i p v d s
    | none ↦ positional i p s
  ]

  -- One round of the loop, for the parameter with index `i`.
  unfoldable pub assign :
      ℕ → ParamDescription → Progress D → Result (Option V × Progress D) (ArgError E)
  unfolding assign_from
  assign i p s = assign_from i p s s.kwargs

  unfoldable pub assign_all :
      ℕ → List ParamDescription → Progress D → Result (List (Option V) × Progress D) (ArgError E)
  assign_all i [] s = ok ([], s)
  assign_all i (p ∷ ps) s =
      then_ok (assign i p s)
        λ (out, s'). then_ok (assign_all (suc i) ps s') λ (outs, s''). ok (out ∷ outs, s'')

  abbrev pub is_kwargs_empty : Option D → Bool
  is_kwargs_empty none = true
  is_kwargs_empty (some d) = ops.is_empty d

  -- `kwargs.unwrap().iter().next().unwrap()`; the second `unwrap` panics on an empty dictionary.
  pub refuse_key : Option D → Outcome (Result (Parsed D V) (ArgError E))
  refuse_key none = panic "called `Option::unwrap()` on a `None` value"
  refuse_key (some d) = elim (ops.first_key d) [
    | some key ↦ ret (err (unexpected_keyword key))
    | none ↦ panic "called `Option::unwrap()` on a `None` value"
  ]

  -- The checks after the loop, and the adjustment of what is left.
  pub finish :
      Bool → Bool → List (Option V) → Progress D → Outcome (Result (Parsed D V) (ArgError E))
  unfolding refuse_key
  finish accept_args accept_kwargs output s =
      if not accept_kwargs && not (is_kwargs_empty s.kwargs)
      then refuse_key s.kwargs
      else if not accept_args && ltb s.used_args (length args)
      then ret (err (too_many_positional s.used_args (length args)))
      else ret (
          ok (record {
            output = output;
            args = if accept_args then drop s.used_args args else args;
            kwargs = if accept_kwargs && is_kwargs_empty s.kwargs then none else s.kwargs;
          }))

  pub finish_all :
      Bool
      → Bool
      → Result (List (Option V) × Progress D) (ArgError E)
      → Outcome (Result (Parsed D V) (ArgError E))
  unfolding finish
  finish_all accept_args accept_kwargs (ok (output, s)) = finish accept_args accept_kwargs output s
  finish_all accept_args accept_kwargs (err e) = ret (err e)

  -- `kwargs` is copied first.
  pub copy_kwargs : Option D → Result (Option D) E
  copy_kwargs none = ok none
  copy_kwargs (some d) = elim (ops.copy d) [ ok d' ↦ ok (some d') | err e ↦ err e ]

  unfoldable pub parse_fn_args :
      List ParamDescription → Option D → Bool → Bool → Outcome (Result (Parsed D V) (ArgError E))
  unfolding copy_kwargs finish_all
  parse_fn_args params kwargs accept_args accept_kwargs = elim (copy_kwargs kwargs) [
    | ok k ↦
        finish_all accept_args accept_kwargs
          (assign_all 0 params (record { kwargs = k; used_args = 0 }))
    | err e ↦ ret (err (raised e))
  ]
