-- ===== src/FnArgs/SeveralValues.antt =====
-- Keyword arguments beside positional ones, also for keyword-only parameters, in `parse_fn_args` of
-- src/derive_utils.rs.
use pyo.Base.{
  ℕ, suc, ◌+◌, ◌<◌, ◌≡◌, refl, arith, Bool, Option, some, List, [], ◌∷◌, ◌++◌, length, ret, Result,
  ok, err, then_ok,
}
use pyo.FnArgs.Dict.{DictOps, IsDict}
use pyo.FnArgs.{ParamDescription, ArgError, multiple_values, parse_fn_args}
use pyo.FnArgs.Reference.{IsDistinct, lookup_kwarg, bind, bind_all}
use pyo.FnArgs.Calls.{parse_fn_args_unbound}

module _ {D V E : Type 0} (ops : DictOps D V E) (args : List V) where
  bind_all-append :
      (i : ℕ) (ps qs : List ParamDescription) (p : ParamDescription) (kwargs : Option D)
      {outs : List (Option V)} {e : ArgError E}
      → bind_all ops args i ps kwargs ≡ ok outs
      → bind ops args (i + length ps) p (lookup_kwarg ops args p.name kwargs) ≡ err e
      → bind_all ops args i (ps ++ p ∷ qs) kwargs ≡ err e
  unfolding bind_all
  bind_all-append i [] qs p kwargs b h = ground arith
  bind_all-append i (q ∷ ps) qs p kwargs {outs} {e} b h =
      first (bind ops args i q (lookup_kwarg ops args q.name kwargs))
        (bind_all ops args (suc i) ps kwargs) b
        (λ outs' b'. bind_all-append (suc i) ps qs p kwargs {outs = outs'} b' (rw (← index) h))
    where
      first :
          (r : Result (Option V) (ArgError E)) (rs : Result (List (Option V)) (ArgError E))
          → then_ok r (λ out. then_ok {B = List (Option V)} rs λ os. ok (out ∷ os)) ≡ ok outs
          → ((outs' : List (Option V))
              → rs ≡ ok outs'
              → bind_all ops args (suc i) (ps ++ p ∷ qs) kwargs ≡ err e)
          → then_ok r (λ out.
            then_ok {B = List (Option V)}
              (bind_all ops args (suc i) (ps ++ p ∷ qs) kwargs)
              λ os. ok (out ∷ os))
            ≡ err e
      first (ok out) (ok os) b next = rw (next os refl) refl
      first (ok out) (err e') b next = absurd (cc)
      first (err e') rs b next = absurd (cc)

      index : i + length (q ∷ ps) ≡ suc i + length ps
      index = omega arith

  module _ (lawful : IsDict ops) where
    -- For a function whose parameters have different names: if a call gives a parameter by its name, has
    -- more positional arguments than there are parameters before this one, and all of these can be
    -- bound, then it is refused with the error for several values of the parameter. This is so for a
    -- keyword-only parameter too, which no positional argument can have been meant for, and also if the
    -- function collects the positional arguments that are left.
    pub multiple_values_refused :
        (ps qs : List ParamDescription) (p : ParamDescription) (kwargs : Option D)
        (accept_args accept_kwargs : Bool) (v : V) (outs : List (Option V))
        → IsDistinct (ps ++ p ∷ qs)
        → length ps < length args
        → bind_all ops args 0 ps kwargs ≡ ok outs
        → lookup_kwarg ops args p.name kwargs ≡ some v
        → parse_fn_args ops args (ps ++ p ∷ qs) kwargs accept_args accept_kwargs
          ≡ ret (err (multiple_values p.name))
    unfolding bind
    multiple_values_refused ps qs p kwargs accept_args accept_kwargs v outs d more b there =
        parse_fn_args_unbound ops lawful args (ps ++ p ∷ qs) d kwargs accept_args accept_kwargs
          (bind_all-append 0 ps qs p kwargs b (ground arith))
