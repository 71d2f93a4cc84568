-- ===== src/FnArgs/Calls.antt =====
-- How a call of `parse_fn_args` of src/derive_utils.rs ends.
use native.Mathlib.Nat.{zero-add}
use pyo.Base.{
  ◌≤◌, ◌<◌, ◌≡◌, refl, ◌∙◌, ◌⊎◌, inl, inr, arith, Bool, true, false, ◌&&◌, ◌||◌, if◌then◌else◌,
  Option, none, some, List, length, drop, String, ◌≢◌, ap, not, ltb, Option-cases, Outcome, ret,
  Result, ok, err, then_ok, Bool-cases,
}
use pyo.FnArgs.Dict.{DictOps, IsDict}
use pyo.FnArgs.{
  ParamDescription, ArgError, unexpected_keyword, too_many_positional, Progress, Parsed,
  is_kwargs_empty, finish, finish_all, refuse_key, copy_kwargs, parse_fn_args,
}
use pyo.FnArgs.Reference.{
  names, IsDistinct, lookup_kwarg, bind_all, taken, Deletes, assign_all-bind_all,
}

module _ {D V E : Type 0} (ops : DictOps D V E) (lawful : IsDict ops) (args : List V) where
  lookup_kwarg-empty :
      (j : String) (k : Option D)
      → is_kwargs_empty ops args k ≡ true
      → lookup_kwarg ops args j k ≡ none
  lookup_kwarg-empty j none e = refl
  lookup_kwarg-empty j (some d) e = lawful.empty_get j d e

  copy_kwargs-ok : (k : Option D) → copy_kwargs ops args k ≡ ok k
  unfolding copy_kwargs
  copy_kwargs-ok none = refl
  copy_kwargs-ok (some d) = rw (lawful.copy_ok d, copy_kwargs)

  module _ (accept_args accept_kwargs : Bool) (outs : List (Option V)) (s : Progress D) where
    finish-refuse_key :
        accept_kwargs ≡ false
        → is_kwargs_empty ops args s.kwargs ≡ false
        → finish ops args accept_args accept_kwargs outs s ≡ refuse_key ops args s.kwargs
    unfolding finish
    finish-refuse_key a e = ground arith

    finish_too_many :
        (accept_kwargs || is_kwargs_empty ops args s.kwargs) ≡ true
        → accept_args ≡ false
        → s.used_args < length args
        → finish ops args accept_args accept_kwargs outs s
          ≡ ret (err (too_many_positional s.used_args (length args)))
    unfolding finish
    finish_too_many e a l = ground arith

    finish_ok :
        (accept_kwargs || is_kwargs_empty ops args s.kwargs) ≡ true
        → (accept_args ≡ true) ⊎ (length args ≤ s.used_args)
        → finish ops args accept_args accept_kwargs outs s
          ≡ ret (
              ok (record {
                output = outs;
                args = if accept_args then drop s.used_args args else args;
                kwargs =
                    if accept_kwargs && is_kwargs_empty ops args s.kwargs then none else s.kwargs;
              }))
    unfolding finish
    finish_ok e a = ground arith

  module _ (params : List ParamDescription) (distinct : IsDistinct params) (kwargs : Option D)
      (accept_args accept_kwargs : Bool) where
    abbrev parsed : Outcome (Result (Parsed D V) (ArgError E))
    parsed = parse_fn_args ops args params kwargs accept_args accept_kwargs

    -- The keyword arguments that no parameter takes.
    abbrev pub IsExtra : String → Type 0
    IsExtra j = (v : V) × (lookup_kwarg ops args j kwargs ≡ some v) × (names j params ≡ false)

    parsed-finish :
        (k : Option D) × (parsed
          ≡ finish_all ops args accept_args accept_kwargs (
              then_ok
                (bind_all ops args 0 params kwargs)
                λ outs. ok (outs, record { kwargs = k; used_args = taken ops args 0 params })))
        × Deletes ops args (λ j. names j params) kwargs k
    unfolding parse_fn_args
    parsed-finish =
        let start : Progress D = record { kwargs = kwargs; used_args = 0 } in
        let (k, loop, gone) = assign_all-bind_all ops args lawful 0 params start distinct in
        (k, rw (copy_kwargs-ok kwargs, parse_fn_args) (rw (loop, zero-add) refl), gone)

    -- A parameter that cannot be bound is the error of the call: the first such in their order.
    pub parse_fn_args_unbound :
        {e : ArgError E} → bind_all ops args 0 params kwargs ≡ err e → parsed ≡ ret (err e)
    unfolding finish_all
    parse_fn_args_unbound b = let (k, whole, gone) = parsed-finish in whole ∙ (rw b refl)

    module _ (outs : List (Option V)) (bound : bind_all ops args 0 params kwargs ≡ ok outs) where
      pub parsed-bound :
          (k : Option D) × (parsed
            ≡ finish ops args accept_args accept_kwargs outs
                (record { kwargs = k; used_args = taken ops args 0 params }))
          × Deletes ops args (λ j. names j params) kwargs k
      unfolding finish_all
      parsed-bound = let (k, whole, gone) = parsed-finish in (k, whole ∙ (rw bound refl), gone)

      nonempty-IsExtra :
          (k : Option D)
          → Deletes ops args (λ j. names j params) kwargs k
          → is_kwargs_empty ops args k ≡ false
          → (j : String) × (refuse_key ops args k ≡ ret (err (unexpected_keyword j))) × IsExtra j
      unfolding refuse_key
      nonempty-IsExtra none gone e = absurd (cc)
      nonempty-IsExtra (some d) gone e =
          let (j, v, first, there) = lawful.nonempty_key d e in
          (j, rw (first, refuse_key) refl, (v, ground (arith, gone j), ground (arith, gone j)))

      -- When every parameter is bound, keyword arguments that no parameter takes are refused unless
      -- the function collects them; the error names one of them.
      pub parse_fn_args-IsExtra :
          (j : String)
          → IsExtra j
          → accept_kwargs ≡ false
          → (key : String) × (parsed ≡ ret (err (unexpected_keyword key))) × IsExtra key
      parse_fn_args-IsExtra j (v, there, new) refuse =
          let (k, whole, gone) = parsed-bound in
          let left : is_kwargs_empty ops args k ≡ false =
            ground (arith, gone j, lookup_kwarg-empty j k) in
          let (key, refused, extra) = nonempty-IsExtra k gone left in
          (key, whole ∙ finish-refuse_key _ _ outs _ refuse left ∙ refused, extra)

      -- Whether every keyword argument is some parameter's, or the function collects the others.
      abbrev pub KeywordsFit : Type 0
      KeywordsFit =
          (accept_kwargs ≡ true)
          ⊎ ((j : String) → names j params ≡ false → lookup_kwarg ops args j kwargs ≡ none)

      fits-left :
          (k : Option D)
          → Deletes ops args (λ j. names j params) kwargs k
          → KeywordsFit
          → (accept_kwargs || is_kwargs_empty ops args k) ≡ true
      fits-left k gone (inl collects) = rw collects refl
      fits-left none gone (inr all) = ground arith
      fits-left (some d) gone (inr all) = elim (Bool-cases (ops.is_empty d)) [
        | inl empty ↦ ground arith
        | inr left ↦
            let (j, v, first, there) = lawful.nonempty_key d left in
            absurd (ground (arith, gone j, all j))
      ]

      -- When every parameter is bound and no keyword argument is over, positional arguments that no
      -- parameter takes are refused unless the function collects them.
      pub parse_fn_args_too_many :
          KeywordsFit
          → accept_args ≡ false
          → taken ops args 0 params < length args
          → parsed ≡ ret (err (too_many_positional (taken ops args 0 params) (length args)))
      parse_fn_args_too_many fit refuse more =
          let (k, whole, gone) = parsed-bound in
          whole ∙ finish_too_many _ _ outs _ (fits-left k gone fit) refuse more

      -- When every parameter is bound, no keyword argument is over or they are collected, and no
      -- positional argument is over or they are collected, the call succeeds: each parameter has its value, the positional arguments that no
      -- parameter took are handed on if they are collected, and the dictionary handed on has
      -- exactly the keyword arguments that no parameter took.
      pub parse_fn_args_ok :
          KeywordsFit
          → (accept_args ≡ true) ⊎ (length args ≤ taken ops args 0 params)
          → (r : Parsed D V) × (parsed ≡ ret (ok r))
            × (r.output ≡ outs)
            × (r.args ≡ (if accept_args then drop (taken ops args 0 params) args else args))
            × Deletes ops args (λ j. names j params) kwargs r.kwargs
      parse_fn_args_ok fit few =
          let (k, whole, gone) = parsed-bound in
          (
            _,
            whole ∙ finish_ok _ _ outs _ (fits-left k gone fit) few,
            refl,
            refl,
            λ j. ground (arith, gone j, lookup_kwarg-empty j k),
          )

module _ {D V E : Type 0} (ops : DictOps D V E) (args : List V) where
  refused-err : (k : Option D) (r : Parsed D V) → refuse_key ops args k ≢ ret (ok r)
  unfolding refuse_key
  refused-err none r h = absurd (ground (arith, h))
  refused-err (some d) r h = elim (Option-cases (ops.first_key d)) [
    | inl nothing ↦ absurd (ground (arith, rw (nothing, refuse_key) at h))
    | inr (key, first) ↦ absurd (ground (arith, rw (first, refuse_key) at h))
  ]

  accepted-injective :
      (a b : Parsed D V)
      → ◌≡◌ {A = Outcome (Result (Parsed D V) (ArgError E))} (ret (ok a)) (ret (ok b))
      → a ≡ b
  accepted-injective a b h = cc

  -- A call that is accepted keeps the values that were assigned.
  pub finish-output :
      (accept_args accept_kwargs : Bool) (outs : List (Option V)) (s : Progress D) (r : Parsed D V)
      → finish ops args accept_args accept_kwargs outs s ≡ ret (ok r)
      → outs ≡ r.output
  unfolding finish
  finish-output accept_args accept_kwargs outs s r h =
      elim (Bool-cases (not accept_kwargs && not (is_kwargs_empty ops args s.kwargs))) [
        | inl refuse ↦ absurd (refused-err s.kwargs r (rw refuse at h))
        | inr keep ↦ elim (Bool-cases (not accept_args && ltb s.used_args (length args))) [
          | inl many ↦ absurd (ground (arith, rw (keep, many) at h))
          | inr few ↦ ap (λ q. q.output) (accepted-injective _ r (rw (keep, few) at h))
        ]
      ]
