-- ===== src/FnArgs/Reference.antt =====
-- What `parse_fn_args` of src/derive_utils.rs should do, said for each parameter by itself and
-- without deleting anything, and the loop against it.
use text.Mathlib.Text.{◌==◌}
use text.Mathlib.TextEquality.{eq_iff}
use pyo.Base.{
  ℕ, suc, ◌+◌, ◌≡◌, refl, inl, inr, arith, Bool, true, false, not, ◌&&◌, ◌||◌, if◌then◌else◌, ltb,
  Option, none, some, List, [], ◌∷◌, length, get_elem?, String, Result, ok, err, then_ok,
  Option-cases,
}
use pyo.FnArgs.Dict.{DictOps, IsDict}
use pyo.FnArgs.{
  ParamDescription, ArgError, multiple_values, missing_keyword_only, missing_positional, Progress,
  positional, keyword, assign_from, assign, assign_all,
}

-- Whether a parameter has the name.
abbrev pub names : String → List ParamDescription → Bool
names k [] = false
names k (p ∷ ps) = (p.name == k) || names k ps

-- No two parameters have the same name.
abbrev pub IsDistinct : List ParamDescription → Type 0
IsDistinct [] = Unit
IsDistinct (p ∷ ps) = (names p.name ps ≡ false) × IsDistinct ps

module _ {D V E : Type 0} (ops : DictOps D V E) (args : List V) where
  abbrev pub lookup_kwarg : String → Option D → Option V
  lookup_kwarg k none = none
  lookup_kwarg k (some d) = ops.get_item k d

  -- The value of the parameter with index `i`, from the call's own keyword arguments.
  unfoldable pub bind : ℕ → ParamDescription → Option V → Result (Option V) (ArgError E)
  bind i p (some v) = if ltb i (length args) then err (multiple_values p.name) else ok (some v)
  bind i p none =
      if ltb i (length args) && not p.kw_only
      then ok (get_elem? args i)
      else if p.is_optional
      then ok none
      else err (if p.kw_only then missing_keyword_only p.name else missing_positional p.name)

  unfoldable pub bind_all :
      ℕ → List ParamDescription → Option D → Result (List (Option V)) (ArgError E)
  bind_all i [] kwargs = ok []
  bind_all i (p ∷ ps) kwargs =
      then_ok (bind i p (lookup_kwarg p.name kwargs))
        λ out. then_ok (bind_all (suc i) ps kwargs) λ outs. ok (out ∷ outs)

  -- The positional arguments that parameters take: one for each parameter that can be given by
  -- position and has an argument at its index.
  unfoldable pub taken : ℕ → List ParamDescription → ℕ
  taken i [] = 0
  taken i (p ∷ ps) = (if ltb i (length args) && not p.kw_only then 1 else 0) + taken (suc i) ps

  -- What is left of the keyword arguments when some names are deleted.
  abbrev pub Deletes : (String → Bool) → Option D → Option D → Type 0
  Deletes gone kwargs k =
      (j : String) → lookup_kwarg j k ≡ (if gone j then none else lookup_kwarg j kwargs)

  positional-bind :
      (i : ℕ) (p : ParamDescription) (s : Progress D)
      → positional ops args i p s
        ≡ then_ok
            (bind i p none)
            λ out. ok (out, record s { used_args = s.used_args + taken i (p ∷ []) })
  unfolding positional bind taken
  positional-bind i p s = ground arith

  keyword-bind :
      (i : ℕ) (p : ParamDescription) (s : Progress D) (v : V) (d d' : D)
      → ops.del_item p.name d ≡ ok d'
      → keyword ops args i p v d s
        ≡ then_ok
            (bind i p (some v))
            λ out. ok (out, record { kwargs = some d'; used_args = s.used_args + taken i (p ∷ []) })
  unfolding keyword bind taken
  keyword-bind i p s v d d' e = ground arith

  module _ (lawful : IsDict ops) where
    -- One round of the loop.
    abbrev Round : ℕ → ParamDescription → Progress D → Type 0
    Round i p s =
        (k : Option D) × (assign ops args i p s
          ≡ then_ok (bind i p (lookup_kwarg p.name s.kwargs))
              λ out. ok (out, record { kwargs = k; used_args = s.used_args + taken i (p ∷ []) }))
        × Deletes (λ j. p.name == j) s.kwargs k

    -- A name that is not there need not be deleted.
    absent : (n : String) (k : Option D) → lookup_kwarg n k ≡ none → Deletes (λ j. n == j) k k
    absent n k e j = ground (arith, eq_iff n j)

    Round-cases :
        (i : ℕ) (p : ParamDescription) (u : ℕ) (k : Option D)
        → Round i p (record { kwargs = k; used_args = u })
    unfolding assign
    Round-cases i p u none = (none, positional-bind i p _, absent p.name none refl)
    Round-cases i p u (some d) = elim (Option-cases (ops.get_item p.name d)) [
      | inl e ↦ (some d, rw (e, assign_from) (positional-bind i p _), absent p.name (some d) e)
      | inr (v, e) ↦
          let (d', deleted) = lawful.del_ok p.name d e in
          let s : Progress D = record { kwargs = some d; used_args = u } in
          (
            some d',
            rw (e, assign_from) (keyword-bind i p s v d d' deleted),
            λ j. lawful.get-del j p.name d deleted,
          )
    ]

    round : (i : ℕ) (p : ParamDescription) (s : Progress D) → Round i p s
    round i p s = Round-cases i p s.used_args s.kwargs

    -- Only the parameters' own names matter.
    bind_all-agree :
        (i : ℕ) (ps : List ParamDescription) (k k' : Option D)
        → ((j : String) → names j ps ≡ true → lookup_kwarg j k ≡ lookup_kwarg j k')
        → bind_all i ps k ≡ bind_all i ps k'
    unfolding bind_all
    bind_all-agree i [] k k' h = refl
    bind_all-agree i (p ∷ ps) k k' h =
        rw
          (
            h p.name (ground (arith, eq_iff p.name p.name)),
            bind_all-agree (suc i) ps k k' (λ j e. h j (ground arith)),
          )
          refl

    -- A round and the rest of the loop, against a value and the rest of the values.
    chain :
        (r : Result (Option V) (ArgError E)) (q : Result (List (Option V)) (ArgError E))
        (rest : Progress D → Result (List (Option V) × Progress D) (ArgError E)) (s s' : Progress D)
        → rest s ≡ (then_ok {B = List (Option V) × Progress D} q λ outs. ok (outs, s'))
        → then_ok {B = List (Option V) × Progress D}
            (then_ok {B = Option V × Progress D} r λ out. ok (out, s))
            (λ (out, t).
              then_ok {B = List (Option V) × Progress D} (rest t) λ (outs, t'). ok (out ∷ outs, t'))
          ≡ then_ok {B = List (Option V) × Progress D}
              (then_ok r λ out. then_ok q λ outs. ok (out ∷ outs))
              (λ outs. ok (outs, s'))
    chain (err e) q rest s s' h = refl
    chain (ok out) (err e) rest s s' h = rw h refl
    chain (ok out) (ok outs) rest s s' h = rw h refl

    -- If the parameters' names differ, the loop over the parameters gives each the value, or stops
    -- with the error, that a reference without a state says for it alone from the arguments as they
    -- were passed, counts the positional arguments used, and deletes from the dictionary exactly the
    -- parameters' names.
    pub assign_all-bind_all :
        (i : ℕ) (ps : List ParamDescription) (s : Progress D)
        → IsDistinct ps
        → (k : Option D) × (assign_all ops args i ps s
            ≡ then_ok
                (bind_all i ps s.kwargs)
                λ outs. ok (outs, record { kwargs = k; used_args = s.used_args + taken i ps }))
          × Deletes (λ j. names j ps) s.kwargs k
    unfolding assign_all bind_all taken
    assign_all-bind_all i [] s h = (s.kwargs, ground arith, λ j. refl)
    assign_all-bind_all i (p ∷ ps) s h =
        let (k, first, gone) = round i p s in
        let s' : Progress D = record { kwargs = k; used_args = s.used_args + taken i (p ∷ []) } in
        let (k', others, gone') = assign_all-bind_all (suc i) ps s' h.1 in
        (
          k',
          rw first (
              chain _ _ (assign_all ops args (suc i) ps) s' _
                (rw (same_rest k gone, sums) at others)),
          λ j. ground (arith, gone j, gone' j),
        )
      where
        sums : (s.used_args + taken i (p ∷ [])) + taken (suc i) ps ≡ s.used_args + taken i (p ∷ ps)
        sums = omega arith

        same_rest :
            (k : Option D)
            → Deletes (λ j. p.name == j) s.kwargs k
            → bind_all (suc i) ps k ≡ bind_all (suc i) ps s.kwargs
        same_rest k gone =
            bind_all-agree (suc i) ps k s.kwargs λ j e. ground (arith, gone j, eq_iff p.name j, h.0)
