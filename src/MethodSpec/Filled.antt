-- ===== src/MethodSpec/Filled.antt =====
-- The values that `parse_fn_args` of src/derive_utils.rs hands out: one for each parameter.
use pyo.Base.{
  ok-injective, ℕ, zero, suc, ◌<◌, ◌≡◌, ◌≢◌, refl, sym, ◌∙◌, arith, false, not, ◌&&◌, Bool-cases,
  inl, inr, ltb, Option, none, some, List, [], ◌∷◌, length, get_elem?, Result, ok, err, then_ok,
}
use pyo.FnArgs.{ParamDescription, ArgError}
use pyo.FnArgs.Dict.{DictOps}
use pyo.FnArgs.Reference.{bind, bind_all}

-- A value for each parameter, and one for each that is not optional.
abbrev pub Fits : {V : Type 0} → List ParamDescription → List (Option V) → Type 0
Fits [] [] = Unit
Fits (p ∷ ps) (o ∷ os) = (p.is_optional ≡ false → o ≢ none) × Fits ps os
Fits _ _ = ⊥

some-none {ℓ} : {A : Type ℓ} (a : A) → some a ≢ none
some-none a h = ground (arith, h)

get_elem?-lt :
    {V : Type 0} (xs : List V) (i : ℕ) → i < length xs → (v : V) × (get_elem? xs i ≡ some v)
get_elem?-lt [] i h = absurd (omega arith)
get_elem?-lt (x ∷ xs) zero h = (x, refl)
get_elem?-lt (x ∷ xs) (suc i) h = get_elem?-lt xs i (omega arith)

-- What a list that is bound one after the other says of its parts.
cons_ok :
    {V E : Type 0} (r : Result (Option V) E) (q : Result (List (Option V)) E)
    (outs : List (Option V))
    → (then_ok {B = List (Option V)} r λ o. then_ok q λ os. ok (o ∷ os)) ≡ ok outs
    → (o : Option V) × (os : List (Option V)) × (r ≡ ok o) × (q ≡ ok os) × (outs ≡ o ∷ os)
cons_ok (ok o) (ok os) outs h = (o, os, refl, refl, ok-injective _ _ (sym h))
cons_ok (ok o) (err e) outs h = absurd (ground (arith, h))
cons_ok (err e) q outs h = absurd (ground (arith, h))

module _ {D V E : Type 0} (ops : DictOps D V E) (args : List V) where
  bind-some :
      (i : ℕ) (p : ParamDescription) (k o : Option V)
      → bind ops args i p k ≡ ok o
      → p.is_optional ≡ false
      → o ≢ none
  unfolding bind
  bind-some i p (some v) o h needed = elim (Bool-cases (ltb i (length args))) [
    | inl given ↦ absurd (ground (arith, h, given))
    | inr free ↦ λ z. some-none v (ok-injective {E = ArgError E} _ _ (rw free at h) ∙ z)
  ]
  bind-some i p none o h needed = elim (Bool-cases (ltb i (length args) && not p.kw_only)) [
    | inl given ↦
        let (v, there) = get_elem?-lt args i (ground (arith, given)) in
        λ z. some-none v (sym there ∙ ok-injective {E = ArgError E} _ _ (rw given at h) ∙ z)
    | inr free ↦ absurd (ground (arith, rw (free, needed) at h))
  ]

  pub bind_all-Fits :
      (i : ℕ) (ps : List ParamDescription) (kwargs : Option D) (outs : List (Option V))
      → bind_all ops args i ps kwargs ≡ ok outs
      → Fits ps outs
  unfolding bind_all
  bind_all-Fits i [] kwargs outs h = rw (sym (ok-injective {E = ArgError E} _ _ h)) tt
  bind_all-Fits i (p ∷ ps) kwargs outs h =
      let (o, os, first, others, whole) = cons_ok _ _ outs h in
      rw whole (bind-some i p _ o first, bind_all-Fits (suc i) ps kwargs os others)
