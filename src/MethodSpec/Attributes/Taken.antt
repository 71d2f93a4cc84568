-- ===== src/MethodSpec/Attributes/Taken.antt =====
-- What one attribute changes in `parse_method_attributes` of pyo3-derive-backend/src/method.rs.
use mathlib.Core.List.{append-nil}
use pyo.Base.{
  or_else, is_some, ok-injective, then_ok_inv, inl, inr, arith, ◌≡◌, refl, sym, ap, ◌∙◌, Bool,
  false, ◌||◌, Bool-cases, if◌then◌else◌, Option, Option-cases, none, some, String, List, [], ◌∷◌,
  ◌++◌, Result, ok, err, then_ok,
}
use pyo.FnAttr
use pyo.FnAttr.{Argument, Lit, NestedMeta, AttrError, from_meta}
use pyo.MethodSpec.Attributes.{
  Syn, word, list, Attribute, FnType, SpecError, Progress, check_property, add_word, add_list,
  add_arguments, property_name_of,
}
use pyo.MethodSpec.Attributes.Given.{given_arguments, Adds}
use pyo.MethodSpec.Attributes.Roles.{
  Role, typed, property, refused, arguments, left, role_type, word_role, list_role, is_refused,
  is_arguments, run_word, run_list, add_word-run, add_list-run, word_role-type, list_role-type,
  list_role-arguments, word_role-property, list_role-property, word_role-not_arguments,
}

checked :
    (a : Attribute) (s : Progress) (k : Result Progress SpecError) (s' : Progress)
    → then_ok {B = Progress} (check_property a s) (λ u. k) ≡ ok s'
    → (k ≡ ok s') × (s.res ≡ none)
unfolding check_property
checked a s k s' h = elim (Bool-cases a.inner) [
  | inl inner ↦ absurd (ground (arith, rw inner at h))
  | inr outer ↦ elim (Option-cases s.res) [
    | inl first ↦ (rw (outer, first) at h, first)
    | inr (ty, twice) ↦ absurd (ground (arith, rw (outer, twice) at h))
  ]
]

-- A property attribute is the first that gives a type.
abbrev IsFirst : Role → Option FnType → Type 0
IsFirst (property ty) res = res ≡ none
IsFirst role res = Unit

abbrev role_kept : Attribute → Role → List Attribute
role_kept a left = a ∷ []
role_kept a role = []

module _ (a : Attribute) (s s' : Progress) where
  run_word-Adds :
      (r : Role)
      → is_arguments r ≡ false
      → run_word a s r ≡ ok s'
      → (is_refused r ≡ false)
        × IsFirst r s.res
        × (s'.new_attrs ≡ s.new_attrs ++ role_kept a r)
        × (s'.args ≡ s.args)
        × (s'.res ≡ or_else (role_type r) s.res)
  unfolding run_word
  run_word-Adds (typed ty) n h =
      rw (sym (ok-injective _ _ h)) (refl, tt, sym (append-nil s.new_attrs), refl, refl)
  run_word-Adds (property ty) n h =
      let (set, first) = checked a s _ s' h in
      rw (sym (ok-injective _ _ set)) (refl, first, sym (append-nil s.new_attrs), refl, refl)
  run_word-Adds (refused e) n h = absurd (ground (arith, h))
  run_word-Adds arguments n h = absurd (ground (arith, n))
  run_word-Adds left n h = rw (sym (ok-injective _ _ h)) (refl, tt, refl, refl, refl)

  module _ (syn : Syn) (nested : List NestedMeta) where
    added_arguments :
        (r : Result FnAttr.PyFunctionAttr AttrError)
        → add_arguments syn r s ≡ ok s'
        → (s'.new_attrs ≡ s.new_attrs ++ [])
          × (s'.args ≡ s.args ++ given_arguments r)
          × (s'.res ≡ s.res)
    unfolding add_arguments
    added_arguments (ok attrs) h =
        rw (sym (ok-injective _ _ h)) (sym (append-nil s.new_attrs), refl, refl)
    added_arguments (err e) h = absurd (ground (arith, h))

    run_list-Adds :
        (r : Role)
        → run_list a s syn nested r ≡ ok s'
        → (is_refused r ≡ false)
          × IsFirst r s.res
          × (s'.new_attrs ≡ s.new_attrs ++ role_kept a r)
          × (s'.args
              ≡ s.args ++ (if is_arguments r then given_arguments (from_meta nested) else []))
          × (s'.res ≡ or_else (role_type r) s.res)
    unfolding run_list
    run_list-Adds (typed ty) h =
        rw (sym (ok-injective _ _ h))
          (refl, tt, sym (append-nil s.new_attrs), sym (append-nil s.args), refl)
    run_list-Adds (property ty) h =
        let (found, first) = checked a s _ s' h in
        let (name, e, set) = then_ok_inv (property_name_of syn nested) _ s' found in
        rw (sym (ok-injective _ _ set))
          (refl, first, sym (append-nil s.new_attrs), sym (append-nil s.args), refl)
    run_list-Adds (refused e) h = absurd (ground (arith, h))
    run_list-Adds arguments h =
        let (new, args, res) = added_arguments (from_meta nested) h in (refl, tt, new, args, res)
    run_list-Adds left h =
        rw (sym (ok-injective _ _ h)) (refl, tt, refl, sym (append-nil s.args), refl)

kept-role :
    (a : Attribute) (r : Role)
    → is_refused r ≡ false
    → role_kept a r ≡ (if is_some (role_type r) || is_arguments r then [] else a ∷ [])
kept-role a (typed ty) n = refl
kept-role a (property ty) n = refl
kept-role a (refused e) n = absurd (ground (arith, n))
kept-role a arguments n = refl
kept-role a left n = refl

first-role :
    (r : Role) (ty : FnType) (res : Option FnType) → r ≡ property ty → IsFirst r res → res ≡ none
first-role r ty res same first = rw same at first

module _ (p : String) (inner : Bool) (s s' : Progress) where
  abbrev word_attribute : Attribute
  word_attribute = record { path = p; inner = inner; meta = some word }

  pub add_word-Adds : add_word word_attribute s ≡ ok s' → Adds word_attribute s s'
  add_word-Adds h =
      let r = word_role p in
      let (n, first, new, args, res) =
        run_word-Adds word_attribute s s' r (word_role-not_arguments p)
          (sym (add_word-run word_attribute s) ∙ h) in
      let ty = word_role-type p n in
      (
        new
            ∙ ap (λ l. s.new_attrs ++ l)
                (kept-role word_attribute r n ∙ rw (ty, word_role-not_arguments p) refl),
        args ∙ sym (append-nil s.args),
        res ∙ ap (λ t. or_else t s.res) (sym ty),
        λ prop. first-role r _ s.res (word_role-property p prop) first,
      )

  module _ (syn : Syn) (nested : List NestedMeta) where
    abbrev list_attribute : Attribute
    list_attribute = record { path = p; inner = inner; meta = some (list nested) }

    pub add_list-Adds : add_list syn list_attribute nested s ≡ ok s' → Adds list_attribute s s'
    add_list-Adds h =
        let r = list_role p in
        let (n, first, new, args, res) =
          run_list-Adds list_attribute s s' syn nested r
            (sym (add_list-run list_attribute s syn nested) ∙ h) in
        let ty = list_role-type p n in
        (
          new
              ∙ ap (λ l. s.new_attrs ++ l)
                  (kept-role list_attribute r n ∙ rw (ty, list_role-arguments p) refl),
          args ∙ rw (list_role-arguments p) refl,
          res ∙ ap (λ t. or_else t s.res) (sym ty),
          λ prop. first-role r _ s.res (list_role-property p prop) first,
        )
