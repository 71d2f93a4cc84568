-- ===== src/MethodSpec/Attributes/Kept.antt =====
-- What `parse_method_attributes` of pyo3-derive-backend/src/method.rs takes from the attributes.
use mathlib.Core.List.{append_assoc, append-nil}
use pyo.Base.{
  or_else, is_some, ok-injective, or_else-none, or_else_assoc, subst, then_ok_inv, Option-cases,
  ◌⊎◌, inl, inr, arith, ◌≡◌, refl, sym, ap, ◌∙◌, Bool, true, false, ◌&&◌, Bool-cases, if◌then◌else◌,
  Option, none, some, String, List, [], ◌∷◌, ◌++◌, ok,
}
use pyo.FnAttr.{Argument}
use pyo.MethodSpec.Attributes.{
  name_literal, Syn, Meta, word, list, name_value, Attribute, FnType, Progress, start, type_or_fn,
  MethodAttributes, add_attribute, add_attributes, without_names, parse_name_attribute,
  parse_method_name_attribute, forbids_name, with_name, name_of, name_literals,
  parse_method_attributes,
}
use pyo.MethodSpec.Attributes.Given.{type_of, arguments_of, is_taken, is_property, Adds}
use pyo.MethodSpec.Attributes.Taken.{add_word-Adds, add_list-Adds}

unfoldable pub kept_attributes : List Attribute → List Attribute
kept_attributes [] = []
kept_attributes (a ∷ attrs) =
    if is_taken a then kept_attributes attrs else a ∷ kept_attributes attrs

unfoldable pub all_arguments : List Attribute → List Argument
all_arguments [] = []
all_arguments (a ∷ attrs) = arguments_of a ++ all_arguments attrs

-- The last type that an attribute gives.
unfoldable pub last_type : List Attribute → Option FnType
last_type [] = none
last_type (a ∷ attrs) = or_else (last_type attrs) (type_of a)

-- No attribute before a `setter` or `getter` gives a type.
abbrev pub ArePropertiesFirst : Option FnType → List Attribute → Type 0
ArePropertiesFirst before [] = Unit
ArePropertiesFirst before (a ∷ attrs) =
    (is_property a ≡ true → before ≡ none) × ArePropertiesFirst (or_else (type_of a) before) attrs

abbrev pub IsIn : Attribute → List Attribute → Type 0
IsIn a [] = ⊥
IsIn a (b ∷ attrs) = (a ≡ b) ⊎ IsIn a attrs

pub kept_attributes-IsIn :
    (a : Attribute) (attrs : List Attribute)
    → is_taken a ≡ false
    → IsIn a attrs
    → IsIn a (kept_attributes attrs)
unfolding kept_attributes
kept_attributes-IsIn a [] free here = elim here [ ]
kept_attributes-IsIn a (b ∷ attrs) free (inl here) = rw (rw here at free) (inl here)
kept_attributes-IsIn a (b ∷ attrs) free (inr there) = elim (Bool-cases (is_taken b)) [
  | inl taken ↦ rw taken (kept_attributes-IsIn a attrs free there)
  | inr kept ↦ rw kept (inr (kept_attributes-IsIn a attrs free there))
]

pub without_names-IsIn :
    (a : Attribute) (attrs : List Attribute)
    → name_literal a ≡ none
    → IsIn a attrs
    → IsIn a (without_names attrs)
unfolding without_names
without_names-IsIn a [] free here = elim here [ ]
without_names-IsIn a (b ∷ attrs) free (inl here) = rw (rw here at free, without_names) (inl here)
without_names-IsIn a (b ∷ attrs) free (inr there) = elim (Option-cases (name_literal b)) [
  | inl kept ↦ rw (kept, without_names) (inr (without_names-IsIn a attrs free there))
  | inr (lit, taken) ↦ rw (taken, without_names) (without_names-IsIn a attrs free there)
]

taken_or_kept :
    (taken : Bool) (a : Attribute) (before after : List Attribute)
    → (before ++ (if taken then [] else a ∷ [])) ++ after
      ≡ before ++ (if taken then after else a ∷ after)
taken_or_kept true a before after = append_assoc before [] after
taken_or_kept false a before after = append_assoc before (a ∷ []) after

module _ (syn : Syn) where
  meta-Adds :
      (p : String) (inner : Bool) (meta : Option Meta) (s s' : Progress)
      → add_attribute syn (record { path = p; inner = inner; meta = meta }) s ≡ ok s'
      → Adds (record { path = p; inner = inner; meta = meta }) s s'
  unfolding add_attribute
  meta-Adds p inner none s s' h = absurd (ground (arith, h))
  meta-Adds p inner (some word) s s' h = add_word-Adds p inner s s' h
  meta-Adds p inner (some (list nested)) s s' h = add_list-Adds p inner s s' syn nested h
  meta-Adds p inner (some (name_value lit)) s s' h =
      rw (sym (ok-injective _ _ h))
        (refl, sym (append-nil s.args), refl, λ prop. absurd (ground (arith, prop)))

  add_attributes-Adds :
      (attrs : List Attribute) (s s' : Progress)
      → add_attributes syn attrs s ≡ ok s'
      → (s'.new_attrs ≡ s.new_attrs ++ kept_attributes attrs)
        × (s'.args ≡ s.args ++ all_arguments attrs)
        × (s'.res ≡ or_else (last_type attrs) s.res)
        × ArePropertiesFirst s.res attrs
  unfolding add_attributes kept_attributes all_arguments last_type
  add_attributes-Adds [] s s' h =
      rw (sym (ok-injective _ _ h))
        (sym (append-nil s.new_attrs), sym (append-nil s.args), refl, tt)
  add_attributes-Adds (a ∷ attrs) s s' h =
      let (s1, first, others) = then_ok_inv (add_attribute syn a s) _ s' h in
      let (new, args, res, prop) = meta-Adds a.path a.inner a.meta s s1 first in
      let (new', args', res', props) = add_attributes-Adds attrs s1 s' others in
      (
        new' ∙ ap (λ l. l ++ kept_attributes attrs) new ∙ taken_or_kept (is_taken a) a _ _,
        args' ∙ ap (λ l. l ++ all_arguments attrs) args ∙ append_assoc s.args _ _,
        res' ∙ ap (or_else (last_type attrs)) res ∙ or_else_assoc (last_type attrs) _ _,
        (prop, subst (λ t. ArePropertiesFirst t attrs) res props),
      )

  parse_name_attribute-left :
      (attrs left : List Attribute) (name : Option String)
      → parse_name_attribute syn attrs ≡ ok (name, left)
      → left ≡ without_names attrs
  unfolding parse_name_attribute
  parse_name_attribute-left attrs left name h =
      let (n, found, same) = then_ok_inv (name_of syn (name_literals attrs)) _ (name, left) h in
      sym (ap (λ r. r.1) (ok-injective _ _ same))

  parse_method_name_attribute-left :
      (ty : FnType) (attrs left : List Attribute) (property_name name : Option String)
      → parse_method_name_attribute syn ty attrs property_name ≡ ok (name, left)
      → left ≡ without_names attrs
  unfolding parse_method_name_attribute
  parse_method_name_attribute-left ty attrs left property_name name h =
      let ((n, l), found, same) = then_ok_inv (parse_name_attribute syn attrs) _ (name, left) h in
      elim (Bool-cases (is_some n && forbids_name ty)) [
        | inl forbidden ↦ absurd (ground (arith, rw forbidden at same))
        | inr free ↦
            sym (ap (λ r. r.1) (ok-injective _ _ (rw free at same)))
            ∙ parse_name_attribute-left attrs l n found
      ]

  -- The last step, from the state after the loop.
  named_attributes :
      (allow_custom_name : Bool) (s : Progress) (m : MethodAttributes) (left : List Attribute)
      → with_name syn allow_custom_name s ≡ ok (m, left)
      → (m.ty ≡ type_or_fn s.res)
        × (m.args ≡ s.args)
        × (left ≡ (if allow_custom_name then without_names s.new_attrs else s.new_attrs))
  unfolding with_name
  named_attributes true s m left h =
      let ((n, l), found, same) =
        then_ok_inv (parse_method_name_attribute syn (type_or_fn s.res) s.new_attrs s.property_name)
          _ (m, left) h in
      let both = ok-injective _ _ same in
      (
        sym (ap (λ r. r.0.ty) both),
        sym (ap (λ r. r.0.args) both),
        sym (ap (λ r. r.1) both)
            ∙ parse_method_name_attribute-left _ s.new_attrs l s.property_name n found,
      )
  named_attributes false s m left h =
      let both = ok-injective _ _ h in
      (sym (ap (λ r. r.0.ty) both), sym (ap (λ r. r.0.args) both), sym (ap (λ r. r.1) both))

  -- When the attributes of a method are accepted, its type is the one that the last attribute with a
  -- type gives, or that of a plain method, and no such attribute stands before a `setter` or `getter`;
  -- its arguments are those of all `args` attributes in their order, and the attributes that are left
  -- are the others in their order, less the `name` attributes where a name may be given.
  pub parse_method_attributes_lem :
      (attrs left : List Attribute) (allow_custom_name : Bool) (m : MethodAttributes)
      → parse_method_attributes syn attrs allow_custom_name ≡ ok (m, left)
      → (m.ty ≡ type_or_fn (last_type attrs))
        × (m.args ≡ all_arguments attrs)
        × ArePropertiesFirst none attrs
        × (left ≡ (
            if allow_custom_name
            then without_names (kept_attributes attrs)
            else kept_attributes attrs))
  unfolding parse_method_attributes
  parse_method_attributes_lem attrs left allow_custom_name m h =
      let (s, taken, named) = then_ok_inv (add_attributes syn attrs start) _ (m, left) h in
      let (new, args, res, props) = add_attributes-Adds attrs start s taken in
      let (ty, same_args, kept) = named_attributes allow_custom_name s m left named in
      (
        ty ∙ ap type_or_fn (res ∙ or_else-none (last_type attrs)),
        same_args ∙ args,
        props,
        kept ∙ ap (λ l. if allow_custom_name then without_names l else l) new,
      )
