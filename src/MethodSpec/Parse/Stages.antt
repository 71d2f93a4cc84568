-- ===== src/MethodSpec/Parse/Stages.antt =====
-- The stages of an accepted call of `FnSpec::parse` (pyo3-derive-backend/src/method.rs).
use pyo.Base.{
  ok-injective, then_ok_inv, ◌≡◌, refl, sym, ap, arith, Bool, true, Option, none, String, List, map,
  Outcome, ret, panic, and_then, Result, ok, err,
}
use pyo.MethodSpec.Attributes.{Syn, Attribute, SpecError, MethodAttributes, parse_method_attributes}
use pyo.MethodSpec.Doc.{get_doc}
use pyo.MethodSpec.Parse.{
  Input, FnSpec, Parsed, and_then_ok, TypedArg, add_inputs, receiver_type, check_class_attribute,
  name_or, tweak_name, text_signature_of, finish_spec, parse,
}

pub and_then_inv :
    {A B : Type 0} (r : Outcome A) (f : A → Outcome B) (b : B)
    → and_then r f ≡ ret b
    → (a : A) × (r ≡ ret a) × (f a ≡ ret b)
and_then_inv (ret a) f b h = (a, refl, h)
and_then_inv (panic message) f b h = absurd (ground (arith, h))

pub and_then_ok_inv :
    {A B : Type 0} (r : Parsed A) (f : A → Parsed B) (b : B)
    → and_then_ok r f ≡ ret (ok b)
    → (a : A) × (r ≡ ret (ok a)) × (f a ≡ ret (ok b))
and_then_ok_inv (ret (ok a)) f b h = (a, refl, h)
and_then_ok_inv (ret (err e)) f b h = absurd (ground (arith, h))
and_then_ok_inv (panic message) f b h = absurd (ground (arith, h))

pub parsed-injective : {A : Type 0} (a b : A) → ◌≡◌ {A = Parsed A} (ret (ok a)) (ret (ok b)) → a ≡ b
parsed-injective a b h = cc

ret-injective : {A : Type 0} (a b : Result A SpecError) → ◌≡◌ {A = Parsed A} (ret a) (ret b) → a ≡ b
ret-injective a b h = cc

module _ (syn : Syn) (name : String) where
  -- What an accepted method has, from the stages.
  pub record Accepted (m : MethodAttributes) (attrs : List Attribute)
      (given : Option Bool × List TypedArg) (spec : FnSpec) : Type 0 where
    pub args : List TypedArg
    pub left : List Attribute
    pub text_signature : Option String
    pub receiver_ok : receiver_type m.ty given.0 given.1 ≡ ok (spec.tp, args)
    pub same_name : spec.name ≡ name
    pub same_self : spec.self_ ≡ given.0
    pub same_args : spec.args ≡ map (λ a. a.0) args
    pub signature_ok :
        text_signature_of spec.tp name spec.python_name attrs ≡ ok (text_signature, left)
    pub doc_ok : get_doc left text_signature true ≡ ok spec.doc

  finish_spec-Accepted :
      (m : MethodAttributes) (attrs : List Attribute) (given : Option Bool × List TypedArg)
      (spec : FnSpec) (left : List Attribute)
      → finish_spec syn name m attrs given ≡ ok (spec, left)
      → Accepted m attrs given spec
  unfolding finish_spec
  finish_spec-Accepted m attrs (self_, typed_args) spec left h =
      let ((ty, args), receiver, h1) =
        then_ok_inv (receiver_type m.ty self_ typed_args) _ (spec, left) h in
      let (u, checked, h2) = then_ok_inv (check_class_attribute ty self_ args) _ (spec, left) h1 in
      let python_name = name_or (syn.unraw name) (tweak_name ty (syn.unraw name) m.python_name) in
      let ((sig, l), signature, h3) =
        then_ok_inv (text_signature_of ty name python_name attrs) _ (spec, left) h2 in
      let (doc, documented, h4) = then_ok_inv (get_doc l sig true) _ (spec, left) h3 in
      let same = ok-injective _ _ h4 in
      rw (sym (ap (λ r. r.0) same)) (record {
        args = args;
        left = l;
        text_signature = sig;
        receiver_ok = receiver;
        same_name = refl;
        same_self = refl;
        same_args = refl;
        signature_ok = signature;
        doc_ok = documented;
      })

  pub parse-Accepted :
      (inputs : List Input) (meth_attrs left : List Attribute) (allow_custom_name : Bool)
      (spec : FnSpec)
      → parse syn name inputs meth_attrs allow_custom_name ≡ ret (ok (spec, left))
      → (m : MethodAttributes) × (attrs : List Attribute) × (given : Option Bool × List TypedArg)
        × (parse_method_attributes syn meth_attrs allow_custom_name ≡ ok (m, attrs))
        × (add_inputs m.ty inputs none ≡ ret (ok given))
        × Accepted m attrs given spec
  unfolding parse
  parse-Accepted inputs meth_attrs left allow_custom_name spec h =
      let ((m, attrs), taken, h1) =
        and_then_ok_inv (ret (parse_method_attributes syn meth_attrs allow_custom_name)) _
          (spec, left) h in
      let (given, added, h2) = and_then_ok_inv (add_inputs m.ty inputs none) _ (spec, left) h1 in
      (
        m,
        attrs,
        given,
        ret-injective _ _ taken,
        added,
        finish_spec-Accepted m attrs given spec left (ret-injective _ _ h2),
      )
