-- ===== src/MethodSpec/Parse.antt =====
-- `FnSpec::parse` of pyo3-derive-backend/src/method.rs. The type that a method returns is handed on
-- unchanged and is left out.
pub mod Stages
pub mod Signature
pub mod Receivers
use Prim.Native.String.{len, slice}
use text.Mathlib.Text.{starts_with}
use pyo.Base.{
  is_some, ◌≡◌, Bool, true, false, not, ◌&&◌, ◌||◌, if◌then◌else◌, Option, none, some, String, List,
  [], ◌∷◌, ◌++◌, map, Outcome, ret, panic, and_then, Result, ok, err, then_ok,
}
use pyo.FnAttr.{Argument}
use pyo.MethodSpec.{FnArg}
use pyo.MethodSpec.Types.{
  SynType, reference, path, if_type_is_python, is_ref, check_ty_optional, replace_segments,
  replace_self_in_ref,
}
use pyo.MethodSpec.Attributes.{
  Syn, Attribute, FnType, getter, setter, fn, fn_new, fn_call, fn_class, fn_static, class_attribute,
  py_self_ref, py_self_path, SpecError, unsupported_argument, needs_staticmethod, invalid_self,
  class_attribute_arguments, signature_not_allowed, MethodAttributes, parse_method_attributes,
}
use pyo.MethodSpec.Doc.{parse_text_signature_attrs, get_doc}

-- `syn::FnArg`; a pattern that is no identifier has no name.
pub data Input : Type 0 where
  receiver : (mutable : Bool) → Input
  typed : (name : Option String) → SynType → Input

pub record FnSpec : Type 0 where
  pub tp : FnType
  pub self_ : Option Bool
  pub name : String
  pub python_name : String
  pub attrs : List Argument
  pub args : List FnArg
  pub doc : String

abbrev pub Parsed : Type 0 → Type 0
Parsed A = Outcome (Result A SpecError)

abbrev pub and_then_ok : {A B : Type 0} → Parsed A → (A → Parsed B) → Parsed B
and_then_ok (ret (ok a)) f = f a
and_then_ok (ret (err e)) f = ret (err e)
and_then_ok (panic message) f = panic message

-- An argument and its type.
abbrev pub TypedArg : Type 0
TypedArg = FnArg × SynType

abbrev is_reference : SynType → Bool
is_reference (reference has_lifetime mutable elem) = true
is_reference t = false

abbrev optional_of : Option SynType → Option Bool
optional_of none = none
optional_of (some t) = some (is_reference t)

abbrev pub is_fn_class : FnType → Bool
is_fn_class fn_class = true
is_fn_class ty = false

pub typed_arg : Option String → SynType → Parsed TypedArg
typed_arg none t = ret (err unsupported_argument)
typed_arg (some name) t = and_then (is_ref t) λ is_reference. ret (
    ok (
      record {
        name = name;
        py = if_type_is_python t;
        optional = optional_of (check_ty_optional t);
        reference = is_reference;
      },
      t,
    ))

-- One round of the loop over the inputs, with `self_`; the result has what is pushed.
pub add_input : FnType → Input → Option Bool → Parsed (Option Bool × List TypedArg)
unfolding typed_arg
add_input ty (receiver mutable) self_ = ret (ok (some mutable, []))
add_input ty (typed name t) self_ =
    if is_fn_class ty && not (is_some self_)
    then ret (ok (some false, []))
    else and_then_ok (typed_arg name t) (λ arg. ret (ok (self_, arg ∷ [])))

unfoldable pub add_inputs : FnType → List Input → Option Bool → Parsed (Option Bool × List TypedArg)
unfolding add_input
add_inputs ty [] self_ = ret (ok (self_, []))
add_inputs ty (input ∷ inputs) self_ = and_then_ok (add_input ty input self_) λ (self_', new).
    and_then_ok (add_inputs ty inputs self_') λ (self_'', args). ret (ok (self_'', new ++ args))

pub self_argument : SynType → Result FnType SpecError
self_argument (reference has_lifetime mutable elem) =
    elim (replace_self_in_ref (reference has_lifetime mutable elem)) [
      | some t ↦ ok (py_self_ref t)
      | none ↦ err unsupported_argument
    ]
self_argument (path segments) = ok (py_self_path (path (replace_segments segments)))
self_argument t = err invalid_self

-- The type of a method whose first argument is its receiver, and the arguments that are left.
unfoldable pub receiver_type :
    FnType → Option Bool → List TypedArg → Result (FnType × List TypedArg) SpecError
unfolding self_argument
receiver_type fn none [] = err needs_staticmethod
receiver_type fn none ((arg, t) ∷ args) = then_ok (self_argument t) λ ty. ok (ty, args)
receiver_type ty self_ args = ok (ty, args)

abbrev is_empty : {A : Type 0} → List A → Bool
is_empty [] = true
is_empty (a ∷ as_) = false

pub check_class_attribute : FnType → Option Bool → List TypedArg → Result (Unit {0}) SpecError
check_class_attribute class_attribute self_ args =
    if is_some self_ || not (is_empty args) then err class_attribute_arguments else ok tt
check_class_attribute ty self_ args = ok tt

strip_prefix : String → String → Option String
strip_prefix prefix ident =
    if starts_with ident prefix then some (slice ident (len prefix) (len ident)) else none

-- The names of getters and setters.
unfoldable pub tweak_name : FnType → (ident : String) → Option String → Option String
unfolding strip_prefix
tweak_name ty ident (some name) = some name
tweak_name getter ident none = strip_prefix "get_" ident
tweak_name setter ident none = strip_prefix "set_" ident
tweak_name ty ident none = none

abbrev pub name_or : String → Option String → String
name_or name none = name
name_or name (some python_name) = python_name

parse_erroneous_text_signature :
    String → List Attribute → Result (Option String × List Attribute) SpecError
parse_erroneous_text_signature python_name attrs =
    then_ok (parse_text_signature_attrs python_name attrs) λ (text_signature, left).
      if is_some text_signature then err signature_not_allowed else ok (none, left)

abbrev pub has_signature : FnType → Bool
has_signature fn = true
has_signature (py_self_ref t) = true
has_signature (py_self_path t) = true
has_signature fn_class = true
has_signature fn_static = true
has_signature ty = false

unfoldable pub text_signature_of :
    FnType
    → (name python_name : String) → List Attribute
    → Result (Option String × List Attribute) SpecError
unfolding parse_erroneous_text_signature
text_signature_of ty name python_name attrs =
    if has_signature ty
    then parse_text_signature_attrs name attrs
    else parse_erroneous_text_signature python_name attrs

module _ (syn : Syn) where
  -- After the loop over the inputs.
  pub finish_spec :
      (name : String)
      → MethodAttributes
      → List Attribute
      → Option Bool × List TypedArg
      → Result (FnSpec × List Attribute) SpecError
  unfolding tweak_name check_class_attribute
  finish_spec name m attrs (self_, typed_args) =
      then_ok (receiver_type m.ty self_ typed_args) λ (ty, args).
        then_ok (check_class_attribute ty self_ args) λ u.
          let python_name =
            name_or (syn.unraw name) (tweak_name ty (syn.unraw name) m.python_name) in
          then_ok (text_signature_of ty name python_name attrs) λ (text_signature, left).
            then_ok (get_doc left text_signature true) λ doc. ok (
              record {
                tp = ty;
                self_ = self_;
                name = name;
                python_name = python_name;
                attrs = m.args;
                args = map (λ a. a.0) args;
                doc = doc;
              },
              left,
            )

  unfoldable pub parse :
      (name : String)
      → List Input
      → List Attribute
      → (allow_custom_name : Bool) → Parsed (FnSpec × List Attribute)
  unfolding finish_spec
  parse name inputs meth_attrs allow_custom_name =
      and_then_ok (ret (parse_method_attributes syn meth_attrs allow_custom_name)) λ (m, attrs).
        and_then_ok (add_inputs m.ty inputs none)
          λ (self_, args). ret (finish_spec name m attrs (self_, args))
