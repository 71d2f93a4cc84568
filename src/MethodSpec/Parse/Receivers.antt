-- ===== src/MethodSpec/Parse/Receivers.antt =====
-- Which inputs of a function are arguments of the method (`FnSpec::parse` of
-- pyo3-derive-backend/src/method.rs).
use pyo.Base.{
  is_some, ok-injective, subst, then_ok_inv, inl, inr, arith, ◌≡◌, refl, sym, ap, ◌∙◌, Bool, true,
  false, not, ◌&&◌, Bool-cases, if◌then◌else◌, Option, none, some, String, List, [], ◌∷◌, ◌++◌, map,
  drop, ret, Result, ok,
}
use pyo.MethodSpec.{FnArg}
use pyo.MethodSpec.Types.{SynType, is_ref}
use pyo.MethodSpec.Attributes.{
  Syn, Attribute, FnType, fn, fn_new, fn_call, fn_class, fn_static, class_attribute, getter, setter,
  py_self_ref, py_self_path, SpecError, type_or_fn,
}
use pyo.MethodSpec.Attributes.Kept.{last_type, parse_method_attributes_lem}
use pyo.MethodSpec.Parse.Stages.{and_then_inv, and_then_ok_inv, parsed-injective, parse-Accepted}
use pyo.MethodSpec.Parse.{
  Input, receiver, typed, FnSpec, and_then_ok, TypedArg, is_fn_class, add_input, add_inputs,
  typed_arg, self_argument, receiver_type, parse,
}

-- The inputs of a Rust function: a receiver, if it has one, and the others, which have names.
abbrev pub typed_inputs : List (String × SynType) → List Input
typed_inputs [] = []
typed_inputs ((name, t) ∷ ts) = typed (some name) t ∷ typed_inputs ts

abbrev pub inputs_of : Option Bool → List (String × SynType) → List Input
inputs_of none ts = typed_inputs ts
inputs_of (some mutable) ts = receiver mutable ∷ typed_inputs ts

-- Whether the first argument of such a method is its receiver or class when the function has no
-- receiver of its own.
abbrev pub takes_first : FnType → Bool
takes_first fn = true
takes_first fn_class = true
takes_first ty = false

abbrev pub arg_names : List FnArg → List String
arg_names [] = []
arg_names (a ∷ args) = a.name ∷ arg_names args

abbrev pub input_names : List (String × SynType) → List String
input_names [] = []
input_names ((name, t) ∷ ts) = name ∷ input_names ts

abbrev typed_names : List TypedArg → List String
typed_names [] = []
typed_names ((arg, t) ∷ args) = arg.name ∷ typed_names args

typed_arg-name :
    (name : String) (t : SynType) (arg : TypedArg)
    → typed_arg (some name) t ≡ ret (ok arg)
    → arg.0.name ≡ name
unfolding typed_arg
typed_arg-name name t arg h =
    let (is_reference, known, made) = and_then_inv (is_ref t) _ (ok arg) h in
    ap (λ a. a.0.name) (sym (parsed-injective _ _ made))

-- The inputs behind the first that counts as the receiver.
module _ (ty : FnType) (self_ : Option Bool)
    (given : (is_fn_class ty && not (is_some self_)) ≡ false) where
  add_inputs-names :
      (ts : List (String × SynType)) (self' : Option Bool) (args : List TypedArg)
      → add_inputs ty (typed_inputs ts) self_ ≡ ret (ok (self', args))
      → (self' ≡ self_) × (typed_names args ≡ input_names ts)
  unfolding add_inputs
  add_inputs-names [] self' args h =
      let same = parsed-injective _ _ h in
      (sym (ap (λ r. r.0) same), ap (λ r. typed_names r.1) (sym same))
  add_inputs-names ((name, t) ∷ ts) self' args h =
      let ((s1, new), first, rest) =
        and_then_ok_inv (add_input ty (typed (some name) t) self_) _ (self', args) h in
      let (arg, made, pushed) =
        and_then_ok_inv (typed_arg (some name) t) _ (s1, new) (rw (given, add_input) at first) in
      let push = parsed-injective _ _ pushed in
      let ((s2, more), others, done) =
        and_then_ok_inv (add_inputs ty (typed_inputs ts) s1) _ (self', args) rest in
      let whole = parsed-injective _ _ done in
      let (same_self, names) = add_inputs-names ts s2 more (
        subst (λ s. add_inputs ty (typed_inputs ts) s ≡ ret (ok (s2, more)))
          (sym (ap (λ r. r.0) push)) others) in
      (
        sym (ap (λ r. r.0) whole) ∙ same_self,
        ap (λ r. typed_names r.1) (sym whole)
            ∙ ap (λ r. typed_names (r.1 ++ more)) (sym push)
            ∙ ap (λ n. n ∷ typed_names more) (typed_arg-name name t arg made)
            ∙ ap (λ l. name ∷ l) names,
      )

abbrev is_fn : FnType → Bool
is_fn ty = takes_first ty && not (is_fn_class ty)

kept_names :
    (args args' : List TypedArg) (p q : FnType)
    → ◌≡◌ {A = Result (FnType × List TypedArg) SpecError} (ok (p, args)) (ok (q, args'))
    → typed_names args' ≡ typed_names args
kept_names args args' p q h = ap (λ r. typed_names r.1) (sym (ok-injective _ _ h))

receiver_type-names :
    (ty ty' : FnType) (self_ : Option Bool) (args args' : List TypedArg)
    → receiver_type ty self_ args ≡ ok (ty', args')
    → typed_names args'
      ≡ (if is_fn ty && not (is_some self_) then drop 1 (typed_names args) else typed_names args)
unfolding receiver_type
receiver_type-names fn ty' none [] args' h = absurd (ground (arith, h))
receiver_type-names fn ty' none ((arg, t) ∷ args) args' h =
    let (kind, found, same) = then_ok_inv (self_argument t) _ (ty', args') h in
    ap (λ r. typed_names r.1) (sym (ok-injective _ _ same))
receiver_type-names fn ty' (some mutable) args args' h =
    ap (λ r. typed_names r.1) (sym (ok-injective _ _ h))
receiver_type-names getter ty' self_ args args' h = kept_names _ _ _ _ h
receiver_type-names setter ty' self_ args args' h = kept_names _ _ _ _ h
receiver_type-names fn_new ty' self_ args args' h = kept_names _ _ _ _ h
receiver_type-names fn_call ty' self_ args args' h = kept_names _ _ _ _ h
receiver_type-names fn_class ty' self_ args args' h = kept_names _ _ _ _ h
receiver_type-names fn_static ty' self_ args args' h = kept_names _ _ _ _ h
receiver_type-names class_attribute ty' self_ args args' h = kept_names _ _ _ _ h
receiver_type-names (py_self_ref t) ty' self_ args args' h = kept_names _ _ _ _ h
receiver_type-names (py_self_path t) ty' self_ args args' h = kept_names _ _ _ _ h

module _ (ty : FnType) where
  -- The inputs behind those that are there when `self_` is set.
  behind :
      (self_ : Option Bool) (ts : List (String × SynType)) (given : Option Bool × List TypedArg)
      → (is_fn_class ty && not (is_some self_)) ≡ false
      → and_then_ok {B = Option Bool × List TypedArg}
          (add_inputs ty (typed_inputs ts) self_)
          (λ (s, args). ret (ok (s, args)))
        ≡ ret (ok given)
      → (given.0 ≡ self_) × (typed_names given.1 ≡ input_names ts)
  behind self_ ts given set h =
      let (r, added, same) = and_then_ok_inv (add_inputs ty (typed_inputs ts) self_) _ given h in
      let whole = parsed-injective _ _ same in
      let (s, names) = add_inputs-names ty self_ set ts r.0 r.1 added in
      (ap (λ q. q.0) (sym whole) ∙ s, ap (λ q. typed_names q.1) (sym whole) ∙ names)

  class-names :
      (ts : List (String × SynType)) (given : Option Bool × List TypedArg)
      → is_fn_class ty ≡ true
      → add_inputs ty (typed_inputs ts) none ≡ ret (ok given)
      → typed_names given.1 ≡ drop 1 (input_names ts)
  unfolding add_inputs add_input
  class-names [] given class h = ap (λ r. typed_names r.1) (sym (parsed-injective _ _ h))
  class-names ((name, t) ∷ ts) given class h =
      (behind (some false) ts given (ground arith) (rw (class, add_inputs, add_input) at h)).1

  inputs-names :
      (recv : Option Bool) (ts : List (String × SynType)) (given : Option Bool × List TypedArg)
      → add_inputs ty (inputs_of recv ts) none ≡ ret (ok given)
      → (typed_names given.1 ≡ (
          if is_fn_class ty && not (is_some recv) then drop 1 (input_names ts) else input_names ts))
        × (is_fn_class ty ≡ false → is_some given.0 ≡ is_some recv)
  unfolding add_inputs add_input
  inputs-names (some mutable) ts given h =
      let (s, names) = behind (some mutable) ts given (ground arith) h in
      (names ∙ ground arith, λ k. ap is_some s)
  inputs-names none ts given h = elim (Bool-cases (is_fn_class ty)) [
    | inl class ↦ (rw class (class-names ts given class h), λ k. absurd (ground (arith, class, k)))
    | inr other ↦
        let (s, names) = add_inputs-names ty none (rw other refl) ts given.0 given.1 h in
        (rw other names, λ k. ap is_some s)
  ]

class-takes_first : (ty : FnType) → is_fn_class ty ≡ true → takes_first ty ≡ true
class-takes_first getter h = absurd (ground (arith, h))
class-takes_first setter h = absurd (ground (arith, h))
class-takes_first fn h = absurd (ground (arith, h))
class-takes_first fn_new h = absurd (ground (arith, h))
class-takes_first fn_call h = absurd (ground (arith, h))
class-takes_first fn_class h = refl
class-takes_first fn_static h = absurd (ground (arith, h))
class-takes_first class_attribute h = absurd (ground (arith, h))
class-takes_first (py_self_ref t) h = absurd (ground (arith, h))
class-takes_first (py_self_path t) h = absurd (ground (arith, h))

-- `t`, `c`, `r` and `g` are whether the first argument is taken, by a class method, and whether there
-- is a receiver and was one found.
dropped_once :
    (t c r g : Bool) (l names : List String)
    → names ≡ (if c && not r then drop 1 l else l)
    → (c ≡ false → g ≡ r)
    → (c ≡ true → t ≡ true)
    → (if t && not c && not g then drop 1 names else names) ≡ (if t && not r then drop 1 l else l)
dropped_once true true r g l names e found class = e
dropped_once true false r g l names e found class = rw (found refl, e) refl
dropped_once false true r g l names e found class = absurd (ground (arith, class))
dropped_once false false r g l names e found class = e

typed_names-map : (args : List TypedArg) → arg_names (map (λ a. a.0) args) ≡ typed_names args
typed_names-map [] = refl
typed_names-map ((arg, t) ∷ args) = ap (λ l. arg.name ∷ l) (typed_names-map args)

-- An accepted function becomes a method whose arguments are the function's, in their order and under
-- their names, without its receiver: if it has no `self`, a plain method and a class method lose
-- their first argument, and every other method keeps all of them.
pub parse-arg_names :
    (syn : Syn) (name : String) (recv : Option Bool) (ts : List (String × SynType))
    (meth_attrs left : List Attribute) (allow_custom_name : Bool) (spec : FnSpec)
    → parse syn name (inputs_of recv ts) meth_attrs allow_custom_name ≡ ret (ok (spec, left))
    → arg_names spec.args ≡ (
        if takes_first (type_or_fn (last_type meth_attrs)) && not (is_some recv)
        then drop 1 (input_names ts)
        else input_names ts)
parse-arg_names syn name recv ts meth_attrs left allow_custom_name spec h =
    let (m, attrs, given, taken, added, accepted) =
      parse-Accepted syn name (inputs_of recv ts) meth_attrs left allow_custom_name spec h in
    let kind = (parse_method_attributes_lem syn meth_attrs attrs allow_custom_name m taken).0 in
    let (names, self) = inputs-names m.ty recv ts given added in
    let others =
      receiver_type-names m.ty spec.tp given.0 given.1 accepted.args accepted.receiver_ok in
    ap arg_names accepted.same_args
    ∙ typed_names-map accepted.args
    ∙ others
    ∙ dropped_once (takes_first m.ty) (is_fn_class m.ty) (is_some recv) (is_some given.0)
        (input_names ts) (typed_names given.1) names self (class-takes_first m.ty)
    ∙ ap
        (λ k.
          if takes_first k && not (is_some recv) then drop 1 (input_names ts) else input_names ts)
        kind
