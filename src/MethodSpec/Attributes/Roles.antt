-- ===== src/MethodSpec/Attributes/Roles.antt =====
-- What the name of an attribute says to do in `parse_method_attributes` of
-- pyo3-derive-backend/src/method.rs.
use text.Mathlib.Text.{◌==◌}
use text.Mathlib.TextEquality.{eq_iff}
use pyo.Base.{
  inl, inr, arith, ◌≡◌, refl, Bool, true, false, ◌||◌, Bool-cases, if◌then◌else◌, Option, none,
  some, String, List, Result, ok, err, then_ok,
}
use pyo.FnAttr.{NestedMeta, from_meta}
use pyo.MethodSpec.Attributes.{
  Syn, Attribute, FnType, fn_new, fn_call, fn_class, fn_static, class_attribute, SpecError,
  Progress, check_property, property_type, init_disabled, keep, add_word, add_list, add_arguments,
  property_name_of,
}
use pyo.MethodSpec.Attributes.Given.{word_types, list_types, type_in}

-- What the name of an attribute says to do.
pub data Role : Type 0 where
  typed property : FnType → Role
  refused : SpecError → Role
  arguments left : Role

abbrev pub role_type : Role → Option FnType
role_type (typed ty) = some ty
role_type (property ty) = some ty
role_type role = none

pub word_role : String → Role
word_role name =
    if name == "new" || name == "__new__"
    then typed fn_new
    else if name == "init" || name == "__init__"
    then refused init_disabled
    else if name == "call" || name == "__call__"
    then typed fn_call
    else if name == "classmethod"
    then typed fn_class
    else if name == "staticmethod"
    then typed fn_static
    else if name == "classattr"
    then typed class_attribute
    else if name == "setter" || name == "getter"
    then property (property_type name)
    else left

pub list_role : String → Role
list_role name =
    if name == "new"
    then typed fn_new
    else if name == "init"
    then refused init_disabled
    else if name == "call"
    then typed fn_call
    else if name == "setter" || name == "getter"
    then property (property_type name)
    else if name == "args"
    then arguments
    else left

module _ (a : Attribute) (s : Progress) where
  unfoldable pub run_word : Role → Result Progress SpecError
  run_word (typed ty) = ok (record s { res = some ty })
  run_word (property ty) = then_ok (check_property a s) λ u. ok (record s { res = some ty })
  run_word (refused e) = err e
  run_word role = ok (keep a s)

  pub run_word-if :
      (b : Bool) (r q : Role)
      → run_word (if b then r else q) ≡ (if b then run_word r else run_word q)
  run_word-if true r q = refl
  run_word-if false r q = refl

  pub add_word-run : add_word a s ≡ run_word (word_role a.path)
  unfolding add_word run_word word_role
  add_word-run = simp (run_word-if)

  module _ (syn : Syn) (nested : List NestedMeta) where
    unfoldable pub run_list : Role → Result Progress SpecError
    run_list (typed ty) = ok (record s { res = some ty })
    run_list (property ty) = then_ok (check_property a s) λ u.
        then_ok (property_name_of syn nested)
          λ name. ok (record s { res = some ty; property_name = name })
    run_list (refused e) = err e
    run_list arguments = add_arguments syn (from_meta nested) s
    run_list left = ok (keep a s)

    pub run_list-if :
        (b : Bool) (r q : Role)
        → run_list (if b then r else q) ≡ (if b then run_list r else run_list q)
    run_list-if true r q = refl
    run_list-if false r q = refl

    pub add_list-run : add_list syn a nested s ≡ run_list (list_role a.path)
    unfolding add_list run_list list_role
    add_list-run = simp (run_list-if)

abbrev pub is_refused : Role → Bool
is_refused (refused e) = true
is_refused role = false

abbrev pub is_arguments : Role → Bool
is_arguments arguments = true
is_arguments role = false

pub word_role-type :
    (name : String)
    → is_refused (word_role name) ≡ false
    → type_in word_types name ≡ role_type (word_role name)
unfolding type_in word_role
word_role-type name h = ground (arith, h)

pub list_role-type :
    (name : String)
    → is_refused (list_role name) ≡ false
    → type_in list_types name ≡ role_type (list_role name)
unfolding type_in list_role
list_role-type name h = ground (arith, h)

pub list_role-arguments : (name : String) → is_arguments (list_role name) ≡ (name == "args")
unfolding list_role
list_role-arguments name = elim (Bool-cases (name == "args")) [
  | inl args ↦ let same : name ≡ "args" = (eq_iff name "args").0 args in rw same refl
  | inr other ↦ ground (arith, other)
]

pub word_role-property :
    (name : String)
    → (name == "setter" || name == "getter") ≡ true
    → word_role name ≡ property (property_type name)
unfolding word_role
word_role-property name h = elim (Bool-cases (name == "setter")) [
  | inl set ↦ rw ((eq_iff name "setter").0 set) refl
  | inr other ↦ rw ((eq_iff name "getter").0 (ground (arith, h, other))) refl
]

pub list_role-property :
    (name : String)
    → (name == "setter" || name == "getter") ≡ true
    → list_role name ≡ property (property_type name)
unfolding list_role
list_role-property name h = elim (Bool-cases (name == "setter")) [
  | inl set ↦ rw ((eq_iff name "setter").0 set) refl
  | inr other ↦ rw ((eq_iff name "getter").0 (ground (arith, h, other))) refl
]

pub word_role-not_arguments : (name : String) → is_arguments (word_role name) ≡ false
unfolding word_role
word_role-not_arguments name = ground arith
