-- ===== src/Classes.antt =====
-- src/class/methods.rs and src/pyclass.rs: the definitions that `#[pymethods]` collects for a class,
-- and the tables made of them. A C function is its address; a property table is an association list
-- in place of a `HashMap`, whose order means nothing.
pub mod Entries
pub mod Properties
pub mod Methods
pub mod TypeObject
pub mod Names
pub mod Build
pub mod Tables
pub mod Layout
mod Examples
use Prim.Native.Char.{code}
use text.Mathlib.Text.{◌==◌}
use pyo.Base.{
  ℕ, zero, suc, ◌≡◌, Bool, true, false, ◌||◌, if◌then◌else◌, Option, none, some, String, List, [],
  ◌∷◌, ◌++◌, Outcome, ret, panic, and_then,
}

pub data PyMethodType : Type 0 where
  c_function c_function_with_keywords new_func init_func : (address : ℕ) → PyMethodType

pub record PyMethodDef : Type 0 where
  pub ml_name : String
  pub ml_meth : PyMethodType
  pub ml_flags : ℕ
  pub ml_doc : String

-- `PyClassAttributeDef`, `PyGetterDef` and `PySetterDef`.
pub record AttributeDef : Type 0 where
  pub name : String
  pub meth : ℕ

pub record PropertyDef : Type 0 where
  pub name : String
  pub meth : ℕ
  pub doc : String

pub data PyMethodDefType : Type 0 where
  new_def call_def class_def static_def method_def : PyMethodDef → PyMethodDefType
  class_attribute : AttributeDef → PyMethodDefType
  getter setter : PropertyDef → PyMethodDefType

-- `ffi::PyMethodDef` and `ffi::PyGetSetDef`; a null pointer is `none`.
pub record FfiMethodDef : Type 0 where
  pub ml_name : Option String
  pub ml_meth : Option ℕ
  pub ml_flags : ℕ
  pub ml_doc : Option String

pub record GetSetDef : Type 0 where
  pub name : Option String
  pub get : Option ℕ
  pub set : Option ℕ
  pub doc : Option String

abbrev pub method_def_init : FfiMethodDef
method_def_init = record { ml_name = none; ml_meth = none; ml_flags = 0; ml_doc = none }

abbrev pub get_set_def_init : GetSetDef
get_set_def_init = record { name = none; get = none; set = none; doc = none }

is_nul : ℕ → Bool
is_nul zero = true
is_nul (suc n) = false

unfoldable pub has_nul : String → Bool
unfolding is_nul
has_nul String.[] = false
has_nul (String.◌∷◌ c s) = is_nul (code c) || has_nul s

-- `CString::new(…).expect(…)`.
unfoldable pub c_string : String → String → Outcome String
c_string message s = if has_nul s then panic message else ret s

abbrev pub method_address : PyMethodType → ℕ
method_address (c_function meth) = meth
method_address (c_function_with_keywords meth) = meth
method_address (new_func meth) = meth
method_address (init_func meth) = meth

abbrev nul_message : String
nul_message = "Method name must not contain NULL byte"

unfoldable pub as_method_def : PyMethodDef → Outcome FfiMethodDef
as_method_def def = and_then (c_string nul_message def.ml_name) λ name. ret (record {
  ml_name = some name;
  ml_meth = some (method_address def.ml_meth);
  ml_flags = def.ml_flags;
  ml_doc = some def.ml_doc;
})

-- The part that both `copy_to` share.
name_or : Option String → String → Outcome String
name_or none name = c_string nul_message name
name_or (some old) name = ret old

abbrev doc_or : Option String → String → String
doc_or none doc = doc
doc_or (some old) doc = old

unfoldable pub getter_copy_to : PropertyDef → GetSetDef → Outcome GetSetDef
unfolding name_or
getter_copy_to def dst = and_then (name_or dst.name def.name) λ name. ret (record {
  name = some name;
  get = some def.meth;
  set = dst.set;
  doc = some (doc_or dst.doc def.doc);
})

unfoldable pub setter_copy_to : PropertyDef → GetSetDef → Outcome GetSetDef
unfolding name_or
setter_copy_to def dst = and_then (name_or dst.name def.name) λ name. ret (record {
  name = some name;
  get = dst.get;
  set = some def.meth;
  doc = some (doc_or dst.doc def.doc);
})

unfoldable pub py_class_attributes : List PyMethodDefType → List AttributeDef
py_class_attributes [] = []
py_class_attributes (class_attribute attr ∷ defs) = attr ∷ py_class_attributes defs
py_class_attributes (def ∷ defs) = py_class_attributes defs

-- `new`, `call` and `defs` of `py_class_method_defs`.
pub record MethodDefs : Type 0 where
  pub new : Option ℕ
  pub call : Option ℕ
  pub defs : List FfiMethodDef

abbrev set_new : PyMethodType → MethodDefs → MethodDefs
set_new (new_func meth) m = record m { new = some meth }
set_new meth m = m

set_call : PyMethodType → MethodDefs → Outcome MethodDefs
set_call (c_function_with_keywords meth) m = ret (record m { call = some meth })
set_call meth m = panic "Method type is not supoorted by tp_call slot"

push_method : PyMethodDef → MethodDefs → Outcome MethodDefs
push_method def m = and_then (as_method_def def) λ d. ret (record m { defs = m.defs ++ d ∷ [] })

unfoldable pub add_method_def : PyMethodDefType → MethodDefs → Outcome MethodDefs
unfolding set_call push_method
add_method_def (new_def def) m = ret (set_new def.ml_meth m)
add_method_def (call_def def) m = set_call def.ml_meth m
add_method_def (method_def def) m = push_method def m
add_method_def (class_def def) m = push_method def m
add_method_def (static_def def) m = push_method def m
add_method_def _ m = ret m

unfoldable pub add_method_defs : List PyMethodDefType → MethodDefs → Outcome MethodDefs
add_method_defs [] m = ret m
add_method_defs (def ∷ defs) m = and_then (add_method_def def m) λ m'. add_method_defs defs m'

unfoldable pub py_class_method_defs : List PyMethodDefType → Outcome MethodDefs
py_class_method_defs defs = add_method_defs defs (record { new = none; call = none; defs = [] })

-- The entry of a name, and the table with another entry for it.
unfoldable pub get_entry : String → List (String × GetSetDef) → Option GetSetDef
get_entry name [] = none
get_entry name ((key, def) ∷ rest) = if key == name then some def else get_entry name rest

unfoldable pub set_entry :
    String → GetSetDef → List (String × GetSetDef) → List (String × GetSetDef)
set_entry name def [] = (name, def) ∷ []
set_entry name def ((key, old) ∷ rest) =
    let others = set_entry name def rest in
    if key == name then (key, def) ∷ rest else (key, old) ∷ others

abbrev entry_or_init : Option GetSetDef → GetSetDef
entry_or_init none = get_set_def_init
entry_or_init (some def) = def

-- The entry is there from `insert` on, so that `get_mut` finds it.
abbrev with_entry :
    String
    → (GetSetDef → Outcome GetSetDef)
    → List (String × GetSetDef)
    → Outcome (List (String × GetSetDef))
with_entry name copy_to defs =
    and_then (copy_to (entry_or_init (get_entry name defs))) λ def. ret (set_entry name def defs)

unfoldable pub add_property :
    PyMethodDefType → List (String × GetSetDef) → Outcome (List (String × GetSetDef))
add_property (getter g) defs = with_entry g.name (getter_copy_to g) defs
add_property (setter s) defs = with_entry s.name (setter_copy_to s) defs
add_property _ defs = ret defs

unfoldable pub add_properties :
    List PyMethodDefType → List (String × GetSetDef) → Outcome (List (String × GetSetDef))
add_properties [] defs = ret defs
add_properties (def ∷ rest) defs =
    and_then (add_property def defs) λ defs'. add_properties rest defs'

-- The values of `defs` at the end, by their names.
unfoldable pub py_class_properties : List PyMethodDefType → Outcome (List (String × GetSetDef))
py_class_properties defs = add_properties defs []
