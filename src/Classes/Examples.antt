-- ===== src/Classes/Examples.antt =====
-- A class with a property that has a getter and a setter, and classes with `dict` and `weakref`.
use text.Mathlib.Text.{◌==◌}
use pyo.Base.{
  leb, if◌then◌else◌, ℕ, ◌≡◌, refl, arith, Bool, true, false, none, some, String, List, [], ◌∷◌,
  ret, ok,
}
use pyo.Classes.{
  c_function, c_function_with_keywords, PyMethodDef, PropertyDef, PyMethodDefType, call_def,
  method_def, getter, setter, GetSetDef, has_nul, c_string, get_entry, py_class_properties,
  add_properties, add_property, getter_copy_to, setter_copy_to, set_entry,
}
use pyo.Classes.Entries.{property}
use pyo.Classes.Properties.{py_class_properties_lem}
use pyo.Classes.Methods.{last_new, last_call, all_methods}
use pyo.Classes.TypeObject.{Class, nul_only, PyTypeObject, Runtime, size_of_cell, set_offsets}
use pyo.Classes.Build.{with_names, initialize_type_object}
use pyo.Classes.Names.{description_doc, qualified_name}
use pyo.Classes.Tables.{read_methods, read_property, initialize_type_object_lem}
use pyo.Classes.Layout.{
  drop_value, drop_base, clear_dict, clear_weakrefs, py_drop, py_drop-keeps_weakrefs,
}

abbrev property_at : ℕ → PropertyDef
property_at a = record { name = "x"; meth = a; doc = "text" }

abbrev method_at : ℕ → String → PyMethodDef
method_at a name = record { ml_name = name; ml_meth = c_function a; ml_flags = 1; ml_doc = "" }

abbrev call_at : ℕ → PyMethodDef
call_at a = record (method_at a "__call__") { ml_meth = c_function_with_keywords a }

abbrev definitions : List PyMethodDefType
definitions =
    getter (property_at 1)
    ∷ method_def (method_at 2 "go")
    ∷ call_def (call_at 3)
    ∷ setter (property_at 4)
    ∷ getter (property_at 5)
    ∷ []

abbrev x_property : GetSetDef
x_property = record { name = some "x"; get = some 5; set = some 4; doc = some "text" }

has_x :
    (t : List (String × GetSetDef)) × (py_class_properties definitions ≡ ret t)
    × (get_entry "x" t ≡ some x_property)
unfolding py_class_properties add_properties add_property getter_copy_to setter_copy_to set_entry
    get_entry c_string has_nul
has_x = (_, refl, refl)

py_class_properties_lem_example :
    (t : List (String × GetSetDef)) × (py_class_properties definitions ≡ ret t)
    × ((n : String) → get_entry n t ≡ property n definitions)
unfolding has_nul
py_class_properties_lem_example =
    py_class_properties_lem definitions (refl, (tt, (tt, (refl, (refl, tt)))))

abbrev class_with : Bool → Bool → Class
class_with dict weakref = record {
  name = "C";
  description = nul_only;
  base = 1;
  flags = 5;
  inner_size = 32;
  has_dict = dict;
  has_weakref = weakref;
  dealloc = 2;
  gc = none;
  descr = none;
  iter = none;
  basic = none;
  number = none;
  mapping = none;
  sequence = none;
  async = none;
  buffer = none;
  py_methods = definitions;
}

abbrev type_object : PyTypeObject
type_object = record {
  tp_name = none;
  tp_doc = none;
  tp_base = 0;
  tp_dealloc = none;
  tp_basicsize = 48;
  tp_dictoffset = 0;
  tp_weaklistoffset = 0;
  gc = record { tp_traverse = none; tp_clear = none };
  descr = record { tp_descr_get = none; tp_descr_set = none };
  iter = record { tp_iter = none; tp_iternext = none };
  basic = record {
    tp_str = none;
    tp_repr = none;
    tp_hash = none;
    tp_getattro = none;
    tp_richcompare = none;
    tp_setattro = none;
  };
  tp_as_number = none;
  tp_as_mapping = none;
  tp_as_sequence = none;
  tp_as_async = none;
  tp_as_buffer = none;
  tp_methods = [];
  tp_new = none;
  tp_call = none;
  tp_getset = [];
  tp_flags = 0;
}

abbrev runtime : Runtime
runtime = record { generic_get_dict = 11; generic_set_dict = 12; type_ready = λ t. true }

initialize_type_object_lem_example :
    (t' : PyTypeObject) × (initialize_type_object runtime
        (class_with true false)
        (some "m")
        type_object
      ≡ ret (ok t'))
    × (read_methods t'.tp_methods ≡ all_methods definitions)
    × (t'.tp_new ≡ last_new definitions)
    × (t'.tp_call ≡ last_call definitions)
    × ((n : String)
        → ("__dict__" == n) ≡ false
        → read_property n t'.tp_getset ≡ property n definitions)
unfolding has_nul with_names description_doc qualified_name
initialize_type_object_lem_example =
    initialize_type_object_lem runtime (class_with true false) (some "m") type_object _
      (refl, (tt, (tt, (refl, (refl, tt))))) refl refl refl refl

-- The places up to 32 hold pointers.
abbrev memory : ℕ → ℕ
memory i = if leb i 32 then 7 else 0

weakrefs_cleared :
    py_drop (class_with false true) memory ≡ drop_value ∷ clear_weakrefs ∷ drop_base ∷ []
unfolding py_drop
weakrefs_cleared = refl

py_drop-keeps_weakrefs_example :
    py_drop (class_with true true) memory ≡ drop_value ∷ clear_dict 7 ∷ drop_base ∷ []
unfolding set_offsets size_of_cell
py_drop-keeps_weakrefs_example =
    py_drop-keeps_weakrefs (class_with true true) type_object memory refl refl
      (λ h. ground (arith, h)) refl
