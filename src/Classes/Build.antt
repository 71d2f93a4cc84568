-- ===== src/Classes/Build.antt =====
-- `initialize_type_object` of src/pyclass.rs, from the parts of Classes/TypeObject.
use pyo.Base.{if◌then◌else◌, Option, some, String, Outcome, ret, and_then, Result, ok, err, then_ok}
use pyo.Classes.{py_class_method_defs, py_class_properties}
use pyo.Classes.TypeObject.{
  Class, PyTypeObject, Runtime, size_of_cell, set_offsets, set_protocols, with_tables,
  py_class_flags,
}
use pyo.Classes.Names.{TypeError, not_ready, description_doc, qualified_name}

unfoldable pub with_names : Class → Option String → PyTypeObject → Result PyTypeObject TypeError
unfolding description_doc qualified_name
with_names c module_name t = then_ok (description_doc c.description) λ doc.
    then_ok (qualified_name module_name c.name) λ name. ok (record t {
      tp_doc = doc;
      tp_base = c.base;
      tp_name = some name;
      tp_dealloc = some c.dealloc;
      tp_basicsize = size_of_cell c;
    })

-- The statements after the name is set, up to `PyType_Ready`.
unfoldable pub filled : Runtime → Class → PyTypeObject → Outcome PyTypeObject
filled r c t = and_then (py_class_method_defs c.py_methods) λ m.
    and_then (py_class_properties c.py_methods) λ props.
      ret (py_class_flags c.flags (with_tables r c m props (set_protocols c (set_offsets c t))))

unfoldable pub ready : Runtime → PyTypeObject → Result PyTypeObject TypeError
ready r t = if r.type_ready t then ok t else err not_ready

unfoldable pub initialize_type_object :
    Runtime → Class → Option String → PyTypeObject → Outcome (Result PyTypeObject TypeError)
unfolding ready
initialize_type_object r c module_name t = elim (with_names c module_name t) [
  | ok t' ↦ and_then (filled r c t') λ t''. ret (ready r t'')
  | err e ↦ ret (err e)
]
