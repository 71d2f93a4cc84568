-- ===== src/Proto/Tables/Containers.antt =====
-- `MAPPING` and `SEQ` of pyo3-derive-backend/src/defs.rs.
use pyo.Base.{List, [], ◌∷◌}
use pyo.Proto.Defs.{
  MethodProto, unary, binary, ternary, PyMethod, SlotSetter, Proto, new_method, new_setter,
}

abbrev pub mapping_methods : List MethodProto
mapping_methods =
    unary "__len__" "pyo3::class::mapping::PyMappingLenProtocol"
    ∷ binary "__getitem__" "Key" "pyo3::class::mapping::PyMappingGetItemProtocol"
    ∷ ternary "__setitem__" "Key" "Value" "pyo3::class::mapping::PyMappingSetItemProtocol"
    ∷ binary "__delitem__" "Key" "pyo3::class::mapping::PyMappingDelItemProtocol"
    ∷ unary "__reversed__" "pyo3::class::mapping::PyMappingReversedProtocol"
    ∷ []

abbrev pub mapping_py_methods : List PyMethod
mapping_py_methods =
    new_method "__reversed__" "pyo3::class::mapping::PyMappingReversedProtocolImpl" ∷ []

abbrev pub mapping_setters : List SlotSetter
mapping_setters =
    new_setter ("__len__" ∷ []) "set_length"
    ∷ new_setter ("__getitem__" ∷ []) "set_getitem"
    ∷ record {
      proto_names = "__setitem__" ∷ "__delitem__" ∷ [];
      set_function = "set_setdelitem";
      skipped_setters = "set_setitem" ∷ "set_delitem" ∷ [];
    }
    ∷ new_setter ("__setitem__" ∷ []) "set_setitem"
    ∷ new_setter ("__delitem__" ∷ []) "set_delitem"
    ∷ []

abbrev pub mapping : Proto
mapping = record {
  name = "Mapping";
  slot_table = "pyo3::ffi::PyMappingMethods";
  set_slot_table = "set_mapping_methods";
  methods = mapping_methods;
  py_methods = mapping_py_methods;
  slot_setters = mapping_setters;
}

abbrev pub seq_methods : List MethodProto
seq_methods =
    unary "__len__" "pyo3::class::sequence::PySequenceLenProtocol"
    ∷ binary "__getitem__" "Index" "pyo3::class::sequence::PySequenceGetItemProtocol"
    ∷ ternary "__setitem__" "Index" "Value" "pyo3::class::sequence::PySequenceSetItemProtocol"
    ∷ binary "__delitem__" "Index" "pyo3::class::sequence::PySequenceDelItemProtocol"
    ∷ binary "__contains__" "Item" "pyo3::class::sequence::PySequenceContainsProtocol"
    ∷ binary "__concat__" "Other" "pyo3::class::sequence::PySequenceConcatProtocol"
    ∷ binary "__repeat__" "Index" "pyo3::class::sequence::PySequenceRepeatProtocol"
    ∷ binary "__inplace_concat__" "Other" "pyo3::class::sequence::PySequenceInplaceConcatProtocol"
    ∷ binary "__inplace_repeat__" "Index" "pyo3::class::sequence::PySequenceInplaceRepeatProtocol"
    ∷ []

abbrev pub seq_py_methods : List PyMethod
seq_py_methods = []

abbrev pub seq_setters : List SlotSetter
seq_setters =
    new_setter ("__len__" ∷ []) "set_len"
    ∷ new_setter ("__concat__" ∷ []) "set_concat"
    ∷ new_setter ("__repeat__" ∷ []) "set_repeat"
    ∷ new_setter ("__getitem__" ∷ []) "set_getitem"
    ∷ record {
      proto_names = "__setitem__" ∷ "__delitem__" ∷ [];
      set_function = "set_setdelitem";
      skipped_setters = "set_setitem" ∷ "set_delitem" ∷ [];
    }
    ∷ new_setter ("__setitem__" ∷ []) "set_setitem"
    ∷ new_setter ("__delitem__" ∷ []) "set_delitem"
    ∷ new_setter ("__contains__" ∷ []) "set_contains"
    ∷ new_setter ("__inplace_concat__" ∷ []) "set_inplace_concat"
    ∷ new_setter ("__inplace_repeat__" ∷ []) "set_inplace_repeat"
    ∷ []

abbrev pub seq : Proto
seq = record {
  name = "Sequence";
  slot_table = "pyo3::ffi::PySequenceMethods";
  set_slot_table = "set_sequence_methods";
  methods = seq_methods;
  py_methods = seq_py_methods;
  slot_setters = seq_setters;
}
