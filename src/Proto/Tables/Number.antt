-- ===== src/Proto/Tables/Number.antt =====
-- `NUM` of pyo3-derive-backend/src/defs.rs.
use pyo.Base.{List, [], ◌∷◌}
use pyo.Proto.Defs.{
  MethodProto, unary, binary, binary_s, ternary, ternary_s, PyMethod, SlotSetter, Proto,
  coexist_method, new_method, new_setter,
}

abbrev pub num_methods : List MethodProto
num_methods =
    binary_s "__add__" "Left" "Right" "pyo3::class::number::PyNumberAddProtocol"
    ∷ binary_s "__sub__" "Left" "Right" "pyo3::class::number::PyNumberSubProtocol"
    ∷ binary_s "__mul__" "Left" "Right" "pyo3::class::number::PyNumberMulProtocol"
    ∷ binary_s "__matmul__" "Left" "Right" "pyo3::class::number::PyNumberMatmulProtocol"
    ∷ binary_s "__truediv__" "Left" "Right" "pyo3::class::number::PyNumberTruedivProtocol"
    ∷ binary_s "__floordiv__" "Left" "Right" "pyo3::class::number::PyNumberFloordivProtocol"
    ∷ binary_s "__mod__" "Left" "Right" "pyo3::class::number::PyNumberModProtocol"
    ∷ binary_s "__divmod__" "Left" "Right" "pyo3::class::number::PyNumberDivmodProtocol"
    ∷ ternary_s "__pow__" "Left" "Right" "Modulo" "pyo3::class::number::PyNumberPowProtocol"
    ∷ binary_s "__lshift__" "Left" "Right" "pyo3::class::number::PyNumberLShiftProtocol"
    ∷ binary_s "__rshift__" "Left" "Right" "pyo3::class::number::PyNumberRShiftProtocol"
    ∷ binary_s "__and__" "Left" "Right" "pyo3::class::number::PyNumberAndProtocol"
    ∷ binary_s "__xor__" "Left" "Right" "pyo3::class::number::PyNumberXorProtocol"
    ∷ binary_s "__or__" "Left" "Right" "pyo3::class::number::PyNumberOrProtocol"
    ∷ binary "__radd__" "Other" "pyo3::class::number::PyNumberRAddProtocol"
    ∷ binary "__rsub__" "Other" "pyo3::class::number::PyNumberRSubProtocol"
    ∷ binary "__rmul__" "Other" "pyo3::class::number::PyNumberRMulProtocol"
    ∷ binary "__rmatmul__" "Other" "pyo3::class::number::PyNumberRMatmulProtocol"
    ∷ binary "__rtruediv__" "Other" "pyo3::class::number::PyNumberRTruedivProtocol"
    ∷ binary "__rfloordiv__" "Other" "pyo3::class::number::PyNumberRFloordivProtocol"
    ∷ binary "__rmod__" "Other" "pyo3::class::number::PyNumberRModProtocol"
    ∷ binary "__rdivmod__" "Other" "pyo3::class::number::PyNumberRDivmodProtocol"
    ∷ ternary "__rpow__" "Other" "Modulo" "pyo3::class::number::PyNumberRPowProtocol"
    ∷ binary "__rlshift__" "Other" "pyo3::class::number::PyNumberRLShiftProtocol"
    ∷ binary "__rrshift__" "Other" "pyo3::class::number::PyNumberRRShiftProtocol"
    ∷ binary "__rand__" "Other" "pyo3::class::number::PyNumberRAndProtocol"
    ∷ binary "__rxor__" "Other" "pyo3::class::number::PyNumberRXorProtocol"
    ∷ binary "__ror__" "Other" "pyo3::class::number::PyNumberROrProtocol"
    ∷ binary "__iadd__" "Other" "pyo3::class::number::PyNumberIAddProtocol"
    ∷ binary "__isub__" "Other" "pyo3::class::number::PyNumberISubProtocol"
    ∷ binary "__imul__" "Other" "pyo3::class::number::PyNumberIMulProtocol"
    ∷ binary "__imatmul__" "Other" "pyo3::class::number::PyNumberIMatmulProtocol"
    ∷ binary "__itruediv__" "Other" "pyo3::class::number::PyNumberITruedivProtocol"
    ∷ binary "__ifloordiv__" "Other" "pyo3::class::number::PyNumberIFloordivProtocol"
    ∷ binary "__imod__" "Other" "pyo3::class::number::PyNumberIModProtocol"
    ∷ binary "__ipow__" "Other" "pyo3::class::number::PyNumberIPowProtocol"
    ∷ binary "__ilshift__" "Other" "pyo3::class::number::PyNumberILShiftProtocol"
    ∷ binary "__irshift__" "Other" "pyo3::class::number::PyNumberIRShiftProtocol"
    ∷ binary "__iand__" "Other" "pyo3::class::number::PyNumberIAndProtocol"
    ∷ binary "__ixor__" "Other" "pyo3::class::number::PyNumberIXorProtocol"
    ∷ binary "__ior__" "Other" "pyo3::class::number::PyNumberIOrProtocol"
    ∷ unary "__neg__" "pyo3::class::number::PyNumberNegProtocol"
    ∷ unary "__pos__" "pyo3::class::number::PyNumberPosProtocol"
    ∷ unary "__abs__" "pyo3::class::number::PyNumberAbsProtocol"
    ∷ unary "__invert__" "pyo3::class::number::PyNumberInvertProtocol"
    ∷ unary "__complex__" "pyo3::class::number::PyNumberComplexProtocol"
    ∷ unary "__int__" "pyo3::class::number::PyNumberIntProtocol"
    ∷ unary "__float__" "pyo3::class::number::PyNumberFloatProtocol"
    ∷ unary "__index__" "pyo3::class::number::PyNumberIndexProtocol"
    ∷ binary "__round__" "NDigits" "pyo3::class::number::PyNumberRoundProtocol"
    ∷ []

abbrev pub num_py_methods : List PyMethod
num_py_methods =
    coexist_method "__radd__" "pyo3::class::number::PyNumberRAddProtocolImpl"
    ∷ coexist_method "__rsub__" "pyo3::class::number::PyNumberRSubProtocolImpl"
    ∷ coexist_method "__rmul__" "pyo3::class::number::PyNumberRMulProtocolImpl"
    ∷ coexist_method "__rmatmul__" "pyo3::class::number::PyNumberRMatmulProtocolImpl"
    ∷ coexist_method "__rtruediv__" "pyo3::class::number::PyNumberRTruedivProtocolImpl"
    ∷ coexist_method "__rfloordiv__" "pyo3::class::number::PyNumberRFloordivProtocolImpl"
    ∷ coexist_method "__rmod__" "pyo3::class::number::PyNumberRModProtocolImpl"
    ∷ coexist_method "__rdivmod__" "pyo3::class::number::PyNumberRDivmodProtocolImpl"
    ∷ coexist_method "__rpow__" "pyo3::class::number::PyNumberRPowProtocolImpl"
    ∷ coexist_method "__rlshift__" "pyo3::class::number::PyNumberRLShiftProtocolImpl"
    ∷ coexist_method "__rrshift__" "pyo3::class::number::PyNumberRRShiftProtocolImpl"
    ∷ coexist_method "__rand__" "pyo3::class::number::PyNumberRAndProtocolImpl"
    ∷ coexist_method "__rxor__" "pyo3::class::number::PyNumberRXorProtocolImpl"
    ∷ coexist_method "__ror__" "pyo3::class::number::PyNumberROrProtocolImpl"
    ∷ new_method "__complex__" "pyo3::class::number::PyNumberComplexProtocolImpl"
    ∷ new_method "__round__" "pyo3::class::number::PyNumberRoundProtocolImpl"
    ∷ []

abbrev pub num_setters : List SlotSetter
num_setters =
    record {
      proto_names = "__add__" ∷ [];
      set_function = "set_add";
      skipped_setters = "set_radd" ∷ [];
    }
    ∷ new_setter ("__radd__" ∷ []) "set_radd"
    ∷ record {
      proto_names = "__sub__" ∷ [];
      set_function = "set_sub";
      skipped_setters = "set_rsub" ∷ [];
    }
    ∷ new_setter ("__rsub__" ∷ []) "set_rsub"
    ∷ record {
      proto_names = "__mul__" ∷ [];
      set_function = "set_mul";
      skipped_setters = "set_rmul" ∷ [];
    }
    ∷ new_setter ("__rmul__" ∷ []) "set_rmul"
    ∷ new_setter ("__mod__" ∷ []) "set_mod"
    ∷ record {
      proto_names = "__divmod__" ∷ [];
      set_function = "set_divmod";
      skipped_setters = "set_rdivmod" ∷ [];
    }
    ∷ new_setter ("__rdivmod__" ∷ []) "set_rdivmod"
    ∷ record {
      proto_names = "__pow__" ∷ [];
      set_function = "set_pow";
      skipped_setters = "set_rpow" ∷ [];
    }
    ∷ new_setter ("__rpow__" ∷ []) "set_rpow"
    ∷ new_setter ("__neg__" ∷ []) "set_neg"
    ∷ new_setter ("__pos__" ∷ []) "set_pos"
    ∷ new_setter ("__abs__" ∷ []) "set_abs"
    ∷ new_setter ("__invert__" ∷ []) "set_invert"
    ∷ new_setter ("__rdivmod__" ∷ []) "set_rdivmod"
    ∷ record {
      proto_names = "__lshift__" ∷ [];
      set_function = "set_lshift";
      skipped_setters = "set_rlshift" ∷ [];
    }
    ∷ new_setter ("__rlshift__" ∷ []) "set_rlshift"
    ∷ record {
      proto_names = "__rshift__" ∷ [];
      set_function = "set_rshift";
      skipped_setters = "set_rrshift" ∷ [];
    }
    ∷ new_setter ("__rrshift__" ∷ []) "set_rrshift"
    ∷ record {
      proto_names = "__and__" ∷ [];
      set_function = "set_and";
      skipped_setters = "set_rand" ∷ [];
    }
    ∷ new_setter ("__rand__" ∷ []) "set_rand"
    ∷ record {
      proto_names = "__xor__" ∷ [];
      set_function = "set_xor";
      skipped_setters = "set_rxor" ∷ [];
    }
    ∷ new_setter ("__rxor__" ∷ []) "set_rxor"
    ∷ record {
      proto_names = "__or__" ∷ [];
      set_function = "set_or";
      skipped_setters = "set_ror" ∷ [];
    }
    ∷ new_setter ("__ror__" ∷ []) "set_ror"
    ∷ new_setter ("__int__" ∷ []) "set_int"
    ∷ new_setter ("__float__" ∷ []) "set_float"
    ∷ new_setter ("__iadd__" ∷ []) "set_iadd"
    ∷ new_setter ("__isub__" ∷ []) "set_isub"
    ∷ new_setter ("__imul__" ∷ []) "set_imul"
    ∷ new_setter ("__imod__" ∷ []) "set_imod"
    ∷ new_setter ("__ipow__" ∷ []) "set_ipow"
    ∷ new_setter ("__ilshift__" ∷ []) "set_ilshift"
    ∷ new_setter ("__irshift__" ∷ []) "set_irshift"
    ∷ new_setter ("__iand__" ∷ []) "set_iand"
    ∷ new_setter ("__ixor__" ∷ []) "set_ixor"
    ∷ new_setter ("__ior__" ∷ []) "set_ior"
    ∷ record {
      proto_names = "__floordiv__" ∷ [];
      set_function = "set_floordiv";
      skipped_setters = "set_rfloordiv" ∷ [];
    }
    ∷ new_setter ("__rfloordiv__" ∷ []) "set_rfloordiv"
    ∷ record {
      proto_names = "__truediv__" ∷ [];
      set_function = "set_truediv";
      skipped_setters = "set_rtruediv" ∷ [];
    }
    ∷ new_setter ("__rtruediv__" ∷ []) "set_rtruediv"
    ∷ new_setter ("__ifloordiv__" ∷ []) "set_ifloordiv"
    ∷ new_setter ("__itruediv__" ∷ []) "set_itruediv"
    ∷ new_setter ("__index__" ∷ []) "set_index"
    ∷ record {
      proto_names = "__matmul__" ∷ [];
      set_function = "set_matmul";
      skipped_setters = "set_rmatmul" ∷ [];
    }
    ∷ new_setter ("__rmatmul__" ∷ []) "set_rmatmul"
    ∷ new_setter ("__imatmul__" ∷ []) "set_imatmul"
    ∷ []

abbrev pub num : Proto
num = record {
  name = "Number";
  slot_table = "pyo3::ffi::PyNumberMethods";
  set_slot_table = "set_number_methods";
  methods = num_methods;
  py_methods = num_py_methods;
  slot_setters = num_setters;
}
