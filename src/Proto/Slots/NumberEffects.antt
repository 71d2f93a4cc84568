-- ===== src/Proto/Slots/NumberEffects.antt =====
-- The setters of `PyNumberMethods` in src/class/number.rs.
use pyo.Base.{List, [], ◌∷◌, ◌++◌}
use pyo.Proto.Slots.Table.{
  SetterEffect, new_effect, binary_num, binary_reversed_num, ternary_num, ternary_reversed_num,
  unary_call, binary_self, dummy_ternary_self,
}

abbrev pub number_effects_to_or : List SetterEffect
number_effects_to_or =
    new_effect "set_add" "nb_add" binary_num ("__add__" ∷ [])
    ∷ new_effect "set_radd" "nb_add" binary_reversed_num ("__radd__" ∷ [])
    ∷ new_effect "set_sub" "nb_subtract" binary_num ("__sub__" ∷ [])
    ∷ new_effect "set_rsub" "nb_subtract" binary_reversed_num ("__rsub__" ∷ [])
    ∷ new_effect "set_mul" "nb_multiply" binary_num ("__mul__" ∷ [])
    ∷ new_effect "set_rmul" "nb_multiply" binary_reversed_num ("__rmul__" ∷ [])
    ∷ new_effect "set_mod" "nb_remainder" binary_num ("__mod__" ∷ [])
    ∷ new_effect "set_divmod" "nb_divmod" binary_num ("__divmod__" ∷ [])
    ∷ new_effect "set_rdivmod" "nb_divmod" binary_reversed_num ("__rdivmod__" ∷ [])
    ∷ new_effect "set_pow" "nb_power" ternary_num ("__pow__" ∷ [])
    ∷ new_effect "set_rpow" "nb_power" ternary_reversed_num ("__rpow__" ∷ [])
    ∷ new_effect "set_neg" "nb_negative" unary_call ("__neg__" ∷ [])
    ∷ new_effect "set_pos" "nb_positive" unary_call ("__pos__" ∷ [])
    ∷ new_effect "set_abs" "nb_absolute" unary_call ("__abs__" ∷ [])
    ∷ new_effect "set_invert" "nb_invert" unary_call ("__invert__" ∷ [])
    ∷ new_effect "set_lshift" "nb_lshift" binary_num ("__lshift__" ∷ [])
    ∷ new_effect "set_rlshift" "nb_lshift" binary_reversed_num ("__rlshift__" ∷ [])
    ∷ new_effect "set_rshift" "nb_rshift" binary_num ("__rshift__" ∷ [])
    ∷ new_effect "set_rrshift" "nb_rshift" binary_reversed_num ("__rrshift__" ∷ [])
    ∷ new_effect "set_and" "nb_and" binary_num ("__and__" ∷ [])
    ∷ new_effect "set_rand" "nb_and" binary_reversed_num ("__rand__" ∷ [])
    ∷ new_effect "set_xor" "nb_xor" binary_num ("__xor__" ∷ [])
    ∷ new_effect "set_rxor" "nb_xor" binary_reversed_num ("__rxor__" ∷ [])
    ∷ new_effect "set_or" "nb_or" binary_num ("__or__" ∷ [])
    ∷ []

abbrev pub number_effects_from_ror : List SetterEffect
number_effects_from_ror =
    new_effect "set_ror" "nb_or" binary_reversed_num ("__ror__" ∷ [])
    ∷ new_effect "set_int" "nb_int" unary_call ("__int__" ∷ [])
    ∷ new_effect "set_float" "nb_float" unary_call ("__float__" ∷ [])
    ∷ new_effect "set_iadd" "nb_inplace_add" binary_self ("__iadd__" ∷ [])
    ∷ new_effect "set_isub" "nb_inplace_subtract" binary_self ("__isub__" ∷ [])
    ∷ new_effect "set_imul" "nb_inplace_multiply" binary_self ("__imul__" ∷ [])
    ∷ new_effect "set_imod" "nb_inplace_remainder" binary_self ("__imod__" ∷ [])
    ∷ new_effect "set_ipow" "nb_inplace_power" dummy_ternary_self ("__ipow__" ∷ [])
    ∷ new_effect "set_ilshift" "nb_inplace_lshift" binary_self ("__ilshift__" ∷ [])
    ∷ new_effect "set_irshift" "nb_inplace_rshift" binary_self ("__irshift__" ∷ [])
    ∷ new_effect "set_iand" "nb_inplace_and" binary_self ("__iand__" ∷ [])
    ∷ new_effect "set_ixor" "nb_inplace_xor" binary_self ("__ixor__" ∷ [])
    ∷ new_effect "set_ior" "nb_inplace_or" binary_self ("__ior__" ∷ [])
    ∷ new_effect "set_floordiv" "nb_floor_divide" binary_num ("__floordiv__" ∷ [])
    ∷ new_effect "set_rfloordiv" "nb_floor_divide" binary_reversed_num ("__rfloordiv__" ∷ [])
    ∷ new_effect "set_truediv" "nb_true_divide" binary_num ("__truediv__" ∷ [])
    ∷ new_effect "set_rtruediv" "nb_true_divide" binary_reversed_num ("__rtruediv__" ∷ [])
    ∷ new_effect "set_ifloordiv" "nb_inplace_floor_divide" binary_self ("__ifloordiv__" ∷ [])
    ∷ new_effect "set_itruediv" "nb_inplace_true_divide" binary_self ("__itruediv__" ∷ [])
    ∷ new_effect "set_index" "nb_index" unary_call ("__index__" ∷ [])
    ∷ new_effect "set_matmul" "nb_matrix_multiply" binary_num ("__matmul__" ∷ [])
    ∷ new_effect "set_rmatmul" "nb_matrix_multiply" binary_reversed_num ("__rmatmul__" ∷ [])
    ∷ new_effect "set_imatmul" "nb_inplace_matrix_multiply" binary_self ("__imatmul__" ∷ [])
    ∷ []

abbrev pub number_effects : List SetterEffect
number_effects = number_effects_to_or ++ number_effects_from_ror
