-- ===== src/Proto/Slots/OtherEffects.antt =====
-- The setters of `PyMappingMethods` in src/class/mapping.rs, of `PySequenceMethods` in
-- src/class/sequence.rs, and of `PyObjectMethods` in src/class/basic.rs.
use pyo.Base.{List, [], ◌∷◌}
use pyo.Proto.Slots.Table.{
  SetterEffect, new_effect, unary_call, binary_call, set_only, del_only, set_and_del, ssize_arg,
  getattro, richcompare,
}

abbrev pub mapping_effects : List SetterEffect
mapping_effects =
    new_effect "set_length" "mp_length" unary_call ("__len__" ∷ [])
    ∷ new_effect "set_getitem" "mp_subscript" binary_call ("__getitem__" ∷ [])
    ∷ new_effect "set_setitem" "mp_ass_subscript" set_only ("__setitem__" ∷ [])
    ∷ new_effect "set_delitem" "mp_ass_subscript" del_only ("__delitem__" ∷ [])
    ∷ new_effect "set_setdelitem" "mp_ass_subscript" set_and_del
        ("__setitem__" ∷ "__delitem__" ∷ [])
    ∷ []

abbrev pub sequence_effects : List SetterEffect
sequence_effects =
    new_effect "set_len" "sq_length" unary_call ("__len__" ∷ [])
    ∷ new_effect "set_concat" "sq_concat" binary_call ("__concat__" ∷ [])
    ∷ new_effect "set_repeat" "sq_repeat" ssize_arg ("__repeat__" ∷ [])
    ∷ new_effect "set_getitem" "sq_item" ssize_arg ("__getitem__" ∷ [])
    ∷ new_effect "set_setitem" "sq_ass_item" set_only ("__setitem__" ∷ [])
    ∷ new_effect "set_delitem" "sq_ass_item" del_only ("__delitem__" ∷ [])
    ∷ new_effect "set_setdelitem" "sq_ass_item" set_and_del ("__setitem__" ∷ "__delitem__" ∷ [])
    ∷ new_effect "set_contains" "sq_contains" binary_call ("__contains__" ∷ [])
    ∷ new_effect "set_inplace_concat" "sq_inplace_concat" binary_call ("__inplace_concat__" ∷ [])
    ∷ new_effect "set_inplace_repeat" "sq_inplace_repeat" ssize_arg ("__inplace_repeat__" ∷ [])
    ∷ []

abbrev pub object_effects : List SetterEffect
object_effects =
    new_effect "set_str" "tp_str" unary_call ("__str__" ∷ [])
    ∷ new_effect "set_repr" "tp_repr" unary_call ("__repr__" ∷ [])
    ∷ new_effect "set_hash" "tp_hash" unary_call ("__hash__" ∷ [])
    ∷ new_effect "set_getattr" "tp_getattro" getattro ("__getattr__" ∷ [])
    ∷ new_effect "set_richcompare" "tp_richcompare" richcompare ("__richcmp__" ∷ [])
    ∷ new_effect "set_setattr" "tp_setattro" set_only ("__setattr__" ∷ [])
    ∷ new_effect "set_delattr" "tp_setattro" del_only ("__delattr__" ∷ [])
    ∷ new_effect "set_setdelattr" "tp_setattro" set_and_del ("__setattr__" ∷ "__delattr__" ∷ [])
    ∷ new_effect "set_bool" "nb_bool" unary_call ("__bool__" ∷ [])
    ∷ []
