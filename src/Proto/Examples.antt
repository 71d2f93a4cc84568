-- ===== src/Proto/Examples.antt =====
-- Classes with a few protocol methods.
use pyo.Base.{◌≡◌, refl, true, some, String, List, [], ◌∷◌, ok}
use pyo.Proto.Defs.{get_proto, get_method}
use pyo.Proto.{impl_proto_impl, contains}
use pyo.Proto.Tables.Containers.{mapping}
use pyo.Proto.Tables.Number.{num}
use pyo.Proto.Select.{build_py_proto, impl_proto_impl_lem}
use pyo.Proto.Slots.Table.{binary_num, set_and_del}
use pyo.Proto.Slots.Number.{
  number_table, slot_of, operator_slot, forward_handler, method_of, add, number_table_lem,
}
use pyo.Proto.Slots.Assignment.{
  mapping_item, assignment_table, assignment_slot, assignment_handler, set_method, del_method,
  assignment_table_lem,
}

abbrev vector_methods : List String
vector_methods = "__rmod__" ∷ "__radd__" ∷ "__neg__" ∷ "__add__" ∷ []

abbrev dict_methods : List String
dict_methods = "__delitem__" ∷ "__getitem__" ∷ "__setitem__" ∷ []

vector_initializers : (impl_proto_impl num vector_methods).initializers ≡ "set_add" ∷ "set_neg" ∷ []
unfolding impl_proto_impl get_proto get_method
vector_initializers = refl

dict_impl :
    build_py_proto (some ("pyo3" ∷ "PyMappingProtocol" ∷ [])) dict_methods
    ≡ ok (impl_proto_impl mapping dict_methods)
unfolding build_py_proto
dict_impl = refl

impl_proto_impl_lem_example :
    contains (impl_proto_impl mapping dict_methods).initializers "set_setdelitem" ≡ true
unfolding get_proto
impl_proto_impl_lem_example = impl_proto_impl_lem mapping dict_methods "set_setdelitem" refl

number_table_lem_example :
    number_table vector_methods "nb_add"
    ≡ some (record { wrapper = binary_num; methods = "__add__" ∷ [] })
unfolding slot_of operator_slot forward_handler method_of
number_table_lem_example = number_table_lem vector_methods add

assignment_table_lem_example :
    assignment_table mapping_item dict_methods "mp_ass_subscript"
    ≡ some (record { wrapper = set_and_del; methods = "__setitem__" ∷ "__delitem__" ∷ [] })
unfolding assignment_slot assignment_handler set_method del_method
assignment_table_lem_example = assignment_table_lem mapping_item dict_methods
