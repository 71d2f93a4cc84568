-- ===== src/Classes/TypeObject.antt =====
-- `initialize_type_object` and `py_class_flags` of src/pyclass.rs: the type object of a class. A C
-- function or a table is its address; tables that are changed on the way are records.
use pyo.Base.{
  is_some, ℕ, ◌+◌, ◌-◌, ◌/◌, ◌%◌, ◌^◌, Bool, true, false, ◌||◌, ◌==◌, if◌then◌else◌, Option, none,
  some, String, List, [], ◌∷◌, ◌++◌, map,
}
use pyo.Classes.{
  PyMethodDefType, FfiMethodDef, GetSetDef, MethodDefs, method_def_init, get_set_def_init,
}

-- `DESCRIPTION`: only a null byte, a text that ends with one, or a text that does not.
pub data Description : Type 0 where
  nul_only : Description
  terminated unterminated : (text : String) → Description

pub record GcMethods : Type 0 where
  pub tp_traverse : Option ℕ
  pub tp_clear : Option ℕ

pub record DescrMethods : Type 0 where
  pub tp_descr_get : Option ℕ
  pub tp_descr_set : Option ℕ

pub record IterMethods : Type 0 where
  pub tp_iter : Option ℕ
  pub tp_iternext : Option ℕ

-- What `PyObjectMethods` gives the type object itself.
pub record ObjectSlots : Type 0 where
  pub tp_str : Option ℕ
  pub tp_repr : Option ℕ
  pub tp_hash : Option ℕ
  pub tp_getattro : Option ℕ
  pub tp_richcompare : Option ℕ
  pub tp_setattro : Option ℕ

pub record ObjectMethods : Type 0 where
  pub slots : ObjectSlots
  pub nb_bool : Option ℕ

-- `PyNumberMethods`: the truth value, and the other slots by their place.
pub record NumberMethods : Type 0 where
  pub nb_bool : Option ℕ
  pub other_slots : ℕ → Option ℕ

abbrev pub from_nb_bool : ℕ → NumberMethods
from_nb_bool f = record { nb_bool = some f; other_slots = λ i. none }

-- A class and the tables of its protocols. `inner_size` is the size of its base and value.
pub record Class : Type 0 where
  pub name : String
  pub description : Description
  pub base : ℕ
  pub flags : ℕ
  pub inner_size : ℕ
  pub has_dict : Bool
  pub has_weakref : Bool
  pub dealloc : ℕ
  pub gc : Option GcMethods
  pub descr : Option DescrMethods
  pub iter : Option IterMethods
  pub basic : Option ObjectMethods
  pub number : Option NumberMethods
  pub mapping : Option ℕ
  pub sequence : Option ℕ
  pub async : Option ℕ
  pub buffer : Option ℕ
  pub py_methods : List PyMethodDefType

pub record PyTypeObject : Type 0 where
  pub tp_name : Option String
  pub tp_doc : Option String
  pub tp_base : ℕ
  pub tp_dealloc : Option ℕ
  pub tp_basicsize : ℕ
  pub tp_dictoffset : ℕ
  pub tp_weaklistoffset : ℕ
  pub gc : GcMethods
  pub descr : DescrMethods
  pub iter : IterMethods
  pub basic : ObjectSlots
  pub tp_as_number : Option NumberMethods
  pub tp_as_mapping : Option ℕ
  pub tp_as_sequence : Option ℕ
  pub tp_as_async : Option ℕ
  pub tp_as_buffer : Option ℕ
  pub tp_methods : List FfiMethodDef
  pub tp_new : Option ℕ
  pub tp_call : Option ℕ
  pub tp_getset : List GetSetDef
  pub tp_flags : ℕ

-- `PyClassDictSlot` and `PyClassWeakRefSlot` are a pointer each; `PyClassDummySlot` has no size.
abbrev pub pointer_size : ℕ
pointer_size = 8

abbrev pub slot_size : Bool → ℕ
slot_size true = pointer_size
slot_size false = 0

-- `size_of::<PyCell<T>>`, whose fields are `inner`, `dict` and `weakref` in this order.
unfoldable pub size_of_cell : Class → ℕ
size_of_cell c = c.inner_size + slot_size c.has_dict + slot_size c.has_weakref

unfoldable pub set_offsets : Class → PyTypeObject → PyTypeObject
set_offsets c t =
    let offset = t.tp_basicsize in
    let dict_offset = if c.has_dict then offset - pointer_size else offset in
    let weakref_offset = if c.has_weakref then dict_offset - pointer_size else dict_offset in
    record t {
      tp_dictoffset = if c.has_dict then dict_offset else t.tp_dictoffset;
      tp_weaklistoffset = if c.has_weakref then weakref_offset else t.tp_weaklistoffset;
    }

abbrev update_or {ℓ} : {A : Type ℓ} → Option A → A → A
update_or none old = old
update_or (some new) old = new

abbrev basic_slots : Option ObjectMethods → Option ObjectSlots
basic_slots none = none
basic_slots (some basic) = some basic.slots

abbrev basic_nb_bool : Option ObjectMethods → Option ℕ
basic_nb_bool none = none
basic_nb_bool (some basic) = basic.nb_bool

unfoldable pub number_methods : Option NumberMethods → Option ℕ → Option NumberMethods
number_methods (some p) nb_bool = some (record p { nb_bool = nb_bool })
number_methods none none = none
number_methods none (some f) = some (from_nb_bool f)

-- The `update_typeobj` of each protocol, and the tables.
unfoldable pub set_protocols : Class → PyTypeObject → PyTypeObject
unfolding number_methods
set_protocols c t = record t {
  gc = update_or c.gc t.gc;
  descr = update_or c.descr t.descr;
  iter = update_or c.iter t.iter;
  basic = update_or (basic_slots c.basic) t.basic;
  tp_as_number = number_methods c.number (basic_nb_bool c.basic);
  tp_as_mapping = c.mapping;
  tp_as_sequence = c.sequence;
  tp_as_async = c.async;
  tp_as_buffer = c.buffer;
}

-- A table, when it is not empty, ends with an entry of nulls; an empty one is not stored.
unfoldable pub closed_or {ℓ} : {A : Type ℓ} → List A → List A → A → List A
closed_or old [] last = old
closed_or old (x ∷ xs) last = (x ∷ xs) ++ last ∷ []

-- `ffi::PyGetSetDef_DICT`; its functions are CPython's.
abbrev pub get_set_def_dict : ℕ → ℕ → GetSetDef
get_set_def_dict get set = record {
  name = some "__dict__";
  get = some get;
  set = some set;
  doc = none;
}

-- CPython's accessors of `__dict__`, and whether `PyType_Ready` succeeds.
pub record Runtime : Type 0 where
  pub generic_get_dict : ℕ
  pub generic_set_dict : ℕ
  pub type_ready : PyTypeObject → Bool

abbrev pub dict_property : Runtime → Bool → List GetSetDef
dict_property r true = get_set_def_dict r.generic_get_dict r.generic_set_dict ∷ []
dict_property r false = []

unfoldable pub with_tables :
    Runtime → Class → MethodDefs → List (String × GetSetDef) → PyTypeObject → PyTypeObject
unfolding closed_or
with_tables r c m props t = record t {
  tp_methods = closed_or t.tp_methods m.defs method_def_init;
  tp_new = m.new;
  tp_call = m.call;
  tp_getset =
      closed_or t.tp_getset (map (λ p. p.1) props ++ dict_property r c.has_dict) get_set_def_init;
}

-- Whether a bit is set.
abbrev pub has_bit : ℕ → ℕ → Bool
has_bit flags k = (flags / 2 ^ k) % 2 == 1

-- `Py_TPFLAGS_DEFAULT`, `Py_TPFLAGS_HAVE_GC` and `Py_TPFLAGS_BASETYPE`: distinct bits, so that `|`
-- is a sum.
abbrev pub tpflags_default : ℕ
tpflags_default = 2 ^ 18

abbrev pub tpflags_have_gc : ℕ
tpflags_have_gc = 2 ^ 14

abbrev pub tpflags_basetype : ℕ
tpflags_basetype = 2 ^ 10

unfoldable pub py_class_flags : ℕ → PyTypeObject → PyTypeObject
py_class_flags flags t =
    let is_gc = is_some t.gc.tp_traverse || is_some t.gc.tp_clear || has_bit flags 0 in
    let flags_set = if is_gc then tpflags_default + tpflags_have_gc else tpflags_default in
    record t { tp_flags = if has_bit flags 2 then flags_set + tpflags_basetype else flags_set }
