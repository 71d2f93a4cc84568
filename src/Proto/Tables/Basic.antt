-- ===== src/Proto/Tables/Basic.antt =====
-- `OBJECT`, `ASYNC`, `BUFFER`, `CONTEXT`, `GC`, `DESCR` and `ITER` of pyo3-derive-backend/src/defs.rs.
use pyo.Base.{List, [], ◌∷◌}
use pyo.Proto.Defs.{
  MethodProto, free, unary, unary_s, binary, ternary, ternary_s, quaternary, PyMethod, SlotSetter,
  Proto, new_method, new_setter,
}

abbrev pub object_methods : List MethodProto
object_methods =
    binary "__getattr__" "Name" "pyo3::class::basic::PyObjectGetAttrProtocol"
    ∷ ternary "__setattr__" "Name" "Value" "pyo3::class::basic::PyObjectSetAttrProtocol"
    ∷ binary "__delattr__" "Name" "pyo3::class::basic::PyObjectDelAttrProtocol"
    ∷ unary "__str__" "pyo3::class::basic::PyObjectStrProtocol"
    ∷ unary "__repr__" "pyo3::class::basic::PyObjectReprProtocol"
    ∷ binary "__format__" "Format" "pyo3::class::basic::PyObjectFormatProtocol"
    ∷ unary "__hash__" "pyo3::class::basic::PyObjectHashProtocol"
    ∷ unary "__bytes__" "pyo3::class::basic::PyObjectBytesProtocol"
    ∷ binary "__richcmp__" "Other" "pyo3::class::basic::PyObjectRichcmpProtocol"
    ∷ unary "__bool__" "pyo3::class::basic::PyObjectBoolProtocol"
    ∷ []

abbrev pub object_py_methods : List PyMethod
object_py_methods =
    new_method "__format__" "pyo3::class::basic::FormatProtocolImpl"
    ∷ new_method "__bytes__" "pyo3::class::basic::BytesProtocolImpl"
    ∷ new_method "__unicode__" "pyo3::class::basic::UnicodeProtocolImpl"
    ∷ []

abbrev pub object_setters : List SlotSetter
object_setters =
    new_setter ("__str__" ∷ []) "set_str"
    ∷ new_setter ("__repr__" ∷ []) "set_repr"
    ∷ new_setter ("__hash__" ∷ []) "set_hash"
    ∷ new_setter ("__getattr__" ∷ []) "set_getattr"
    ∷ new_setter ("__richcmp__" ∷ []) "set_richcompare"
    ∷ record {
      proto_names = "__setattr__" ∷ "__delattr__" ∷ [];
      set_function = "set_setdelattr";
      skipped_setters = "set_setattr" ∷ "set_delattr" ∷ [];
    }
    ∷ new_setter ("__setattr__" ∷ []) "set_setattr"
    ∷ new_setter ("__delattr__" ∷ []) "set_delattr"
    ∷ new_setter ("__bool__" ∷ []) "set_bool"
    ∷ []

abbrev pub object : Proto
object = record {
  name = "Object";
  slot_table = "pyo3::class::basic::PyObjectMethods";
  set_slot_table = "set_basic_methods";
  methods = object_methods;
  py_methods = object_py_methods;
  slot_setters = object_setters;
}

abbrev pub async_methods : List MethodProto
async_methods =
    unary_s "__await__" "Receiver" "pyo3::class::pyasync::PyAsyncAwaitProtocol"
    ∷ unary_s "__aiter__" "Receiver" "pyo3::class::pyasync::PyAsyncAiterProtocol"
    ∷ unary_s "__anext__" "Receiver" "pyo3::class::pyasync::PyAsyncAnextProtocol"
    ∷ unary "__aenter__" "pyo3::class::pyasync::PyAsyncAenterProtocol"
    ∷ quaternary "__aexit__" "ExcType" "ExcValue" "Traceback"
        "pyo3::class::pyasync::PyAsyncAexitProtocol"
    ∷ []

abbrev pub async_py_methods : List PyMethod
async_py_methods =
    new_method "__aenter__" "pyo3::class::pyasync::PyAsyncAenterProtocolImpl"
    ∷ new_method "__aexit__" "pyo3::class::pyasync::PyAsyncAexitProtocolImpl"
    ∷ []

abbrev pub async_setters : List SlotSetter
async_setters =
    new_setter ("__await__" ∷ []) "set_await"
    ∷ new_setter ("__aiter__" ∷ []) "set_aiter"
    ∷ new_setter ("__anext__" ∷ []) "set_anext"
    ∷ []

abbrev pub async : Proto
async = record {
  name = "Async";
  slot_table = "pyo3::ffi::PyAsyncMethods";
  set_slot_table = "set_async_methods";
  methods = async_methods;
  py_methods = async_py_methods;
  slot_setters = async_setters;
}

abbrev pub buffer_methods : List MethodProto
buffer_methods =
    unary "bf_getbuffer" "pyo3::class::buffer::PyBufferGetBufferProtocol"
    ∷ unary "bf_releasebuffer" "pyo3::class::buffer::PyBufferReleaseBufferProtocol"
    ∷ []

abbrev pub buffer_py_methods : List PyMethod
buffer_py_methods = []

abbrev pub buffer_setters : List SlotSetter
buffer_setters =
    new_setter ("bf_getbuffer" ∷ []) "set_getbuffer"
    ∷ new_setter ("bf_releasebuffer" ∷ []) "set_releasebuffer"
    ∷ []

abbrev pub buffer : Proto
buffer = record {
  name = "Buffer";
  slot_table = "pyo3::ffi::PyBufferProcs";
  set_slot_table = "set_buffer_methods";
  methods = buffer_methods;
  py_methods = buffer_py_methods;
  slot_setters = buffer_setters;
}

abbrev pub context_methods : List MethodProto
context_methods =
    unary "__enter__" "pyo3::class::context::PyContextEnterProtocol"
    ∷ quaternary "__exit__" "ExcType" "ExcValue" "Traceback"
        "pyo3::class::context::PyContextExitProtocol"
    ∷ []

abbrev pub context_py_methods : List PyMethod
context_py_methods =
    new_method "__enter__" "pyo3::class::context::PyContextEnterProtocolImpl"
    ∷ new_method "__exit__" "pyo3::class::context::PyContextExitProtocolImpl"
    ∷ []

abbrev pub context_setters : List SlotSetter
context_setters = []

abbrev pub context : Proto
context = record {
  name = "Context";
  slot_table = "";
  set_slot_table = "";
  methods = context_methods;
  py_methods = context_py_methods;
  slot_setters = context_setters;
}

abbrev pub gc_methods : List MethodProto
gc_methods =
    free "__traverse__" "pyo3::class::gc::PyGCTraverseProtocol"
    ∷ free "__clear__" "pyo3::class::gc::PyGCClearProtocol"
    ∷ []

abbrev pub gc_py_methods : List PyMethod
gc_py_methods = []

abbrev pub gc_setters : List SlotSetter
gc_setters =
    new_setter ("__traverse__" ∷ []) "set_traverse" ∷ new_setter ("__clear__" ∷ []) "set_clear" ∷ []

abbrev pub gc : Proto
gc = record {
  name = "GC";
  slot_table = "pyo3::class::gc::PyGCMethods";
  set_slot_table = "set_gc_methods";
  methods = gc_methods;
  py_methods = gc_py_methods;
  slot_setters = gc_setters;
}

abbrev pub descr_methods : List MethodProto
descr_methods =
    ternary_s "__get__" "Receiver" "Inst" "Owner" "pyo3::class::descr::PyDescrGetProtocol"
    ∷ ternary_s "__set__" "Receiver" "Inst" "Value" "pyo3::class::descr::PyDescrSetProtocol"
    ∷ binary "__det__" "Inst" "pyo3::class::descr::PyDescrDelProtocol"
    ∷ binary "__set_name__" "Inst" "pyo3::class::descr::PyDescrSetNameProtocol"
    ∷ []

abbrev pub descr_py_methods : List PyMethod
descr_py_methods =
    new_method "__del__" "pyo3::class::context::PyDescrDelProtocolImpl"
    ∷ new_method "__set_name__" "pyo3::class::context::PyDescrNameProtocolImpl"
    ∷ []

abbrev pub descr_setters : List SlotSetter
descr_setters =
    new_setter ("__get__" ∷ []) "set_descr_get" ∷ new_setter ("__set__" ∷ []) "set_descr_set" ∷ []

abbrev pub descr : Proto
descr = record {
  name = "Descriptor";
  slot_table = "pyo3::class::descr::PyDescrMethods";
  set_slot_table = "set_descr_methods";
  methods = descr_methods;
  py_methods = descr_py_methods;
  slot_setters = descr_setters;
}

abbrev pub iter_methods : List MethodProto
iter_methods =
    unary_s "__iter__" "Receiver" "pyo3::class::iter::PyIterIterProtocol"
    ∷ unary_s "__next__" "Receiver" "pyo3::class::iter::PyIterNextProtocol"
    ∷ []

abbrev pub iter_py_methods : List PyMethod
iter_py_methods = []

abbrev pub iter_setters : List SlotSetter
iter_setters =
    new_setter ("__iter__" ∷ []) "set_iter" ∷ new_setter ("__next__" ∷ []) "set_iternext" ∷ []

abbrev pub iter : Proto
iter = record {
  name = "Iter";
  slot_table = "pyo3::class::iter::PyIterMethods";
  set_slot_table = "set_iter_methods";
  methods = iter_methods;
  py_methods = iter_py_methods;
  slot_setters = iter_setters;
}
