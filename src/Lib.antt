-- ===== src/Lib.antt =====
-- PyO3: the parts of the library and of its macros that keep state or decide something.
--
-- The program. PyO3 lets Rust code use Python's objects and define classes for Python. A thread that
-- uses Python holds the interpreter's lock through a `GILGuard`; a `GILPool` owns the references that
-- Rust code borrows from Python, and references cloned or dropped without the lock wait in a pool
-- shared by all threads (src/gil.rs, with `Python::allow_threads` of src/python.rs). An object of a
-- Rust class is a `PyCell` that counts its borrows at run time (src/pycell.rs); a class can keep dead
-- objects in a `FreeList` (src/freelist.rs). The wrapper that the macros generate around a function
-- sorts a call's arguments with `parse_fn_args` (src/derive_utils.rs). The macro `#[pyproto]`
-- (pyo3-derive-backend/src/pyproto.rs) reads tables of Python's protocols
-- (pyo3-derive-backend/src/defs.rs) and generates calls of the setters in src/class/, which put
-- wrapped methods into the slots of a type. The type object of a class is created when it is first
-- requested, by threads that can overtake one another (src/type_object.rs, src/once_cell.rs);
-- src/pyclass.rs fills it, with the methods and properties that pyo3-derive-backend/src/method.rs and
-- pymethod.rs there read from `#[pymethods]`, and src/pyclass_init.rs and src/freelist.rs make its
-- objects. Handles own references to objects (src/instance.rs, src/object.rs),
-- and src/types/num.rs and src/types/sequence.rs convert integers and sequences.
-- An exception that Python raised is a `PyErr` (src/err.rs), and src/callback.rs turns one into the
-- error value of a C function; src/buffer.rs takes and gives back the memory of an object.
--
-- The files.
-- - Base and its modules: names passed on from the library, Boolean tests, lists measured by native
--   numbers, 64-bit words, and `Outcome` (a Rust call returns or panics) and `Result`.
-- - FreeList: `FreeList` with `with_capacity`, `pop` and `insert`. FreeList/Stack says which stack a
--   list represents, FreeList/Runs runs any sequence of calls against that stack.
-- - Cell: the value and borrow flag of a `PyCell`; each method of it is a function from a cell to an
--   `Outcome`, a `Result` or the next cell, and a guard's `Drop` is `drop_ref` or `drop_ref_mut`.
--   Cell/Guards counts the guards alive beside the cell and has a step for each call and drop;
--   Cell/Swap has several cells in a store, since `swap` may name one cell twice.
-- - Refcount: a heap with a count for each object, and `Py_INCREF` and `Py_DECREF` of
--   src/ffi/object.rs.
-- - Gil: the state that a thread sees (GIL_COUNT, OWNED_OBJECTS, OWNED_ANYS, the pool of references,
--   START, the heap) and the functions of src/gil.rs from state to state. Gil/ThreadState has the
--   record and the interpreter's calls that it rests on, as a parameter with laws. Gil/Updates is about
--   `update_counts`; Gil/Scopes has the code that can stand between an acquisition and its release
--   as a data type, run by `exec`, and its modules what such code changes.
-- - FnArgs: `parse_fn_args`, as a fold over the parameters and the checks after it. FnArgs/Dict has
--   Python's dictionary operations as a parameter with laws, FnArgs/Reference what each parameter gets
--   on its own, FnArgs/Calls the outcome of a whole call, FnArgs/SeveralValues a keyword argument
--   that meets more positional ones than there are parameters before its own.
-- - Proto: `impl_proto_impl` and `slot_initialization`. Proto/Defs has the types of the tables and
--   Proto/Tables the tables; Proto/Select has `build_py_proto` and says which setters are called.
--   Proto/Slots/Table runs setters over a table of slots; NumberEffects and OtherEffects there list
--   which slot each setter fills, Local restricts a run to one slot, Number and Assignment say what the
--   slots hold.
-- - FnAttr: `PyFunctionAttr::from_meta` of pyo3-derive-backend/src/pyfunction.rs, which reads the
--   arguments of `#[pyfunction(…)]` and `#[args(…)]` one after the other and keeps three flags.
--   FnAttr/Signature says what a signature is and how it is written; Accepts is about reading one,
--   Extensions and Refusals about the next item, and Exact about whole lists of items.
-- - OnceCell: `GILOnceCell` of src/once_cell.rs; OnceCell/Races has a step for each thing that a thread
--   can do with one cell.
-- - LazyType: `LazyStaticType::get_or_init` of src/type_object.rs, cut into the parts between the two
--   places where the call can lose the lock (`enter`, `created`, `computed`). LazyType/Steps has the
--   requests of any threads as steps, Frames counts the calls under way, Sound is the invariant,
--   Requests what a thread gets and Filled what comes into the dictionary.
-- - Callback: the conversions of src/callback.rs and `callback_body!`, over the state of Gil and an
--   error indicator, both of which the body may change. Callback/Hash is about hashes, Callback/Signals about how a call ends.
-- - Wrappers: `call_ref!`, `call_mut!` and the wrappers of src/class/macros.rs, from a store of cells
--   to the next; the method of the class is a function on that store, so that it can call a wrapper
--   again. Wrappers/Flags is about the borrow flags, Wrappers/Slots has all wrappers as one data type,
--   and Wrappers/Refusals is about objects that are mutably borrowed.
-- - Errors: `PyErr` of src/err.rs over Python's error indicator. Errors/Exchange is about `fetch` and
--   `restore`, Errors/Instances about normalised exceptions, Errors/Clones about the references that a
--   clone holds, Errors/Laws about the parts of these.
-- - Classes: the definitions of src/class/methods.rs and the type object that `initialize_type_object`
--   of src/pyclass.rs fills. Classes/Properties (with Classes/Entries) and Classes/Methods are about
--   the two tables, Classes/Build has the steps in their order and Classes/Tables what they leave in
--   the type object, Classes/Names the texts; Classes/Layout has the two offsets beside the fields of
--   a `PyCell`.
-- - Alloc: `PyClassAlloc` of src/freelist.rs and `default_new` of src/pyclass.rs, over a memory of
--   numbered blocks. Alloc/Blocks says what a well-formed memory is, Alloc/Lives that each call keeps
--   it, Alloc/Histories has any sequence of calls; Alloc/Chains is `PyClassInitializer` of
--   src/pyclass_init.rs along a chain of base classes.
-- - Buffers: src/buffer.rs. Buffers/Formats is about format characters, Buffers/Exports about getting
--   and releasing a buffer, Buffers/Pointers about the address of an element.
-- - MethodSpec: the queries of `FnSpec` in pyo3-derive-backend/src/method.rs, and the code that
--   `impl_arg_params` of pyo3-derive-backend/src/pymethod.rs generates, as data (`Binding`) that
--   `run_binding` runs. MethodSpec/Arguments runs it after `parse_fn_args`, whose values
--   MethodSpec/Filled is about. MethodSpec/Attributes and its modules read a method's attributes,
--   MethodSpec/Types its types, MethodSpec/Doc its text signature and doc
--   (pyo3-derive-backend/src/utils.rs); MethodSpec/Parse is `FnSpec::parse`, in the stages that
--   MethodSpec/Parse/Stages takes apart, with what it makes of the receiver
--   (MethodSpec/Parse/Receivers) and of the signature and doc (MethodSpec/Parse/Signature, with
--   MethodSpec/Doc/Kept).
-- - Handles: `Py<T>` and `PyObject` of src/instance.rs and src/object.rs, and the calls of Python in
--   src/object.rs, src/types/any.rs and src/conversion.rs, over the interface `Counting` of what
--   moves reference counts. Handles/Leaves has rules for the references that a function leaves,
--   Handles/Calls says which a call leaves, Handles/Compare is `PyAny::compare`, Handles/Histories is
--   about any sequence of operations on handles, and Handles/Pool fills the interface with Gil.
-- - Numbers: the conversions of integers in src/types/num.rs, by type (`RustInt`) and the macro that
--   its conversions come from (`Conversion`). Numbers/Bytes is about the bytes of 128-bit integers,
--   Numbers/Laws has what CPython documents, Numbers/Extract is about what an object is read as,
--   Numbers/RoundTrip about an integer there and back, and Numbers/References about reference counts.
-- - Sequences: `PyIterator`, the two loops of src/types/sequence.rs that read a sequence into a vector
--   or an array, and `PyList::get_item`. Sequences/Extract is about the loops, Sequences/Items about
--   `get_item`.
-- - A module named Examples beside each part (for methods also MethodSpec/ParseExamples) has runs on
--   small inputs.
--
-- Bounds. Numbers are natural numbers; `usize` is taken to have 64 bits, and where the source adds or
-- subtracts on a machine word the model wraps or panics as the source does (the borrow flag, the
-- reference counts, the free list's index; the lock's count has 32 bits). All functions are total by
-- structural recursion, on the list, the table or the code that they run, but for the loop over a
-- Python iterator, which runs on fuel: one round more than the iterator has items is enough.
--
-- Parameters. The interpreter's lock and thread states, its error indicator and exceptions, the
-- dictionaries and tuples of a call, the dictionary of a type, the allocators and the buffers of an
-- object are C code, and what syn makes of a quoted text is another crate's: they are records of
-- operations, with laws where a statement needs them, and the examples have instances of them.
--
-- Not modelled: memory layout beside the two offsets of a class, the types in the tokens that the
-- macros generate, the C bindings, the other files of src/types/, which wrap single C calls, and the attributes
-- of `#[pyclass]` and `#[pymodule]`. Destructors that run while a pool is dropped or counts are
-- updated, and call back into the library, are not modelled either. In src/gil.rs one thread's view
-- is modelled; another thread appears where a statement has one.
pub mod Base
pub mod FreeList
pub mod Cell
pub mod Refcount
pub mod Gil
pub mod FnArgs
pub mod Proto
pub mod OnceCell
pub mod LazyType
pub mod FnAttr
pub mod Callback
pub mod Wrappers
pub mod Errors
pub mod Classes
pub mod Alloc
pub mod Buffers
pub mod MethodSpec
pub mod Handles
pub mod Numbers
pub mod Sequences
