-- ===== src/Errors.antt =====
-- src/err.rs: `PyErr`, an exception outside the interpreter, and its exchange with the interpreter's
-- error indicator. An object is its address, and null is 0. The interpreter is a parameter, as are
-- the conversions to objects that a lazy exception value holds.
pub mod Laws
pub mod Exchange
pub mod Instances
pub mod Clones
mod Examples
use pyo.Base.{
  ℕ, ◌≡◌, Bool, true, false, not, ◌==◌, if◌then◌else◌, Option, none, some, String, Outcome, ret,
  panic, Result, ok, err, List, [], ◌∷◌,
}

-- What an error indicator holds.
pub record Triple : Type 0 where
  pub ptype : ℕ
  pub pvalue : ℕ
  pub ptraceback : ℕ

-- The exceptions that the file names, and the one of src/panic.rs.
pub data Exception : Type 0 where
  panic_exception system_error type_error value_error unicode_decode_error : Exception
  os_error broken_pipe_error connection_refused_error connection_aborted_error : Exception
  connection_reset_error interrupted_error file_not_found_error blocking_io_error : Exception
  timeout_error : Exception

-- CPython's functions on a state W of the interpreter.
pub record Python (W : Type 0) : Type 0 where
  pub err_occurred : W → ℕ
  pub err_fetch : W → Triple × W
  pub err_restore : Triple → W → W
  pub err_normalize : Triple → W → Triple × W
  pub err_print : (set_sys_last_vars : Bool) → W → W
  pub incref : ℕ → W → W
  pub is_exception_class : ℕ → W → Bool
  pub is_exception_instance : ℕ → W → Bool
  pub exception_class : ℕ → W → ℕ
  pub type_object : Exception → ℕ
  pub none_object : ℕ
  pub string_object : String → W → ℕ × W
  pub string_text : ℕ → W → Option String

-- A conversion gives an object that the caller owns.
pub data PyErrValue (W : Type 0) : Type 0 where
  no_value : PyErrValue W
  value : ℕ → PyErrValue W
  to_args : (arguments : W → ℕ × W) → PyErrValue W
  to_object : (object : W → ℕ × W) → PyErrValue W

pub record PyErr (W : Type 0) : Type 0 where
  pub ptype : ℕ
  pub pvalue : PyErrValue W
  pub ptraceback : Option ℕ

-- `into_ptr` of `Option<PyObject>`, and `PyObject::from_owned_ptr_or_opt`.
abbrev pub pointer_of : Option ℕ → ℕ
pointer_of none = 0
pointer_of (some p) = p

abbrev pub owned_or_opt : ℕ → Option ℕ
owned_or_opt p = if p == 0 then none else some p

module _ {W : Type 0} where
  abbrev pub value_of_pointer : ℕ → PyErrValue W
  value_of_pointer p = if p == 0 then no_value else value p

  -- The `match` of `restore` and `into_normalized`.
  unfoldable pub value_pointer : PyErrValue W → W → ℕ × W
  value_pointer no_value w = (0, w)
  value_pointer (value ob) w = (ob, w)
  value_pointer (to_args arguments) w = arguments w
  value_pointer (to_object object) w = object w

  unfoldable pub from_type : ℕ → (W → ℕ × W) → W → PyErr W
  from_type exc args w = record { ptype = exc; pvalue = to_object args; ptraceback = none }

abbrev message_or : Option String → String
message_or none = "Unwrapped panic from Python code"
message_or (some text) = text

module _ {W : Type 0} (python : Python W) where
  -- `from_type` and the other constructors take a reference to the type.
  abbrev owned_type : ℕ → PyErrValue W → W → PyErr W × W
  owned_type ty v w = (record { ptype = ty; pvalue = v; ptraceback = none }, python.incref ty w)

  -- `from_value`, and `new` as its case of `ToObject`.
  unfoldable pub from_value : Exception → PyErrValue W → W → Outcome (PyErr W × W)
  from_value exc v w =
      if python.is_exception_class (python.type_object exc) w
      then ret (owned_type (python.type_object exc) v w)
      else panic "assertion failed"

  unfoldable pub new : Exception → (W → ℕ × W) → W → Outcome (PyErr W × W)
  unfolding from_value
  new exc object w = from_value exc (to_object object) w

  unfoldable pub from_instance : ℕ → W → PyErr W × W
  from_instance obj w =
      if python.is_exception_instance obj w
      then (
        record { ptype = python.exception_class obj w; pvalue = value obj; ptraceback = none },
        python.incref obj (python.incref (python.exception_class obj w) w),
      )
      else if python.is_exception_class obj w
      then owned_type obj no_value w
      else owned_type (python.type_object type_error)
          (to_object (python.string_object "exceptions must derive from BaseException")) w

  unfoldable pub occurred : W → Bool
  occurred w = not (python.err_occurred w == 0)

  unfoldable pub new_from_ffi_tuple : Triple → W → PyErr W × W
  new_from_ffi_tuple t w =
      let pvalue = value_of_pointer t.pvalue in
      let (ptype, w') =
        if t.ptype == 0
        then (python.type_object system_error, python.incref (python.type_object system_error) w)
        else (t.ptype, w) in
      (record { ptype = ptype; pvalue = pvalue; ptraceback = owned_or_opt t.ptraceback }, w')

  unfoldable pub restore : PyErr W → W → W
  unfolding value_pointer
  restore e w =
      let (pvalue, w') = value_pointer e.pvalue w in
      python.err_restore
        (record { ptype = e.ptype; pvalue = pvalue; ptraceback = pointer_of e.ptraceback }) w'

  unfoldable pub print : PyErr W → W → W
  unfolding restore
  print e w = python.err_print false (restore e w)

  unfoldable pub print_and_set_sys_last_vars : PyErr W → W → W
  unfolding restore
  print_and_set_sys_last_vars e w = python.err_print true (restore e w)

  -- The value is borrowed when its text is read.
  unfoldable pub panic_message : ℕ → W → String
  panic_message pvalue w =
      if pvalue == 0 then message_or none else message_or (python.string_text pvalue w)

  unfoldable pub fetch : W → Outcome (PyErr W) × W
  unfolding new_from_ffi_tuple panic_message print
  fetch w =
      let (t, w1) = python.err_fetch w in
      let (e, w2) = new_from_ffi_tuple t w1 in
      if t.ptype == python.type_object panic_exception
      then (panic (panic_message t.pvalue w2), print e w2)
      else (ret e, w2)

  -- `normalize` puts the result in the place of the error.
  unfoldable pub into_normalized : PyErr W → W → PyErr W × W
  unfolding value_pointer new_from_ffi_tuple
  into_normalized e w =
      let (pvalue, w1) = value_pointer e.pvalue w in
      let (t, w2) =
        python.err_normalize
          (record { ptype = e.ptype; pvalue = pvalue; ptraceback = pointer_of e.ptraceback }) w1 in
      new_from_ffi_tuple t w2

  -- The reference to the instance is a second one; the error keeps its own until it is dropped.
  unfoldable pub instance_of : PyErrValue W → W → ℕ × W
  instance_of (value obj) w = (obj, python.incref obj w)
  instance_of v w = (python.none_object, python.incref python.none_object w)

  unfoldable pub exception_instance : PyErr W → W → ℕ × W
  exception_instance e w = let (e', w') = into_normalized e w in instance_of e'.pvalue w'

  unfoldable pub clone_value : PyErrValue W → W → PyErrValue W × W
  clone_value no_value w = (no_value, w)
  clone_value (value ob) w = (value ob, python.incref ob w)
  clone_value (to_args arguments) w = (value (arguments w).0, (arguments w).1)
  clone_value (to_object object) w = (value (object w).0, (object w).1)

  unfoldable pub clone_traceback : Option ℕ → W → W
  clone_traceback none w = w
  clone_traceback (some t) w = python.incref t w

  unfoldable pub clone_ref : PyErr W → W → PyErr W × W
  unfolding clone_value clone_traceback
  clone_ref e w =
      let (v, w1) = clone_value e.pvalue w in
      let w2 = clone_traceback e.ptraceback w1 in
      (record { ptype = e.ptype; pvalue = v; ptraceback = e.ptraceback }, python.incref e.ptype w2)

  -- `FromPy<PyErr> for PyObject` is `exception_instance`; `ToPyObject for PyErr` leaves the error.
  unfoldable pub err_to_object : PyErr W → W → ℕ × W
  err_to_object e w = let (e', w') = clone_ref e w in exception_instance e' w'

  -- A C function's result, -1 or another.
  unfoldable pub error_on_minusone :
      (is_minusone : Bool) → W → Outcome (Result (Unit {0}) (PyErr W)) × W
  unfolding fetch
  error_on_minusone false w = (ret (ok tt), w)
  error_on_minusone true w = elim ((fetch w).0) [
    | ret e ↦ (ret (err e), (fetch w).1)
    | panic m ↦ (panic m, (fetch w).1)
  ]

-- `io::ErrorKind`.
pub data ErrorKind : Type 0 where
  broken_pipe connection_refused connection_aborted connection_reset : ErrorKind
  interrupted not_found would_block timed_out other_kind : ErrorKind

unfoldable pub os_exception : ErrorKind → Exception
os_exception broken_pipe = broken_pipe_error
os_exception connection_refused = connection_refused_error
os_exception connection_aborted = connection_aborted_error
os_exception connection_reset = connection_reset_error
os_exception interrupted = interrupted_error
os_exception not_found = file_not_found_error
os_exception would_block = blocking_io_error
os_exception timed_out = timeout_error
os_exception other_kind = os_error

-- The Rust errors of `impl_to_pyerr!`.
pub data RustError : Type 0 where
  try_from_slice_error parse_int_error parse_float_error try_from_int_error : RustError
  parse_bool_error into_string_error nul_error utf8_error from_utf8_error : RustError
  from_utf16_error decode_utf16_error addr_parse_error : RustError

unfoldable pub rust_exception : RustError → Exception
rust_exception into_string_error = unicode_decode_error
rust_exception utf8_error = unicode_decode_error
rust_exception from_utf8_error = unicode_decode_error
rust_exception from_utf16_error = unicode_decode_error
rust_exception decode_utf16_error = unicode_decode_error
rust_exception e = value_error

module _ {W : Type 0} (python : Python W) where
  -- `err.to_string()` is the message.
  unfoldable pub from_io_error : ErrorKind → String → W → Outcome (PyErr W × W)
  unfolding from_value os_exception
  from_io_error kind message w =
      from_value python (os_exception kind) (to_args (python.string_object message)) w

  unfoldable pub from_rust_error : RustError → String → W → Outcome (PyErr W × W)
  unfolding from_value rust_exception
  from_rust_error e message w =
      from_value python (rust_exception e) (to_args (python.string_object message)) w
