-- ===== src/Callback.antt =====
-- src/callback.rs: a function that Python calls, and the conversion of what it returns. The machine
-- has 64 bits, so that Py_hash_t and Py_ssize_t have.
pub mod Hash
pub mod Signals
mod Examples
use pyo.Base.{
  ℕ, suc, ◌+◌, ◌-◌, ◌^◌, ◌≡◌, Bool, true, false, leb, ◌==◌, if◌then◌else◌, Option, none, some,
  String, Result, ok, err, then_ok, isize_max, usize_max,
}
use pyo.Gil.ThreadState.{State, GilPool}
use pyo.Gil.{new_pool, drop_pool}

-- An integer of a signed machine type: `pos n` is n and `negsuc n` is -1 - n.
pub data ℤ : Type 0 where
  pos negsuc : ℕ → ℤ

-- A pointer is its address, and null is 0.
pub data CValue : Type 0 where
  pointer : ℕ → CValue
  integer : ℤ → CValue
  nothing : CValue

-- What callbacks return: an object, `()` or `bool` as a C int, a length, a hash, or `()` as such.
pub data Kind : Type 0 where
  object unit_int bool_int length_ssize hash_value unit : Kind

abbrev pub ValueOf : Kind → Type 0
ValueOf object = ℕ
ValueOf unit_int = Unit
ValueOf bool_int = Bool
ValueOf length_ssize = ℕ
ValueOf hash_value = ℤ
ValueOf unit = Unit

-- `PyCallbackOutput::ERR_VALUE`.
unfoldable pub err_value : Kind → CValue
err_value object = pointer 0
err_value unit = nothing
err_value k = integer (negsuc 0)

-- An exception; `raised` is one that the function returned.
pub data PyErr (E : Type 0) : Type 0 where
  overflow_error : PyErr E
  panic_exception : String → PyErr E
  raised : E → PyErr E

-- `wrapping_cast` from `u64` or `usize`; the narrower unsigned types have the values below 2 ^ 32.
unfoldable pub wrapping_cast : ℕ → ℤ
wrapping_cast n = if leb n isize_max then pos n else negsuc (usize_max - n)

convert_hash : ℤ → ℤ
convert_hash (pos n) = pos n
convert_hash (negsuc n) = if n == 0 then negsuc 1 else negsuc n

module _ {E : Type 0} where
  unfoldable pub convert : (k : Kind) → ValueOf k → Result CValue (PyErr E)
  unfolding convert_hash
  convert object p = ok (pointer p)
  convert unit_int u = ok (integer (pos 0))
  convert bool_int b = ok (integer (pos (if b then 1 else 0)))
  convert length_ssize n = if leb n isize_max then ok (integer (pos n)) else err overflow_error
  convert hash_value z = ok (integer (convert_hash z))
  convert unit u = ok nothing

-- What a panic carries.
pub data Payload : Type 0 where
  text : String → Payload
  other_payload : Payload

-- How the body ends inside `catch_unwind`.
pub data Ended (A E : Type 0) : Type 0 where
  finished : Result A (PyErr E) → Ended A E
  unwound : Payload → Ended A E

caught : {E : Type 0} (k : Kind) → Ended (ValueOf k) E → Result CValue (PyErr E)
unfolding convert
caught k (finished r) = then_ok r λ v. convert k v
caught k (unwound (text message)) = err (panic_exception message)
caught k (unwound other_payload) = err (panic_exception "panic from Rust code")

-- A thread and its error indicator.
pub record Caller (T E : Type 0) : Type 0 where
  pub gil : State T
  pub indicator : Option (PyErr E)

module _ {T E : Type 0} where
  -- `restore` and the error value.
  restored : Kind → Result CValue (PyErr E) → Caller T E → CValue × Caller T E
  restored k (ok v) s = (v, s)
  restored k (err e) s = (err_value k, record s { indicator = some e })

  -- `callback_body!`: the body holds the lock and may change the indicator.
  unfoldable pub callback_body :
      (k : Kind)
      → (Caller T E → Ended (ValueOf k) E × Caller T E)
      → Caller T E
      → CValue × Caller T E
  unfolding caught restored new_pool drop_pool
  callback_body k body s =
      let (pool, t) = new_pool s.gil in
      let (ended, left) = body (record s { gil = t }) in
      let (v, c) = restored k (caught k ended) left in (v, record c { gil = drop_pool pool c.gil })
