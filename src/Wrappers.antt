-- ===== src/Wrappers.antt =====
-- src/class/macros.rs: the functions that Python calls for a slot. They borrow the receiver, extract
-- the arguments and run the method of the class, which can call Python and so any wrapper again.
pub mod Flags
pub mod Slots
pub mod Refusals
mod Examples
use pyo.Base.{
  ℕ, suc, ◌≡◌, Bool, true, false, ◌==◌, if◌then◌else◌, List, [], ◌∷◌, String, Result, ok, err,
  then_ok, update,
}
use pyo.Cell.{
  PyCell, PyBorrowError, PyBorrowMutError, try_borrow, try_borrow_mut, drop_ref, drop_ref_mut,
  write,
}
use pyo.Refcount.{Heap, incref}
use pyo.Callback.{ℤ, CValue, pointer, Ended, finished, unwound, raised}

-- The objects of a class, by their address, and the reference counts.
pub record Objects (A : Type 0) : Type 0 where
  pub cells : ℕ → PyCell A
  pub heap : Heap

pub data CallError (E : Type 0) : Type 0 where
  borrow_error : PyBorrowError → CallError E
  borrow_mut_error : PyBorrowMutError → CallError E
  not_implemented : String → CallError E
  raised_by : E → CallError E

module _ {A : Type 0} where
  abbrev pub set_cell : ℕ → PyCell A → Objects A → Objects A
  set_cell slf c s = record s { cells = update s.cells slf c }

abbrev pub fail : {R E : Type 0} → CallError E → Ended R (CallError E)
fail e = finished (err (raised e))

-- A step of the program on the objects.
abbrev pub Call : (A R E : Type 0) → Type 0
Call A R E = Objects A → Ended R (CallError E) × Objects A

-- `$arg.extract()?` for each argument.
unfoldable pub extract_all : {V E : Type 0} → (ℕ → Result V E) → List ℕ → Result (List V) E
extract_all extract [] = ok []
extract_all extract (arg ∷ args) =
    then_ok (extract arg) λ v. then_ok (extract_all extract args) λ vs. ok (v ∷ vs)

-- What a method with `&mut self` is: it also leaves a value.
abbrev pub CallMut : (A R E : Type 0) → Type 0
CallMut A R E = Objects A → (A × Ended R (CallError E)) × Objects A

module _ {A R E : Type 0} where
  -- The guard is dropped, however the method ended.
  pub finish_ref : ℕ → Ended R (CallError E) × Objects A → Ended R (CallError E) × Objects A
  unfolding drop_ref
  finish_ref slf (e, s) = (e, set_cell slf (drop_ref (s.cells slf)) s)

  pub finish_mut : ℕ → (A × Ended R (CallError E)) × Objects A → Ended R (CallError E) × Objects A
  unfolding write drop_ref_mut
  finish_mut slf ((v, e), s) = (e, set_cell slf (drop_ref_mut (write v (s.cells slf))) s)

module _ {A V R E : Type 0} where
  pub extracted : Result (List V) E → (List V → Call A R E) → Call A R E
  extracted (ok vs) f s = f vs s
  extracted (err e) f s = (fail (raised_by e), s)

  borrowed :
      ℕ
      → Result (List V) E
      → (A → List V → Call A R E)
      → Result (PyCell A) PyBorrowError
      → Call A R E
  unfolding extracted finish_ref
  borrowed slf args f (err e) s = (fail (borrow_error e), s)
  borrowed slf args f (ok c) s = finish_ref slf (extracted args (f c.value) (set_cell slf c s))

  -- `call_ref!`: `slf.try_borrow()?.$fn(args)`.
  pub call_ref : ℕ → Result (List V) E → (A → List V → Call A R E) → Call A R E
  unfolding borrowed try_borrow
  call_ref slf args f s = borrowed slf args f (try_borrow (s.cells slf)) s

  pub extracted_mut : Result (List V) E → A → (A → List V → CallMut A R E) → CallMut A R E
  extracted_mut (ok vs) a f s = f a vs s
  extracted_mut (err e) a f s = ((a, fail (raised_by e)), s)

  borrowed_mut :
      ℕ
      → Result (List V) E
      → (A → List V → CallMut A R E)
      → Result (PyCell A) PyBorrowMutError
      → Call A R E
  unfolding extracted_mut finish_mut
  borrowed_mut slf args f (err e) s = (fail (borrow_mut_error e), s)
  borrowed_mut slf args f (ok c) s =
      finish_mut slf (extracted_mut args c.value f (set_cell slf c s))

  -- `call_mut!`: `slf.try_borrow_mut()?.$fn(args)`.
  pub call_mut : ℕ → Result (List V) E → (A → List V → CallMut A R E) → Call A R E
  unfolding borrowed_mut try_borrow_mut
  call_mut slf args f s = borrowed_mut slf args f (try_borrow_mut (s.cells slf)) s

module _ {A V R E : Type 0} where
  pub delete_named : (A → V → CallMut A R E) → ℕ → Result V E → Call A R E
  unfolding call_mut
  delete_named f slf (ok v) s = call_mut {V = V} slf (ok []) (λ a vs. f a v) s
  delete_named f slf (err e) s = (fail (raised_by e), s)

-- `Py_INCREF(slf); Ok(slf)` after an operator that changes its receiver.
pub return_self :
    {A E : Type 0}
    → ℕ
    → Ended (Unit {0}) (CallError E) × Objects A
    → Ended CValue (CallError E) × Objects A
unfolding incref
return_self slf (finished (ok u), s) =
    (finished (ok (pointer slf)), record s { heap = incref slf s.heap })
return_self slf (finished (err e), s) = (finished (err e), s)
return_self slf (unwound payload, s) = (unwound payload, s)

-- The wrappers, each with the class's method. A null pointer is 0.
module _ {A V R E : Type 0} (extract : ℕ → Result V E) where
  unfoldable pub py_unary_func : (A → Call A R E) → ℕ → Call A R E
  unfolding call_ref
  py_unary_func f slf s = call_ref {V = V} slf (ok []) (λ a vs. f a) s

  -- The argument is an integer already.
  unfoldable pub py_ssizearg_func : (A → ℤ → Call A R E) → (slf : ℕ) → ℤ → Call A R E
  unfolding call_ref
  py_ssizearg_func f slf arg s = call_ref {V = V} slf (ok []) (λ a vs. f a arg) s

  unfoldable pub py_binary_func : (A → List V → Call A R E) → (slf arg : ℕ) → Call A R E
  unfolding call_ref
  py_binary_func f slf arg s = call_ref slf (extract_all extract (arg ∷ [])) f s

  unfoldable pub py_binary_num_func : (List V → Call A R E) → (lhs rhs : ℕ) → Call A R E
  unfolding extracted
  py_binary_num_func f lhs rhs s = extracted (extract_all extract (lhs ∷ rhs ∷ [])) f s

  -- The operands are swapped.
  unfoldable pub py_binary_reversed_num_func :
      (A → List V → Call A R E) → (lhs rhs : ℕ) → Call A R E
  unfolding call_ref
  py_binary_reversed_num_func f lhs rhs s = call_ref rhs (extract_all extract (lhs ∷ [])) f s

  unfoldable pub py_ternary_num_func : (List V → Call A R E) → (arg1 arg2 arg3 : ℕ) → Call A R E
  unfolding extracted
  py_ternary_num_func f arg1 arg2 arg3 s =
      extracted (extract_all extract (arg1 ∷ arg2 ∷ arg3 ∷ [])) f s

  unfoldable pub py_ternary_reversed_num_func :
      (A → List V → Call A R E) → (arg1 arg2 arg3 : ℕ) → Call A R E
  unfolding call_ref
  py_ternary_reversed_num_func f arg1 arg2 arg3 s =
      call_ref arg2 (extract_all extract (arg1 ∷ arg3 ∷ [])) f s

  -- The assignment half alone.
  unfoldable pub py_func_set : (A → List V → CallMut A R E) → (slf name value : ℕ) → Call A R E
  unfolding call_mut
  py_func_set f slf name value s =
      if value == 0
      then (fail (not_implemented "Subscript deletion not supported"), s)
      else call_mut slf (extract_all extract (name ∷ value ∷ [])) f s

  -- The deletion half alone: the name is extracted before the receiver is borrowed.
  unfoldable pub py_func_del : (A → V → CallMut A R E) → (slf name value : ℕ) → Call A R E
  unfolding delete_named
  py_func_del f slf name value s =
      if value == 0
      then delete_named f slf (extract name) s
      else (fail (not_implemented "Subscript assignment not supported"), s)

  unfoldable pub py_func_set_del :
      (A → List V → CallMut A R E)
      → (A → List V → CallMut A R E)
      → (slf name value : ℕ) → Call A R E
  unfolding call_mut
  py_func_set_del f g slf name value s =
      if value == 0
      then call_mut slf (extract_all extract (name ∷ [])) g s
      else call_mut slf (extract_all extract (name ∷ value ∷ [])) f s

-- The operators that change their receiver and return it.
module _ {A V E : Type 0} (extract : ℕ → Result V E) where
  unfoldable pub py_binary_self_func :
      (A → List V → CallMut A (Unit {0}) E) → (slf arg : ℕ) → Call A CValue E
  unfolding call_mut return_self
  py_binary_self_func f slf arg s =
      return_self slf (call_mut slf (extract_all extract (arg ∷ [])) f s)

  -- The third operand is ignored.
  unfoldable pub py_dummy_ternary_self_func :
      (A → List V → CallMut A (Unit {0}) E) → (slf arg1 arg2 : ℕ) → Call A CValue E
  unfolding call_mut return_self
  py_dummy_ternary_self_func f slf arg1 arg2 s =
      return_self slf (call_mut slf (extract_all extract (arg1 ∷ [])) f s)
