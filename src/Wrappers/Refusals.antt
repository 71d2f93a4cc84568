-- ===== src/Wrappers/Refusals.antt =====
-- The wrappers of src/class/macros.rs on an object that is mutably borrowed.
use pyo.Base.{
  ℕ, ◌≡◌, refl, ◌∙◌, arith, Bool-cases, inl, inr, ◌==◌, ap, none, some, List, [], Result, ok, err,
}
use pyo.Cell.{
  try_borrow, try_borrow_mut, already_mutably_borrowed, already_borrowed, has_mutable_borrow,
}
use pyo.Callback.{CValue}
use pyo.Wrappers.{
  Objects, CallError, borrow_error, borrow_mut_error, raised_by, fail, Call, CallMut, borrowed,
  borrowed_mut, call_ref, call_mut, delete_named, return_self, py_unary_func, py_ssizearg_func,
  py_binary_func, py_binary_reversed_num_func, py_ternary_reversed_num_func, py_func_set,
  py_func_del, py_func_set_del, py_binary_self_func, py_dummy_ternary_self_func,
}
use pyo.Wrappers.Slots.{
  SlotCall, unary, ssize_arg, binary, binary_num, binary_reversed, ternary_num, ternary_reversed,
  assigns, deletes, assigns_or_deletes, binary_self, ternary_self, receiver, call_slot,
}

moved :
    {A : Type 0} (o slf : ℕ) (s : Objects A)
    → some o ≡ some slf
    → (s.cells slf).borrow_flag ≡ has_mutable_borrow
    → (s.cells o).borrow_flag ≡ has_mutable_borrow
moved o slf s e k =
    ap (λ i. (s.cells i).borrow_flag) (ap (λ x. elim x [ some i ↦ i | none ↦ slf ]) e) ∙ k

module _ {A V R E : Type 0} (slf : ℕ) (s : Objects A)
    (busy : (s.cells slf).borrow_flag ≡ has_mutable_borrow) where
  call_ref-refused :
      (r : Result (List V) E) (f : A → List V → Call A R E)
      → call_ref slf r f s ≡ (fail (borrow_error already_mutably_borrowed), s)
  unfolding call_ref borrowed try_borrow
  call_ref-refused r f = rw busy refl

  call_mut-refused :
      (r : Result (List V) E) (f : A → List V → CallMut A R E)
      → call_mut slf r f s ≡ (fail (borrow_mut_error already_borrowed), s)
  unfolding call_mut borrowed_mut try_borrow_mut
  call_mut-refused r f = rw busy refl

module _ {A V E : Type 0} (extract : ℕ → Result V E) (slf : ℕ) (s : Objects A)
    (busy : (s.cells slf).borrow_flag ≡ has_mutable_borrow) where
  delete_named-refused :
      (f : A → V → CallMut A CValue E) (r : Result V E)
      → (e : CallError E) × (delete_named f slf r s ≡ (fail e, s))
  unfolding delete_named
  delete_named-refused f (ok v) = (_, call_mut-refused {V = V} slf s busy (ok []) (λ a vs. f a v))
  delete_named-refused f (err e) = (raised_by e, refl)

  self-refused :
      (r : Result (List V) E) (f : A → List V → CallMut A (Unit {0}) E)
      → return_self slf (call_mut slf r f s) ≡ (fail (borrow_mut_error already_borrowed), s)
  unfolding return_self
  self-refused r f = rw (call_mut-refused slf s busy r f) refl

module _ {A V E : Type 0} (extract : ℕ → Result V E) where
  -- While a method with `&mut self` runs, or any other mutable borrow of an object is alive, a call
  -- through a slot that would borrow the same object raises an exception and changes nothing.
  pub call_slot-refused :
      (c : SlotCall A V E) (slf : ℕ) (s : Objects A)
      → receiver c ≡ some slf
      → (s.cells slf).borrow_flag ≡ has_mutable_borrow
      → (e : CallError E) × (call_slot extract c s ≡ (fail e, s))
  unfolding call_slot py_unary_func py_ssizearg_func py_binary_func py_binary_reversed_num_func
      py_ternary_reversed_num_func py_func_set py_func_del py_func_set_del py_binary_self_func
      py_dummy_ternary_self_func
  call_slot-refused (unary f o) slf s e k =
      (_, call_ref-refused {V = V} o s (moved o slf s e k) (ok []) (λ a vs. f a))
  call_slot-refused (ssize_arg f o arg) slf s e k =
      (_, call_ref-refused {V = V} o s (moved o slf s e k) (ok []) (λ a vs. f a arg))
  call_slot-refused (binary f o arg) slf s e k = (_, call_ref-refused o s (moved o slf s e k) _ f)
  call_slot-refused (binary_num f lhs rhs) slf s e k = absurd (ground (arith, e))
  call_slot-refused (binary_reversed f lhs o) slf s e k =
      (_, call_ref-refused o s (moved o slf s e k) _ f)
  call_slot-refused (ternary_num f arg1 arg2 arg3) slf s e k = absurd (ground (arith, e))
  call_slot-refused (ternary_reversed f arg1 o arg3) slf s e k =
      (_, call_ref-refused o s (moved o slf s e k) _ f)
  call_slot-refused (assigns f o name value) slf s e k = elim (Bool-cases (value == 0)) [
    | inl null ↦ rw null (_, refl)
    | inr given ↦ rw given (_, call_mut-refused o s (moved o slf s e k) _ f)
  ]
  call_slot-refused (deletes f o name value) slf s e k = elim (Bool-cases (value == 0)) [
    | inl null ↦ rw null (delete_named-refused extract o s (moved o slf s e k) f (extract name))
    | inr given ↦ rw given (_, refl)
  ]
  call_slot-refused (assigns_or_deletes f g o name value) slf s e k =
      elim (Bool-cases (value == 0)) [
        | inl null ↦ rw null (_, call_mut-refused o s (moved o slf s e k) _ g)
        | inr given ↦ rw given (_, call_mut-refused o s (moved o slf s e k) _ f)
      ]
  call_slot-refused (binary_self f o arg) slf s e k =
      (_, self-refused extract o s (moved o slf s e k) _ f)
  call_slot-refused (ternary_self f o arg1 arg2) slf s e k =
      (_, self-refused extract o s (moved o slf s e k) _ f)
