-- ===== src/Wrappers/Slots.antt =====
-- The functions of src/class/macros.rs as one data type, each with the method of the class.
use pyo.Base.{
  ℕ, refl, Bool-cases, inl, inr, ◌==◌, Option, none, some, List, [], ◌∷◌, Result, ok, err,
}
use pyo.Callback.{ℤ, CValue}
use pyo.Wrappers.{
  Call, CallMut, extract_all, call_mut, delete_named, py_unary_func, py_ssizearg_func,
  py_binary_func, py_binary_num_func, py_binary_reversed_num_func, py_ternary_num_func,
  py_ternary_reversed_num_func, py_func_set, py_func_del, py_func_set_del, py_binary_self_func,
  py_dummy_ternary_self_func,
}
use pyo.Wrappers.Flags.{
  IsBalanced, extracted-IsBalanced, call_ref-IsBalanced, call_mut-IsBalanced,
  return_self-IsBalanced,
}

pub data SlotCall (A V E : Type 0) : Type 0 where
  unary : (A → Call A CValue E) → (slf : ℕ) → SlotCall A V E
  ssize_arg : (A → ℤ → Call A CValue E) → (slf : ℕ) → ℤ → SlotCall A V E
  binary : (A → List V → Call A CValue E) → (slf arg : ℕ) → SlotCall A V E
  binary_num : (List V → Call A CValue E) → (lhs rhs : ℕ) → SlotCall A V E
  binary_reversed : (A → List V → Call A CValue E) → (lhs rhs : ℕ) → SlotCall A V E
  ternary_num : (List V → Call A CValue E) → (arg1 arg2 arg3 : ℕ) → SlotCall A V E
  ternary_reversed : (A → List V → Call A CValue E) → (arg1 arg2 arg3 : ℕ) → SlotCall A V E
  assigns : (A → List V → CallMut A CValue E) → (slf name value : ℕ) → SlotCall A V E
  deletes : (A → V → CallMut A CValue E) → (slf name value : ℕ) → SlotCall A V E
  assigns_or_deletes :
      (f g : A → List V → CallMut A CValue E) → (slf name value : ℕ) → SlotCall A V E
  binary_self : (A → List V → CallMut A (Unit {0}) E) → (slf arg : ℕ) → SlotCall A V E
  ternary_self : (A → List V → CallMut A (Unit {0}) E) → (slf arg1 arg2 : ℕ) → SlotCall A V E

module _ {A V E : Type 0} where
  -- The methods of the class drop the guards that they create.
  abbrev pub HasBalanced : SlotCall A V E → Type 0
  HasBalanced (unary f slf) = (a : A) → IsBalanced (f a)
  HasBalanced (ssize_arg f slf arg) = (a : A) (n : ℤ) → IsBalanced (f a n)
  HasBalanced (binary f slf arg) = (a : A) (vs : List V) → IsBalanced (f a vs)
  HasBalanced (binary_num f lhs rhs) = (vs : List V) → IsBalanced (f vs)
  HasBalanced (binary_reversed f lhs rhs) = (a : A) (vs : List V) → IsBalanced (f a vs)
  HasBalanced (ternary_num f arg1 arg2 arg3) = (vs : List V) → IsBalanced (f vs)
  HasBalanced (ternary_reversed f arg1 arg2 arg3) = (a : A) (vs : List V) → IsBalanced (f a vs)
  HasBalanced (assigns f slf name value) = (a : A) (vs : List V) → IsBalanced (f a vs)
  HasBalanced (deletes f slf name value) = (a : A) (v : V) → IsBalanced (f a v)
  HasBalanced (assigns_or_deletes f g slf name value) =
      ((a : A) (vs : List V) → IsBalanced (f a vs)) × ((a : A) (vs : List V) → IsBalanced (g a vs))
  HasBalanced (binary_self f slf arg) = (a : A) (vs : List V) → IsBalanced (f a vs)
  HasBalanced (ternary_self f slf arg1 arg2) = (a : A) (vs : List V) → IsBalanced (f a vs)

  -- The object whose method is called, if the wrapper borrows one.
  abbrev pub receiver : SlotCall A V E → Option ℕ
  receiver (unary f slf) = some slf
  receiver (ssize_arg f slf arg) = some slf
  receiver (binary f slf arg) = some slf
  receiver (binary_num f lhs rhs) = none
  receiver (binary_reversed f lhs rhs) = some rhs
  receiver (ternary_num f arg1 arg2 arg3) = none
  receiver (ternary_reversed f arg1 arg2 arg3) = some arg2
  receiver (assigns f slf name value) = some slf
  receiver (deletes f slf name value) = some slf
  receiver (assigns_or_deletes f g slf name value) = some slf
  receiver (binary_self f slf arg) = some slf
  receiver (ternary_self f slf arg1 arg2) = some slf

module _ {A V E : Type 0} (extract : ℕ → Result V E) where
  unfoldable pub call_slot : SlotCall A V E → Call A CValue E
  unfolding py_unary_func py_ssizearg_func py_binary_func py_binary_num_func
      py_binary_reversed_num_func py_ternary_num_func py_ternary_reversed_num_func py_func_set
      py_func_del py_func_set_del py_binary_self_func py_dummy_ternary_self_func
  call_slot (unary f slf) s = py_unary_func extract f slf s
  call_slot (ssize_arg f slf arg) s = py_ssizearg_func extract f slf arg s
  call_slot (binary f slf arg) s = py_binary_func extract f slf arg s
  call_slot (binary_num f lhs rhs) s = py_binary_num_func extract f lhs rhs s
  call_slot (binary_reversed f lhs rhs) s = py_binary_reversed_num_func extract f lhs rhs s
  call_slot (ternary_num f arg1 arg2 arg3) s = py_ternary_num_func extract f arg1 arg2 arg3 s
  call_slot (ternary_reversed f arg1 arg2 arg3) s =
      py_ternary_reversed_num_func extract f arg1 arg2 arg3 s
  call_slot (assigns f slf name value) s = py_func_set extract f slf name value s
  call_slot (deletes f slf name value) s = py_func_del extract f slf name value s
  call_slot (assigns_or_deletes f g slf name value) s = py_func_set_del extract f g slf name value s
  call_slot (binary_self f slf arg) s = py_binary_self_func extract f slf arg s
  call_slot (ternary_self f slf arg1 arg2) s = py_dummy_ternary_self_func extract f slf arg1 arg2 s

  delete_named-IsBalanced :
      (f : A → V → CallMut A CValue E) (slf : ℕ) (r : Result V E)
      → ((a : A) (v : V) → IsBalanced (f a v))
      → IsBalanced (delete_named f slf r)
  unfolding delete_named
  delete_named-IsBalanced f slf (ok v) h =
      call_mut-IsBalanced {V = V} slf (ok []) (λ a vs. f a v) (λ a vs. h a v)
  delete_named-IsBalanced f slf (err e) h = λ s words o. refl

  -- A call through a slot leaves every object borrowed as it was before, whether the receiver can be
  -- borrowed, the arguments can be extracted, and the method returns, raises or panics, if methods
  -- drop the guards that they create.
  pub call_slot-IsBalanced : (c : SlotCall A V E) → HasBalanced c → IsBalanced (call_slot c)
  unfolding call_slot py_unary_func py_ssizearg_func py_binary_func py_binary_num_func
      py_binary_reversed_num_func py_ternary_num_func py_ternary_reversed_num_func py_func_set
      py_func_del py_func_set_del py_binary_self_func py_dummy_ternary_self_func
  call_slot-IsBalanced (unary f slf) h =
      call_ref-IsBalanced {V = V} slf (ok []) (λ a vs. f a) (λ a vs. h a)
  call_slot-IsBalanced (ssize_arg f slf arg) h =
      call_ref-IsBalanced {V = V} slf (ok []) (λ a vs. f a arg) (λ a vs. h a arg)
  call_slot-IsBalanced (binary f slf arg) h = call_ref-IsBalanced slf _ f h
  call_slot-IsBalanced (binary_num f lhs rhs) h = extracted-IsBalanced _ f h
  call_slot-IsBalanced (binary_reversed f lhs rhs) h = call_ref-IsBalanced rhs _ f h
  call_slot-IsBalanced (ternary_num f arg1 arg2 arg3) h = extracted-IsBalanced _ f h
  call_slot-IsBalanced (ternary_reversed f arg1 arg2 arg3) h = call_ref-IsBalanced arg2 _ f h
  call_slot-IsBalanced (assigns f slf name value) h = λ s words o. elim (Bool-cases (value == 0)) [
    | inl null ↦ rw null refl
    | inr given ↦ rw given (call_mut-IsBalanced slf _ f h s words o)
  ]
  call_slot-IsBalanced (deletes f slf name value) h = λ s words o. elim (Bool-cases (value == 0)) [
    | inl null ↦ rw null (delete_named-IsBalanced f slf (extract name) h s words o)
    | inr given ↦ rw given refl
  ]
  call_slot-IsBalanced (assigns_or_deletes f g slf name value) (h, k) = λ s words o.
      elim (Bool-cases (value == 0)) [
        | inl null ↦ rw null (call_mut-IsBalanced slf _ g k s words o)
        | inr given ↦ rw given (call_mut-IsBalanced slf _ f h s words o)
      ]
  call_slot-IsBalanced (binary_self f slf arg) h =
      return_self-IsBalanced slf (call_mut slf (extract_all extract (arg ∷ [])) f)
        (call_mut-IsBalanced slf _ f h)
  call_slot-IsBalanced (ternary_self f slf arg1 arg2) h =
      return_self-IsBalanced slf (call_mut slf (extract_all extract (arg1 ∷ [])) f)
        (call_mut-IsBalanced slf _ f h)
