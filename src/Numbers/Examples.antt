-- ===== src/Numbers/Examples.antt =====
-- Integers of a small memory.
use pyo.Base.{
  ℕ, suc, ◌+◌, ◌-◌, ◌^◌, ◌≡◌, ◌≢◌, ◌↔◌, refl, arith, Bool, true, false, ◌==◌, if◌then◌else◌, Option,
  none, some, [], ret, ok, err, ℤ, pos, negsuc, update, Option-cases, inl, inr, not_null, ==-same,
}
use pyo.Gil.ThreadState.{State}
use pyo.Handles.{SameWord, Functions}
use pyo.Handles.Leaves.{owned, IsFair}
use pyo.Handles.Pool.{counting, owed, counting-IsCounted}
use pyo.Numbers.{
  IntType, in_range, i8, u8, i64, u64, i128, int_type, Numbers, to_ne_bytes, from_ne_bytes, extract,
  into_py,
}
use pyo.Numbers.Bytes.{wide_type}
use pyo.Numbers.Laws.{IsPython}
use pyo.Numbers.Extract.{extract-ok_iff}
use pyo.Numbers.RoundTrip.{IsMade, extract-into_py}
use pyo.Numbers.References.{IsFairNumbers, extract-owed}

record Ints : Type 0 where
  ints : ℕ → Option ℤ
  used : ℕ
  raised : Bool

abbrev memory : State Ints
memory = record {
  thread = record { ints = λ o. none; used = 0; raised = false };
  started = true;
  gil_count = 1;
  owned_objects = [];
  owned_anys = [];
  pointers_to_incref = [];
  pointers_to_decref = [];
  heap = record { refcnt = λ o. 1; freed = [] };
}

abbrev raise : State Ints → State Ints
raise w = record w { thread = record w.thread { raised = true } }

abbrev value_of : ℕ → State Ints → Option ℤ
value_of o w = if o == 0 then none else w.thread.ints o

abbrev indexed : ℕ → State Ints → Option ℤ → ℕ × State Ints
indexed o w none = (0, raise w)
indexed o w (some v) = (o, counting.incref o w)

abbrev converted {ℓ} : {A : Type ℓ} → IntType → A → (ℤ → A) → State Ints → Option ℤ → A × State Ints
converted t failed result w none = (failed, raise w)
converted t failed result w (some v) = if in_range t v then (result v, w) else (failed, raise w)

abbrev made : ℤ → State Ints → ℕ × State Ints
made v w =
    let new = suc w.thread.used in
    (
      new,
      counting.incref new (record w {
        thread = record w.thread { ints = update w.thread.ints new (some v); used = new };
      }),
    )

abbrev numbers : Numbers (State Ints) ℕ
numbers = record {
  occurred = λ w. w.thread.raised;
  overflow_error = λ w. (4, w);
  number_index = λ o w. indexed o w (value_of o w);
  from_long = made;
  as_long = λ o w. converted (int_type i64) (negsuc 0) (λ v. v) w (value_of o w);
  from_unsigned_long_long = made;
  as_unsigned_long_long =
      λ o w. converted (int_type u64) (pos (2 ^ 64 - 1)) (λ v. v) w (value_of o w);
  from_byte_array = λ bs is_signed w. made (from_ne_bytes is_signed bs) w;
  as_byte_array = λ o is_signed w.
      converted (wide_type is_signed) none (λ v. some (to_ne_bytes v)) w (value_of o w);
}

abbrev functions : Functions (State Ints) ℕ
functions = record {
  fetch = λ w. (ret 3, record w { thread = record w.thread { raised = false } });
  print_error = λ w. w;
  get_attr = λ obj name w. (0, raise w);
  call_object = λ callable args kwargs w. (0, raise w);
  rich_compare = λ obj other op w. (0, raise w);
  object_is_true = λ obj w. (none, raise w);
  set_attr = λ obj name value w. (false, raise w);
}

value_of-null : (o : ℕ) (w : State Ints) (v : ℤ) → value_of o w ≡ some v → o ≢ 0
value_of-null o w v h e = ground (arith, h, e)

value_of-made : (v : ℤ) (w : State Ints) → value_of (suc w.thread.used) (made v w).1 ≡ some v
value_of-made v w = ground (arith, ==-same (suc w.thread.used))

numbers-IsMade : IsMade numbers value_of
numbers-IsMade = record {
  long_value = λ v w fits object. (value_of-made v w, refl);
  unsigned_value = λ v w fits object. (value_of-made v w, refl);
  byte_array_value = λ bs is_signed w object. (value_of-made (from_ne_bytes is_signed bs) w, refl);
}

numbers-IsPython : IsPython numbers value_of value_of
numbers-IsPython = record {
  index_none = λ o w h. rw h refl;
  index_some = λ o w v h. rw h (value_of-null o w v h, h, refl);
  as_long_fits = λ o w v h fits. rw (h, fits) (refl, refl);
  as_long_overflows = λ o w v h over. rw (h, over) (refl, refl);
  as_unsigned_fits = λ o w v h fits. rw (h, fits) (refl, refl);
  as_unsigned_overflows = λ o w v h over. rw (h, over) (refl, refl);
  as_byte_array_fits = λ o is_signed w v h fits. rw (h, fits) refl;
  as_byte_array_overflows = λ o is_signed w v h over. rw (h, over) refl;
}

indexed-owed :
    (o ptr : ℕ) (w : State Ints)
    → SameWord
        (owed o (indexed ptr w (value_of ptr w)).1)
        (owed o w + owned o (indexed ptr w (value_of ptr w)).0)
indexed-owed o ptr w = elim (Option-cases (value_of ptr w)) [
  | inl h ↦ rw h (omega arith)
  | inr (v, h) ↦
      rw (h, not_null ptr (value_of-null ptr w v h)) (counting-IsCounted.owed-incref o ptr w)
]

converted-owed :
    {A : Type 0} (o : ℕ) (t : IntType) (failed : A) (result : ℤ → A) (w : State Ints) (r : Option ℤ)
    → SameWord (owed o (converted t failed result w r).1) (owed o w)
converted-owed o t failed result w none = refl
converted-owed o t failed result w (some v) = ground arith

numbers-IsFairNumbers : IsFairNumbers numbers owed (λ o e. 0)
numbers-IsFairNumbers = record {
  owed-number_index = indexed-owed;
  owed-as_long = λ o num w. converted-owed o (int_type i64) _ _ w (value_of num w);
  owed-as_unsigned = λ o num w. converted-owed o (int_type u64) _ _ w (value_of num w);
  owed-as_byte_array =
      λ o num is_signed w. converted-owed o (wide_type is_signed) _ _ w (value_of num w);
  owed-overflow_error = λ o w. omega arith;
}

functions-IsFair : IsFair functions owed (λ o e. 0)
functions-IsFair = record {
  owed-fetch = λ o w e h. omega arith;
  owed-get_attr = λ o obj name w. omega arith;
  owed-call_object = λ o callable args kwargs w. omega arith;
  owed-rich_compare = λ o obj other op w. omega arith;
  owed-object_is_true = λ o obj w. refl;
}

-- The object 1 is the integer -1.
abbrev minus_one : State Ints
minus_one = (made (negsuc 0) memory).1

-- -1 is also what `PyLong_AsLong` returns for an error.
extracts_minus_one : (extract counting functions numbers i8 1 minus_one).0 ≡ ret (ok (negsuc 0))
unfolding extract
extracts_minus_one = refl

overflows : (extract counting functions numbers u8 1 minus_one).0 ≡ ret (err 4)
unfolding extract
overflows = refl

extract-ok_iff_example :
    (extract counting functions numbers i8 1 minus_one).0 ≡ ret (ok (negsuc 0))
    ↔ (value_of 1 minus_one ≡ some (negsuc 0)) × (in_range (int_type i8) (negsuc 0) ≡ true)
extract-ok_iff_example =
    extract-ok_iff counting functions numbers value_of value_of numbers-IsPython i8 1 minus_one
      (negsuc 0) refl

extract-into_py_example :
    (extract counting functions numbers i128 1 (made (negsuc 4) memory).1).0 ≡ ret (ok (negsuc 4))
unfolding into_py from_ne_bytes
extract-into_py_example =
    extract-into_py counting functions numbers value_of numbers-IsMade value_of i128 (negsuc 4)
      memory (made (negsuc 4) memory).1 1 numbers-IsPython refl refl refl

-- The reference to the object 1 is not released.
extract-owed_example :
    SameWord
      (owed 1 (extract counting functions numbers i128 1 minus_one).1)
      (owed 1 minus_one + 1 + 0)
unfolding extract to_ne_bytes
extract-owed_example =
    extract-owed counting functions numbers owed (λ o e. 0) counting-IsCounted functions-IsFair
      numbers-IsFairNumbers 1 i128 1 minus_one (ok (negsuc 0)) refl
