-- ===== src/Errors/Exchange.antt =====
-- `fetch` and `restore` of src/err.rs.
use pyo.Base.{
  ==-same, not_null, ℕ, ◌≡◌, ◌≢◌, refl, sym, ap, ◌∙◌, arith, true, false, Bool-cases, inl, inr,
  ◌==◌, ==_iff, Option, none, some, String, ret, panic, ret-injective,
}
use pyo.Errors.{
  Triple, Exception, panic_exception, system_error, Python, new, no_value, to_object, PyErr,
  pointer_of, owned_or_opt, value_of_pointer, value_pointer, occurred, new_from_ffi_tuple, restore,
  print, panic_message, fetch,
}
use pyo.Errors.Laws.{IsLawful, IsError}

pub pointer_of-owned_or_opt : (p : ℕ) → pointer_of (owned_or_opt p) ≡ p
pointer_of-owned_or_opt p = elim (Bool-cases (p == 0)) [
  | inl t ↦ rw t (ground (arith, t))
  | inr f ↦ rw f refl
]

pub value_pointer-value_of_pointer :
    {W : Type 0} (p : ℕ) (w : W) → value_pointer (value_of_pointer p) w ≡ (p, w)
unfolding value_pointer
value_pointer-value_of_pointer p w = elim (Bool-cases (p == 0)) [
  | inl t ↦ rw (t, (==_iff p 0).0 t) refl
  | inr f ↦ rw f refl
]

null_differs : (p : ℕ) → p ≢ 0 → (0 == p) ≡ false
null_differs p h = elim (Bool-cases (0 == p)) [ inl t ↦ absurd (h (ground (arith, t))) | inr f ↦ f ]

pub owned_or_opt-pointer_of : (o : Option ℕ) → o ≢ some 0 → owned_or_opt (pointer_of o) ≡ o
owned_or_opt-pointer_of none h = refl
owned_or_opt-pointer_of (some p) h = rw (not_null p (λ e. h (ap some e))) refl

pub new_from_ffi_tuple-some :
    {W : Type 0} (python : Python W) (t : Triple) (w : W)
    → t.ptype ≢ 0
    → new_from_ffi_tuple python t w ≡ (
      record {
        ptype = t.ptype;
        pvalue = value_of_pointer t.pvalue;
        ptraceback = owned_or_opt t.ptraceback;
      },
      w,
    )
unfolding new_from_ffi_tuple
new_from_ffi_tuple-some python t w h = rw (not_null t.ptype h) refl

abbrev pub error_of : {W : Type 0} → Triple → PyErr W
error_of t = record {
  ptype = t.ptype;
  pvalue = value_of_pointer t.pvalue;
  ptraceback = owned_or_opt t.ptraceback;
}

module _ {W : Type 0} (python : Python W) where
  fetched :
      (w w' : W) (t : Triple)
      → python.err_fetch w ≡ (t, w')
      → t.ptype ≢ 0
      → (t.ptype == python.type_object panic_exception) ≡ false
      → fetch python w ≡ (ret (error_of t), w')
  unfolding fetch
  fetched w w' t h set other = rw (h, other, not_null _ set) refl

  resumed :
      (w w' : W) (t : Triple)
      → python.err_fetch w ≡ (t, w')
      → t.ptype ≢ 0
      → (t.ptype == python.type_object panic_exception) ≡ true
      → (fetch python w).0 ≡ panic (panic_message python t.pvalue w')
  unfolding fetch
  resumed w w' t h set is_panic = rw (h, is_panic, not_null _ set) refl

  new_error :
      (exc : Exception) (object : W → ℕ × W) (w w' : W) (e : PyErr W)
      → new python exc object w ≡ ret (e, w')
      → e ≡ record { ptype = python.type_object exc; pvalue = to_object object; ptraceback = none }
  unfolding new
  new_error exc object w w' e h =
      elim (Bool-cases (python.is_exception_class (python.type_object exc) w)) [
        | inl t ↦ sym (ap (λ p. p.0) (ret-injective _ _ (rw t at h)))
        | inr f ↦ absurd (ground (arith, rw f at h))
      ]

  panic_message-none :
      (pvalue : ℕ) (w : W)
      → python.string_text pvalue w ≡ none
      → panic_message python pvalue w ≡ "Unwrapped panic from Python code"
  unfolding panic_message
  panic_message-none pvalue w h = elim (Bool-cases (pvalue == 0)) [
    | inl t ↦ rw t refl
    | inr f ↦ rw (f, h) refl
  ]

  abbrev pub triple_of : PyErr W → W → Triple
  triple_of e w = record {
    ptype = e.ptype;
    pvalue = (value_pointer e.pvalue w).0;
    ptraceback = pointer_of e.ptraceback;
  }

  restore-exact :
      (e : PyErr W) (w : W)
      → restore python e w ≡ python.err_restore (triple_of e w) (value_pointer e.pvalue w).1
  unfolding restore
  restore-exact e w = refl

  restored_error_of : (t : Triple) (w : W) → restore python (error_of t) w ≡ python.err_restore t w
  restored_error_of t w =
      rw (restore-exact, value_pointer-value_of_pointer, pointer_of-owned_or_opt) refl

module _ {W : Type 0} (python : Python W) (lawful : IsLawful python) where
  -- An error that is written back, when none is set, and then retrieved is the same error, its value
  -- replaced by the object that a lazy value stands for, and the interpreter is as the making of
  -- this object left it; the error is no PanicException, and its
  -- type and traceback are not null.
  pub fetch-restore :
      (e : PyErr W) (w : W)
      → IsError e
      → (e.ptype == python.type_object panic_exception) ≡ false
      → python.err_occurred (value_pointer e.pvalue w).1 ≡ 0
      → fetch python (restore python e w) ≡ (
        ret (record e { pvalue = value_of_pointer (value_pointer e.pvalue w).0 }),
        (value_pointer e.pvalue w).1,
      )
  unfolding restore
  fetch-restore e w (some_type, some_traceback) other clear =
      fetched python _ _ (triple_of python e w) (lawful.fetch_restore _ _ some_type clear) some_type
        other
      ∙ rw (owned_or_opt-pointer_of e.ptraceback some_traceback) refl

  -- An error that is set and retrieved, and is no PanicException, can be written back: then the
  -- interpreter is as it was.
  pub restore-fetch :
      (w : W) (e : PyErr W)
      → python.err_occurred w ≢ 0
      → (fetch python w).0 ≡ ret e
      → restore python e (fetch python w).1 ≡ w
  unfolding fetch restore new_from_ffi_tuple value_pointer
  restore-fetch w e set h =
      let some_type =
        λ (t : (python.err_fetch w).0.ptype ≡ 0). set (sym (lawful.fetch_type w) ∙ t) in
      elim (Bool-cases ((python.err_fetch w).0.ptype == python.type_object panic_exception)) [
        | inl t ↦ absurd (ground (arith, h, resumed python w _ _ refl some_type t))
        | inr f ↦
            let found = fetched python w _ _ refl some_type f in
            rw (sym (ret-injective _ _ (sym (ap (λ p. p.0) found) ∙ h)), found)
              (restored_error_of python _ _ ∙ lawful.restore_fetch w set)
      ]

  -- When no error is set, what is retrieved is a SystemError without a value.
  pub fetch-SystemError :
      (w : W)
      → occurred python w ≡ false
      → (fetch python w).0
        ≡ ret (record {
          ptype = python.type_object system_error;
          pvalue = no_value;
          ptraceback = none;
        })
  unfolding fetch new_from_ffi_tuple occurred
  fetch-SystemError w h =
      rw
        (
          lawful.fetch_unset w (ground (arith, h)),
          null_differs _ (lawful.type_object_some panic_exception),
        )
        refl

  -- Whether an error is retrieved or a panic resumed, none is set afterwards.
  pub fetch-occurred : (w : W) → occurred python (fetch python w).1 ≡ false
  unfolding fetch new_from_ffi_tuple occurred print
  fetch-occurred w =
      elim (Bool-cases ((python.err_fetch w).0.ptype == python.type_object panic_exception)) [
        | inl t ↦ rw (t, lawful.print_clears) refl
        | inr f ↦ elim (Bool-cases ((python.err_fetch w).0.ptype == 0)) [
          | inl t ↦ rw (f, t, lawful.incref_occurred, lawful.fetch_clears) refl
          | inr g ↦ rw (f, g, lawful.fetch_clears) refl
        ]
      ]

  -- A PanicException that is written back and then retrieved resumes the panic: with its value's
  -- text when this is a string, and otherwise with a fixed text.
  pub fetch-panics :
      (e : PyErr W) (w : W)
      → IsError e
      → e.ptype ≡ python.type_object panic_exception
      → python.err_occurred (value_pointer e.pvalue w).1 ≡ 0
      → (fetch python (restore python e w)).0
        ≡ panic (panic_message python (value_pointer e.pvalue w).0 (value_pointer e.pvalue w).1)
  unfolding restore
  fetch-panics e w (some_type, some_traceback) is_panic clear =
      resumed python _ _ (triple_of python e w) (lawful.fetch_restore _ _ some_type clear) some_type
        (rw is_panic (==-same _))

  -- The panic that src/callback.rs turns into an exception, whose argument is the tuple of the
  -- panic's message, is resumed with the fixed text, whatever the message was, when this exception
  -- is retrieved as it was set; a tuple is no string.
  pub fetch-loses_message :
      (tuple_object : String → W → ℕ × W) (message : String) (w w' : W) (e : PyErr W)
      → new python panic_exception (tuple_object message) w ≡ ret (e, w')
      → python.err_occurred (tuple_object message w').1 ≡ 0
      → python.string_text (tuple_object message w').0 (tuple_object message w').1 ≡ none
      → (fetch python (restore python e w')).0 ≡ panic "Unwrapped panic from Python code"
  unfolding restore value_pointer
  fetch-loses_message tuple_object message w w' e h clear no_string =
      rw (new_error python _ _ _ _ _ h) (
        resumed python _ _
          (triple_of python
            (record {
              ptype = python.type_object panic_exception;
              pvalue = to_object (tuple_object message);
              ptraceback = none;
            })
            w')
          (lawful.fetch_restore _ _ (lawful.type_object_some panic_exception) clear)
          (lawful.type_object_some panic_exception) (==-same _)
        ∙ ap panic (panic_message-none python _ _ no_string))
