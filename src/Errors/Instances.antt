-- ===== src/Errors/Instances.antt =====
-- Exception instances (src/err.rs): `from_instance`, `normalize` and `instance`.
use pyo.Base.{true-false, not_null, ℕ, ◌≡◌, ◌≢◌, refl, sym, ap, ◌∙◌, true, false, ◌==◌, none}
use pyo.Errors.{
  Triple, Python, value, PyErr, value_of_pointer, value_pointer, from_instance, into_normalized,
  instance_of, exception_instance,
}
use pyo.Errors.Laws.{IsLawful}
use pyo.Errors.Exchange.{
  error_of, triple_of, new_from_ffi_tuple-some, value_pointer-value_of_pointer,
  pointer_of-owned_or_opt,
}

module _ {W : Type 0} (python : Python W) (lawful : IsLawful python) where
  instance_some : (p : ℕ) (w : W) → python.is_exception_instance p w ≡ true → (p == 0) ≡ false
  instance_some p w h = not_null p (λ z.
      true-false (sym h ∙ ap (λ q. python.is_exception_instance q w) z ∙ lawful.null_instance w))

  instance_of_lem :
      (p : ℕ) (w : W)
      → python.is_exception_instance p w ≡ true
      → instance_of python (value_of_pointer p) w ≡ (p, python.incref p w)
  unfolding instance_of
  instance_of_lem p w h = rw (instance_some p w h) refl

  normalized :
      (e : PyErr W) (w w' : W) (t : Triple)
      → python.err_normalize (triple_of python e w) (value_pointer e.pvalue w).1 ≡ (t, w')
      → t.ptype ≢ 0
      → into_normalized python e w ≡ (error_of t, w')
  unfolding into_normalized
  normalized e w w' t h some_type = rw h (new_from_ffi_tuple-some python t w' some_type)

  instance_normalized :
      (e : PyErr W) (w w' : W) (t : Triple)
      → python.err_normalize (triple_of python e w) (value_pointer e.pvalue w).1 ≡ (t, w')
      → t.ptype ≢ 0
      → python.is_exception_instance t.pvalue w' ≡ true
      → exception_instance python e w ≡ (t.pvalue, python.incref t.pvalue w')
  unfolding exception_instance
  instance_normalized e w w' t h some_type is_instance =
      rw (normalized e w w' t h some_type) (instance_of_lem t.pvalue w' is_instance)

  -- The object that an error becomes in Python is an exception instance: never `None`, also when the
  -- error has no value, or a lazy one.
  pub exception_instance_lem :
      (e : PyErr W) (w : W)
      → e.ptype ≢ 0
      → python.is_exception_instance
          (exception_instance python e w).0
          (exception_instance python e w).1
        ≡ true
  exception_instance_lem e w set =
      let (is_instance, of_type) =
        lawful.normalize_instance (triple_of python e w) (value_pointer e.pvalue w).1 set in
      rw
        (
          instance_normalized e w _ _ refl (lawful.normalize_type _ _ set) is_instance,
          lawful.incref_instance,
        )
        is_instance

  -- Normalizing an error again changes nothing, and runs nothing.
  pub into_normalized-twice :
      (e : PyErr W) (w : W)
      → e.ptype ≢ 0
      → into_normalized python (into_normalized python e w).0 (into_normalized python e w).1
        ≡ into_normalized python e w
  into_normalized-twice e w set =
      let (is_instance, of_type) =
        lawful.normalize_instance (triple_of python e w) (value_pointer e.pvalue w).1 set in
      let some_type =
        lawful.normalize_type (triple_of python e w) (value_pointer e.pvalue w).1 set in
      rw (normalized e w _ _ refl some_type) (
        normalized (error_of _) _ _ _
          (rw (value_pointer-value_of_pointer, pointer_of-owned_or_opt)
            (lawful.normalize_same _ _ (is_instance, of_type)))
          some_type)

  -- The error made of an exception instance becomes this instance in Python.
  pub exception_instance-from_instance :
      (obj : ℕ) (w : W)
      → python.is_exception_instance obj w ≡ true
      → python.exception_class obj w ≢ 0
      → (exception_instance python (from_instance python obj w).0 (from_instance python obj w).1).0
        ≡ obj
  unfolding from_instance value_pointer
  exception_instance-from_instance obj w h some_class = rw h (
      ap (λ r. r.0)
        (instance_normalized
          (record { ptype = python.exception_class obj w; pvalue = value obj; ptraceback = none })
          (python.incref obj (python.incref (python.exception_class obj w) w)) _ _
          (lawful.normalize_same _ _ (
            rw (lawful.incref_instance, lawful.incref_instance) h,
            rw (lawful.incref_class, lawful.incref_class) refl,
          ))
          some_class (rw (lawful.incref_instance, lawful.incref_instance) h)))
