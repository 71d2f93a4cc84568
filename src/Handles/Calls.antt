-- ===== src/Handles/Calls.antt =====
-- The references that are left after a call of Python (src/object.rs, src/types/any.rs).
use pyo.Base.{
  ℕ, ◌+◌, ◌≡◌, arith, false, ◌==◌, if◌then◌else◌, Option, none, some, Outcome, ret, Result, ok,
}
use pyo.Handles.{
  Counting, SameWord, IsCounted, Functions, xdecref, reference_into_ptr, option_into_ptr,
  from_owned_ptr_or_err, pool_from_owned_ptr_or_err, finally, with_borrowed_ptr, release_args,
  getattr, call, call_method, any_call_method,
}
use pyo.Handles.Leaves.{
  owned, IsFair, IsNew, result_refs, Leaves, Leaves-if, Leaves-result, Leaves-finally,
  Leaves-fetched,
}

module _ {W E : Type 0} (c : Counting W) (f : Functions W E) (owed : ℕ → W → ℕ)
    (error_refs : ℕ → E → ℕ) (counted : IsCounted c owed) (o : ℕ) where
  pub owed-xdecref :
      (ptr : ℕ) (w : W) → SameWord (owed o (xdecref c ptr w) + owned o ptr) (owed o w)
  unfolding xdecref
  owed-xdecref ptr w = ground (arith, counted.owed-decref o ptr w)

  owed-option_into_ptr :
      (kwargs : Option ℕ) (w : W)
      → SameWord
          (owed o (option_into_ptr c kwargs w).1)
          (owed o w + owned o (option_into_ptr c kwargs w).0)
  unfolding option_into_ptr reference_into_ptr
  owed-option_into_ptr none w = omega arith
  owed-option_into_ptr (some ptr) w = ground (arith, counted.owed-incref o ptr w)

  owed-release_args :
      (args kwargs : ℕ) (w : W)
      → SameWord
          (owed o (release_args c f args kwargs w) + owned o args + owned o kwargs)
          (owed o w)
  unfolding release_args
  owed-release_args args kwargs w =
      omega (arith, owed-xdecref kwargs (xdecref c args w), owed-xdecref args w)

  module _ (fair : IsFair f owed error_refs) where
    pub Leaves-from_owned_ptr_or_err :
        (base ptr : ℕ) (w : W)
        → SameWord (owed o w) (base + owned o ptr)
        → Leaves owed error_refs o (owned o) base (from_owned_ptr_or_err c f ptr w)
    unfolding from_owned_ptr_or_err
    Leaves-from_owned_ptr_or_err base ptr w b =
        Leaves-if owed error_refs o (owned o) base (ptr == 0) _ _
          (λ null.
            Leaves-fetched owed error_refs o (owned o) c f base w fair (ground (arith, b, null)))
          (λ object. Leaves-result owed error_refs o (owned o) base (ok ptr) w b)

    Leaves-pool_from_owned_ptr_or_err :
        (base ptr : ℕ) (w : W)
        → SameWord (owed o w) (base + owned o ptr)
        → Leaves owed error_refs o (owned o) base (pool_from_owned_ptr_or_err c f ptr w)
    unfolding pool_from_owned_ptr_or_err
    Leaves-pool_from_owned_ptr_or_err base ptr w b =
        Leaves-if owed error_refs o (owned o) base (ptr == 0) _ _
          (λ null.
            Leaves-fetched owed error_refs o (owned o) c f base w fair (ground (arith, b, null)))
          (λ object.
            Leaves-result owed error_refs o (owned o) base (ok ptr) (c.register_owned ptr w)
              (omega (arith, b, counted.owed-register_owned o ptr w)))

    -- A call of a new reference to a method, which is released at the end.
    Leaves-method :
        (method args kw base ptr : ℕ) (w : W) (q : Outcome (Result ℕ E) × W)
        → (method == 0) ≡ false
        → Leaves owed error_refs o (owned o) (base + owned o method + owned o args + owned o kw) q
        → Leaves owed error_refs o
            (owned o)
            base
            (finally c f (λ v. release_args c f args kw (c.decref method v)) q)
    Leaves-method method args kw base ptr w q object l =
        Leaves-finally owed error_refs o (owned o) c f _
          (owned o method + owned o args + owned o kw) base q
          (λ v. ground (
            arith,
            object,
            owed-release_args args kw (c.decref method v),
            counted.owed-decref o method v,
          ))
          (λ r h. omega (arith, l r h))

    -- If `getattr` returns, every reference that it made is released, but for those of its result.
    pub getattr-owed :
        (slf : ℕ) (name : W → ℕ × W) (w : W) (r : Result ℕ E)
        → IsNew owed name
        → (getattr c f slf name w).0 ≡ ret r
        → SameWord
            (owed o (getattr c f slf name w).1)
            (owed o w + result_refs (owned o) error_refs o r)
    unfolding getattr with_borrowed_ptr
    getattr-owed slf name w r new h =
        let (attr, v) = name w in
        Leaves-finally owed error_refs o (owned o) c f (xdecref c attr) (owned o attr) (owed o w) _
          (owed-xdecref attr)
          (Leaves-from_owned_ptr_or_err _ (f.get_attr slf attr v).0 _
            (omega (arith, fair.owed-get_attr o slf attr v, new o w)))
          r h

    -- If `PyObject::call` returns, with a result or an error, the references to its arguments are
    -- released: those that are left are the ones before it and those of its result.
    pub call-owed :
        (slf : ℕ) (into_py : W → ℕ × W) (kwargs : Option ℕ) (w : W) (r : Result ℕ E)
        → IsNew owed into_py
        → (call c f slf into_py kwargs w).0 ≡ ret r
        → SameWord
            (owed o (call c f slf into_py kwargs w).1)
            (owed o w + result_refs (owned o) error_refs o r)
    unfolding call
    call-owed slf into_py kwargs w r new h =
        let (args, w1) = into_py w in
        let (kw, w2) = option_into_ptr c kwargs w1 in
        let (ptr, w3) = f.call_object slf args kw w2 in
        Leaves-finally owed error_refs o (owned o) c f _ (owned o args + owned o kw) (owed o w) _
          (λ v. omega (arith, owed-release_args args kw v))
          (Leaves-from_owned_ptr_or_err _ ptr w3 (
            omega (
              arith,
              new o w,
              owed-option_into_ptr kwargs w1,
              fair.owed-call_object o slf args kw w2,
            )))
          r h

    -- If `PyAny::call_method` returns, the references that are left are the ones before it and those
    -- of its result, also if there is no such method.
    pub any_call_method-owed :
        (slf : ℕ) (name into_py : W → ℕ × W) (kwargs : Option ℕ) (w : W) (r : Result ℕ E)
        → IsNew owed name
        → IsNew owed into_py
        → (any_call_method c f slf name into_py kwargs w).0 ≡ ret r
        → SameWord
            (owed o (any_call_method c f slf name into_py kwargs w).1)
            (owed o w + result_refs (owned o) error_refs o r)
    unfolding any_call_method with_borrowed_ptr
    any_call_method-owed slf name into_py kwargs w r new_name new h =
        let (attr, w0) = name w in
        let (method, w1) = f.get_attr slf attr w0 in
        let (args, w2) = into_py w1 in
        let (kw, w3) = option_into_ptr c kwargs w2 in
        let (ptr, w4) = f.call_object method args kw w3 in
        Leaves-finally owed error_refs o (owned o) c f (xdecref c attr) (owned o attr) (owed o w) _
          (owed-xdecref attr)
          (Leaves-if owed error_refs o (owned o) _ (method == 0) _ _
            (λ null.
              Leaves-fetched owed error_refs o (owned o) c f _ w1 fair
                (ground (arith, null, fair.owed-get_attr o slf attr w0, new_name o w)))
            (λ object. Leaves-method method args kw _ ptr w4 _ object (
              Leaves-pool_from_owned_ptr_or_err _ ptr w4 (
                omega (
                  arith,
                  fair.owed-get_attr o slf attr w0,
                  new_name o w,
                  new o w1,
                  owed-option_into_ptr kwargs w2,
                  fair.owed-call_object o method args kw w3,
                )))))
          r h

    -- If `PyObject::call_method` returns, the references that are left are the ones before it and
    -- those of its result, and also, if there is no such method, one to each of the tuple and the
    -- dictionary of the arguments.
    pub call_method-owed :
        (slf : ℕ) (name into_py : W → ℕ × W) (kwargs : Option ℕ) (w : W) (r : Result ℕ E)
        → IsNew owed name
        → IsNew owed into_py
        → (call_method c f slf name into_py kwargs w).0 ≡ ret r
        → let (attr, w0) = name w in
          let (args, w1) = into_py w0 in
          let (kw, w2) = option_into_ptr c kwargs w1 in
          SameWord (owed o (call_method c f slf name into_py kwargs w).1) (
            owed o w
            + (if (f.get_attr slf attr w2).0 == 0 then owned o args + owned o kw else 0)
            + result_refs (owned o) error_refs o r)
    unfolding call_method with_borrowed_ptr
    call_method-owed slf name into_py kwargs w r new_name new h =
        let (attr, w0) = name w in
        let (args, w1) = into_py w0 in
        let (kw, w2) = option_into_ptr c kwargs w1 in
        let (method, w3) = f.get_attr slf attr w2 in
        let (ptr, w4) = f.call_object method args kw w3 in
        Leaves-finally owed error_refs o (owned o) c f (xdecref c attr) (owned o attr)
          (owed o w + (if method == 0 then owned o args + owned o kw else 0)) _ (owed-xdecref attr)
          (Leaves-if owed error_refs o (owned o) _ (method == 0) _ _
            (λ null. Leaves-fetched owed error_refs o (owned o) c f _ w3 fair (
              ground (
                arith,
                null,
                fair.owed-get_attr o slf attr w2,
                new_name o w,
                new o w0,
                owed-option_into_ptr kwargs w1,
              )))
            (λ object. Leaves-method method args kw _ ptr w4 _ object (
              Leaves-from_owned_ptr_or_err _ ptr w4 (
                ground (
                  arith,
                  object,
                  fair.owed-get_attr o slf attr w2,
                  new_name o w,
                  new o w0,
                  owed-option_into_ptr kwargs w1,
                  fair.owed-call_object o method args kw w3,
                )))))
          r h
