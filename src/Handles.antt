-- ===== src/Handles.antt =====
-- Handles of Python objects that own a reference each (src/instance.rs, src/object.rs), and the
-- functions of src/object.rs, src/types/any.rs and src/conversion.rs that pass references to C
-- functions. An object is its address, and 0 is the null pointer; `Py<T>` and `PyObject` are both
-- the address that they hold.
pub mod Histories
pub mod Leaves
pub mod Calls
pub mod Compare
pub mod Pool
mod Examples
use pyo.Base.{
  ℕ, ◌+◌, ◌%◌, ◌≡◌, Bool, true, false, ◌==◌, if◌then◌else◌, Option, none, some, String, Outcome,
  ret, panic, and_then, Result, ok, err, usize_mod,
}
use pyo.Refcount.{one}

-- What src/ffi/object.rs and src/gil.rs do to counts: with the lock held, and at any time.
pub record Counting (W : Type 0) : Type 0 where
  pub incref : ℕ → W → W
  pub decref : ℕ → W → W
  pub register_incref : ℕ → W → W
  pub register_decref : ℕ → W → W
  pub register_owned : ℕ → W → W

-- Equal as 64-bit words.
abbrev pub SameWord : ℕ → ℕ → Type 0
SameWord a b = a % usize_mod ≡ b % usize_mod

-- `owed o w` is the number of references to an object that Rust code owns, or a pool for it: the
-- reference count, with what is put off, less the references that Python's objects hold.
pub record IsCounted {W : Type 0} (c : Counting W) (owed : ℕ → W → ℕ) : Type 0 where
  pub owed-incref : (o x : ℕ) (w : W) → SameWord (owed o (c.incref x w)) (owed o w + one o x)
  pub owed-decref : (o x : ℕ) (w : W) → SameWord (owed o (c.decref x w) + one o x) (owed o w)
  pub owed-register_incref :
      (o x : ℕ) (w : W) → SameWord (owed o (c.register_incref x w)) (owed o w + one o x)
  pub owed-register_decref :
      (o x : ℕ) (w : W) → SameWord (owed o (c.register_decref x w) + one o x) (owed o w)
  pub owed-register_owned : (o x : ℕ) (w : W) → SameWord (owed o (c.register_owned x w)) (owed o w)

-- C functions and `PyErr::fetch`. A pointer that is returned is a new reference or null; a test that
-- fails is `none`.
pub record Functions (W E : Type 0) : Type 0 where
  pub fetch : W → Outcome E × W
  pub print_error : W → W
  pub get_attr : (obj name : ℕ) → W → ℕ × W
  pub call_object : (callable args kwargs : ℕ) → W → ℕ × W
  pub rich_compare : (obj other op : ℕ) → W → ℕ × W
  pub object_is_true : ℕ → W → Option Bool × W
  pub set_attr : (obj name value : ℕ) → W → Bool × W

module _ {W : Type 0} (c : Counting W) where
  unfoldable pub from_borrowed_ptr : ℕ → W → ℕ × W
  from_borrowed_ptr ptr w = (ptr, c.incref ptr w)

  unfoldable pub clone_ref : ℕ → W → ℕ × W
  unfolding from_borrowed_ptr
  clone_ref slf w = from_borrowed_ptr slf w

  unfoldable pub to_object : ℕ → W → ℕ × W
  unfolding from_borrowed_ptr
  to_object slf w = from_borrowed_ptr slf w

  unfoldable pub clone : ℕ → W → ℕ × W
  clone slf w = (slf, c.register_incref slf w)

  unfoldable pub drop_handle : ℕ → W → W
  drop_handle slf w = c.register_decref slf w

  unfoldable pub xdecref : ℕ → W → W
  xdecref ptr w = if ptr == 0 then w else c.decref ptr w

  -- `into_ptr` of a reference, and of an optional one.
  unfoldable pub reference_into_ptr : ℕ → W → ℕ × W
  reference_into_ptr ptr w = (ptr, if ptr == 0 then w else c.incref ptr w)

  unfoldable pub option_into_ptr : Option ℕ → W → ℕ × W
  unfolding reference_into_ptr
  option_into_ptr none w = (0, w)
  option_into_ptr (some ptr) w = reference_into_ptr ptr w

  unfoldable pub from_borrowed_ptr_or_opt : ℕ → W → Option ℕ × W
  unfolding from_borrowed_ptr
  from_borrowed_ptr_or_opt ptr w = if ptr == 0 then (none, w) else (some ptr, c.incref ptr w)

  -- `FromPyPointer`: the pool owns the new reference.
  unfoldable pub pool_from_owned_ptr_or_opt : ℕ → W → Option ℕ × W
  pool_from_owned_ptr_or_opt ptr w =
      if ptr == 0 then (none, w) else (some ptr, c.register_owned ptr w)

  module _ {E : Type 0} (f : Functions W E) where
    unfoldable pub fetched : {A : Type 0} → Outcome E × W → Outcome (Result A E) × W
    fetched (ret e, w) = (ret (err e), w)
    fetched (panic m, w) = (panic m, w)

    unfoldable pub from_owned_ptr_or_err : ℕ → W → Outcome (Result ℕ E) × W
    unfolding fetched
    from_owned_ptr_or_err ptr w = if ptr == 0 then fetched (f.fetch w) else (ret (ok ptr), w)

    unfoldable pub from_borrowed_ptr_or_err : ℕ → W → Outcome (Result ℕ E) × W
    unfolding fetched
    from_borrowed_ptr_or_err ptr w =
        if ptr == 0 then fetched (f.fetch w) else (ret (ok ptr), c.incref ptr w)

    unfoldable pub from_owned_ptr_or_panic : ℕ → W → Outcome ℕ × W
    from_owned_ptr_or_panic ptr w =
        if ptr == 0 then (panic "Python API call failed", f.print_error w) else (ret ptr, w)

    unfoldable pub pool_from_owned_ptr_or_err : ℕ → W → Outcome (Result ℕ E) × W
    unfolding fetched
    pool_from_owned_ptr_or_err ptr w =
        if ptr == 0 then fetched (f.fetch w) else (ret (ok ptr), c.register_owned ptr w)

    -- What follows a closure unless it panics.
    unfoldable pub finally : {A : Type 0} → (W → W) → Outcome A × W → Outcome A × W
    finally after (ret a, w) = (ret a, after w)
    finally after (panic m, w) = (panic m, w)

    -- `with_borrowed_ptr`, from `to_object` of the value.
    unfoldable pub with_borrowed_ptr :
        {A : Type 0} → (W → ℕ × W) → (ℕ → W → Outcome A × W) → W → Outcome A × W
    unfolding finally xdecref
    with_borrowed_ptr value body w = let (ptr, w1) = value w in finally (xdecref ptr) (body ptr w1)

    -- `PyObject::is_true`.
    unfoldable pub is_true : ℕ → W → Outcome (Result Bool E) × W
    unfolding fetched
    is_true slf w = elim (f.object_is_true slf w).0 [
      | none ↦ fetched (f.fetch (f.object_is_true slf w).1)
      | some v ↦ (ret (ok v), (f.object_is_true slf w).1)
    ]

    unfoldable pub getattr : ℕ → (W → ℕ × W) → W → Outcome (Result ℕ E) × W
    unfolding with_borrowed_ptr
    getattr slf name w =
        with_borrowed_ptr name
          (λ attr w1. let (ptr, w2) = f.get_attr slf attr w1 in from_owned_ptr_or_err ptr w2) w

    -- The result of a call, and then `Py_XDECREF` of the arguments.
    release_args : (args kwargs : ℕ) → W → W
    unfolding xdecref
    release_args args kwargs w = xdecref kwargs (xdecref args w)

    -- `PyObject::call`; `into_py` makes the tuple.
    unfoldable pub call : ℕ → (into_py : W → ℕ × W) → Option ℕ → W → Outcome (Result ℕ E) × W
    unfolding finally release_args from_owned_ptr_or_err
    call slf into_py kwargs w =
        let (args, w1) = into_py w in
        let (kw, w2) = option_into_ptr kwargs w1 in
        let (ptr, w3) = f.call_object slf args kw w2 in
        finally (release_args args kw) (from_owned_ptr_or_err ptr w3)

    -- `PyObject::call_method`: the arguments are made before the attribute is looked up.
    unfoldable pub call_method :
        ℕ → (name into_py : W → ℕ × W) → Option ℕ → W → Outcome (Result ℕ E) × W
    unfolding finally release_args from_owned_ptr_or_err with_borrowed_ptr fetched
    call_method slf name into_py kwargs w =
        with_borrowed_ptr name
          (λ attr w0.
            let (args, w1) = into_py w0 in
            let (kw, w2) = option_into_ptr kwargs w1 in
            let (method, w3) = f.get_attr slf attr w2 in
            if method == 0
            then fetched (f.fetch w3)
            else (let (ptr, w4) = f.call_object method args kw w3 in
                finally (λ w5. release_args args kw (c.decref method w5))
                  (from_owned_ptr_or_err ptr w4)))
          w

    -- `PyAny::call_method`: the attribute is looked up first.
    unfoldable pub any_call_method :
        ℕ → (name into_py : W → ℕ × W) → Option ℕ → W → Outcome (Result ℕ E) × W
    unfolding finally release_args pool_from_owned_ptr_or_err with_borrowed_ptr fetched
    any_call_method slf name into_py kwargs w =
        with_borrowed_ptr name
          (λ attr w0.
            let (method, w1) = f.get_attr slf attr w0 in
            if method == 0
            then fetched (f.fetch w1)
            else (let (args, w2) = into_py w1 in
                let (kw, w3) = option_into_ptr kwargs w2 in
                let (ptr, w4) = f.call_object method args kw w3 in
                finally (λ w5. release_args args kw (c.decref method w5))
                  (pool_from_owned_ptr_or_err ptr w4)))
          w
