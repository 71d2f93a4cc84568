-- ===== src/Errors/Laws.antt =====
-- What CPython documents of the functions that src/err.rs calls, and well-formed errors.
use pyo.Base.{ℕ, ◌≡◌, ◌≢◌, Bool, true, false, some}
use pyo.Errors.{Triple, Exception, Python, PyErr}

abbrev pub no_error : Triple
no_error = record { ptype = 0; pvalue = 0; ptraceback = 0 }

module _ {W : Type 0} (python : Python W) where
  -- An instance of the class.
  abbrev pub IsNormalized : Triple → W → Type 0
  IsNormalized t w =
      (python.is_exception_instance t.pvalue w ≡ true)
      × (python.exception_class t.pvalue w ≡ t.ptype)

  pub record IsLawful : Type 0 where
    pub fetch_unset : (w : W) → python.err_occurred w ≡ 0 → python.err_fetch w ≡ (no_error, w)
    pub fetch_type : (w : W) → (python.err_fetch w).0.ptype ≡ python.err_occurred w
    pub fetch_clears : (w : W) → python.err_occurred (python.err_fetch w).1 ≡ 0
    pub fetch_restore :
        (t : Triple) (w : W)
        → t.ptype ≢ 0
        → python.err_occurred w ≡ 0
        → python.err_fetch (python.err_restore t w) ≡ (t, w)
    pub restore_fetch :
        (w : W)
        → python.err_occurred w ≢ 0
        → python.err_restore (python.err_fetch w).0 (python.err_fetch w).1 ≡ w
    pub print_clears : (b : Bool) (w : W) → python.err_occurred (python.err_print b w) ≡ 0
    pub normalize_instance :
        (t : Triple) (w : W)
        → t.ptype ≢ 0
        → IsNormalized (python.err_normalize t w).0 (python.err_normalize t w).1
    pub normalize_type : (t : Triple) (w : W) → t.ptype ≢ 0 → (python.err_normalize t w).0.ptype ≢ 0
    pub normalize_same : (t : Triple) (w : W) → IsNormalized t w → python.err_normalize t w ≡ (t, w)
    pub incref_occurred :
        (p : ℕ) (w : W) → python.err_occurred (python.incref p w) ≡ python.err_occurred w
    pub incref_instance :
        (p q : ℕ) (w : W)
        → python.is_exception_instance q (python.incref p w) ≡ python.is_exception_instance q w
    pub incref_class :
        (p q : ℕ) (w : W)
        → python.exception_class q (python.incref p w) ≡ python.exception_class q w
    pub null_instance : (w : W) → python.is_exception_instance 0 w ≡ false
    pub type_object_some : (e : Exception) → python.type_object e ≢ 0

-- The type and the traceback are not null, as the types of the fields say.
abbrev pub IsError : {W : Type 0} → PyErr W → Type 0
IsError e = (e.ptype ≢ 0) × (e.ptraceback ≢ some 0)
