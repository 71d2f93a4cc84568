-- ===== src/Handles/Compare.antt =====
-- `PyAny::compare` of src/types/any.rs. `TypeError::py_err` is a parameter.
use pyo.Base.{
  ℕ, ◌+◌, ◌≡◌, refl, arith, Bool, true, false, ◌==◌, Bool-cases, Option-cases, inl, inr, Outcome,
  ret, panic, Result, ok, err,
}
use pyo.Refcount.{one}
use pyo.Handles.{
  Counting, SameWord, IsCounted, Functions, from_owned_ptr_or_err, is_true, with_borrowed_ptr,
  xdecref, fetched,
}
use pyo.Handles.Leaves.{
  owned, IsFair, IsNew, result_refs, Leaves, Leaves-result, Leaves-finally, Leaves-fetched,
}
use pyo.Handles.Calls.{owed-xdecref}

pub data Ordering : Type 0 where
  less equal greater : Ordering

-- `Py_LT`, `Py_EQ` and `Py_GT`.
abbrev py_lt : ℕ
py_lt = 0

abbrev py_eq : ℕ
py_eq = 2

abbrev py_gt : ℕ
py_gt = 4

module _ {W E : Type 0} (c : Counting W) (f : Functions W E) (type_error : W → E × W) where
  -- The object is dropped after `is_true`.
  tested : Outcome (Result ℕ E) × W → Outcome (Result Bool E) × W
  unfolding is_true
  tested (ret (ok obj), w) = ((is_true c f obj w).0, c.register_decref obj (is_true c f obj w).1)
  tested (ret (err e), w) = (ret (err e), w)
  tested (panic m, w) = (panic m, w)

  do_compare : (slf other op : ℕ) → W → Outcome (Result Bool E) × W
  unfolding tested from_owned_ptr_or_err
  do_compare slf other op w =
      let (ptr, w1) = f.rich_compare slf other op w in tested (from_owned_ptr_or_err c f ptr w1)

  -- `if …? { … } else …`.
  chosen :
      Outcome (Result Bool E) × W
      → Ordering
      → (W → Outcome (Result Ordering E) × W)
      → Outcome (Result Ordering E) × W
  chosen (ret (ok true), w) order rest = (ret (ok order), w)
  chosen (ret (ok false), w) order rest = rest w
  chosen (ret (err e), w) order rest = (ret (err e), w)
  chosen (panic m, w) order rest = (panic m, w)

  unfoldable pub compare : ℕ → (W → ℕ × W) → W → Outcome (Result Ordering E) × W
  unfolding do_compare chosen with_borrowed_ptr
  compare slf other w =
      with_borrowed_ptr c f other
        (λ other w1. chosen (do_compare slf other py_eq w1) equal (λ w2.
          chosen (do_compare slf other py_lt w2) less (λ w3.
            chosen (do_compare slf other py_gt w3) greater
              (λ w4. (ret (err (type_error w4).0), (type_error w4).1)))))
        w

  module _ (owed : ℕ → W → ℕ) (error_refs : ℕ → E → ℕ) (counted : IsCounted c owed)
      (fair : IsFair f owed error_refs) (o : ℕ) where
    abbrev no_refs : {A : Type 0} → A → ℕ
    no_refs a = 0

    Leaves-is_true :
        (obj base : ℕ) (w : W)
        → SameWord (owed o w) base
        → Leaves owed error_refs o no_refs base (is_true c f obj w)
    unfolding is_true
    Leaves-is_true obj base w b =
        let still = fair.owed-object_is_true o obj w in
        elim (Option-cases (f.object_is_true obj w).0) [
          | inl h ↦
              rw (h, is_true)
                (Leaves-fetched owed error_refs o no_refs c f base _ fair (omega (arith, b, still)))
          | inr (v, h) ↦
              rw (h, is_true)
                (Leaves-result owed error_refs o no_refs base (ok v) _ (omega (arith, b, still)))
        ]

    tested-fetched : (q : Outcome E × W) → tested (fetched c f q) ≡ fetched c f q
    unfolding tested fetched
    tested-fetched (ret e, w) = refl
    tested-fetched (panic m, w) = refl

    Leaves-dropped :
        (obj base : ℕ) (q : Outcome (Result Bool E) × W)
        → Leaves owed error_refs o no_refs (base + one o obj) q
        → Leaves owed error_refs o no_refs base (q.0, c.register_decref obj q.1)
    Leaves-dropped obj base q l r h = omega (arith, l r h, counted.owed-register_decref o obj q.1)

    Leaves-do_compare :
        (slf other op : ℕ) (base : ℕ) (w : W)
        → SameWord (owed o w) base
        → Leaves owed error_refs o no_refs base (do_compare slf other op w)
    unfolding do_compare from_owned_ptr_or_err tested
    Leaves-do_compare slf other op base w b =
        let (ptr, w1) = f.rich_compare slf other op w in
        let made = fair.owed-rich_compare o slf other op w in
        elim (Bool-cases (ptr == 0)) [
          | inl null ↦
              rw (null, tested-fetched (f.fetch w1))
                (Leaves-fetched owed error_refs o no_refs c f base w1 fair
                  (ground (arith, b, made, null)))
          | inr object ↦ rw object (
              Leaves-dropped ptr base (is_true c f ptr w1)
                (Leaves-is_true ptr (base + one o ptr) w1 (ground (arith, b, made, object))))
        ]

    Leaves-chosen :
        (base : ℕ) (q : Outcome (Result Bool E) × W) (order : Ordering)
        (rest : W → Outcome (Result Ordering E) × W)
        → Leaves owed error_refs o no_refs base q
        → ((w : W) → SameWord (owed o w) base → Leaves owed error_refs o no_refs base (rest w))
        → Leaves owed error_refs o no_refs base (chosen q order rest)
    unfolding chosen
    Leaves-chosen base (ret (ok true), w) order rest l k =
        Leaves-result owed error_refs o no_refs base (ok order) w (l (ok true) refl)
    Leaves-chosen base (ret (ok false), w) order rest l k = k w (omega (arith, l (ok false) refl))
    Leaves-chosen base (ret (err e), w) order rest l k =
        Leaves-result owed error_refs o no_refs base (err e) w (l (err e) refl)
    Leaves-chosen base (panic m, w) order rest l k = λ r h. absurd (ground (arith, h))

    -- If `compare` returns, the results of its comparisons and the other object are released: the
    -- references that are left are the ones before it and those of its error.
    pub compare-owed :
        (slf : ℕ) (other : W → ℕ × W) (w : W) (r : Result Ordering E)
        → IsNew owed other
        → ((v : W) → SameWord (owed o (type_error v).1) (owed o v + error_refs o (type_error v).0))
        → (compare slf other w).0 ≡ ret r
        → SameWord (owed o (compare slf other w).1) (owed o w + result_refs no_refs error_refs o r)
    unfolding compare with_borrowed_ptr
    compare-owed slf other w r new raised h =
        let (ptr, v) = other w in
        let base = owed o w + owned o ptr in
        Leaves-finally owed error_refs o no_refs c f (xdecref c ptr) (owned o ptr) (owed o w) _
          (owed-xdecref c f owed error_refs counted o ptr)
          (Leaves-chosen base (do_compare slf ptr py_eq v) equal _
            (Leaves-do_compare slf ptr py_eq base v (new o w))
            (λ w2 b2.
              Leaves-chosen base (do_compare slf ptr py_lt w2) less _
                (Leaves-do_compare slf ptr py_lt base w2 b2)
                (λ w3 b3.
                  Leaves-chosen base (do_compare slf ptr py_gt w3) greater _
                    (Leaves-do_compare slf ptr py_gt base w3 b3)
                    (λ w4 b4.
                      Leaves-result owed error_refs o no_refs base (err (type_error w4).0) _
                        (omega (arith, b4, raised w4))))))
          r h
