-- ===== src/Errors/Clones.antt =====
-- `PyErr::clone_ref` of src/err.rs and reference counts.
use pyo.Base.{ℕ, ◌+◌, ◌≡◌, refl, arith, Bool, true, false, ◌==◌, Option, none, some}
use pyo.Errors.{
  Python, PyErrValue, no_value, value, to_args, to_object, PyErr, clone_ref, clone_value,
  clone_traceback,
}

abbrev pub one_if : Bool → ℕ
one_if true = 1
one_if false = 0

-- References to q that an error owns.
abbrev pub held_value : {W : Type 0} → PyErrValue W → ℕ → ℕ
held_value (value p) q = one_if (p == q)
held_value v q = 0

abbrev pub held_traceback : Option ℕ → ℕ → ℕ
held_traceback none q = 0
held_traceback (some p) q = one_if (p == q)

abbrev pub held : {W : Type 0} → PyErr W → ℕ → ℕ
held e q = one_if (e.ptype == q) + (held_value e.pvalue q + held_traceback e.ptraceback q)

abbrev pub IsEager : {W : Type 0} → PyErrValue W → Type 0
IsEager no_value = Unit
IsEager (value p) = Unit
IsEager v = ⊥

-- An object's count in a state of the interpreter.
pub record Counts {W : Type 0} (python : Python W) : Type 0 where
  pub refs : ℕ → W → ℕ
  pub refs_incref : (p q : ℕ) (w : W) → refs q (python.incref p w) ≡ refs q w + one_if (p == q)

module _ {W : Type 0} (python : Python W) (counts : Counts python) where
  clone_value-refs :
      (v : PyErrValue W) (w : W) (q : ℕ)
      → IsEager v
      → (clone_value python v w).0 ≡ v
        × (counts.refs q (clone_value python v w).1 ≡ counts.refs q w + held_value v q)
  unfolding clone_value
  clone_value-refs no_value w q h = (refl, omega arith)
  clone_value-refs (value p) w q h = (refl, counts.refs_incref p q w)
  clone_value-refs (to_args a) w q h = absurd h
  clone_value-refs (to_object a) w q h = absurd h

  clone_traceback-refs :
      (t : Option ℕ) (w : W) (q : ℕ)
      → counts.refs q (clone_traceback python t w) ≡ counts.refs q w + held_traceback t q
  unfolding clone_traceback
  clone_traceback-refs none w q = omega arith
  clone_traceback-refs (some t) w q = counts.refs_incref t q w

  -- The clone of an error that holds no lazy value is the same error, and each object's count has
  -- grown by the references that the clone owns.
  pub clone_ref-refs :
      (e : PyErr W) (w : W)
      → IsEager e.pvalue
      → ((clone_ref python e w).0 ≡ e)
        × ((q : ℕ)
            → counts.refs q (clone_ref python e w).1
              ≡ counts.refs q w + held (clone_ref python e w).0 q)
  unfolding clone_ref
  clone_ref-refs e w h = (
    rw ((clone_value-refs e.pvalue w 0 h).0) refl,
    λ q.
        rw (counts.refs_incref, clone_traceback-refs)
          (ground (arith, clone_value-refs e.pvalue w q h)),
  )
