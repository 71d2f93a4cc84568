-- ===== src/Callback/Signals.antt =====
-- How a call ends for Python (src/callback.rs): its value and the error indicator.
use pyo.Base.{
  ◌≤◌, ◌≡◌, ◌≢◌, ◌↔◌, refl, sym, ap, ◌∙◌, arith, true, false, Bool-cases, inl, inr, Option, Result,
  ok, err, none,
}
use pyo.Callback.{
  pos, negsuc, CValue, Kind, object, unit_int, bool_int, length_ssize, hash_value, unit, ValueOf,
  err_value, PyErr, convert, convert_hash, text, other_payload, Ended, finished, unwound, caught,
  Caller, restored, callback_body,
}
use pyo.Gil.ThreadState.{State, Interpreter, IsLawful}
use pyo.Gil.{new_pool, drop_pool}
use pyo.Gil.Scopes.{Body, exec, in_pool, done, completes}
use pyo.Gil.Scopes.Pools.{IsReady}
use pyo.Gil.Scopes.Balance.{exec_restores}

abbrev pub HasAddress : (k : Kind) → ValueOf k → Type 0
HasAddress object p = 1 ≤ p
HasAddress k x = Unit

-- A value is returned with no exception set, and an object that is returned has an address.
abbrev pub IsFair : {T E : Type 0} (k : Kind) → Ended (ValueOf k) E × Caller T E → Type 0
IsFair k (finished (ok x), left) = HasAddress k x × (left.indicator ≡ none)
IsFair k (finished (err e), left) = Unit
IsFair k (unwound p, left) = Unit

convert-differs :
    {E : Type 0} (k : Kind) (x : ValueOf k) (v : CValue)
    → k ≢ unit
    → HasAddress k x
    → convert {E = E} k x ≡ ok v
    → v ≢ err_value k
unfolding convert convert_hash err_value
convert-differs object p v valued fair h e = ground arith
convert-differs unit_int u v valued fair h e = ground arith
convert-differs bool_int true v valued fair h e = ground arith
convert-differs bool_int false v valued fair h e = ground arith
convert-differs length_ssize n v valued fair h e = ground arith
convert-differs hash_value (pos n) v valued fair h e = ground arith
convert-differs hash_value (negsuc n) v valued fair h e = ground arith
convert-differs unit u v valued fair h e = valued refl

module _ {T E : Type 0} where
  -- A value comes from a body that is fair.
  caught-ok :
      (k : Kind) (ended : Ended (ValueOf k) E) (left : Caller T E) (v : CValue)
      → k ≢ unit
      → IsFair k (ended, left)
      → caught k ended ≡ ok v
      → (left.indicator ≡ none) × (v ≢ err_value k)
  unfolding caught
  caught-ok k (finished (ok x)) left v valued (address, clear) h =
      (clear, convert-differs k x v valued address h)
  caught-ok k (finished (err x)) left v valued fair h = absurd (ground (arith, h))
  caught-ok k (unwound (text m)) left v valued fair h = absurd (ground (arith, h))
  caught-ok k (unwound other_payload) left v valued fair h = absurd (ground (arith, h))

  restored_lem :
      (k : Kind) (r : Result CValue (PyErr E)) (s : Caller T E)
      → ((v : CValue) → r ≡ ok v → (s.indicator ≡ none) × (v ≢ err_value k))
      → ((restored k r s).0 ≡ err_value k) ↔ ((restored k r s).1.indicator ≢ none)
  unfolding restored
  restored_lem k (ok v) s fair =
      let (clear, differs) = fair v refl in
      (λ same. absurd (differs same), λ set. absurd (set clear))
  restored_lem k (err e) s fair = (λ same h. ground (arith, h), λ set. refl)

  -- For a function whose kind of result has an error value, which `()` has not: when Python calls it,
  -- an exception is set afterwards exactly if the value returned is this error value, whether the
  -- body returns, raises, panics, or returns what cannot be converted, and whatever exception was set
  -- before or is set when the body raises or panics. The condition is that a body that returns a value
  -- leaves no exception set, and that an object it returns has an address other than null.
  pub callback_body_lem :
      (k : Kind) (body : Caller T E → Ended (ValueOf k) E × Caller T E) (s : Caller T E)
      → k ≢ unit
      → IsFair k (body (record s { gil = (new_pool s.gil).1 }))
      → ((callback_body k body s).0 ≡ err_value k) ↔ ((callback_body k body s).1.indicator ≢ none)
  unfolding callback_body
  callback_body_lem k body s valued fair =
      let (ended, left) = body (record s { gil = (new_pool s.gil).1 }) in
      restored_lem k (caught k ended) left (λ v h. caught-ok k ended left v valued fair h)

  gil-restored :
      (k : Kind) (r : Result CValue (PyErr E)) (s : Caller T E) → (restored k r s).1.gil ≡ s.gil
  unfolding restored
  gil-restored k (ok v) s = refl
  gil-restored k (err e) s = refl

module _ {T H : Type 0} (i : Interpreter T H) where
  exec-in_pool :
      (code : Body) (s : State T)
      → exec i (in_pool code done) s ≡ drop_pool (new_pool s).0 (exec i code (new_pool s).1)
  unfolding exec
  exec-in_pool code s = elim (Bool-cases (completes code)) [
    | inl ends ↦ rw (exec, ends) refl
    | inr panics ↦ rw (exec, panics) refl
  ]

module _ {T H E : Type 0} (i : Interpreter T H) where
  -- A body that runs the code, leaves this indicator and ends in this way.
  abbrev runs :
      {A : Type 0} → Ended A E → Option (PyErr E) → Body → Caller T E → Ended A E × Caller T E
  runs ended left code s = (ended, record { gil = exec i code s.gil; indicator = left })

  -- A call is its body in a pool.
  gil-callback_body :
      (k : Kind) (ended : Ended (ValueOf k) E) (left : Option (PyErr E)) (code : Body)
      (s : Caller T E)
      → (callback_body k (runs ended left code) s).1.gil ≡ exec i (in_pool code done) s.gil
  unfolding callback_body
  gil-callback_body k ended left code s =
      ap (drop_pool (new_pool s.gil).0) (
        gil-restored k (caught k ended)
          (record { gil = exec i code (new_pool s.gil).1; indicator = left }))
      ∙ sym (exec-in_pool i code s.gil)

module _ {T H E : Type 0} (i : Interpreter T H) (lawful : IsLawful i) where
  -- On a thread where Python is set up, a call of a function whose body takes and gives up
  -- references, guards and pools in any way leaves the lock and the count of guards as they were,
  -- however the body ends.
  pub callback_body-restores :
      (k : Kind) (ended : Ended (ValueOf k) E) (left : Option (PyErr E)) (code : Body)
      (s : Caller T E)
      → IsReady s.gil
      → ((callback_body k (runs i ended left code) s).1.gil.thread ≡ s.gil.thread)
        × ((callback_body k (runs i ended left code) s).1.gil.gil_count ≡ s.gil.gil_count)
  callback_body-restores k ended left code s ready =
      let (thread, count) = exec_restores i lawful (in_pool code done) s.gil ready in
      let same = gil-callback_body i k ended left code s in
      (ap (λ t. t.thread) same ∙ thread, ap (λ t. t.gil_count) same ∙ count)
