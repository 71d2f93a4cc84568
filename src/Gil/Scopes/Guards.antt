-- ===== src/Gil/Scopes/Guards.antt =====
-- What a guard of src/gil.rs and a suspension by `allow_threads` leave behind.
use pyo.Base.{ℕ, refl, ap, ◌∙◌, inl, inr, Bool-cases, List, [], arith, if◌then◌else◌}
use pyo.Gil.ThreadState.{Interpreter, IsLawful, State}
use pyo.Gil.{gil_is_acquired, acquire, drop_guard, ensure_gil, drop_ensured, suspend, resume}
use pyo.Gil.Scopes.Pools.{
  IsReady, Changes, pool_scope, new_pool-IsReady, ensured, acquire_inner, acquire_outer,
}

-- `objects` where there was a pool before, since then the guard has none of its own.
abbrev pub kept : {T : Type 0} → State T → List ℕ → List ℕ
kept s objects = if gil_is_acquired s then objects else []

module _ {T H : Type 0} (i : Interpreter T H) where
  ensured-IsReady : {s : State T} → IsReady s → IsReady (ensured i s)
  ensured-IsReady r = record { started = r.started; bounded = r.bounded }

  pub acquire-IsReady : (s : State T) → IsReady s → IsReady (acquire i s).1
  acquire-IsReady s r = elim (Bool-cases (gil_is_acquired s)) [
    | inl inner ↦ rw (acquire_inner i s r.started inner) (ensured-IsReady r)
    | inr outer ↦
        rw (acquire_outer i s r.started outer)
          (new_pool-IsReady {s = ensured i s} (ensured-IsReady r))
  ]

  pub ensure_gil-IsReady : (s : State T) → IsReady s → IsReady (ensure_gil i s).1
  unfolding ensure_gil
  ensure_gil-IsReady s r = elim (Bool-cases (gil_is_acquired s)) [
    | inl inner ↦ rw (inner, ensure_gil) r
    | inr outer ↦ rw (outer, ensure_gil) (acquire-IsReady s r)
  ]

  pub suspend-IsReady : (s : State T) → IsReady s → IsReady (suspend i s).1
  unfolding suspend
  suspend-IsReady s r = record { started = r.started; bounded = omega arith }

  module _ (lawful : IsLawful i) where
    released :
        (o g l : ℕ) (xs vs : List ℕ) (s u : State T)
        → Changes o g l xs vs (ensured i s) u
        → Changes o g l xs vs s (record u { thread = i.release (i.ensure s.thread).0 u.thread })
    released o g l xs vs s u c = record {
      thread = ap (i.release (i.ensure s.thread).0) c.thread ∙ lawful.release-ensure s.thread;
      started = c.started;
      gil_count = c.gil_count;
      owned_objects = c.owned_objects;
      owned_anys = c.owned_anys;
      balance = c.balance;
    }

    module _ (o g l : ℕ) (xs vs : List ℕ) (s u : State T) (r : IsReady s) where
      pub guard_scope :
          Changes o g l xs vs (acquire i s).1 u
          → Changes o g l (kept s xs) (kept s vs) s (drop_guard i (acquire i s).0 u)
      unfolding drop_guard
      guard_scope c = elim (Bool-cases (gil_is_acquired s)) [
        | inl inner ↦
            rw (inner, acquire_inner i s r.started inner)
              (released o g l xs vs s u (rw (acquire_inner i s r.started inner) at c))
        | inr outer ↦
            rw (outer, acquire_outer i s r.started outer)
              (released o g l [] [] s _ (
                pool_scope o g l xs vs (ensured i s) u (ensured-IsReady r)
                  (rw (acquire_outer i s r.started outer) at c)))
      ]

      pub ensure_scope :
          Changes o g l xs vs (ensure_gil i s).1 u
          → Changes o g l (kept s xs) (kept s vs) s (drop_ensured i (ensure_gil i s).0 u)
      unfolding ensure_gil drop_ensured
      ensure_scope c = elim (Bool-cases (gil_is_acquired s)) [
        | inl inner ↦ rw (inner, ensure_gil) (rw (inner, ensure_gil) at c)
        | inr outer ↦
            rw (outer, ensure_gil) (rw outer at (guard_scope (rw (outer, ensure_gil) at c)))
      ]

      pub suspend_scope :
          Changes o g l xs vs (suspend i s).1 u → Changes o g l xs vs s (resume i (suspend i s).0 u)
      unfolding suspend resume
      suspend_scope c = record {
        thread = ap (i.restore (i.save s.thread).0) c.thread ∙ lawful.restore-save s.thread;
        started = c.started;
        gil_count = refl;
        owned_objects = c.owned_objects;
        owned_anys = c.owned_anys;
        balance = c.balance;
      }
