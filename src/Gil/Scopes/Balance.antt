-- ===== src/Gil/Scopes/Balance.antt =====
-- Any code under the guards and pools of src/gil.rs: the thread's state and the references after it.
use pyo.Base.{
  ℕ, ◌+◌, ◌%◌, ◌≡◌, refl, ap, ◌∙◌, Bool, true, false, List, [], ◌∷◌, ◌++◌, arith, usize_mod,
}
use mathlib.Core.List.{append-nil}
use native.Mathlib.Nat.{add-zero}
use pyo.Refcount.{one, incref, decref, count, count-append}
use pyo.Gil.ThreadState.{Interpreter, IsLawful, State}
use pyo.Gil.{
  gil_is_acquired, register_incref, register_decref, register_owned, register_any, new_pool,
  drop_pool, acquire, drop_guard, ensure_gil, drop_ensured, suspend, resume,
}
use pyo.Gil.Scopes.{
  Body, done, panics, increfs, decrefs, owns, owns_any, in_pool, in_guard, ensuring, allowing,
  completes, exec, with_guard, gains, losses,
}
use pyo.Gil.Scopes.Pools.{IsReady, Changes, Changes-trans, new_pool-IsReady, pool_scope}
use pyo.Gil.Scopes.Guards.{
  kept, acquire-IsReady, ensure_gil-IsReady, suspend-IsReady, guard_scope, ensure_scope,
  suspend_scope,
}

module _ {T : Type 0} (o : ℕ) where
  -- Some objects came to be owned.
  abbrev pub SomeChanges : (gain loss : ℕ) → State T → State T → Type 0
  SomeChanges g l s t = (objects : List ℕ) × (anys : List ℕ) × Changes o g l objects anys s t

  nothing : (s : State T) → IsReady s → Changes o 0 0 [] [] s s
  nothing s r = record {
    thread = refl;
    started = r.started;
    gil_count = refl;
    owned_objects = ground (arith, append-nil s.owned_objects);
    owned_anys = ground (arith, append-nil s.owned_anys);
    balance = omega arith;
  }

  register_incref-Changes :
      (x : ℕ) (s : State T) → IsReady s → Changes o (one o x) 0 [] [] s (register_incref x s)
  unfolding register_incref incref
  register_incref-Changes x s r = record {
    thread = ground arith;
    started = ground (arith, r.started);
    gil_count = ground arith;
    owned_objects = ground (arith, append-nil s.owned_objects);
    owned_anys = ground (arith, append-nil s.owned_anys);
    balance = ground (arith, count-append o s.pointers_to_incref (x ∷ []));
  }

  register_decref-Changes :
      (x : ℕ) (s : State T) → IsReady s → Changes o 0 (one o x) [] [] s (register_decref x s)
  unfolding register_decref decref
  register_decref-Changes x s r = record {
    thread = ground arith;
    started = ground (arith, r.started);
    gil_count = ground arith;
    owned_objects = ground (arith, append-nil s.owned_objects);
    owned_anys = ground (arith, append-nil s.owned_anys);
    balance = ground (arith, count-append o s.pointers_to_decref (x ∷ []));
  }

  register_owned-Changes :
      (x : ℕ) (s : State T) → IsReady s → Changes o 0 (one o x) (x ∷ []) [] s (register_owned x s)
  unfolding register_owned
  register_owned-Changes x s r = record {
    thread = refl;
    started = r.started;
    gil_count = refl;
    owned_objects = refl;
    owned_anys = ground (arith, append-nil s.owned_anys);
    balance = ground (arith, count-append o s.owned_objects (x ∷ []));
  }

  register_any-Changes :
      (x : ℕ) (s : State T) → IsReady s → Changes o 0 0 [] (x ∷ []) s (register_any x s)
  unfolding register_any
  register_any-Changes x s r = record {
    thread = refl;
    started = r.started;
    gil_count = refl;
    owned_objects = ground (arith, append-nil s.owned_objects);
    owned_anys = refl;
    balance = omega arith;
  }

  IsReady-after :
      {g l : ℕ} {xs vs : List ℕ} {s t : State T} → IsReady s → Changes o g l xs vs s t → IsReady t
  IsReady-after r c = record {
    started = c.started;
    bounded = ground (arith, c.gil_count, r.bounded);
  }

  -- What follows a scope, or a call, runs if that did not panic.
  then_rest :
      (finished : Bool) (g l g' l' : ℕ) (xs vs : List ℕ) (s t : State T) (rest : State T → State T)
      → IsReady s
      → Changes o g l xs vs s t
      → (IsReady t → SomeChanges g' l' t (rest t))
      → SomeChanges
          (g + elim finished [ true ↦ g' | false ↦ 0 ])
          (l + elim finished [ true ↦ l' | false ↦ 0 ])
          s
          (elim finished [ true ↦ rest t | false ↦ t ])
  then_rest true g l g' l' xs vs s t rest r c next =
      let (ys, ws, d) = next (IsReady-after r c) in
      (xs ++ ys, vs ++ ws, Changes-trans o g l g' l' xs ys vs ws c d)
  then_rest false g l g' l' xs vs s t rest r c next = (xs, vs, rw (add-zero g, add-zero l) c)

  then_next :
      (g l g' l' gain loss : ℕ) (xs vs : List ℕ) (s t : State T) (rest : State T → State T)
      → gain ≡ g + g'
      → loss ≡ l + l'
      → IsReady s
      → Changes o g l xs vs s t
      → (IsReady t → SomeChanges g' l' t (rest t))
      → SomeChanges gain loss s (rest t)
  then_next g l g' l' gain loss xs vs s t rest eg el r c next =
      rw (eg, el) (then_rest true g l g' l' xs vs s t rest r c next)

module _ {T H : Type 0} (i : Interpreter T H) (lawful : IsLawful i) (o : ℕ) where
  exec-SomeChanges :
      (b : Body) (s : State T) → IsReady s → SomeChanges o (gains o b) (losses o b) s (exec i b s)
  unfolding exec gains losses
  exec-SomeChanges done s r = ([], [], nothing o s r)
  exec-SomeChanges panics s r = ([], [], nothing o s r)
  exec-SomeChanges (increfs x k) s r =
      then_next o (one o x) 0 (gains o k) (losses o k) _ _ [] [] s _ (exec i k) (omega arith)
        (omega arith) r (register_incref-Changes o x s r) (exec-SomeChanges k (register_incref x s))
  exec-SomeChanges (decrefs x k) s r =
      then_next o 0 (one o x) (gains o k) (losses o k) _ _ [] [] s _ (exec i k) (omega arith)
        (omega arith) r (register_decref-Changes o x s r) (exec-SomeChanges k (register_decref x s))
  exec-SomeChanges (owns x k) s r =
      then_next o 0 (one o x) (gains o k) (losses o k) _ _ (x ∷ []) [] s _ (exec i k) (omega arith)
        (omega arith) r (register_owned-Changes o x s r) (exec-SomeChanges k (register_owned x s))
  exec-SomeChanges (owns_any x k) s r =
      then_next o 0 0 (gains o k) (losses o k) _ _ [] (x ∷ []) s _ (exec i k) (omega arith)
        (omega arith) r (register_any-Changes o x s r) (exec-SomeChanges k (register_any x s))
  exec-SomeChanges (in_pool b k) s r =
      let (xs, vs, c) = exec-SomeChanges b (new_pool s).1 (new_pool-IsReady r) in
      then_rest o (completes b) _ _ _ _ [] [] s _ (exec i k) r
        (pool_scope o (gains o b) (losses o b) xs vs s _ r c)
        (exec-SomeChanges k (drop_pool (new_pool s).0 (exec i b (new_pool s).1)))
  exec-SomeChanges (in_guard b k) s r =
      let (xs, vs, c) = exec-SomeChanges b (acquire i s).1 (acquire-IsReady i s r) in
      then_rest o (completes b) _ _ _ _ (kept s xs) (kept s vs) s _ (exec i k) r
        (guard_scope i lawful o (gains o b) (losses o b) xs vs s _ r c)
        (exec-SomeChanges k (drop_guard i (acquire i s).0 (exec i b (acquire i s).1)))
  exec-SomeChanges (ensuring b k) s r =
      let (xs, vs, c) = exec-SomeChanges b (ensure_gil i s).1 (ensure_gil-IsReady i s r) in
      then_rest o (completes b) _ _ _ _ (kept s xs) (kept s vs) s _ (exec i k) r
        (ensure_scope i lawful o (gains o b) (losses o b) xs vs s _ r c)
        (exec-SomeChanges k (drop_ensured i (ensure_gil i s).0 (exec i b (ensure_gil i s).1)))
  exec-SomeChanges (allowing b k) s r =
      let (xs, vs, c) = exec-SomeChanges b (suspend i s).1 (suspend-IsReady i s r) in
      then_rest o (completes b) _ _ _ _ xs vs s _ (exec i k) r
        (suspend_scope i lawful o (gains o b) (losses o b) xs vs s _ r c)
        (exec-SomeChanges k (resume i (suspend i s).0 (exec i b (suspend i s).1)))

  -- After the outermost guard is dropped, the thread owns the objects and values that it did before,
  -- and for every object the references still counted or put off differ from those before by
  -- exactly what the code took and gave up, in the arithmetic of 64 bits. The code may panic.
  pub guard_balance :
      (b : Body) (s : State T)
      → IsReady s
      → gil_is_acquired s ≡ false
      → let t = with_guard i b s in
        (t.owned_objects ≡ s.owned_objects)
        × (t.owned_anys ≡ s.owned_anys)
        × ((t.refcnt o + count o t.pointers_to_incref + count o s.pointers_to_decref + losses o b)
              % usize_mod
            ≡ (s.refcnt o + count o s.pointers_to_incref + count o t.pointers_to_decref + gains o b)
              % usize_mod)
  guard_balance b s r free =
      let (xs, vs, c) = exec-SomeChanges b (acquire i s).1 (acquire-IsReady i s r) in
      let d : Changes o (gains o b) (losses o b) [] [] s (with_guard i b s) =
        rw free at (guard_scope i lawful o (gains o b) (losses o b) xs vs s _ r c) in
      let same : (with_guard i b s).owned_objects ≡ s.owned_objects =
        d.owned_objects ∙ append-nil s.owned_objects in
      (same, d.owned_anys ∙ append-nil s.owned_anys, omega (arith, d.balance, ap (count o) same))

module _ {T H : Type 0} (i : Interpreter T H) (lawful : IsLawful i) where
  -- On a thread where Python is set up, code under the guards, pools and suspensions, nested in any
  -- way, leaves the lock and the count as they were, whether it ends or panics.
  pub exec_restores :
      (b : Body) (s : State T)
      → IsReady s
      → ((exec i b s).thread ≡ s.thread) × ((exec i b s).gil_count ≡ s.gil_count)
  exec_restores b s r =
      let (xs, vs, c) = exec-SomeChanges i lawful 0 b s r in (c.thread, c.gil_count)
