-- ===== src/Gil/Scopes/Pools.antt =====
-- What a pool, a guard and a suspension of src/gil.rs leave behind.
use pyo.Base.{
  ℕ, ◌+◌, ◌%◌, ◌^◌, ◌<◌, ◌≡◌, refl, ap, sym, ◌∙◌, true, false, List, [], ◌∷◌, ◌++◌, arith, none,
  some, length, usize_mod, length-append, take-append_left, drop-append_left, u32_sub,
}
use mathlib.Core.List.{append-nil, append_assoc}
use pyo.Refcount.{incref_all, decref_all, count, count-append, refcnt-incref_all, refcnt-decref_all}
use pyo.Gil.ThreadState.{Interpreter, State}
use pyo.Gil.{
  gil_is_acquired, decrement_gil_count, new_pool, release_owned, truncate_anys, drop_pool, acquire,
}

module _ {T : Type 0} where
  -- A thread on which `prepare_freethreaded_python` has run.
  pub record IsReady (s : State T) : Type 0 where
    pub started : s.started ≡ true
    pub bounded : s.gil_count < 2 ^ 32

  -- From `s` to `t`, the lock and the count are as before, `objects` and `anys` came to be owned,
  -- and `gain` references to `o` were taken and `loss` given up.
  pub record Changes (o gain loss : ℕ) (objects anys : List ℕ) (s t : State T) : Type 0 where
    pub thread : t.thread ≡ s.thread
    pub started : t.started ≡ true
    pub gil_count : t.gil_count ≡ s.gil_count
    pub owned_objects : t.owned_objects ≡ s.owned_objects ++ objects
    pub owned_anys : t.owned_anys ≡ s.owned_anys ++ anys
    pub balance :
        (t.refcnt o
            + count o t.pointers_to_incref
            + count o s.pointers_to_decref
            + count o s.owned_objects
            + loss)
          % usize_mod
        ≡ (s.refcnt o
            + count o s.pointers_to_incref
            + count o t.pointers_to_decref
            + count o t.owned_objects
            + gain)
          % usize_mod

  -- The end of the vector beyond `xs` is given up, whether or not there is one.
  release_owned_lem :
      (xs ys : List ℕ) (u : State T)
      → u.owned_objects ≡ xs ++ ys
      → release_owned (length xs) u ≡ record u { owned_objects = xs; heap = decref_all ys u.heap }
  unfolding release_owned decref_all
  release_owned_lem xs [] u e = ground (arith, append-nil xs)
  release_owned_lem xs (y ∷ ys) u e =
      ground (
        arith,
        length-append xs (y ∷ ys),
        take-append_left xs (y ∷ ys),
        drop-append_left xs (y ∷ ys),
      )

  drop_pool_lem :
      (xs ys vs ws : List ℕ) (u : State T)
      → u.owned_objects ≡ xs ++ ys
      → u.owned_anys ≡ vs ++ ws
      → drop_pool (record { owned_objects_start = length xs; owned_anys_start = length vs }) u
        ≡ record u {
          owned_objects = xs;
          owned_anys = vs;
          heap = decref_all ys u.heap;
          gil_count = u32_sub u.gil_count 1;
        }
  unfolding drop_pool truncate_anys decrement_gil_count
  drop_pool_lem xs ys vs ws u e f = rw (release_owned_lem xs ys u e, f, take-append_left vs ws) refl

  pub new_pool-IsReady : {s : State T} → IsReady s → IsReady (new_pool s).1
  unfolding new_pool
  new_pool-IsReady h = record { started = h.started; bounded = omega arith }

  -- A pool gives back exactly what came to be owned since it was made.
  pub pool_scope :
      (o g l : ℕ) (objects anys : List ℕ) (s u : State T)
      → IsReady s
      → Changes o g l objects anys (new_pool s).1 u
      → Changes o g l [] [] s (drop_pool (new_pool s).0 u)
  unfolding new_pool
  pool_scope o g l objects anys s u r c =
      rw (drop_pool_lem s.owned_objects objects s.owned_anys anys u c.owned_objects c.owned_anys)
        (record {
          thread = c.thread;
          started = c.started;
          gil_count = ground arith;
          owned_objects = sym (append-nil s.owned_objects);
          owned_anys = sym (append-nil s.owned_anys);
          balance = omega (
            arith,
            refcnt-decref_all o objects u.heap,
            refcnt-decref_all o s.pointers_to_decref (incref_all s.pointers_to_incref s.heap),
            refcnt-incref_all o s.pointers_to_incref s.heap,
            ap (count o) c.owned_objects,
            count-append o s.owned_objects objects,
          );
        })

  -- One stretch after another.
  pub Changes-trans :
      (o g l g' l' : ℕ) (xs ys vs ws : List ℕ) {s t u : State T}
      → Changes o g l xs vs s t
      → Changes o g' l' ys ws t u
      → Changes o (g + g') (l + l') (xs ++ ys) (vs ++ ws) s u
  Changes-trans o g l g' l' xs ys vs ws {s} c d = record {
    thread = d.thread ∙ c.thread;
    started = d.started;
    gil_count = d.gil_count ∙ c.gil_count;
    owned_objects =
        d.owned_objects ∙ ap (λ zs. zs ++ ys) c.owned_objects ∙ append_assoc s.owned_objects xs ys;
    owned_anys = d.owned_anys ∙ ap (λ zs. zs ++ ws) c.owned_anys ∙ append_assoc s.owned_anys vs ws;
    balance = omega (arith, c.balance, d.balance);
  }

module _ {T H : Type 0} (i : Interpreter T H) where
  abbrev pub ensured : State T → State T
  ensured s = record s { thread = (i.ensure s.thread).1 }

  pub acquire_inner :
      (s : State T)
      → s.started ≡ true
      → gil_is_acquired s ≡ true
      → acquire i s ≡ (record { gstate = (i.ensure s.thread).0; pool = none }, ensured s)
  unfolding acquire
  acquire_inner s r h = rw (r, acquire) (rw (h, acquire) refl)

  pub acquire_outer :
      (s : State T)
      → s.started ≡ true
      → gil_is_acquired s ≡ false
      → acquire i s ≡ (
        record { gstate = (i.ensure s.thread).0; pool = some (new_pool (ensured s)).0 },
        (new_pool (ensured s)).1,
      )
  unfolding acquire
  acquire_outer s r h = rw (r, acquire) (rw (h, acquire) refl)
