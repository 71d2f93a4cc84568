-- ===== src/Gil.antt =====
-- src/gil.rs and `allow_threads` of src/python.rs: the count of pools, the objects that a pool
-- owns, and the reference counts put off while the lock is not held. The build is the release
-- build, so `debug_assert!` is not there, for Python 3.7 and later.
pub mod ThreadState
pub mod Updates
pub mod Scopes
mod Examples
use pyo.Base.{
  ℕ, suc, ◌≡◌, Bool, true, false, if◌then◌else◌, ltb, Option, none, some, List, [], ◌∷◌, ◌++◌,
  length, take, drop, u32_add, u32_sub,
}
use pyo.Refcount.{Heap, incref, decref, incref_all, decref_all}
use ThreadState.{Interpreter, State, GilPool, GilGuard}

module _ {T : Type 0} where
  abbrev pub gil_is_acquired : State T → Bool
  gil_is_acquired s = ltb 0 s.gil_count

  unfoldable pub increment_gil_count : State T → State T
  increment_gil_count s = record s { gil_count = u32_add s.gil_count 1 }

  unfoldable pub decrement_gil_count : State T → State T
  decrement_gil_count s = record s { gil_count = u32_sub s.gil_count 1 }

  -- The two halves of `update_counts`; each takes its vector under its lock, then works it off.
  unfoldable pub apply_increfs : State T → State T
  apply_increfs s = record s {
    pointers_to_incref = [];
    heap = incref_all s.pointers_to_incref s.heap;
  }

  unfoldable pub apply_decrefs : State T → State T
  apply_decrefs s = record s {
    pointers_to_decref = [];
    heap = decref_all s.pointers_to_decref s.heap;
  }

  unfoldable pub update_counts : State T → State T
  unfolding apply_increfs apply_decrefs
  update_counts s = apply_decrefs (apply_increfs s)

  unfoldable pub new_pool : State T → GilPool × State T
  unfolding increment_gil_count update_counts
  new_pool s =
      let s' = update_counts (increment_gil_count s) in
      (
        record {
          owned_objects_start = length s'.owned_objects;
          owned_anys_start = length s'.owned_anys;
        },
        s',
      )

  release_owned : ℕ → State T → State T
  release_owned start s =
      if ltb start (length s.owned_objects)
      then record s {
        owned_objects = take start s.owned_objects;
        heap = decref_all (drop start s.owned_objects) s.heap;
      }
      else s

  truncate_anys : ℕ → State T → State T
  truncate_anys start s = record s { owned_anys = take start s.owned_anys }

  unfoldable pub drop_pool : GilPool → State T → State T
  unfolding release_owned truncate_anys decrement_gil_count
  drop_pool p s =
      decrement_gil_count (truncate_anys p.owned_anys_start (release_owned p.owned_objects_start s))

  unfoldable pub register_incref : ℕ → State T → State T
  register_incref o s =
      if gil_is_acquired s
      then record s { heap = incref o s.heap }
      else record s { pointers_to_incref = s.pointers_to_incref ++ o ∷ [] }

  unfoldable pub register_decref : ℕ → State T → State T
  register_decref o s =
      if gil_is_acquired s
      then record s { heap = decref o s.heap }
      else record s { pointers_to_decref = s.pointers_to_decref ++ o ∷ [] }

  unfoldable pub register_owned : ℕ → State T → State T
  register_owned o s = record s { owned_objects = s.owned_objects ++ o ∷ [] }

  unfoldable pub register_any : ℕ → State T → State T
  register_any a s = record s { owned_anys = s.owned_anys ++ a ∷ [] }

module _ {T H : Type 0} (i : Interpreter T H) where
  -- After `Py_InitializeEx` the thread has the lock, and gives it up at once.
  unfoldable pub prepare_freethreaded_python : State T → State T
  prepare_freethreaded_python s =
      if s.started
      then s
      else if i.is_initialized s.thread
      then record s { started = true }
      else record s { started = true; thread = (i.save (i.initialize s.thread)).1 }

  acquire_pool : H → State T → GilGuard H × State T
  unfolding new_pool
  acquire_pool gstate s =
      if gil_is_acquired s
      then (record { gstate = gstate; pool = none }, s)
      else (record { gstate = gstate; pool = some (new_pool s).0 }, (new_pool s).1)

  unfoldable pub acquire : State T → GilGuard H × State T
  unfolding prepare_freethreaded_python acquire_pool
  acquire s =
      let s' = prepare_freethreaded_python s in
      let (gstate, thread) = i.ensure s'.thread in
      acquire_pool gstate (record s' { thread = thread })

  drop_inner_pool : Option GilPool → State T → State T
  unfolding drop_pool
  drop_inner_pool none s = s
  drop_inner_pool (some p) s = drop_pool p s

  -- The pool is dropped before the lock is released.
  unfoldable pub drop_guard : GilGuard H → State T → State T
  unfolding drop_inner_pool
  drop_guard g s =
      let s' = drop_inner_pool g.pool s in record s' { thread = i.release g.gstate s'.thread }

  unfoldable pub ensure_gil : State T → Option (GilGuard H) × State T
  unfolding acquire
  ensure_gil s = if gil_is_acquired s then (none, s) else (some (acquire s).0, (acquire s).1)

  unfoldable pub drop_ensured : Option (GilGuard H) → State T → State T
  unfolding drop_guard
  drop_ensured none s = s
  drop_ensured (some g) s = drop_guard g s

  -- What `allow_threads` does before and after the closure, which runs inside `catch_unwind`.
  unfoldable pub suspend : State T → (ℕ × H) × State T
  suspend s =
      let (saved, thread) = i.save s.thread in
      ((s.gil_count, saved), record s { gil_count = 0; thread = thread })

  unfoldable pub resume : ℕ × H → State T → State T
  resume (count, saved) s = record s { thread = i.restore saved s.thread; gil_count = count }
