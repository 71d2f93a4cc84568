-- ===== src/Gil/ThreadState.antt =====
-- The state behind src/gil.rs as one thread sees it, and what it asks of CPython.
use pyo.Base.{ℕ, ◌≡◌, Bool, Option, List}
use pyo.Refcount.{Heap}

-- The calls of the C API that move the global lock. `T` is the interpreter as the thread finds it,
-- `H` the handle that a call hands out and its counterpart takes back.
pub record Interpreter (T H : Type 0) : Type 0 where
  -- `Py_IsInitialized`.
  pub is_initialized : T → Bool
  -- `Py_InitializeEx(0)` with `atexit(finalize)`, by a thread that then has the lock.
  pub initialize : T → T
  -- `PyGILState_Ensure` and `PyGILState_Release`.
  pub ensure : T → H × T
  pub release : H → T → T
  -- `PyEval_SaveThread` and `PyEval_RestoreThread`.
  pub save : T → H × T
  pub restore : H → T → T

-- What the C API documents: each call is undone by its counterpart.
pub record IsLawful {T H : Type 0} (i : Interpreter T H) : Type 0 where
  pub release-ensure : (t : T) → i.release (i.ensure t).0 (i.ensure t).1 ≡ t
  pub restore-save : (t : T) → i.restore (i.save t).0 (i.save t).1 ≡ t

-- `START`, the three thread-locals, and `POOL`; an element of `OWNED_ANYS` is named by a number.
-- A vector lists its elements in the order in which they were pushed.
pub record State (T : Type 0) : Type 0 where
  pub thread : T
  pub started : Bool
  pub gil_count : ℕ
  pub owned_objects : List ℕ
  pub owned_anys : List ℕ
  pub pointers_to_incref : List ℕ
  pub pointers_to_decref : List ℕ
  pub heap : Heap
  pub open heap use *

pub record GilPool : Type 0 where
  pub owned_objects_start : ℕ
  pub owned_anys_start : ℕ

pub record GilGuard (H : Type 0) : Type 0 where
  pub gstate : H
  pub pool : Option GilPool
