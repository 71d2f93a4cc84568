-- ===== src/Gil/Scopes.antt =====
-- Code that runs under the guards and pools of src/gil.rs, nested at will, and that may panic.
pub mod Pools
mod Guards
pub mod Balance
use pyo.Base.{ℕ, zero, suc, ◌+◌, ◌≡◌, Bool, true, false, ◌&&◌, if◌then◌else◌, List, [], ◌∷◌, ◌==◌}
use pyo.Gil.ThreadState.{Interpreter, State, GilPool, GilGuard}
use pyo.Gil.{
  new_pool, drop_pool, register_incref, register_decref, register_owned, register_any, acquire,
  drop_guard, ensure_gil, drop_ensured, suspend, resume,
}

-- A piece of code as the sequence of its calls; the last argument is what follows. A scope holds
-- its pool, guard or suspension while the first body runs, also when that unwinds.
pub data Body : Type 0 where
  done : Body
  panics : Body
  increfs : ℕ → Body → Body
  decrefs : ℕ → Body → Body
  owns : ℕ → Body → Body
  owns_any : ℕ → Body → Body
  in_pool : Body → Body → Body
  in_guard : Body → Body → Body
  ensuring : Body → Body → Body
  allowing : Body → Body → Body

-- Whether it ends without a panic.
unfoldable pub completes : Body → Bool
completes done = true
completes panics = false
completes (increfs o k) = completes k
completes (decrefs o k) = completes k
completes (owns o k) = completes k
completes (owns_any a k) = completes k
completes (in_pool b k) = completes b && completes k
completes (in_guard b k) = completes b && completes k
completes (ensuring b k) = completes b && completes k
completes (allowing b k) = completes b && completes k

module _ {T H : Type 0} (i : Interpreter T H) where
  -- The state after the body, and after what was unwound if it panics.
  unfoldable pub exec : Body → State T → State T
  unfolding completes
  exec done s = s
  exec panics s = s
  exec (increfs o k) s = exec k (register_incref o s)
  exec (decrefs o k) s = exec k (register_decref o s)
  exec (owns o k) s = exec k (register_owned o s)
  exec (owns_any a k) s = exec k (register_any a s)
  exec (in_pool b k) s =
      let t = drop_pool (new_pool s).0 (exec b (new_pool s).1) in
      elim (completes b) [ true ↦ exec k t | false ↦ t ]
  exec (in_guard b k) s =
      let t = drop_guard i (acquire i s).0 (exec b (acquire i s).1) in
      elim (completes b) [ true ↦ exec k t | false ↦ t ]
  exec (ensuring b k) s =
      let t = drop_ensured i (ensure_gil i s).0 (exec b (ensure_gil i s).1) in
      elim (completes b) [ true ↦ exec k t | false ↦ t ]
  exec (allowing b k) s =
      let t = resume i (suspend i s).0 (exec b (suspend i s).1) in
      elim (completes b) [ true ↦ exec k t | false ↦ t ]

  -- The code under a guard that is then dropped.
  abbrev pub with_guard : Body → State T → State T
  with_guard b s = drop_guard i (acquire i s).0 (exec b (acquire i s).1)

-- The references to `o` that the body takes, as far as it runs.
unfoldable pub gains : ℕ → Body → ℕ
unfolding completes
gains o done = 0
gains o panics = 0
gains o (increfs x k) = (if x == o then 1 else 0) + gains o k
gains o (decrefs x k) = gains o k
gains o (owns x k) = gains o k
gains o (owns_any a k) = gains o k
gains o (in_pool b k) = gains o b + elim (completes b) [ true ↦ gains o k | false ↦ 0 ]
gains o (in_guard b k) = gains o b + elim (completes b) [ true ↦ gains o k | false ↦ 0 ]
gains o (ensuring b k) = gains o b + elim (completes b) [ true ↦ gains o k | false ↦ 0 ]
gains o (allowing b k) = gains o b + elim (completes b) [ true ↦ gains o k | false ↦ 0 ]

-- Those that it gives up, or hands over to the innermost pool.
unfoldable pub losses : ℕ → Body → ℕ
unfolding completes
losses o done = 0
losses o panics = 0
losses o (increfs x k) = losses o k
losses o (decrefs x k) = (if x == o then 1 else 0) + losses o k
losses o (owns x k) = (if x == o then 1 else 0) + losses o k
losses o (owns_any a k) = losses o k
losses o (in_pool b k) = losses o b + elim (completes b) [ true ↦ losses o k | false ↦ 0 ]
losses o (in_guard b k) = losses o b + elim (completes b) [ true ↦ losses o k | false ↦ 0 ]
losses o (ensuring b k) = losses o b + elim (completes b) [ true ↦ losses o k | false ↦ 0 ]
losses o (allowing b k) = losses o b + elim (completes b) [ true ↦ losses o k | false ↦ 0 ]
