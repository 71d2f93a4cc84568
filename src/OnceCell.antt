-- ===== src/OnceCell.antt =====
-- src/once_cell.rs: `GILOnceCell`. A closure can release the lock, so that other threads use the cell
-- before it ends: `get_or_init` is also given in the two halves that stand around the closure.
pub mod Races
mod Examples
use pyo.Base.{Option, none, some, Outcome, ret, panic, Result, ok, err}

pub record OnceCell {ℓ} (A : Type ℓ) : Type ℓ where
  pub inner : Option A

module _ {ℓ} {A : Type ℓ} where
  unfoldable pub new_once : OnceCell A
  new_once = record { inner = none }

  unfoldable pub get : OnceCell A → Option A
  get c = c.inner

  unfoldable pub set_inner : A → Option A → Result (Unit {0}) A × OnceCell A
  set_inner value none = (ok tt, record { inner = some value })
  set_inner value (some v) = (err value, record { inner = some v })

  unfoldable pub set : A → OnceCell A → Result (Unit {0}) A × OnceCell A
  unfolding set_inner
  set value c = set_inner value c.inner

  abbrev pub unwrap : Option A → Outcome A
  unwrap none = panic "called `Option::unwrap()` on a `None` value"
  unwrap (some v) = ret v

  -- After the closure: its value is written or discarded, and the cell's is returned.
  unfoldable pub finish_init : Outcome A → OnceCell A → Outcome A × OnceCell A
  unfolding get set
  finish_init (panic s) c = (panic s, c)
  finish_init (ret value) c = let c' = (set value c).1 in (unwrap (get c'), c')

  init_with : Option A → (OnceCell A → Outcome A × OnceCell A) → OnceCell A → Outcome A × OnceCell A
  unfolding finish_init
  init_with (some v) f c = (ret v, c)
  init_with none f c = let (o, c') = f c in finish_init o c'

  -- The closure `f` may use the cell itself.
  unfoldable pub get_or_init :
      (OnceCell A → Outcome A × OnceCell A) → OnceCell A → Outcome A × OnceCell A
  unfolding init_with get
  get_or_init f c = init_with (get c) f c
