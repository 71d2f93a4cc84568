-- ===== src/Cell.antt =====
-- src/pycell.rs: `PyCell`, its borrow flag, and the operations that take and give back a borrow.
-- A guard (`PyRef`, `PyRefMut`) has no data but the cell's address: taking one returns the cell
-- with its flag changed, and its `drop` is a function on the cell.
pub mod Guards
pub mod Swap
mod Examples
use pyo.Base.{
  ℕ, ◌≡◌, Bool, not, if◌then◌else◌, ◌==◌, usize_max, usize_add, usize_sub, Outcome, ret, panic,
  Result, ok, err, expect, and_then,
}

-- `BorrowFlag::UNUSED` and `BorrowFlag::HAS_MUTABLE_BORROW`.
abbrev pub unused : ℕ
unused = 0

abbrev pub has_mutable_borrow : ℕ
has_mutable_borrow = usize_max

abbrev pub increment : ℕ → ℕ
increment flag = usize_add flag 1

abbrev pub decrement : ℕ → ℕ
decrement flag = usize_sub flag 1

pub data PyBorrowError : Type 0 where
  already_mutably_borrowed : PyBorrowError

pub data PyBorrowMutError : Type 0 where
  already_borrowed : PyBorrowMutError

pub record PyCell {ℓ} (A : Type ℓ) : Type ℓ where
  pub value : A
  pub borrow_flag : ℕ

-- What the closure of `replace_with` does with the value that it is lent: it leaves `lent` there
-- and returns a replacement, or panics. A panic unwinds through the guard, which is dropped.
pub record Replacement {ℓ} (A : Type ℓ) : Type ℓ where
  pub lent : A
  pub replacement : Outcome A

module _ {ℓ} {A : Type ℓ} where
  abbrev pub set_borrow_flag : ℕ → PyCell A → PyCell A
  set_borrow_flag flag c = record c { borrow_flag = flag }

  -- The cell as `py_init` and `internal_new` leave it.
  unfoldable pub new_cell : A → PyCell A
  new_cell v = record { value = v; borrow_flag = unused }

  unfoldable pub try_borrow : PyCell A → Result (PyCell A) PyBorrowError
  try_borrow c =
      if c.borrow_flag == has_mutable_borrow
      then err already_mutably_borrowed
      else ok (set_borrow_flag (increment c.borrow_flag) c)

  unfoldable pub try_borrow_mut : PyCell A → Result (PyCell A) PyBorrowMutError
  try_borrow_mut c =
      if not (c.borrow_flag == unused)
      then err already_borrowed
      else ok (set_borrow_flag has_mutable_borrow c)

  unfoldable pub try_borrow_unguarded : PyCell A → Result A PyBorrowError
  try_borrow_unguarded c =
      if c.borrow_flag == has_mutable_borrow then err already_mutably_borrowed else ok c.value

  unfoldable pub borrow : PyCell A → Outcome (PyCell A)
  unfolding try_borrow
  borrow c = expect "Already mutably borrowed" (try_borrow c)

  unfoldable pub borrow_mut : PyCell A → Outcome (PyCell A)
  unfolding try_borrow_mut
  borrow_mut c = expect "Already borrowed" (try_borrow_mut c)

  -- `Drop for PyRef` and `Drop for PyRefMut`.
  unfoldable pub drop_ref : PyCell A → PyCell A
  drop_ref c = set_borrow_flag (decrement c.borrow_flag) c

  unfoldable pub drop_ref_mut : PyCell A → PyCell A
  drop_ref_mut c = set_borrow_flag unused c

  -- A write through `DerefMut`.
  unfoldable pub write : A → PyCell A → PyCell A
  write v c = record c { value = v }

  unfoldable pub replace : A → PyCell A → Outcome (A × PyCell A)
  unfolding borrow_mut write drop_ref_mut
  replace t c = and_then (borrow_mut c) λ c'. ret (c'.value, drop_ref_mut (write t c'))

  finish_replace_with : PyCell A → A → Outcome A → Outcome A × PyCell A
  unfolding write drop_ref_mut
  finish_replace_with c lent (ret t) = (ret lent, drop_ref_mut (write t c))
  finish_replace_with c lent (panic s) = (panic s, drop_ref_mut (write lent c))

  unfoldable pub replace_with : (A → Replacement A) → PyCell A → Outcome A × PyCell A
  unfolding borrow_mut finish_replace_with
  replace_with f c = elim (borrow_mut c) [
    | ret c' ↦ finish_replace_with c' (f c'.value).lent (f c'.value).replacement
    | panic s ↦ (panic s, c)
  ]
