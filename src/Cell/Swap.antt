-- ===== src/Cell/Swap.antt =====
-- `PyCell::swap` of src/pycell.rs, on a store of cells, where the two references may be one.
use pyo.Base.{
  ℕ, ◌≡◌, ◌≢◌, arith, ◌==◌, if◌then◌else◌, Bool, true, false, ◌⊎◌, update, Outcome, ret, panic,
}
use pyo.Cell.{PyCell, unused, new_cell, borrow_mut, drop_ref_mut, write}

module _ {ℓ} {A : Type ℓ} where
  -- `mem::swap` through the two guards `a` and `b`; then the guards are dropped, the later first.
  swap_values : ℕ → ℕ → PyCell A → PyCell A → (ℕ → PyCell A) → ℕ → PyCell A
  unfolding write drop_ref_mut
  swap_values i j a b cells =
      update (update cells j (drop_ref_mut (write a.value b))) i (drop_ref_mut (write b.value a))

  -- The second `borrow_mut`; a panic drops the first guard.
  swap_second : ℕ → ℕ → PyCell A → (ℕ → PyCell A) → Outcome (Unit {0}) × (ℕ → PyCell A)
  unfolding borrow_mut swap_values drop_ref_mut
  swap_second i j a cells = elim (borrow_mut (cells j)) [
    | ret b ↦ (ret tt, swap_values i j a b cells)
    | panic s ↦ (panic s, update cells i (drop_ref_mut (cells i)))
  ]

  unfoldable pub swap : ℕ → ℕ → (ℕ → PyCell A) → Outcome (Unit {0}) × (ℕ → PyCell A)
  unfolding borrow_mut swap_second
  swap i j cells = elim (borrow_mut (cells i)) [
    | ret a ↦ swap_second i j a (update cells i a)
    | panic s ↦ (panic s, cells)
  ]

  abbrev pub is_unused : PyCell A → Bool
  is_unused c = c.borrow_flag == unused

  -- Swapping two different cells, both unborrowed, exchanges their values and touches nothing else.
  pub swap_distinct :
      (i j k : ℕ) (cells : ℕ → PyCell A)
      → i ≢ j
      → is_unused (cells i) ≡ true
      → is_unused (cells j) ≡ true
      → ((swap i j cells).0 ≡ ret tt)
        × ((swap i j cells).1 k ≡ (
            if i == k
            then new_cell (cells j).value
            else (if j == k then new_cell (cells i).value else cells k)))
  unfolding swap new_cell
  swap_distinct i j k cells d hi hj = ground arith

  -- Swapping a cell with itself, or with a guard of either cell alive, panics and leaves every cell
  -- as it was.
  pub swap_refused :
      (i j k : ℕ) (cells : ℕ → PyCell A)
      → (i ≡ j) ⊎ (is_unused (cells i) ≡ false) ⊎ (is_unused (cells j) ≡ false)
      → ((swap i j cells).0 ≡ panic "Already borrowed") × ((swap i j cells).1 k ≡ cells k)
  unfolding swap
  swap_refused i j k cells h = ground arith
