-- ===== src/Cell/Examples.antt =====
-- Runs of src/pycell.rs.
use pyo.Base.{ℕ, ◌≡◌, refl, ◌⊎◌}
use pyo.Cell.{new_cell, try_borrow}
use pyo.Cell.Guards.{Live, Reach, start, later, borrows, exclusive}

abbrev one_ref : Live ℕ
one_ref = record { cell = record { value = 5; borrow_flag = 1 }; refs = 1; muts = 0 }

one_ref-Reach : Reach 5 one_ref
unfolding new_cell try_borrow
one_ref-Reach = later start (borrows one_ref.cell refl)

exclusive_example : (one_ref.muts ≡ 0) ⊎ ((one_ref.muts ≡ 1) × (one_ref.refs ≡ 0))
exclusive_example = exclusive one_ref-Reach
