-- ===== src/FreeList/Examples.antt =====
-- Runs of the free list of src/freelist.rs.
use pyo.Base.{ℕ, ◌≡◌, arith, List, [], ◌∷◌, none, some, ret}
use pyo.FreeList.{with_capacity}
use pyo.FreeList.Runs.{Call, pops, inserts, run, run-with_capacity, stack_run, stack_call}

-- A list of capacity 3 holds two values.
abbrev calls : List (Call ℕ)
calls = inserts 7 ∷ inserts 8 ∷ inserts 9 ∷ pops ∷ pops ∷ pops ∷ []

run-with_capacity_example :
    run calls (with_capacity 3) ≡ ret (none ∷ none ∷ some 9 ∷ some 8 ∷ some 7 ∷ none ∷ [])
unfolding stack_run stack_call
run-with_capacity_example = run-with_capacity 3 calls (omega arith)
