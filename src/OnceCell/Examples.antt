-- ===== src/OnceCell/Examples.antt =====
-- Two threads that initialise one cell.
use pyo.Base.{ℕ, refl, none, some, [], ◌∷◌, ret}
use pyo.OnceCell.{get, set, set_inner, finish_init}
use pyo.OnceCell.Races.{Shared, Steps, enters, finishes, stays, then_step, AllAre, returned_agree}

abbrev fresh : Shared ℕ
fresh = record { cell = record { inner = none }; running = []; returned = [] }

abbrev raced : Shared ℕ
raced = record { cell = record { inner = some 7 }; running = []; returned = 7 ∷ 7 ∷ [] }

-- Thread 2 enters its closure after thread 1 and ends before it.
two_threads : Steps fresh raced
unfolding get set set_inner finish_init
two_threads =
    then_step
      (then_step (then_step (then_step stays (enters 1 refl)) (enters 2 refl))
        (finishes [] (1 ∷ []) 2 (ret 7) refl))
      (finishes [] [] 1 (ret 9) refl)

returned_agree_example : AllAre (get raced.cell) raced.returned
unfolding get
returned_agree_example = returned_agree two_threads tt
