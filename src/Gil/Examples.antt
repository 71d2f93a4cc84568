-- ===== src/Gil/Examples.antt =====
-- Runs of src/gil.rs over an interpreter whose state is whether the thread has the lock.
use pyo.Base.{◌+◌, ◌%◌, ◌≡◌, refl, arith, Bool, true, false, [], ◌∷◌, usize_mod}
use pyo.Refcount.{count}
use pyo.Gil.ThreadState.{Interpreter, IsLawful, State}
use pyo.Gil.{update_counts}
use pyo.Gil.Updates.{update_counts_keeps, update_counts_race, raced_update_counts}
use pyo.Gil.Scopes.{
  Body, done, panics, increfs, decrefs, owns, owns_any, in_pool, ensuring, allowing, with_guard,
  gains, losses,
}
use pyo.Gil.Scopes.Pools.{IsReady}
use pyo.Gil.Scopes.Balance.{guard_balance}

abbrev lock : Interpreter Bool Bool
lock = record {
  is_initialized = λ held. true;
  initialize = λ held. true;
  ensure = λ held. (held, true);
  release = λ before held. before;
  save = λ held. (held, false);
  restore = λ before held. before;
}

lock-IsLawful : IsLawful lock
lock-IsLawful = record { release-ensure = λ t. refl; restore-save = λ t. refl }

-- Every object has two references; object 4 waits for one more and for two less.
abbrev waiting : State Bool
waiting = record {
  thread = false;
  started = true;
  gil_count = 0;
  owned_objects = [];
  owned_anys = [];
  pointers_to_incref = 4 ∷ [];
  pointers_to_decref = 4 ∷ 4 ∷ 5 ∷ 5 ∷ [];
  heap = record { refcnt = λ o. 2; freed = [] };
}

update_counts_keeps_example : count 4 (update_counts waiting).freed ≡ 0
update_counts_keeps_example = update_counts_keeps 4 waiting (omega arith) (omega arith)

-- One reference to object 4 is alive in `waiting`.
update_counts_race_example :
    (count 4 (raced_update_counts 4 waiting).freed ≡ 1)
    × (count 4 (raced_update_counts 4 waiting).pointers_to_incref ≡ 1)
update_counts_race_example = update_counts_race 4 waiting (omega arith) refl

waiting-IsReady : IsReady waiting
waiting-IsReady = record { started = refl; bounded = omega arith }

-- A clone made without the lock, an object given to a nested pool, and a panic.
abbrev nested : Body
nested =
    in_pool (owns 6 (owns_any 1 (allowing (increfs 4 (ensuring (decrefs 7 done) done)) done)))
      (owns 8 panics)

guard_balance_example :
    let t = with_guard lock nested waiting in
    (t.owned_objects ≡ [])
    × (t.owned_anys ≡ [])
    × ((t.refcnt 4 + count 4 t.pointers_to_incref + 2 + losses 4 nested) % usize_mod
        ≡ (2 + 1 + count 4 t.pointers_to_decref + gains 4 nested) % usize_mod)
guard_balance_example = guard_balance lock lock-IsLawful 4 nested waiting waiting-IsReady refl
