-- ===== src/Handles/Examples.antt =====
-- Handles of objects at concrete inputs.
use pyo.Base.{
  ℕ, ◌+◌, ◌≡◌, refl, arith, true, ◌==◌, if◌then◌else◌, List, [], ◌∷◌, Option, none, some, ret, ok,
  err,
}
use pyo.Gil.{update_counts, register_incref, register_decref}
use pyo.Gil.ThreadState.{State}
use pyo.Refcount.{count}
use pyo.Handles.{option_into_ptr, SameWord, Functions, call, call_method}
use pyo.Handles.Histories.{Held, Operation, perform_all, clones, drops, gives}
use pyo.Handles.Pool.{counting, owed, counting-IsCounted, perform_all-refcnt}
use pyo.Handles.Leaves.{IsFair, IsNew}
use pyo.Handles.Calls.{call-owed, call_method-owed}

-- Every object has one reference, and the lock is held.
abbrev world : State ℕ
world = record {
  thread = 0;
  started = true;
  gil_count = 1;
  owned_objects = [];
  owned_anys = [];
  pointers_to_incref = [];
  pointers_to_decref = [];
  heap = record { refcnt = λ o. 1; freed = [] };
}

-- A function that returns a new reference, or null.
abbrev returns : ℕ → State ℕ → ℕ × State ℕ
returns ptr w = (ptr, if ptr == 0 then w else counting.incref ptr w)

returns-IsNew : (ptr : ℕ) → IsNew owed (returns ptr)
returns-IsNew ptr o w = ground (arith, counting-IsCounted.owed-incref o ptr w)

-- The attribute 5 is missing.
abbrev functions : Functions (State ℕ) ℕ
functions = record {
  fetch = λ w. (ret 3, w);
  print_error = λ w. w;
  get_attr = λ obj name w. returns (if name == 5 then 0 else 8) w;
  call_object = λ callable args kwargs w. returns 9 w;
  rich_compare = λ obj other op w. returns 7 w;
  object_is_true = λ obj w. (some true, w);
  set_attr = λ obj name value w. (true, w);
}

functions-IsFair : IsFair functions owed (λ o e. 0)
functions-IsFair = record {
  owed-fetch = λ o w e h. omega arith;
  owed-get_attr = λ o obj name w. returns-IsNew (if name == 5 then 0 else 8) o w;
  owed-call_object = λ o callable args kwargs w. returns-IsNew 9 o w;
  owed-rich_compare = λ o obj other op w. returns-IsNew 7 o w;
  owed-object_is_true = λ o obj w. refl;
}

-- The tuple 6 of the arguments is released, and the result 9 is new.
call-owed_example :
    SameWord (owed 6 (call counting functions 2 (returns 6) (some 4) world).1) (owed 6 world)
unfolding call
call-owed_example =
    call-owed counting functions owed (λ o e. 0) counting-IsCounted 6 functions-IsFair 2 (returns 6)
      (some 4) world (ok 9) (returns-IsNew 6) refl

-- The tuple 6 and the dictionary 4 are left where the attribute 5 is missing.
call_method-owed_example :
    SameWord
      (owed 6 (call_method counting functions 2 (returns 5) (returns 6) (some 4) world).1)
      (owed 6 world + 1)
unfolding call_method option_into_ptr
call_method-owed_example =
    call_method-owed counting functions owed (λ o e. 0) counting-IsCounted 6 functions-IsFair 2
      (returns 5) (returns 6) (some 4) world (err 3) (returns-IsNew 5) (returns-IsNew 6) refl

-- The lock is not held, so the counts are put off.
abbrev unlocked : Held (State ℕ)
unlocked = record { handles = 2 ∷ []; pointers = []; world = record world { gil_count = 0 } }

abbrev copy_and_drop : List Operation
copy_and_drop = clones 0 ∷ clones 1 ∷ drops 0 ∷ gives 0 ∷ []

left : Option (Held (State ℕ)) → List ℕ × List ℕ
left none = ([], [])
left (some s) = (s.handles, s.pointers)

copies : left (perform_all counting copy_and_drop unlocked) ≡ (2 ∷ [], 2 ∷ [])
unfolding left perform_all
copies = refl

missing : perform_all counting (drops 1 ∷ []) unlocked ≡ none
unfolding perform_all
missing = refl

perform_all-refcnt_example :
    SameWord
      ((update_counts (record world {
        gil_count = 0;
        pointers_to_incref = 2 ∷ 2 ∷ [];
        pointers_to_decref = 2 ∷ [];
      })).heap.refcnt
          2
        + count 2 (2 ∷ [])
        + count 2 [])
      ((update_counts unlocked.world).heap.refcnt 2 + count 2 (2 ∷ []) + count 2 (2 ∷ []))
unfolding perform_all register_incref register_decref
perform_all-refcnt_example =
    perform_all-refcnt copy_and_drop unlocked
      (record {
        handles = 2 ∷ [];
        pointers = 2 ∷ [];
        world = record world {
          gil_count = 0;
          pointers_to_incref = 2 ∷ 2 ∷ [];
          pointers_to_decref = 2 ∷ [];
        };
      })
      2 refl
