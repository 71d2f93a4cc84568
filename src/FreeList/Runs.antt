-- ===== src/FreeList/Runs.antt =====
-- Any history of calls of the free list of src/freelist.rs.
use pyo.Base.{ℕ, ◌≤◌, ◌≡◌, refl, List, [], ◌∷◌, Option, isize_max, Outcome, ret, panic}
use pyo.FreeList.{FreeList, with_capacity, pop, insert}
use pyo.FreeList.Stack.{
  Represents, Yields, stack_pop, stack_insert, with_capacity-Represents, pop-Yields, insert-Yields,
}

pub data Call {ℓ} (A : Type ℓ) : Type ℓ where
  pops : Call A
  inserts : A → Call A

module _ {ℓ} {A : Type ℓ} where
  pub call : Call A → FreeList A → Outcome (Option A × FreeList A)
  call pops l = pop l
  call (inserts v) l = insert v l

  abbrev pub cons_result : Option A → Outcome (List (Option A)) → Outcome (List (Option A))
  cons_result o (ret os) = ret (o ∷ os)
  cons_result o (panic s) = panic s

  -- What each call hands out, until one panics.
  pub run : List (Call A) → FreeList A → Outcome (List (Option A))
  run [] l = ret []
  run (c ∷ cs) l = elim (call c l) [ ret (o, l') ↦ cons_result o (run cs l') | panic s ↦ panic s ]

  unfoldable pub stack_call : ℕ → Call A → List A → Option A × List A
  stack_call n pops xs = stack_pop xs
  stack_call n (inserts v) xs = stack_insert n v xs

  unfoldable pub stack_run : ℕ → List (Call A) → List A → List (Option A)
  stack_run n [] xs = []
  stack_run n (c ∷ cs) xs = (stack_call n c xs).0 ∷ stack_run n cs (stack_call n c xs).1

  call-Yields :
      (c : Call A) (l : FreeList A) (xs : List A)
      → Represents l xs
      → Yields (call c l) l.capacity (stack_call l.capacity c xs)
  unfolding call stack_call
  call-Yields pops l xs h = pop-Yields l xs h
  call-Yields (inserts v) l xs h = insert-Yields l v xs h

  run-stack_run :
      (cs : List (Call A)) (l : FreeList A) (xs : List A)
      → Represents l xs
      → run cs l ≡ ret (stack_run l.capacity cs xs)
  unfolding run stack_run
  run-stack_run [] l xs h = refl
  run-stack_run (c ∷ cs) l xs h =
      let y = call-Yields c l xs h in
      rw (y.returned, run) (rw (run-stack_run cs y.after _ y.holds, y.same) refl)

  -- A free list of at most `isize::MAX` slots never panics, whatever is called and in what order,
  -- and hands out what a stack does that takes a value only while it holds fewer than
  -- `capacity - 1`.
  pub run-with_capacity :
      (n : ℕ) (cs : List (Call A))
      → n ≤ isize_max
      → run cs (with_capacity n) ≡ ret (stack_run n cs [])
  unfolding with_capacity
  run-with_capacity n cs h = run-stack_run cs (with_capacity n) [] (with_capacity-Represents n h)
