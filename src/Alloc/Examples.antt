-- ===== src/Alloc/Examples.antt =====
-- Objects of a class whose blocks are handed out in turn.
use pyo.Base.{
  ℕ, ◌≡◌, refl, arith, true, false, ◌⊎◌, inl, inr, ◌==◌, if◌then◌else◌, none, [], update, ret,
  Bool-cases,
}
use pyo.FreeList.{with_capacity, pop}
use pyo.FreeList.Stack.{with_capacity-Represents}
use pyo.Alloc.{Memory, Allocators, allocator, alloc, dealloc, new_object, default_new, placed}
use pyo.Alloc.Lives.{IsFresh, Sound}
use pyo.Alloc.Histories.{
  empty_memory, makes, Steps, stays, then_step, alloc_unused, alloc-subtype_block,
}

-- The first block among 1, 2 and 3 that is not allocated, or a failure.
abbrev first_free : (subtype : ℕ) → Memory ℕ → ℕ
first_free subtype s =
    if s.allocated 1 then (if s.allocated 2 then (if s.allocated 3 then 0 else 3) else 2) else 1

abbrev allocators : Allocators ℕ
allocators = record {
  extends_native = false;
  base_new = none;
  tp_alloc = none;
  generic_alloc = first_free;
}

first_free-IsFresh : IsFresh allocators
unfolding allocator
first_free-IsFresh subtype s h = elim (Bool-cases (s.allocated 1)) [
  | inl a ↦ elim (Bool-cases (s.allocated 2)) [
    | inl b ↦ elim (Bool-cases (s.allocated 3)) [
      | inl c ↦ absurd (ground (arith, a, b, c, h))
      | inr c ↦ rw (a, b, c) c
    ]
    | inr b ↦ rw (a, b) b
  ]
  | inr a ↦ rw a a
]

abbrev one_object : Memory ℕ
one_object = record {
  allocated = update (λ p. false) 1 true;
  made_for = update (λ p. 0) 1 8;
  objects = update (λ p. none) 1 (new_object 8);
  free_list = with_capacity 4;
}

-- An object of the class 8 in a class 8 with a free list of four slots.
history : Steps allocators 8 (empty_memory 4) one_object
unfolding alloc with_capacity pop default_new allocator placed
history = then_step stays (makes 8 1 refl)

alloc_unused_example :
    (p : ℕ) × (s' : Memory ℕ) × (alloc allocators 8 8 one_object ≡ ret (p, s'))
    × (((p ≡ 0) × (s'.objects ≡ one_object.objects))
        ⊎ ((one_object.objects p ≡ none)
            × (s'.objects ≡ update one_object.objects p (new_object 8))))
alloc_unused_example =
    alloc_unused allocators 8 4 8 one_object (omega arith) first_free-IsFresh history

one_object-Sound : Sound one_object []
one_object-Sound = record {
  holds = with_capacity-Represents 4 (omega arith);
  idle = tt;
  backed = λ p h. elim (Bool-cases (1 == p)) [
    | inl same ↦ absurd (ground (arith, h, same))
    | inr other ↦ rw other refl
  ];
}

-- The class 7 has the free list, and the object belongs to its subclass 8.
alloc-subtype_block_example :
    (s' s'' : Memory ℕ) × (dealloc 7 false 1 one_object ≡ ret s')
    × (alloc allocators 7 7 s' ≡ ret (1, s''))
    × (s''.made_for 1 ≡ 8)
    × (s''.objects 1 ≡ new_object 7)
unfolding with_capacity
alloc-subtype_block_example =
    alloc-subtype_block allocators 7 8 1 (record { ty = 8; value = none }) one_object []
      one_object-Sound refl refl (omega arith)
