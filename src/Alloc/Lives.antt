-- ===== src/Alloc/Lives.antt =====
-- Objects that are made and dropped, with a free list (src/freelist.rs).
use pyo.Base.{
  true-false, ==_iff, ==-same, ℕ, ◌+◌, ◌≡◌, refl, sym, ap, ◌∙◌, arith, Bool, true, false, ◌&&◌, ◌⊎◌,
  Bool-cases, inl, inr, ◌==◌, ltb, Option, none, some, List, [], ◌∷◌, length, update, Outcome, ret,
  and_then,
}
use pyo.FreeList.{FreeList, pop, insert}
use pyo.FreeList.Stack.{Represents, Yields, pop-Yields, insert-Yields}
use pyo.Alloc.{
  Object, Memory, Allocators, allocator, default_new, placed, popped, alloc, free, inserted,
  dealloc, drop_value, has_type, with_object, new_object,
}
use pyo.Alloc.Blocks.{
  AllIdle, AllIdle-update, AllIdle-object, IsAbsent-unallocated, IsAbsent-object,
}

pub and_false : (b : Bool) → b && false ≡ false
and_false true = refl
and_false false = refl

module _ {V : Type 0} where
  -- The free list holds the blocks xs, none of them in use, and objects live in allocated blocks.
  pub record Sound (s : Memory V) (xs : List ℕ) : Type 0 where
    pub holds : Represents s.free_list xs
    pub idle : AllIdle s.allocated s.objects xs
    pub backed : (p : ℕ) → s.allocated p ≡ false → s.objects p ≡ none

  backed_update :
      (s : Memory V) (p subtype : ℕ)
      → ((q : ℕ) → s.allocated q ≡ false → s.objects q ≡ none)
      → (q : ℕ) → update s.allocated p true q ≡ false
      → update s.objects p (new_object subtype) q ≡ none
  backed_update s p subtype backed q h = elim (Bool-cases (p == q)) [
    | inl same ↦ absurd (true-false (rw same at h))
    | inr other ↦ rw other (backed q (rw other at h))
  ]

  pub backed_object :
      (s : Memory V) (p : ℕ) (o : Option (Object V))
      → ((q : ℕ) → s.allocated q ≡ false → s.objects q ≡ none)
      → s.allocated p ≡ true
      → (q : ℕ) → s.allocated q ≡ false
      → update s.objects p o q ≡ none
  backed_object s p o backed is q h = elim (Bool-cases (p == q)) [
    | inl same ↦ absurd (true-false (sym is ∙ ap s.allocated ((==_iff p q).0 same) ∙ h))
    | inr other ↦ rw other (backed q h)
  ]

  pub lives_allocated :
      (s : Memory V) (xs : List ℕ) (p : ℕ) (o : Object V)
      → Sound s xs
      → s.objects p ≡ some o
      → s.allocated p ≡ true
  lives_allocated s xs p o sound lives = elim (Bool-cases (s.allocated p)) [
    | inl is ↦ is
    | inr un ↦ absurd (ground (arith, sym lives ∙ sound.backed p un))
  ]

  -- An allocator gives blocks that are not allocated.
  abbrev pub IsFresh : Allocators V → Type 0
  IsFresh a =
      (subtype : ℕ) (s : Memory V)
      → (allocator a subtype s == 0) ≡ false
      → s.allocated (allocator a subtype s) ≡ false

  -- The allocation of an object succeeds or fails; either way memory stays sound, and no object
  -- lived at the address before.
  abbrev pub Allocates : Memory V → ℕ → Outcome (ℕ × Memory V) → Type 0
  Allocates s subtype r =
      (p : ℕ) × (s' : Memory V) × (xs : List ℕ) × (r ≡ ret (p, s'))
      × Sound s' xs
      × (((p ≡ 0) × (s'.objects ≡ s.objects))
          ⊎ ((s.objects p ≡ none) × (s'.objects ≡ update s.objects p (new_object subtype))))

  placed-Allocates :
      (s : Memory V) (xs : List ℕ) (subtype p : ℕ)
      → Sound s xs
      → ((p == 0) ≡ false → s.allocated p ≡ false)
      → Allocates s subtype (ret (placed subtype p s))
  unfolding placed
  placed-Allocates s xs subtype p sound fresh = elim (Bool-cases (p == 0)) [
    | inl failed ↦ rw failed (0, s, xs, refl, sound, inl (refl, refl))
    | inr given ↦ rw given (
      p,
      _,
      xs,
      refl,
      record {
        holds = sound.holds;
        idle =
            AllIdle-update s.allocated s.objects p true (new_object subtype) xs
              (IsAbsent-unallocated s.allocated s.objects p xs sound.idle (fresh given)) sound.idle;
        backed = λ q h. backed_update s p subtype sound.backed q h;
      },
      inr (sound.backed p (fresh given), refl),
    )
  ]

  alloc_exact :
      (a : Allocators V) (subtype : ℕ) (s : Memory V) (xs : List ℕ)
      → IsFresh a
      → Sound s xs
      → Allocates s subtype (and_then (pop s.free_list) λ r. ret (popped a subtype s r))
  unfolding popped default_new
  alloc_exact a subtype s [] fresh sound =
      let y = pop-Yields s.free_list [] sound.holds in
      let s' = record s { free_list = y.after } in
      rw y.returned (
        placed-Allocates s' [] subtype (allocator a subtype s')
          (record { holds = y.holds; idle = tt; backed = sound.backed }) (fresh subtype s'))
  alloc_exact a subtype s (x ∷ xs) fresh sound =
      let y = pop-Yields s.free_list (x ∷ xs) sound.holds in
      let ((is, empty), alone, idle) = sound.idle in
      rw y.returned (
        x,
        _,
        xs,
        refl,
        record {
          holds = y.holds;
          idle = AllIdle-object s.allocated s.objects x (new_object subtype) xs alone idle;
          backed = λ q h. backed_object s x (new_object subtype) sound.backed is q h;
        },
        inr (empty, refl),
      )

  -- `PyClassAlloc::new` with a free list never panics, and never gives the address of an object that
  -- is alive; its allocators give blocks that are not allocated.
  pub alloc-Allocates :
      (a : Allocators V) (own subtype : ℕ) (s : Memory V) (xs : List ℕ)
      → IsFresh a
      → Sound s xs
      → Allocates s subtype (alloc a own subtype s)
  unfolding alloc popped default_new
  alloc-Allocates a own subtype s xs fresh sound = elim (Bool-cases (subtype == own)) [
    | inl exact ↦ rw exact (alloc_exact a subtype s xs fresh sound)
    | inr other ↦ rw other (placed-Allocates s xs subtype _ sound (fresh subtype s))
  ]

  -- What is left when the object at p is gone.
  abbrev pub Gone : ℕ → Memory V → Outcome (Memory V) → Type 0
  Gone p s r =
      (s' : Memory V) × (ys : List ℕ) × (r ≡ ret s')
      × Sound s' ys
      × (s'.objects p ≡ none)
      × ((q : ℕ) → (p == q) ≡ false → s'.objects q ≡ s.objects q)

  inserted_kept :
      (p : ℕ) (o : Object V) (d : Option (Object V)) (s : Memory V) (xs : List ℕ) (l : FreeList ℕ)
      → Sound s xs
      → s.objects p ≡ some o
      → Represents l (p ∷ xs)
      → Gone p s (ret (inserted p (with_object p d s) (none, l)))
  unfolding inserted
  inserted_kept p o d s xs l sound lives holds =
      let is = lives_allocated s xs p o sound lives in
      let absent = IsAbsent-object s.allocated s.objects p o xs sound.idle lives in
      let idle = AllIdle-object s.allocated s.objects p d xs absent sound.idle in
      (
        _,
        p ∷ xs,
        refl,
        record {
          holds = holds;
          idle = (
            (is, rw (==-same p) refl),
            absent,
            AllIdle-object s.allocated (update s.objects p d) p none xs absent idle,
          );
          backed = λ q h. elim (Bool-cases (p == q)) [
            | inl same ↦ rw same refl
            | inr other ↦ rw other (sound.backed q h)
          ];
        },
        rw (==-same p) refl,
        λ q other. rw other refl,
      )

  inserted_freed :
      (p : ℕ) (o : Object V) (d : Option (Object V)) (s : Memory V) (xs : List ℕ) (l : FreeList ℕ)
      → Sound s xs
      → s.objects p ≡ some o
      → Represents l xs
      → Gone p s (ret (inserted p (with_object p d s) (some p, l)))
  unfolding inserted free
  inserted_freed p o d s xs l sound lives holds =
      let absent = IsAbsent-object s.allocated s.objects p o xs sound.idle lives in
      let idle = AllIdle-object s.allocated s.objects p d xs absent sound.idle in
      (
        _,
        xs,
        refl,
        record {
          holds = holds;
          idle = AllIdle-update s.allocated (update s.objects p d) p false none xs absent idle;
          backed = λ q h. elim (Bool-cases (p == q)) [
            | inl same ↦ rw same refl
            | inr other ↦ rw other (sound.backed q (rw other at h))
          ];
        },
        rw (==-same p) refl,
        λ q other. rw other refl,
      )

  -- An object that is dropped and not resurrected is gone, no other object changes, and memory stays
  -- sound.
  pub dealloc-Sound :
      (own p : ℕ) (o : Object V) (s : Memory V) (xs : List ℕ)
      → Sound s xs
      → s.objects p ≡ some o
      → Gone p s (dealloc own false p s)
  unfolding dealloc
  dealloc-Sound own p o s xs sound lives =
      elim (Bool-cases (ltb (length xs + 1) s.free_list.capacity)) [
        | inl fits ↦
            let y : Yields (insert p s.free_list) s.free_list.capacity (none, p ∷ xs) =
              rw fits at (insert-Yields s.free_list p xs sound.holds) in
            rw (and_false (has_type own (s.objects p)), y.returned)
              (inserted_kept p o (drop_value (s.objects p)) s xs y.after sound lives y.holds)
        | inr full ↦
            let y : Yields (insert p s.free_list) s.free_list.capacity (some p, xs) =
              rw full at (insert-Yields s.free_list p xs sound.holds) in
            rw (and_false (has_type own (s.objects p)), y.returned)
              (inserted_freed p o (drop_value (s.objects p)) s xs y.after sound lives y.holds)
      ]
